-- ===== src/Crc/Tests.antt =====
-- Tests of source/crc.c, and its theorems at a concrete message.
use opensrthub.Base.{ℕ, ◌≡◌, refl, arith, List, [], ◌∷◌, ◌++◌}
use opensrthub.Crc.{getcrc32}
use opensrthub.Crc.Bitwise.{divide, getcrc32-divide}
use opensrthub.Crc.Residue.{checksum_bytes, getcrc32-checksum_bytes}

-- "123456789"
abbrev digits : List ℕ
digits = 0x31 ∷ 0x32 ∷ 0x33 ∷ 0x34 ∷ 0x35 ∷ 0x36 ∷ 0x37 ∷ 0x38 ∷ 0x39 ∷ []

-- The published check value of CRC-32/MPEG-2.
check_value : getcrc32 digits ≡ 0x0376_e6e7
unfolding getcrc32
check_value = refl

getcrc32-divide_example : getcrc32 digits ≡ divide 0xffff_ffff digits
getcrc32-divide_example = getcrc32-divide digits (omega arith)

getcrc32-checksum_bytes_example : getcrc32 (digits ++ checksum_bytes (getcrc32 digits)) ≡ 0
getcrc32-checksum_bytes_example = getcrc32-checksum_bytes digits (omega arith)
