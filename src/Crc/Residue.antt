-- ===== src/Crc/Residue.antt =====
-- getcrc32 of source/crc.c over a message that ends in its own checksum.
use opensrthub.Base.{ℕ, ◌*◌, ◌/◌, ◌%◌, ◌^◌, ◌<◌, ◌≡◌, refl, List, [], ◌∷◌, ◌++◌, All, arith}
use opensrthub.Bits.{zero-xor, xor_self}
use opensrthub.Crc.{crc_step, crc_loop, getcrc32}
use opensrthub.Crc.Bitwise.{crc_step-lt}

crc_loop-append : (r : ℕ) (xs ys : List ℕ) → crc_loop r (xs ++ ys) ≡ crc_loop (crc_loop r xs) ys
unfolding crc_loop
crc_loop-append r [] ys = refl
crc_loop-append r (x ∷ xs) ys = crc_loop-append (crc_step r x) xs ys

pub crc_loop-lt :
    (r : ℕ) (message : List ℕ)
    → r < 2 ^ 32
    → All (λ b. b < 256) message
    → crc_loop r message < 2 ^ 32
unfolding crc_loop
crc_loop-lt r [] h bytes = h
crc_loop-lt r (b ∷ rest) h (hb, bytes) =
    crc_loop-lt (crc_step r b) rest (crc_step-lt r b h hb) bytes

-- The checksum as a section carries it, the highest byte first.
abbrev pub checksum_bytes : ℕ → List ℕ
checksum_bytes r = r / 2 ^ 24 % 256 ∷ r / 2 ^ 16 % 256 ∷ r / 2 ^ 8 % 256 ∷ r % 256 ∷ []

-- Its own top byte leaves a remainder with nothing but the shift.
crc_step_top : (r byte : ℕ) → r < 2 ^ 32 → byte ≡ r / 2 ^ 24 → crc_step r byte ≡ r * 2 ^ 8 % 2 ^ 32
unfolding crc_step
crc_step_top r byte h e = rw (e, xor_self (r / 2 ^ 24)) (zero-xor (r * 2 ^ 8 % 2 ^ 32))

crc_loop-checksum_bytes : (r : ℕ) → r < 2 ^ 32 → crc_loop r (checksum_bytes r) ≡ 0
unfolding crc_loop
crc_loop-checksum_bytes r h =
    rw
      (
        crc_step_top r (r / 2 ^ 24 % 256) h (omega arith),
        crc_step_top (r * 2 ^ 8 % 2 ^ 32) (r / 2 ^ 16 % 256) (omega arith) (omega arith),
        crc_step_top (r * 2 ^ 8 % 2 ^ 32 * 2 ^ 8 % 2 ^ 32) (r / 2 ^ 8 % 256) (omega arith)
            (omega arith),
        crc_step_top (r * 2 ^ 8 % 2 ^ 32 * 2 ^ 8 % 2 ^ 32 * 2 ^ 8 % 2 ^ 32) (r % 256) (omega arith)
            (omega arith),
      )
      (omega arith)

-- A message of bytes followed by its own checksum, the highest byte first, has checksum 0.
pub getcrc32-checksum_bytes :
    (message : List ℕ)
    → All (λ b. b < 256) message
    → getcrc32 (message ++ checksum_bytes (getcrc32 message)) ≡ 0
unfolding getcrc32
getcrc32-checksum_bytes message bytes = rw (crc_loop-append 0xffff_ffff message) (
    crc_loop-checksum_bytes (crc_loop 0xffff_ffff message)
      (crc_loop-lt 0xffff_ffff message (omega arith) bytes))
