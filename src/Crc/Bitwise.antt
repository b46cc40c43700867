-- ===== src/Crc/Bitwise.antt =====
-- The table of source/crc.c against the polynomial division that it stands for: CRC-32/MPEG-2, one bit
-- at a time.
use Prim.Native.Nat.{bit_xor}
use Prim.Native.Nat.mul
use opensrthub.Base.{
  ℕ, zero, suc, ◌+◌, ◌*◌, ◌/◌, ◌%◌, ◌^◌, ◌<◌, ◌≡◌, refl, true, List, [], ◌∷◌, get_or, All, arith,
  ◌==◌, ==_iff, all_below, all_below_sound,
}
use opensrthub.Bits.{
  zero-xor, xor-zero, xor_self, xor_comm, xor_fields, xor-lt, xor_double, xor_interchange,
}
use opensrthub.Crc.{crc_table, table_index, crc_step, crc_loop, getcrc32}

-- x^32 + x^26 + x^23 + x^22 + x^16 + x^12 + x^11 + x^10 + x^8 + x^7 + x^5 + x^4 + x^2 + x + 1
abbrev pub polynomial : ℕ
polynomial = 0x04c1_1db7

-- Shift one bit out at the top, and subtract the polynomial if it was set.
unfoldable pub shift_bit : ℕ → ℕ
shift_bit r = bit_xor (r * 2 % 2 ^ 32) (r / 2 ^ 31 * polynomial)

unfoldable pub shift_bits : ℕ → ℕ → ℕ
unfolding shift_bit
shift_bits zero r = r
shift_bits (suc n) r = shift_bits n (shift_bit r)

-- A byte enters at the top, and eight bits are divided out.
unfoldable pub divide_byte : ℕ → ℕ → ℕ
unfolding shift_bits
divide_byte r byte = shift_bits 8 (bit_xor r (byte * 2 ^ 24))

unfoldable pub divide : ℕ → List ℕ → ℕ
unfolding divide_byte
divide r [] = r
divide r (byte ∷ rest) = divide (divide_byte r byte) rest

table_entries : all_below (λ d. get_or crc_table d 0 == shift_bits 8 (d * 2 ^ 24)) 256 ≡ true
unfolding all_below crc_table shift_bits
table_entries = refl

table_entry : (d : ℕ) → d < 256 → get_or crc_table d 0 ≡ shift_bits 8 (d * 2 ^ 24)
table_entry d h = (==_iff _ _).0 (all_below_sound _ 256 d h table_entries)

shift_bit-lt : (r : ℕ) → r < 2 ^ 32 → shift_bit r < 2 ^ 32
unfolding shift_bit
shift_bit-lt r h = xor-lt 32 (r * 2 % 2 ^ 32) (r / 2 ^ 31 * polynomial) (omega arith) (omega arith)

bit_times : (x y c : ℕ) → x < 2 → y < 2 → bit_xor x y * c ≡ bit_xor (x * c) (y * c)
bit_times zero y c h g = rw (zero-xor y, mul.zero c, zero-xor (y * c))
bit_times (suc zero) zero c h g = ground (arith, xor-zero 1, xor-zero (1 * c))
bit_times (suc zero) (suc zero) c h g = ground (arith, xor_self 1, xor_self (1 * c))
bit_times (suc zero) (suc (suc y)) c h g = absurd (omega arith)
bit_times (suc (suc x)) y c h g = absurd (omega arith)

module _ (a b : ℕ) (ha : a < 2 ^ 32) (hb : b < 2 ^ 32) where
  top_bits :
      (bit_xor a b / 2 ^ 31 ≡ bit_xor (a / 2 ^ 31) (b / 2 ^ 31))
      × (bit_xor a b % 2 ^ 31 ≡ bit_xor (a % 2 ^ 31) (b % 2 ^ 31))
  top_bits =
      let low = xor-lt 31 (a % 2 ^ 31) (b % 2 ^ 31) (omega arith) (omega arith) in
      let sides =
        xor_fields 31 (a / 2 ^ 31) (b / 2 ^ 31) (a % 2 ^ 31) (b % 2 ^ 31) (omega arith)
          (omega arith) in
      let a_parts : a / 2 ^ 31 * 2 ^ 31 + a % 2 ^ 31 ≡ a = omega arith in
      let b_parts : b / 2 ^ 31 * 2 ^ 31 + b % 2 ^ 31 ≡ b = omega arith in
      let whole : bit_xor a b
          ≡ bit_xor (a / 2 ^ 31) (b / 2 ^ 31) * 2 ^ 31 + bit_xor (a % 2 ^ 31) (b % 2 ^ 31) =
        rw (a_parts, b_parts) at sides in
      omega (arith, whole, low)

  shift_bit-xor : shift_bit (bit_xor a b) ≡ bit_xor (shift_bit a) (shift_bit b)
  unfolding shift_bit
  shift_bit-xor =
      let (high, low) = top_bits in
      let la : a * 2 % 2 ^ 32 ≡ a % 2 ^ 31 * 2 = omega arith in
      let lb : b * 2 % 2 ^ 32 ≡ b % 2 ^ 31 * 2 = omega arith in
      let lc : bit_xor a b * 2 % 2 ^ 32 ≡ bit_xor a b % 2 ^ 31 * 2 = omega arith in
      rw
        (
          la,
          lb,
          lc,
          high,
          low,
          ← xor_double (a % 2 ^ 31) (b % 2 ^ 31),
          bit_times (a / 2 ^ 31) (b / 2 ^ 31) polynomial (omega arith) (omega arith),
        )
        (xor_interchange _ _ _ _)

shift_bits-xor :
    (n a b : ℕ)
    → a < 2 ^ 32
    → b < 2 ^ 32
    → shift_bits n (bit_xor a b) ≡ bit_xor (shift_bits n a) (shift_bits n b)
unfolding shift_bits
shift_bits-xor zero a b ha hb = refl
shift_bits-xor (suc n) a b ha hb =
    rw (shift_bit-xor a b ha hb)
      (shift_bits-xor n (shift_bit a) (shift_bit b) (shift_bit-lt a ha) (shift_bit-lt b hb))

shift_bits-lt : (n r : ℕ) → r < 2 ^ 32 → shift_bits n r < 2 ^ 32
unfolding shift_bits
shift_bits-lt zero r h = h
shift_bits-lt (suc n) r h = shift_bits-lt n (shift_bit r) (shift_bit-lt r h)

shift_bit_small : (r : ℕ) → r < 2 ^ 31 → shift_bit r ≡ r * 2
unfolding shift_bit
shift_bit_small r h =
    let top : r / 2 ^ 31 ≡ 0 = omega arith in rw (top, mul.zero polynomial, xor-zero) (omega arith)

shift_bits_small : (low : ℕ) → low < 2 ^ 24 → shift_bits 8 low ≡ low * 2 ^ 8
unfolding shift_bits
shift_bits_small low h =
    rw
      (
        shift_bit_small (low) (omega arith),
        shift_bit_small (low * 2) (omega arith),
        shift_bit_small (low * 2 * 2) (omega arith),
        shift_bit_small (low * 2 * 2 * 2) (omega arith),
        shift_bit_small (low * 2 * 2 * 2 * 2) (omega arith),
        shift_bit_small (low * 2 * 2 * 2 * 2 * 2) (omega arith),
        shift_bit_small (low * 2 * 2 * 2 * 2 * 2 * 2) (omega arith),
        shift_bit_small (low * 2 * 2 * 2 * 2 * 2 * 2 * 2) (omega arith),
      )
      (omega arith)

module _ (r byte : ℕ) (hr : r < 2 ^ 32) (hb : byte < 256) where
  entering : bit_xor r (byte * 2 ^ 24) ≡ bit_xor (table_index r byte * 2 ^ 24) (r % 2 ^ 24)
  entering =
      let d : ℕ = bit_xor byte (r / 2 ^ 24) in
      let parts : r / 2 ^ 24 * 2 ^ 24 + r % 2 ^ 24 ≡ r = omega arith in
      let sides = xor_fields 24 (r / 2 ^ 24) byte (r % 2 ^ 24) 0 (omega arith) (omega arith) in
      let again = xor_fields 24 d 0 0 (r % 2 ^ 24) (omega arith) (omega arith) in
      ground (
        arith,
        parts,
        sides,
        again,
        xor-zero (r % 2 ^ 24),
        zero-xor (r % 2 ^ 24),
        xor-zero d,
        xor_comm byte (r / 2 ^ 24),
        xor-lt 8 byte (r / 2 ^ 24) hb (omega arith),
      )

  crc_step-divide_byte : crc_step r byte ≡ divide_byte r byte
  unfolding crc_step divide_byte
  crc_step-divide_byte =
      let low : r * 2 ^ 8 % 2 ^ 32 ≡ r % 2 ^ 24 * 2 ^ 8 = omega arith in
      rw
        (
          entering,
          shift_bits-xor 8 (table_index r byte * 2 ^ 24) (r % 2 ^ 24) (omega arith) (omega arith),
          shift_bits_small (r % 2 ^ 24) (omega arith),
          ← table_entry (table_index r byte) (omega arith),
          low,
        )
        refl

  pub crc_step-lt : crc_step r byte < 2 ^ 32
  unfolding divide_byte
  crc_step-lt =
      rw crc_step-divide_byte
        (shift_bits-lt 8 (bit_xor r (byte * 2 ^ 24)) (xor-lt 32 r (byte * 2 ^ 24) hr (omega arith)))

-- What any start value and message give: the table loop is the bitwise division.
crc_loop-divide :
    (r : ℕ) (message : List ℕ)
    → r < 2 ^ 32
    → All (λ b. b < 256) message
    → crc_loop r message ≡ divide r message
unfolding crc_loop divide
crc_loop-divide r [] hr bytes = refl
crc_loop-divide r (byte ∷ rest) hr (hb, bytes) =
    rw (← crc_step-divide_byte r byte hr hb)
      (crc_loop-divide (crc_step r byte) rest (crc_step-lt r byte hr hb) bytes)

-- For every message of bytes the table-driven getcrc32 is the CRC-32/MPEG-2 of the message: the
-- remainder of the bitwise division by the polynomial 0x04c11db7, started from all ones.
pub getcrc32-divide :
    (message : List ℕ) → All (λ b. b < 256) message → getcrc32 message ≡ divide 0xffff_ffff message
unfolding getcrc32
getcrc32-divide message bytes = crc_loop-divide 0xffff_ffff message (omega arith) bytes
