-- ===== src/Video/Golomb.antt =====
-- br_ue of source/srthub.c against the unsigned Exp-Golomb code (9.1 of H.264), read at a position.
use opensrthub.Base.{
  ℕ, zero, suc, ◌+◌, ◌-◌, ◌*◌, ◌%◌, ◌^◌, ◌≤◌, ◌<◌, ◌≡◌, subst, ap, ◌∙◌, false, Option, none, some,
  List, arith, ltb, leb, if◌then◌else◌,
}
use native.Mathlib.Nat.{pow-suc}
use opensrthub.Video.Nal.{bit_at, br_u1, count_zeros, read_bits, golomb, br_ue}

-- The number of the `k` bits from `pos` on behind those of `v`.
unfoldable pub field : List ℕ → ℕ → ℕ → ℕ → ℕ
field d zero pos v = v
field d (suc k) pos v = field d k (suc pos) (v * 2 + bit_at d pos)

-- `z` zeros and a one from `pos` on.
unfoldable pub Prefix : List ℕ → ℕ → ℕ → Type 0
Prefix d zero pos = bit_at d pos ≡ 1
Prefix d (suc z) pos = (bit_at d pos ≡ 0) × Prefix d z (suc pos)

pow_le : (j n : ℕ) → j ≤ n → 2 ^ j ≤ 2 ^ n
pow_le zero zero h = omega arith
pow_le zero (suc n) h = omega (arith, pow-suc 2 n, pow_le zero n)
pow_le (suc j) zero h = absurd (omega arith)
pow_le (suc j) (suc n) h = omega (arith, pow-suc 2 j, pow-suc 2 n, pow_le j n)

field-lt : (d : List ℕ) (k pos v j : ℕ) → v < 2 ^ j → field d k pos v < 2 ^ (j + k)
unfolding field
field-lt d zero pos v j h = subst (λ n. v < 2 ^ n) {x = j} {y = j + 0} (omega arith) h
field-lt d (suc k) pos v j h =
    subst (λ n. field d k (suc pos) (v * 2 + bit_at d pos) < 2 ^ n) {x = suc j + k} {y = j + suc k}
      (omega arith)
      (field-lt d k (suc pos) (v * 2 + bit_at d pos) (suc j) (omega (arith, pow-suc 2 j)))

module _ (d : List ℕ) (nbits : ℕ) where
  br_u1-in : (pos : ℕ) → pos < nbits → br_u1 d nbits pos ≡ (bit_at d pos, suc pos)
  unfolding br_u1
  br_u1-in pos h =
      ap (λ b. if b then (0, pos) else (bit_at d pos, suc pos)) {x = leb nbits pos} {y = false}
        (ground arith)

  count_zeros-Prefix :
      (z k pos n : ℕ)
      → Prefix d z pos
      → z < k
      → pos + z < nbits
      → count_zeros d nbits k pos n ≡ some (n + z, pos + z + 1)
  unfolding count_zeros Prefix
  count_zeros-Prefix z zero pos n p h inside = elim h [ ]
  count_zeros-Prefix zero (suc k) pos n p h inside = ground (arith, p, br_u1-in pos)
  count_zeros-Prefix (suc z) (suc k) pos n (e, p) h inside =
      ground (arith, e, br_u1-in pos, count_zeros-Prefix z k (suc pos) (suc n) p)

  read_bits-field :
      (k pos v j : ℕ)
      → v < 2 ^ j
      → j + k ≤ 32
      → pos + k ≤ nbits
      → read_bits d nbits k pos v ≡ (field d k pos v, pos + k)
  unfolding read_bits field
  read_bits-field zero pos v j h small inside =
      ap (λ i. (v, i)) {x = pos} {y = pos + 0} (omega arith)
  read_bits-field (suc k) pos v j h small inside =
      ap (λ (r : ℕ × ℕ). read_bits d nbits k r.1 ((v * 2 + r.0) % 2 ^ 32))
        (br_u1-in pos (omega arith))
      ∙ ap (read_bits d nbits k (suc pos)) {x = (v * 2 + bit_at d pos) % 2 ^ 32}
          {y = v * 2 + bit_at d pos} (omega (arith, longer, pow_le (suc j) 32 (omega arith)))
      ∙ read_bits-field k (suc pos) (v * 2 + bit_at d pos) (suc j) longer (omega arith)
          (omega arith)
      ∙ ap (λ i. (field d k (suc pos) (v * 2 + bit_at d pos), i)) {x = suc pos + k}
          {y = pos + suc k} (omega arith)
    where
      longer : v * 2 + bit_at d pos < 2 ^ suc j
      longer = omega (arith, pow-suc 2 j)

  field_bound : (z pos : ℕ) → field d z pos 0 < 2 ^ z
  field_bound z pos =
      subst (λ n. field d z pos 0 < 2 ^ n) {x = 0 + z} {y = z} (omega arith)
        (field-lt d z pos 0 0 (omega arith))

  golomb-field :
      (z pos : ℕ)
      → z ≤ 31
      → pos + z ≤ nbits
      → golomb d nbits (z, pos) ≡ (2 ^ z - 1 + field d z pos 0, pos + z)
  unfolding golomb
  golomb-field z pos small inside =
      ap (λ b. if b then (0, pos) else coded (read_bits d nbits z pos 0)) {x = ltb 31 z} {y = false}
        (ground arith)
      ∙ ap coded (read_bits-field z pos 0 0 (omega arith) (omega arith) inside)
      ∙ ap (λ v. (v, pos + z)) wrapped
    where
      coded : ℕ × ℕ → ℕ × ℕ
      coded r = ((2 ^ z + (2 ^ 32 - 1) + r.0) % 2 ^ 32, r.1)

      wrapped : (2 ^ z + (2 ^ 32 - 1) + field d z pos 0) % 2 ^ 32 ≡ 2 ^ z - 1 + field d z pos 0
      wrapped = omega (arith, pow_le z 31 small, pow_le 0 z, field_bound z pos)

  -- A code of z zeros, a one and z bits more, with z at most 31 and all of it in front of the end,
  -- is read by br_ue as 2^z - 1 plus the number of these bits, and the position moves behind it.
  pub br_ue-field :
      (z pos : ℕ)
      → Prefix d z pos
      → z ≤ 31
      → pos + z + 1 + z ≤ nbits
      → br_ue d nbits pos ≡ some (2 ^ z - 1 + field d z (pos + z + 1) 0, pos + z + 1 + z)
  unfolding br_ue
  br_ue-field z pos p small inside =
      ap (λ (o : Option (ℕ × ℕ)). elim o [ none ↦ none | some r ↦ some (golomb d nbits r) ])
        (count_zeros-Prefix z (suc (nbits - pos)) pos 0 p (omega arith) (omega arith)
          ∙ ap (λ n. some (n, pos + z + 1)) {x = 0 + z} {y = z} (omega arith))
      ∙ ap (λ r. some r) (golomb-field z (pos + z + 1) small inside)
