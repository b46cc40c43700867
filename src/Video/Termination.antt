-- ===== src/Video/Termination.antt =====
-- The loops of the H.264 probes in source/srthub.c end, whatever the bytes.
use opensrthub.Base.{
  ℤ, as_int, ℕ, zero, suc, ◌+◌, ◌-◌, ◌*◌, ◌≤◌, ◌<◌, ◌≡◌, refl, ap, ◌∙◌, Bool, true, false, Option,
  none, some, List, [], ◌∷◌, arith, leb, ◌==◌, if◌then◌else◌, if_intro, length, drop,
}
use opensrthub.Video.Nal.{
  br_u1, count_zeros, golomb, br_ue, second_ue, unescape_rbsp, h264_slice_type, sei_value,
  sei_message, find_recovery_point, h264_has_recovery_point,
}

module _ (d : List ℕ) (nbits : ℕ) where
  br_u1-next : (pos : ℕ) → pos < nbits → (br_u1 d nbits pos).1 ≡ suc pos
  unfolding br_u1
  br_u1-next pos h = ground arith

  count_zeros-some :
      (k pos z : ℕ) → nbits - pos < k → (r : ℕ × ℕ) × (count_zeros d nbits k pos z ≡ some r)
  unfolding count_zeros
  count_zeros-some zero pos z h = elim h [ ]
  count_zeros-some (suc k) pos z h =
      if_intro (λ o. (r : ℕ × ℕ) × (o ≡ some r)) (leb nbits pos) (λ e. (_, refl))
        λ more.
          if_intro (λ o. (r : ℕ × ℕ) × (o ≡ some r)) ((br_u1 d nbits pos).0 == 0)
            (λ e. count_zeros-some k (br_u1 d nbits pos).1 (suc z) (ground (arith, br_u1-next pos)))
            (λ e. (_, refl))

  br_ue-some : (pos : ℕ) → (r : ℕ × ℕ) × (br_ue d nbits pos ≡ some r)
  unfolding br_ue
  br_ue-some pos =
      let (r, e) = count_zeros-some (suc (nbits - pos)) pos 0 (omega arith) in
      (
        golomb d nbits r,
        ap (λ (o : Option (ℕ × ℕ)). elim o [ none ↦ none | some r ↦ some (golomb d nbits r) ]) e,
      )

second_ue-some : (d : List ℕ) → (v : ℕ) × (second_ue d ≡ some v)
unfolding second_ue
second_ue-some d =
    let ((first, pos), e) = br_ue-some d (length d * 8) 0 in
    let ((v, end), f) = br_ue-some d (length d * 8) pos in
    (
      v,
      ap
            (λ (o : Option (ℕ × ℕ)). elim o [
              | none ↦ none
              | some (first, pos) ↦ elim (br_ue d (length d * 8) pos) [
                | none ↦ none
                | some (v, end) ↦ some v
              ]
            ])
            e
          ∙ ap (λ (o : Option (ℕ × ℕ)). elim o [ none ↦ none | some (v, end) ↦ some v ]) f,
    )

-- What follows has less than `n` bytes.
Shorter : ℕ → Option (ℕ × List ℕ) → Type 0
Shorter n none = Unit
Shorter n (some (v, rest)) = length rest < n

Shorter-le : {m n : ℕ} (o : Option (ℕ × List ℕ)) → m ≤ n → Shorter m o → Shorter n o
unfolding Shorter
Shorter-le none h s = tt
Shorter-le (some (v, rest)) h s = omega arith

sei_value-Shorter : (bs : List ℕ) (sum : ℕ) → Shorter (length bs) (sei_value bs sum)
unfolding sei_value Shorter
sei_value-Shorter [] sum = tt
sei_value-Shorter (b ∷ bs) sum =
    if_intro (Shorter (suc (length bs))) (b == 0xff)
      (λ e. Shorter-le (sei_value bs (sum + 255)) (omega arith) (sei_value-Shorter bs (sum + 255)))
      (λ e. omega arith)

drop-shorter : (n : ℕ) (bs : List ℕ) → length (drop n bs) ≤ length bs
drop-shorter zero bs = omega arith
drop-shorter (suc n) [] = omega arith
drop-shorter (suc n) (b ∷ bs) = omega (arith, drop-shorter n bs)

sized-Shorter :
    (n type : ℕ) (o : Option (ℕ × List ℕ))
    → Shorter n o
    → Shorter n (elim o [ none ↦ none | some (size, payload) ↦ some (type, drop size payload) ])
unfolding Shorter
sized-Shorter n type none s = tt
sized-Shorter n type (some (size, payload)) s = omega (arith, drop-shorter size payload)

typed-Shorter :
    (n : ℕ) (o : Option (ℕ × List ℕ))
    → Shorter n o
    → Shorter n (elim o [
      | none ↦ none
      | some (type, rest) ↦ elim (sei_value rest 0) [
        | none ↦ none
        | some (size, payload) ↦ some (type, drop size payload)
      ]
    ])
unfolding Shorter
typed-Shorter n none s = tt
typed-Shorter n (some (type, rest)) s =
    sized-Shorter n type (sei_value rest 0)
      (Shorter-le (sei_value rest 0) (omega arith) (sei_value-Shorter rest 0))

sei_message-Shorter : (bs : List ℕ) → Shorter (length bs) (sei_message bs)
unfolding sei_message
sei_message-Shorter bs = typed-Shorter (length bs) (sei_value bs 0) (sei_value-Shorter bs 0)

message-some :
    (k n : ℕ) (o : Option (ℕ × List ℕ))
    → Shorter n o
    → ((rest : List ℕ) → length rest < n → (b : Bool) × (find_recovery_point k rest ≡ some b))
    → (b : Bool) × ((elim o [
      | none ↦ some false
      | some (type, rest) ↦ if type == 6 then some true else find_recovery_point k rest
    ])
        ≡ some b)
unfolding Shorter
message-some k n none s next = (false, refl)
message-some k n (some (type, rest)) s next =
    if_intro (λ o. (b : Bool) × (o ≡ some b)) (type == 6) (λ e. (true, refl)) (λ e. next rest s)

find_recovery_point-some :
    (k : ℕ) (bs : List ℕ) → length bs < k → (b : Bool) × (find_recovery_point k bs ≡ some b)
unfolding find_recovery_point
find_recovery_point-some zero bs h = elim h [ ]
find_recovery_point-some (suc k) bs h =
    message-some k (length bs) (sei_message bs) (sei_message-Shorter bs)
      λ rest lt. find_recovery_point-some k rest (omega arith)

-- Both H.264 probes end on every NAL unit: h264_has_recovery_point with an answer, and
-- h264_slice_type with a number where the unit has two bytes at least and with -1 where it has
-- not.
pub probes_total :
    (nal : List ℕ)
    → ((b : Bool) × (h264_has_recovery_point nal ≡ some b))
      × (2 ≤ length nal → (v : ℤ) × (h264_slice_type nal ≡ some v))
      × (length nal < 2 → h264_slice_type nal ≡ none)
unfolding h264_has_recovery_point h264_slice_type
probes_total [] = ((false, refl), (λ h. absurd (omega arith)), (λ h. refl))
probes_total (header ∷ []) = ((false, refl), (λ h. absurd (omega arith)), (λ h. refl))
probes_total (header ∷ (b ∷ bs)) = (
  find_recovery_point-some (suc (length (unescape_rbsp (b ∷ bs) 64))) (unescape_rbsp (b ∷ bs) 64)
      (omega arith),
  (λ h.
      let (v, e) = second_ue-some (unescape_rbsp (b ∷ bs) 16) in
      (as_int v, ap (λ (o : Option ℕ). elim o [ none ↦ none | some v ↦ some (as_int v) ]) e)),
  (λ h. absurd (omega arith)),
)
