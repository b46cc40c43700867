-- ===== src/Video/Sei.antt =====
-- h264_has_recovery_point of source/srthub.c against the layout of SEI messages (7.3.2.3 of H.264).
use opensrthub.Base.{
  ℕ, zero, suc, ◌+◌, ◌*◌, ◌/◌, ◌%◌, ◌≤◌, ◌<◌, ◌≡◌, refl, sym, ap, ◌∙◌, Bool, true, false, ◌||◌,
  Option, none, some, List, [], ◌∷◌, ◌++◌, arith, length, ◌==◌, if◌then◌else◌, if_intro, replicate,
  drop, length-append,
}
use mathlib.Core.List.{append_assoc}
use opensrthub.Video.Nal.{
  sei_value, sei_message, find_recovery_point, unescape_rbsp, h264_has_recovery_point,
}
use opensrthub.Video.Escape.{escape, unescape_rbsp-escape, length-escape-ge}

pub record Sei : Type 0 where
  pub payload_type : ℕ
  pub payload : List ℕ

-- A value as a run of 0xff and the rest.
unfoldable pub ff_bytes : ℕ → List ℕ
ff_bytes n = replicate (n / 255) 0xff ++ ((n % 255) ∷ [])

unfoldable pub sei_bytes : Sei → List ℕ
unfolding ff_bytes
sei_bytes s = ff_bytes s.payload_type ++ (ff_bytes (length s.payload) ++ s.payload)

-- The messages and the stop bit behind them.
unfoldable pub sei_payload : List Sei → List ℕ
unfolding sei_bytes
sei_payload [] = 0x80 ∷ []
sei_payload (s ∷ ss) = sei_bytes s ++ sei_payload ss

unfoldable pub any_recovery_point : List Sei → Bool
any_recovery_point [] = false
any_recovery_point (s ∷ ss) = s.payload_type == 6 || any_recovery_point ss

sei_value_run :
    (q r sum : ℕ) (rest : List ℕ)
    → r < 255
    → sei_value (replicate q 0xff ++ (r ∷ rest)) sum ≡ some (sum + 255 * q + r, rest)
unfolding sei_value
sei_value_run zero r sum rest h = ground arith
sei_value_run (suc q) r sum rest h = ground (arith, sei_value_run q r (sum + 255) rest h)

sei_value-ff_bytes : (n : ℕ) (rest : List ℕ) → sei_value (ff_bytes n ++ rest) 0 ≡ some (n, rest)
unfolding ff_bytes
sei_value-ff_bytes n rest =
    ap (λ bs. sei_value bs 0) (append_assoc (replicate (n / 255) 0xff) ((n % 255) ∷ []) rest)
    ∙ sei_value_run (n / 255) (n % 255) 0 rest (omega arith)
    ∙ ap (λ k. some (k, rest)) {x = 0 + 255 * (n / 255) + n % 255} {y = n} (omega arith)

drop-append : (xs ys : List ℕ) → drop (length xs) (xs ++ ys) ≡ ys
drop-append [] ys = refl
drop-append (x ∷ xs) ys = drop-append xs ys

sei_message_of :
    {t n : ℕ} (bs : List ℕ) {rest payload : List ℕ}
    → sei_value bs 0 ≡ some (t, rest)
    → sei_value rest 0 ≡ some (n, payload)
    → sei_message bs ≡ some (t, drop n payload)
unfolding sei_message
sei_message_of {t} bs e f =
    ap
      (λ (o : Option (ℕ × List ℕ)). elim o [
        | none ↦ none
        | some (type, rest) ↦ elim (sei_value rest 0) [
          | none ↦ none
          | some (size, payload) ↦ some (type, drop size payload)
        ]
      ])
      e
    ∙ ap
        (λ (o : Option (ℕ × List ℕ)). elim o [
          | none ↦ none
          | some (size, payload) ↦ some (t, drop size payload)
        ])
        f

sei_message-sei_bytes :
    (s : Sei) (rest : List ℕ) → sei_message (sei_bytes s ++ rest) ≡ some (s.payload_type, rest)
unfolding sei_bytes
sei_message-sei_bytes s rest =
    ap sei_message
      (append_assoc (ff_bytes s.payload_type) (ff_bytes (length s.payload) ++ s.payload) rest)
    ∙ sei_message_of _ (sei_value-ff_bytes s.payload_type _) (
        ap (λ bs. sei_value bs 0) (append_assoc (ff_bytes (length s.payload)) s.payload rest)
        ∙ sei_value-ff_bytes (length s.payload) (s.payload ++ rest))
    ∙ ap (λ bs. some (s.payload_type, bs)) (drop-append s.payload rest)

sei_bytes-pos : (s : Sei) → 0 < length (sei_bytes s)
unfolding sei_bytes ff_bytes
sei_bytes-pos s = omega (
  arith,
  length-append (ff_bytes s.payload_type) (ff_bytes (length s.payload) ++ s.payload),
  length-append (replicate (s.payload_type / 255) 0xff) ((s.payload_type % 255) ∷ []),
)

find_recovery_point_next :
    {t : ℕ} (bs : List ℕ) {rest : List ℕ} (k : ℕ)
    → sei_message bs ≡ some (t, rest)
    → find_recovery_point (suc k) bs ≡ (if t == 6 then some true else find_recovery_point k rest)
unfolding find_recovery_point
find_recovery_point_next bs k e =
    ap
      (λ (o : Option (ℕ × List ℕ)). elim o [
        | none ↦ some false
        | some (type, rest) ↦ if type == 6 then some true else find_recovery_point k rest
      ])
      e

find_recovery_point-sei_payload :
    (k : ℕ) (ss : List Sei)
    → length (sei_payload ss) < k
    → find_recovery_point k (sei_payload ss) ≡ some (any_recovery_point ss)
unfolding find_recovery_point sei_payload any_recovery_point
find_recovery_point-sei_payload zero ss h = elim h [ ]
find_recovery_point-sei_payload (suc k) [] h = refl
find_recovery_point-sei_payload (suc k) (s ∷ ss) h =
    find_recovery_point_next (sei_bytes s ++ sei_payload ss) k
      (sei_message-sei_bytes s (sei_payload ss))
    ∙ if_intro (λ b. b ≡ some (s.payload_type == 6 || any_recovery_point ss)) (s.payload_type == 6)
        (λ e. ap (λ b. some (b || any_recovery_point ss)) (sym e))
        (λ e.
          find_recovery_point-sei_payload k ss
            (omega (arith, length-append (sei_bytes s) (sei_payload ss), sei_bytes-pos s))
          ∙ ap (λ b. some (b || any_recovery_point ss)) (sym e))

probed :
    (header : ℕ) (e : List ℕ)
    → 0 < length e
    → h264_has_recovery_point (header ∷ e)
      ≡ find_recovery_point (suc (length (unescape_rbsp e 64))) (unescape_rbsp e 64)
unfolding h264_has_recovery_point
probed header [] h = absurd (omega arith)
probed header (b ∷ bs) h = refl

sei_payload-pos : (ss : List Sei) → 0 < length (sei_payload ss)
unfolding sei_payload
sei_payload-pos [] = omega arith
sei_payload-pos (s ∷ ss) =
    omega (arith, length-append (sei_bytes s) (sei_payload ss), sei_bytes-pos s)

-- An SEI NAL unit of whole messages, escaped as the standard asks, whose payload is 64 bytes at
-- most, holds a recovery point for h264_has_recovery_point exactly if one of its messages is of
-- type 6.
pub h264_has_recovery_point-sei_payload :
    (header : ℕ) (ss : List Sei)
    → length (sei_payload ss) ≤ 64
    → h264_has_recovery_point (header ∷ escape (sei_payload ss) 0) ≡ some (any_recovery_point ss)
h264_has_recovery_point-sei_payload header ss h =
    probed header (escape (sei_payload ss) 0)
      (omega (arith, sei_payload-pos ss, length-escape-ge (sei_payload ss) 0))
    ∙ ap (λ bs. find_recovery_point (suc (length bs)) bs)
        (unescape_rbsp-escape (sei_payload ss) 64 h)
    ∙ find_recovery_point-sei_payload (suc (length (sei_payload ss))) ss (omega arith)
