-- ===== src/Scte35/Direction.antt =====
-- scte35_segmentation_cue_direction against scte35_segmentation_type_name of source/tsdecode.c: the
-- two tables agree on which segments start and end a break.
use Prim.Native.String.{String}
use Prim.Native.Char.{code}
use mathlib.Core.List.{reverse}
use opensrthub.Base.{
  ℕ, ◌<◌, ◌≡◌, refl, inl, inr, Bool, true, false, not, ◌&&◌, ◌||◌, List, [], ◌∷◌, ltb, ◌==◌, arith,
  if◌then◌else◌, all_below, all_below_sound, Bool-cases,
}
use opensrthub.Scte35.Cue.{
  CueDirection, unknown, cue_in, cue_out, cue_direction_of, segmentation_type_name,
}

abbrev codes : String → List ℕ
codes String.[] = []
codes (String.◌∷◌ c s) = code c ∷ codes s

abbrev starts : List ℕ → List ℕ → Bool
starts [] ys = true
starts (x ∷ xs) [] = false
starts (x ∷ xs) (y ∷ ys) = x == y && starts xs ys

-- `word` ends the text.
abbrev pub ends_with : String → String → Bool
ends_with word text = starts (reverse (codes word)) (reverse (codes text))

-- Content, program, chapter, credit and network segments bound no advertising break.
abbrev pub bounds_break : String → Bool
bounds_break text = not (
    starts (codes "Content") (codes text)
    || (starts (codes "Program") (codes text)
        || (starts (codes "Chapter") (codes text)
            || (starts (codes "Opening") (codes text)
                || (starts (codes "Closing") (codes text)
                    || starts (codes "Network") (codes text))))))

abbrev pub direction_by_name : String → CueDirection
direction_by_name text =
    if bounds_break text && ends_with "Start" text
    then cue_out
    else if bounds_break text && ends_with "End" text
    then cue_in
    else unknown

abbrev same : CueDirection → CueDirection → Bool
same unknown unknown = true
same cue_in cue_in = true
same cue_out cue_out = true
same _ _ = false

same-eq : (a b : CueDirection) → same a b ≡ true → a ≡ b
same-eq a b h = ground arith

tables_agree :
    all_below (λ t. same (cue_direction_of t) (direction_by_name (segmentation_type_name t))) 0x100
    ≡ true
unfolding all_below cue_direction_of segmentation_type_name
tables_agree = refl

name_above : (t : ℕ) → 0x51 < t → segmentation_type_name t ≡ ""
unfolding segmentation_type_name
name_above t h = ground arith

direction_above : (t : ℕ) → 0x51 < t → cue_direction_of t ≡ unknown
unfolding cue_direction_of
direction_above t h = ground arith

-- For every segmentation type the cue direction is the one that the name table states: out where
-- the name of a break segment ends in "Start", in where it ends in "End", and unknown for every
-- other name.
pub cue_direction_of-segmentation_type_name :
    (t : ℕ) → cue_direction_of t ≡ direction_by_name (segmentation_type_name t)
cue_direction_of-segmentation_type_name t = elim (Bool-cases (ltb t 0x100)) [
  | inl h ↦ same-eq _ _ (all_below_sound _ 0x100 t (ground arith) tables_agree)
  | inr h ↦ rw (direction_above t (ground arith), name_above t (ground arith))
]
