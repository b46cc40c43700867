-- ===== src/Cues/Keys.antt =====
-- The comparison of cues in receive_frame of source/srthub.c tells equal keys.
use opensrthub.Base.{
  ℕ, ◌≡◌, refl, sym, ap, Bool, true, false, ◌&&◌, Option, none, some, arith, ◌==◌, ==_iff,
}
use opensrthub.Scte35.Cue.{CueDirection, unknown, cue_in, cue_out}
use opensrthub.Cues.Recent.{CueKey, same_direction, same_flag, same_type, same_key}

same_direction_sound : (d e : CueDirection) → same_direction d e ≡ true → d ≡ e
unfolding same_direction
same_direction_sound unknown unknown h = refl
same_direction_sound cue_in cue_in h = refl
same_direction_sound cue_out cue_out h = refl
same_direction_sound unknown cue_in h = absurd (ground (arith, h))
same_direction_sound unknown cue_out h = absurd (ground (arith, h))
same_direction_sound cue_in unknown h = absurd (ground (arith, h))
same_direction_sound cue_in cue_out h = absurd (ground (arith, h))
same_direction_sound cue_out unknown h = absurd (ground (arith, h))
same_direction_sound cue_out cue_in h = absurd (ground (arith, h))

same_direction_self : (d : CueDirection) → same_direction d d ≡ true
unfolding same_direction
same_direction_self unknown = refl
same_direction_self cue_in = refl
same_direction_self cue_out = refl

same_flag_sound : (b c : Bool) → same_flag b c ≡ true → b ≡ c
unfolding same_flag
same_flag_sound true c h = sym h
same_flag_sound false true h = absurd (ground (arith, h))
same_flag_sound false false h = refl

same_flag_self : (b : Bool) → same_flag b b ≡ true
unfolding same_flag
same_flag_self true = refl
same_flag_self false = refl

same_type_sound : (t u : Option ℕ) → same_type t u ≡ true → t ≡ u
unfolding same_type
same_type_sound none none h = refl
same_type_sound none (some u) h = absurd (ground (arith, h))
same_type_sound (some t) none h = absurd (ground (arith, h))
same_type_sound (some t) (some u) h = ap some ((==_iff t u).0 h)

same_type_self : (t : Option ℕ) → same_type t t ≡ true
unfolding same_type
same_type_self none = refl
same_type_self (some t) = ground arith

four_true :
    (a b c d : Bool)
    → (a && (b && (c && d))) ≡ true
    → (a ≡ true) × (b ≡ true) × (c ≡ true) × (d ≡ true)
four_true a b c d h = ground arith

equal_keys :
    (k l : CueKey)
    → k.event_id ≡ l.event_id
    → k.direction ≡ l.direction
    → k.cancel ≡ l.cancel
    → k.segmentation_type ≡ l.segmentation_type
    → k ≡ l
equal_keys k l a b c d =
    λ i. record { event_id = a i; direction = b i; cancel = c i; segmentation_type = d i }

pub same_key_sound : (k l : CueKey) → same_key k l ≡ true → k ≡ l
unfolding same_key
same_key_sound k l h =
    let (a, b, c, d) =
      four_true (k.event_id == l.event_id) (same_direction k.direction l.direction)
        (same_flag k.cancel l.cancel) (same_type k.segmentation_type l.segmentation_type) h in
    equal_keys k l ((==_iff k.event_id l.event_id).0 a) (same_direction_sound _ _ b)
      (same_flag_sound _ _ c) (same_type_sound _ _ d)

pub same_key_self : (k : CueKey) → same_key k k ≡ true
unfolding same_key
same_key_self k = ground (
  arith,
  same_direction_self k.direction,
  same_flag_self k.cancel,
  same_type_self k.segmentation_type,
)
