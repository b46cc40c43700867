-- ===== src/Cues/Recent.antt =====
-- scte35_recent_cue_struct of include/srthub.h, and how receive_frame of source/srthub.c looks a cue
-- up in the table of the recent ones.
use opensrthub.Base.{
  ℕ, suc, ◌+◌, Bool, true, false, ◌&&◌, not, Option, none, some, List, [], ◌∷◌, ltb, ◌==◌,
  if◌then◌else◌, set, replicate,
}
use opensrthub.Scte35.Cue.{CueDirection, unknown, cue_in, cue_out, Cue}

abbrev pub repeat_window_seconds : ℕ
repeat_window_seconds = 30

abbrev pub recent_cues : ℕ
recent_cues = 8

-- The members that tell cues apart. `none` is -1.
pub record CueKey : Type 0 where
  pub event_id : ℕ
  pub direction : CueDirection
  pub cancel : Bool
  pub segmentation_type : Option ℕ

-- `valid` is 0 or 1. The seconds of the clock are not negative.
pub record RecentCue : Type 0 where
  pub valid : Bool
  pub key : CueKey
  pub last_seen : ℕ

abbrev pub key_of : Cue → CueKey
key_of cue = record {
  event_id = cue.splice_event_id;
  direction = cue.cue_direction;
  cancel = cue.cancel;
  segmentation_type = cue.segmentation_type_id;
}

unfoldable pub same_direction : CueDirection → CueDirection → Bool
same_direction unknown unknown = true
same_direction unknown cue_in = false
same_direction unknown cue_out = false
same_direction cue_in unknown = false
same_direction cue_in cue_in = true
same_direction cue_in cue_out = false
same_direction cue_out unknown = false
same_direction cue_out cue_in = false
same_direction cue_out cue_out = true

unfoldable pub same_flag : Bool → Bool → Bool
same_flag true b = b
same_flag false b = not b

unfoldable pub same_type : Option ℕ → Option ℕ → Bool
same_type none none = true
same_type none (some t) = false
same_type (some t) none = false
same_type (some t) (some u) = t == u

unfoldable pub same_key : CueKey → CueKey → Bool
unfolding same_direction same_flag same_type
same_key k l =
    k.event_id == l.event_id
    && (same_direction k.direction l.direction
        && (same_flag k.cancel l.cancel && same_type k.segmentation_type l.segmentation_type))

-- The zeroed table of the core.
abbrev pub no_cue : RecentCue
no_cue = record {
  valid = Bool.false;
  key = record {
    event_id = 0;
    direction = CueDirection.unknown;
    cancel = Bool.false;
    segmentation_type = Option.some 0;
  };
  last_seen = 0;
}

abbrev pub no_cues : List RecentCue
no_cues = replicate recent_cues no_cue

abbrev pub is_slot_of : CueKey → RecentCue → Bool
is_slot_of k r = r.valid && same_key r.key k

abbrev pub is_overdue : ℕ → ℕ → Bool
is_overdue now seen = not (ltb now (seen + repeat_window_seconds))

-- The first slot of the cue, refreshed, with whether the cue is reported; `none` is no such slot.
unfoldable pub refresh : ℕ → CueKey → List RecentCue → Option (Bool × List RecentCue)
unfolding same_key
refresh now k [] = none
refresh now k (r ∷ rs) =
    let rest = refresh now k rs in
    if is_slot_of k r
    then some (is_overdue now r.last_seen, record r { last_seen = now } ∷ rs)
    else elim rest [ none ↦ none | some (report, ss) ↦ some (report, r ∷ ss) ]

-- The loop for a slot to take, at index `i`: the first that is free, or the one seen the longest ago,
-- which so far is `slot`, seen at `seen`.
unfoldable pub oldest : ℕ → ℕ → ℕ → List RecentCue → ℕ
oldest i slot seen [] = slot
oldest i slot seen (r ∷ rs) =
    let older = ltb r.last_seen seen in
    let rest =
      oldest (suc i) (if older then i else slot) (if older then r.last_seen else seen) rs in
    if r.valid then rest else i

-- The loop from slot 0.
unfoldable pub slot_to_take : List RecentCue → ℕ
unfolding oldest
slot_to_take [] = 0
slot_to_take (r ∷ rs) = oldest 0 0 r.last_seen (r ∷ rs)

abbrev pub seen_cue : ℕ → CueKey → RecentCue
seen_cue now k = record { valid = Bool.true; key = k; last_seen = now }

-- report_cue, and the table after the cue.
unfoldable pub note_cue : ℕ → CueKey → List RecentCue → Bool × List RecentCue
unfolding refresh slot_to_take
note_cue now k rs = elim (refresh now k rs) [
  | none ↦ (true, set rs (slot_to_take rs) (seen_cue now k))
  | some (report, ss) ↦ (report, ss)
]
