-- ===== src/Scte35/RoundTrip.antt =====
-- decode_section of source/tsdecode.c recovers the fields of an encoded splice_insert.
use opensrthub.Base.{
  ℕ, ◌+◌, ◌^◌, ◌<◌, ◌≤◌, ◌≡◌, Bool, true, false, Option, none, some, List, [], ◌∷◌, arith,
  if◌then◌else◌,
}
use opensrthub.Scte35.Cue.{Cue, cue_in, cue_out}
use opensrthub.Scte35.Section.{decode_section}
use opensrthub.Scte35.Encode.{
  SpliceInsert, Fits, TimeFits, DurationFits, insert_bytes, section_bytes, insert_length, hasnt,
  splice,
}

abbrev time_of : Option ℕ → ℕ
time_of none = 0
time_of (some t) = t

abbrev duration_of : Option (Bool × ℕ) → ℕ
duration_of none = 0
duration_of (some (_, d)) = d

abbrev auto_of : Option (Bool × ℕ) → Bool
auto_of none = false
auto_of (some (a, _)) = a

-- The cue that a splice_insert means; the members of the segmentation are unset.
abbrev pub insert_cue : SpliceInsert → ℕ → ℕ → Cue
insert_cue s adjustment pid = record {
  splice_command_type = 5;
  splice_event_id = s.event_id;
  pts_time = time_of s.time;
  pts_duration = duration_of s.duration;
  pts_adjustment = adjustment;
  splice_immediate = hasnt s.time;
  program_id = s.program;
  cancel = false;
  out_of_network_indicator = s.out_of_network;
  auto_return = auto_of s.duration;
  splice_pid = pid;
  parse_complete = true;
  segmentation_type_id = Option.none;
  segmentation_upid_type = Option.none;
  segment_num = 0;
  segments_expected = 0;
  cue_direction = if s.out_of_network then cue_out else cue_in;
  descriptor_name =
      if s.out_of_network
      then "Splice Insert Out of Network"
      else "Splice Insert Return to Network";
}

round_trip :
    (time : Option ℕ) (duration : Option (Bool × ℕ)) (id : ℕ) (out : Bool)
    (program avail expected len adjustment command_length pid : ℕ) (rest : List ℕ)
    → let s : SpliceInsert = splice id out time duration program avail expected in
      Fits s
      → TimeFits time
      → DurationFits duration
      → adjustment < 2 ^ 33
      → 11 + insert_length s ≤ len
      → len < 2 ^ 12
      → decode_section (section_bytes len adjustment command_length 5 (insert_bytes s rest)) pid
        ≡ some (insert_cue s adjustment pid ∷ [])
unfolding decode_section section_bytes insert_bytes
round_trip none none id true program avail expected len adjustment n pid rest f t d a l b =
    ground arith
round_trip none (some (true, x)) id true program avail expected len adjustment n pid rest f t d a l
      b =
    ground arith
round_trip none (some (false, x)) id true program avail expected len adjustment n pid rest f t d a l
      b =
    ground arith
round_trip (some y) none id true program avail expected len adjustment n pid rest f t d a l b =
    ground arith
round_trip (some y) (some (true, x)) id true program avail expected len adjustment n pid rest f t d
      a l b =
    ground arith
round_trip (some y) (some (false, x)) id true program avail expected len adjustment n pid rest f t d
      a l b =
    ground arith
round_trip none none id false program avail expected len adjustment n pid rest f t d a l b =
    ground arith
round_trip none (some (true, x)) id false program avail expected len adjustment n pid rest f t d a l
      b =
    ground arith
round_trip none (some (false, x)) id false program avail expected len adjustment n pid rest f t d a
      l b =
    ground arith
round_trip (some y) none id false program avail expected len adjustment n pid rest f t d a l b =
    ground arith
round_trip (some y) (some (true, x)) id false program avail expected len adjustment n pid rest f t d
      a l b =
    ground arith
round_trip (some y) (some (false, x)) id false program avail expected len adjustment n pid rest f t
      d a l b =
    ground arith

-- An encoded splice_insert of a whole program, whatever bytes follow it, decodes to the one
-- complete cue that it means, if its values fit their fields and the section length covers the
-- command.
pub decode_section-insert_bytes :
    (s : SpliceInsert) (len adjustment command_length pid : ℕ) (rest : List ℕ)
    → Fits s
    → TimeFits s.time
    → DurationFits s.duration
    → adjustment < 2 ^ 33
    → 11 + insert_length s ≤ len
    → len < 2 ^ 12
    → decode_section (section_bytes len adjustment command_length 5 (insert_bytes s rest)) pid
      ≡ some (insert_cue s adjustment pid ∷ [])
decode_section-insert_bytes s =
    round_trip s.time s.duration s.event_id s.out_of_network s.program s.avail_num s.avails_expected
