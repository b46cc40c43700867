-- ===== src/Cues/Tests.antt =====
-- Tests of the SCTE-35 cues that source/srthub.c reports.
use opensrthub.Base.{ℕ, ◌≡◌, refl, true, false, none, some, [], ◌∷◌, arith}
use opensrthub.Scte35.Cue.{Cue, base_cue, cue_in, cue_out}
use opensrthub.Signal.Ledger.{no_signals}
use opensrthub.Cues.Recent.{
  same_direction, same_flag, same_type, same_key, refresh, oldest, slot_to_take, note_cue, key_of,
}
use opensrthub.Cues.Receive.{Moment, receive_cue}
use opensrthub.Cues.Suppressed.{seen_within, table_after, note_cue_suppressed, History}
use opensrthub.Cues.Repeats.{InOrder, latest, distinct}
use opensrthub.Cues.Reported.{
  Samples, cues_of, core_after, new_cues, announced, core_after-announced,
}

abbrev out_cue : Cue
out_cue = record (base_cue 0 500) {
  splice_event_id = 7;
  cue_direction = cue_out;
  parse_complete = true;
}

abbrev in_cue : Cue
in_cue = record out_cue { cue_direction = cue_in }

abbrev at_second : ℕ → Moment
at_second t = record { cue_time = 1700000000; cue_seen = t; payload = 50; got = 60; queued = true }

-- Last first: an out, its repeats, an in between them, a part of a cue, and the out again.
abbrev some_samples : Samples
some_samples =
    (at_second 131, some out_cue)
    ∷ (at_second 101, some (record out_cue { parse_complete = false }))
    ∷ (at_second 101, some out_cue)
    ∷ (at_second 90, none)
    ∷ (at_second 80, some in_cue)
    ∷ (at_second 79, some out_cue)
    ∷ (at_second 50, some out_cue)
    ∷ []

some_samples_count : (core_after no_signals some_samples).scte35_cue_count ≡ 3
unfolding core_after receive_cue note_cue refresh slot_to_take oldest same_key same_direction
    same_flag same_type
some_samples_count = refl

core_after-announced_example :
    ((core_after no_signals some_samples).scte35_cue_count ≡ new_cues some_samples)
    × ((core_after no_signals some_samples).signals ≡ announced no_signals some_samples)
unfolding InOrder cues_of distinct latest same_key same_direction same_flag same_type
core_after-announced_example =
    core_after-announced no_signals some_samples 131
      (omega arith, (omega arith, (omega arith, (omega arith, (omega arith, tt))))) (omega arith)

abbrev some_history : History
some_history = (80, key_of in_cue) ∷ (79, key_of out_cue) ∷ []

note_cue_suppressed_example : seen_within 101 (key_of out_cue) some_history ≡ true
unfolding table_after note_cue refresh slot_to_take oldest same_key same_direction same_flag
    same_type
note_cue_suppressed_example = note_cue_suppressed some_history 101 (key_of out_cue) refl
