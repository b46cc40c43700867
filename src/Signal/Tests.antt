-- ===== src/Signal/Tests.antt =====
-- Tests of the signals of source/esignal.c.
use opensrthub.Base.{ℕ, ◌≡◌, refl, true, false, Option, none, some, List, [], ◌∷◌, remove, map}
use opensrthub.Scte35.Cue.{Cue, base_cue, cue_out}
use opensrthub.Signal.{
  Signals, signal_type, put, send_signal, send_payload, send_signal_scte35, free_message,
  signal_turn,
}
use opensrthub.Signal.Steps.{Step, sends, sends_cue, takes, step, run}
use opensrthub.Signal.Ledger.{no_signals, IsOrderly, run-IsOrderly}

abbrev out_cue : Cue
out_cue = record (base_cue 0 500) { cue_direction = cue_out }

-- A text, a cue, a cue without memory for its message, one report, a text that the queue has no
-- memory for, and the report of the cue.
abbrev some_steps : List Step
some_steps =
    sends 40 true 0x19 (104 ∷ 105 ∷ [])
    ∷ sends_cue 50 60 true (some out_cue)
    ∷ sends_cue 70 0 true (some out_cue)
    ∷ takes
    ∷ sends 80 false 0x19 []
    ∷ takes
    ∷ []

abbrev reported_types : Option Signals → List ℕ
reported_types o = elim o [ none ↦ [] | some t ↦ map (λ m. m.buffer_type) t.reported ]

abbrev still_allocated : Option Signals → List ℕ
still_allocated o = elim o [ none ↦ [] | some t ↦ t.allocated ]

some_steps_reported : reported_types (run some_steps no_signals) ≡ 0x19 ∷ 0x06 ∷ []
unfolding run step send_signal send_signal_scte35 send_payload signal_turn put signal_type
some_steps_reported = refl

some_steps_allocated : still_allocated (run some_steps no_signals) ≡ 80 ∷ []
unfolding run step send_signal send_signal_scte35 send_payload signal_turn put free_message remove
some_steps_allocated = refl

run-IsOrderly_example : IsOrderly some_steps (run some_steps no_signals)
run-IsOrderly_example = run-IsOrderly some_steps
