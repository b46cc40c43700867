-- ===== src/Signal/Meant.antt =====
-- The messages that the calls of source/esignal.c mean, written out, and send_signal_scte35's choice.
use opensrthub.Base.{ℕ, ◌≡◌, refl, ap, Bool, true, false, Option, List, [], take, if◌then◌else◌}
use opensrthub.Scte35.Cue.{Cue, CueDirection, unknown, cue_in, cue_out}
use opensrthub.Signal.{Message, signal_type, cue_message}

-- The code that include/esignal.h gives to a signal of this direction.
abbrev pub direction_code : CueDirection → ℕ
direction_code cue_out = 0x06
direction_code cue_in = 0x07
direction_code unknown = 0x0e

-- A cancelled cue is an event without a direction.
abbrev pub meant_code : Cue → ℕ
meant_code cue = if cue.cancel then 0x0e else direction_code cue.cue_direction

abbrev pub meant_cue : ℕ → ℕ → Cue → Message
meant_cue payload got cue = record {
  address = got;
  buffer_type = meant_code cue;
  buffer = Option.some (payload, cue);
  smallbuf = [];
}

abbrev pub meant_text : ℕ → ℕ → List ℕ → Message
meant_text got type text = record {
  address = got;
  buffer_type = type;
  buffer = Option.none;
  smallbuf = take 254 text;
}

signal_type-meant : (cue : Cue) → signal_type cue ≡ meant_code cue
unfolding signal_type
signal_type-meant cue = at cue.cancel cue.cue_direction
  where
    at :
        (cancelled : Bool) (d : CueDirection)
        → signal_type (record cue { cancel = cancelled; cue_direction = d })
          ≡ meant_code (record cue { cancel = cancelled; cue_direction = d })
    at true d = refl
    at false unknown = refl
    at false cue_in = refl
    at false cue_out = refl

pub cue_message-meant :
    (payload got : ℕ) (cue : Cue) → cue_message payload got cue ≡ meant_cue payload got cue
cue_message-meant payload got cue =
    ap
      (λ (code : ℕ). record {
        address = got;
        buffer_type = code;
        buffer = Option.some (payload, cue);
        smallbuf = [];
      })
      (signal_type-meant cue)
