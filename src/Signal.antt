-- ===== src/Signal.antt =====
-- source/esignal.c: the signals that the threads send and the signal thread reports. The lock of the
-- queue makes each call on it one step. What malloc returns is an argument, 0 for NULL.
pub mod Meant
pub mod Steps
pub mod Ledger
mod Tests
use opensrthub.Base.{
  ℕ, Bool, true, false, Option, none, some, List, [], ◌∷◌, ◌++◌, ◌-◌, ◌==◌, if◌then◌else◌, take,
  remove,
}
use opensrthub.Scte35.Cue.{Cue, unknown, cue_in, cue_out}

-- dataqueue_message_struct (include/dataqueue.h) in a signal, with its own address; the buffer comes
-- with the cue in it.
pub record Message : Type 0 where
  pub address : ℕ
  pub buffer_type : ℕ
  pub buffer : Option (ℕ × Cue)
  pub smallbuf : List ℕ

-- The signals of the queue, the one that is taken next first; the addresses of malloc that are not
-- freed; and what the signal
-- thread has taken to report it, the first first.
pub record Signals : Type 0 where
  pub queue : List Message
  pub allocated : List ℕ
  pub reported : List Message

abbrev pub signal_scte35_start : ℕ
signal_scte35_start = 0x06

abbrev pub signal_scte35_end : ℕ
signal_scte35_end = 0x07

abbrev pub signal_scte35_event : ℕ
signal_scte35_event = 0x0e

abbrev pub max_smallbuf_size : ℕ
max_smallbuf_size = 256

-- The choice of send_signal_scte35.
unfoldable pub signal_type : Cue → ℕ
signal_type cue = if cue.cancel then signal_scte35_event else elim cue.cue_direction [
  | cue_out ↦ signal_scte35_start
  | cue_in ↦ signal_scte35_end
  | unknown ↦ signal_scte35_event
]

-- dataqueue_put_front, whose result no caller looks at: without memory for a node, which `queued`
-- says, the message is not in the queue.
unfoldable pub put : Bool → Message → Signals → Signals
put queued m s = if queued then record s { queue = s.queue ++ m ∷ [] } else s

-- The message of send_signal: snprintf writes 254 characters at most.
abbrev pub text_message : ℕ → ℕ → List ℕ → Message
text_message got type text = record {
  address = got;
  buffer_type = type;
  buffer = Option.none;
  smallbuf = take (max_smallbuf_size - 2) text;
}

-- `none` is exit(-1).
unfoldable pub send_signal : ℕ → Bool → ℕ → List ℕ → Signals → Option Signals
unfolding put
send_signal got queued type text s =
    if got == 0
    then none
    else some (put queued (text_message got type text) (record s { allocated = got ∷ s.allocated }))

abbrev pub cue_message : ℕ → ℕ → Cue → Message
cue_message payload got cue = record {
  address = got;
  buffer_type = signal_type cue;
  buffer = Option.some (payload, cue);
  smallbuf = [];
}

-- From the second malloc on; the payload is allocated.
unfoldable pub send_payload : ℕ → ℕ → Bool → Cue → Signals → Bool × Signals
unfolding put
send_payload payload got queued cue s =
    if got == 0 then (false, record s { allocated = remove payload s.allocated }) else (
      true,
      put queued (cue_message payload got cue) (record s { allocated = got ∷ s.allocated }),
    )

-- `false` is -1.
unfoldable pub send_signal_scte35 : ℕ → ℕ → Bool → Option Cue → Signals → Bool × Signals
unfolding send_payload
send_signal_scte35 payload got queued none s = (false, s)
send_signal_scte35 payload got queued (some cue) s =
    if payload == 0
    then (false, s)
    else send_payload payload got queued cue (record s { allocated = payload ∷ s.allocated })

-- The end of a turn of the signal thread.
unfoldable pub free_message : Message → List ℕ → List ℕ
unfolding remove
free_message m allocated = elim m.buffer [
  | none ↦ remove m.address allocated
  | some (payload, cue) ↦ remove m.address (remove payload allocated)
]

-- A turn of the signal thread, which takes the oldest message and reports it while
-- signal_thread_running is set. It waits where there is none.
unfoldable pub signal_turn : Bool → Signals → Signals
unfolding free_message
signal_turn running s = elim s.queue [
  | [] ↦ s
  | m ∷ ms ↦ record {
    queue = ms;
    allocated = free_message m s.allocated;
    reported = if running then s.reported ++ m ∷ [] else s.reported;
  }
]
