-- ===== src/Cues/Receive.antt =====
-- receive_frame of source/srthub.c on a sample of a SCTE-35 stream.
use opensrthub.Base.{ℕ, suc, Bool, not, Option, none, some, List, if◌then◌else◌}
use opensrthub.Scte35.Cue.{Cue}
use opensrthub.Signal.{Signals, send_signal_scte35}
use opensrthub.Cues.Recent.{RecentCue, key_of, note_cue}

-- The members of srthub_core_struct for SCTE-35: the table, the last cue with its time of day, and
-- the count; and the signals. The members of the last cue are those of the cue that it was.
pub record Core : Type 0 where
  pub scte35_recent : List RecentCue
  pub scte35_last_cue : Option (Cue × ℕ)
  pub scte35_cue_count : ℕ
  pub signals : Signals

-- The time of day, the seconds of the monotonic clock, and what malloc returns to
-- send_signal_scte35.
pub record Moment : Type 0 where
  pub cue_time : ℕ
  pub cue_seen : ℕ
  pub payload : ℕ
  pub got : ℕ
  pub queued : Bool

abbrev pub report : Moment → Cue → Core → Core
report m cue c = record c {
  scte35_last_cue = some (cue, m.cue_time);
  scte35_cue_count = suc c.scte35_cue_count;
  signals = (send_signal_scte35 m.payload m.got m.queued (some cue) c.signals).1;
}

-- A sample that is NULL or not of the size of a cue is `none`.
unfoldable pub receive_cue : Moment → Option Cue → Core → Core
unfolding note_cue send_signal_scte35
receive_cue m none c = c
receive_cue m (some cue) c =
    if not cue.parse_complete
    then c
    else let noted = note_cue m.cue_seen (key_of cue) c.scte35_recent in
      let kept = record c { scte35_recent = noted.1 } in if noted.0 then report m cue kept else kept
