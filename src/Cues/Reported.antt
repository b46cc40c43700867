-- ===== src/Cues/Reported.antt =====
-- What receive_frame of source/srthub.c reports of the samples of a SCTE-35 stream.
use opensrthub.Base.{
  ℕ, ◌+◌, ◌≤◌, ◌≡◌, refl, subst, Bool, true, false, not, Option, none, some, List, [], ◌∷◌, arith,
  if◌then◌else◌, Bool-cases, inl, inr, one_if,
}
use opensrthub.Scte35.Cue.{Cue}
use opensrthub.Signal.{Signals, send_signal_scte35}
use opensrthub.Cues.Recent.{recent_cues, no_cues, key_of, note_cue}
use opensrthub.Cues.Receive.{Core, Moment, receive_cue}
use opensrthub.Cues.Suppressed.{History, seen_within, table_after}
use opensrthub.Cues.Repeats.{InOrder, distinct, note_cue-seen_within}

-- The samples that came, the last one first.
abbrev pub Samples : Type 0
Samples = List (Moment × Option Cue)

abbrev pub new_core : Signals → Core
new_core signals = record {
  scte35_recent = no_cues;
  scte35_last_cue = none;
  scte35_cue_count = 0;
  signals = signals;
}

unfoldable pub core_after : Signals → Samples → Core
unfolding receive_cue
core_after signals [] = new_core signals
core_after signals ((m, sample) ∷ ss) = receive_cue m sample (core_after signals ss)

-- The samples that are whole cues.
unfoldable pub cues_of : Samples → History
cues_of [] = []
cues_of ((m, none) ∷ ss) = cues_of ss
cues_of ((m, some cue) ∷ ss) =
    let rest = cues_of ss in if cue.parse_complete then (m.cue_seen, key_of cue) ∷ rest else rest

-- A cue is new that is whole and did not come less than the window before.
unfoldable pub is_new_cue : Moment → Option Cue → Samples → Bool
unfolding cues_of seen_within
is_new_cue m none ss = false
is_new_cue m (some cue) ss =
    if cue.parse_complete then not (seen_within m.cue_seen (key_of cue) (cues_of ss)) else false

unfoldable pub new_cues : Samples → ℕ
unfolding is_new_cue
new_cues [] = 0
new_cues ((m, sample) ∷ ss) = one_if (is_new_cue m sample ss) + new_cues ss

-- One signal for each new cue.
unfoldable pub announced : Signals → Samples → Signals
unfolding is_new_cue send_signal_scte35
announced signals [] = signals
announced signals ((m, sample) ∷ ss) =
    let before = announced signals ss in
    if is_new_cue m sample ss
    then (send_signal_scte35 m.payload m.got m.queued sample before).1
    else before

record Reports (signals : Signals) (ss : Samples) (c : Core) : Type 0 where
  table : c.scte35_recent ≡ table_after (cues_of ss)
  count : c.scte35_cue_count ≡ new_cues ss
  sent : c.signals ≡ announced signals ss

-- A whole cue on top of the others.
whole_Reports :
    (signals : Signals) (m : Moment) (cue : Cue) (ss : Samples) (c : Core)
    → cue.parse_complete ≡ true
    → (note_cue m.cue_seen (key_of cue) (table_after (cues_of ss))).0
      ≡ not (seen_within m.cue_seen (key_of cue) (cues_of ss))
    → Reports signals ss c
    → Reports signals ((m, some cue) ∷ ss) (receive_cue m (some cue) c)
unfolding receive_cue cues_of new_cues announced is_new_cue table_after
whole_Reports signals m cue ss c whole due g = record {
  table = ground (arith, whole, g.table);
  count = ground (arith, whole, g.table, g.count, due);
  sent = ground (arith, whole, g.table, g.sent, due);
}

-- A sample that is no whole cue changes nothing.
part_Reports :
    (signals : Signals) (m : Moment) (cue : Cue) (ss : Samples) (c : Core)
    → cue.parse_complete ≡ false
    → Reports signals ss c
    → Reports signals ((m, some cue) ∷ ss) (receive_cue m (some cue) c)
unfolding receive_cue cues_of new_cues announced is_new_cue table_after
part_Reports signals m cue ss c part g = record {
  table = ground (arith, part, g.table);
  count = ground (arith, part, g.count);
  sent = ground (arith, part, g.sent);
}

whole_history :
    (m : Moment) (cue : Cue) (ss : Samples)
    → cue.parse_complete ≡ true
    → cues_of ((m, some cue) ∷ ss) ≡ (m.cue_seen, key_of cue) ∷ cues_of ss
unfolding cues_of
whole_history m cue ss whole = ground (arith, whole)

part_history :
    (m : Moment) (cue : Cue) (ss : Samples)
    → cue.parse_complete ≡ false
    → cues_of ((m, some cue) ∷ ss) ≡ cues_of ss
unfolding cues_of
part_history m cue ss part = ground (arith, part)

core_after-Reports :
    (signals : Signals) (ss : Samples) (now : ℕ)
    → InOrder now (cues_of ss)
    → distinct (cues_of ss) ≤ recent_cues
    → Reports signals ss (core_after signals ss)
unfolding core_after cues_of new_cues announced table_after InOrder distinct receive_cue is_new_cue
core_after-Reports signals [] now order few = record { table = refl; count = refl; sent = refl }
core_after-Reports signals ((m, none) ∷ ss) now order few =
    let g = core_after-Reports signals ss now order few in
    record { table = g.table; count = omega (arith, g.count); sent = g.sent }
core_after-Reports signals ((m, some cue) ∷ ss) now order few =
    elim (Bool-cases cue.parse_complete) [
      | inr part ↦
          let same = part_history m cue ss part in
          part_Reports signals m cue ss (core_after signals ss) part (
            core_after-Reports signals ss now (subst (InOrder now) same order)
              (subst (λ h. distinct h ≤ recent_cues) same few))
      | inl whole ↦
          let same = whole_history m cue ss whole in
          let (le, earlier) = subst (InOrder now) same order in
          let fewer = subst (λ h. distinct h ≤ recent_cues) same few in
          whole_Reports signals m cue ss (core_after signals ss) whole
            (note_cue-seen_within (cues_of ss) m.cue_seen (key_of cue) earlier fewer)
            (core_after-Reports signals ss m.cue_seen earlier (omega (arith, fewer)))
    ]

-- For samples of SCTE-35 streams whose clock does not run backwards and whose whole cues have at
-- most eight different keys, receive_frame counts the cues that are new, and sends exactly their
-- signals in their order: a cue is new if it is whole and no cue with its key came less than
-- thirty seconds before.
pub core_after-announced :
    (signals : Signals) (ss : Samples) (now : ℕ)
    → InOrder now (cues_of ss)
    → distinct (cues_of ss) ≤ recent_cues
    → ((core_after signals ss).scte35_cue_count ≡ new_cues ss)
      × ((core_after signals ss).signals ≡ announced signals ss)
core_after-announced signals ss now order few =
    let g = core_after-Reports signals ss now order few in (g.count, g.sent)
