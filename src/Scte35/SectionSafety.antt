-- ===== src/Scte35/SectionSafety.antt =====
-- The descriptor loop and the section decoder of source/tsdecode.c: every read lies inside the
-- payload and the loop ends.
use opensrthub.Base.{
  ℕ, zero, suc, ◌+◌, ◌-◌, ◌*◌, ◌^◌, ◌%◌, ◌≤◌, ◌<◌, ◌≡◌, ◌≢◌, refl, Option, none, some, List, arith,
  inl, inr, Option-cases, length, get_or, if◌then◌else◌,
}
use opensrthub.Scte35.Cue.{Cue, base_cue}
use opensrthub.Scte35.Reader.{Parse, next, stop, fault, bit, pure, u16_at}
use opensrthub.Scte35.Segment.{
  identifier, segment_header, skip_components, segment_duration, upid, segment_type, segment_body,
  parse_segmentation_descriptor,
}
use opensrthub.Scte35.Section.{
  descriptor_cue, descriptor_end, take_descriptor, descriptor_loop, time_signal_header,
  time_signal_cue, parse_time_signal, decode_command, decode_section, walk, scte_end,
}
use opensrthub.Scte35.Safety.{
  Safe, Safe-bind, returned-ne-none, unless_cancelled-Safe, flags-Safe, optional-Safe,
  parse_splice_insert-ne-none,
}

module _ (m : List ℕ) (e : ℕ) (inside : e ≤ length m) where
  identifier-Safe : (p : ℕ) → Safe (identifier m e p)
  unfolding identifier
  identifier-Safe p c = ground arith

  segment_header-Safe : (p : ℕ) → Safe (segment_header m e p)
  unfolding segment_header
  segment_header-Safe p c = ground arith

  skip_components-Safe : (p : ℕ) → Safe (skip_components m e p)
  unfolding skip_components
  skip_components-Safe p c = ground arith

  segment_duration-Safe : (p : ℕ) → Safe (segment_duration m e p)
  unfolding segment_duration
  segment_duration-Safe p c = ground arith

  upid-Safe : (p : ℕ) → Safe (upid m e p)
  unfolding upid
  upid-Safe p c = ground arith

  segment_type-Safe : (p : ℕ) → Safe (segment_type m e p)
  unfolding segment_type
  segment_type-Safe p c = ground arith

  segment_body-Safe : (p : ℕ) → Safe (segment_body m e p)
  unfolding segment_body
  segment_body-Safe p = flags-Safe m e inside p _ λ f. Safe-bind (skip f) λ q.
      Safe-bind
        (optional-Safe m e inside (bit f 6) (segment_duration m e) q (segment_duration-Safe q))
        λ r. Safe-bind (upid-Safe r) segment_type-Safe
    where
      skip : (f : ℕ) → Safe (if bit f 7 then pure (p + 1) else skip_components m e (p + 1))
      skip f c = ground (arith, skip_components-Safe (p + 1) c)

  parse_segmentation_descriptor-ne-none :
      (p : ℕ) (c : Cue) → parse_segmentation_descriptor m e p c ≢ none
  unfolding parse_segmentation_descriptor
  parse_segmentation_descriptor-ne-none p c = returned-ne-none _ (
      Safe-bind (identifier-Safe p)
        (λ q.
          Safe-bind (segment_header-Safe q)
            λ r c. unless_cancelled-Safe (segment_body m e) r (segment_body-Safe r) _)
        c)

module _ (m : List ℕ) where
  descriptor_cue-ne-none :
      (d d_end : ℕ) (cue : Cue) → d_end ≤ length m → descriptor_cue m d d_end cue ≢ none
  unfolding descriptor_cue
  descriptor_cue-ne-none d d_end cue h =
      ground (arith, parse_segmentation_descriptor-ne-none m d_end h d cue)

  take_descriptor-ne-none :
      (p : ℕ) (cue : Cue) (rest : Option (List Cue))
      → descriptor_end m p ≤ length m
      → rest ≢ none
      → take_descriptor m p cue rest ≢ none
  unfolding take_descriptor
  take_descriptor-ne-none p cue rest h r =
      ground (arith, descriptor_cue-ne-none (p + 2) (descriptor_end m p) cue h)

  -- Enough fuel: each round moves on by two bytes at least.
  descriptor_loop-ne-none :
      (k p loop_end : ℕ) (cue : Cue)
      → loop_end ≤ length m
      → loop_end - p < k
      → descriptor_loop m k p loop_end cue ≢ none
  unfolding descriptor_loop
  descriptor_loop-ne-none zero p loop_end cue h fuel = elim fuel [ ]
  descriptor_loop-ne-none (suc k) p loop_end cue h fuel = ground (
    arith,
    take_descriptor-ne-none p cue (descriptor_loop m k (descriptor_end m p) loop_end cue),
    descriptor_loop-ne-none k (descriptor_end m p) loop_end cue,
  )

  pub scte_end_le : (n : ℕ) → scte_end m n ≤ length m
  scte_end_le n = ground arith

  module _ (e : ℕ) (inside : e ≤ length m) where
    time_signal_header-Safe : (cmd n : ℕ) → Safe (time_signal_header m e cmd n)
    unfolding time_signal_header
    time_signal_header-Safe cmd n c = ground arith

    time_signal_header-le :
        (cmd n : ℕ) (c : Cue) {r : Option ℕ × ℕ × ℕ} {c' : Cue}
        → time_signal_header m e cmd n c ≡ next r c'
        → r.2 ≤ e
    unfolding time_signal_header
    time_signal_header-le cmd n c h = ground arith

    walk-ne-none :
        (base : Cue) (r : Parse (Option ℕ × ℕ × ℕ))
        → r ≢ fault
        → ((x : Option ℕ × ℕ × ℕ) (c : Cue) → r ≡ next x c → x.2 ≤ e)
        → walk m base r ≢ none
    unfolding walk
    walk-ne-none base (next x c) h le =
        descriptor_loop-ne-none (suc (x.2 - x.1)) x.1 x.2 (time_signal_cue x.0 base)
          (omega (arith, le x c refl)) (omega arith)
    walk-ne-none base (stop b c) h le = λ e. cc
    walk-ne-none base fault h le = absurd (h refl)

    parse_time_signal-ne-none : (cmd n : ℕ) (c : Cue) → parse_time_signal m e cmd n c ≢ none
    unfolding parse_time_signal
    parse_time_signal-ne-none cmd n c =
        walk-ne-none c _ (time_signal_header-Safe cmd n c) λ x c' h. time_signal_header-le cmd n c h

    decode_command-ne-none :
        (command_type n : ℕ) (c : Cue) → decode_command m e command_type n c ≢ none
    unfolding decode_command
    decode_command-ne-none command_type n c =
        ground
          (arith, parse_splice_insert-ne-none m e inside 15 c, parse_time_signal-ne-none 15 n c)

  decode_section-ne-none : (pid : ℕ) → decode_section m pid ≢ none
  unfolding decode_section
  decode_section-ne-none pid = ground (
    arith,
    decode_command-ne-none (scte_end m (u16_at m 2 % 2 ^ 12)) (scte_end_le (u16_at m 2 % 2 ^ 12))
        (get_or m 14 0) (get_or m 12 0 % 16 * 2 ^ 8 + get_or m 13 0)
        (base_cue
          (get_or m 5 0 % 2 * 2 ^ 32
            + get_or m 6 0 * 2 ^ 24
            + get_or m 7 0 * 2 ^ 16
            + get_or m 8 0 * 2 ^ 8
            + get_or m 9 0)
          pid),
  )

  -- For every payload and PID the SCTE-35 section decoder ends and reads only inside the payload:
  -- it yields a list of cues, never an access outside or a loop without end.
  pub decode_section_total : (pid : ℕ) → (cs : List Cue) × (decode_section m pid ≡ some cs)
  decode_section_total pid = elim (Option-cases (decode_section m pid)) [
    | inl e ↦ absurd (ne e)
    | inr r ↦ r
  ]
    where
      ne : decode_section m pid ≢ none
      ne = decode_section-ne-none pid
