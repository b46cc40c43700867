-- ===== src/Scte35/Safety.antt =====
-- The parsers of source/tsdecode.c read only inside the payload: no `fault`, and enough fuel.
use opensrthub.Base.{
  ℕ, zero, suc, ◌+◌, ◌≤◌, ◌≢◌, refl, Bool, true, false, none, List, arith, length, get_or,
  if◌then◌else◌,
}
use opensrthub.Scte35.Cue.{Cue}
use opensrthub.Scte35.Reader.{
  Parse, next, stop, fault, Cmd, and_then, bit, pure, ◌>>=◌, ◌>>◌, returned, byte, need,
  unless_cancelled,
}
use opensrthub.Scte35.Insert.{
  splice_time, event_header, program_time, component, component_loop, components, timing,
  break_duration, program_number, insert_body, parse_splice_insert,
}

-- No input cue makes the command read outside the payload.
abbrev pub Safe : {A : Type 0} → Cmd A → Type 0
Safe m = (c : Cue) → m c ≢ fault

and_then-ne-fault :
    {A B : Type 0} (r : Parse A) (k : A → Cmd B)
    → r ≢ fault
    → ((a : A) → Safe (k a))
    → and_then r k ≢ fault
and_then-ne-fault (next a c) k h g = g a c
and_then-ne-fault (stop b c) k h g = λ e. cc
and_then-ne-fault fault k h g = absurd (h refl)

pub Safe-bind :
    {A B : Type 0} {r : Cmd A} {k : A → Cmd B} → Safe r → ((a : A) → Safe (k a)) → Safe (r >>= k)
Safe-bind {r} {k} h g c = and_then-ne-fault (r c) k (h c) g

pub returned-ne-none : (r : Parse (Unit {0})) → r ≢ fault → returned r ≢ none
returned-ne-none (next a c) h = λ e. cc
returned-ne-none (stop b c) h = λ e. cc
returned-ne-none fault h = absurd (h refl)

pub unless_cancelled-Safe :
    (body : ℕ → Cmd (Unit {0})) (p : ℕ) → Safe (body p) → Safe (unless_cancelled body p)
unless_cancelled-Safe body p h c = ground (arith, h c)

module _ (m : List ℕ) (e : ℕ) (inside : e ≤ length m) where
  pub splice_time-Safe : (p : ℕ) → Safe (splice_time m e p)
  unfolding splice_time
  splice_time-Safe p c = ground arith

  event_header-Safe : (p : ℕ) → Safe (event_header m e p)
  unfolding event_header
  event_header-Safe p c = ground arith

  program_time-Safe : (p : ℕ) → Safe (program_time m e p)
  unfolding program_time
  program_time-Safe p = Safe-bind (splice_time-Safe p) λ r c e. cc

  component-Safe : (immediate first : Bool) (p : ℕ) → Safe (component m e immediate first p)
  unfolding component
  component-Safe immediate first p c = ground (arith, splice_time-Safe (p + 1) c)

  component_loop-Safe :
      (immediate : Bool) (n : ℕ) (first : Bool) (p : ℕ)
      → Safe (component_loop m e immediate n first p)
  unfolding component_loop
  component_loop-Safe immediate zero first p c = λ e. cc
  component_loop-Safe immediate (suc n) first p c =
      Safe-bind (component-Safe immediate first p) (component_loop-Safe immediate n false) c

  components-Safe : (immediate : Bool) (p : ℕ) → Safe (components m e immediate p)
  unfolding components need byte
  components-Safe immediate p c =
      ground (arith, component_loop-Safe immediate (get_or m p 0) true (p + 1) c)

  timing-Safe : (program immediate : Bool) (p : ℕ) → Safe (timing m e program immediate p)
  unfolding timing
  timing-Safe program immediate p c =
      ground (arith, program_time-Safe p c, components-Safe immediate p c)

  break_duration-Safe : (p : ℕ) → Safe (break_duration m e p)
  unfolding break_duration
  break_duration-Safe p c = ground arith

  program_number-Safe : (p : ℕ) → Safe (program_number m e p)
  unfolding program_number
  program_number-Safe p c = ground arith

  pub optional-Safe :
      (b : Bool) (part : ℕ → Cmd ℕ) (p : ℕ) → Safe (part p) → Safe (if b then part p else pure p)
  optional-Safe true part p h = h
  optional-Safe false part p h = λ c e. cc

  pub flags-Safe :
      (p : ℕ) (k : ℕ → Cmd (Unit {0}))
      → ((f : ℕ) → Safe (k f))
      → Safe (do need e p 1; f ← byte m p; k f)
  unfolding need byte
  flags-Safe p k h c = ground (arith, h (get_or m p 0) c)

  insert_body-Safe : (p : ℕ) → Safe (insert_body m e p)
  unfolding insert_body
  insert_body-Safe p = flags-Safe p _ λ f c.
      Safe-bind (timing-Safe (bit f 6) (bit f 4) (p + 1))
        (λ q.
          Safe-bind (optional-Safe (bit f 5) (break_duration m e) q (break_duration-Safe q))
            program_number-Safe)
        _

  pub parse_splice_insert-ne-none : (p : ℕ) (c : Cue) → parse_splice_insert m e p c ≢ none
  unfolding parse_splice_insert
  parse_splice_insert-ne-none p c = returned-ne-none _ (
      Safe-bind (event_header-Safe p)
        (λ q. unless_cancelled-Safe (insert_body m e) q (insert_body-Safe q)) _)
