-- ===== src/Signal/Steps.antt =====
-- The calls and turns of source/esignal.c one by one: what each adds to the signals, and its memory.
use opensrthub.Base.{
  ℕ, ◌+◌, ◌≤◌, ◌≡◌, sym, ◌∙◌, Bool, true, false, Option, none, some, List, [], ◌∷◌, ◌++◌, arith,
  ◌==◌, if◌then◌else◌, occurrences, subst, occurrences-remove, one_if, remove, May,
}
use mathlib.Core.List.{append_assoc, append-nil}
use opensrthub.Scte35.Cue.{Cue}
use opensrthub.Signal.Meant.{meant_cue, meant_text, cue_message-meant}
use opensrthub.Signal.{
  Message, Signals, text_message, cue_message, put, send_signal, send_payload, send_signal_scte35,
  free_message, signal_turn,
}

-- A call, or a turn of the signal thread, with what malloc returns in it.
pub data Step : Type 0 where
  sends : ℕ → Bool → ℕ → List ℕ → Step
  sends_cue : ℕ → ℕ → Bool → Option Cue → Step
  takes : Step

unfoldable pub step : Step → Signals → Option Signals
unfolding send_signal send_signal_scte35 signal_turn
step (sends got queued type text) s = send_signal got queued type text s
step (sends_cue payload got queued cue) s = some (send_signal_scte35 payload got queued cue s).1
step takes s = some (signal_turn true s)

unfoldable pub run : List Step → Signals → Option Signals
unfolding step
run [] s = some s
run (c ∷ cs) s = elim (step c s) [ none ↦ none | some t ↦ run cs t ]

-- The message that a step makes, and whether the queue has memory for it.
unfoldable pub made : Step → Option (Message × Bool)
made (sends got queued type text) =
    if got == 0 then none else some (meant_text got type text, queued)
made (sends_cue payload got queued none) = none
made (sends_cue payload got queued (some cue)) =
    if payload == 0
    then none
    else if got == 0
    then none
    else some (meant_cue payload got cue, queued)
made takes = none

unfoldable pub sent : List Step → List Message
sent [] = []
sent (c ∷ cs) = elim (made c) [
  | none ↦ sent cs
  | some (m, queued) ↦ if queued then m ∷ sent cs else sent cs
]

-- The blocks of a message.
unfoldable pub blocks : ℕ → Message → ℕ
blocks x m =
    one_if (m.address == x)
    + elim m.buffer [ none ↦ 0 | some (payload, cue) ↦ one_if (payload == x) ]

unfoldable pub blocks_of : ℕ → List Message → ℕ
unfolding blocks
blocks_of x [] = 0
blocks_of x (m ∷ ms) = blocks x m + blocks_of x ms

-- The blocks of the messages for which the queue had no memory.
unfoldable pub lost : ℕ → List Step → ℕ
unfolding blocks
lost x [] = 0
lost x (c ∷ cs) = elim (made c) [
  | none ↦ lost x cs
  | some (m, queued) ↦ if queued then lost x cs else blocks x m + lost x cs
]

abbrev pub added : Option (Message × Bool) → List Message
added o = elim o [ none ↦ [] | some (m, q) ↦ if q then m ∷ [] else [] ]

abbrev pub left : ℕ → Option (Message × Bool) → ℕ
left x o = elim o [ none ↦ 0 | some (m, q) ↦ if q then 0 else blocks x m ]

-- A step from `s` to `t`: what it adds to the signals, and the blocks it leaves to nobody.
abbrev pub IsStep : Option (Message × Bool) → Signals → Signals → Type 0
IsStep o s t =
    (gone : ℕ → ℕ)
    → ((x : ℕ) → occurrences x s.allocated ≡ blocks_of x s.queue + gone x)
    → (t.reported ++ t.queue ≡ s.reported ++ s.queue ++ added o)
      × ((x : ℕ) → occurrences x t.allocated ≡ blocks_of x t.queue + (gone x + left x o))

blocks_of-append :
    (x : ℕ) (ms ns : List Message) → blocks_of x (ms ++ ns) ≡ blocks_of x ms + blocks_of x ns
unfolding blocks_of
blocks_of-append x [] ns = omega arith
blocks_of-append x (m ∷ ms) ns = omega (arith, blocks_of-append x ms ns)

nothing_made : (s : Signals) → IsStep none s s
nothing_made s gone h = (sym (append-nil (s.reported ++ s.queue)), λ x. omega (arith, h x))

freed_two :
    (x p q : ℕ) (allocated : List ℕ)
    → ((y : ℕ) → one_if (p == y) + one_if (q == y) ≤ occurrences y allocated)
    → occurrences x (remove p (remove q allocated)) + (one_if (p == x) + one_if (q == x))
      ≡ occurrences x allocated
freed_two x p q allocated h =
    let inner = occurrences-remove q x allocated (omega (arith, h x)) in
    let outer = occurrences-remove p x (remove q allocated) (omega (arith, h x, inner)) in
    omega (arith, inner, outer)

freed_with :
    (x : ℕ) (m : Message) (b : Option (ℕ × Cue)) (allocated : List ℕ)
    → ((y : ℕ) → blocks y (record m { buffer = b }) ≤ occurrences y allocated)
    → occurrences x (free_message (record m { buffer = b }) allocated)
        + blocks x (record m { buffer = b })
      ≡ occurrences x allocated
unfolding free_message blocks
freed_with x m none allocated h =
    omega (arith, occurrences-remove m.address x allocated (omega (arith, h x)))
freed_with x m (some (payload, cue)) allocated h = freed_two x m.address payload allocated h

free_message-blocks :
    (x : ℕ) (m : Message) (allocated : List ℕ)
    → ((y : ℕ) → blocks y m ≤ occurrences y allocated)
    → occurrences x (free_message m allocated) + blocks x m ≡ occurrences x allocated
free_message-blocks x m allocated h = freed_with x m m.buffer allocated h

turn-IsStep :
    (ms : List Message) (s : Signals)
    → IsStep none (record s { queue = ms }) (signal_turn true (record s { queue = ms }))
unfolding signal_turn blocks_of
turn-IsStep [] s = nothing_made (record s { queue = [] })
turn-IsStep (m ∷ ms) s = λ gone h. (
  append_assoc s.reported (m ∷ []) ms ∙ sym (append-nil (s.reported ++ m ∷ ms)),
  λ x. omega (arith, h x, free_message-blocks x m s.allocated (λ y. omega (arith, h y))),
)

put-IsStep :
    (m : Message) (queued : Bool) (s : Signals) (allocated : List ℕ)
    → ((x : ℕ) → occurrences x allocated ≡ occurrences x s.allocated + blocks x m)
    → IsStep (some (m, queued)) s (put queued m (record s { allocated = allocated }))
unfolding put blocks_of
put-IsStep m true s allocated g = λ gone h. (
  sym (append_assoc s.reported s.queue (m ∷ [])),
  λ x. omega (arith, h x, g x, blocks_of-append x s.queue (m ∷ [])),
)
put-IsStep m false s allocated g =
    λ gone h. (sym (append-nil (s.reported ++ s.queue)), λ x. omega (arith, h x, g x))

cue_blocks :
    (x payload got : ℕ) (cue : Cue) (allocated : List ℕ)
    → occurrences x (got ∷ payload ∷ allocated)
      ≡ occurrences x allocated + blocks x (cue_message payload got cue)
unfolding occurrences blocks
cue_blocks x payload got cue allocated = omega arith

text_blocks :
    (x got type : ℕ) (text allocated : List ℕ)
    → occurrences x (got ∷ allocated)
      ≡ occurrences x allocated + blocks x (text_message got type text)
unfolding occurrences blocks
text_blocks x got type text allocated = omega arith

sent-IsStep :
    (got : ℕ) (queued : Bool) (type : ℕ) (text : List ℕ) (s : Signals) (no_message : Bool)
    → May (IsStep (if no_message then none else some (text_message got type text, queued)) s) (
        if no_message
        then none
        else some
            (put queued (text_message got type text) (record s { allocated = got ∷ s.allocated })))
sent-IsStep got queued type text s true = tt
sent-IsStep got queued type text s false =
    put-IsStep (text_message got type text) queued s (got ∷ s.allocated)
      λ x. text_blocks x got type text s.allocated

cue-IsStep :
    (payload got : ℕ) (queued : Bool) (cue : Cue) (s : Signals) (no_payload no_message : Bool)
    → IsStep
        (if no_payload
          then none
          else if no_message
          then none
          else some (cue_message payload got cue, queued))
        s
        (if◌then◌else◌ {A = Bool × Signals} no_payload
          (false, s)
          (if no_message
            then (false, record s { allocated = remove payload (payload ∷ s.allocated) })
            else (
              true,
              put queued
                  (cue_message payload got cue)
                  (record s { allocated = got ∷ payload ∷ s.allocated }),
            ))).1
unfolding remove
cue-IsStep payload got queued cue s true b = nothing_made s
cue-IsStep payload got queued cue s false true =
    λ gone h. (sym (append-nil (s.reported ++ s.queue)), λ x. ground (arith, h x))
cue-IsStep payload got queued cue s false false =
    put-IsStep (cue_message payload got cue) queued s (got ∷ payload ∷ s.allocated)
      λ x. cue_blocks x payload got cue s.allocated

pub step-IsStep : (c : Step) (s : Signals) → May (IsStep (made c) s) (step c s)
unfolding step made send_signal send_signal_scte35 send_payload
step-IsStep (sends got queued type text) s = sent-IsStep got queued type text s (got == 0)
step-IsStep (sends_cue payload got queued none) s = nothing_made s
step-IsStep (sends_cue payload got queued (some cue)) s =
    subst
      (λ m.
        IsStep (if payload == 0 then none else if got == 0 then none else some (m, queued)) s
          (send_signal_scte35 payload got queued (some cue) s).1)
      (cue_message-meant payload got cue)
      (cue-IsStep payload got queued cue s (payload == 0) (got == 0))
step-IsStep takes s = turn-IsStep s.queue s
