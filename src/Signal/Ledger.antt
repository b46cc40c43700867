-- ===== src/Signal/Ledger.antt =====
-- The signals of source/esignal.c over any run: their order, and the memory they take.
use opensrthub.Base.{
  ℕ, ◌+◌, ◌≡◌, refl, ap, sym, ◌∙◌, Bool, true, false, Option, none, some, List, [], ◌∷◌, ◌++◌,
  arith, ◌==◌, ◌||◌, if◌then◌else◌, occurrences, May, May-bind,
}
use mathlib.Core.List.{append_assoc, append-nil}
use opensrthub.Signal.{
  Message, Signals, text_message, put, send_signal, send_signal_scte35, signal_turn,
}
use opensrthub.Signal.Steps.{
  Step, sends, sends_cue, takes, step, run, made, sent, blocks, blocks_of, lost, added, left,
  IsStep, step-IsStep,
}

-- After the steps from `s`, with so many blocks of nobody: the signals in order, and the blocks.
unfoldable pub IsLedger : List Step → (ℕ → ℕ) → Signals → Signals → Type 0
unfolding sent lost blocks_of
IsLedger cs gone s t =
    (t.reported ++ t.queue ≡ s.reported ++ s.queue ++ sent cs)
    × ((x : ℕ) → occurrences x t.allocated ≡ blocks_of x t.queue + (gone x + lost x cs))

sent_first :
    (c : Step) (cs : List Step) (before : List Message)
    → before ++ added (made c) ++ sent cs ≡ before ++ sent (c ∷ cs)
unfolding sent
sent_first c cs before = first_of (made c)
  where
    first_of :
        (o : Option (Message × Bool))
        → before ++ added o ++ sent cs
          ≡ before ++ elim o [
            | none ↦ sent cs
            | some (m, queued) ↦ if queued then m ∷ sent cs else sent cs
          ]
    first_of none = ap (λ ms. ms ++ sent cs) (append-nil before)
    first_of (some (m, true)) = append_assoc before (m ∷ []) (sent cs)
    first_of (some (m, false)) = ap (λ ms. ms ++ sent cs) (append-nil before)

lost_first : (x : ℕ) (c : Step) (cs : List Step) → left x (made c) + lost x cs ≡ lost x (c ∷ cs)
unfolding lost
lost_first x c cs = first_of (made c)
  where
    first_of :
        (o : Option (Message × Bool))
        → left x o + lost x cs ≡ elim o [
          | none ↦ lost x cs
          | some (m, queued) ↦ if queued then lost x cs else blocks x m + lost x cs
        ]
    first_of none = omega arith
    first_of (some (m, true)) = omega arith
    first_of (some (m, false)) = refl

in_front :
    (c : Step) (cs : List Step) (gone : ℕ → ℕ) (s t : Signals) (r : Option Signals)
    → t.reported ++ t.queue ≡ s.reported ++ s.queue ++ added (made c)
    → May (IsLedger cs (λ x. gone x + left x (made c)) t) r
    → May (IsLedger (c ∷ cs) gone s) r
unfolding IsLedger
in_front c cs gone s t none order h = tt
in_front c cs gone s t (some u) order (later, held) = (
  later ∙ ap (λ ms. ms ++ sent cs) order ∙ sent_first c cs (s.reported ++ s.queue),
  λ x. omega (arith, held x, lost_first x c cs),
)

run-IsLedger :
    (cs : List Step) (s : Signals) (gone : ℕ → ℕ)
    → ((x : ℕ) → occurrences x s.allocated ≡ blocks_of x s.queue + gone x)
    → May (IsLedger cs gone s) (run cs s)
unfolding run IsLedger sent lost
run-IsLedger [] s gone h = (sym (append-nil (s.reported ++ s.queue)), λ x. omega (arith, h x))
run-IsLedger (c ∷ cs) s gone h =
    May-bind (IsStep (made c) s) (IsLedger (c ∷ cs) gone s) (run cs) (step c s) (step-IsStep c s)
      λ t g.
        let (order, held) = g gone h in
        in_front c cs gone s t (run cs t) order
          (run-IsLedger cs t (λ x. gone x + left x (made c)) held)

abbrev pub no_signals : Signals
no_signals = record { queue = []; allocated = []; reported = [] }

-- A call of send_signal without memory for its message.
unfoldable pub is_exit : Step → Bool
is_exit (sends got queued type text) = got == 0
is_exit (sends_cue payload got queued cue) = false
is_exit takes = false

unfoldable pub exits : List Step → Bool
unfolding is_exit
exits [] = false
exits (c ∷ cs) = is_exit c || exits cs

unfoldable pub IsOrderly : List Step → Option Signals → Type 0
unfolding exits sent lost blocks_of
IsOrderly cs none = exits cs ≡ true
IsOrderly cs (some t) =
    (exits cs ≡ false)
    × (t.reported ++ t.queue ≡ sent cs)
    × ((x : ℕ) → occurrences x t.allocated ≡ blocks_of x t.queue + lost x cs)

abbrev Exits : Bool → Option Signals → Type 0
Exits b none = b ≡ true
Exits b (some t) = b ≡ false

after_send :
    (b : Bool) (cs : List Step) (t : Signals)
    → Exits (exits cs) (run cs t)
    → Exits (b || exits cs) (elim (if◌then◌else◌ {A = Option Signals} b none (some t)) [
      | none ↦ none
      | some u ↦ run cs u
    ])
after_send true cs t h = refl
after_send false cs t h = h

run-exits : (cs : List Step) (s : Signals) → Exits (exits cs) (run cs s)
unfolding exits is_exit run step send_signal
run-exits [] s = refl
run-exits (sends got queued type text ∷ cs) s =
    let t = put queued (text_message got type text) (record s { allocated = got ∷ s.allocated }) in
    after_send (got == 0) cs t (run-exits cs t)
run-exits (sends_cue payload got queued cue ∷ cs) s =
    run-exits cs (send_signal_scte35 payload got queued cue s).1
run-exits (takes ∷ cs) s = run-exits cs (signal_turn true s)

with_exits :
    (cs : List Step) (o : Option Signals)
    → Exits (exits cs) o
    → May (IsLedger cs (λ x. 0) no_signals) o
    → IsOrderly cs o
unfolding IsOrderly IsLedger
with_exits cs none e h = e
with_exits cs (some t) e (order, held) = (e, order, λ x. omega (arith, held x))

-- From an empty queue, for any calls of send_signal and send_signal_scte35 and any turns of the
-- running signal thread, in any order: the process exits exactly if a call of send_signal finds no
-- memory for its message. Otherwise the signals that the thread has taken, followed by those in
-- the queue, are the messages that were made and queued, in the order of the calls, each cue under
-- the signal of its direction; and the blocks that are allocated are those of the signals in the
-- queue, and those of the messages for which the queue had no memory.
pub run-IsOrderly : (cs : List Step) → IsOrderly cs (run cs no_signals)
unfolding occurrences blocks_of
run-IsOrderly cs =
    with_exits cs (run cs no_signals) (run-exits cs no_signals)
      (run-IsLedger cs no_signals (λ x. 0) (λ x. omega arith))
