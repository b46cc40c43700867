-- ===== src/DataQueue/Wait.antt =====
-- dataqueue_take_back_wait of source/dataqueue.c.
use opensrthub.Base.{
  ◌≡◌, ◌≢◌, refl, true, false, Option, none, some, List, [], ◌∷◌, ◌++◌, All, inl, inr, Bool-cases,
  arith,
}
use opensrthub.DataQueue.{Ptr, null, Queue, Run, ok, Seen, take_back, take_back_wait}

-- At this wake-up the loop waits on: the queue is empty and the thread is to go on.
abbrev pub Waits : Seen → Type 0
Waits s = (s.queue.tail ≡ null) × (s.running ≡ true)

-- What the call does once it no longer waits.
abbrev pub Ends : Seen → Run (Option Ptr × Queue) → Type 0
Ends s r =
    (s.running ≡ true → r ≡ take_back s.queue s.heap)
    × (s.running ≡ false → r ≡ ok (none, s.queue) s.heap)

-- dataqueue_take_back_wait returns at the first wake-up at which the queue has a message or the
-- thread is stopped, and not before: a running thread gets the result of a take from the back, a
-- stopped one gets NULL and leaves the queue as it is.
pub take_back_wait_lem :
    (before : List Seen) (s : Seen) (later : List Seen)
    → All Waits before
    → ¬ (Waits s)
    → (r : Run (Option Ptr × Queue)) × (take_back_wait (before ++ s ∷ later) ≡ some r) × Ends s r
unfolding take_back_wait
take_back_wait_lem [] s later w n = elim (Bool-cases s.running) [
  | inl e ↦ (take_back s.queue s.heap, ground (arith, nonempty e), (λ _. refl, λ e'. absurd (cc)))
  | inr e ↦ (ok (none, s.queue) s.heap, ground arith, (λ e'. absurd (cc), λ _. refl))
]
  where
    nonempty : s.running ≡ true → s.queue.tail ≢ null
    nonempty e t = n (t, e)
take_back_wait_lem (b ∷ before) s later (w, ws) n =
    let (r, e, ends) = take_back_wait_lem before s later ws n in (r, ground arith, ends)

-- While every wake-up finds an empty queue and a running thread, the call has not returned.
pub take_back_wait_on : (seen : List Seen) → All Waits seen → take_back_wait seen ≡ none
unfolding take_back_wait
take_back_wait_on [] w = refl
take_back_wait_on (s ∷ later) (w, ws) = ground (arith, take_back_wait_on later ws)
