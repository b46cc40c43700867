-- ===== src/DataQueue/Fifo.antt =====
-- How the signal path uses the queue of source/dataqueue.c: send_signal puts at the front,
-- signal_thread takes from the back (source/esignal.c). Together that is first in, first out.
use opensrthub.Base.{
  ◌≡◌, ◌≢◌, refl, ap, true, false, ◌⊎◌, inl, inr, none, some, List, [], ◌∷◌, ◌++◌, map, arith,
}
use opensrthub.DataQueue.{Ptr, null, Heap, Queue, Run, ok, put_front, take_back, empty}
use opensrthub.DataQueue.Chain.{Cells, IsQueue}
use opensrthub.DataQueue.Put.{put_front-cons, put_no_memory}
use opensrthub.DataQueue.Take.{take_back-append, take_empty}

-- The queue on its heap, and all messages sent and received so far, the newest first.
pub record World : Type 0 where
  pub heap : Heap
  pub queue : Queue
  pub sent : List Ptr
  pub received : List Ptr

pub data Step : World → World → Type 0 where
  sends :
      {w : World} {q : Queue} {g : Heap} (fresh m : Ptr)
      → fresh ≢ null
      → w.heap fresh ≡ none
      → put_front fresh w.queue m w.heap ≡ ok (true, q) g
      → Step w (record w { heap = g; queue = q; sent = m ∷ w.sent })
  out_of_memory :
      {w : World} {q : Queue} {g : Heap} (m : Ptr)
      → put_front null w.queue m w.heap ≡ ok (false, q) g
      → Step w (record w { heap = g; queue = q })
  receives :
      {w : World} {q : Queue} {g : Heap} (m : Ptr)
      → take_back w.queue w.heap ≡ ok (some m, q) g
      → Step w (record w { heap = g; queue = q; received = m ∷ w.received })
  idles :
      {w : World} {q : Queue} {g : Heap}
      → take_back w.queue w.heap ≡ ok (none, q) g
      → Step w (record w { heap = g; queue = q })

pub data Reach (w : World) : World → Type 0 where
  start : Reach w w
  then_ : {v u : World} → Reach w v → Step v u → Reach w u

abbrev pub messages : Cells → List Ptr
messages xs = map (λ c. c.1) xs

-- What was sent is what waits in the queue and, before it, what was received.
pub record InOrder (w : World) : Type 0 where
  pub cells : Cells
  pub holds : IsQueue w.heap w.queue cells
  pub history : w.sent ≡ messages cells ++ w.received

-- A list is empty or ends in a last cell.
snoc_view :
    (xs : Cells) → (xs ≡ []) ⊎ ((ys : Cells) × (p : Ptr) × (m : Ptr) × (xs ≡ ys ++ (p, m) ∷ []))
snoc_view [] = inl refl
snoc_view ((p, m) ∷ xs) = elim (snoc_view xs) [
  | inl e ↦ inr ([], p, m, ap (λ r. (p, m) ∷ r) e)
  | inr r ↦ let (ys, a, k, e) = r in inr ((p, m) ∷ ys, a, k, ap (λ r. (p, m) ∷ r) e)
]

messages-append :
    (ys : Cells) (p m : Ptr) (rs : List Ptr)
    → messages (ys ++ (p, m) ∷ []) ++ rs ≡ messages ys ++ m ∷ rs
messages-append [] p m rs = refl
messages-append ((a, k) ∷ ys) p m rs = ap (λ r. k ∷ r) (messages-append ys p m rs)

-- Two descriptions of one run have the same queue and heap.
same_end :
    {A : Type 0} {r : Run (A × Queue)} {a b : A} {q q' : Queue} {g g' : Heap}
    → r ≡ ok (a, q) g
    → r ≡ ok (b, q') g'
    → (a ≡ b) × (q ≡ q') × (g ≡ g')
same_end e e' = (cc, cc, cc)

-- A take from the back, whatever the queue holds.
take_back_cases :
    (w : World) (i : InOrder w)
    → ((i.cells ≡ []) × (take_back w.queue w.heap ≡ ok (none, w.queue) w.heap))
      ⊎ ((ys : Cells) × (p : Ptr) × (m : Ptr) × (q : Queue) × (g : Heap) × (i.cells
            ≡ ys ++ (p, m) ∷ [])
          × (take_back w.queue w.heap ≡ ok (some m, q) g)
          × IsQueue g q ys)
take_back_cases w i = elim (snoc_view i.cells) [
  | inl e ↦ inl (e, (take_empty w.heap w.queue (rw e at i.holds)).0)
  | inr r ↦
      let (ys, p, m, e) = r in
      let (q, g, run, gave) = take_back-append w.heap w.queue ys p m (rw e at i.holds) in
      inr (ys, p, m, q, g, e, run, gave.holds)
]

Step-InOrder : {w v : World} → Step w v → InOrder w → InOrder v
Step-InOrder {w} (sends fresh m real unused e) i =
    let (r, g, e', held) = put_front-cons w.heap fresh real unused w.queue i.cells m i.holds in
    let (_, at_q, at_g) = same_end e e' in
    record {
      cells = (fresh, m) ∷ i.cells;
      holds = rw (at_q, at_g) held.holds;
      history = ap (λ r. m ∷ r) i.history;
    }
Step-InOrder {w} (out_of_memory m e) i =
    let (_, at_q, at_g) = same_end e (put_no_memory w.heap w.queue m).1 in
    record { cells = i.cells; holds = rw (at_q, at_g) i.holds; history = i.history }
Step-InOrder {w} (receives m e) i = elim (take_back_cases w i) [
  | inl r ↦ absurd (let (same, _, _) = same_end e r.1 in cc)
  | inr r ↦
      let (ys, p, k, q, g, split, run, holds) = r in
      let (same, at_q, at_g) = same_end e run in
      record {
        cells = ys;
        holds = rw (at_q, at_g) holds;
        history = ground (arith, i.history, messages-append ys p k w.received);
      }
]
Step-InOrder {w} (idles e) i = elim (take_back_cases w i) [
  | inl r ↦
      let (_, at_q, at_g) = same_end e r.1 in
      record { cells = i.cells; holds = rw (at_q, at_g) i.holds; history = i.history }
  | inr r ↦
      let (ys, p, k, q, g, split, run, holds) = r in
      absurd (let (same, _, _) = same_end e run in cc)
]

-- Along every run of put_front and take_back (puts that fail for want of memory included) on a
-- queue that holds what was sent and not yet received, the messages sent are those received and,
-- behind them, those waiting in the queue, in order: none is lost, duplicated or overtaken.
pub Reach-InOrder : {w v : World} → InOrder w → Reach w v → InOrder v
Reach-InOrder i start = i
Reach-InOrder i (then_ r st) = Step-InOrder st (Reach-InOrder i r)

abbrev pub idle_world : Heap → World
idle_world h = record { heap = h; queue = empty; sent = []; received = [] }

pub idle_world-InOrder : (h : Heap) → InOrder (idle_world h)
idle_world-InOrder h = record {
  cells = [];
  holds = record { chain = tt; head = refl; tail = refl; count = refl };
  history = refl;
}
