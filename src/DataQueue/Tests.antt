-- ===== src/DataQueue/Tests.antt =====
-- Tests of source/dataqueue.c, and its theorems at a queue of two messages.
use opensrthub.Base.{◌≡◌, refl, true, none, some, Option, [], ◌∷◌, arith}
use opensrthub.DataQueue.{
  Ptr, null, Heap, Queue, Run, ok, fault, node, write, load, set_next, set_prev, free, put_front,
  take_back, destroy, Seen, take_back_wait, empty,
}
use opensrthub.DataQueue.Chain.{Cells, IsQueue}
use opensrthub.DataQueue.Destroy.{Gone, destroy-Gone}
use opensrthub.DataQueue.Fifo.{
  World, sends, Reach, start, then_, InOrder, Reach-InOrder, idle_world, idle_world-InOrder,
}
use opensrthub.DataQueue.Wait.{Ends, take_back_wait_lem}

-- Message 70 in front of message 60.
abbrev heap : Heap
heap = write (write (λ _. none) 1 (some (node 2 null 60))) 2 (some (node null 1 70))

abbrev queue : Queue
queue = record { count = 2; tail = 1; head = 2 }

abbrev cells : Cells
cells = (2, 70) ∷ (1, 60) ∷ []

queue-IsQueue : IsQueue heap queue cells
unfolding write
queue-IsQueue = record {
  chain = (omega arith, refl, (omega arith, tt), (omega arith, refl, tt, tt));
  head = refl;
  tail = refl;
  count = refl;
}

abbrev message_of : Run (Option Ptr × Queue) → Option Ptr
message_of (ok r g) = r.0
message_of fault = none

-- The message that was put first comes out.
oldest_first : message_of (take_back queue heap) ≡ some 60
unfolding take_back load set_next set_prev free write
oldest_first = refl

destroy-Gone_example : (g : Heap) × (destroy queue heap ≡ ok true g) × Gone heap cells g
destroy-Gone_example = destroy-Gone heap queue cells queue-IsQueue

abbrev nothing : Heap
nothing _ = none

abbrev one_sent : World
one_sent = record {
  heap = write nothing 1 (some (node null null 60));
  queue = record { count = 1; tail = 1; head = 1 };
  sent = 60 ∷ [];
  received = [];
}

send_one : Reach (idle_world nothing) one_sent
unfolding put_front
send_one = then_ start (sends 1 60 (omega arith) refl refl)

Reach-InOrder_example : InOrder one_sent
Reach-InOrder_example = Reach-InOrder (idle_world-InOrder nothing) send_one

abbrev asleep : Seen
asleep = record { heap = nothing; queue = empty; running = true }

abbrev awake : Seen
awake = record { heap = heap; queue = queue; running = true }

take_back_wait_lem_example :
    (r : Run (Option Ptr × Queue)) × (take_back_wait (asleep ∷ awake ∷ []) ≡ some r) × Ends awake r
take_back_wait_lem_example =
    take_back_wait_lem (asleep ∷ []) awake [] ((refl, refl), tt) (λ w. absurd (omega (arith, w.0)))
