-- ===== src/DataQueue.antt =====
-- source/dataqueue.c: a doubly linked queue of messages on an explicit heap. The lock is held for
-- the whole of each operation but the wait of dataqueue_take_back_wait, so an operation is one
-- function. `fresh` is what malloc returns; a message is the address that the client passed.
pub mod Chain
pub mod Put
pub mod Take
pub mod Destroy
pub mod Fifo
pub mod Wait
mod Tests
use opensrthub.Base.{
  ℕ, zero, suc, ◌+◌, ◌-◌, Bool, true, false, not, ◌&&◌, Option, none, some, List, [], ◌∷◌, ◌==◌,
  if◌then◌else◌,
}

-- An address; 0 is NULL.
abbrev pub Ptr : Type 0
Ptr = ℕ

abbrev pub null : Ptr
null = 0

-- dataqueue_node_struct
pub record Node : Type 0 where
  pub prev : Ptr
  pub next : Ptr
  pub message : Ptr

abbrev pub Heap : Type 0
Heap = Ptr → Option Node

-- queue_struct, less its lock and condition.
pub record Queue : Type 0 where
  pub count : ℕ
  pub tail : Ptr
  pub head : Ptr

unfoldable pub write : Heap → Ptr → Option Node → Heap
write h p n a = if a == p then n else h a

-- A run ends in an access to an address that holds no node, or in a result.
pub data Run (A : Type 0) : Type 0 where
  fault : Run A
  ok : A → Heap → Run A

abbrev pub continue : {A B : Type 0} → Run A → (A → Heap → Run B) → Run B
continue fault rest = fault
continue (ok x h) rest = rest x h

abbrev pub Cmd : Type 0 → Type 0
Cmd A = Heap → Run A

infixl 5 ◌>>=◌ ◌>>◌
abbrev pub ◌>>=◌ : {A B : Type 0} → Cmd A → (A → Cmd B) → Cmd B
◌>>=◌ first_part rest h = continue (first_part h) rest

abbrev pub ◌>>◌ : {A B : Type 0} → Cmd A → Cmd B → Cmd B
◌>>◌ first_part rest h = continue (first_part h) (λ _. rest)

-- The node at an address, for a read or a write of one of its members.
unfoldable pub load : Ptr → Cmd Node
load p h = elim (if p == null then none else h p) [ some n ↦ ok n h | none ↦ fault ]

-- Filling a block that malloc has returned.
unfoldable pub store : Ptr → Node → Cmd (Unit {0})
unfolding write
store p n h = ok tt (write h p (some n))

-- `p->next = q`
unfoldable pub set_next : Ptr → Ptr → Cmd (Unit {0})
unfolding load store
set_next p q = do n ← load p; store p (record n { next = q })

-- `p->prev = q`
unfoldable pub set_prev : Ptr → Ptr → Cmd (Unit {0})
unfolding load store
set_prev p q = do n ← load p; store p (record n { prev = q })

unfoldable pub free : Ptr → Cmd (Unit {0})
unfolding load write
free p = load p >> λ h. ok tt (write h p none)

abbrev pub node : Ptr → Ptr → Ptr → Node
node before after m = record { prev = before; next = after; message = m }

-- The first node of an empty queue.
abbrev pub put_first : Ptr → Queue → Ptr → Cmd (Bool × Queue)
put_first fresh q m = do
  store fresh (node null null m)
  ok (true, record { count = q.count + 1; tail = fresh; head = fresh })

-- dataqueue_put_back. The result is true for 0 and false for -1.
unfoldable pub put_back : Ptr → Queue → Ptr → Cmd (Bool × Queue)
unfolding store set_next
put_back fresh q m =
    if fresh == null then ok (false, q) else if q.tail == null then put_first fresh q m else do
      set_next q.tail fresh
      store fresh (node q.tail null m)
      ok (true, record q { count = q.count + 1; tail = fresh })

-- dataqueue_put_front
unfoldable pub put_front : Ptr → Queue → Ptr → Cmd (Bool × Queue)
unfolding store set_prev
put_front fresh q m =
    if fresh == null then ok (false, q) else if q.head == null then put_first fresh q m else do
      set_prev q.head fresh
      store fresh (node null q.head m)
      ok (true, record q { count = q.count + 1; head = fresh })

-- dataqueue_take_back; `none` is the NULL of an empty queue.
unfoldable pub take_back : Queue → Cmd (Option Ptr × Queue)
take_back q = if q.tail == null then ok (none, q) else do
  n ← load q.tail
  if n.prev == null then ok tt else set_next n.prev null
  set_prev q.tail null
  free q.tail
  ok (
    some n.message,
    record { count = q.count - 1; tail = n.prev; head = if n.prev == null then null else q.head },
  )

-- dataqueue_take_front
unfoldable pub take_front : Queue → Cmd (Option Ptr × Queue)
take_front q = if q.head == null then ok (none, q) else do
  n ← load q.head
  if n.next == null then ok tt else set_prev n.next null
  set_next q.head null
  free q.head
  ok (
    some n.message,
    record { count = q.count - 1; tail = if n.next == null then null else q.tail; head = n.next },
  )

-- dataqueue_create and dataqueue_reset leave this queue. A reset keeps the nodes allocated.
abbrev pub empty : Queue
empty = record { count = 0; tail = null; head = null }

-- The loop of dataqueue_destroy, `k` rounds at most; the result is whether it reached the end.
unfoldable pub destroy_loop : ℕ → Ptr → Cmd Bool
destroy_loop zero p = ok (p == null)
destroy_loop (suc k) p = if p == null then ok true else do n ← load p; free p; destroy_loop k n.next

-- dataqueue_destroy, as far as the nodes go.
unfoldable pub destroy : Queue → Cmd Bool
unfolding destroy_loop
destroy q = destroy_loop q.count q.head

-- What a round of dataqueue_take_back_wait sees when it holds the lock: the heap and the queue as
-- the other threads left them, and the `running` flag.
pub record Seen : Type 0 where
  pub heap : Heap
  pub queue : Queue
  pub running : Bool

-- dataqueue_take_back_wait over what it sees at each wake-up; `none` is a wait that goes on.
unfoldable pub take_back_wait : List Seen → Option (Run (Option Ptr × Queue))
unfolding take_back
take_back_wait [] = none
take_back_wait (s ∷ later) =
    if s.queue.tail == null && s.running
    then take_back_wait later
    else if not s.running
    then some (ok (none, s.queue) s.heap)
    else some (take_back s.queue s.heap)
