-- ===== src/Relay/Balance.antt =====
-- The packets in the queues of source/srthub.c have the taken buffers of the pools, whatever the
-- threads do.
use opensrthub.Base.{
  ℕ, zero, suc, ◌+◌, ◌≡◌, Bool, true, false, Option, none, some, List, [], ◌∷◌, ◌++◌, arith, Gives,
  Gives-bind,
}
use opensrthub.MemPool.{Ptr, give_back}
use opensrthub.Relay.Hub.{
  Packet, Store, with_result, buffer_first, enqueue, forward_loop, return_packet, send_next, drain,
  worker_loop,
}
use opensrthub.Relay.Owned.{IsOwned-same, give_back-IsGiven}
use opensrthub.Relay.Made.{
  copies, copies_in, Counts, IsStore, IsStore-same, with_packet, IsMade, after_give,
  buffer_first-IsMade,
}

copies-append :
    (f : Packet → Ptr) (b : Ptr) (ps qs : List Packet)
    → copies f b (ps ++ qs) ≡ copies f b ps + copies f b qs
unfolding copies
copies-append f b [] qs = omega arith
copies-append f b (pk ∷ ps) qs = omega (arith, copies-append f b ps qs)

-- A queue beside other packets.
abbrev pub beside : List Packet → Counts → Counts
beside ps rest f b = copies f b ps + rest f b

abbrev pub IsQueued : Counts → List Packet × Store → Type 0
IsQueued rest (ps, s) = IsStore (beside ps rest) s

lost_one :
    (pk : Packet) (out : Counts) (s : Store)
    → IsStore (with_packet pk out) s
    → IsStore out (record s { lost = pk ∷ s.lost })
unfolding IsStore copies
lost_one pk out s (m, q) = (
  IsOwned-same
      (λ b.
        with_packet pk out (λ (k : Packet). k.address) b
        + copies (λ (k : Packet). k.address) b s.lost)
      _ (λ b. omega arith) m,
  IsOwned-same
      (λ b.
        with_packet pk out (λ (k : Packet). k.buffer) b
        + copies (λ (k : Packet). k.buffer) b s.lost)
      _ (λ b. omega arith) q,
)

pub enqueue-IsQueued :
    (queued : Bool) (ps : List Packet) (rest : Counts) (made : Option Packet × Store)
    → IsMade (beside ps rest) made
    → IsQueued rest (enqueue queued ps made)
unfolding enqueue copies
enqueue-IsQueued queued ps rest (none, s) h = h
enqueue-IsQueued true ps rest (some pk, s) h =
    IsStore-same s _ _ (λ f b. omega (arith, copies-append f b ps (pk ∷ []))) h
enqueue-IsQueued false ps rest (some pk, s) h = lost_one pk (beside ps rest) s h

return_packet-IsStore :
    (pk : Packet) (rest : Counts) (s : Store)
    → IsStore (with_packet pk rest) s
    → Gives (IsStore rest) (return_packet pk s)
unfolding return_packet IsStore
return_packet-IsStore pk rest s (m, q) =
    let msgs = λ (b : Ptr).
      rest (λ (k : Packet). k.address) b + copies (λ (k : Packet). k.address) b s.lost in
    let bufs =
      λ (b : Ptr). rest (λ (k : Packet). k.buffer) b + copies (λ (k : Packet). k.buffer) b s.lost in
    after_give (IsStore rest) bufs (give_back pk.buffer s.packetpool)
      (λ ok r.
        with_result (give_back pk.address s.msgpool)
          λ ok' p. some (record s { msgpool = p; packetpool = r }))
      (λ ok r o.
        after_give (IsStore rest) msgs (give_back pk.address s.msgpool)
          (λ ok' p. some (record s { msgpool = p; packetpool = r })) (λ ok' p o'. (o', o))
          (give_back-IsGiven msgs pk.address (IsOwned-same _ _ (λ b. omega arith) m)))
      (give_back-IsGiven bufs pk.buffer (IsOwned-same _ _ (λ b. omega arith) q))

first_out :
    (pk : Packet) (ps : List Packet) (rest : Counts) (s : Store)
    → IsStore (beside (pk ∷ ps) rest) s
    → Gives (IsStore (beside ps rest)) (return_packet pk s)
unfolding copies
first_out pk ps rest s h =
    return_packet-IsStore pk (beside ps rest) s (IsStore-same s _ _ (λ f b. omega arith) h)

pub send_next-IsQueued :
    (ps : List Packet) (rest : Counts) (s : Store)
    → IsStore (beside ps rest) s
    → Gives (IsQueued rest) (send_next ps s)
unfolding send_next
send_next-IsQueued [] rest s h = h
send_next-IsQueued (pk ∷ ps) rest s h =
    Gives-bind (IsStore (beside ps rest)) (IsQueued rest) (λ t. some (ps, t)) (return_packet pk s)
      (first_out pk ps rest s h) λ t g. g

pub drain-IsStore :
    (ps : List Packet) (rest : Counts) (s : Store)
    → IsStore (beside ps rest) s
    → Gives (IsStore rest) (drain ps s)
unfolding drain copies
drain-IsStore [] rest s h = IsStore-same s _ _ (λ f b. omega arith) h
drain-IsStore (pk ∷ ps) rest s h =
    Gives-bind (IsStore (beside ps rest)) (IsStore rest) (drain ps) (return_packet pk s)
      (first_out pk ps rest s h) λ t g. drain-IsStore ps rest t g

-- The queues of the SRT senders beside other packets.
abbrev pub Queues : Type 0
Queues = List (Option (List Packet))

abbrev pub in_queue : Option (List Packet) → Counts
in_queue q f b = elim q [ none ↦ 0 | some ps ↦ copies f b ps ]

abbrev pub HasQueues : Counts → Queues × Store → Type 0
HasQueues rest (qs, s) = IsStore (λ f b. copies_in f b qs + rest f b) s

-- What is done at one of the queues.
abbrev pub IsAct : Counts → Option (List Packet) × Store → Type 0
IsAct rest (q, s) = IsStore (λ f b. in_queue q f b + rest f b) s

-- A queue in front of the others.
in_front :
    (q : Option (List Packet)) (rest : Counts) (r : Option (Queues × Store))
    → Gives (HasQueues (λ f b. in_queue q f b + rest f b)) r
    → Gives (HasQueues rest) (elim r [ none ↦ none | some (rs, t) ↦ some (q ∷ rs, t) ])
unfolding copies_in
in_front q rest none h = h
in_front q rest (some (rs, t)) h = IsStore-same t _ _ (λ f b. omega arith) h

pub forward_loop-HasQueues :
    (owner : ℕ) (queued : Bool) (bytes : List ℕ) (pts : ℕ) (qs : Queues) (rest : Counts) (s : Store)
    → HasQueues rest (qs, s)
    → Gives (HasQueues rest) (forward_loop owner queued bytes pts qs s)
unfolding forward_loop copies_in
forward_loop-HasQueues owner queued bytes pts [] rest s h = h
forward_loop-HasQueues owner queued bytes pts (none ∷ qs) rest s h =
    in_front none rest (forward_loop owner queued bytes pts qs s) (
      forward_loop-HasQueues owner queued bytes pts qs (λ f b. 0 + rest f b) s
        (IsStore-same s _ _ (λ f b. omega arith) h))
forward_loop-HasQueues owner queued bytes pts (some ps ∷ qs) rest s h =
    let others : Counts = λ f b. copies_in f b qs + rest f b in
    Gives-bind (IsMade (beside ps others)) (HasQueues rest)
      (λ made.
        let (ks, t) = enqueue queued ps made in
        elim (forward_loop owner queued bytes pts qs t) [
          | none ↦ none
          | some (rs, u) ↦ some (some ks ∷ rs, u)
        ])
      (buffer_first owner bytes pts s)
      (buffer_first-IsMade (beside ps others) owner bytes pts s
        (IsStore-same s _ _ (λ f b. omega arith) h))
      λ made g.
        let (ks, t) = enqueue queued ps made in
        in_front (some ks) rest (forward_loop owner queued bytes pts qs t) (
          forward_loop-HasQueues owner queued bytes pts qs (beside ks rest) t
            (IsStore-same t _ _ (λ f b. omega arith) (enqueue-IsQueued queued ps others made g)))

pub worker_loop-HasQueues :
    (act : List Packet → Store → Option (Option (List Packet) × Store))
    → ((ps : List Packet) (rest : Counts) (s : Store)
        → IsStore (beside ps rest) s
        → Gives (IsAct rest) (act ps s))
    → (thread : ℕ) (qs : Queues) (rest : Counts) (s : Store) → HasQueues rest (qs, s)
    → Gives (HasQueues rest) (worker_loop act thread qs s)
unfolding worker_loop copies_in
worker_loop-HasQueues act does thread [] rest s h = h
worker_loop-HasQueues act does zero (none ∷ qs) rest s h = h
worker_loop-HasQueues act does zero (some ps ∷ qs) rest s h =
    Gives-bind (IsAct (λ f b. copies_in f b qs + rest f b)) (HasQueues rest)
      (λ (q, t). some (q ∷ qs, t)) (act ps s)
      (does ps (λ f b. copies_in f b qs + rest f b) s (IsStore-same s _ _ (λ f b. omega arith) h))
      λ (q, t) g. IsStore-same t _ _ (λ f b. omega arith) g
worker_loop-HasQueues act does (suc thread) (q ∷ qs) rest s h =
    in_front q rest (worker_loop act thread qs s) (
      worker_loop-HasQueues act does thread qs (λ f b. in_queue q f b + rest f b) s
        (IsStore-same s _ _ (λ f b. omega arith) h))
