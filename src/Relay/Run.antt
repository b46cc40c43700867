-- ===== src/Relay/Run.antt =====
-- Any run of the threads of source/srthub.c that hand packets on.
use opensrthub.Base.{ℕ, ◌+◌, Bool, Option, none, some, List, [], ◌∷◌, arith, Gives, Gives-bind}
use opensrthub.Relay.Hub.{
  Packet, Store, Hub, message_first, enqueue, relay_packet, forward_loop, forward_packet, send_next,
  drain, udp_server_turn, udp_server_end, worker_loop, turn_act, end_act, worker_turn, worker_end,
}
use opensrthub.Relay.Made.{
  copies, copies_in, Counts, IsStore, IsStore-same, IsMade, message_first-IsMade,
}
use opensrthub.Relay.Balance.{
  beside, IsQueued, HasQueues, IsAct, enqueue-IsQueued, send_next-IsQueued, drain-IsStore,
  forward_loop-HasQueues, worker_loop-HasQueues,
}

-- A slot of a pool is taken exactly if its buffer belongs to one packet of a queue or a lost one.
unfoldable pub IsBalanced : Hub → Type 0
IsBalanced h =
    IsStore (λ f b. copies f b h.udpserverqueue + copies_in f b h.srtserverqueue) h.shared

-- A piece of a thread's code, with what it receives, or with the number of the SRT sender.
pub data Action : Type 0 where
  relays : ℕ → Bool → List ℕ → ℕ → Action
  forwards : ℕ → Bool → List ℕ → ℕ → Action
  sends : Action
  ends : Action
  worker_sends : ℕ → Action
  worker_ends : ℕ → Action

unfoldable pub act : Action → Hub → Option Hub
unfolding relay_packet forward_packet udp_server_turn udp_server_end worker_turn worker_end
act (relays owner queued bytes pts) h = relay_packet owner queued bytes pts h
act (forwards owner queued bytes pts) h = forward_packet owner queued bytes pts h
act sends h = udp_server_turn h
act ends h = udp_server_end h
act (worker_sends thread) h = worker_turn thread h
act (worker_ends thread) h = worker_end thread h

unfoldable pub run : List Action → Hub → Option Hub
unfolding act
run [] h = some h
run (c ∷ cs) h = elim (act c h) [ none ↦ none | some g ↦ run cs g ]

turn_act-IsAct :
    (ps : List Packet) (rest : Counts) (s : Store)
    → IsStore (beside ps rest) s
    → Gives (IsAct rest) (turn_act ps s)
turn_act-IsAct ps rest s h =
    Gives-bind (IsQueued rest) (IsAct rest) (λ (ks, t). some (some ks, t)) (send_next ps s)
      (send_next-IsQueued ps rest s h) λ (ks, t) g. g

end_act-IsAct :
    (ps : List Packet) (rest : Counts) (s : Store)
    → IsStore (beside ps rest) s
    → Gives (IsAct rest) (end_act ps s)
end_act-IsAct ps rest s h =
    Gives-bind (IsStore rest) (IsAct rest) (λ t. some (none, t)) (drain ps s)
      (drain-IsStore ps rest s h) λ t g. IsStore-same t _ _ (λ f b. omega arith) g

module _ (h : Hub) where
  abbrev senders : Counts
  senders f b = copies_in f b h.srtserverqueue

  abbrev udp : Counts
  udp f b = copies f b h.udpserverqueue

  with_queues :
      (r : Option (List (Option (List Packet)) × Store))
      → Gives (HasQueues udp) r
      → Gives IsBalanced (elim r [
        | none ↦ none
        | some (qs, s) ↦ some (record h { shared = s; srtserverqueue = qs })
      ])
  unfolding IsBalanced
  with_queues none g = g
  with_queues (some (qs, s)) g = IsStore-same s _ _ (λ f b. omega arith) g

  sender_first : IsBalanced h → HasQueues udp (h.srtserverqueue, h.shared)
  unfolding IsBalanced
  sender_first g = IsStore-same h.shared _ _ (λ f b. omega arith) g

  act-IsBalanced : (c : Action) → IsBalanced h → Gives IsBalanced (act c h)
  unfolding act IsBalanced relay_packet forward_packet udp_server_turn udp_server_end worker_turn
      worker_end copies
  act-IsBalanced (relays owner queued bytes pts) g =
      Gives-bind (IsMade (beside h.udpserverqueue senders)) IsBalanced
        (λ made.
          let (ps, s) = enqueue queued h.udpserverqueue made in
          some (record h { shared = s; udpserverqueue = ps }))
        (message_first owner bytes pts h.shared)
        (message_first-IsMade (beside h.udpserverqueue senders) owner bytes pts h.shared g)
        λ made m. enqueue-IsQueued queued h.udpserverqueue senders made m
  act-IsBalanced (forwards owner queued bytes pts) g =
      with_queues (forward_loop owner queued bytes pts h.srtserverqueue h.shared) (
        forward_loop-HasQueues owner queued bytes pts h.srtserverqueue udp h.shared
          (sender_first g))
  act-IsBalanced sends g =
      Gives-bind (IsQueued senders) IsBalanced
        (λ (ps, s). some (record h { shared = s; udpserverqueue = ps }))
        (send_next h.udpserverqueue h.shared)
        (send_next-IsQueued h.udpserverqueue senders h.shared g) λ (ps, s) m. m
  act-IsBalanced ends g =
      Gives-bind (IsStore senders) IsBalanced
        (λ s. some (record h { shared = s; udpserverqueue = [] })) (drain h.udpserverqueue h.shared)
        (drain-IsStore h.udpserverqueue senders h.shared g)
        λ s m. IsStore-same s _ _ (λ f b. omega arith) m
  act-IsBalanced (worker_sends thread) g =
      with_queues (worker_loop turn_act thread h.srtserverqueue h.shared) (
        worker_loop-HasQueues turn_act turn_act-IsAct thread h.srtserverqueue udp h.shared
          (sender_first g))
  act-IsBalanced (worker_ends thread) g =
      with_queues (worker_loop end_act thread h.srtserverqueue h.shared) (
        worker_loop-HasQueues end_act end_act-IsAct thread h.srtserverqueue udp h.shared
          (sender_first g))

-- From a state in which the taken buffers of both pools are exactly those of the packets in the
-- queues and of those that a queue had no memory for, each once, any run of the pieces of code
-- that receive, forward, send and drop packets ends without an abort or an access outside a pool
-- and in such a state again: no buffer is leaked or returned twice where a pool runs out, a packet
-- is sent, or a sender ends. The pieces are taken as a whole, one after the other.
pub run-IsBalanced : (cs : List Action) (h : Hub) → IsBalanced h → Gives IsBalanced (run cs h)
unfolding run
run-IsBalanced [] h g = g
run-IsBalanced (c ∷ cs) h g =
    Gives-bind IsBalanced IsBalanced (run cs) (act c h) (act-IsBalanced h c g)
      λ k m. run-IsBalanced cs k m
