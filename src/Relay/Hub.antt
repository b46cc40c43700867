-- ===== src/Relay/Hub.antt =====
-- What the receiver and sender threads of source/srthub.c do with the buffers of msgpool and
-- packetpool and with the queues of packets. Each piece of a thread's code here is taken as a whole,
-- though the locks are those of its single calls.
use opensrthub.Base.{
  ℕ, zero, suc, Bool, Option, none, some, List, [], ◌∷◌, ◌++◌, ◌==◌, if◌then◌else◌, length, take,
  drop,
}
use opensrthub.MemPool
use opensrthub.MemPool.{Ptr, null, Pool, Outcome, done, aborted, fault, give_back}
use opensrthub.Feed.{check_for_rtp, rtp_header}

abbrev pub max_packet_buffer_size : ℕ
max_packet_buffer_size = 1536

-- dataqueue_message_struct of a packet, with its own address and the bytes of its buffer.
pub record Packet : Type 0 where
  pub address : Ptr
  pub buffer : Ptr
  pub payload : List ℕ
  pub pts : ℕ

-- The pools, and the packets for which a queue had no memory.
pub record Store : Type 0 where
  pub msgpool : Pool
  pub packetpool : Pool
  pub lost : List Packet

-- The queues, the packet that is taken next first; a `none` queue is NULL.
pub record Hub : Type 0 where
  pub shared : Store
  pub udpserverqueue : List Packet
  pub srtserverqueue : List (Option (List Packet))

-- An abort of the process, or an access outside a pool, is `none`.
abbrev pub with_result : {A B : Type 0} → Outcome A → (A → Pool → Option B) → Option B
with_result (done a p) rest = rest a p
with_result aborted rest = none
with_result fault rest = none

-- The bytes for the buffer: at most as many as fit, without the header of RTP.
unfoldable pub payload_of : List ℕ → List ℕ
unfolding check_for_rtp
payload_of bytes =
    let clipped = take max_packet_buffer_size bytes in
    if check_for_rtp (length clipped) then drop rtp_header clipped else clipped

abbrev pub packet : Ptr → Ptr → List ℕ → ℕ → Packet
packet m b bytes pts = record { address = m; buffer = b; payload = payload_of bytes; pts = pts }

-- The SRT receivers: the message first, and then its buffer. Both pools are of buffers of a fixed size,
-- so memory_take has no use for malloc.
unfoldable pub buffer_for : ℕ → List ℕ → ℕ → Store → Ptr → Pool → Option (Option Packet × Store)
unfolding payload_of
buffer_for owner bytes pts s m p = with_result (MemPool.take null owner s.packetpool) λ b q.
    if b == null
    then (with_result (give_back m p) λ ok r. some (none, record s { msgpool = r; packetpool = q }))
    else some (some (packet m b bytes pts), record s { msgpool = p; packetpool = q })

unfoldable pub message_first : ℕ → List ℕ → ℕ → Store → Option (Option Packet × Store)
unfolding buffer_for
message_first owner bytes pts s = with_result (MemPool.take null owner s.msgpool) λ m p.
    if m == null then some (none, record s { msgpool = p }) else buffer_for owner bytes pts s m p

-- The UDP receiver: the buffer first, and then its message.
unfoldable pub message_for : ℕ → List ℕ → ℕ → Store → Ptr → Pool → Option (Option Packet × Store)
unfolding payload_of
message_for owner bytes pts s b q = with_result (MemPool.take null owner s.msgpool) λ m p.
    if m == null
    then (with_result (give_back b q) λ ok r. some (none, record s { msgpool = p; packetpool = r }))
    else some (some (packet m b bytes pts), record s { msgpool = p; packetpool = q })

unfoldable pub buffer_first : ℕ → List ℕ → ℕ → Store → Option (Option Packet × Store)
unfolding message_for
buffer_first owner bytes pts s = with_result (MemPool.take null owner s.packetpool) λ b q.
    if b == null
    then some (none, record s { packetpool = q })
    else message_for owner bytes pts s b q

-- dataqueue_put_front, whose result is not looked at.
unfoldable pub enqueue : Bool → List Packet → Option Packet × Store → List Packet × Store
enqueue queued ps (none, s) = (ps, s)
enqueue queued ps (some pk, s) =
    if queued then (ps ++ pk ∷ [], s) else (ps, record s { lost = pk ∷ s.lost })

-- A packet from SRT, to udpserverqueue.
unfoldable pub relay_packet : ℕ → Bool → List ℕ → ℕ → Hub → Option Hub
unfolding message_first enqueue
relay_packet owner queued bytes pts h = elim (message_first owner bytes pts h.shared) [
  | none ↦ none
  | some made ↦
      let (ps, s) = enqueue queued h.udpserverqueue made in
      some (record h { shared = s; udpserverqueue = ps })
]

-- A packet from UDP, to each of the queues of the SRT senders that are there.
unfoldable pub forward_loop :
    ℕ
    → Bool
    → List ℕ
    → ℕ
    → List (Option (List Packet))
    → Store
    → Option (List (Option (List Packet)) × Store)
unfolding buffer_first enqueue
forward_loop owner queued bytes pts [] s = some ([], s)
forward_loop owner queued bytes pts (none ∷ qs) s =
    elim (forward_loop owner queued bytes pts qs s) [
      | none ↦ none
      | some (rs, t) ↦ some (none ∷ rs, t)
    ]
forward_loop owner queued bytes pts (some ps ∷ qs) s = elim (buffer_first owner bytes pts s) [
  | none ↦ none
  | some made ↦
      let (ks, t) = enqueue queued ps made in
      elim (forward_loop owner queued bytes pts qs t) [
        | none ↦ none
        | some (rs, u) ↦ some (some ks ∷ rs, u)
      ]
]

unfoldable pub forward_packet : ℕ → Bool → List ℕ → ℕ → Hub → Option Hub
unfolding forward_loop
forward_packet owner queued bytes pts h =
    elim (forward_loop owner queued bytes pts h.srtserverqueue h.shared) [
      | none ↦ none
      | some (qs, s) ↦ some (record h { shared = s; srtserverqueue = qs })
    ]

-- The two memory_return calls of a sender, whatever came of the packet.
unfoldable pub return_packet : Packet → Store → Option Store
return_packet pk s = with_result (give_back pk.buffer s.packetpool) λ ok q.
    with_result (give_back pk.address s.msgpool)
      λ ok' p. some (record s { msgpool = p; packetpool = q })

-- A sender's turn at its queue, running or stopping. It waits where there is no packet.
unfoldable pub send_next : List Packet → Store → Option (List Packet × Store)
unfolding return_packet
send_next [] s = some ([], s)
send_next (pk ∷ ps) s = elim (return_packet pk s) [ none ↦ none | some t ↦ some (ps, t) ]

-- The loop at the end of a sender.
unfoldable pub drain : List Packet → Store → Option Store
unfolding return_packet
drain [] s = some s
drain (pk ∷ ps) s = elim (return_packet pk s) [ none ↦ none | some t ↦ drain ps t ]

unfoldable pub udp_server_turn : Hub → Option Hub
unfolding send_next
udp_server_turn h = elim (send_next h.udpserverqueue h.shared) [
  | none ↦ none
  | some (ps, s) ↦ some (record h { shared = s; udpserverqueue = ps })
]

unfoldable pub udp_server_end : Hub → Option Hub
unfolding drain
udp_server_end h = elim (drain h.udpserverqueue h.shared) [
  | none ↦ none
  | some s ↦ some (record h { shared = s; udpserverqueue = [] })
]

-- A turn of the SRT sender of a thread's number, and its end, which destroys the queue.
unfoldable pub worker_loop :
    (List Packet → Store → Option (Option (List Packet) × Store))
    → ℕ
    → List (Option (List Packet))
    → Store
    → Option (List (Option (List Packet)) × Store)
worker_loop act thread [] s = some ([], s)
worker_loop act zero (none ∷ qs) s = some (none ∷ qs, s)
worker_loop act zero (some ps ∷ qs) s = elim (act ps s) [
  | none ↦ none
  | some (q, t) ↦ some (q ∷ qs, t)
]
worker_loop act (suc thread) (q ∷ qs) s = elim (worker_loop act thread qs s) [
  | none ↦ none
  | some (rs, t) ↦ some (q ∷ rs, t)
]

abbrev pub turn_act : List Packet → Store → Option (Option (List Packet) × Store)
turn_act ps s = elim (send_next ps s) [ none ↦ none | some (ks, t) ↦ some (some ks, t) ]

abbrev pub end_act : List Packet → Store → Option (Option (List Packet) × Store)
end_act ps s = elim (drain ps s) [ none ↦ none | some t ↦ some (none, t) ]

abbrev pub worker_step :
    (List Packet → Store → Option (Option (List Packet) × Store)) → ℕ → Hub → Option Hub
worker_step act thread h = elim (worker_loop act thread h.srtserverqueue h.shared) [
  | none ↦ none
  | some (qs, s) ↦ some (record h { shared = s; srtserverqueue = qs })
]

unfoldable pub worker_turn : ℕ → Hub → Option Hub
unfolding send_next worker_loop
worker_turn thread h = worker_step turn_act thread h

unfoldable pub worker_end : ℕ → Hub → Option Hub
unfolding drain worker_loop
worker_end thread h = worker_step end_act thread h
