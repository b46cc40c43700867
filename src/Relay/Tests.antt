-- ===== src/Relay/Tests.antt =====
-- Tests of the packets of source/srthub.c.
use opensrthub.Base.{
  ℕ, ◌≡◌, refl, true, Option, none, some, List, [], ◌∷◌, arith, Gives, replicate, length,
}
use opensrthub.MemPool
use opensrthub.MemPool.{
  Pool, Mallocs, create, tag_blocks, fresh_slots, grab, take_loop, return_block, return_search,
  give_back, available, unused,
}
use opensrthub.MemPool.Valid.{create-IsValid}
use opensrthub.Feed.{check_for_rtp}
use opensrthub.Relay.Hub.{
  Hub, message_first, buffer_for, buffer_first, message_for, payload_of, enqueue, relay_packet,
  forward_loop, forward_packet, return_packet, send_next, drain, udp_server_turn, worker_loop,
  worker_end,
}
use opensrthub.Relay.Owned.{IsOwned, fresh-IsOwned}
use opensrthub.Relay.Made.{IsStore, copies, copies_in}
use opensrthub.Relay.Run.{
  IsBalanced, Action, relays, forwards, sends, worker_ends, act, run, run-IsBalanced,
}

abbrev some_mallocs : ℕ → Mallocs
some_mallocs a = record { pool = 1000; refs = 2000; reflock = 3000; block = a }

-- Three blocks of eight bytes from an address on.
abbrev three_blocks : ℕ → Pool
three_blocks a = record {
  count = 3;
  size = 8;
  pos = 0;
  refs = fresh_slots 8 3 a;
  block = a;
  words = tag_blocks 8 3 a 0 (λ b. 0);
}

three_blocks-IsOwned :
    (a : ℕ)
    → create 3 8 (some_mallocs a) (λ b. 0) ≡ some (three_blocks a)
    → IsOwned (three_blocks a) (λ b. 0)
three_blocks-IsOwned a e =
    fresh-IsOwned (create-IsValid 3 8 (some_mallocs a) (λ b. 0) (omega arith) e).0 refl

-- One UDP queue, and two of three possible SRT senders.
abbrev new_hub : Hub
new_hub = record {
  shared = record { msgpool = three_blocks 100; packetpool = three_blocks 200; lost = [] };
  udpserverqueue = [];
  srtserverqueue = some [] ∷ none ∷ some [] ∷ [];
}

new_hub-IsBalanced : IsBalanced new_hub
unfolding IsBalanced IsStore copies copies_in create
new_hub-IsBalanced = (three_blocks-IsOwned 100 refl, three_blocks-IsOwned 200 refl)

-- A packet with an RTP header to UDP, one to both SRT senders, one that finds no buffer, one sent.
abbrev some_actions : List Action
some_actions =
    relays 7 true (replicate 200 5) 1
    ∷ forwards 8 true (replicate 188 6) 2
    ∷ relays 7 true (replicate 188 5) 3
    ∷ sends
    ∷ worker_ends 2
    ∷ []

abbrev free_after : Option Hub → List ℕ
free_after o = elim o [
  | none ↦ []
  | some h ↦ unused h.shared.msgpool ∷ unused h.shared.packetpool ∷ length h.udpserverqueue ∷ []
]

some_actions_left : free_after (run some_actions new_hub) ≡ 2 ∷ 2 ∷ 0 ∷ []
unfolding run act relay_packet forward_packet udp_server_turn worker_end message_first buffer_for
    buffer_first message_for enqueue forward_loop return_packet send_next drain worker_loop
    MemPool.take grab take_loop return_block give_back available fresh_slots tag_blocks
some_actions_left = refl

payload_without_header : payload_of (replicate 200 5) ≡ replicate 188 5
unfolding payload_of check_for_rtp
payload_without_header = refl

run-IsBalanced_example : Gives IsBalanced (run some_actions new_hub)
run-IsBalanced_example = run-IsBalanced some_actions new_hub new_hub-IsBalanced
