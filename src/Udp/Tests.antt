-- ===== src/Udp/Tests.antt =====
-- Tests of the UDP sockets of source/udpsource.c.
use opensrthub.Base.{
  ℕ, ◌≡◌, refl, true, false, none, some, List, [], ◌∷◌, occurrences, ◌==◌, if◌then◌else◌, remove,
}
use opensrthub.Udp.Table.{
  State, release, socket_udp_close, socket_udp_global_init, socket_udp_global_destroy,
}
use opensrthub.Udp.Open.{
  Outcomes, flag_input, flag_output, take_slot, store_socket, socket_udp_open, socket_udp_ready,
}
use opensrthub.Udp.Owned.{IsOwned, Call, opens, closes, run, call, AreNew}
use opensrthub.Udp.Destroy.{run-destroy}

abbrev fresh_state : State
fresh_state = record { socket_table = []; descriptors = []; members = [] }

abbrev success : ℕ → Outcomes
success x = record {
  address = some 9;
  new_socket = some x;
  reused = true;
  bound_to_device = true;
  interfaces = true;
  interface_address = none;
  sized = true;
  bound = true;
  joined = true;
}

-- A receiver of a group, an output whose bind fails, a second output, and the receiver's end.
abbrev some_calls : List Call
some_calls =
    opens (success 5) true flag_input
    ∷ opens (record (success 6) { bound = false }) true flag_output
    ∷ opens (success 6) false flag_output
    ∷ closes 5
    ∷ []

some_calls_left : (run some_calls (socket_udp_global_init fresh_state)).descriptors ≡ 6 ∷ []
unfolding run call socket_udp_open store_socket take_slot socket_udp_close release remove
    socket_udp_global_init
some_calls_left = refl

run-destroy_example :
    IsOwned (run some_calls (socket_udp_global_init fresh_state))
    × ((x : ℕ)
        → occurrences x
            (socket_udp_global_destroy
              (run some_calls (socket_udp_global_init fresh_state))).descriptors
          ≡ 0)
unfolding AreNew call socket_udp_open store_socket take_slot socket_udp_close release remove
    socket_udp_global_init occurrences
run-destroy_example = run-destroy some_calls fresh_state refl (refl, (refl, (refl, tt)))

ready_outside : socket_udp_ready (λ x s u. some 1) (some 1024) 1500 ≡ none
unfolding socket_udp_ready
ready_outside = refl

ready_times :
    socket_udp_ready (λ x s u. if s == 1 then some u else none) (some 3) 1500 ≡ some 500000
unfolding socket_udp_ready
ready_times = refl
