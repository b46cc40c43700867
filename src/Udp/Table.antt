-- ===== src/Udp/Table.antt =====
-- local_socket_struct and socket_table of source/udpsource.c with socket_udp_global_init,
-- socket_udp_close and socket_udp_global_destroy. What the system keeps for the process is a part of
-- the state: the descriptors of sockets that are open, and those that have joined a group.
use opensrthub.Base.{
  ℕ, zero, suc, Bool, true, false, ◌&&◌, not, Option, none, some, List, [], ◌∷◌, ◌==◌,
  if◌then◌else◌, get_or, replicate, remove,
}

abbrev pub udp_max_sockets : ℕ
udp_max_sockets = 32

-- A `none` socket is -1; the group of a multicast receiver is an interface and an address.
pub record LocalSocket : Type 0 where
  pub unused : Bool
  pub udp_socket : Option ℕ
  pub mcast : Bool
  pub multicastreq : ℕ × ℕ

pub record State : Type 0 where
  pub socket_table : List LocalSocket
  pub descriptors : List ℕ
  pub members : List ℕ

abbrev pub unused_slot : LocalSocket
unused_slot = record {
  unused = Bool.true;
  udp_socket = Option.none;
  mcast = Bool.false;
  multicastreq = (0, 0);
}

-- The table afresh; the system keeps what it has.
unfoldable pub socket_udp_global_init : State → State
socket_udp_global_init s = record s { socket_table = replicate udp_max_sockets unused_slot }

abbrev pub has_socket : ℕ → LocalSocket → Bool
has_socket x l = elim l.udp_socket [ none ↦ false | some y ↦ y == x && not l.unused ]

-- The first slot in use with this socket: whether it was a multicast receiver, and the table after.
unfoldable pub release : ℕ → List LocalSocket → Option (Bool × List LocalSocket)
release x [] = none
release x (l ∷ ls) =
    let rest = release x ls in
    if has_socket x l
    then some (
      l.mcast,
      record l { unused = Bool.true; udp_socket = Option.none; mcast = Bool.false } ∷ ls,
    )
    else elim rest [ none ↦ none | some (m, ks) ↦ some (m, l ∷ ks) ]

-- The result is `false` for -1.
unfoldable pub socket_udp_close : ℕ → State → Bool × State
unfolding release remove
socket_udp_close x s = elim (release x s.socket_table) [
  | none ↦ (false, s)
  | some (m, ls) ↦ (
    true,
    record {
      socket_table = ls;
      descriptors = remove x s.descriptors;
      members = if m then remove x s.members else s.members;
    },
  )
]

-- The loop over `k` slots from number `i` on.
unfoldable pub close_slots : ℕ → ℕ → State → State
unfolding socket_udp_close
close_slots zero i s = s
close_slots (suc k) i s =
    close_slots k (suc i) (elim (get_or s.socket_table i unused_slot).udp_socket [
      | none ↦ s
      | some x ↦ (socket_udp_close x s).1
    ])

unfoldable pub socket_udp_global_destroy : State → State
unfolding close_slots
socket_udp_global_destroy s = close_slots udp_max_sockets 0 s
