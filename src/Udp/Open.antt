-- ===== src/Udp/Open.antt =====
-- socket_udp_open and socket_udp_ready of source/udpsource.c. The outcomes of the
-- calls of the system are arguments, and a call that fails is `false` or `none`.
use opensrthub.Base.{
  ℤ, pos, negsuc, ℕ, ◌*◌, ◌/◌, ◌%◌, Bool, ◌&&◌, ◌||◌, not, Option, none, some, List, [], ◌∷◌, ltb,
  leb, ◌==◌, if◌then◌else◌, remove,
}
use opensrthub.Udp.Table.{LocalSocket, State}

-- The address of the call, the descriptor of `socket`, and whether each of the calls behind it
-- succeeds: SO_REUSEADDR, SO_BINDTODEVICE, getifaddrs, the buffer's size, bind and
-- IP_ADD_MEMBERSHIP, whose failure is not looked at. An interface whose
-- address is not found has the address INADDR_ANY, which is 0.
pub record Outcomes : Type 0 where
  pub address : Option ℕ
  pub new_socket : Option ℕ
  pub reused : Bool
  pub bound_to_device : Bool
  pub interfaces : Bool
  pub interface_address : Option ℕ
  pub sized : Bool
  pub bound : Bool
  pub joined : Bool

-- UDP_FLAG_INPUT and UDP_FLAG_OUTPUT.
abbrev pub flag_input : ℕ
flag_input = 0

abbrev pub flag_output : ℕ
flag_output = 1

-- The time to live of what an output sends to a group.
unfoldable pub local_ttl : ℤ → ℕ
local_ttl (pos n) = if ltb 32 n then 32 else n
local_ttl (negsuc n) = 0

-- The first unused slot takes the socket. Only a receiver of a group stores its membership.
unfoldable pub take_slot : ℕ → Option (ℕ × ℕ) → List LocalSocket → Option (List LocalSocket)
take_slot x group [] = none
take_slot x group (l ∷ ls) =
    let rest = take_slot x group ls in
    if l.unused
    then some (
        record l {
          unused = Bool.false;
          udp_socket = Option.some x;
          mcast = elim group [ none ↦ Bool.false | some g ↦ Bool.true ];
          multicastreq = elim group [ none ↦ l.multicastreq | some g ↦ g ];
        }
        ∷ ls)
    else elim rest [ none ↦ none | some ks ↦ some (l ∷ ks) ]

-- The socket is closed and the call returns -1.
abbrev pub give_up : ℕ → State → Option ℕ × State
give_up x s = (none, record s { descriptors = remove x s.descriptors })

abbrev pub group_of : Outcomes → ℕ → Bool → ℕ → Option (ℕ × ℕ)
group_of c address mcast flags =
    if mcast && not (flags == flag_output)
    then some (elim c.interface_address [ none ↦ 0 | some a ↦ a ], address)
    else none

-- With every option set: the socket is stored, and a receiver joins its group.
unfoldable pub store_socket : Outcomes → ℕ → Option (ℕ × ℕ) → State → Option ℕ × State
unfolding take_slot remove
store_socket c x group s = elim (take_slot x group s.socket_table) [
  | none ↦ give_up x s
  | some ls ↦ (
    some x,
    record s {
      socket_table = ls;
      members = elim group [
        | none ↦ s.members
        | some g ↦ if c.joined then x ∷ s.members else s.members
      ];
    },
  )
]

-- `none` is -1.
unfoldable pub socket_udp_open : Outcomes → Bool → ℕ → State → Option ℕ × State
unfolding store_socket remove
socket_udp_open c mcast flags s = elim c.address [
  | none ↦ (none, s)
  | some address ↦ elim c.new_socket [
    | none ↦ (none, s)
    | some x ↦
        let made = record s { descriptors = x ∷ s.descriptors } in
        if not c.reused || (not c.bound_to_device || not c.interfaces)
        then give_up x made
        else if (flags == flag_input || flags == flag_output) && not c.sized
        then give_up x made
        else if not c.bound
        then give_up x made
        else store_socket c x (group_of c address mcast flags) made
  ]
]

-- FD_SETSIZE.
abbrev pub fd_setsize : ℕ
fd_setsize = 1024

-- `select` waits for a socket for seconds and microseconds; a `none` socket is negative, and so is a
-- `none` result. The timeout is in milliseconds and not negative.
unfoldable pub socket_udp_ready : (ℕ → ℕ → ℕ → Option ℕ) → Option ℕ → ℕ → Option ℕ
socket_udp_ready select none timeout = none
socket_udp_ready select (some x) timeout =
    if leb fd_setsize x then none else select x (timeout / 1000) (1000 * (timeout % 1000))
