-- ===== src/Udp/Owned.antt =====
-- The calls of source/udpsource.c leave no socket open that its table does not hold.
use native.Mathlib.Decide.{ℕ_discrete}
use opensrthub.Base.{
  ℕ, ◌+◌, ◌≤◌, ◌≡◌, refl, ◌∙◌, sym, subst, Bool, true, false, ◌&&◌, ◌||◌, not, Option, none, some,
  List, [], ◌∷◌, ◌==◌, if◌then◌else◌, if_intro, occurrences, arith, All, length, Option-cases, inl,
  inr, remove, one_if, occurrences-remove,
}
use opensrthub.Udp.Table.{LocalSocket, State, udp_max_sockets, release, socket_udp_close}
use opensrthub.Udp.Open.{
  Outcomes, take_slot, give_up, group_of, store_socket, socket_udp_open, flag_input, flag_output,
}
use opensrthub.Udp.Slots.{IsProper, slots_with, Released, release-Released, Taken, take_slot-Taken}

-- The table has its size and proper slots, and the open sockets are those of its slots, each of one.
abbrev pub IsOwned : State → Type 0
IsOwned s =
    (length s.socket_table ≡ udp_max_sockets)
    × All IsProper s.socket_table
    × ((x : ℕ) → occurrences x s.descriptors ≡ slots_with x s.socket_table)
    × ((x : ℕ) → occurrences x s.descriptors ≤ 1)

-- A descriptor that the system hands out is not open.
abbrev pub IsNew : Outcomes → State → Type 0
IsNew c s = elim c.new_socket [ none ↦ Unit | some x ↦ occurrences x s.descriptors ≡ 0 ]

-- What a close leaves: the socket is not open.
closed_by :
    (x : ℕ) (s : State) (o : Option (Bool × List LocalSocket))
    → IsOwned s
    → Released x s.socket_table o
    → (let r : Bool × State = elim o [
      | none ↦ (false, s)
      | some (m, ls) ↦ (
        true,
        record {
          socket_table = ls;
          descriptors = remove x s.descriptors;
          members = if m then remove x s.members else s.members;
        },
      )
    ] in
        IsOwned r.1 × (slots_with x r.1.socket_table ≡ 0))
unfolding Released
closed_by x s none is h = (is, h)
closed_by x s (some (m, ks)) (size, all, same, one) (all_k, size_k, moved) = (
  (
    size_k ∙ size,
    all_k,
    λ y. omega (arith, moved y, same y, gone y),
    λ y. omega (arith, one y, gone y),
  ),
  ground (arith, moved x, same x, one x),
)
  where
    gone :
        (y : ℕ)
        → occurrences y (remove x s.descriptors) + one_if (x == y) ≡ occurrences y s.descriptors
    gone y = occurrences-remove x y s.descriptors (omega (arith, moved y, same y))

pub socket_udp_close-IsOwned :
    (x : ℕ) (s : State)
    → IsOwned s
    → IsOwned (socket_udp_close x s).1 × (slots_with x (socket_udp_close x s).1.socket_table ≡ 0)
unfolding socket_udp_close
socket_udp_close-IsOwned x s (size, all, same, one) =
    closed_by x s (release x s.socket_table) (size, all, same, one)
      (release-Released x s.socket_table all)

remove_made : (x : ℕ) (ds : List ℕ) → remove x (x ∷ ds) ≡ ds
unfolding remove
remove_made x ds = if_intro (λ ys. ys ≡ ds) (x == x) (λ e. refl) λ e. absurd (ground arith)

-- A socket that is made and given up again leaves the sockets as they were.
give_up-IsOwned :
    (x : ℕ) (s : State)
    → IsOwned s
    → IsOwned (give_up x (record s { descriptors = x ∷ s.descriptors })).1
give_up-IsOwned x s is =
    subst (λ ds. IsOwned (record s { descriptors = ds })) (sym (remove_made x s.descriptors)) is

stored :
    (c : Outcomes) (x : ℕ) (group : Option (ℕ × ℕ)) (s : State) (o : Option (List LocalSocket))
    → occurrences x s.descriptors ≡ 0
    → IsOwned s
    → Taken x s.socket_table o
    → IsOwned
        (elim o as (λ o. Option ℕ × State) [
          | none ↦ give_up x (record s { descriptors = x ∷ s.descriptors })
          | some ls ↦ (
            some x,
            record s {
              descriptors = x ∷ s.descriptors;
              socket_table = ls;
              members = elim group [
                | none ↦ s.members
                | some g ↦ if c.joined then x ∷ s.members else s.members
              ];
            },
          )
        ]).1
unfolding Taken occurrences
stored c x group s none new is h = give_up-IsOwned x s is
stored c x group s (some ks) new (size, all, same, one) (all_k, size_k, more) = (
  size_k ∙ size,
  all_k,
  λ y. omega (arith, same y, more y),
  λ y. elim (ℕ_discrete x y) [
    | yes e ↦
        let none_yet : occurrences y s.descriptors ≡ 0 =
          subst (λ (z : ℕ). occurrences z s.descriptors ≡ 0) e new in
        ground arith
    | no ne ↦ ground (arith, one y)
  ],
)

made_socket :
    (c : Outcomes) (x : ℕ) (group : Option (ℕ × ℕ)) (flags : ℕ) (s : State)
    → occurrences x s.descriptors ≡ 0
    → IsOwned s
    → (let made = record s { descriptors = x ∷ s.descriptors } in
        IsOwned
          (if not c.reused || (not c.bound_to_device || not c.interfaces)
            then give_up x made
            else if (flags == flag_input || flags == flag_output) && not c.sized
            then give_up x made
            else if not c.bound
            then give_up x made
            else store_socket c x group made).1)
unfolding store_socket
made_socket c x group flags s new is =
    if_intro (λ (r : Option ℕ × State). IsOwned r.1)
      (not c.reused || (not c.bound_to_device || not c.interfaces)) (λ e. give_up-IsOwned x s is)
      λ e.
        if_intro (λ (r : Option ℕ × State). IsOwned r.1)
          ((flags == flag_input || flags == flag_output) && not c.sized)
          (λ e. give_up-IsOwned x s is)
          λ e.
            if_intro (λ (r : Option ℕ × State). IsOwned r.1) (not c.bound)
              (λ e. give_up-IsOwned x s is)
              λ e.
                stored c x group s (take_slot x group s.socket_table) new is
                  (take_slot-Taken x group s.socket_table is.1)

socket_udp_open-IsOwned :
    (c : Outcomes) (mcast : Bool) (flags : ℕ) (s : State)
    → IsNew c s
    → IsOwned s
    → IsOwned (socket_udp_open c mcast flags s).1
unfolding socket_udp_open
socket_udp_open-IsOwned c mcast flags s new is = elim (Option-cases c.address) [
  | inl e ↦ rw (e, IsOwned) is
  | inr (address, e) ↦ elim (Option-cases c.new_socket) [
    | inl f ↦ rw (e, f, IsOwned) is
    | inr (x, f) ↦
        let new_x : occurrences x s.descriptors ≡ 0 = rw f at new in
        rw (e, f, IsOwned) (made_socket c x (group_of c address mcast flags) flags s new_x is)
  ]
]

-- A call, with the outcomes of the calls inside.
pub data Call : Type 0 where
  opens : Outcomes → Bool → ℕ → Call
  closes : ℕ → Call

unfoldable pub call : Call → State → State
call (opens c mcast flags) s = (socket_udp_open c mcast flags s).1
call (closes x) s = (socket_udp_close x s).1

unfoldable pub run : List Call → State → State
run [] s = s
run (c ∷ cs) s = run cs (call c s)

-- Every descriptor that the system hands out is new.
unfoldable pub AreNew : List Call → State → Type 0
AreNew [] s = Unit
AreNew (opens c mcast flags ∷ cs) s = IsNew c s × AreNew cs (call (opens c mcast flags) s)
AreNew (closes x ∷ cs) s = AreNew cs (call (closes x) s)

pub run-IsOwned : (cs : List Call) (s : State) → AreNew cs s → IsOwned s → IsOwned (run cs s)
unfolding run AreNew call
run-IsOwned [] s new is = is
run-IsOwned (opens c mcast flags ∷ cs) s (new, rest) is =
    run-IsOwned cs _ rest (socket_udp_open-IsOwned c mcast flags s new is)
run-IsOwned (closes x ∷ cs) s rest is = run-IsOwned cs _ rest (socket_udp_close-IsOwned x s is).0
