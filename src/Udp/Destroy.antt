-- ===== src/Udp/Destroy.antt =====
-- socket_udp_global_destroy of source/udpsource.c closes every socket of the table.
use native.Mathlib.Decide.{dec_lt}
use opensrthub.Base.{
  ℕ, zero, suc, ◌+◌, ◌≤◌, ◌<◌, ◌≡◌, ◌⊎◌, refl, ◌∙◌, sym, subst, ap, Bool, false, Option, none, some,
  List, [], ◌∷◌, if_intro, occurrences, arith, All, length, get_or, Option-cases, inl, inr,
  replicate,
}
use opensrthub.Udp.Table.{
  LocalSocket, State, udp_max_sockets, unused_slot, has_socket, release, socket_udp_close,
  close_slots, socket_udp_global_destroy, socket_udp_global_init,
}
use opensrthub.Udp.Slots.{IsProper, slots_with}
use opensrthub.Udp.Owned.{IsOwned, socket_udp_close-IsOwned, Call, run, AreNew, run-IsOwned}

abbrev socket_at : List LocalSocket → ℕ → Option ℕ
socket_at ls j = (get_or ls j unused_slot).udp_socket

-- A slot in the table that a release leaves is without a socket or as before.
Remains : List LocalSocket → Option (Bool × List LocalSocket) → Type 0
Remains ls none = Unit
Remains ls (some (m, ks)) =
    (j : ℕ) → (socket_at ks j ≡ none) ⊎ (get_or ks j unused_slot ≡ get_or ls j unused_slot)

Remains-cons :
    (l : LocalSocket) (ls : List LocalSocket) (o : Option (Bool × List LocalSocket))
    → Remains ls o
    → Remains (l ∷ ls) (elim o [ none ↦ none | some (m, ks) ↦ some (m, l ∷ ks) ])
unfolding Remains
Remains-cons l ls none h = tt
Remains-cons l ls (some (m, ks)) h = behind
  where
    behind :
        (j : ℕ)
        → (socket_at (l ∷ ks) j ≡ none)
          ⊎ (get_or (l ∷ ks) j unused_slot ≡ get_or (l ∷ ls) j unused_slot)
    behind zero = inr refl
    behind (suc j) = h j

release-Remains : (x : ℕ) (ls : List LocalSocket) → Remains ls (release x ls)
unfolding release Remains
release-Remains x [] = tt
release-Remains x (l ∷ ls) =
    if_intro (Remains (l ∷ ls)) (has_socket x l) (λ e. at_first l ls)
      λ e. Remains-cons l ls (release x ls) (release-Remains x ls)
  where
    at_first :
        (l : LocalSocket) (ls : List LocalSocket) (j : ℕ)
        → (socket_at
              (record l { unused = Bool.true; udp_socket = Option.none; mcast = Bool.false } ∷ ls)
              j
            ≡ none)
          ⊎ (get_or
                (record l { unused = Bool.true; udp_socket = Option.none; mcast = Bool.false } ∷ ls)
                j
                unused_slot
              ≡ get_or (l ∷ ls) j unused_slot)
    at_first l ls zero = inl refl
    at_first l ls (suc j) = inr refl

close-Remains :
    (x : ℕ) (s : State) (j : ℕ)
    → (socket_at (socket_udp_close x s).1.socket_table j ≡ none)
      ⊎ (get_or (socket_udp_close x s).1.socket_table j unused_slot
          ≡ get_or s.socket_table j unused_slot)
unfolding socket_udp_close Remains
close-Remains x s j = elim (Option-cases (release x s.socket_table)) [
  | inl e ↦ rw (e, socket_udp_close) (inr refl)
  | inr ((m, ks), e) ↦
      let kept : Remains s.socket_table (some (m, ks)) =
        subst (Remains s.socket_table) e (release-Remains x s.socket_table) in
      rw (e, socket_udp_close) (kept j)
]

-- A slot with a socket is counted for it.
slots_with_at :
    (x j : ℕ) (ls : List LocalSocket)
    → All IsProper ls
    → socket_at ls j ≡ some x
    → 1 ≤ slots_with x ls
unfolding slots_with IsProper
slots_with_at x j [] all e = absurd (cc)
slots_with_at x zero (l ∷ ls) (proper, all) e =
    let used : l.unused ≡ false = rw e at proper in rw (e, used) (ground arith)
slots_with_at x (suc j) (l ∷ ls) (proper, all) e = omega (arith, slots_with_at x j ls all e)

slots_with-none :
    (x : ℕ) (ls : List LocalSocket)
    → ((j : ℕ) → j < length ls → socket_at ls j ≡ none)
    → slots_with x ls ≡ 0
unfolding slots_with
slots_with-none x [] h = refl
slots_with-none x (l ∷ ls) h =
    let first : l.udp_socket ≡ none = h 0 (omega arith) in
    let rest = slots_with-none x ls (λ j lt. h (suc j) (omega arith)) in ground (arith, first)

-- The slots in front of `i` have no socket.
Emptied : ℕ → State → Type 0
Emptied i s = (j : ℕ) → j < i → socket_at s.socket_table j ≡ none

-- Slot `i` has no socket once it is closed, and the others are not taken.
close_slot-Emptied :
    (i x : ℕ) (s : State)
    → socket_at s.socket_table i ≡ some x
    → IsOwned s
    → Emptied i s
    → Emptied (suc i) (socket_udp_close x s).1
unfolding Emptied
close_slot-Emptied i x s at is before j lt =
    let (owned, gone) = socket_udp_close-IsOwned x s is in
    elim (close-Remains x s j) [
      | inl e ↦ e
      | inr same ↦ elim (dec_lt j i) [
        | yes below ↦ ap (λ (l : LocalSocket). l.udp_socket) same ∙ before j below
        | no above ↦
            let at_j : socket_at (socket_udp_close x s).1.socket_table j ≡ some x =
              ap (λ (l : LocalSocket). l.udp_socket) same
              ∙ ap (socket_at s.socket_table) {x = j} {y = i} (omega arith)
              ∙ at in
            absurd (
              omega
                (arith, gone, slots_with_at x j (socket_udp_close x s).1.socket_table owned.1 at_j))
      ]
    ]

close_slots-Emptied :
    (k i : ℕ) (s : State)
    → IsOwned s
    → Emptied i s
    → IsOwned (close_slots k i s) × Emptied (i + k) (close_slots k i s)
unfolding close_slots Emptied
close_slots-Emptied zero i s is before = (is, λ j lt. before j (omega arith))
close_slots-Emptied (suc k) i s is before = elim (Option-cases (socket_at s.socket_table i)) [
  | inl e ↦
      let (owned, emptied) = close_slots-Emptied k (suc i) s is (λ j lt. elim (dec_lt j i) [
        | yes below ↦ before j below
        | no above ↦ ap (socket_at s.socket_table) {x = j} {y = i} (omega arith) ∙ e
      ]) in
      rw (e, IsOwned, close_slots) (owned, λ j lt. emptied j (omega arith))
  | inr (x, e) ↦
      let (owned, emptied) =
        close_slots-Emptied k (suc i) (socket_udp_close x s).1 (socket_udp_close-IsOwned x s is).0
          (close_slot-Emptied i x s e is before) in
      rw (e, IsOwned, close_slots) (owned, λ j lt. emptied j (omega arith))
]

slots_with-unused : (x n : ℕ) → slots_with x (replicate n unused_slot) ≡ 0
unfolding slots_with
slots_with-unused x zero = refl
slots_with-unused x (suc n) = omega (arith, slots_with-unused x n)

unused-IsProper : (n : ℕ) → All IsProper (replicate n unused_slot)
unfolding IsProper
unused-IsProper zero = tt
unused-IsProper (suc n) = (refl, unused-IsProper n)

init-IsOwned : (s : State) → s.descriptors ≡ [] → IsOwned (socket_udp_global_init s)
unfolding socket_udp_global_init occurrences
init-IsOwned s fresh = (
  refl,
  unused-IsProper udp_max_sockets,
  λ x. ap (occurrences x) fresh ∙ sym (slots_with-unused x udp_max_sockets),
  λ x. subst (λ ds. occurrences x ds ≤ 1) (sym fresh) (omega arith),
)

-- From the initialised table of a process without sockets, after any calls of socket_udp_open and
-- socket_udp_close, whatever calls of the system fail in them, the open sockets are exactly those
-- of the slots in use, each in one slot; after socket_udp_global_destroy none is open. Every
-- descriptor that the system hands out is not open at that time.
pub run-destroy :
    (cs : List Call) (s : State)
    → s.descriptors ≡ []
    → AreNew cs (socket_udp_global_init s)
    → IsOwned (run cs (socket_udp_global_init s))
      × ((x : ℕ)
          → occurrences x
              (socket_udp_global_destroy (run cs (socket_udp_global_init s))).descriptors
            ≡ 0)
unfolding socket_udp_global_destroy Emptied
run-destroy cs s fresh new =
    let is = run-IsOwned cs (socket_udp_global_init s) new (init-IsOwned s fresh) in
    let ((size, all, same, one), emptied) =
      close_slots-Emptied udp_max_sockets 0 (run cs (socket_udp_global_init s)) is
        (λ j lt. elim lt [ ]) in
    (is, λ x. same x ∙ slots_with-none x _ (λ j lt. emptied j (subst (λ (n : ℕ). j < n) size lt)))
