-- ===== src/Udp/Slots.antt =====
-- The slots of socket_table in source/udpsource.c, under the calls that take and free them.
use opensrthub.Base.{
  ℕ, suc, ◌+◌, ◌≡◌, refl, Bool, true, false, Option, none, some, List, [], ◌∷◌, ap, Option-cases,
  inl, inr, ◌==◌, if◌then◌else◌, if_intro, arith, All, length, one_if,
}
use opensrthub.Udp.Table.{LocalSocket, has_socket, release}
use opensrthub.Udp.Open.{take_slot}

-- A slot has a socket exactly if it is in use.
unfoldable pub IsProper : LocalSocket → Type 0
IsProper l = elim l.udp_socket [ none ↦ l.unused ≡ true | some x ↦ l.unused ≡ false ]

unfoldable pub slots_with : ℕ → List LocalSocket → ℕ
slots_with x [] = 0
slots_with x (l ∷ ls) = (if has_socket x l then 1 else 0) + slots_with x ls

-- What a release leaves.
unfoldable pub Released : ℕ → List LocalSocket → Option (Bool × List LocalSocket) → Type 0
Released x ls none = slots_with x ls ≡ 0
Released x ls (some (m, ks)) =
    All IsProper ks
    × (length ks ≡ length ls)
    × ((y : ℕ) → slots_with y ks + one_if (x == y) ≡ slots_with y ls)

holds_one :
    (x y : ℕ) (l : LocalSocket) → has_socket x l ≡ true → one_if (has_socket y l) ≡ one_if (x == y)
holds_one x y l h = elim (Option-cases l.udp_socket) [
  | inl e ↦ absurd (ground (arith, e))
  | inr (z, e) ↦ ground (arith, e)
]

passed_by :
    (x : ℕ) (l : LocalSocket) (ls : List LocalSocket) (o : Option (Bool × List LocalSocket))
    → IsProper l
    → has_socket x l ≡ false
    → Released x ls o
    → Released x (l ∷ ls) (elim o [ none ↦ none | some (m, ks) ↦ some (m, l ∷ ks) ])
unfolding Released slots_with
passed_by x l ls none proper other h = ground (arith, other)
passed_by x l ls (some (m, ks)) proper other (all, size, same) =
    ((proper, all), ap suc size, λ y. omega (arith, same y))

freed :
    (x : ℕ) (l : LocalSocket) (ls : List LocalSocket)
    → All IsProper ls
    → has_socket x l ≡ true
    → Released x (l ∷ ls) (
        some (
          l.mcast,
          record l { unused = Bool.true; udp_socket = Option.none; mcast = Bool.false } ∷ ls,
        ))
unfolding Released slots_with IsProper
freed x l ls all h = ((refl, all), refl, λ y. omega (arith, holds_one x y l h))

pub release-Released :
    (x : ℕ) (ls : List LocalSocket) → All IsProper ls → Released x ls (release x ls)
unfolding release Released slots_with
release-Released x [] all = refl
release-Released x (l ∷ ls) (proper, all) =
    if_intro (Released x (l ∷ ls)) (has_socket x l) (λ e. freed x l ls all e)
      λ e. passed_by x l ls (release x ls) proper e (release-Released x ls all)

-- What taking a slot leaves.
unfoldable pub Taken : ℕ → List LocalSocket → Option (List LocalSocket) → Type 0
Taken x ls none = Unit
Taken x ls (some ks) =
    All IsProper ks
    × (length ks ≡ length ls)
    × ((y : ℕ) → slots_with y ks ≡ slots_with y ls + one_if (x == y))

proper_holds :
    (y : ℕ) (l : LocalSocket) → IsProper l → l.unused ≡ true → one_if (has_socket y l) ≡ 0
unfolding IsProper
proper_holds y l proper free = elim (Option-cases l.udp_socket) [
  | inl e ↦ rw e refl
  | inr (z, e) ↦ rw (e, free) (ground arith)
]

kept_by :
    (x : ℕ) (l : LocalSocket) (ls : List LocalSocket) (o : Option (List LocalSocket))
    → IsProper l
    → Taken x ls o
    → Taken x (l ∷ ls) (elim o [ none ↦ none | some ks ↦ some (l ∷ ks) ])
unfolding Taken slots_with
kept_by x l ls none proper h = tt
kept_by x l ls (some ks) proper (all, size, same) =
    ((proper, all), ap suc size, λ y. omega (arith, same y))

pub take_slot-Taken :
    (x : ℕ) (group : Option (ℕ × ℕ)) (ls : List LocalSocket)
    → All IsProper ls
    → Taken x ls (take_slot x group ls)
unfolding take_slot Taken slots_with IsProper
take_slot-Taken x group [] all = tt
take_slot-Taken x group (l ∷ ls) (proper, all) =
    if_intro (Taken x (l ∷ ls)) l.unused
      (λ e. ((refl, all), refl, λ y. ground (arith, proper_holds y l proper e)))
      λ e. kept_by x l ls (take_slot x group ls) proper (take_slot-Taken x group ls all)
