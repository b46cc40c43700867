-- ===== src/Cues/Table.antt =====
-- What the table of the recent cues in receive_frame of source/srthub.c holds for a cue.
use opensrthub.Base.{
  ℕ, suc, ◌+◌, ◌<◌, ◌≡◌, refl, Bool, true, false, ◌&&◌, Option, none, some, List, [], ◌∷◌, arith,
  ltb, if◌then◌else◌, if_intro, set, length, one_if, Bool-cases, inl, inr, subst, sym,
}
use opensrthub.Cues.Recent.{
  CueKey, RecentCue, same_key, is_slot_of, is_overdue, refresh, oldest, seen_cue,
}
use opensrthub.Cues.Keys.{same_key_sound}

-- When the cue was seen last, by its first slot.
unfoldable pub lookup : CueKey → List RecentCue → Option ℕ
lookup k [] = none
lookup k (r ∷ rs) = let rest = lookup k rs in if is_slot_of k r then some r.last_seen else rest

-- The slots that are not free.
unfoldable pub used : List RecentCue → ℕ
used [] = 0
used (r ∷ rs) = one_if r.valid + used rs

abbrev pub known_now : ℕ → CueKey → (CueKey → Option ℕ) → CueKey → Option ℕ
known_now t k before l = if same_key k l then some t else before l

-- What a refreshed table holds.
unfoldable pub IsRefreshed : ℕ → CueKey → List RecentCue → Option (Bool × List RecentCue) → Type 0
unfolding lookup used
IsRefreshed t k rs none = lookup k rs ≡ none
IsRefreshed t k rs (some (due, ss)) =
    (seen : ℕ) × (lookup k rs ≡ some seen)
    × (due ≡ is_overdue t seen)
    × ((l : CueKey) → lookup l ss ≡ known_now t k (λ m. lookup m rs) l)
    × (used ss ≡ used rs)
    × (length ss ≡ length rs)

-- A slot of one cue is none of another.
other_slot :
    (k l : CueKey) (r : RecentCue)
    → is_slot_of k r ≡ false
    → is_slot_of l r ≡ true
    → same_key k l ≡ false
other_slot k l r other mine = elim (Bool-cases (same_key k l)) [
  | inr e ↦ e
  | inl e ↦
      absurd (
        ground (arith, other, subst (λ m. is_slot_of m r ≡ true) (sym (same_key_sound k l e)) mine))
]

same_slot : (k l : CueKey) (r : RecentCue) → is_slot_of k r ≡ true → is_slot_of l r ≡ same_key k l
same_slot k l r mine =
    let same = same_key_sound r.key k (ground (arith, mine)) in
    subst (λ m. (r.valid && same_key r.key l) ≡ same_key m l) same (ground (arith, mine))

own_slot_here :
    (t : ℕ) (k : CueKey) (r : RecentCue) (rs : List RecentCue)
    → is_slot_of k r ≡ true
    → IsRefreshed t k (r ∷ rs) (some (is_overdue t r.last_seen, record r { last_seen = t } ∷ rs))
unfolding IsRefreshed lookup used
own_slot_here t k r rs mine =
    (r.last_seen, ground (arith, mine), refl, λ l. ground (arith, same_slot k l r mine), refl, refl)

own_slot_later :
    (t : ℕ) (k : CueKey) (r : RecentCue) (rs : List RecentCue) (o : Option (Bool × List RecentCue))
    → is_slot_of k r ≡ false
    → IsRefreshed t k rs o
    → IsRefreshed t k (r ∷ rs) (elim o [ none ↦ none | some (due, ss) ↦ some (due, r ∷ ss) ])
unfolding IsRefreshed lookup used
own_slot_later t k r rs none other h = ground (arith, other, h)
own_slot_later t k r rs (some (due, ss)) other (seen, at_seen, is_due, holds, u, n) = (
  seen,
  ground (arith, other, at_seen),
  is_due,
  λ l. ground (arith, other_slot k l r other, holds l),
  omega (arith, u),
  omega (arith, n),
)

pub refresh-IsRefreshed :
    (t : ℕ) (k : CueKey) (rs : List RecentCue) → IsRefreshed t k rs (refresh t k rs)
unfolding refresh IsRefreshed lookup
refresh-IsRefreshed t k [] = refl
refresh-IsRefreshed t k (r ∷ rs) =
    if_intro (IsRefreshed t k (r ∷ rs)) (is_slot_of k r) (λ e. own_slot_here t k r rs e)
      λ e. own_slot_later t k r rs (refresh t k rs) e (refresh-IsRefreshed t k rs)

-- A free slot is taken for a cue without one.
unfoldable pub IsTaken : ℕ → CueKey → List RecentCue → ℕ → Type 0
unfolding lookup used oldest
IsTaken t k rs j =
    ((i slot seen : ℕ) → oldest i slot seen rs ≡ i + j)
    × ((l : CueKey) → lookup l (set rs j (seen_cue t k)) ≡ known_now t k (λ m. lookup m rs) l)
    × (used (set rs j (seen_cue t k)) ≡ 1 + used rs)

free_slot_here :
    (t : ℕ) (k : CueKey) (r : RecentCue) (rs : List RecentCue)
    → r.valid ≡ false
    → IsTaken t k (r ∷ rs) 0
unfolding IsTaken lookup used oldest
free_slot_here t k r rs free =
    (λ i slot seen. ground (arith, free), λ l. ground (arith, free), ground (arith, free))

free_slot_later :
    (t : ℕ) (k : CueKey) (r : RecentCue) (rs : List RecentCue) (j : ℕ)
    → r.valid ≡ true
    → is_slot_of k r ≡ false
    → IsTaken t k rs j
    → IsTaken t k (r ∷ rs) (suc j)
unfolding IsTaken lookup used oldest
free_slot_later t k r rs j busy other (at_j, holds, u) = (
  λ i slot seen.
      let older = ltb r.last_seen seen in
      ground (
        arith,
        busy,
        at_j (suc i) (if older then i else slot) (if older then r.last_seen else seen),
      ),
  λ l. ground (arith, other_slot k l r other, holds l),
  omega (arith, u),
)

pub free-IsTaken :
    (t : ℕ) (k : CueKey) (rs : List RecentCue)
    → lookup k rs ≡ none
    → used rs < length rs
    → (j : ℕ) × IsTaken t k rs j
unfolding lookup used
free-IsTaken t k [] none_here h = absurd (omega (arith, h))
free-IsTaken t k (r ∷ rs) none_here h = elim (Bool-cases r.valid) [
  | inr free ↦ (0, free_slot_here t k r rs free)
  | inl busy ↦
      let other : is_slot_of k r ≡ false = ground (arith, none_here) in
      let (j, taken) =
        free-IsTaken t k rs (ground (arith, none_here, other)) (ground (arith, h, busy)) in
      (suc j, free_slot_later t k r rs j busy other taken)
]
