-- ===== src/Cues/Suppressed.antt =====
-- A cue that receive_frame of source/srthub.c does not report is a repeat.
use opensrthub.Base.{
  ℕ, ◌+◌, ◌≡◌, subst, Bool, true, false, ◌&&◌, ◌||◌, Option, none, some, List, [], ◌∷◌, arith, ltb,
  if_intro, All, All_map, All_set, All_replicate, set,
}
use opensrthub.Cues.Recent.{
  repeat_window_seconds, CueKey, RecentCue, same_key, no_cue, no_cues, is_slot_of, is_overdue,
  refresh, slot_to_take, seen_cue, note_cue,
}
use opensrthub.Cues.Keys.{same_key_sound, same_key_self}

-- The cues that came, the last one first, each with its second.
abbrev pub History : Type 0
History = List (ℕ × CueKey)

-- Whether the cue came less than the window before.
unfoldable pub seen_within : ℕ → CueKey → History → Bool
seen_within now k [] = false
seen_within now k ((t, l) ∷ h) =
    (same_key l k && ltb now (t + repeat_window_seconds)) || seen_within now k h

-- The table once the cues have come.
unfoldable pub table_after : History → List RecentCue
unfolding note_cue
table_after [] = no_cues
table_after ((t, k) ∷ h) = (note_cue t k (table_after h)).1

-- Every slot stands for a cue that came.
Known : History → RecentCue → Type 0
Known h r =
    r.valid ≡ true
    → (now : ℕ) → ltb now (r.last_seen + repeat_window_seconds) ≡ true
    → seen_within now r.key h ≡ true

later_Known : (h : History) (t : ℕ) (k : CueKey) (r : RecentCue) → Known h r → Known ((t, k) ∷ h) r
unfolding Known seen_within
later_Known h t k r known = λ v now near. ground (arith, known v now near)

new_Known : (h : History) (t : ℕ) (k : CueKey) → Known ((t, k) ∷ h) (seen_cue t k)
unfolding Known seen_within
new_Known h t k = λ v now near. ground (arith, near, same_key_self k)

-- What a refreshed table gives.
abbrev Refreshed : History → ℕ → CueKey → Option (Bool × List RecentCue) → Type 0
Refreshed h t k none = Unit
Refreshed h t k (some (due, ss)) =
    All (Known ((t, k) ∷ h)) ss × (due ≡ false → seen_within t k h ≡ true)

found :
    (h : History) (t : ℕ) (k : CueKey) (r : RecentCue) (rs : List RecentCue)
    → is_slot_of k r ≡ true
    → Known h r
    → All (Known h) rs
    → Refreshed h t k (some (is_overdue t r.last_seen, record r { last_seen = t } ∷ rs))
unfolding Known seen_within
found h t k r rs e known all =
    let same = same_key_sound r.key k (ground (arith, e)) in
    (
      (
        λ v now near. ground (arith, near, e),
        All_map (Known h) (Known ((t, k) ∷ h)) rs (later_Known h t k) all,
      ),
      λ near.
          subst (λ l. seen_within t l h ≡ true) same
            (known (ground (arith, e)) t (ground (arith, near))),
    )

passed :
    (h : History) (t : ℕ) (k : CueKey) (r : RecentCue) (o : Option (Bool × List RecentCue))
    → Known h r
    → Refreshed h t k o
    → Refreshed h t k (elim o [ none ↦ none | some (due, ss) ↦ some (due, r ∷ ss) ])
passed h t k r none known got = tt
passed h t k r (some (due, ss)) known (all, near) = ((later_Known h t k r known, all), near)

refresh-Refreshed :
    (h : History) (t : ℕ) (k : CueKey) (rs : List RecentCue)
    → All (Known h) rs
    → Refreshed h t k (refresh t k rs)
unfolding refresh
refresh-Refreshed h t k [] all = tt
refresh-Refreshed h t k (r ∷ rs) (known, all) =
    if_intro (Refreshed h t k) (is_slot_of k r) (λ e. found h t k r rs e known all)
      λ e. passed h t k r (refresh t k rs) known (refresh-Refreshed h t k rs all)

noted :
    (h : History) (t : ℕ) (k : CueKey) (rs : List RecentCue) (o : Option (Bool × List RecentCue))
    → All (Known h) rs
    → Refreshed h t k o
    → Refreshed h t k (
        some (elim o [
          | none ↦ (true, set rs (slot_to_take rs) (seen_cue t k))
          | some (due, ss) ↦ (due, ss)
        ]))
noted h t k rs none all got = (
  All_set (Known ((t, k) ∷ h)) rs (slot_to_take rs) (seen_cue t k) (new_Known h t k)
      (All_map (Known h) (Known ((t, k) ∷ h)) rs (later_Known h t k) all),
  λ near. absurd (ground (arith, near)),
)
noted h t k rs (some (due, ss)) all got = got

note_cue-Refreshed :
    (h : History) (t : ℕ) (k : CueKey) (rs : List RecentCue)
    → All (Known h) rs
    → Refreshed h t k (some (note_cue t k rs))
unfolding note_cue
note_cue-Refreshed h t k rs all =
    noted h t k rs (refresh t k rs) all (refresh-Refreshed h t k rs all)

never : Known [] no_cue
unfolding Known
never = λ v. absurd (ground (arith, v))

table_after-Known : (h : History) → All (Known h) (table_after h)
unfolding table_after Known
table_after-Known [] = All_replicate (Known []) 8 no_cue never
table_after-Known ((t, k) ∷ h) = (note_cue-Refreshed h t k (table_after h) (table_after-Known h)).0

-- Whatever cues came before, also where the clock ran backwards or more different cues came than
-- the table holds: if receive_frame does not report a cue, a cue with its key came less than
-- thirty seconds before.
pub note_cue_suppressed :
    (h : History) (t : ℕ) (k : CueKey)
    → (note_cue t k (table_after h)).0 ≡ false
    → seen_within t k h ≡ true
note_cue_suppressed h t k e = (note_cue-Refreshed h t k (table_after h) (table_after-Known h)).1 e
