-- ===== src/Cues/Repeats.antt =====
-- Which cues receive_frame of source/srthub.c reports while its table is large enough for them.
use opensrthub.Base.{
  ℕ, ◌+◌, ◌<◌, ◌≤◌, ◌≡◌, refl, ap, ◌∙◌, sym, Bool, true, false, not, Option, none, some, List, [],
  ◌∷◌, arith, ltb, if◌then◌else◌, set, length, length-set, Option-cases, inl, inr,
}
use opensrthub.Cues.Recent.{
  repeat_window_seconds, recent_cues, CueKey, RecentCue, same_key, is_overdue, refresh,
  slot_to_take, seen_cue, note_cue,
}
use opensrthub.Cues.Suppressed.{History, seen_within, table_after}
use opensrthub.Cues.Table.{lookup, used, IsRefreshed, refresh-IsRefreshed, IsTaken, free-IsTaken}

-- The clock does not run backwards, up to a second.
unfoldable pub InOrder : ℕ → History → Type 0
InOrder now [] = Unit
InOrder now ((t, k) ∷ h) = (t ≤ now) × InOrder t h

-- The second of the last such cue.
unfoldable pub latest : CueKey → History → Option ℕ
latest k [] = none
latest k ((t, l) ∷ h) = let rest = latest k h in if same_key l k then some t else rest

-- How many different cues came.
unfoldable pub distinct : History → ℕ
unfolding latest
distinct [] = 0
distinct ((t, k) ∷ h) = elim (latest k h) [ none ↦ 1 | some s ↦ 0 ] + distinct h

latest_before :
    (k : CueKey) (now : ℕ) (h : History) (s : ℕ) → InOrder now h → latest k h ≡ some s → s ≤ now
unfolding InOrder latest
latest_before k now [] s order e = absurd (ground (arith, e))
latest_before k now ((t, l) ∷ h) s (le, order) e =
    ground (arith, e, le, latest_before k t h s order)

abbrev is_near : ℕ → Option ℕ → Bool
is_near now o = elim o [ none ↦ false | some s ↦ ltb now (s + repeat_window_seconds) ]

-- The last one decides whether the cue came less than the window before.
seen_within-latest :
    (now : ℕ) (k : CueKey) (h : History) (last : ℕ)
    → InOrder last h
    → seen_within now k h ≡ is_near now (latest k h)
unfolding seen_within latest InOrder
seen_within-latest now k [] last order = refl
seen_within-latest now k ((t, l) ∷ h) last (le, order) = elim (Option-cases (latest k h)) [
  | inl e ↦ ground (arith, e, seen_within-latest now k h t order)
  | inr (s, e) ↦
      ground (arith, e, seen_within-latest now k h t order, latest_before k t h s order e)
]

-- The table knows of each cue that came when it came last.
record Tracks (h : History) (rs : List RecentCue) : Type 0 where
  holds : (l : CueKey) → lookup l rs ≡ latest l h
  counts : used rs ≡ distinct h
  sized : length rs ≡ recent_cues

-- Whether a cue is reported that came last then.
abbrev is_reported : ℕ → Option ℕ → Bool
is_reported t o = elim o [ none ↦ true | some s ↦ is_overdue t s ]

abbrev Noted : History → ℕ → CueKey → Bool × List RecentCue → Type 0
Noted h t k (due, ss) = Tracks ((t, k) ∷ h) ss × (due ≡ is_reported t (latest k h))

cue_again :
    (h : History) (t : ℕ) (k : CueKey) (rs : List RecentCue) (due : Bool) (ss : List RecentCue)
    → Tracks h rs
    → IsRefreshed t k rs (some (due, ss))
    → Noted h t k (due, ss)
unfolding IsRefreshed latest distinct
cue_again h t k rs due ss g (seen, at_seen, is_due, holds, u, n) =
    let last : latest k h ≡ some seen = sym (g.holds k) ∙ at_seen in
    (
      record {
        holds = λ l. ground (arith, holds l, g.holds l);
        counts = ground (arith, last, u, g.counts);
        sized = ground (arith, n, g.sized);
      },
      ground (arith, last, is_due),
    )

cue_first :
    (h : History) (t : ℕ) (k : CueKey) (rs : List RecentCue)
    → Tracks h rs
    → lookup k rs ≡ none
    → distinct h < recent_cues
    → Noted h t k (true, set rs (slot_to_take rs) (seen_cue t k))
unfolding IsTaken latest distinct slot_to_take
cue_first h t k [] g missing room = absurd (ground (arith, g.sized))
cue_first h t k (r ∷ rs) g missing room =
    let (j, (at_j, holds, u)) =
      free-IsTaken t k (r ∷ rs) missing (omega (arith, g.counts, g.sized, room)) in
    let none_before : latest k h ≡ none = sym (g.holds k) ∙ missing in
    let here : slot_to_take (r ∷ rs) ≡ j = omega (arith, at_j 0 0 r.last_seen) in
    rw here (
      record {
        holds = λ l. ground (arith, holds l, g.holds l);
        counts = ground (arith, none_before, u, g.counts);
        sized = length-set (r ∷ rs) j (seen_cue t k) ∙ g.sized;
      },
      ground (arith, none_before),
    )

cue_on_refresh :
    (h : History) (t : ℕ) (k : CueKey) (rs : List RecentCue) (o : Option (Bool × List RecentCue))
    → Tracks h rs
    → distinct ((t, k) ∷ h) ≤ recent_cues
    → IsRefreshed t k rs o
    → Noted h t k (elim o [
      | none ↦ (true, set rs (slot_to_take rs) (seen_cue t k))
      | some (due, ss) ↦ (due, ss)
    ])
unfolding IsRefreshed distinct latest
cue_on_refresh h t k rs none g few missing =
    let none_before : latest k h ≡ none = sym (g.holds k) ∙ missing in
    cue_first h t k rs g missing (ground (arith, few, none_before))
cue_on_refresh h t k rs (some (due, ss)) g few got = cue_again h t k rs due ss g got

note_cue-Noted :
    (h : History) (t : ℕ) (k : CueKey) (rs : List RecentCue)
    → Tracks h rs
    → distinct ((t, k) ∷ h) ≤ recent_cues
    → Noted h t k (note_cue t k rs)
unfolding note_cue
note_cue-Noted h t k rs g few =
    cue_on_refresh h t k rs (refresh t k rs) g few (refresh-IsRefreshed t k rs)

table_after-Tracks : (h : History) → distinct h ≤ recent_cues → Tracks h (table_after h)
unfolding table_after distinct latest lookup used
table_after-Tracks [] few = record { holds = λ l. refl; counts = refl; sized = refl }
table_after-Tracks ((t, k) ∷ h) few =
    (note_cue-Noted h t k (table_after h) (table_after-Tracks h (omega (arith, few))) few).0

reported_near : (t : ℕ) (o : Option ℕ) → is_reported t o ≡ not (is_near t o)
reported_near t none = refl
reported_near t (some s) = refl

pub note_cue-seen_within :
    (h : History) (t : ℕ) (k : CueKey)
    → InOrder t h
    → distinct ((t, k) ∷ h) ≤ recent_cues
    → (note_cue t k (table_after h)).0 ≡ not (seen_within t k h)
unfolding distinct
note_cue-seen_within h t k order few =
    let (g, due) =
      note_cue-Noted h t k (table_after h) (table_after-Tracks h (omega (arith, few))) few in
    due ∙ reported_near t (latest k h) ∙ ap not (sym (seen_within-latest t k h t order))
