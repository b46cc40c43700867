-- ===== src/Video/Repeats.antt =====
-- Two calls of format_change_update in source/srthub.c in a row: a repeated value, and a single
-- frame with another one.
use opensrthub.Base.{
  suc, ◌<◌, ◌≡◌, refl, sym, ap, ◌∙◌, Bool, true, false, ◌&&◌, Option, none, some, arith, ltb,
  if◌then◌else◌, inl, inr, ◌⊎◌, if_intro, subst,
}
use opensrthub.Video.Format.{
  Text, same_text, change_frames, unknown_text, Tracker, Change, stored, is_empty, settle, await,
  confirm, format_change_update,
}
use opensrthub.Video.Changes.{IsValue, same_text_refl, stored_short, same_text→eq}

-- The call on a value with a tracker that has a current one.
update_known :
    {v : Text} (context : Text) (t : Tracker)
    → IsValue v
    → is_empty t.current ≡ false
    → format_change_update (some v) context t
      ≡ (if same_text v t.current then (none, settle t) else confirm (await v context t))
unfolding format_change_update
update_known context t v real = rw (v.filled, v.known, real)

same_current : {v c : Text} → c ≡ v → same_text v c ≡ true
same_current {v} e = subst (λ c. same_text v c ≡ true) (sym e) (same_text_refl v)

filled_current : {v c : Text} → c ≡ v → is_empty v ≡ false → is_empty c ≡ false
filled_current e h = ap is_empty e ∙ h

-- A call on the current value.
update_same :
    {v : Text} (context : Text) (t : Tracker)
    → IsValue v
    → t.current ≡ v
    → format_change_update (some v) context t ≡ (none, settle t)
update_same {v} context t iv e =
    update_known context t iv (filled_current e iv.filled)
    ∙ ap (λ b. if b then (none, settle t) else confirm (await v context t)) (same_current e)

-- A call on another value than the current one.
update_other :
    {v : Text} (context : Text) (t : Tracker)
    → IsValue v
    → is_empty t.current ≡ false
    → same_text v t.current ≡ false
    → format_change_update (some v) context t ≡ confirm (await v context t)
update_other {v} context t iv real other =
    update_known context t iv real
    ∙ ap (λ b. if b then (none, settle t) else confirm (await v context t)) other

first_seen : Text → Text → Tracker → Tracker
first_seen v context t = record t {
  pending = stored v;
  pending_context = stored context;
  pending_count = 1;
}

confirm_first :
    (v context : Text) (t : Tracker)
    → t.pending_count ≡ 0
    → confirm (await v context t) ≡ (none, first_seen v context t)
unfolding confirm await first_seen
confirm_first v context t idle =
    if_intro (λ (u : Tracker). confirm u ≡ (none, first_seen v context t))
      (ltb 0 t.pending_count && same_text v t.pending) (λ e. absurd (ground (arith, idle)))
      (λ e. refl)

-- A pending value that is seen again is confirmed.
confirm_again :
    {v : Text} (u : Tracker)
    → IsValue v
    → u.pending ≡ v
    → 0 < u.pending_count
    → (confirm (record u { pending_count = suc u.pending_count })).1.current ≡ v
unfolding confirm
confirm_again {v} u iv e lt =
    if_intro (λ (r : Option Change × Tracker). r.1.current ≡ v)
      (ltb (suc u.pending_count) change_frames) (λ few. absurd (ground arith))
      (λ enough. ap (λ p. stored p) e ∙ stored_short v 47 iv.short)

await_again :
    {v : Text} (context : Text) (u : Tracker)
    → u.pending ≡ v
    → 0 < u.pending_count
    → await v context u ≡ record u { pending_count = suc u.pending_count }
unfolding await
await_again context u e lt = ground (arith, e, same_current e)

-- The value is current, or is pending beside another current one.
Ready : Text → Tracker → Type 0
Ready v u =
    (u.current ≡ v)
    ⊎ ((u.pending ≡ v)
        × (0 < u.pending_count)
        × (same_text v u.current ≡ false)
        × (is_empty u.current ≡ false))

update-Ready :
    {v : Text} (context : Text) (t : Tracker)
    → IsValue v
    → Ready v (format_change_update (some v) context t).1
unfolding Ready format_change_update await confirm
update-Ready {v} context t iv =
    if_intro Readied (is_empty v) (λ e. absurd (clash e iv.filled))
      λ filled.
        if_intro Readied (same_text v unknown_text) (λ e. absurd (clash e iv.known))
          λ known.
            if_intro Readied (is_empty t.current) (λ e. inl (stored_short v 47 iv.short))
              λ real.
                if_intro Readied (same_text v t.current)
                  (λ e. inl (sym (same_text→eq v t.current e)))
                  λ other.
                    if_intro (λ (u : Tracker). Readied (confirm u))
                      (ltb 0 t.pending_count && same_text v t.pending)
                      (λ e. inl (
                        confirm_again t iv (sym (same_text→eq v t.pending (ground (arith, e))))
                          (ground (arith, e))))
                      (λ e. inr (stored_short v 47 iv.short, omega arith, other, real))
  where
    Readied : Option Change × Tracker → Type 0
    Readied r = Ready v r.1

    clash : {b : Bool} → b ≡ true → b ≡ false → ⊥
    clash e f = absurd (cc)

Ready-update :
    {v : Text} (context : Text) (u : Tracker)
    → IsValue v
    → Ready v u
    → (format_change_update (some v) context u).1.current ≡ v
unfolding Ready
Ready-update {v} context u iv (inl e) =
    ap (λ (r : Option Change × Tracker). r.1.current) (update_same context u iv e) ∙ e
Ready-update {v} context u iv (inr (e, lt, other, real)) =
    ap (λ (r : Option Change × Tracker). r.1.current) (update_other context u iv real other)
    ∙ ap (λ (w : Tracker). (confirm w).1.current) (await_again context u e lt)
    ∙ confirm_again u iv e lt

-- With nothing pending, a single frame whose value differs from the established one (neither empty
-- nor "unknown" nor longer than 47 characters) reports nothing, and the next frame with the
-- established value reports nothing either, keeps that value and forgets the other.
pub format_change_update_glitch :
    {v c : Text} (context back : Text) (t : Tracker)
    → IsValue v
    → IsValue c
    → t.current ≡ c
    → t.pending_count ≡ 0
    → same_text v c ≡ false
    → ((format_change_update (some v) context t).0 ≡ none)
      × ((format_change_update (some c) back (format_change_update (some v) context t).1).0 ≡ none)
      × ((format_change_update (some c) back (format_change_update (some v) context t).1).1.current
          ≡ c)
      × ((format_change_update
            (some c)
            back
            (format_change_update (some v) context t).1).1.pending_count
          ≡ 0)
unfolding first_seen
format_change_update_glitch {v} {c} context back t iv ic now idle differs = (
  ap (λ (r : Option Change × Tracker). r.0) once,
  ap (λ (r : Option Change × Tracker). r.0) twice,
  ap (λ (r : Option Change × Tracker). r.1.current) twice ∙ now,
  ap (λ (r : Option Change × Tracker). r.1.pending_count) twice,
)
  where
    once : format_change_update (some v) context t ≡ (none, first_seen v context t)
    once =
        update_other context t iv (filled_current now ic.filled) (ap (same_text v) now ∙ differs)
        ∙ confirm_first v context t idle

    twice :
        format_change_update (some c) back (format_change_update (some v) context t).1
        ≡ (none, settle (first_seen v context t))
    twice =
        ap (λ (r : Option Change × Tracker). format_change_update (some c) back r.1) once
        ∙ update_same back (first_seen v context t) ic now

-- Two frames in a row with the same value, one that is not empty, not "unknown" and of 47
-- characters at most, make it the current one, whatever was current or pending.
pub format_change_update_twice :
    {v : Text} (context again : Text) (t : Tracker)
    → IsValue v
    → (format_change_update (some v) again (format_change_update (some v) context t).1).1.current
      ≡ v
format_change_update_twice context again t iv = Ready-update again _ iv (update-Ready context t iv)
