-- ===== src/Video/Changes.antt =====
-- What one call of format_change_update in source/srthub.c reports.
use mathlib.Core.Option.{some_inj}
use opensrthub.Base.{
  ℕ, zero, suc, ◌≤◌, ◌<◌, ◌≡◌, refl, sym, ap, ◌∙◌, true, false, ◌&&◌, Option, none, some, [], ◌∷◌,
  arith, length, take, ltb, if_intro, subst,
}
use opensrthub.Video.Format.{
  Text, same_text, change_frames, unknown_text, Tracker, Change, stored, is_empty, await, confirm,
  format_change_update,
}

-- A value that the tracker takes note of, and that fits its arrays.
pub record IsValue (value : Text) : Type 0 where
  pub filled : is_empty value ≡ false
  pub known : same_text value unknown_text ≡ false
  pub short : length value ≤ 47

pub same_text_refl : (a : Text) → same_text a a ≡ true
unfolding same_text
same_text_refl [] = refl
same_text_refl (x ∷ xs) = ground (arith, same_text_refl xs)

pub stored_short : (a : Text) (n : ℕ) → length a ≤ n → take n a ≡ a
stored_short [] zero h = refl
stored_short [] (suc n) h = refl
stored_short (x ∷ xs) zero h = absurd (omega arith)
stored_short (x ∷ xs) (suc n) h = ap (λ ys. x ∷ ys) (stored_short xs n (omega arith))

pub same_text→eq : (a b : Text) → same_text a b ≡ true → a ≡ b
unfolding same_text
same_text→eq [] [] e = refl
same_text→eq [] (y ∷ ys) e = absurd (cc)
same_text→eq (x ∷ xs) [] e = absurd (cc)
same_text→eq (x ∷ xs) (y ∷ ys) e = ground (arith, same_text→eq xs ys)

-- Between calls fewer frames than it takes are pending.
abbrev pub Waiting : Tracker → Type 0
Waiting t = t.pending_count < change_frames

-- What one call can do: a report names the current value and a different one, which becomes current.
pub record Sound (t : Tracker) (r : Option Change × Tracker) : Type 0 where
  pub waiting : Waiting r.1
  pub silent : r.0 ≡ none → is_empty t.current ≡ false → r.1.current ≡ t.current
  pub reported :
      (c : Change)
      → r.0 ≡ some c
      → (c.from ≡ t.current) × (same_text c.to t.current ≡ false) × (r.1.current ≡ stored c.to)

some_change : {c d : Change} → some c ≡ some d → d ≡ c
some_change e = sym (some_inj.0 e)

module _ (value context : Text) (t : Tracker) where
  counted : Tracker
  counted = record t { pending_count = suc t.pending_count }

  counted-Sound :
      same_text value t.current ≡ false
      → same_text value t.pending ≡ true
      → Sound t (confirm counted)
  unfolding confirm counted
  counted-Sound other same =
      if_intro (Sound t) (ltb (suc t.pending_count) change_frames)
        (λ e. record {
          waiting = ground arith;
          silent = λ e real. refl;
          reported = λ c e. absurd (cc);
        })
        (λ e. record {
          waiting = omega arith;
          silent = λ e real. absurd (cc);
          reported = λ c e.
              subst
                (λ (c : Change).
                  (c.from ≡ t.current)
                  × (same_text c.to t.current ≡ false)
                  × (stored t.pending ≡ stored c.to))
                (sym (some_change e))
                (
                  refl,
                  ap (λ v. same_text v t.current) (sym (same_text→eq value t.pending same)) ∙ other,
                  refl,
                );
        })

  await-Sound :
      Waiting t → same_text value t.current ≡ false → Sound t (confirm (await value context t))
  unfolding await confirm counted
  await-Sound w other =
      if_intro (λ (u : Tracker). Sound t (confirm u))
        (ltb 0 t.pending_count && same_text value t.pending)
        (λ e. counted-Sound other (ground (arith, e)))
        (λ e. record {
          waiting = omega arith;
          silent = λ e real. refl;
          reported = λ c e. absurd (cc);
        })

  quiet :
      (u : Tracker)
      → Waiting u
      → (is_empty t.current ≡ false → u.current ≡ t.current)
      → Sound t (none, u)
  quiet u w same = record {
    waiting = w;
    silent = λ e real. same real;
    reported = λ c e. absurd (cc);
  }

  -- One call of format_change_update on a value, with less than the confirming number of frames
  -- pending, keeps less than the confirming number of frames pending. Without a report an
  -- established current value stays; a report goes from the current value to a different one,
  -- which becomes the current value as far as its array holds it.
  pub format_change_update-Sound : Waiting t → Sound t (format_change_update (some value) context t)
  unfolding format_change_update
  format_change_update-Sound w =
      if_intro (Sound t) (is_empty value) (λ e. quiet t w (λ real. refl))
        λ filled.
          if_intro (Sound t) (same_text value unknown_text) (λ e. quiet t w (λ real. refl))
            λ known.
              if_intro (Sound t) (is_empty t.current)
                (λ e. quiet _ (omega arith) (λ real. absurd (cc)))
                λ real.
                  if_intro (Sound t) (same_text value t.current)
                    (λ e. quiet _ (omega arith) (λ real. refl)) λ other. await-Sound w other
