-- ===== src/Listen/Rate.antt =====
-- How often srt_bind_listener_retrying of source/srthub.c signals a failure that stays the same.
use opensrthub.Base.{
  ℕ, ◌+◌, ◌-◌, ◌*◌, ◌≤◌, ◌≡◌, refl, true, false, some, List, [], ◌∷◌, All, arith, if_intro,
  Bool-cases, inl, inr,
}
use opensrthub.Listen.Create.{Settings, Reason, invalid, srt_create_bound_listener}
use opensrthub.Listen.Retry.{
  Round, Listener, new_listener, retry_seconds, report_seconds, Notice, is_due, same_reason,
  after_failure, wait_loop, bind_rounds, srt_bind_listener_retrying,
}
use opensrthub.Listen.Reports.{failures, counts_through, wait_loop-IsQuiet}

-- Every attempt of the rounds fails with the reason.
unfoldable pub AllFail : Settings → Reason → List Round → Type 0
AllFail s q rs = All (λ r. (srt_create_bound_listener s r.answers).0 ≡ invalid q) rs

-- The clock does not run backwards, from a first reading on.
unfoldable pub InOrder : ℕ → List Round → Type 0
InOrder t [] = Unit
InOrder t (r ∷ rs) = (t ≤ r.compared) × (r.compared ≤ r.reported) × InOrder r.reported rs

unfoldable pub latest : ℕ → List Round → ℕ
latest t [] = t
latest t (r ∷ rs) = latest r.reported rs

abbrev pub hour : ℕ
hour = report_seconds * 1000

latest_after : (t : ℕ) (rs : List Round) → InOrder t rs → t ≤ latest t rs
unfolding InOrder latest
latest_after t [] h = omega arith
latest_after t (r ∷ rs) (h, k, rest) = omega (arith, latest_after r.reported rs rest)

-- What a round does that fails with `q`.
failing_round :
    (s : Settings) (q : Reason) (r : Round) (rs : List Round) (l : Listener)
    → (srt_create_bound_listener s r.answers).0 ≡ invalid q
    → r.running ≡ true
    → failures (bind_rounds s (r ∷ rs) l).1
      ≡ failures (after_failure r q l).1 + failures (bind_rounds s rs (after_failure r q l).0).1
unfolding bind_rounds
failing_round s q r rs l e on =
    let w = retry_seconds * 10 in
    simp (e, on)
      (counts_through (after_failure r q l).1 (wait_loop w r.waits)
        (bind_rounds s rs (after_failure r q l).0).1 (wait_loop-IsQuiet w r.waits)).1

stopping_round :
    (s : Settings) (r : Round) (rs : List Round) (l : Listener)
    → r.running ≡ false
    → failures (bind_rounds s (r ∷ rs) l).1 ≡ 0
unfolding bind_rounds failures
stopping_round s r rs l off = simp off refl

-- The time of the last report with the length of the reports, under a step of the loop.
abbrev IsSpaced : Round → Reason → Listener → Listener × List Notice → Type 0
IsSpaced r q l (k, es) =
    (k.failed ≡ true)
    × (k.last_reason ≡ some q)
    × (k.last_report ≤ r.reported)
    × (failures es * hour + l.last_report ≤ k.last_report)

same_reason_self : (q : Reason) → same_reason q (some q) ≡ true
unfolding same_reason
same_reason_self q = ground arith

due_late :
    (r : Round) (q : Reason) (l : Listener)
    → l.failed ≡ true
    → l.last_reason ≡ some q
    → r.compared ≤ r.reported
    → is_due r q l ≡ true
    → 1 * hour + l.last_report ≤ r.reported
unfolding is_due
due_late r q l failed same order due =
    let known : same_reason q l.last_reason ≡ true = simp same (same_reason_self q) in
    ground (arith, known, failed, due, order)

after_failure-IsSpaced :
    (r : Round) (q : Reason) (l : Listener)
    → l.failed ≡ true
    → l.last_reason ≡ some q
    → l.last_report ≤ r.reported
    → r.compared ≤ r.reported
    → IsSpaced r q l (after_failure r q l)
unfolding after_failure failures
after_failure-IsSpaced r q l failed same before order =
    if_intro (IsSpaced r q l) (is_due r q l)
      (λ e. (refl, refl, omega arith, due_late r q l failed same order e))
      λ e. (refl, same, before, omega arith)

spaced :
    (s : Settings) (q : Reason) (rs : List Round) (l : Listener) (t : ℕ)
    → l.failed ≡ true
    → l.last_reason ≡ some q
    → l.last_report ≤ t
    → InOrder t rs
    → AllFail s q rs
    → failures (bind_rounds s rs l).1 * hour + l.last_report ≤ latest t rs
unfolding InOrder AllFail latest bind_rounds failures
spaced s q [] l t failed same before order all = omega arith
spaced s q (r ∷ rs) l t failed same before (o, p, order) (e, all) =
    let (failed', same', before', step) =
      after_failure-IsSpaced r q l failed same (omega arith) p in
    let rest = spaced s q rs (after_failure r q l).0 r.reported failed' same' before' order all in
    elim (Bool-cases r.running) [
      | inl on ↦ omega (arith, failing_round s q r rs l e on, step, rest)
      | inr off ↦ omega (arith, stopping_round s r rs l off, latest_after r.reported rs order)
    ]

-- While every attempt fails with one reason and the clock does not run backwards,
-- srt_bind_listener_retrying signals the failure at most once and once more for each whole hour
-- between the first reading of the clock and the last.
pub srt_bind_listener_retrying-rate :
    (s : Settings) (q : Reason) (rs : List Round) (t : ℕ)
    → InOrder t rs
    → AllFail s q rs
    → failures (srt_bind_listener_retrying s rs).1 * hour ≤ latest t rs - t + hour
unfolding srt_bind_listener_retrying InOrder AllFail latest bind_rounds failures after_failure
    is_due
srt_bind_listener_retrying-rate s q [] t order all = omega arith
srt_bind_listener_retrying-rate s q (r ∷ rs) t (o, p, order) (e, all) =
    let first = (after_failure r q new_listener).0 in
    elim (Bool-cases r.running) [
      | inl on ↦ omega (
        arith,
        failing_round s q r rs new_listener e on,
        spaced s q rs first r.reported refl refl (omega arith) order all,
      )
      | inr off ↦ omega (arith, stopping_round s r rs new_listener off)
    ]
