-- ===== src/Listen/Reports.antt =====
-- What srt_bind_listener_retrying of source/srthub.c tells: the signals, and the file for the dashboard.
use opensrthub.Base.{
  ℕ, zero, suc, ◌+◌, ◌-◌, ◌*◌, ◌≡◌, refl, sym, ==_iff, Bool, true, false, ◌||◌, Option, none, some,
  List, [], ◌∷◌, ◌++◌, ◌∙◌, ap, arith, ltb, ◌==◌, if◌then◌else◌, if_intro, one_if,
}
use opensrthub.Listen.Create.{
  Settings, Reason, not_ipv4, no_socket, not_configured, not_local, in_use, no_permission,
  bind_failed, Outcome, invalid, listening, srt_create_bound_listener,
}
use opensrthub.Listen.Retry.{
  Round, Listener, new_listener, retry_seconds, Notice, listen_failed, write_listen_error,
  listening_again, clear_listen_error, slept, number_of, same_reason, is_due, after_failure,
  after_success, wait_loop, Ending, bound_to, stopped, waiting, bind_rounds,
  srt_bind_listener_retrying,
}

unfoldable after : Notice → Option Reason → Option Reason
after (listen_failed q) file = file
after (write_listen_error q) file = some q
after listening_again file = file
after clear_listen_error file = none
after slept file = file

-- The reason in the file after the events; `none` is no file.
unfoldable pub shown : List Notice → Option Reason → Option Reason
unfolding after
shown [] file = file
shown (e ∷ es) file = shown es (after e file)

unfoldable is_failure : Notice → ℕ
is_failure (listen_failed q) = 1
is_failure (write_listen_error q) = 0
is_failure listening_again = 0
is_failure clear_listen_error = 0
is_failure slept = 0

unfoldable is_recovery : Notice → ℕ
is_recovery (listen_failed q) = 0
is_recovery (write_listen_error q) = 0
is_recovery listening_again = 1
is_recovery clear_listen_error = 0
is_recovery slept = 0

-- The signals of each kind.
unfoldable pub failures : List Notice → ℕ
unfolding is_failure
failures [] = 0
failures (e ∷ es) = is_failure e + failures es

unfoldable pub recoveries : List Notice → ℕ
unfolding is_recovery
recoveries [] = 0
recoveries (e ∷ es) = is_recovery e + recoveries es

-- The reason of the last attempt that failed, from the one before the rounds.
unfoldable pub last_failure : Settings → List Round → Option Reason → Option Reason
last_failure s [] before = before
last_failure s (r ∷ rs) before =
    if r.running
    then elim (srt_create_bound_listener s r.answers).0 [
      | listening x ↦ before
      | invalid q ↦ last_failure s rs (some q)
    ]
    else before

-- `last` is the reason of the last attempt that failed, `failed` whether one had before the events.
unfoldable pub IsTold : Option Reason → Bool → Option Reason → Ending × List Notice → Type 0
unfolding shown failures recoveries
IsTold last failed file (bound_to x, es) =
    (shown es file ≡ none) × (recoveries es ≡ one_if (failed || ltb 0 (failures es)))
IsTold last failed file (stopped, es) = (shown es file ≡ last) × (recoveries es ≡ 0)
IsTold last failed file (waiting, es) = (shown es file ≡ last) × (recoveries es ≡ 0)

unfoldable reason_of : ℕ → Reason
reason_of n =
    if n == 0
    then not_ipv4
    else if n == 1
    then no_socket
    else if n == 2
    then not_configured
    else if n == 3
    then not_local
    else if n == 4
    then in_use
    else if n == 5
    then no_permission
    else bind_failed (n - 6)

reason_of-number_of : (q : Reason) → reason_of (number_of q) ≡ q
unfolding reason_of number_of
reason_of-number_of not_ipv4 = refl
reason_of-number_of no_socket = refl
reason_of-number_of not_configured = refl
reason_of-number_of not_local = refl
reason_of-number_of in_use = refl
reason_of-number_of no_permission = refl
reason_of-number_of (bind_failed e) = ground arith

pub same_reason_sound : (q : Reason) (o : Option Reason) → same_reason q o ≡ true → o ≡ some q
unfolding same_reason
same_reason_sound q none h = absurd (ground (arith, h))
same_reason_sound q (some r) h = ap some (
    sym (reason_of-number_of r)
    ∙ ap reason_of (sym ((==_iff (number_of q) (number_of r)).0 h))
    ∙ reason_of-number_of q)

shown-append :
    (es fs : List Notice) (file : Option Reason) → shown (es ++ fs) file ≡ shown fs (shown es file)
unfolding shown
shown-append [] fs file = refl
shown-append (e ∷ es) fs file = shown-append es fs (after e file)

recoveries-append : (es fs : List Notice) → recoveries (es ++ fs) ≡ recoveries es + recoveries fs
unfolding recoveries
recoveries-append [] fs = omega arith
recoveries-append (e ∷ es) fs = omega (arith, recoveries-append es fs)

failures-append : (es fs : List Notice) → failures (es ++ fs) ≡ failures es + failures fs
unfolding failures
failures-append [] fs = omega arith
failures-append (e ∷ es) fs = omega (arith, failures-append es fs)

-- The waiting loop tells nothing.
abbrev pub IsQuiet : List Notice → Type 0
IsQuiet es =
    ((file : Option Reason) → shown es file ≡ file) × (failures es ≡ 0) × (recoveries es ≡ 0)

pub wait_loop-IsQuiet : (n : ℕ) (running : ℕ → Bool) → IsQuiet (wait_loop n running)
unfolding wait_loop shown failures recoveries is_failure is_recovery after
wait_loop-IsQuiet zero running = (λ file. refl, refl, refl)
wait_loop-IsQuiet (suc n) running =
    if_intro IsQuiet (running (suc n))
      (λ e.
        let (same, none_failed, none_again) = wait_loop-IsQuiet n running in
        (same, omega (arith, none_failed), omega (arith, none_again)))
      λ e. (λ file. refl, refl, refl)

-- A state of the loop knows the reason in the file, once an attempt has failed.
abbrev IsCurrent : Listener → Option Reason → Type 0
IsCurrent l file = l.failed ≡ true → l.last_reason ≡ file

unfoldable IsReported : Reason → Bool → Option Reason → Listener × List Notice → Type 0
IsReported q failed file (l, es) =
    (l.failed ≡ true)
    × (l.last_reason ≡ some q)
    × (shown es file ≡ some q)
    × (recoveries es ≡ 0)
    × (failed || ltb 0 (failures es) ≡ true)

unreported :
    (r : Round) (q : Reason) (l : Listener)
    → is_due r q l ≡ false
    → (l.failed ≡ true) × (l.last_reason ≡ some q)
unfolding is_due
unreported r q l h = (ground (arith, h), same_reason_sound q l.last_reason (ground (arith, h)))

after_failure-IsReported :
    (r : Round) (q : Reason) (l : Listener) (file : Option Reason)
    → IsCurrent l file
    → IsReported q l.failed file (after_failure r q l)
unfolding after_failure IsReported shown recoveries failures after is_failure is_recovery
after_failure-IsReported r q l file current =
    if_intro (IsReported q l.failed file) (is_due r q l)
      (λ e. (refl, refl, refl, refl, ground arith))
      λ e.
        let (failed, same) = unreported r q l e in
        (refl, same, sym (current failed) ∙ same, refl, ground (arith, failed))

shown_through :
    (q : Reason) (file : Option Reason) (es ws fs : List Notice)
    → shown es file ≡ some q
    → IsQuiet ws
    → shown (es ++ ws ++ fs) file ≡ shown fs (some q)
shown_through q file es ws fs h (same, none_failed, none_again) =
    shown-append (es ++ ws) fs file
    ∙ ap (shown fs) (shown-append es ws file ∙ same (shown es file) ∙ h)

pub counts_through :
    (es ws fs : List Notice)
    → IsQuiet ws
    → (recoveries (es ++ ws ++ fs) ≡ recoveries es + recoveries fs)
      × (failures (es ++ ws ++ fs) ≡ failures es + failures fs)
counts_through es ws fs (same, no_failure, no_recovery) = (
  omega (arith, recoveries-append (es ++ ws) fs, recoveries-append es ws),
  omega (arith, failures-append (es ++ ws) fs, failures-append es ws),
)

again_once :
    (failed : Bool) (es ws fs : List Notice)
    → IsQuiet ws
    → recoveries es ≡ 0
    → failed || ltb 0 (failures es) ≡ true
    → recoveries fs ≡ 1
    → recoveries (es ++ ws ++ fs) ≡ one_if (failed || ltb 0 (failures (es ++ ws ++ fs)))
again_once failed es ws fs quiet silent told k =
    let (again, failing) = counts_through es ws fs quiet in ground (arith, again, failing)

-- One failing round in front of the rest.
behind_failure :
    (last : Option Reason) (q : Reason) (failed : Bool) (file : Option Reason) (ws : List Notice)
    (step : Listener × List Notice) (rest : Ending × List Notice)
    → IsReported q failed file step
    → IsQuiet ws
    → IsTold last step.0.failed (some q) rest
    → IsTold last failed file (rest.0, step.1 ++ ws ++ rest.1)
unfolding IsTold IsReported
behind_failure last q failed file ws (l, es) (bound_to x, fs) (on, same, seen, silent, told) quiet
      (h, k) =
    let (again, failing) = counts_through es ws fs quiet in
    (
      shown_through q file es ws fs seen quiet ∙ h,
      again_once failed es ws fs quiet silent told
          (k ∙ ap (λ b. one_if (b || ltb 0 (failures fs))) on),
    )
behind_failure last q failed file ws (l, es) (stopped, fs) (on, same, seen, silent, told) quiet
      (h, k) =
    let (again, failing) = counts_through es ws fs quiet in
    (shown_through q file es ws fs seen quiet ∙ h, omega arith)
behind_failure last q failed file ws (l, es) (waiting, fs) (on, same, seen, silent, told) quiet
      (h, k) =
    let (again, failing) = counts_through es ws fs quiet in
    (shown_through q file es ws fs seen quiet ∙ h, omega arith)

recovered :
    (l : Listener) (last file : Option Reason) (x : ℕ)
    → IsTold last l.failed file (bound_to x, after_success l)
unfolding IsTold after_success shown recoveries failures after is_recovery is_failure
recovered l last file x =
    if_intro
      (λ es.
        (shown (es ++ clear_listen_error ∷ []) file ≡ none)
        × (recoveries (es ++ clear_listen_error ∷ [])
            ≡ one_if (l.failed || ltb 0 (failures (es ++ clear_listen_error ∷ [])))))
      l.failed (λ e. (refl, ground (arith, e))) λ e. (refl, ground (arith, e))

knows :
    (q : Reason) (failed : Bool) (file : Option Reason) (step : Listener × List Notice)
    → IsReported q failed file step
    → IsCurrent step.0 (some q)
unfolding IsReported
knows q failed file (l, es) (on, same, told, silent, heard) = λ h. same

round-IsTold :
    (s : Settings) (r : Round) (rs : List Round) (l : Listener) (file : Option Reason)
    → IsCurrent l file
    → ((k : Listener) (f : Option Reason)
        → IsCurrent k f
        → IsTold (last_failure s rs f) k.failed f (bind_rounds s rs k))
    → (on : Bool) (o : Outcome)
    → IsTold
        (if on
          then elim o [ listening x ↦ file | invalid q ↦ last_failure s rs (some q) ]
          else file)
        l.failed
        file
        (if on
          then elim o [
            | listening x ↦ (bound_to x, after_success l)
            | invalid q ↦
                let step = after_failure r q l in
                let rest = bind_rounds s rs step.0 in
                (rest.0, step.1 ++ wait_loop (retry_seconds * 10) r.waits ++ rest.1)
          ]
          else (stopped, []))
unfolding IsTold
round-IsTold s r rs l file current rest false o = (refl, refl)
round-IsTold s r rs l file current rest true (listening x) = recovered l file file x
round-IsTold s r rs l file current rest true (invalid q) =
    let told = after_failure-IsReported r q l file current in
    behind_failure (last_failure s rs (some q)) q l.failed file
      (wait_loop (retry_seconds * 10) r.waits) (after_failure r q l)
      (bind_rounds s rs (after_failure r q l).0) told
      (wait_loop-IsQuiet (retry_seconds * 10) r.waits)
      (rest (after_failure r q l).0 (some q) (knows q l.failed file (after_failure r q l) told))

pub bind_rounds-IsTold :
    (s : Settings) (rs : List Round) (l : Listener) (file : Option Reason)
    → IsCurrent l file
    → IsTold (last_failure s rs file) l.failed file (bind_rounds s rs l)
unfolding bind_rounds IsTold last_failure
bind_rounds-IsTold s [] l file current = (refl, refl)
bind_rounds-IsTold s (r ∷ rs) l file current =
    round-IsTold s r rs l file current (bind_rounds-IsTold s rs) r.running
      (srt_create_bound_listener s r.answers).0

-- After any rounds of srt_bind_listener_retrying, whatever the attempts and the waits give, the
-- file for the dashboard holds the reason of the last attempt that failed, or what it held before
-- if none did, as long as no attempt succeeded; when one succeeds, the file is removed, and one
-- signal of recovery is sent exactly if a failure had been signalled. No signal of recovery is
-- sent otherwise. The file takes every write.
pub srt_bind_listener_retrying-IsTold :
    (s : Settings) (rs : List Round) (file : Option Reason)
    → IsTold (last_failure s rs file) false file (srt_bind_listener_retrying s rs)
unfolding srt_bind_listener_retrying IsTold
srt_bind_listener_retrying-IsTold s rs file =
    bind_rounds-IsTold s rs new_listener file λ h. absurd (ground (arith, h))
