-- ===== src/Listen/Retry.antt =====
-- srt_bind_listener_retrying of source/srthub.c. A round of its loop comes with what the round
-- reads: *running, the answers to its attempt, and the clock.
use opensrthub.Base.{
  ℕ, zero, suc, ◌+◌, ◌*◌, Bool, false, not, ◌||◌, Option, none, some, List, [], ◌∷◌, ◌++◌, leb,
  ◌==◌, if◌then◌else◌,
}
use opensrthub.Listen.Create.{
  Settings, Answers, Reason, not_ipv4, no_socket, not_configured, not_local, in_use, no_permission,
  bind_failed, invalid, listening, srt_create_bound_listener,
}

abbrev pub retry_seconds : ℕ
retry_seconds = 5

abbrev pub report_seconds : ℕ
report_seconds = 3600

-- monotonic_ms in the condition and behind the report, and *running in the waiting loop, by the
-- number of its turns that are left.
pub record Round : Type 0 where
  pub running : Bool
  pub answers : Answers
  pub compared : ℕ
  pub reported : ℕ
  pub waits : ℕ → Bool

-- failed, last_reason, where `none` is the empty text, and last_report
pub record Listener : Type 0 where
  pub failed : Bool
  pub last_reason : Option Reason
  pub last_report : ℕ

abbrev pub new_listener : Listener
new_listener = record { failed = Bool.false; last_reason = Option.none; last_report = 0 }

pub data Notice : Type 0 where
  listen_failed : Reason → Notice
  write_listen_error : Reason → Notice
  listening_again : Notice
  clear_listen_error : Notice
  slept : Notice

-- Different texts have different numbers.
unfoldable pub number_of : Reason → ℕ
number_of not_ipv4 = 0
number_of no_socket = 1
number_of not_configured = 2
number_of not_local = 3
number_of in_use = 4
number_of no_permission = 5
number_of (bind_failed e) = 6 + e

-- strcmp of the reason with last_reason
unfoldable pub same_reason : Reason → Option Reason → Bool
unfolding number_of
same_reason q none = false
same_reason q (some r) = number_of q == number_of r

unfoldable pub is_due : Round → Reason → Listener → Bool
unfolding same_reason
is_due r q l =
    not l.failed
    || (not (same_reason q l.last_reason) || leb (l.last_report + report_seconds * 1000) r.compared)

unfoldable pub after_failure : Round → Reason → Listener → Listener × List Notice
unfolding is_due
after_failure r q l =
    if is_due r q l
    then (
      record { failed = Bool.true; last_reason = Option.some q; last_report = r.reported },
      listen_failed q ∷ write_listen_error q ∷ [],
    )
    else (record l { failed = Bool.true }, [])

unfoldable pub after_success : Listener → List Notice
after_success l = (if l.failed then listening_again ∷ [] else []) ++ clear_listen_error ∷ []

unfoldable pub wait_loop : ℕ → (ℕ → Bool) → List Notice
wait_loop zero running = []
wait_loop (suc left) running =
    let rest = wait_loop left running in if running (suc left) then slept ∷ rest else []

-- How the call ends: with a socket or, as *running is cleared, without. It is waiting where the rounds
-- end first.
pub data Ending : Type 0 where
  bound_to : ℕ → Ending
  stopped : Ending
  waiting : Ending

-- The rounds from a state of the loop: the ending, and what the world sees.
unfoldable pub bind_rounds : Settings → List Round → Listener → Ending × List Notice
unfolding srt_create_bound_listener after_failure after_success wait_loop
bind_rounds s [] l = (waiting, [])
bind_rounds s (r ∷ rs) l =
    if r.running
    then elim (srt_create_bound_listener s r.answers).0 [
      | listening x ↦ (bound_to x, after_success l)
      | invalid q ↦
          let step = after_failure r q l in
          let rest = bind_rounds s rs step.0 in
          (rest.0, step.1 ++ wait_loop (retry_seconds * 10) r.waits ++ rest.1)
    ]
    else (stopped, [])

unfoldable pub srt_bind_listener_retrying : Settings → List Round → Ending × List Notice
unfolding bind_rounds
srt_bind_listener_retrying s rounds = bind_rounds s rounds new_listener
