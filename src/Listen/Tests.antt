-- ===== src/Listen/Tests.antt =====
-- Tests of the listener of source/srthub.c.
use opensrthub.Base.{
  ℕ, ◌*◌, ◌≤◌, ◌-◌, ◌+◌, ◌≡◌, refl, Bool, true, false, some, List, [], ◌∷◌, ◌==◌, not, arith,
}
use opensrthub.Listen.Create.{
  Settings, Answers, srto_sndsyn, srto_latency, srto_payloadsize, srto_streamid, in_use,
  no_permission, not_ipv4, create_socket, set_flag, bind, invalid, listening, bind_reason,
  eaddrinuse, eacces, asked_options, set_options, configure_and_bind, srt_create_bound_listener,
}
use opensrthub.Listen.Retry.{
  Round, bound_to, listen_failed, write_listen_error, listening_again, clear_listen_error, slept,
  number_of, is_due, same_reason, after_failure, after_success, wait_loop, bind_rounds,
  srt_bind_listener_retrying,
}
use opensrthub.Listen.Sockets.{IsSettled, srt_create_bound_listener-IsSettled}
use opensrthub.Listen.Reports.{last_failure, IsTold, srt_bind_listener_retrying-IsTold, failures}
use opensrthub.Listen.Rate.{AllFail, InOrder, latest, hour, srt_bind_listener_retrying-rate}

-- No passphrase, since one of three characters is too short, but a stream's name.
abbrev some_settings : Settings
some_settings = record { latencyms = some 200; passphrase = 97 ∷ 98 ∷ 99 ∷ []; streamid = 120 ∷ [] }

abbrev success : Answers
success = record {
  parsed = true;
  new_socket = some 7;
  accepts = λ o. true;
  bound = true;
  sys_errno = 0;
}

abbrev taken : Answers
taken = record success { bound = Bool.false; sys_errno = eaddrinuse }

abbrev refused : Answers
refused = record success { bound = Bool.false; sys_errno = eacces }

success_calls : srt_create_bound_listener some_settings success ≡ (
  listening 7,
  create_socket 7
      ∷ set_flag 7 srto_sndsyn
      ∷ set_flag 7 srto_latency
      ∷ set_flag 7 srto_payloadsize
      ∷ set_flag 7 srto_streamid
      ∷ bind 7
      ∷ [],
)
unfolding srt_create_bound_listener configure_and_bind set_options asked_options
success_calls = refl

taken_outcome : (srt_create_bound_listener some_settings taken).0 ≡ invalid in_use
unfolding srt_create_bound_listener configure_and_bind set_options asked_options bind_reason
taken_outcome = refl

srt_create_bound_listener-IsSettled_example :
    IsSettled some_settings taken (3 ∷ []) (srt_create_bound_listener some_settings taken)
srt_create_bound_listener-IsSettled_example =
    srt_create_bound_listener-IsSettled some_settings taken (3 ∷ [])

-- A round that begins at the time, in milliseconds, and whose waiting loop is left after two turns.
abbrev round : Answers → ℕ → Round
round a t = record {
  running = true;
  answers = a;
  compared = t;
  reported = t + 1;
  waits = λ left. not (left == 48);
}

-- The port is taken, still is, then may not be used, and an hour later is free.
abbrev four_rounds : List Round
four_rounds = round taken 1000 ∷ round taken 6000 ∷ round refused 11000 ∷ round success 3700000 ∷ []

four_rounds_events : srt_bind_listener_retrying some_settings four_rounds ≡ (
  bound_to 7,
  listen_failed in_use
      ∷ write_listen_error in_use
      ∷ slept
      ∷ slept
      ∷ slept
      ∷ slept
      ∷ listen_failed no_permission
      ∷ write_listen_error no_permission
      ∷ slept
      ∷ slept
      ∷ listening_again
      ∷ clear_listen_error
      ∷ [],
)
unfolding srt_bind_listener_retrying bind_rounds srt_create_bound_listener configure_and_bind
    set_options asked_options bind_reason after_failure after_success is_due same_reason number_of
    wait_loop
four_rounds_events = refl

srt_bind_listener_retrying-IsTold_example :
    IsTold
      (last_failure some_settings four_rounds (some not_ipv4))
      false
      (some not_ipv4)
      (srt_bind_listener_retrying some_settings four_rounds)
srt_bind_listener_retrying-IsTold_example =
    srt_bind_listener_retrying-IsTold some_settings four_rounds (some not_ipv4)

-- The port stays taken for longer than an hour.
abbrev taken_rounds : List Round
taken_rounds = round taken 1000 ∷ round taken 6000 ∷ round taken 3601001 ∷ []

srt_bind_listener_retrying-rate_example :
    failures (srt_bind_listener_retrying some_settings taken_rounds).1 * hour
    ≤ latest 1000 taken_rounds - 1000 + hour
unfolding AllFail InOrder srt_create_bound_listener configure_and_bind set_options asked_options
    bind_reason
srt_bind_listener_retrying-rate_example =
    srt_bind_listener_retrying-rate some_settings in_use taken_rounds 1000
      (omega arith, omega arith, (omega arith, omega arith, (omega arith, omega arith, tt)))
      (refl, (refl, (refl, tt)))

taken_rounds_reports : failures (srt_bind_listener_retrying some_settings taken_rounds).1 ≡ 2
unfolding srt_bind_listener_retrying bind_rounds srt_create_bound_listener configure_and_bind
    set_options asked_options bind_reason after_failure after_success is_due same_reason number_of
    wait_loop failures
taken_rounds_reports = refl
