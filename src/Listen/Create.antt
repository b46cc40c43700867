-- ===== src/Listen/Create.antt =====
-- srt_create_bound_listener of source/srthub.c. What libsrt and the system answer is an argument.
use opensrthub.Base.{
  ℕ, Bool, true, false, ◌&&◌, Option, none, some, List, [], ◌∷◌, ◌++◌, leb, ltb, ◌==◌,
  if◌then◌else◌, length,
}

pub data SockOption : Type 0 where
  srto_sndsyn : SockOption
  srto_latency : SockOption
  srto_payloadsize : SockOption
  srto_passphrase : SockOption
  srto_streamid : SockOption

-- The arguments that decide which options are set; `none` is a NULL latency.
pub record Settings : Type 0 where
  pub latencyms : Option ℕ
  pub passphrase : List ℕ
  pub streamid : List ℕ

-- Whether inet_pton parses the address, the socket of srt_create_socket (`none` is
-- SRT_INVALID_SOCK), which options srt_setsockflag accepts, whether srt_bind succeeds, and the error
-- of the system otherwise.
pub record Answers : Type 0 where
  pub parsed : Bool
  pub new_socket : Option ℕ
  pub accepts : SockOption → Bool
  pub bound : Bool
  pub sys_errno : ℕ

-- The texts that `reason` may hold. The address and the port in them are those of the call, and no
-- text is as long as the buffer.
pub data Reason : Type 0 where
  not_ipv4 : Reason
  no_socket : Reason
  not_configured : Reason
  not_local : Reason
  in_use : Reason
  no_permission : Reason
  bind_failed : ℕ → Reason

pub data SrtCall : Type 0 where
  create_socket : ℕ → SrtCall
  set_flag : ℕ → SockOption → SrtCall
  bind : ℕ → SrtCall
  close : ℕ → SrtCall

pub data Outcome : Type 0 where
  invalid : Reason → Outcome
  listening : ℕ → Outcome

abbrev pub eacces : ℕ
eacces = 13

abbrev pub eaddrinuse : ℕ
eaddrinuse = 98

abbrev pub eaddrnotavail : ℕ
eaddrnotavail = 99

unfoldable pub bind_reason : ℕ → Reason
bind_reason e =
    if e == eaddrnotavail
    then not_local
    else if e == eaddrinuse
    then in_use
    else if e == eacces
    then no_permission
    else bind_failed e

unfoldable pub asked_options : Settings → List SockOption
asked_options s =
    srto_sndsyn ∷ elim s.latencyms [ none ↦ [] | some ms ↦ srto_latency ∷ [] ]
    ++ srto_payloadsize
      ∷ (if leb 10 (length s.passphrase) && leb (length s.passphrase) 79
          then srto_passphrase ∷ []
          else [])
    ++ (if ltb 0 (length s.streamid) then srto_streamid ∷ [] else [])

-- The options in turn, up to the first that is refused: whether none is, and the calls.
unfoldable pub set_options : (SockOption → Bool) → ℕ → List SockOption → Bool × List SrtCall
set_options accepts x [] = (true, [])
set_options accepts x (o ∷ os) =
    let rest = set_options accepts x os in
    if accepts o then (rest.0, set_flag x o ∷ rest.1) else (false, set_flag x o ∷ [])

-- From the options on.
unfoldable pub configure_and_bind : Settings → Answers → ℕ → Outcome × List SrtCall
unfolding asked_options set_options bind_reason
configure_and_bind s a x =
    let set = set_options a.accepts x (asked_options s) in
    if set.0
    then if a.bound
      then (listening x, set.1 ++ bind x ∷ [])
      else (invalid (bind_reason a.sys_errno), set.1 ++ bind x ∷ close x ∷ [])
    else (invalid not_configured, set.1 ++ close x ∷ [])

unfoldable pub srt_create_bound_listener : Settings → Answers → Outcome × List SrtCall
unfolding configure_and_bind
srt_create_bound_listener s a =
    if a.parsed
    then elim a.new_socket [
      | none ↦ (invalid no_socket, [])
      | some x ↦ let rest = configure_and_bind s a x in (rest.0, create_socket x ∷ rest.1)
    ]
    else (invalid not_ipv4, [])
