-- ===== src/Listen/Sockets.antt =====
-- The sockets that srt_create_bound_listener of source/srthub.c opens and closes.
use opensrthub.Base.{
  ℕ, ◌≡◌, ◌≢◌, refl, Bool, true, false, Option, none, some, List, [], ◌∷◌, ◌++◌, map, All, arith,
  ◌==◌, not, ◌&&◌, if◌then◌else◌, ltb, length, subst, sym, if_intro, Option-cases, inl, inr, ap,
  ◌∙◌, remove,
}
use opensrthub.Listen.Create.{
  SockOption, srto_sndsyn, srto_latency, srto_payloadsize, srto_passphrase, srto_streamid, Settings,
  Reason, not_configured, bind_reason, Answers, SrtCall, create_socket, set_flag, bind, close,
  Outcome, invalid, listening, asked_options, set_options, configure_and_bind,
  srt_create_bound_listener,
}

unfoldable pub left_open : List SrtCall → List ℕ → List ℕ
unfolding remove
left_open [] opened = opened
left_open (create_socket x ∷ cs) opened = left_open cs (x ∷ opened)
left_open (set_flag x o ∷ cs) opened = left_open cs opened
left_open (bind x ∷ cs) opened = left_open cs opened
left_open (close x ∷ cs) opened = left_open cs (remove x opened)

-- Whether the arguments ask for an option: the two of every listener, a latency, a passphrase of
-- the length that libsrt takes, a stream id.
unfoldable pub wants : Settings → SockOption → Bool
wants s srto_sndsyn = true
wants s srto_latency = elim s.latencyms [ none ↦ false | some ms ↦ true ]
wants s srto_payloadsize = true
wants s srto_passphrase = not (ltb (length s.passphrase) 10) && not (ltb 79 (length s.passphrase))
wants s srto_streamid = not (length s.streamid == 0)

unfoldable pub wanted_of : Settings → List SockOption → List SockOption
unfolding wants
wanted_of s [] = []
wanted_of s (o ∷ os) = let rest = wanted_of s os in if wants s o then o ∷ rest else rest

-- Those options, in the order in which they are set.
abbrev pub wanted_options : Settings → List SockOption
wanted_options s =
    wanted_of s
      (srto_sndsyn ∷ srto_latency ∷ srto_payloadsize ∷ srto_passphrase ∷ srto_streamid ∷ [])

-- The calls of a listener that could be bound.
abbrev pub complete_calls : Settings → ℕ → List SrtCall
complete_calls s x = create_socket x ∷ map (set_flag x) (wanted_options s) ++ bind x ∷ []

-- Whether nothing stands in the way of a listener.
unfoldable pub AllSucceed : Settings → Answers → Type 0
unfolding wanted_of
AllSucceed s a =
    (a.parsed ≡ true)
    × (a.new_socket ≢ none)
    × All (λ o. a.accepts o ≡ true) (wanted_options s)
    × (a.bound ≡ true)

unfoldable pub IsSettled : Settings → Answers → List ℕ → Outcome × List SrtCall → Type 0
unfolding left_open wanted_of AllSucceed
IsSettled s a opened (invalid q, calls) = ¬ AllSucceed s a × (left_open calls opened ≡ opened)
IsSettled s a opened (listening x, calls) =
    AllSucceed s a
    × (a.new_socket ≡ some x)
    × (calls ≡ complete_calls s x)
    × (left_open calls opened ≡ x ∷ opened)

asked_options-wanted : (s : Settings) → asked_options s ≡ wanted_options s
unfolding asked_options wanted_of wants
asked_options-wanted s = ground arith

remove-here : (x : ℕ) (opened : List ℕ) → remove x (x ∷ opened) ≡ opened
unfolding remove
remove-here x opened = ground arith

left_open-set_options :
    (accepts : SockOption → Bool) (x : ℕ) (os : List SockOption) (cs : List SrtCall)
    (opened : List ℕ)
    → left_open ((set_options accepts x os).1 ++ cs) opened ≡ left_open cs opened
unfolding left_open set_options
left_open-set_options accepts x [] cs opened = refl
left_open-set_options accepts x (o ∷ os) cs opened =
    ground (arith, left_open-set_options accepts x os cs opened)

accepted :
    (accepts : SockOption → Bool) (x : ℕ) (os : List SockOption)
    → (set_options accepts x os).0 ≡ true
    → All (λ o. accepts o ≡ true) os × ((set_options accepts x os).1 ≡ map (set_flag x) os)
unfolding set_options
accepted accepts x [] h = (tt, refl)
accepted accepts x (o ∷ os) h = ground (arith, accepted accepts x os, h)

refused :
    (accepts : SockOption → Bool) (x : ℕ) (os : List SockOption)
    → (set_options accepts x os).0 ≡ false
    → ¬ All (λ o. accepts o ≡ true) os
unfolding set_options
refused accepts x [] h = absurd (ground (arith, h))
refused accepts x (o ∷ os) h = λ (all, rest). ground (arith, refused accepts x os)

-- The socket of an attempt, and what the rest of it gives.
abbrev With : Settings → Answers → List ℕ → ℕ → Outcome × List SrtCall → Type 0
With s a opened x r = IsSettled s a opened (r.0, create_socket x ∷ r.1)

given_up :
    (s : Settings) (a : Answers) (x : ℕ) (opened : List ℕ) (q : Reason) (cs : List SrtCall)
    → ¬ AllSucceed s a
    → ((before : List ℕ) → left_open cs before ≡ remove x before)
    → With s a opened x (invalid q, (set_options a.accepts x (asked_options s)).1 ++ cs)
unfolding IsSettled left_open
given_up s a x opened q cs h same = (
  h,
  left_open-set_options a.accepts x (asked_options s) cs (x ∷ opened)
      ∙ same (x ∷ opened)
      ∙ remove-here x opened,
)

configure_and_bind-IsSettled :
    (s : Settings) (a : Answers) (x : ℕ) (opened : List ℕ)
    → a.parsed ≡ true
    → a.new_socket ≡ some x
    → With s a opened x (configure_and_bind s a x)
unfolding configure_and_bind IsSettled AllSucceed left_open
configure_and_bind-IsSettled s a x opened hp hx =
    let os = asked_options s in
    if_intro (With s a opened x) (set_options a.accepts x os).0
      (λ e.
        let (all, calls) = accepted a.accepts x os e in
        if_intro (With s a opened x) a.bound
          (λ b. (
            (
              hp,
              (λ n. absurd (ground (arith, hx, n))),
              subst (All (λ o. a.accepts o ≡ true)) (asked_options-wanted s) all,
              b,
            ),
            hx,
            ap (λ cs. create_socket x ∷ cs ++ bind x ∷ [])
                (calls ∙ ap (map (set_flag x)) (asked_options-wanted s)),
            left_open-set_options a.accepts x os (bind x ∷ []) (x ∷ opened),
          ))
          λ b.
            given_up s a x opened (bind_reason a.sys_errno) (bind x ∷ close x ∷ [])
              (λ (p, n, t, c). absurd (ground (arith, b, c))) λ before. refl)
      λ e.
        given_up s a x opened not_configured (close x ∷ [])
          (λ (p, n, t, c).
            refused a.accepts x os e
              (subst (All (λ o. a.accepts o ≡ true)) (sym (asked_options-wanted s)) t))
          λ before. refl

-- srt_create_bound_listener returns a socket exactly if the address parses and libsrt makes a
-- socket, accepts every option that the arguments ask for, and binds it; it is then that socket,
-- its options were set before it was bound, and it is open beside those that were. In every other
-- case the sockets that are open are those that were before.
pub srt_create_bound_listener-IsSettled :
    (s : Settings) (a : Answers) (opened : List ℕ)
    → IsSettled s a opened (srt_create_bound_listener s a)
unfolding srt_create_bound_listener IsSettled AllSucceed left_open
srt_create_bound_listener-IsSettled s a opened =
    if_intro (IsSettled s a opened) a.parsed
      (λ hp. elim (Option-cases a.new_socket) [
        | inl n ↦ rw n ((λ (p, m, t, b). m refl), refl)
        | inr (x, e) ↦ rw e (
            configure_and_bind-IsSettled s (record a { new_socket = Option.some x }) x opened hp
              refl)
      ])
      λ hp. ((λ (p, m, t, b). absurd (ground (arith, hp, p))), refl)
