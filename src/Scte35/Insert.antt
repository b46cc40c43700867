-- ===== src/Scte35/Insert.antt =====
-- scte35_parse_splice_insert of source/tsdecode.c, one definition for each part of the command.
use opensrthub.Base.{
  ℕ, zero, suc, ◌+◌, Bool, true, false, not, ◌&&◌, Option, none, some, List, if◌then◌else◌,
}
use opensrthub.Scte35.Cue.{Cue, cmd_splice_insert}
use opensrthub.Scte35.Reader.{
  Cmd, pure, ◌>>=◌, ◌>>◌, update, returned, bit, byte, be16, be32, pts33, need, unless_cancelled,
}

module _ (m : List ℕ) (e : ℕ) where
  -- splice_time(): the time, if one is specified, and the offset behind it.
  unfoldable pub splice_time : ℕ → Cmd (Option ℕ × ℕ)
  unfolding need byte pts33
  splice_time p = do
    need e p 1
    f ← byte m p
    if bit f 7 then (do need e p 5; t ← pts33 m p; pure (some t, p + 5)) else pure (none, p + 1)

  -- splice_event_id and the cancel indicator.
  unfoldable pub event_header : ℕ → Cmd ℕ
  unfolding need byte be32
  event_header p = do
    need e p 5
    id ← be32 m p
    f ← byte m (p + 4)
    update (λ c. record c { splice_event_id = id; cancel = bit f 7 })
    pure (p + 5)

  -- The time of a command that splices the whole program.
  unfoldable pub program_time : ℕ → Cmd ℕ
  unfolding splice_time
  program_time p = do
    (t, q) ← splice_time p
    update (λ c. elim t [ none ↦ c | some v ↦ record c { pts_time = v } ])
    pure q

  -- One round of the component loop; only the first component's time is reported.
  unfoldable pub component : Bool → Bool → ℕ → Cmd ℕ
  unfolding splice_time
  component immediate first p = do
    need e p 1
    if immediate then pure (p + 1) else do
      (t, q) ← splice_time (p + 1)
      update (λ c. if first then elim t [ none ↦ c | some v ↦ record c { pts_time = v } ] else c)
      pure q

  unfoldable pub component_loop : Bool → ℕ → Bool → ℕ → Cmd ℕ
  unfolding component
  component_loop immediate zero first p = pure p
  component_loop immediate (suc n) first p = do
    q ← component immediate first p
    component_loop immediate n false q

  unfoldable pub components : Bool → ℕ → Cmd ℕ
  unfolding component_loop
  components immediate p = do need e p 1; n ← byte m p; component_loop immediate n true (p + 1)

  -- The timing part: a program time, nothing, or the component loop.
  unfoldable pub timing : Bool → Bool → ℕ → Cmd ℕ
  unfolding program_time components
  timing program immediate p =
      if program && not immediate
      then program_time p
      else if program
      then pure p
      else components immediate p

  unfoldable pub break_duration : ℕ → Cmd ℕ
  unfolding need byte pts33
  break_duration p = do
    need e p 5
    f ← byte m p
    d ← pts33 m p
    update (λ c. record c { auto_return = bit f 7; pts_duration = d })
    pure (p + 5)

  unfoldable pub program_number : ℕ → Cmd (Unit {0})
  unfolding need be16
  program_number p = do need e p 2; v ← be16 m p; update (λ c. record c { program_id = v })

  -- What follows the header of a command that is not a cancellation.
  unfoldable pub insert_body : ℕ → Cmd (Unit {0})
  unfolding timing break_duration program_number
  insert_body p = do
    need e p 1
    f ← byte m p
    update (λ c. record c { out_of_network_indicator = bit f 7; splice_immediate = bit f 4 })
    q ← timing (bit f 6) (bit f 4) (p + 1)
    r ← (if bit f 5 then break_duration q else pure q)
    program_number r

  unfoldable pub parse_splice_insert : ℕ → Cue → Option (Bool × Cue)
  unfolding event_header insert_body
  parse_splice_insert p out = returned (
      (do q ← event_header p; unless_cancelled insert_body q)
        (record out { splice_command_type = cmd_splice_insert }))
