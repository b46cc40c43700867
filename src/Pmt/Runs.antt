-- ===== src/Pmt/Runs.antt =====
-- Any sequence of calls of decode_pmt_table in source/tsdecode.c, from fresh tables on.
use opensrthub.Base.{
  ℕ, ◌+◌, ◌≤◌, ◌≡◌, ◌≢◌, refl, ap, ◌∙◌, Bool, Option, none, some, List, [], ◌∷◌, length, All, ◌⊎◌,
  inl, inr, sym, subst, false,
}
use opensrthub.Pmt.Table.{Tables, create_tables}
use opensrthub.Pmt.Decode.{decode_pmt_table}
use opensrthub.Pmt.Slots.{IsTables, create_tables-IsTables}
use opensrthub.Pmt.Update.{Stored, Refused, decode_pmt_table-ok}

pub record Call : Type 0 where
  pub buffer : List ℕ
  pub size : ℕ
  pub pid : ℕ

-- What the callers guarantee of the buffer, and a PID that a table can have.
pub record IsCall (c : Call) : Type 0 where
  pub real : c.pid ≢ 0
  pub room : c.size + 4 ≤ length c.buffer
  pub header : 13 ≤ length c.buffer

-- The calls one after the other, whatever each returns.
unfoldable pub run : List Call → Tables → Option Tables
run [] t = some t
run (c ∷ cs) t = elim (decode_pmt_table c.buffer c.size c.pid t) [
  | none ↦ none
  | some (r, u) ↦ run cs u
]

called-IsTables :
    {pid program : ℕ} {r : Bool} {t u : Tables}
    → IsTables t
    → Stored pid program t u ⊎ ((r ≡ false) × Refused pid t u)
    → IsTables u
called-IsTables is (inl stored) = stored.tables
called-IsTables is (inr (e, refused)) = subst IsTables (sym refused.unchanged) is

run-IsTables_from :
    (cs : List Call) (t : Tables)
    → All IsCall cs
    → IsTables t
    → (u : Tables) × (run cs t ≡ some u) × IsTables u
unfolding run
run-IsTables_from [] t calls is = (t, refl, is)
run-IsTables_from (c ∷ cs) t (call, calls) is =
    let (r, u, e, what) =
      decode_pmt_table-ok c.buffer c.size c.pid t is call.real call.room call.header in
    let (v, f, valid) = run-IsTables_from cs u calls (called-IsTables is what) in
    (
      v,
      ap (λ (o : Option (Bool × Tables)). elim o [ none ↦ none | some (r, u) ↦ run cs u ]) e ∙ f,
      valid,
    )

-- Any sequence of decode_pmt_table calls on fresh tables, each for a PID that is not 0 and with a
-- buffer of 13 bytes at least that has room for four bytes behind the table, ends without an
-- access outside and leaves valid tables: entries at the front, with distinct PIDs, each with 32
-- streams at most, whose audio indices are 0, 1, 2 and so on in order, and zeroed stream counts
-- behind.
pub run-IsTables :
    (cs : List Call) → All IsCall cs → (u : Tables) × (run cs create_tables ≡ some u) × IsTables u
run-IsTables cs calls = run-IsTables_from cs create_tables calls create_tables-IsTables
