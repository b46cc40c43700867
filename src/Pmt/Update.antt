-- ===== src/Pmt/Update.antt =====
-- What a call of decode_pmt_table in source/tsdecode.c does to the tables.
use native.Mathlib.Decide.{ℕ_discrete, dec_lt}
use opensrthub.Base.{
  ℕ, suc, ◌+◌, ◌≤◌, ◌<◌, ◌≡◌, ◌≢◌, refl, sym, subst, ap, ◌∙◌, Bool, false, Option, none, some, List,
  arith, length, get_elem?, get_or, set, length-set, get_elem?-set_self, get_elem?-set_ne, inl, inr,
  ◌⊎◌, get_elem?_lt, get_elem?-some, get_elem?-eq-get_or, ltb, if_intro,
}
use opensrthub.Pmt.Table.{Pmt, Tables, max_pmt_pids, zeroed_pmt}
use opensrthub.Pmt.Decode.{Slot, found, free, full, find_slot, decode_at, decode_pmt_table}
use opensrthub.Pmt.StreamLoop.{IsValid, Written}
use opensrthub.Pmt.Entry.{program_at, decode_entry-ok}
use opensrthub.Pmt.Slots.{IsTables, Passed, Looked, find_slot-Looked}

-- One entry is written: the only one of its PID, in front of `entries`; the others are kept.
pub record Stored (pid program : ℕ) (t u : Tables) : Type 0 where
  pub slot : ℕ
  pub entry : Pmt
  pub at_slot : get_elem? u.master_pmt_table slot ≡ some entry
  pub written : Written pid program entry
  pub others : (j : ℕ) → slot ≢ j → get_elem? u.master_pmt_table j ≡ get_elem? t.master_pmt_table j
  pub within : slot < u.pmt_table_entries
  pub tables : IsTables u

-- No entry is free and none has the PID: nothing changes.
pub record Refused (pid : ℕ) (t u : Tables) : Type 0 where
  pub unchanged : u ≡ t
  pub unknown :
      (j : ℕ) (a : Pmt)
      → get_elem? t.master_pmt_table j ≡ some a
      → (a.pmt_pid ≢ pid) × (a.pmt_pid ≢ 0)

module _ (m : List ℕ) (size pid : ℕ) (t : Tables) (is : IsTables t) (real : pid ≢ 0) where
  -- The entry `i` is the PID's, or the first free one; no other has the PID.
  stored-IsTables :
      (i entries : ℕ) (q : Pmt)
      → i < max_pmt_pids
      → i < entries
      → t.pmt_table_entries ≤ entries
      → ((j : ℕ) → i ≢ j → j < entries → j < t.pmt_table_entries)
      → ((j : ℕ) (a : Pmt) → i ≢ j → get_elem? t.master_pmt_table j ≡ some a → a.pmt_pid ≢ pid)
      → q.pmt_pid ≡ pid
      → IsValid q
      → IsTables
          (record { pmt_table_entries = entries; master_pmt_table = set t.master_pmt_table i q })
  stored-IsTables i entries q room lt grown old other at v = record {
    table_size = length-set t.master_pmt_table i q ∙ is.table_size;
    valid = λ j a e. elim (ℕ_discrete i j) [
      | yes same ↦ subst IsValid (the_entry j a same e) v
      | no ne ↦ is.valid j a (kept j a ne e)
    ];
    filled = λ j a e below. elim (ℕ_discrete i j) [
      | yes same ↦ λ z. real (sym at ∙ ap (λ (q : Pmt). q.pmt_pid) (the_entry j a same e) ∙ z)
      | no ne ↦ is.filled j a (kept j a ne e) (old j ne below)
    ];
    empty = λ j a e above. is.empty j a (kept j a (λ same. absurd (omega arith)) e) (omega arith);
    distinct = λ j k a b e f same nz. elim (ℕ_discrete i j) [
      | yes ij ↦ elim (ℕ_discrete i k) [
        | yes ik ↦ sym ij ∙ ik
        | no ik ↦ absurd (
            other k b ik (kept k b ik f)
              (sym same ∙ sym (ap (λ (q : Pmt). q.pmt_pid) (the_entry j a ij e)) ∙ at))
      ]
      | no ij ↦ elim (ℕ_discrete i k) [
        | yes ik ↦ absurd (
            other j a ij (kept j a ij e)
              (same ∙ sym (ap (λ (q : Pmt). q.pmt_pid) (the_entry k b ik f)) ∙ at))
        | no ik ↦ is.distinct j k a b (kept j a ij e) (kept k b ik f) same nz
      ]
    ];
  }
    where
      kept :
          (j : ℕ) (a : Pmt)
          → i ≢ j
          → get_elem? (set t.master_pmt_table i q) j ≡ some a
          → get_elem? t.master_pmt_table j ≡ some a
      kept j a ne e = sym (get_elem?-set_ne t.master_pmt_table i j q ne) ∙ e

      the_entry :
          (j : ℕ) (a : Pmt) → i ≡ j → get_elem? (set t.master_pmt_table i q) j ≡ some a → q ≡ a
      the_entry j a same e =
          let self : get_elem? (set t.master_pmt_table i q) i ≡ some q =
            get_elem?-set_self t.master_pmt_table i q (omega (arith, is.table_size)) in
          cc

  module _ (room : size + 4 ≤ length m) (header : 13 ≤ length m) where
    -- The call stores its entry or refuses.
    Called : Option (Bool × Tables) → Type 0
    Called none = ⊥
    Called (some (r, u)) = Stored pid (program_at m) t u ⊎ ((r ≡ false) × Refused pid t u)

    decode_at-Called :
        (i entries : ℕ) (old : Pmt)
        → get_elem? t.master_pmt_table i ≡ some old
        → i < entries
        → t.pmt_table_entries ≤ entries
        → ((j : ℕ) → i ≢ j → j < entries → j < t.pmt_table_entries)
        → ((j : ℕ) (a : Pmt) → i ≢ j → get_elem? t.master_pmt_table j ≡ some a → a.pmt_pid ≢ pid)
        → Called (decode_at m size pid i entries t.master_pmt_table)
    unfolding decode_at Called
    decode_at-Called i entries old at lt grown kept other =
        let (r, q, e, w) =
          decode_entry-ok m size pid room (get_or t.master_pmt_table i zeroed_pmt)
            (is.valid i _ (get_elem?-eq-get_or t.master_pmt_table i zeroed_pmt inside)) in
        subst
          (λ (o : Option (Bool × Pmt)). Called (elim o [
            | none ↦ none
            | some (r, q) ↦ some (
              r,
              record { pmt_table_entries = entries; master_pmt_table = set t.master_pmt_table i q },
            )
          ]))
          (sym e)
          (inl (record {
            slot = i;
            entry = q;
            at_slot = get_elem?-set_self t.master_pmt_table i q inside;
            written = w;
            others = λ j ne. get_elem?-set_ne t.master_pmt_table i j q ne;
            within = lt;
            tables =
                stored-IsTables i entries q (omega (arith, is.table_size, inside)) lt grown kept
                  other w.pid_kept w.valid;
          }))
      where
        inside : i < length t.master_pmt_table
        inside = get_elem?_lt t.master_pmt_table i at

    -- Where the PID has an entry, it lies in front of `entries`.
    found_below :
        (i : ℕ) (q : Pmt)
        → get_elem? t.master_pmt_table i ≡ some q
        → q.pmt_pid ≡ pid
        → i < t.pmt_table_entries
    found_below i q at same = elim (dec_lt i t.pmt_table_entries) [
      | yes lt ↦ lt
      | no ge ↦ absurd (real (sym same ∙ (is.empty i q at (omega arith)).0))
    ]

    -- The first free entry is the one at `entries`.
    first_free :
        (i : ℕ) (q : Pmt)
        → get_elem? t.master_pmt_table i ≡ some q
        → q.pmt_pid ≡ 0
        → Passed pid t.master_pmt_table i
        → t.pmt_table_entries ≡ i
    unfolding Passed
    first_free i q at z passed = elim (dec_lt i t.pmt_table_entries) [
      | yes lt ↦ absurd (is.filled i q at lt z)
      | no ge ↦ elim (dec_lt t.pmt_table_entries i) [
        | yes lt ↦
            let (a, e) =
              get_elem?-some t.master_pmt_table t.pmt_table_entries
                (omega (arith, get_elem?_lt t.master_pmt_table i at)) in
            absurd ((passed t.pmt_table_entries a lt e).1 (is.empty _ a e (omega arith)).0)
        | no le ↦ omega arith
      ]
    ]

    beyond_free :
        (i : ℕ)
        → Passed pid t.master_pmt_table i
        → t.pmt_table_entries ≡ i
        → (j : ℕ) (a : Pmt) → i ≢ j
        → get_elem? t.master_pmt_table j ≡ some a
        → a.pmt_pid ≢ pid
    unfolding Passed
    beyond_free i passed e j a ne at = elim (dec_lt j i) [
      | yes lt ↦ (passed j a lt at).0
      | no ge ↦ λ same. real (sym same ∙ (is.empty j a at (omega arith)).0)
    ]

    Passed-Refused : Passed pid t.master_pmt_table (length t.master_pmt_table) → Refused pid t t
    unfolding Passed
    Passed-Refused passed = record {
      unchanged = refl;
      unknown = λ j a e. passed j a (get_elem?_lt t.master_pmt_table j e) e;
    }

    Looked-Called :
        (s : Slot)
        → Looked pid 0 t.master_pmt_table s
        → Called (elim s [
          | found i ↦ decode_at m size pid i t.pmt_table_entries t.master_pmt_table
          | free i ↦ decode_at m size pid i (suc t.pmt_table_entries) t.master_pmt_table
          | full ↦ some (false, t)
        ])
    unfolding Looked Called
    Looked-Called (found i) (k, q, e, at, same) =
        decode_at-Called i t.pmt_table_entries q at_i (found_below i q at_i same) (omega arith)
          (λ j ne lt. lt)
          (λ j a ne g pid_a.
            ne (is.distinct i j q a at_i g (same ∙ sym pid_a) (λ z. real (sym same ∙ z))))
      where
        at_i : get_elem? t.master_pmt_table i ≡ some q
        at_i = subst (λ x. get_elem? t.master_pmt_table x ≡ some q) {x = k} {y = i} (omega arith) at
    Looked-Called (free i) (k, q, e, at, z, passed) =
        decode_at-Called i (suc t.pmt_table_entries) q at_i (omega (arith, last)) (omega arith)
          (λ j ne lt. omega (arith, last)) (beyond_free i passed_i last)
      where
        at_i : get_elem? t.master_pmt_table i ≡ some q
        at_i = subst (λ x. get_elem? t.master_pmt_table x ≡ some q) {x = k} {y = i} (omega arith) at

        passed_i : Passed pid t.master_pmt_table i
        passed_i = subst (Passed pid t.master_pmt_table) {x = k} {y = i} (omega arith) passed

        last : t.pmt_table_entries ≡ i
        last = first_free i q at_i z passed_i
    Looked-Called full passed = inr (refl, Passed-Refused passed)

    call-Called : Called (decode_pmt_table m size pid t)
    unfolding decode_pmt_table Called
    call-Called =
        if_intro Called (ltb (length m) 13) (λ e. absurd (ground arith))
          λ e.
            Looked-Called (find_slot pid 0 t.master_pmt_table)
              (find_slot-Looked pid 0 t.master_pmt_table)

    -- On valid tables, for a PID that is not 0 and a table in a buffer of 13 bytes at least that
    -- has room for four bytes behind the table, decode_pmt_table ends, reads only inside the
    -- buffer and writes only inside the arrays. It stores one valid entry, of this PID and
    -- program, in front of the counted ones' end, keeps the other entries, and leaves valid
    -- tables; or it returns -1 and changes nothing, and then no entry is free and none has the
    -- PID.
    pub decode_pmt_table-ok :
        (r : Bool) × (u : Tables) × (decode_pmt_table m size pid t ≡ some (r, u))
        × (Stored pid (program_at m) t u ⊎ ((r ≡ false) × Refused pid t u))
    unfolding Called
    decode_pmt_table-ok = called _ call-Called
      where
        called :
            (o : Option (Bool × Tables))
            → Called o
            → (r : Bool) × (u : Tables) × (o ≡ some (r, u))
              × (Stored pid (program_at m) t u ⊎ ((r ≡ false) × Refused pid t u))
        called none c = absurd c
        called (some (r, u)) c = (r, u, refl, c)
