-- ===== src/Demux/Store.antt =====
-- The tables under decode_pmt_table of source/tsdecode.c for any PID, 0 included: a program
-- association section may name it as the PID of a program.
use native.Mathlib.Decide.{ℕ_discrete, dec_lt}
use opensrthub.Base.{
  ℕ, suc, ◌+◌, ◌≤◌, ◌<◌, ◌≡◌, ◌≢◌, refl, sym, subst, ◌∙◌, Bool, Option, none, some, List, arith,
  length, get_elem?, get_or, set, length-set, get_elem?-set_self, get_elem?-set_ne, get_elem?_lt,
  get_elem?-eq-get_or, ltb, if_intro, [], ◌∷◌, ◌==◌,
}
use opensrthub.Pmt.Table.{Pmt, Tables, max_pmt_pids, zeroed_pmt}
use opensrthub.Pmt.Decode.{Slot, found, free, full, find_slot, decode_at, decode_pmt_table}
use opensrthub.Pmt.StreamLoop.{IsValid}
use opensrthub.Pmt.Entry.{decode_entry-ok}
use opensrthub.Pmt.Slots.{Passed, Looked, find_slot-Looked}

-- The table has its size, its entries are valid, and the counted ones have a PID.
pub record IsStore (t : Tables) : Type 0 where
  pub table_size : length t.master_pmt_table ≡ max_pmt_pids
  pub counted : t.pmt_table_entries ≤ max_pmt_pids
  pub valid : (i : ℕ) (q : Pmt) → get_elem? t.master_pmt_table i ≡ some q → IsValid q
  pub filled :
      (i : ℕ) (q : Pmt)
      → get_elem? t.master_pmt_table i ≡ some q
      → i < t.pmt_table_entries
      → q.pmt_pid ≢ 0

module _ (t : Tables) (is : IsStore t) where
  pub entry-IsValid : (i : ℕ) → i < max_pmt_pids → IsValid (get_or t.master_pmt_table i zeroed_pmt)
  entry-IsValid i lt =
      is.valid i _ (get_elem?-eq-get_or _ i zeroed_pmt (omega (arith, is.table_size)))

  -- Writing a valid entry, where those in front of `entries` have a PID.
  pub set-IsStore :
      (i entries : ℕ) (q : Pmt)
      → i < max_pmt_pids
      → entries ≤ max_pmt_pids
      → IsValid q
      → (i < entries → q.pmt_pid ≢ 0)
      → ((j : ℕ) (a : Pmt)
          → i ≢ j
          → get_elem? t.master_pmt_table j ≡ some a
          → j < entries
          → a.pmt_pid ≢ 0)
      → IsStore
          (record { pmt_table_entries = entries; master_pmt_table = set t.master_pmt_table i q })
  set-IsStore i entries q lt le v nz old = record {
    table_size = length-set t.master_pmt_table i q ∙ is.table_size;
    counted = le;
    valid = λ j a e. elim (ℕ_discrete i j) [
      | yes same ↦ subst IsValid (the_entry j a same e) v
      | no ne ↦ is.valid j a (kept j a ne e)
    ];
    filled = λ j a e below. elim (ℕ_discrete i j) [
      | yes same ↦
          subst (λ (a : Pmt). a.pmt_pid ≢ 0) (the_entry j a same e)
            (nz (omega (arith, same, below)))
      | no ne ↦ old j a ne (kept j a ne e) below
    ];
  }
    where
      kept :
          (j : ℕ) (a : Pmt)
          → i ≢ j
          → get_elem? (set t.master_pmt_table i q) j ≡ some a
          → get_elem? t.master_pmt_table j ≡ some a
      kept j a ne e = sym (get_elem?-set_ne t.master_pmt_table i j q ne) ∙ e

      the_entry :
          (j : ℕ) (a : Pmt) → i ≡ j → get_elem? (set t.master_pmt_table i q) j ≡ some a → q ≡ a
      the_entry j a same e =
          let self : get_elem? (set t.master_pmt_table i q) i ≡ some q =
            get_elem?-set_self t.master_pmt_table i q (omega (arith, is.table_size)) in
          cc

module _ (m : List ℕ) (size pid : ℕ) (room : size + 4 ≤ length m) (header : 13 ≤ length m) where
  -- A call ends, and leaves such tables.
  Stays : Option (Bool × Tables) → Type 0
  Stays none = ⊥
  Stays (some (r, u)) = IsStore u

  -- A free entry is found for another PID than 0 only.
  Real : Slot → Type 0
  Real (found i) = Unit
  Real (free i) = pid ≢ 0
  Real full = Unit

  find_slot-Real : (base : ℕ) (ts : List Pmt) → Real (find_slot pid base ts)
  unfolding find_slot Real
  find_slot-Real base [] = tt
  find_slot-Real base (q ∷ ts) =
      if_intro Real (q.pmt_pid == pid) (λ e. tt)
        λ other.
          if_intro Real (q.pmt_pid == 0) (λ e z. absurd (ground arith))
            λ used. find_slot-Real (suc base) ts

  module _ (t : Tables) (is : IsStore t) where
    decode_at-Stays :
        (i entries : ℕ)
        → i < max_pmt_pids
        → entries ≤ max_pmt_pids
        → (i < entries → pid ≢ 0)
        → ((j : ℕ) (a : Pmt)
            → i ≢ j
            → get_elem? t.master_pmt_table j ≡ some a
            → j < entries
            → a.pmt_pid ≢ 0)
        → Stays (decode_at m size pid i entries t.master_pmt_table)
    unfolding decode_at Stays
    decode_at-Stays i entries lt le nz old =
        let (r, q, e, w) =
          decode_entry-ok m size pid room (get_or t.master_pmt_table i zeroed_pmt)
            (entry-IsValid t is i lt) in
        subst
          (λ (o : Option (Bool × Pmt)). Stays (elim o [
            | none ↦ none
            | some (r, q) ↦ some (
              r,
              record { pmt_table_entries = entries; master_pmt_table = set t.master_pmt_table i q },
            )
          ]))
          (sym e)
          (set-IsStore t is i entries q lt le w.valid (λ below z. nz below (sym w.pid_kept ∙ z))
            old)

    Looked-Stays :
        (s : Slot)
        → Looked pid 0 t.master_pmt_table s
        → Real s
        → Stays (elim s [
          | found i ↦ decode_at m size pid i t.pmt_table_entries t.master_pmt_table
          | free i ↦ decode_at m size pid i (suc t.pmt_table_entries) t.master_pmt_table
          | full ↦ some (Bool.false, t)
        ])
    unfolding Looked Stays Passed Real
    Looked-Stays (found i) (k, q, e, at, same) u =
        decode_at-Stays i t.pmt_table_entries (omega (arith, is.table_size, get_elem?_lt _ k at))
          is.counted (λ below z. is.filled k q at (omega arith) (same ∙ z))
          (λ j a ne e lt. is.filled j a e lt)
    Looked-Stays (free i) (k, q, e, at, z, passed) real =
        decode_at-Stays i (suc t.pmt_table_entries) inside (omega (arith, inside, behind))
          (λ below. real) (λ j a ne at_j lt. (passed j a (omega (arith, behind)) at_j).1)
      where
        inside : i < max_pmt_pids
        inside = omega (arith, is.table_size, get_elem?_lt _ k at)

        behind : t.pmt_table_entries ≤ k
        behind = elim (dec_lt k t.pmt_table_entries) [
          | yes lt ↦ absurd (is.filled k q at lt z)
          | no ge ↦ omega arith
        ]
    Looked-Stays full passed u = is

    decode_pmt_table-Stays : Stays (decode_pmt_table m size pid t)
    unfolding decode_pmt_table Stays
    decode_pmt_table-Stays =
        if_intro Stays (ltb (length m) 13) (λ e. absurd (ground arith))
          λ e.
            Looked-Stays (find_slot pid 0 t.master_pmt_table)
              (find_slot-Looked pid 0 t.master_pmt_table) (find_slot-Real 0 t.master_pmt_table)

    pub decode_pmt_table-IsStore :
        (r : Bool) × (u : Tables) × (decode_pmt_table m size pid t ≡ some (r, u)) × IsStore u
    unfolding Stays
    decode_pmt_table-IsStore = called _ decode_pmt_table-Stays
      where
        called :
            (o : Option (Bool × Tables))
            → Stays o
            → (r : Bool) × (u : Tables) × (o ≡ some (r, u)) × IsStore u
        called none c = absurd c
        called (some (r, u)) c = (r, u, refl, c)
