-- ===== src/Pmt/Slots.antt =====
-- The lookup of decode_pmt_table in source/tsdecode.c, and the invariant of its tables.
use opensrthub.Base.{
  ℕ, zero, suc, ◌+◌, ◌≤◌, ◌<◌, ◌≡◌, ◌≢◌, refl, sym, subst, ap, some, List, [], ◌∷◌, arith, length,
  get_elem?, replicate, length-replicate, ◌==◌, if_intro, ==_iff,
}
use opensrthub.Pmt.Table.{Pmt, Tables, max_pmt_pids, zeroed_pmt, create_tables}
use opensrthub.Pmt.Decode.{Slot, found, free, full, find_slot}
use opensrthub.Pmt.Numbering.{range, audio_indices, cue_streams}
use opensrthub.Pmt.StreamLoop.{IsValid}

-- The tables hold their entries at the front, with distinct PIDs, each valid; behind them lie
-- entries of PID 0 without streams.
pub record IsTables (t : Tables) : Type 0 where
  pub table_size : length t.master_pmt_table ≡ max_pmt_pids
  pub valid : (i : ℕ) (q : Pmt) → get_elem? t.master_pmt_table i ≡ some q → IsValid q
  pub filled :
      (i : ℕ) (q : Pmt)
      → get_elem? t.master_pmt_table i ≡ some q
      → i < t.pmt_table_entries
      → q.pmt_pid ≢ 0
  pub empty :
      (i : ℕ) (q : Pmt)
      → get_elem? t.master_pmt_table i ≡ some q
      → t.pmt_table_entries ≤ i
      → (q.pmt_pid ≡ 0) × (q.stream_count ≡ 0)
  pub distinct :
      (i j : ℕ) (a b : Pmt)
      → get_elem? t.master_pmt_table i ≡ some a
      → get_elem? t.master_pmt_table j ≡ some b
      → a.pmt_pid ≡ b.pmt_pid
      → a.pmt_pid ≢ 0
      → i ≡ j

get_elem?-replicate :
    {A : Type 0} (n i : ℕ) (a : A) {b : A} → get_elem? (replicate n a) i ≡ some b → b ≡ a
get_elem?-replicate zero i a e = absurd (cc)
get_elem?-replicate (suc n) zero a e = cc
get_elem?-replicate (suc n) (suc i) a e = get_elem?-replicate n i a e

pub zeroed_pmt-IsValid : IsValid zeroed_pmt
unfolding audio_indices cue_streams range
zeroed_pmt-IsValid = record {
  descriptor_room = refl;
  stream_room = refl;
  bounded = omega arith;
  indices = refl;
  cue_count = refl;
  apart = tt;
}

-- The entries in front of `k` have other PIDs than this one and 0.
unfoldable pub Passed : ℕ → List Pmt → ℕ → Type 0
Passed pid ts k =
    (j : ℕ) (a : Pmt) → j < k → get_elem? ts j ≡ some a → (a.pmt_pid ≢ pid) × (a.pmt_pid ≢ 0)

unfoldable pub Looked : ℕ → ℕ → List Pmt → Slot → Type 0
Looked pid base ts (found i) =
    (k : ℕ) × (q : Pmt) × (i ≡ base + k) × (get_elem? ts k ≡ some q) × (q.pmt_pid ≡ pid)
Looked pid base ts (free i) =
    (k : ℕ) × (q : Pmt) × (i ≡ base + k)
    × (get_elem? ts k ≡ some q)
    × (q.pmt_pid ≡ 0)
    × Passed pid ts k
Looked pid base ts full = Passed pid ts (length ts)

Passed-next :
    (pid : ℕ) (t : Pmt) (ts : List Pmt) (k : ℕ)
    → t.pmt_pid ≢ pid
    → t.pmt_pid ≢ 0
    → Passed pid ts k
    → Passed pid (t ∷ ts) (suc k)
unfolding Passed
Passed-next pid t ts k a b h zero q lt e =
    subst (λ (x : Pmt). (x.pmt_pid ≢ pid) × (x.pmt_pid ≢ 0)) {x = t} {y = q} (cc) (a, b)
Passed-next pid t ts k a b h (suc j) q lt e = h j q (omega arith) e

Looked-next :
    (pid base : ℕ) (t : Pmt) (ts : List Pmt) (s : Slot)
    → t.pmt_pid ≢ pid
    → t.pmt_pid ≢ 0
    → Looked pid (suc base) ts s
    → Looked pid base (t ∷ ts) s
unfolding Looked
Looked-next pid base t ts (found i) a b (k, q, e, g, h) = (suc k, q, omega arith, g, h)
Looked-next pid base t ts (free i) a b (k, q, e, g, h, p) =
    (suc k, q, omega arith, g, h, Passed-next pid t ts k a b p)
Looked-next pid base t ts full a b p = Passed-next pid t ts (length ts) a b p

pub find_slot-Looked : (pid base : ℕ) (ts : List Pmt) → Looked pid base ts (find_slot pid base ts)
unfolding find_slot Looked Passed
find_slot-Looked pid base [] = λ j a lt e. elim lt [ ]
find_slot-Looked pid base (t ∷ ts) =
    if_intro (Looked pid base (t ∷ ts)) (t.pmt_pid == pid)
      (λ e. (0, t, omega arith, refl, (==_iff _ _).0 e))
      λ other.
        if_intro (Looked pid base (t ∷ ts)) (t.pmt_pid == 0)
          (λ e. (0, t, omega arith, refl, (==_iff _ _).0 e, λ j a lt e. elim lt [ ]))
          λ used.
            Looked-next pid base t ts (find_slot pid (suc base) ts) (λ e. absurd (ground arith))
              (λ e. absurd (ground arith)) (find_slot-Looked pid (suc base) ts)

-- Memory fresh from create_transport_data.
pub create_tables-IsTables : IsTables create_tables
unfolding create_tables
create_tables-IsTables = record {
  table_size = length-replicate 256 zeroed_pmt;
  valid = λ i q e. subst IsValid (sym (get_elem?-replicate 256 i zeroed_pmt e)) zeroed_pmt-IsValid;
  filled = λ i q e lt. elim lt [ ];
  empty = λ i q e le.
      subst (λ (q : Pmt). (q.pmt_pid ≡ 0) × (q.stream_count ≡ 0))
        (sym (get_elem?-replicate 256 i zeroed_pmt e)) (refl, refl);
  distinct = λ i j a b e f same real.
      absurd (real (ap (λ (q : Pmt). q.pmt_pid) (get_elem?-replicate 256 i zeroed_pmt e)));
}
