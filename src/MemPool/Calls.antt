-- ===== src/MemPool/Calls.antt =====
-- What one call and the next do together (memory_take, memory_return and memory_unused of
-- source/mempool.c).
use opensrthub.Base.{
  ℕ, ◌+◌, ◌<◌, ◌≡◌, ◌≢◌, refl, true, false, arith, get_elem?_lt, get_elem?-set_self,
}
use opensrthub.MemPool.{Ptr, null, Slot, Pool, Outcome, done, reserved, take, give_back, available}
use opensrthub.MemPool.Free.{available-set, available_zero, available_pos}
use opensrthub.MemPool.Valid.{IsValid}
use opensrthub.MemPool.Take.{Taken, got, full, taken, take-Taken, taken-IsValid, took_slot}
use opensrthub.MemPool.Return.{freed, freed, freed-IsValid, give_back-buffer, give_back-available}

-- A successful take, and what it leaves.
pub record Handed (owner : ℕ) (p : Pool) (a : Ptr) (q : Pool) (r : Outcome Ptr) : Type 0 where
  pub result : r ≡ done a q
  pub real : a ≢ null
  pub valid : IsValid q
  pub one_less : available q.refs + 1 ≡ available p.refs

handed :
    {owner : ℕ} {p : Pool} {r : Outcome Ptr}
    → IsValid p
    → Taken owner p r
    → 0 < available p.refs
    → (a : Ptr) × (q : Pool) × Handed owner p a q r
handed {owner} {p} v (got i s e f m) h = (
  s.memory + reserved,
  taken p i s owner,
  record {
    result = refl;
    real = omega arith;
    valid = taken-IsValid owner v i s e;
    one_less =
        ground (arith, available-set p.refs i s (record s { disponible = false; owner = owner }) e);
  },
)
handed v (full all) h = absurd (omega (arith, available_zero _ all))

empty_handed :
    {owner : ℕ} {p : Pool} {r : Outcome Ptr}
    → Taken owner p r
    → available p.refs ≡ 0
    → r ≡ done null p
empty_handed (got i s e f m) h = absurd (omega (arith, available_pos _ i s e f))
empty_handed (full all) h = refl

module _ (fresh : Ptr) (owner : ℕ) {p : Pool} (v : IsValid p) where
  -- On a valid pool of fixed-size buffers memory_take returns NULL and changes nothing where the
  -- unused count is 0; where it is positive it yields a buffer that is not NULL, leaves a valid
  -- pool, and lowers the count by one.
  pub take_unused :
      (available p.refs ≡ 0 → take fresh owner p ≡ done null p)
      × (0 < available p.refs → (a : Ptr) × (q : Pool) × Handed owner p a q (take fresh owner p))
  take_unused = (empty_handed (take-Taken fresh owner v), handed v (take-Taken fresh owner v))

-- After a successful take from a valid pool of fixed-size buffers the buffer can be given back
-- once: memory_return accepts it, which restores the unused count, and refuses it the second time
-- and changes nothing then.
pub give_back-take :
    (fresh : Ptr) (owner : ℕ) {p q : Pool} {a : Ptr}
    → IsValid p
    → take fresh owner p ≡ done a q
    → a ≢ null
    → (r : Pool) × (give_back a q ≡ done true r)
      × (available r.refs ≡ available p.refs)
      × (give_back a r ≡ done false r)
give_back-take fresh owner {p} v h ne =
    let (i, s, e, f, m, n) = took_slot (take-Taken fresh owner v) h ne in
    let out : Slot = record s { disponible = false; owner = owner } in
    let p' : Pool = taken p i s owner in
    let at_out = get_elem?-set_self p.refs i out (get_elem?_lt p.refs i e) in
    let v' = taken-IsValid owner v i s e in
    (
      freed p' i out,
      rw (n, m) (give_back-buffer i out v' at_out refl),
      ground (
        arith,
        available-set p.refs i s out e,
        available-set p'.refs i out (record out { disponible = true }) at_out,
      ),
      rw m (
          give_back-available i (record out { disponible = true }) (freed-IsValid v' i out at_out)
            (get_elem?-set_self p'.refs i (record out { disponible = true })
              (get_elem?_lt p'.refs i at_out))
            refl),
    )
