-- ===== src/MemPool/Take.antt =====
-- memory_take of source/mempool.c on a valid pool.
use native.Mathlib.Decide.{dec_lt}
use native.Mathlib.Nat.{add_assoc, mod-lt, mod-add-mod}
use opensrthub.Base.{
  ℕ, zero, suc, ◌+◌, ◌-◌, ◌%◌, ◌≤◌, ◌<◌, ◌≡◌, ◌≢◌, refl, sym, subst, ap, ◌∙◌, true, false, inl, inr,
  some, arith, get_elem?, set, Bool-cases, get_elem?-some, get_elem?_lt,
}
use opensrthub.MemPool.{
  Ptr, null, Slot, Pool, Outcome, done, reserved, next_pos, grab, take_loop, take,
}
use opensrthub.MemPool.Valid.{IsValid, block_at, set_slot-IsValid, buffer}

-- The pool after slot `i`, which was `s`, went to `owner`.
abbrev pub taken : Pool → ℕ → Slot → ℕ → Pool
taken p i s owner = record p {
  refs = set p.refs i (record s { disponible = false; owner = owner });
  pos = (i + 1) % p.count;
}

-- The outcome of memory_take: the buffer of a slot that was available, which is no more, or NULL
-- where every slot was taken, and then nothing has changed.
pub data Taken (owner : ℕ) (p : Pool) : Outcome Ptr → Type 0 where
  got :
      (i : ℕ) (s : Slot)
      → get_elem? p.refs i ≡ some s
      → s.disponible ≡ true
      → s.memory ≡ block_at p i
      → Taken owner p (done (s.memory + reserved) (taken p i s owner))
  full :
      ((i : ℕ) (s : Slot) → get_elem? p.refs i ≡ some s → s.disponible ≡ false)
      → Taken owner p (done null p)

-- After `k` rounds with no luck the position is `(pos + k) % count`.
abbrev at_round : Pool → ℕ → Pool
at_round p k = record p { pos = (p.pos + k) % p.count }

wrap_round : (pos i count : ℕ) → pos < count → i < pos → (pos + (i + count - pos)) % count ≡ i
wrap_round pos i count h l = grind arith

no_wrap : (pos i count : ℕ) → i < count → pos ≤ i → (pos + (i - pos)) % count ≡ i
no_wrap pos i count h l = grind arith

all_round : (pos k count : ℕ) → pos < count → k ≡ count → (pos + k) % count ≡ pos
all_round pos k count h e = grind arith

next_round : (pos k count : ℕ) → ((pos + k) % count + 1) % count ≡ (pos + (k + 1)) % count
next_round pos k count =
    mod-add-mod (pos + k) count 1 ∙ ap (λ (x : ℕ). x % count) (add_assoc pos k 1)

start_round : (pos count : ℕ) → pos < count → (pos + 0) % count ≡ pos
start_round pos count h = grind arith

module _ (n : ℕ) (fresh : Ptr) (owner : ℕ) (p : Pool) (s : Slot)
    (e : get_elem? p.refs p.pos ≡ some s) where
  take_loop-free : s.disponible ≡ true → take_loop (suc n) fresh owner p ≡ grab fresh owner s p
  unfolding take_loop
  take_loop-free d = rw (e, take_loop) (rw d)

  take_loop-busy :
      s.disponible ≡ false
      → take_loop (suc n) fresh owner p ≡ take_loop n fresh owner (record p { pos = next_pos p })
  unfolding take_loop
  take_loop-busy d = rw (e, take_loop) (rw d)

grab-sized :
    (fresh : Ptr) (owner : ℕ) (s : Slot) (p : Pool)
    → 0 < p.size
    → grab fresh owner s p
      ≡ done (s.memory + reserved) (record p {
        refs = set p.refs p.pos (record s { disponible = false; owner = owner });
        pos = next_pos p;
      })
unfolding grab
grab-sized fresh owner s p h = ground arith

take_loop-zero : (fresh : Ptr) (owner : ℕ) (p : Pool) → take_loop 0 fresh owner p ≡ done null p
unfolding take_loop
take_loop-zero fresh owner p = refl

module _ (fresh : Ptr) (owner : ℕ) {p : Pool} (v : IsValid p) where
  Missed : ℕ → Type 0
  Missed k =
      (j : ℕ) (s : Slot)
      → j < k
      → get_elem? p.refs ((p.pos + j) % p.count) ≡ some s
      → s.disponible ≡ false

  slot_at : (i : ℕ) → i < p.count → (s : Slot) × (get_elem? p.refs i ≡ some s)
  slot_at i h = get_elem?-some p.refs i (omega (arith, v.slots))

  -- Every index is met within `count` rounds.
  all-Missed :
      Missed p.count → (i : ℕ) (s : Slot) → get_elem? p.refs i ≡ some s → s.disponible ≡ false
  unfolding Missed
  all-Missed h i s e = elim (dec_lt i p.pos) [
    | yes l ↦
        h (i + p.count - p.pos) s (omega (arith, v.pos_in))
          (ap (get_elem? p.refs) (wrap_round p.pos i p.count v.pos_in l) ∙ e)
    | no g ↦
        h (i - p.pos) s (omega (arith, in_range i s e))
          (ap (get_elem? p.refs) (no_wrap p.pos i p.count (in_range i s e) (omega arith)) ∙ e)
  ]
    where
      in_range : (i : ℕ) (s : Slot) → get_elem? p.refs i ≡ some s → i < p.count
      in_range i s e = omega (arith, get_elem?_lt p.refs i e, v.slots)

  take_loop-Taken :
      (n k : ℕ)
      → k + n ≡ p.count
      → Missed k
      → Taken owner p (take_loop n fresh owner (at_round p k))
  unfolding Missed
  take_loop-Taken zero k e h =
      let all : k ≡ p.count = omega arith in
      rw (all_round p.pos k p.count v.pos_in all)
        (rw (take_loop-zero fresh owner p) (full (all-Missed (subst Missed all h))))
  take_loop-Taken (suc n) k e h =
      let (s, at_i) = slot_at i (mod-lt (p.pos + k) v.nonempty) in
      elim (Bool-cases s.disponible) [
        | inl free ↦
            rw
              (
                take_loop-free n fresh owner (at_round p k) s at_i free,
                grab-sized fresh owner s (at_round p k) v.sized,
              )
              (got i s at_i free (v.laid_out i s at_i))
        | inr busy ↦
            rw (take_loop-busy n fresh owner (at_round p k) s at_i busy, next_round p.pos k p.count)
              (take_loop-Taken n (k + 1) (omega arith) (missed s at_i busy))
      ]
    where
      i : ℕ
      i = (p.pos + k) % p.count

      missed : (s : Slot) → get_elem? p.refs i ≡ some s → s.disponible ≡ false → Missed (k + 1)
      missed s at_i busy j t lt at_j = elim (dec_lt j k) [
        | yes l ↦ h j t l at_j
        | no g ↦ let e : j ≡ k = omega arith in ground arith
      ]

  -- On a valid pool memory_take ends without a fault. It hands out the buffer of a slot that was
  -- available, marks the slot taken and moves on behind it; or it returns NULL, only where every
  -- slot is taken, and the pool is as it was.
  pub take-Taken : Taken owner p (take fresh owner p)
  unfolding take Missed
  take-Taken =
      rw (take_loop-start) (take_loop-Taken p.count 0 (omega arith) (λ j s l e. elim l [ ]))
    where
      take_loop-start :
          take_loop p.count fresh owner p ≡ take_loop p.count fresh owner (at_round p 0)
      take_loop-start =
          ap (λ x. take_loop p.count fresh owner (record p { pos = x }))
            (sym (start_round p.pos p.count v.pos_in))

-- The pool that a taken slot leaves is valid.
pub taken-IsValid :
    {p : Pool} (owner : ℕ)
    → IsValid p
    → (i : ℕ) (s : Slot) → get_elem? p.refs i ≡ some s
    → IsValid (taken p i s owner)
taken-IsValid owner v i s e = set_slot-IsValid v (mod-lt (i + 1) v.nonempty) i s _ e refl

pub took_slot :
    {owner : ℕ} {p q : Pool} {r : Outcome Ptr} {a : Ptr}
    → Taken owner p r
    → r ≡ done a q
    → a ≢ null
    → (i : ℕ) × (s : Slot) × (get_elem? p.refs i ≡ some s)
      × (s.disponible ≡ true)
      × (a ≡ buffer s)
      × (q ≡ taken p i s owner)
took_slot (got i s e f m) h ne = (i, s, e, f, cc, cc)
took_slot (full all) h ne = absurd (ne (cc))

pub missed_pool :
    {owner : ℕ} {p q : Pool} {r : Outcome Ptr} → Taken owner p r → r ≡ done null q → q ≡ p
missed_pool (got i s e f m) h = absurd (grind arith)
missed_pool (full all) h = cc
