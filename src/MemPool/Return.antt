-- ===== src/MemPool/Return.antt =====
-- memory_return of source/mempool.c on a valid pool.
use native.Mathlib.Decide.{ℕ_discrete, dec_lt}
use opensrthub.Base.{
  ℕ, ◌+◌, ◌-◌, ◌≤◌, ◌<◌, ◌≡◌, ◌≢◌, refl, Bool, true, false, inl, inr, some, arith, get_elem?, set,
  Bool-cases, get_elem?-some, get_elem?_lt,
}
use opensrthub.MemPool.{Ptr, Slot, Pool, Outcome, done, reserved, return_block, give_back}
use opensrthub.MemPool.Valid.{IsValid, block_at, set_slot-IsValid, buffer, buffer-injective}

-- The pool after slot `i`, which was `s`, has been given back.
abbrev pub freed : Pool → ℕ → Slot → Pool
freed p i s = record p { refs = set p.refs i (record s { disponible = true }) }

-- The outcome of memory_return: 0, and the slot whose buffer `memory` is becomes available; or -1
-- where `memory` is no buffer that is out, and the pool is as it was.
pub data Returned (memory : Ptr) (p : Pool) : Outcome Bool → Type 0 where
  back :
      (i : ℕ) (s : Slot)
      → get_elem? p.refs i ≡ some s
      → s.disponible ≡ false
      → memory ≡ s.memory + reserved
      → Returned memory p (done true (freed p i s))
  rejected :
      ((i : ℕ) (s : Slot)
        → get_elem? p.refs i ≡ some s
        → s.disponible ≡ false
        → memory ≢ s.memory + reserved)
      → Returned memory p (done false p)

module _ (memory : Ptr) {p : Pool} (v : IsValid p) (real : reserved ≤ memory) where
  -- The word in front of a buffer is its slot's index.
  index_of_buffer :
      (i : ℕ) (s : Slot)
      → get_elem? p.refs i ≡ some s
      → memory ≡ s.memory + reserved
      → p.words (memory - reserved) ≡ i
  index_of_buffer i s e m =
      let there : memory - reserved ≡ block_at p i = omega (arith, v.laid_out i s e) in
      rw there (v.tagged i (omega (arith, get_elem?_lt p.refs i e, v.slots)))

  give_back-block : give_back memory p ≡ return_block memory p
  unfolding give_back
  give_back-block = ground (arith, v.sized)

  return_block-far : p.count ≤ p.words (memory - reserved) → return_block memory p ≡ done false p
  unfolding return_block
  return_block-far h = ground arith

  module _ (s : Slot) (e : get_elem? p.refs (p.words (memory - reserved)) ≡ some s)
      (near : p.words (memory - reserved) < p.count) where
    return_block-other : s.memory ≢ memory - reserved → return_block memory p ≡ done false p
    unfolding return_block
    return_block-other h = ground arith

    return_block-free : s.disponible ≡ true → return_block memory p ≡ done false p
    unfolding return_block
    return_block-free h = ground arith

    return_block-taken :
        s.memory ≡ memory - reserved
        → s.disponible ≡ false
        → return_block memory p ≡ done true (freed p (p.words (memory - reserved)) s)
    unfolding return_block
    return_block-taken h d = ground arith

    return_block-Returned : Returned memory p (return_block memory p)
    return_block-Returned = elim (Bool-cases s.disponible) [
      | inl free ↦
          rw (return_block-free free) (rejected λ i t f d m. let same = slot_of i t f m in cc)
      | inr busy ↦ elim (ℕ_discrete s.memory (memory - reserved)) [
        | yes h ↦ rw (return_block-taken h busy) (back _ s e busy (omega arith))
        | no h ↦
            rw (return_block-other h) (rejected λ i t f d m. h (ground (arith, slot_of i t f m)))
      ]
    ]
      where
        slot_of :
            (i : ℕ) (t : Slot) → get_elem? p.refs i ≡ some t → memory ≡ t.memory + reserved → t ≡ s
        slot_of i t f m = ground (arith, index_of_buffer i t f m)

  -- On a valid pool of fixed-size buffers and for every address from 4 up memory_return ends
  -- without an access outside the table: it succeeds exactly on the buffer of a taken slot and
  -- frees that slot, and it returns -1 and changes nothing on any other address.
  pub give_back-Returned : Returned memory p (give_back memory p)
  give_back-Returned = rw give_back-block (elim (dec_lt (p.words (memory - reserved)) p.count) [
    | yes near ↦
        let (s, e) = get_elem?-some p.refs (p.words (memory - reserved)) (omega (arith, v.slots)) in
        return_block-Returned s e near
    | no far ↦ rw (return_block-far (omega arith)) (
        rejected
          λ i t f d m. omega (arith, index_of_buffer i t f m, get_elem?_lt p.refs i f, v.slots))
  ])

-- A freed pool is valid.
pub freed-IsValid :
    {p : Pool}
    → IsValid p
    → (i : ℕ) (s : Slot) → get_elem? p.refs i ≡ some s
    → IsValid (freed p i s)
freed-IsValid v i s e = set_slot-IsValid v v.pos_in i s _ e refl

pub gave_slot :
    {p q : Pool} {r : Outcome Bool} {a : Ptr}
    → Returned a p r
    → r ≡ done true q
    → (i : ℕ) × (s : Slot) × (get_elem? p.refs i ≡ some s)
      × (s.disponible ≡ false)
      × (a ≡ buffer s)
      × (q ≡ freed p i s)
gave_slot (back i s e d m) h = (i, s, e, d, m, cc)
gave_slot (rejected no_buffer) h = absurd (cc)

pub refused_pool :
    {p q : Pool} {r : Outcome Bool} {a : Ptr} → Returned a p r → r ≡ done false q → q ≡ p
refused_pool (back i s e d m) h = absurd (cc)
refused_pool (rejected no_buffer) h = cc

-- A buffer that is out comes back to its own slot.
pub give_back-buffer :
    {p : Pool} (i : ℕ) (s : Slot)
    → IsValid p
    → get_elem? p.refs i ≡ some s
    → s.disponible ≡ false
    → give_back (buffer s) p ≡ done true (freed p i s)
give_back-buffer {p} i s v e d = own (give_back-Returned (buffer s) v (omega arith))
  where
    own : {r : Outcome Bool} → Returned (buffer s) p r → r ≡ done true (freed p i s)
    own (back j t f d' m) = let same = buffer-injective v i j s t e f m in ground arith
    own (rejected no_buffer) = absurd (no_buffer i s e d refl)

-- The buffer of a slot that is available is refused.
pub give_back-available :
    {p : Pool} (i : ℕ) (s : Slot)
    → IsValid p
    → get_elem? p.refs i ≡ some s
    → s.disponible ≡ true
    → give_back (buffer s) p ≡ done false p
give_back-available {p} i s v e d = own (give_back-Returned (buffer s) v (omega arith))
  where
    own : {r : Outcome Bool} → Returned (buffer s) p r → r ≡ done false p
    own (back j t f d' m) = let same = buffer-injective v i j s t e f m in absurd (grind arith)
    own (rejected no_buffer) = refl
