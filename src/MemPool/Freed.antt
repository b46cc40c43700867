-- ===== src/MemPool/Freed.antt =====
-- What memory_destroy of source/mempool.c frees.
use opensrthub.Base.{
  ℕ, zero, suc, ◌+◌, ◌≡◌, ◌≢◌, refl, List, [], ◌∷◌, arith, length, occurrences, occurrences-append,
  one_if, ◌==◌,
}
use opensrthub.MemPool.{Ptr, null, Slot, Pool, freed_address, free_slots, memory_destroy}
use opensrthub.MemPool.Valid.{IsValid}

free_slots-sized : (size n : ℕ) (refs : List Slot) → size ≢ 0 → free_slots size n refs ≡ []
unfolding free_slots
free_slots-sized size zero refs h = refl
free_slots-sized size (suc n) [] h = refl
free_slots-sized size (suc n) (s ∷ refs) h = ground (arith, free_slots-sized size n refs h)

-- memory_destroy of a valid pool of fixed-size buffers frees its block, and no buffer by itself.
memory_destroy-sized : (p : Pool) → IsValid p → p.block ≢ null → memory_destroy p ≡ p.block ∷ []
unfolding memory_destroy freed_address
memory_destroy-sized p v real =
    ground (arith, free_slots-sized p.size p.count p.refs (omega (arith, v.sized)))

-- The slots with an allocation of their own at the address.
unfoldable slots_at : Ptr → List Slot → ℕ
slots_at a [] = 0
slots_at a (s ∷ refs) = one_if (s.memory == a) + slots_at a refs

occurrences-freed_address :
    (a b : Ptr) → a ≢ null → occurrences a (freed_address b) ≡ one_if (b == a)
unfolding occurrences freed_address
occurrences-freed_address a b real = ground arith

free_slots-bare :
    (a : Ptr) (refs : List Slot)
    → a ≢ null
    → occurrences a (free_slots 0 (length refs) refs) ≡ slots_at a refs
unfolding free_slots slots_at occurrences
free_slots-bare a [] real = refl
free_slots-bare a (s ∷ refs) real = omega (
  arith,
  occurrences-append a (freed_address s.memory) (free_slots 0 (length refs) refs),
  occurrences-freed_address a s.memory real,
  free_slots-bare a refs real,
)

-- memory_destroy of a pool of size 0 frees each allocation as often as a slot has it.
memory_destroy-bare :
    (p : Pool) (a : Ptr)
    → p.size ≡ 0
    → p.block ≡ null
    → length p.refs ≡ p.count
    → a ≢ null
    → occurrences a (memory_destroy p) ≡ slots_at a p.refs
unfolding memory_destroy freed_address occurrences
memory_destroy-bare p a bare no_block whole real =
    let loops : free_slots p.size p.count p.refs ≡ free_slots 0 (length p.refs) p.refs = cc in
    rw (no_block, loops)
      (omega (
        arith,
        occurrences-append a (free_slots 0 (length p.refs) p.refs) [],
        free_slots-bare a p.refs real,
      ))
