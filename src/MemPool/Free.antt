-- ===== src/MemPool/Free.antt =====
-- Counting the available slots of a pool (memory_unused of source/mempool.c).
use opensrthub.Base.{
  ℕ, zero, suc, ◌+◌, ◌≤◌, ◌<◌, ◌≡◌, refl, true, false, some, List, [], ◌∷◌, arith, length,
  get_elem?, set,
}
use opensrthub.MemPool.{Slot, available, weight}

pub available-le-length : (refs : List Slot) → available refs ≤ length refs
unfolding available
available-le-length [] = omega arith
available-le-length (s ∷ rest) = ground (arith, available-le-length rest)

-- A write to a slot changes the count by the difference of the two slots.
pub available-set :
    (refs : List Slot) (i : ℕ) (s t : Slot)
    → get_elem? refs i ≡ some s
    → available (set refs i t) + weight s ≡ available refs + weight t
unfolding available
available-set [] i s t e = absurd (cc)
available-set (r ∷ rest) zero s t e = ground arith
available-set (r ∷ rest) (suc i) s t e = ground (arith, available-set rest i s t e)

-- Where nothing is available, every slot is taken.
pub available_zero :
    (refs : List Slot)
    → ((i : ℕ) (s : Slot) → get_elem? refs i ≡ some s → s.disponible ≡ false)
    → available refs ≡ 0
unfolding available
available_zero [] h = refl
available_zero (r ∷ rest) h =
    ground (arith, h 0 r refl, available_zero rest (λ i s e. h (suc i) s e))

pub available_pos :
    (refs : List Slot) (i : ℕ) (s : Slot)
    → get_elem? refs i ≡ some s
    → s.disponible ≡ true
    → 0 < available refs
unfolding available
available_pos [] i s e d = absurd (cc)
available_pos (r ∷ rest) zero s e d = ground arith
available_pos (r ∷ rest) (suc i) s e d = omega (arith, available_pos rest i s e d)
