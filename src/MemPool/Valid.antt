-- ===== src/MemPool/Valid.antt =====
-- The invariant of a pool of fixed-size buffers (source/mempool.c), and what establishes it.
use native.Mathlib.Decide.{ℕ_discrete, dec_lt}
use opensrthub.Base.{
  ℕ, zero, suc, true, List, [], ◌∷◌, ◌+◌, ◌*◌, ◌^◌, ◌<◌, ◌≡◌, ◌≢◌, refl, some, arith, length,
  get_elem?, set, length-set, get_elem?-set_self, get_elem?-set_ne, get_elem?_lt, sym, ◌∙◌,
}
use opensrthub.MemPool.{
  Ptr, null, reserved, Slot, Pool, done, Mallocs, stride, poke, tag_blocks, fresh_slots,
  reset_slots, create, reset, available,
}

-- The address of block `i`.
abbrev pub block_at : Pool → ℕ → Ptr
block_at p i = p.block + i * stride p.size

pub record IsValid (p : Pool) : Type 0 where
  pub nonempty : 0 < p.count
  pub sized : 0 < p.size
  pub slots : length p.refs ≡ p.count
  pub pos_in : p.pos < p.count
  pub laid_out : (i : ℕ) (s : Slot) → get_elem? p.refs i ≡ some s → s.memory ≡ block_at p i
  pub tagged : (i : ℕ) → i < p.count → p.words (block_at p i) ≡ i

length-fresh_slots : (size n : ℕ) (a : Ptr) → length (fresh_slots size n a) ≡ n
unfolding fresh_slots
length-fresh_slots size zero a = refl
length-fresh_slots size (suc n) a = omega (arith, length-fresh_slots size n (a + stride size))

fresh_slots-memory :
    (size n : ℕ) (a : Ptr) (i : ℕ) (s : Slot)
    → get_elem? (fresh_slots size n a) i ≡ some s
    → s.memory ≡ a + i * stride size
unfolding fresh_slots
fresh_slots-memory size zero a i s e = absurd (cc)
fresh_slots-memory size (suc n) a zero s e = ground arith
fresh_slots-memory size (suc n) a (suc i) s e =
    omega (arith, fresh_slots-memory size n (a + stride size) i s e)

available-fresh_slots : (size n : ℕ) (a : Ptr) → available (fresh_slots size n a) ≡ n
unfolding available fresh_slots
available-fresh_slots size zero a = refl
available-fresh_slots size (suc n) a = omega (arith, available-fresh_slots size n (a + stride size))

-- The tags lie at or above the first block.
tag_blocks_below :
    (size n : ℕ) (a : Ptr) (i : ℕ) (words : Ptr → ℕ) (b : Ptr)
    → b < a
    → tag_blocks size n a i words b ≡ words b
unfolding tag_blocks
tag_blocks_below size zero a i words b h = refl
tag_blocks_below size (suc n) a i words b h =
    ground (arith, tag_blocks_below size n (a + stride size) (i + 1) (poke words a i) b)

tag_blocks-at :
    (size n : ℕ) (a : Ptr) (i : ℕ) (words : Ptr → ℕ) (j : ℕ)
    → j < n
    → tag_blocks size n a i words (a + j * stride size) ≡ i + j
unfolding tag_blocks
tag_blocks-at size zero a i words j h = elim h [ ]
tag_blocks-at size (suc n) a i words zero h =
    let here : a + 0 * stride size ≡ a = omega arith in
    rw (here, tag_blocks_below size n (a + stride size) (i + 1) (poke words a i) a (omega arith))
      (ground arith)
tag_blocks-at size (suc n) a i words (suc j) h =
    let there : a + suc j * stride size ≡ a + stride size + j * stride size = omega arith in
    rw there (
      omega
        (arith, tag_blocks-at size n (a + stride size) (i + 1) (poke words a i) j (omega arith)))

-- These slots are all free and have the blocks from `a` on.
record LaidOut (size n : ℕ) (a : Ptr) (refs : List Slot) : Type 0 where
  length_is : length refs ≡ n
  memory_is : (i : ℕ) (s : Slot) → get_elem? refs i ≡ some s → s.memory ≡ a + i * stride size
  free_is : available refs ≡ n

fresh_slots-LaidOut : (size n : ℕ) (a : Ptr) → LaidOut size n a (fresh_slots size n a)
fresh_slots-LaidOut size n a = record {
  length_is = length-fresh_slots size n a;
  memory_is = fresh_slots-memory size n a;
  free_is = available-fresh_slots size n a;
}

LaidOut-cons :
    (size n : ℕ) (a : Ptr) (s : Slot) (refs : List Slot)
    → LaidOut size n (a + stride size) refs
    → LaidOut size (suc n) a (record s { disponible = true; memory = a } ∷ refs)
unfolding available
LaidOut-cons size n a s refs l = record {
  length_is = omega (arith, l.length_is);
  memory_is = at;
  free_is = omega (arith, l.free_is);
}
  where
    at :
        (i : ℕ) (r : Slot)
        → get_elem? (record s { disponible = true; memory = a } ∷ refs) i ≡ some r
        → r.memory ≡ a + i * stride size
    at zero r e = ground arith
    at (suc i) r e = omega (arith, l.memory_is i r e)

reset_slots-LaidOut :
    (size n : ℕ) (a : Ptr) (refs : List Slot)
    → length refs ≡ n
    → (rest : List Slot) × (reset_slots size n a refs ≡ some rest) × LaidOut size n a rest
unfolding reset_slots available
reset_slots-LaidOut size zero a [] h =
    ([], refl, record { length_is = refl; memory_is = λ i s e. absurd (cc); free_is = refl })
reset_slots-LaidOut size zero a (s ∷ refs) h = absurd (omega (arith, h))
reset_slots-LaidOut size (suc n) a [] h = absurd (omega (arith, h))
reset_slots-LaidOut size (suc n) a (s ∷ refs) h =
    let (rest, e, l) = reset_slots-LaidOut size n (a + stride size) refs (omega (arith, h)) in
    (
      record s { disponible = true; memory = a } ∷ rest,
      ground (arith, e),
      LaidOut-cons size n a s rest l,
    )

fresh-IsValid :
    (count size : ℕ) (block : Ptr) (words : Ptr → ℕ) (refs : List Slot)
    → 0 < count
    → 0 < size
    → LaidOut size count block refs
    → IsValid (record {
      count = count;
      size = size;
      pos = 0;
      refs = refs;
      block = block;
      words = tag_blocks size count block 0 words;
    })
fresh-IsValid count size block words refs c s l = record {
  nonempty = c;
  sized = s;
  slots = l.length_is;
  pos_in = c;
  laid_out = l.memory_is;
  tagged = λ i h. omega (arith, tag_blocks-at size count block 0 words i h);
}

-- A pool of a positive buffer size that memory_create returns satisfies the pool invariant, has
-- the count that was asked for, and all of its buffers are available; its buffers with their four
-- bytes each are shorter than 2^31 bytes.
pub create-IsValid :
    (count size : ℕ) (got : Mallocs) (words : Ptr → ℕ) {p : Pool}
    → 0 < size
    → create count size got words ≡ some p
    → IsValid p × (p.count ≡ count) × (available p.refs ≡ count) × (p.size + reserved < 2 ^ 31)
unfolding create
create-IsValid count size got words s e = ground (
  arith,
  fresh-IsValid count size got.block words (fresh_slots size count got.block),
  fresh_slots-LaidOut size count got.block,
  available-fresh_slots size count got.block,
)

-- memory_reset of a valid pool of fixed-size buffers, with a block that is not NULL and shorter
-- than 2^31 bytes, succeeds and leaves a valid pool in which every buffer is available.
pub reset-IsValid :
    (p : Pool)
    → IsValid p
    → p.block ≢ null
    → p.count * stride p.size < 2 ^ 31
    → (q : Pool) × (reset p ≡ done tt q) × IsValid q × (available q.refs ≡ p.count)
unfolding reset
reset-IsValid p v b h =
    let (refs, e, l) = reset_slots-LaidOut p.size p.count p.block p.refs v.slots in
    (
      record p { pos = 0; refs = refs; words = tag_blocks p.size p.count p.block 0 p.words },
      ground (arith, e),
      fresh-IsValid p.count p.size p.block p.words refs v.nonempty v.sized l,
      l.free_is,
    )

-- A write to a slot that keeps its memory, and any position in range, keep the invariant.
pub set_slot-IsValid :
    {p : Pool} {pos : ℕ}
    → IsValid p
    → pos < p.count
    → (i : ℕ) (s t : Slot) → get_elem? p.refs i ≡ some s
    → t.memory ≡ s.memory
    → IsValid (record p { refs = set p.refs i t; pos = pos })
set_slot-IsValid {p} v in_range i s t e same = record {
  nonempty = v.nonempty;
  sized = v.sized;
  slots = omega (arith, v.slots, length-set p.refs i t);
  pos_in = in_range;
  laid_out = λ j r f. laid j r f (ℕ_discrete i j);
  tagged = v.tagged;
}
  where
    laid :
        (j : ℕ) (r : Slot)
        → get_elem? (set p.refs i t) j ≡ some r
        → Dec (i ≡ j)
        → r.memory ≡ block_at p j
    laid j r f (yes h) =
        ground (arith, v.laid_out i s e, get_elem?-set_self p.refs i t (get_elem?_lt p.refs i e))
    laid j r f (no h) = v.laid_out j r (sym (get_elem?-set_ne p.refs i j t h) ∙ f)

-- The address that a client sees.
abbrev pub buffer : Slot → Ptr
buffer s = s.memory + reserved

block_at_lt : (p : Pool) (i j : ℕ) → 0 < p.size → i < j → block_at p i < block_at p j
block_at_lt p i j h l = grind arith

-- Distinct slots have distinct buffers.
pub buffer-injective :
    {p : Pool} (v : IsValid p) (i j : ℕ) (s t : Slot)
    → get_elem? p.refs i ≡ some s
    → get_elem? p.refs j ≡ some t
    → buffer s ≡ buffer t
    → i ≡ j
buffer-injective {p} v i j s t e f h =
    let m = v.laid_out i s e in
    let n = v.laid_out j t f in
    elim (dec_lt i j) [
      | yes l ↦ absurd (omega (arith, block_at_lt p i j v.sized l))
      | no g ↦ elim (dec_lt j i) [
        | yes l ↦ absurd (omega (arith, block_at_lt p j i v.sized l))
        | no g' ↦ omega arith
      ]
    ]
