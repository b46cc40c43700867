-- ===== src/MemPool.antt =====
-- source/mempool.c: a pool of `count` buffers of `size` bytes, handed out round robin. A pool of
-- size 0 hands out allocations of its own instead. The lock is taken for the whole of an operation,
-- so an operation is one function from pool to pool.
pub mod Free
pub mod Valid
pub mod Take
pub mod Return
pub mod Calls
pub mod Freed
pub mod Bare
pub mod Trace
mod Tests
use opensrthub.Base.{
  ℕ, zero, suc, ◌+◌, ◌-◌, ◌*◌, ◌%◌, ◌^◌, Bool, true, false, ◌||◌, not, ◌&&◌, Option, none, some,
  List, [], ◌∷◌, ◌++◌, ltb, leb, ◌==◌, if◌then◌else◌, length, get_elem?, set,
}

-- An address; 0 is NULL.
abbrev pub Ptr : Type 0
Ptr = ℕ

abbrev pub null : Ptr
null = 0

-- memory_struct. `disponible` is 0 or 1.
pub record Slot : Type 0 where
  pub disponible : Bool
  pub owner : ℕ
  pub memory : Ptr

-- memory_pool_struct, and `words`, the 32-bit word at each address of the process's memory.
pub record Pool : Type 0 where
  pub count : ℕ
  pub size : ℕ
  pub pos : ℕ
  pub refs : List Slot
  pub block : Ptr
  pub words : Ptr → ℕ

-- MEMORY_RESERVED: the bytes in front of each buffer, which hold its index.
abbrev pub reserved : ℕ
reserved = 4

abbrev pub stride : ℕ → ℕ
stride size = size + reserved

-- The outcome of a call: its result, `abort()`, or an access outside `refs` or through NULL.
pub data Outcome (A : Type 0) : Type 0 where
  done : A → Pool → Outcome A
  aborted : Outcome A
  fault : Outcome A

abbrev pub poke : (Ptr → ℕ) → Ptr → ℕ → Ptr → ℕ
poke words p v a = if a == p then v else words a

-- The index words of the blocks from index `i` on, `n` of them, the first at `p`.
unfoldable pub tag_blocks : ℕ → ℕ → Ptr → ℕ → (Ptr → ℕ) → Ptr → ℕ
tag_blocks size zero p i words = words
tag_blocks size (suc n) p i words = tag_blocks size n (p + stride size) (i + 1) (poke words p i)

-- The slots of those blocks, all of them free.
unfoldable pub fresh_slots : ℕ → ℕ → Ptr → List Slot
fresh_slots size zero p = []
fresh_slots size (suc n) p =
    record { disponible = true; owner = 0; memory = p } ∷ fresh_slots size n (p + stride size)

-- Slots without memory, for a pool of size 0.
unfoldable pub bare_slots : ℕ → List Slot
bare_slots zero = []
bare_slots (suc n) = record { disponible = true; owner = 0; memory = null } ∷ bare_slots n

-- The results of the allocations of memory_create, in order; NULL is a failure.
pub record Mallocs : Type 0 where
  pub pool : Ptr
  pub refs : Ptr
  pub reflock : Ptr
  pub block : Ptr

-- memory_create for counts and sizes that are not negative. `none` is NULL, or an overflow of
-- `size+MEMORY_RESERVED`, which is an `int`. `memset` clears the new block's words,
-- so that only the tags written behind it matter.
unfoldable pub create : ℕ → ℕ → Mallocs → (Ptr → ℕ) → Option Pool
unfolding tag_blocks fresh_slots bare_slots
create count size got words =
    if count == 0
    then none
    else if got.pool == null || (got.refs == null || got.reflock == null)
    then none
    else if size == 0
    then some (record {
      count = count;
      size = size;
      pos = 0;
      refs = bare_slots count;
      block = null;
      words = words;
    })
    else if got.block == null
    then none
    else if not (ltb (stride size) (2 ^ 31))
    then none
    else some (record {
      count = count;
      size = size;
      pos = 0;
      refs = fresh_slots size count got.block;
      block = got.block;
      words = tag_blocks size count got.block 0 words;
    })

-- The slots that memory_reset leaves: it does not write their owners. `none` is an access outside
-- `refs`.
unfoldable pub reset_slots : ℕ → ℕ → Ptr → List Slot → Option (List Slot)
reset_slots size zero p refs = some refs
reset_slots size (suc n) p [] = none
reset_slots size (suc n) p (s ∷ refs) = elim (reset_slots size n (p + stride size) refs) [
  | none ↦ none
  | some rest ↦ some (record s { disponible = true; memory = p } ∷ rest)
]

-- memory_reset. It writes through `data`, which is NULL in a pool of size 0, and computes the
-- block's length in `int`, which must not overflow.
unfoldable pub reset : Pool → Outcome (Unit {0})
unfolding tag_blocks reset_slots
reset p =
    if p.block == null || not (ltb (p.count * stride p.size) (2 ^ 31))
    then fault
    else elim (reset_slots p.size p.count p.block p.refs) [
      | none ↦ fault
      | some refs ↦
          done tt
            (record p { pos = 0; refs = refs; words = tag_blocks p.size p.count p.block 0 p.words })
    ]

abbrev pub next_pos : Pool → ℕ
next_pos p = (p.pos + 1) % p.count

-- What memory_take does at an available slot. `got` is what malloc returns for a pool of size 0.
unfoldable pub grab : Ptr → ℕ → Slot → Pool → Outcome Ptr
grab got owner s p =
    if ltb 0 p.size
    then done (s.memory + reserved) (record p {
      refs = set p.refs p.pos (record s { disponible = false; owner = owner });
      pos = next_pos p;
    })
    else if got == null
    then done null (record p {
      refs = set p.refs p.pos (record s { disponible = true; owner = owner });
      pos = next_pos p;
    })
    else done got (record p {
      refs = set p.refs p.pos (record { disponible = false; owner = owner; memory = got });
      pos = next_pos p;
    })

-- The loop of memory_take, `n` rounds of which are left.
unfoldable pub take_loop : ℕ → Ptr → ℕ → Pool → Outcome Ptr
unfolding grab
take_loop zero got owner p = done null p
take_loop (suc n) got owner p = elim (get_elem? p.refs p.pos) [
  | none ↦ fault
  | some s ↦ elim s.disponible [
    | true ↦ grab got owner s p
    | false ↦ take_loop n got owner (record p { pos = next_pos p })
  ]
]

unfoldable pub take : Ptr → ℕ → Pool → Outcome Ptr
unfolding take_loop
take got owner p = take_loop p.count got owner p

-- memory_return for a pool of fixed-size buffers: the index comes from the word in front of the
-- buffer. The result is true for 0 and false for -1.
unfoldable pub return_block : Ptr → Pool → Outcome Bool
return_block memory p =
    let returned = memory - reserved in
    let idx = p.words returned in
    if leb p.count idx then done false p else elim (get_elem? p.refs idx) [
      | none ↦ fault
      | some s ↦
          if not (s.memory == returned)
          then done false p
          else if s.disponible
          then done false p
          else done true (record p { refs = set p.refs idx (record s { disponible = true }) })
    ]

-- The search of memory_return in a pool of size 0, from index `idx` over `n` slots.
unfoldable pub return_search : ℕ → ℕ → Ptr → Pool → Outcome Bool
return_search zero idx memory p = aborted
return_search (suc n) idx memory p = elim (get_elem? p.refs idx) [
  | none ↦ fault
  | some s ↦ elim (s.memory == memory) [
    | true ↦
        done true
          (record p { refs = set p.refs idx (record s { memory = null; disponible = true }) })
    | false ↦ return_search n (idx + 1) memory p
  ]
]

unfoldable pub give_back : Ptr → Pool → Outcome Bool
unfolding return_block return_search
give_back memory p =
    if memory == null
    then done false p
    else if ltb 0 p.size
    then return_block memory p
    else return_search p.count 0 memory p

abbrev pub weight : Slot → ℕ
weight s = if s.disponible then 1 else 0

-- The count of the slots that are available.
unfoldable pub available : List Slot → ℕ
available [] = 0
available (s ∷ rest) = weight s + available rest

-- memory_unused
abbrev pub unused : Pool → ℕ
unused p = available p.refs

-- free(NULL) does nothing.
unfoldable pub freed_address : Ptr → List Ptr
freed_address a = if a == null then [] else a ∷ []

-- The loop of memory_destroy over `n` slots: what it frees.
unfoldable pub free_slots : ℕ → ℕ → List Slot → List Ptr
unfolding freed_address
free_slots size zero refs = []
free_slots size (suc n) [] = []
free_slots size (suc n) (s ∷ refs) =
    (if size == 0 then freed_address s.memory else []) ++ free_slots size n refs

-- The buffers that memory_destroy frees, with the memory of the pool itself.
unfoldable pub memory_destroy : Pool → List Ptr
unfolding free_slots freed_address
memory_destroy p = free_slots p.size p.count p.refs ++ freed_address p.block
