-- ===== src/MemPool/Tests.antt =====
-- Tests of source/mempool.c, and its theorems at a pool of two buffers of eight bytes.
use opensrthub.Base.{
  none, ◌+◌, ◌-◌, ◌^◌, ◌<◌, ℕ, zero, suc, ◌≡◌, ◌<◌, refl, true, false, some, [], ◌∷◌, arith,
  get_elem?,
}
use opensrthub.MemPool.{
  memory_destroy, free_slots, freed_address, Ptr, null, Slot, Pool, Mallocs, done, fault, create,
  reserved, reset_slots, reset, take, give_back, available, tag_blocks, fresh_slots,
}
use opensrthub.MemPool.Valid.{IsValid, create-IsValid}
use opensrthub.MemPool.Take.{Taken, take-Taken}
use opensrthub.MemPool.Return.{Returned, give_back-Returned}
use opensrthub.MemPool.Calls.{Handed, take_unused, give_back-take}
use opensrthub.MemPool.Bare.{reset-bare}
use opensrthub.MemPool.Trace.{
  Client, took, Reach, start, then_, Agrees, Reach-Agrees, took-is-new, with_buffer,
}

abbrev got : Mallocs
got = record { pool = 1; refs = 2; reflock = 3; block = 100 }

abbrev pool : Pool
pool = record {
  count = 2;
  size = 8;
  pos = 0;
  refs = fresh_slots 8 2 100;
  block = 100;
  words = tag_blocks 8 2 100 0 (λ _. 0);
}

-- The pool after its first buffer went to owner 7.
abbrev one_out : Pool
one_out = record pool {
  pos = 1;
  refs =
      record { disponible = false; owner = 7; memory = 100 }
      ∷ record { disponible = true; owner = 0; memory = 112 }
      ∷ [];
}

create_pool : create 2 8 got (λ _. 0) ≡ some pool
unfolding create
create_pool = refl

take_first : take 0 7 pool ≡ done 104 one_out
unfolding take fresh_slots
take_first = refl

-- The owner of a slot survives a reset.
reset-one_out :
    reset one_out
    ≡ done tt (record pool {
      refs =
          record { disponible = true; owner = 7; memory = 100 }
          ∷ record { disponible = true; owner = 0; memory = 112 }
          ∷ [];
      words = tag_blocks 8 2 100 0 pool.words;
    })
unfolding reset reset_slots
reset-one_out = refl

create_overflow : create 2 (2 ^ 31 - 4) got (λ _. 0) ≡ none
unfolding create
create_overflow = refl

-- An address that is no buffer is refused, whatever stands in front of it.
give_back_stray : give_back 300 one_out ≡ done false one_out
unfolding give_back tag_blocks
give_back_stray = refl

pool-IsValid : IsValid pool
pool-IsValid = (create-IsValid 2 8 got (λ _. 0) (omega arith) create_pool).0

create-IsValid_example :
    IsValid pool × (pool.count ≡ 2) × (available pool.refs ≡ 2) × (pool.size + reserved < 2 ^ 31)
create-IsValid_example = create-IsValid 2 8 got (λ _. 0) (omega arith) create_pool

take-Taken_example : Taken 7 pool (take 0 7 pool)
take-Taken_example = take-Taken 0 7 pool-IsValid

give_back-Returned_example : Returned 104 pool (give_back 104 pool)
give_back-Returned_example = give_back-Returned 104 pool-IsValid (omega arith)

take_unused_example :
    (available pool.refs ≡ 0 → take 0 7 pool ≡ done null pool)
    × (0 < available pool.refs → (a : Ptr) × (q : Pool) × Handed 7 pool a q (take 0 7 pool))
take_unused_example = take_unused 0 7 pool-IsValid

give_back-take_example :
    (r : Pool) × (give_back 104 one_out ≡ done true r)
    × (available r.refs ≡ available pool.refs)
    × (give_back 104 r ≡ done false r)
give_back-take_example = give_back-take 0 7 pool-IsValid take_first (omega arith)

abbrev bare : Pool
bare = record {
  count = 1;
  size = 0;
  pos = 0;
  refs = record { disponible = true; owner = 0; memory = null } ∷ [];
  block = null;
  words = λ _. 0;
}

create-bare : create 1 0 got (λ _. 0) ≡ some bare
unfolding create
create-bare = refl

reset-bare_example : reset bare ≡ fault
reset-bare_example = reset-bare 1 got (λ _. 0) create-bare

abbrev idle : Client
idle = record { pool = pool; holds = λ _. false }

idle-Agrees : Agrees idle
unfolding fresh_slots
idle-Agrees = record { valid = pool-IsValid; sound = λ b h. absurd (cc); complete = all_free }
  where
    all_free :
        (i : ℕ) (s : Slot) → get_elem? pool.refs i ≡ some s → s.disponible ≡ false → false ≡ true
    all_free zero s e d = grind arith
    all_free (suc zero) s e d = grind arith
    all_free (suc (suc i)) s e d = absurd (cc)

abbrev busy : Client
busy = record { pool = one_out; holds = with_buffer (λ _. false) 104 }

one_taken : Reach idle busy
one_taken = then_ start (took 0 7 104 take_first (omega arith))

take_second :
    take 0 9 one_out
    ≡ done 116 (record one_out {
      pos = 0;
      refs =
          record { disponible = false; owner = 7; memory = 100 }
          ∷ record { disponible = false; owner = 9; memory = 112 }
          ∷ [];
    })
unfolding take
take_second = refl

Reach-Agrees_example : Agrees busy
Reach-Agrees_example = Reach-Agrees idle-Agrees one_taken

took-is-new_example : busy.holds 116 ≡ false
took-is-new_example = took-is-new 0 9 idle-Agrees one_taken take_second (omega arith)

pool_freed : memory_destroy pool ≡ 100 ∷ []
unfolding memory_destroy free_slots freed_address fresh_slots
pool_freed = refl

-- One of two allocations is still taken.
abbrev one_allocation : Pool
one_allocation = record bare {
  count = 2;
  refs =
      record { disponible = true; owner = 0; memory = null }
      ∷ record { disponible = false; owner = 7; memory = 500 }
      ∷ [];
}

one_allocation_freed : memory_destroy one_allocation ≡ 500 ∷ []
unfolding memory_destroy free_slots freed_address
one_allocation_freed = refl
