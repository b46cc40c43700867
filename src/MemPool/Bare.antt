-- ===== src/MemPool/Bare.antt =====
-- Pools of size 0 (source/mempool.c), whose buffers are allocations of their own.
use opensrthub.Base.{ℕ, ◌≡◌, some, arith}
use opensrthub.MemPool.{Ptr, Pool, fault, Mallocs, create, reset}

-- memory_reset of any pool that memory_create made with buffer size 0 writes through the NULL data
-- pointer.
pub reset-bare :
    (count : ℕ) (got : Mallocs) (words : Ptr → ℕ) {p : Pool}
    → create count 0 got words ≡ some p
    → reset p ≡ fault
unfolding create reset
reset-bare count got words e = ground arith
