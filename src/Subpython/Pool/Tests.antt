-- ===== src/Subpython/Pool/Tests.antt =====
-- A pool of 256 bytes that serves requests, run, and the theorems at this run.
use cs_24_coursework.Prelude.{◌≡◌, refl, none, some, List, [], ◌∷◌, arith}
use cs_24_coursework.Subpython.Pool.{Block, block, Pool, mm_init, mm_malloc, mm_free, mem_used}
use cs_24_coursework.Subpython.Pool.BestFit.{Allocates, mm_malloc-Allocates}
use cs_24_coursework.Subpython.Pool.Bytes.{total_size}
use cs_24_coursework.Subpython.Pool.Reach.{
  Sys, sys, alloc, free, Reach, start, next, IsTiled, Reach-IsTiled, Reach-mem_used,
}

abbrev pool_of : List Block → Pool
pool_of bs = record { memory_pool = 4096; memory_size = 256; free_list = bs }

abbrev after_two : Sys
after_two = sys (pool_of (block 4168 184 ∷ [])) (block 4128 40 ∷ block 4096 32 ∷ [])

abbrev after_free : Sys
after_free = sys (pool_of (block 4096 32 ∷ block 4168 184 ∷ [])) (block 4128 40 ∷ [])

after_two-Reach : Reach 256 4096 after_two
unfolding mm_init mm_malloc
after_two-Reach = next (next start (alloc 32 _ _ refl)) (alloc 40 _ _ refl)

after_free-Reach : Reach 256 4096 after_free
unfolding mm_free
after_free-Reach = next after_two-Reach (free (block 4128 40 ∷ []) [] (block 4096 32) refl)

-- The best fit is not the first: 180 bytes leave 4, which stay with the block.
best_is_second : mm_malloc 180 after_free.pool ≡ some (block 4168 184, pool_of (block 4096 32 ∷ []))
unfolding mm_malloc
best_is_second = refl

out_of_memory : mm_malloc 200 after_free.pool ≡ none
unfolding mm_malloc
out_of_memory = refl

mm_malloc-Allocates_example : Allocates 180 after_free.pool (mm_malloc 180 after_free.pool)
mm_malloc-Allocates_example = mm_malloc-Allocates 180 after_free.pool

Reach-IsTiled_example : IsTiled 256 4096 after_free
Reach-IsTiled_example = Reach-IsTiled 256 4096 after_free after_free-Reach

Reach-mem_used_example : mem_used after_free.pool ≡ total_size after_free.live
Reach-mem_used_example = Reach-mem_used 256 4096 after_free after_free-Reach (omega arith)
