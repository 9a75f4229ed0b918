-- ===== src/Subpython/Pool/Reach.antt =====
-- Any sequence of mm_malloc and mm_free calls after mm_init.
use cs_24_coursework.Prelude.{
  ℕ, ◌+◌, ◌^◌, ◌<◌, ◌≡◌, refl, ap, ◌∙◌, some, List, [], ◌∷◌, ◌++◌, if◌then◌else◌, arith,
}
use cs_24_coursework.Subpython.Pool.{
  Block, Pool, mm_init, mm_malloc, mm_free, is_pool_address, mem_used,
}
use cs_24_coursework.Subpython.Pool.Bytes.{
  count_holding, total_size, total_size-append, count_holding-cut, mm_malloc-Conserves,
  mem_used-sub,
}

-- The pool, and the blocks that the program has been given and has not freed.
pub record Sys : Type 0 where
  pub pool : Pool
  pub live : List Block

abbrev pub sys : Pool → List Block → Sys
sys p l = record { pool = p; live = l }

-- A call of mm_malloc that succeeds, and a call of mm_free on a live block.
pub data Step (s : Sys) : Sys → Type 0 where
  alloc :
      (size : ℕ) (got : Block) (p : Pool)
      → mm_malloc size s.pool ≡ some (got, p)
      → Step s (sys p (got ∷ s.live))
  free :
      (before after : List Block) (b : Block)
      → s.live ≡ before ++ b ∷ after
      → Step s (sys (mm_free b s.pool) (before ++ after))

pub data Reach (size pool : ℕ) : Sys → Type 0 where
  start : Reach size pool (sys (mm_init size pool) [])
  next : {s t : Sys} → Reach size pool s → Step s t → Reach size pool t

-- Each byte of the pool is in one block, free or live, and no other byte is in any.
pub record IsTiled (size pool : ℕ) (s : Sys) : Type 0 where
  pub bytes :
      (a : ℕ)
      → count_holding a s.pool.free_list + count_holding a s.live
        ≡ (if is_pool_address a s.pool then 1 else 0)
  pub total : total_size s.pool.free_list + total_size s.live ≡ size
  pub base : s.pool.memory_pool ≡ pool
  pub extent : s.pool.memory_size ≡ size

start-IsTiled : (size pool : ℕ) → IsTiled size pool (sys (mm_init size pool) [])
unfolding mm_init count_holding total_size is_pool_address
start-IsTiled size pool = record {
  bytes = λ a. omega arith;
  total = omega arith;
  base = refl;
  extent = refl;
}

Step-IsTiled : (size pool : ℕ) (s t : Sys) → Step s t → IsTiled size pool s → IsTiled size pool t
unfolding mm_free count_holding total_size is_pool_address
Step-IsTiled size pool s t (alloc n got p e) h =
    let c = mm_malloc-Conserves n s.pool p got e in
    record {
      bytes = λ a. ground (arith, h.bytes a, c.0.bytes a);
      total = omega (arith, h.total, c.0.total);
      base = c.1 ∙ h.base;
      extent = c.2 ∙ h.extent;
    }
Step-IsTiled size pool s t (free before after b e) h = record {
  bytes =
      λ a. ground (arith, h.bytes a, count_holding-cut a before after b, ap (count_holding a) e);
  total = omega (
    arith,
    h.total,
    ap total_size e,
    total_size-append before (b ∷ after),
    total_size-append before after,
  );
  base = h.base;
  extent = h.extent;
}

-- After mm_init and any calls of mm_malloc, and of mm_free on live blocks, the free and the live
-- blocks tile the pool: no byte is lost, none is in two blocks, and none outside the pool is in any.
pub Reach-IsTiled : (size pool : ℕ) (s : Sys) → Reach size pool s → IsTiled size pool s
Reach-IsTiled size pool s start = start-IsTiled size pool
Reach-IsTiled size pool s (next {s = t} r st) =
    Step-IsTiled size pool t s st (Reach-IsTiled size pool t r)

-- After any calls, mem_used is the size of the live blocks, in a pool of less than 2^64 bytes.
pub Reach-mem_used :
    (size pool : ℕ) (s : Sys)
    → Reach size pool s
    → size < 2 ^ 64
    → mem_used s.pool ≡ total_size s.live
Reach-mem_used size pool s r h =
    let t = Reach-IsTiled size pool s r in
    let m = mem_used-sub s.pool (omega (arith, t.total, t.extent)) (omega (arith, t.extent)) in
    omega (arith, t.total, t.extent, m)
