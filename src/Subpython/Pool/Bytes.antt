-- ===== src/Subpython/Pool/Bytes.antt =====
-- The bytes of the pool: which blocks hold a byte, before and after mm_malloc and mm_free.
use cs_24_coursework.Prelude.{
  ℕ, ◌+◌, ◌-◌, ◌%◌, ◌^◌, ◌≤◌, ◌<◌, ◌≡◌, refl, ◌∙◌, Bool, ◌&&◌, Option, some, List, [], ◌∷◌, ◌++◌,
  ltb, leb, if◌then◌else◌, arith,
}
use mathlib.Core.Path.{subst}
use mathlib.Core.Option.{some-injective}
use cs_24_coursework.Subpython.Pool.{Block, block, Pool, mm_malloc, mem_used_loop, mem_used}
use cs_24_coursework.Subpython.Pool.BestFit.{
  Allocates, exhausted, splits, takes, mm_malloc-Allocates,
}

abbrev pub holds : ℕ → Block → Bool
holds a b = leb b.addr a && ltb a (b.addr + b.value_size)

-- How many blocks of the list hold the byte at a.
unfoldable pub count_holding : ℕ → List Block → ℕ
count_holding a [] = 0
count_holding a (b ∷ bs) = (if holds a b then 1 else 0) + count_holding a bs

unfoldable pub total_size : List Block → ℕ
total_size [] = 0
total_size (b ∷ bs) = b.value_size + total_size bs

pub count_holding-append :
    (a : ℕ) (bs cs : List Block)
    → count_holding a (bs ++ cs) ≡ count_holding a bs + count_holding a cs
unfolding count_holding
count_holding-append a [] cs = omega arith
count_holding-append a (b ∷ bs) cs = omega (arith, count_holding-append a bs cs)

pub total_size-append : (bs cs : List Block) → total_size (bs ++ cs) ≡ total_size bs + total_size cs
unfolding total_size
total_size-append [] cs = omega arith
total_size-append (b ∷ bs) cs = omega (arith, total_size-append bs cs)

pub count_holding-cut :
    (a : ℕ) (before after : List Block) (b : Block)
    → count_holding a (before ++ b ∷ after)
      ≡ count_holding a (b ∷ []) + count_holding a (before ++ after)
unfolding count_holding
count_holding-cut a before after b =
    omega (arith, count_holding-append a before (b ∷ after), count_holding-append a before after)

-- What is free before an allocation is free after it, or in the block that was handed out: every
-- byte as often, and so many bytes in all. The pool's bounds stay.
pub record Conserves (free : List Block) (got : Block) (rest : List Block) : Type 0 where
  pub bytes : (a : ℕ) → count_holding a free ≡ count_holding a (got ∷ []) + count_holding a rest
  pub total : total_size free ≡ got.value_size + total_size rest

takes-Conserves :
    (before after : List Block) (b : Block) → Conserves (before ++ b ∷ after) b (before ++ after)
unfolding total_size
takes-Conserves before after b = record {
  bytes = λ a. count_holding-cut a before after b;
  total = omega (arith, total_size-append before (b ∷ after), total_size-append before after);
}

splits-Conserves :
    (before after : List Block) (b : Block) (size : ℕ)
    → size ≤ b.value_size
    → Conserves
        (before ++ b ∷ after)
        (block b.addr size)
        (before ++ block (b.addr + size) (b.value_size - size) ∷ after)
unfolding total_size count_holding
splits-Conserves before after b size h = record {
  bytes = λ a. ground (
    arith,
    count_holding-append a before (b ∷ after),
    count_holding-append a before (block (b.addr + size) (b.value_size - size) ∷ after),
  );
  total = omega (
    arith,
    total_size-append before (b ∷ after),
    total_size-append before (block (b.addr + size) (b.value_size - size) ∷ after),
  );
}

Allocates-Conserves :
    (size : ℕ) (p : Pool) {o : Option (Block × Pool)} (got : Block) (p' : Pool)
    → Allocates size p o
    → o ≡ some (got, p')
    → Conserves p.free_list got p'.free_list
      × (p'.memory_pool ≡ p.memory_pool)
      × (p'.memory_size ≡ p.memory_size)
      × (size ≤ got.value_size)
Allocates-Conserves size p got p' (exhausted below) e = cc
Allocates-Conserves size p got p' (splits before after b split fits below more) e =
    subst
      (λ (r : Block × Pool).
        Conserves p.free_list r.0 r.1.free_list
        × (r.1.memory_pool ≡ p.memory_pool)
        × (r.1.memory_size ≡ p.memory_size)
        × (size ≤ r.0.value_size))
      (some-injective _ _ e)
      (rw split (splits-Conserves before after b size fits.0), refl, refl, omega arith)
Allocates-Conserves size p got p' (takes before after b split fits below less) e =
    subst
      (λ (r : Block × Pool).
        Conserves p.free_list r.0 r.1.free_list
        × (r.1.memory_pool ≡ p.memory_pool)
        × (r.1.memory_size ≡ p.memory_size)
        × (size ≤ r.0.value_size))
      (some-injective _ _ e) (rw split (takes-Conserves before after b), refl, refl, fits.0)

-- A block that mm_malloc hands out is as large as was asked for, was free, and is no longer so;
-- all else that was free stays free, and the pool stays where it is.
pub mm_malloc-Conserves :
    (size : ℕ) (p p' : Pool) (got : Block)
    → mm_malloc size p ≡ some (got, p')
    → Conserves p.free_list got p'.free_list
      × (p'.memory_pool ≡ p.memory_pool)
      × (p'.memory_size ≡ p.memory_size)
      × (size ≤ got.value_size)
mm_malloc-Conserves size p p' got e =
    Allocates-Conserves size p got p' (mm_malloc-Allocates size p) e

mem_used_loop-sub :
    (bs : List Block) (used : ℕ)
    → total_size bs ≤ used
    → used < 2 ^ 64
    → mem_used_loop used bs ≡ used - total_size bs
unfolding mem_used_loop total_size
mem_used_loop-sub [] used h k = omega arith
mem_used_loop-sub (b ∷ bs) used h k =
    let e : (used + 2 ^ 64 - b.value_size) % 2 ^ 64 ≡ used - b.value_size = omega arith in
    rw e (mem_used_loop-sub bs (used - b.value_size) (omega arith) (omega arith) ∙ omega arith)

pub mem_used-sub :
    (p : Pool)
    → total_size p.free_list ≤ p.memory_size
    → p.memory_size < 2 ^ 64
    → mem_used p ≡ p.memory_size - total_size p.free_list
unfolding mem_used
mem_used-sub p h k = mem_used_loop-sub p.free_list p.memory_size h k
