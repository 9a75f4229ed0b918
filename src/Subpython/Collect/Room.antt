-- ===== src/Subpython/Collect/Room.antt =====
-- The free block of the half that is copied into has room for the values that are still to be copied.
use cs_24_coursework.Prelude.{
  ℕ, zero, suc, ◌+◌, ◌-◌, ◌^◌, ◌≤◌, ◌<◌, ◌≡◌, refl, true, false, Option, none, some, List, [], ◌∷◌,
  leb, ltb, if◌then◌else◌, get_elem?, set, arith,
}
use mathlib.Core.Option.{some-injective}
use cs_24_coursework.Subpython.Pool.{
  Block, block, Pool, mm_malloc, search_fit, take_block, value_header, size_max,
}
use cs_24_coursework.Subpython.Pool.Bytes.{total_size}
use cs_24_coursework.Subpython.Refs.{Refs}
use cs_24_coursework.Subpython.Refs.Entries.{used}
use cs_24_coursework.Subpython.Collect.Measure.{inside}

-- The bytes of the values that are still to be copied.
unfoldable pub need : ℕ → ℕ → List (Option Block) → ℕ
need base size [] = 0
need base size (none ∷ table) = need base size table
need base size (some v ∷ table) =
    (if inside base size v.addr then 0 else v.value_size) + need base size table

pub need_le :
    (base size : ℕ) (table : List (Option Block)) → need base size table ≤ total_size (used table)
unfolding need used total_size
need_le base size [] = omega arith
need_le base size (none ∷ table) = need_le base size table
need_le base size (some v ∷ table) = ground (arith, need_le base size table)

pub need-set :
    (base size : ℕ) (table : List (Option Block)) (r : ℕ) (v w : Block)
    → get_elem? table r ≡ some (some v)
    → inside base size v.addr ≡ false
    → inside base size w.addr ≡ true
    → need base size (set table r (some w)) + v.value_size ≡ need base size table
unfolding need
need-set base size [] r v w e h k = cc
need-set base size (x ∷ table) zero v w e h k =
    let same : x ≡ some v = some-injective _ _ e in rw same (rw h (rw k (omega arith)))
need-set base size (none ∷ table) (suc r) v w e h k = need-set base size table r v w e h k
need-set base size (some x ∷ table) (suc r) v w e h k =
    omega (arith, need-set base size table r v w e h k)

pub need_entry :
    (base size : ℕ) (table : List (Option Block)) (r : ℕ) (v : Block)
    → get_elem? table r ≡ some (some v)
    → inside base size v.addr ≡ false
    → v.value_size ≤ need base size table
unfolding need
need_entry base size [] r v e h = cc
need_entry base size (x ∷ table) zero v e h =
    let same : x ≡ some v = some-injective _ _ e in rw same (rw h (omega arith))
need_entry base size (none ∷ table) (suc r) v e h = need_entry base size table r v e h
need_entry base size (some x ∷ table) (suc r) v e h =
    omega (arith, need_entry base size table r v e h)

-- One free block, with more than the header of a value to spare.
pub record HasRoom (s : Refs) : Type 0 where
  pub addr : ℕ
  pub size : ℕ
  pub free : s.pool.free_list ≡ block addr size ∷ []
  pub room : need s.pool.memory_pool s.pool.memory_size s.ref_table + 24 < size
  pub small : size < 2 ^ 64 - 1

mm_malloc_at :
    (p : Pool) (addr size n : ℕ)
    → p.free_list ≡ block addr size ∷ []
    → search_fit n (block addr size ∷ []) 0 (record { best_fit = none; smallest_size = size_max })
      ≡ record { best_fit = some 0; smallest_size = size }
    → take_block n 0 (block addr size ∷ []) ≡ some (block addr n, block (addr + n) (size - n) ∷ [])
    → mm_malloc n p ≡ some (block addr n, record p { free_list = block (addr + n) (size - n) ∷ [] })
unfolding mm_malloc
mm_malloc_at p addr size n e found taken = rw e (rw (found, mm_malloc) (rw (taken, mm_malloc) refl))

pub mm_malloc_split :
    (p : Pool) (addr size n : ℕ)
    → p.free_list ≡ block addr size ∷ []
    → n + 24 < size
    → size < 2 ^ 64 - 1
    → mm_malloc n p ≡ some (block addr n, record p { free_list = block (addr + n) (size - n) ∷ [] })
unfolding search_fit take_block
mm_malloc_split p addr size n e h k =
    let fits : leb n size ≡ true = ground arith in
    let best : ltb size (2 ^ 64 - 1) ≡ true = ground arith in
    let more : ltb value_header (size - n) ≡ true = ground arith in
    let found : search_fit n (block addr size ∷ []) 0
          (record { best_fit = none; smallest_size = size_max })
        ≡ record { best_fit = some 0; smallest_size = size } =
      rw fits (rw best refl) in
    let taken : take_block n 0 (block addr size ∷ [])
        ≡ some (block addr n, block (addr + n) (size - n) ∷ []) =
      rw more refl in
    mm_malloc_at p addr size n e found taken
