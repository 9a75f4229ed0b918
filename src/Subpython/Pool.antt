-- ===== src/Subpython/Pool.antt =====
-- project05-kweng/mm.c: the memory pool and its free list. A free_value_t is the block at its
-- address; the list free_list, linked through the blocks, is the list of blocks in link order, so
-- that a free_value_t ** of the loop is a position in it.
pub mod BestFit
pub mod Bytes
pub mod Reach
mod Tests
use cs_24_coursework.Prelude.{
  ℕ, zero, suc, ◌+◌, ◌-◌, ◌*◌, ◌%◌, ◌^◌, ◌≤◌, ◌<◌, Bool, ◌&&◌, Option, none, some, List, [], ◌∷◌,
  ltb, leb, if◌then◌else◌, get_elem?,
}

pub record Block : Type 0 where
  pub addr : ℕ
  pub value_size : ℕ

abbrev pub block : ℕ → ℕ → Block
block a n = record { addr = a; value_size = n }

-- memory_pool, memory_size and free_list.
pub record Pool : Type 0 where
  pub memory_pool : ℕ
  pub memory_size : ℕ
  pub free_list : List Block

-- sizeof(value_t)
abbrev pub value_header : ℕ
value_header = 24

abbrev pub size_max : ℕ
size_max = 2 ^ 64 - 1

unfoldable pub mm_init : ℕ → ℕ → Pool
mm_init size pool = record {
  memory_pool = pool;
  memory_size = size;
  free_list = block pool size ∷ [];
}

-- best_fit, a position in the free list, and smallest_size.
pub record Best : Type 0 where
  pub best_fit : Option ℕ
  pub smallest_size : ℕ

-- The loop of mm_malloc, at position i of the list.
unfoldable pub search_fit : ℕ → List Block → ℕ → Best → Best
search_fit size [] i best = best
search_fit size (b ∷ bs) i best = search_fit size bs (i + 1) (
    if leb size b.value_size && ltb b.value_size best.smallest_size
    then record { best_fit = some i; smallest_size = b.value_size }
    else best)

-- The block at position i is split, or else taken whole: the block handed out, and the list. The
-- blocks are ranges of addresses: that the header of the rest overlays that of the block, when less
-- than the 24 bytes of a header are asked for, is not modelled; no caller asks for less.
unfoldable pub take_block : ℕ → ℕ → List Block → Option (Block × List Block)
take_block size i [] = none
take_block size zero (b ∷ bs) =
    let remaining_size = b.value_size - size in
    if ltb value_header remaining_size
    then some (block b.addr size, block (b.addr + size) remaining_size ∷ bs)
    else some (b, bs)
take_block size (suc i) (b ∷ bs) = elim (take_block size i bs) [
  | none ↦ none
  | some (got, rest) ↦ some (got, b ∷ rest)
]

-- `none` is the MemoryError.
unfoldable pub mm_malloc : ℕ → Pool → Option (Block × Pool)
unfolding search_fit take_block
mm_malloc size p =
    let best =
      search_fit size p.free_list 0 (record { best_fit = none; smallest_size = size_max }) in
    elim best.best_fit [
      | none ↦ none
      | some i ↦ elim (take_block size i p.free_list) [
        | none ↦ none
        | some (got, rest) ↦ some (got, record p { free_list = rest })
      ]
    ]

unfoldable pub mm_free : Block → Pool → Pool
mm_free value p = record p { free_list = value ∷ p.free_list }

unfoldable pub is_pool_address : ℕ → Pool → Bool
is_pool_address addr p = leb p.memory_pool addr && ltb addr (p.memory_pool + p.memory_size)

-- The loop of mem_used, on a size_t.
unfoldable pub mem_used_loop : ℕ → List Block → ℕ
mem_used_loop used [] = used
mem_used_loop used (b ∷ bs) = mem_used_loop ((used + 2 ^ 64 - b.value_size) % 2 ^ 64) bs

unfoldable pub mem_used : Pool → ℕ
unfolding mem_used_loop
mem_used p = mem_used_loop p.memory_size p.free_list
