-- ===== src/Heap/Realloc/Check.antt =====
-- mm_checkheap of project04-kweng/mm.c: what its asserts find out.
use cs_24_coursework.Prelude.{ℕ, ◌+◌, ◌%◌, ◌≤◌, ◌<◌, ◌≡◌, Bool, true, false, Option, none, some}
use cs_24_coursework.Heap.{Heap, get_size, mem_heap_hi}
use cs_24_coursework.Heap.Tiles.{Tiles}

-- From header to header by the sizes, each a positive multiple of 16, up to the end of the heap.
pub data IsChain (h : Heap) : ℕ → Type 0 where
  chain_end : (start : ℕ) → mem_heap_hi h ≤ start → IsChain h start
  chain_block :
      (start : ℕ)
      → start < mem_heap_hi h
      → 0 < get_size h start
      → get_size h start % 16 ≡ 0
      → IsChain h (start + get_size h start)
      → IsChain h start

-- The answer is that of a decision of P.
abbrev pub Decides : Type 0 → Option Bool → Type 0
Decides P none = ⊥
Decides P (some true) = P
Decides P (some false) = ¬ P
