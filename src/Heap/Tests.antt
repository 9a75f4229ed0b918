-- ===== src/Heap/Tests.antt =====
-- A heap of three blocks at 0x800000000, built and used, and the theorems there.
use cs_24_coursework.Prelude.{
  ℕ, ◌+◌, ◌-◌, ◌^◌, ◌≡◌, refl, inl, true, false, Option, none, some, List, [], ◌∷◌, map, arith,
}
use cs_24_coursework.Heap.{
  Heap, max_heap, put_word, mem_init, mem_reset_brk, mem_sbrk, mm_init, first_block, mem_heap_lo,
  mem_heap_hi, find_fit, malloc, free, coalesce, prev_block, next_block, if_free, join, add_node,
  find_loop, write_word, round_up, set_header, set_footer, block_size, split, place, tag, get_size,
  check_allocated,
}
use cs_24_coursework.Heap.Tiles.{chunk, Chunk, IsHeap, total}
use cs_24_coursework.Heap.Malloc.{FirstFit, find_fit-FirstFit}
use cs_24_coursework.Heap.Malloc.Place.{Mallocs, malloc-Mallocs}
use cs_24_coursework.Heap.Coalesce.Merge.{Coalesces, coalesce-Coalesces}
use cs_24_coursework.Heap.Free.{Frees, free-Frees}
use cs_24_coursework.Heap.Realloc.{realloc, calloc, memset, memcpy, read_byte, write_byte}

abbrev base : ℕ
base = 0x800000000

abbrev zeros : ℕ → ℕ
zeros a = 0

-- Blocks of 32 bytes that is used, 48 that is free, 32 that is used.
abbrev word_at : ℕ → ℕ
word_at =
    put_word
      (put_word
        (put_word (put_word (put_word (put_word zeros (base + 8) 33) (base + 32) 33) (base + 40) 48)
          (base + 80) 48)
        (base + 88) 33)
      (base + 112) 33

abbrev three : Heap
three = record {
  heap = base;
  mem_brk = base + 120;
  mem_max_addr = base + max_heap;
  memory = word_at;
  last_node = 0;
}

abbrev blocks : List Chunk
blocks = chunk 32 true ∷ chunk 48 false ∷ chunk 32 true ∷ []

three-IsHeap : IsHeap three blocks
unfolding tag
three-IsHeap = record {
  tiles = (
    record { header = refl; footer = refl; large = omega arith; multiple = refl },
    (
      record { header = refl; footer = refl; large = omega arith; multiple = refl },
      (record { header = refl; footer = refl; large = omega arith; multiple = refl }, refl),
    ),
  );
  aligned = refl;
  bounded = omega arith;
  placed = omega arith;
  below = omega arith;
}

find_fit-FirstFit_example :
    (found : Option ℕ) × (find_fit 4 40 three ≡ some found) × FirstFit 40 (base + 8) blocks found
find_fit-FirstFit_example = find_fit-FirstFit three blocks 40 4 three-IsHeap (omega arith)

malloc-Mallocs_example :
    (r : ℕ × Heap) × (malloc 4 10 three ≡ some r) × Mallocs three blocks (block_size 10) r
malloc-Mallocs_example = malloc-Mallocs three blocks 10 4 three-IsHeap (omega arith) (omega arith)

abbrev seen : List ℕ → Option (ℕ × Heap) → Option (ℕ × List ℕ)
seen addresses none = none
seen addresses (some (p, h)) = some (p, map h.memory addresses)

-- The 48 bytes are split into 32 and 16.
splits : seen ((base + 40) ∷ (base + 72) ∷ []) (malloc 4 10 three) ≡ some (base + 48, 33 ∷ 16 ∷ [])
unfolding malloc find_fit find_loop place split set_header set_footer get_size check_allocated tag
    first_block block_size round_up mem_heap_lo mem_heap_hi
splits = refl

takes_second : malloc 4 10 three ≡ some (base + 48, split (base + 40) 32 three)
unfolding malloc find_fit find_loop place get_size check_allocated first_block block_size round_up
    mem_heap_lo mem_heap_hi
takes_second = refl

-- Freeing the first block and the third.
coalesce-Coalesces_example :
    Coalesces three []
      (chunk 32 true)
      (chunk 48 false ∷ chunk 32 true ∷ [])
      (coalesce (base + 8 + total []) three)
coalesce-Coalesces_example =
    coalesce-Coalesces three [] (chunk 32 true) (chunk 48 false ∷ chunk 32 true ∷ []) three-IsHeap

free-Frees_example :
    (h' : Heap) × (free (base + 8 + total (chunk 32 true ∷ chunk 48 false ∷ []) + 8) three
      ≡ some h')
    × Frees three (chunk 32 true ∷ chunk 48 false ∷ []) (chunk 32 true) [] h'
free-Frees_example =
    free-Frees three (chunk 32 true ∷ chunk 48 false ∷ []) (chunk 32 true) [] three-IsHeap
      (omega arith) (inl refl)

-- The first block is freed, and taken again; the third is freed: the second word of the payload of
-- the first, which holds 7, becomes the next pointer of its former node.
infixl 5 ◌>>=◌
abbrev ◌>>=◌ : {A B : Type 0} → Option A → (A → Option B) → Option B
none >>= f = none
some a >>= f = f a

abbrev reuse : Option (ℕ × Heap)
reuse = do
  h₁ ← free (base + 16) three
  (p, h₂) ← malloc 4 16 h₁
  h₃ ← free (base + 96) (write_word (p + 8) 7 h₂)
  some (p, h₃)

overwrites : seen ((base + 24) ∷ []) reuse ≡ some (base + 16, (base + 48) ∷ [])
unfolding malloc find_fit find_loop place split set_header set_footer get_size check_allocated tag
    first_block block_size round_up mem_heap_lo mem_heap_hi free coalesce prev_block next_block
    if_free join add_node
overwrites = refl

-- A request of 2^64 - 1 bytes gets a block of 16.
wraps : block_size (2 ^ 64 - 1) ≡ 16
unfolding block_size round_up
wraps = refl

-- The size of 2^32 elements of 2^32 bytes wraps to 0, so that calloc gives the 16 bytes of malloc(0).
abbrev address : Option (ℕ × Heap) → ℕ
address none = 0
address (some (p, h)) = p

calloc_wraps : address (calloc 4 (2 ^ 32) (2 ^ 32) three) ≡ base + 48
unfolding calloc malloc find_fit find_loop place get_size check_allocated first_block block_size
    round_up mem_heap_lo mem_heap_hi memset
calloc_wraps = refl

-- The bytes of a word, low byte first: 513 is 1 and 2.
bytes : read_byte (base + 9) (write_byte (base + 9) 5 (write_word (base + 8) 513 three)) ≡ 5
unfolding read_byte write_byte
bytes = refl

-- realloc of the first block copies its payload to the second one.
copies :
    seen ((base + 48) ∷ []) (realloc 4 (base + 16) 10 (write_word (base + 16) 513 three))
    ≡ some (base + 48, 513 ∷ [])
unfolding malloc find_fit find_loop place split set_header set_footer get_size check_allocated tag
    first_block block_size round_up mem_heap_lo mem_heap_hi free coalesce prev_block next_block
    if_free join add_node realloc memcpy read_byte write_byte
copies = refl

-- A heap that mm_init makes: no blocks.
abbrev map_brk : Option Heap → Option ℕ
map_brk none = none
map_brk (some h) = some h.mem_brk

starts : map_brk (mm_init (mem_init base zeros)) ≡ some (base + 8)
unfolding mm_init mem_init mem_reset_brk mem_sbrk
starts = refl
