-- ===== src/Heap/Realloc.antt =====
-- realloc, calloc and mm_checkheap of project04-kweng/mm.c; memcpy and memset go byte by byte through
-- the words, the low byte of a word first.
pub mod Check
use cs_24_coursework.Prelude.{
  ℕ, zero, suc, ◌+◌, ◌-◌, ◌*◌, ◌/◌, ◌%◌, ◌^◌, ◌<◌, ◌≡◌, refl, Bool, true, false, ◌&&◌, Option, none,
  some, List, [], ◌∷◌, length, ltb, ◌==◌, if◌then◌else◌, arith,
}
use cs_24_coursework.Heap.{
  Heap, get_size, mem_heap_hi, mem_heap_lo, first_block, alignment, malloc, free, write_word,
}
use cs_24_coursework.Heap.Tiles.{Chunk, Tiles, Tiles-total, IsHeap}
use cs_24_coursework.Heap.Marks.{get_size-IsBlock}

unfoldable pub read_byte : ℕ → Heap → ℕ
read_byte a h = h.memory (a - a % 8) / 256 ^ (a % 8) % 256

unfoldable pub write_byte : ℕ → ℕ → Heap → Heap
write_byte a v h =
    let w = h.memory (a - a % 8) in
    let unit = 256 ^ (a % 8) in write_word (a - a % 8) (w - w / unit % 256 * unit + v * unit) h

unfoldable pub memcpy : ℕ → ℕ → ℕ → Heap → Heap
memcpy to from zero h = h
memcpy to from (suc n) h = memcpy (to + 1) (from + 1) n (write_byte to (read_byte from h) h)

unfoldable pub memset : ℕ → ℕ → ℕ → Heap → Heap
memset to v zero h = h
memset to v (suc n) h = memset (to + 1) v n (write_byte to v h)

abbrev pub with_null : Option Heap → Option (ℕ × Heap)
with_null none = none
with_null (some h) = some (0, h)

-- What stands behind the first call of malloc in realloc.
abbrev pub move_to : ℕ → ℕ → Option (ℕ × Heap) → Option (ℕ × Heap)
move_to old_ptr size none = none
move_to old_ptr size (some (new_ptr, h)) =
    if new_ptr == 0
    then some (0, h)
    else (let old_size = get_size h (old_ptr - 8) in
        let copied = if ltb size old_size then size else old_size in
        elim (free old_ptr (memcpy new_ptr old_ptr copied h)) [
          | none ↦ none
          | some h₁ ↦ some (new_ptr, h₁)
        ])

unfoldable pub realloc : ℕ → ℕ → ℕ → Heap → Option (ℕ × Heap)
realloc fuel old_ptr size h =
    if size == 0
    then with_null (free old_ptr h)
    else if old_ptr == 0
    then malloc fuel size h
    else move_to old_ptr size (malloc fuel size h)

abbrev pub clear : ℕ → Option (ℕ × Heap) → Option (ℕ × Heap)
clear bytes none = none
clear bytes (some (new_ptr, h)) =
    if new_ptr == 0 then some (0, h) else some (new_ptr, memset new_ptr 0 bytes h)

unfoldable pub calloc : ℕ → ℕ → ℕ → Heap → Option (ℕ × Heap)
calloc fuel nmemb size h = let bytes = nmemb * size % 2 ^ 64 in clear bytes (malloc fuel bytes h)

-- The loop of mm_checkheap on fuel, a unit a round: whether all asserts hold; `none` is no fuel left.
unfoldable pub check_loop : ℕ → ℕ → Heap → Option Bool
check_loop zero heap_pointer h = none
check_loop (suc fuel) heap_pointer h =
    let rest = check_loop fuel (heap_pointer + get_size h heap_pointer) h in
    if ltb heap_pointer (mem_heap_hi h)
    then (if ltb 0 (get_size h heap_pointer) && (get_size h heap_pointer % alignment == 0)
        then rest
        else some false)
    else some true

unfoldable pub mm_checkheap : ℕ → Heap → Option Bool
mm_checkheap fuel h = check_loop fuel (first_block h) h
