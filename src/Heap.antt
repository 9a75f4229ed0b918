-- ===== src/Heap.antt =====
-- project04-kweng/mm.c over project04-kweng/memlib.c: malloc and free with boundary tags. The memory
-- is its 8-byte words, each at its address; a block is the address of its header, NULL is 0.
pub mod Tiles
pub mod Marks
pub mod Malloc
pub mod Coalesce
pub mod Tags
pub mod Free
pub mod Realloc
mod Tests
use cs_24_coursework.Prelude.{
  ℕ, zero, suc, ◌+◌, ◌-◌, ◌*◌, ◌/◌, ◌%◌, ◌^◌, Bool, true, false, ◌&&◌, ◌||◌, not, Option, none,
  some, ltb, leb, ◌==◌, if◌then◌else◌,
}

-- The variables of memlib.c, the words, and last_node.
pub record Heap : Type 0 where
  pub heap : ℕ
  pub mem_brk : ℕ
  pub mem_max_addr : ℕ
  pub memory : ℕ → ℕ
  pub last_node : ℕ

abbrev pub alignment : ℕ
alignment = 16

abbrev pub max_heap : ℕ
max_heap = 100 * 2 ^ 20

abbrev pub put_word : (ℕ → ℕ) → ℕ → ℕ → ℕ → ℕ
put_word m a v y = if y == a then v else m y

-- `memory` is what mmap maps at the address `heap`.
unfoldable pub mem_init : ℕ → (ℕ → ℕ) → Heap
mem_init heap memory = record {
  heap = heap;
  mem_brk = heap;
  mem_max_addr = heap + max_heap;
  memory = memory;
  last_node = 0;
}

unfoldable pub mem_reset_brk : Heap → Heap
mem_reset_brk h = record h { mem_brk = h.heap }

-- `incr` is the pattern of a long; `none` is (void *)-1.
unfoldable pub mem_sbrk : ℕ → Heap → Option (ℕ × Heap)
mem_sbrk incr h =
    if leb (2 ^ 63) incr || ltb h.mem_max_addr (h.mem_brk + incr)
    then none
    else some (h.mem_brk, record h { mem_brk = h.mem_brk + incr })

unfoldable pub mem_heap_lo : Heap → ℕ
mem_heap_lo h = h.heap

unfoldable pub mem_heap_hi : Heap → ℕ
mem_heap_hi h = h.mem_brk - 1

unfoldable pub mem_heapsize : Heap → ℕ
mem_heapsize h = h.mem_brk - h.heap

unfoldable pub round_up : ℕ → ℕ → ℕ
round_up size n = (size + n - 1) % 2 ^ 64 / n * n

unfoldable pub get_size : Heap → ℕ → ℕ
get_size h block = h.memory block - h.memory block % 2

unfoldable pub check_allocated : Heap → ℕ → Bool
check_allocated h block = h.memory block % 2 == 1

-- size | is_allocated
unfoldable pub tag : ℕ → Bool → ℕ
tag size is_allocated = if is_allocated then size - size % 2 + 1 else size

unfoldable pub set_header : ℕ → ℕ → Bool → Heap → Heap
set_header block size is_allocated h = record h {
  memory = put_word h.memory block (tag size is_allocated);
}

unfoldable pub set_footer : ℕ → Heap → Heap
set_footer block h =
    let size = get_size h block in
    record h { memory = put_word h.memory (block + size - 8) (tag size (check_allocated h block)) }

-- A call of set_header and one of set_footer.
abbrev pub set_block : ℕ → ℕ → Bool → Heap → Heap
set_block block size is_allocated h = set_footer block (set_header block size is_allocated h)

-- The block in which the heap starts: the first payload is at a multiple of ALIGNMENT.
unfoldable pub first_block : Heap → ℕ
first_block h = mem_heap_lo h + alignment - 8

-- `none` is -1.
unfoldable pub mm_init : Heap → Option Heap
mm_init h = elim (mem_sbrk (alignment - 8) (mem_reset_brk h)) [
  | none ↦ none
  | some (old, h₁) ↦ some h₁
]

-- The block behind b.
unfoldable pub next_block : ℕ → Heap → Option ℕ
next_block b h = if leb (mem_heap_hi h) (b + get_size h b) then none else some (b + get_size h b)

-- The block that ends in front of b.
unfoldable pub prev_block : ℕ → Heap → Option ℕ
prev_block b h =
    if leb ((b + 2 ^ 64 - get_size h b) % 2 ^ 64) (first_block h)
    then none
    else some (b - (h.memory (b - 8) - h.memory (b - 8) % 2))

-- A block that is there and free.
unfoldable pub if_free : Option ℕ → Heap → Option ℕ
if_free none h = none
if_free (some x) h = if check_allocated h x then none else some x

unfoldable pub join : ℕ → Option ℕ → Option ℕ → Heap → ℕ × Heap
join b (some a) (some c) h = (a, set_block a (get_size h a + get_size h b + get_size h c) false h)
join b none (some c) h = (b, set_block b (get_size h b + get_size h c) false h)
join b (some a) none h = (a, set_block a (get_size h a + get_size h b) false h)
join b none none h = (b, set_block b (get_size h b) false h)

unfoldable pub coalesce : ℕ → Heap → ℕ × Heap
coalesce b h = join b (if_free (prev_block b h) h) (if_free (next_block b h) h) h

-- The loop of find_fit on fuel, a unit a round: `none` is no fuel left, `some none` is NULL.
unfoldable pub find_loop : ℕ → ℕ → ℕ → Heap → Option (Option ℕ)
find_loop zero size heap_pointer h = none
find_loop (suc fuel) size heap_pointer h =
    let rest = find_loop fuel size (heap_pointer + get_size h heap_pointer) h in
    if ltb heap_pointer (mem_heap_hi h)
    then (if leb size (get_size h heap_pointer) && not (check_allocated h heap_pointer)
        then some (some heap_pointer)
        else rest)
    else some none

unfoldable pub find_fit : ℕ → ℕ → Heap → Option (Option ℕ)
find_fit fuel size h = find_loop fuel size (first_block h) h

unfoldable pub split : ℕ → ℕ → Heap → Heap
split block s h =
    let s_size = (get_size h block + 2 ^ 64 - s) % 2 ^ 64 in
    let h₁ = set_block block s true h in
    if ltb 0 s_size then set_block (block + s) s_size false h₁ else h₁

-- A new block at the end of the heap; 0 is NULL.
abbrev pub fill : ℕ → Heap → Option (ℕ × Heap) → ℕ × Heap
fill size h none = (0, h)
fill size h (some (block, h₁)) = (block + 8, set_block block size true h₁)

unfoldable pub extend : ℕ → Heap → ℕ × Heap
extend size h = fill size h (mem_sbrk size h)

unfoldable pub place : ℕ → Option ℕ → Heap → ℕ × Heap
place size none h = extend size h
place size (some block) h = (block + 8, split block size h)

-- The size of a block for a request, sums modulo 2^64.
unfoldable pub block_size : ℕ → ℕ
block_size size = round_up ((8 + size + 8) % 2 ^ 64) alignment

abbrev pub place_in : ℕ → Option (Option ℕ) → Heap → Option (ℕ × Heap)
place_in size none h = none
place_in size (some found) h = some (place size found h)

-- `none` is a find_fit that has run out of fuel.
unfoldable pub malloc : ℕ → ℕ → Heap → Option (ℕ × Heap)
malloc fuel size h = place_in (block_size size) (find_fit fuel (block_size size) h) h

abbrev pub write_word : ℕ → ℕ → Heap → Heap
write_word a v h = record h { memory = put_word h.memory a v }

-- The node in the payload of a free block: prev, then next.
unfoldable pub add_node : ℕ → Heap → Heap
add_node curr_node h =
    let h₁ = write_word (curr_node + 8) 0 (write_word curr_node 0 h) in
    let h₂ =
      if h.last_node == 0
      then h₁
      else write_word curr_node h.last_node (write_word (h.last_node + 8) curr_node h₁) in
    record h₂ { last_node = curr_node }

-- What stands behind coalesce in free; `none` is the failed assert.
abbrev pub link_block : ℕ × Heap → Option Heap
link_block (block, h) = if check_allocated h block then none else some (add_node (block + 8) h)

unfoldable pub free : ℕ → Heap → Option Heap
free ptr h = if ptr == 0 then some h else link_block (coalesce (ptr - 8) h)
