-- ===== src/Heap/Malloc/Place.antt =====
-- split, the growth of the heap, and malloc in full.
use cs_24_coursework.Prelude.{
  ℕ, ◌+◌, ◌-◌, ◌%◌, ◌^◌, ◌≤◌, ◌<◌, ◌≡◌, refl, sym, ◌∙◌, inl, inr, true, false, Option, some, List,
  [], ◌∷◌, ◌++◌, if◌then◌else◌, length, ltb, leb, ltb→lt, ◌||◌, Bool-cases, arith,
}
use mathlib.Core.Path.{subst}
use mathlib.Core.Option.{some-injective}
use cs_24_coursework.Heap.{Heap, split, mem_sbrk, extend, place, block_size, round_up, malloc}
use cs_24_coursework.Heap.Tiles.{
  Chunk, chunk, total, total-append, Tiles-split, Tiles-multiple, IsBlock, IsBlock-Agree, Tiles,
  Tiles-append, Tiles-Agree, AgreeOutside, IsHeap, IsHeap-replace, IsHeap-IsBlock, IsHeap-total,
}
use cs_24_coursework.Heap.Marks.{
  marked, marked-IsBlock, marked-AgreeOutside, set_block-marked, get_size-IsBlock,
}
use cs_24_coursework.Heap.Malloc.{Fits, NoneFits, FirstFit, nowhere, somewhere, find_fit-FirstFit}

-- What becomes of a free block of which n bytes are handed out.
abbrev pub cut : ℕ → Chunk → List Chunk
cut n c = if ltb n c.size then chunk n true ∷ chunk (c.size - n) false ∷ [] else chunk n true ∷ []

abbrev cut_memory : (ℕ → ℕ) → ℕ → ℕ → ℕ → ℕ → ℕ
cut_memory m b n size =
    if ltb n size then marked (marked m b n true) (b + n) (size - n) false else marked m b n true

-- What a call of malloc does whose block has n bytes: its pointer, and the heap.
pub data Mallocs (h : Heap) (cs : List Chunk) (n : ℕ) : ℕ × Heap → Type 0 where
  reused :
      (before : List Chunk) (c : Chunk) (after : List Chunk) (h' : Heap)
      → cs ≡ before ++ c ∷ after
      → NoneFits n before
      → Fits n c
      → IsHeap h' (before ++ (cut n c ++ after))
      → AgreeOutside h.memory h'.memory
          (h.heap + 8 + total before)
          (h.heap + 8 + total before + c.size)
      → Mallocs h cs n (h.heap + 8 + total before + 8, h')
  extended :
      (h' : Heap)
      → NoneFits n cs
      → IsHeap h' (cs ++ chunk n true ∷ [])
      → AgreeOutside h.memory h'.memory h.mem_brk (h.mem_brk + n)
      → Mallocs h cs n (h.mem_brk + 8, h')
  refused : NoneFits n cs → h.mem_max_addr < h.mem_brk + n → Mallocs h cs n (0, h)

split-cut :
    (h : Heap) (b n : ℕ) (c : Chunk)
    → IsBlock h.memory b c
    → c.size < 2 ^ 64
    → n ≤ c.size
    → n % 16 ≡ 0
    → split b n h ≡ record h { memory = cut_memory h.memory b n c.size }
unfolding split
split-cut h b n c k small le mult =
    let size_at = get_size-IsBlock h b c k in
    let even : n % 2 ≡ 0 = omega arith in
    let rest : (c.size + 2 ^ 64 - n) % 2 ^ 64 ≡ c.size - n = omega arith in
    let rest_even : (c.size - n) % 2 ≡ 0 = omega (arith, k.multiple) in
    let front = set_block-marked h b n true even in
    let behind =
      set_block-marked (record h { memory = marked h.memory b n true }) (b + n) (c.size - n) false
        rest_even in
    rw size_at (
      rw rest (elim (Bool-cases (ltb n c.size)) [
        | inl e ↦
            let more : ltb 0 (c.size - n) ≡ true = ground arith in
            rw more (rw front (rw behind (rw e refl)))
        | inr e ↦
            let no_more : ltb 0 (c.size - n) ≡ false = ground arith in
            rw no_more (rw front (rw e refl))
      ]))

cut-Tiles :
    (m : ℕ → ℕ) (b n : ℕ) (c : Chunk)
    → IsBlock m b c
    → n ≤ c.size
    → 16 ≤ n
    → n % 16 ≡ 0
    → Tiles (cut_memory m b n c.size) b (cut n c) (b + c.size)
cut-Tiles m b n c k le large mult = elim (Bool-cases (ltb n c.size)) [
  | inl e ↦
      let rest_large : 16 ≤ c.size - n = omega (arith, ltb→lt n c.size e, k.multiple) in
      let m₁ = marked m b n true in
      let front =
        IsBlock-Agree m₁ (marked m₁ (b + n) (c.size - n) false) b (chunk n true)
          (λ a l r. marked-AgreeOutside m₁ (b + n) (c.size - n) false rest_large a (inl r))
          (marked-IsBlock m b n true large mult) in
      let behind =
        marked-IsBlock m₁ (b + n) (c.size - n) false rest_large (omega (arith, k.multiple)) in
      rw e (front, (behind, omega arith))
  | inr e ↦ rw e (marked-IsBlock m b n true large mult, ground arith)
]

cut-AgreeOutside :
    (m : ℕ → ℕ) (b n : ℕ) (c : Chunk)
    → n ≤ c.size
    → 16 ≤ n
    → n % 16 ≡ 0
    → c.size % 16 ≡ 0
    → AgreeOutside m (cut_memory m b n c.size) b (b + c.size)
cut-AgreeOutside m b n c le large mult cmult a out = elim (Bool-cases (ltb n c.size)) [
  | inl e ↦
      let rest_large : 16 ≤ c.size - n = omega (arith, ltb→lt n c.size e) in
      rw e (
        marked-AgreeOutside (marked m b n true) (b + n) (c.size - n) false rest_large a
          (omega (arith, out))
        ∙ marked-AgreeOutside m b n true large a (omega (arith, out)))
  | inr e ↦ rw e (marked-AgreeOutside m b n true large a (omega (arith, out)))
]

extend-Mallocs :
    (h : Heap) (cs : List Chunk) (n : ℕ)
    → IsHeap h cs
    → 16 ≤ n
    → n % 16 ≡ 0
    → NoneFits n cs
    → Mallocs h cs n (extend n h)
unfolding extend mem_sbrk
extend-Mallocs h cs n k large mult none_fits =
    elim (Bool-cases (leb (2 ^ 63) n || ltb h.mem_max_addr (h.mem_brk + n))) [
      | inl e ↦ rw e (refused none_fits (ground (arith, k.below)))
      | inr e ↦
          let out = marked-AgreeOutside h.memory h.mem_brk n true large in
          rw e (
            rw
              (set_block-marked (record h { mem_brk = h.mem_brk + n }) h.mem_brk n true
                (omega arith))
              (extended
                (record h { mem_brk = h.mem_brk + n; memory = marked h.memory h.mem_brk n true })
                none_fits
                (record {
                  tiles =
                      Tiles-append (marked h.memory h.mem_brk n true) (h.heap + 8) cs
                        (chunk n true ∷ []) h.mem_brk (h.mem_brk + n)
                        (Tiles-Agree h.memory (marked h.memory h.mem_brk n true) (h.heap + 8) cs
                          h.mem_brk (λ a l r. out a (inl r)) k.tiles)
                        (marked-IsBlock h.memory h.mem_brk n true large mult, refl);
                  aligned = k.aligned;
                  bounded = ground arith;
                  placed = k.placed;
                  below = k.below;
                })
                out))
    ]

place-Mallocs :
    (h : Heap) (cs : List Chunk) (n : ℕ) (found : Option ℕ)
    → IsHeap h cs
    → 16 ≤ n
    → n % 16 ≡ 0
    → FirstFit n (h.heap + 8) cs found
    → Mallocs h cs n (place n found h)
unfolding place total
place-Mallocs h cs n found k large mult (nowhere all) = extend-Mallocs h cs n k large mult all
place-Mallocs h cs n found k large mult (somewhere before c after e all good) =
    let k' : IsHeap h (before ++ c ∷ after) = subst (IsHeap h) e k in
    let here = IsHeap-IsBlock h before after c k' in
    let b = h.heap + 8 + total before in
    let whole = IsHeap-total h (before ++ c ∷ after) k' in
    let sum = total-append before (c ∷ after) in
    let small : c.size < 2 ^ 64 = omega (arith, whole, sum, k.bounded, k.below) in
    let m = cut_memory h.memory b n c.size in
    rw (split-cut h b n c here small good.0 mult) (
      reused before c after (record h { memory = m }) e all good
        (IsHeap-replace h m before (c ∷ []) (cut n c) after b (b + c.size) refl (omega arith) k'
          (cut-AgreeOutside h.memory b n c good.0 large mult here.multiple)
          (cut-Tiles h.memory b n c here good.0 large mult))
        (cut-AgreeOutside h.memory b n c good.0 large mult here.multiple))

-- Below 2^64 - 31 the block holds the request, the two tags, and at most 15 bytes more.
pub block_size-holds :
    (size : ℕ)
    → size + 31 < 2 ^ 64
    → (block_size size % 16 ≡ 0) × (size + 16 ≤ block_size size) × (block_size size < size + 32)
unfolding block_size round_up
block_size-holds size h = (omega arith, omega arith, omega arith)

-- On a heap, with a unit of fuel for each block and one more, malloc of fewer than 2^64 - 31 bytes
-- ends. It takes the first free block that is large enough, cuts off what is left over as a free
-- block, and gives its payload; or it adds a block at the end; or it gives NULL and changes nothing,
-- when no block fits and the heap cannot grow. The blocks fill the heap as before, with equal tags
-- at both ends of each, and no word outside the block is written.
pub malloc-Mallocs :
    (h : Heap) (cs : List Chunk) (size fuel : ℕ)
    → IsHeap h cs
    → length cs < fuel
    → size + 31 < 2 ^ 64
    → (r : ℕ × Heap) × (malloc fuel size h ≡ some r) × Mallocs h cs (block_size size) r
unfolding malloc
malloc-Mallocs h cs size fuel k enough small =
    let (mult, large, _) = block_size-holds size small in
    let n = block_size size in
    let (found, runs, first) = find_fit-FirstFit h cs n fuel k enough in
    (place n found h, rw runs refl, place-Mallocs h cs n found k (omega arith) mult first)

Mallocs-aligned :
    (h : Heap) (cs : List Chunk) (n : ℕ) (r : ℕ × Heap)
    → IsHeap h cs
    → Mallocs h cs n r
    → r.0 % 16 ≡ 0
Mallocs-aligned h cs n r k (reused before c after h' e all good k' out) =
    let t : Tiles h.memory (h.heap + 8) (before ++ c ∷ after) h.mem_brk =
      (subst (IsHeap h) e k).tiles in
    let t' = Tiles-split h.memory (h.heap + 8) before (c ∷ after) h.mem_brk t in
    omega (arith, k.aligned, Tiles-multiple h.memory (h.heap + 8) before _ t'.0)
Mallocs-aligned h cs n r k (extended h' all k' out) = omega (
  arith,
  k.aligned,
  IsHeap-total h cs k,
  Tiles-multiple h.memory (h.heap + 8) cs h.mem_brk k.tiles,
)
Mallocs-aligned h cs n r k (refused all full) = refl

-- On a heap, with a unit of fuel for each block and one more, and for fewer than 2^64 - 31 bytes: a
-- pointer that malloc gives is NULL or a multiple of 16.
pub malloc-aligned :
    (h : Heap) (cs : List Chunk) (size fuel : ℕ) (r : ℕ × Heap)
    → IsHeap h cs
    → length cs < fuel
    → size + 31 < 2 ^ 64
    → malloc fuel size h ≡ some r
    → r.0 % 16 ≡ 0
malloc-aligned h cs size fuel r k enough small e =
    let (r', runs, does) = malloc-Mallocs h cs size fuel k enough small in
    let same : r' ≡ r = some-injective _ _ (sym runs ∙ e) in
    Mallocs-aligned h cs (block_size size) r k (subst (Mallocs h cs (block_size size)) same does)
