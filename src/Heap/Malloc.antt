-- ===== src/Heap/Malloc.antt =====
-- find_fit as a search in the list of the blocks, and what malloc does to the list.
pub mod Place
use cs_24_coursework.Prelude.{
  ℕ, zero, suc, ◌+◌, ◌-◌, ◌*◌, ◌%◌, ◌^◌, ◌≤◌, ◌<◌, ◌≡◌, ◌≢◌, refl, sym, ap, ◌∙◌, ◌⊎◌, inl, inr,
  Bool, true, false, Option, none, some, List, [], ◌∷◌, ◌++◌, ◌==◌, if◌then◌else◌, length, ltb, leb,
  ◌&&◌, not, Bool-cases, arith,
}
use mathlib.Core.Path.{subst}
use cs_24_coursework.Heap.{
  Heap, get_size, check_allocated, mem_heap_hi, mem_heap_lo, first_block, find_loop, find_fit,
}
use cs_24_coursework.Heap.Tiles.{Chunk, total, IsBlock, Tiles, Tiles-total, IsHeap}
use cs_24_coursework.Heap.Marks.{get_size-IsBlock, check_allocated-IsBlock}

-- A free block that is large enough.
abbrev pub Fits : ℕ → Chunk → Type 0
Fits size c = (size ≤ c.size) × (c.used ≡ false)

abbrev pub NoneFits : ℕ → List Chunk → Type 0
NoneFits size [] = Unit {0}
NoneFits size (c ∷ cs) = (¬ Fits size c) × NoneFits size cs

-- The address of the first block that fits, of blocks that start at an address; `none` if none does.
pub data FirstFit (size start : ℕ) (cs : List Chunk) : Option ℕ → Type 0 where
  nowhere : NoneFits size cs → FirstFit size start cs none
  somewhere :
      (before : List Chunk) (c : Chunk) (after : List Chunk)
      → cs ≡ before ++ c ∷ after
      → NoneFits size before
      → Fits size c
      → FirstFit size start cs (some (start + total before))

FirstFit-skip :
    (size start : ℕ) (c : Chunk) (cs : List Chunk) (found : Option ℕ)
    → ¬ Fits size c
    → FirstFit size (start + c.size) cs found
    → FirstFit size start (c ∷ cs) found
unfolding total
FirstFit-skip size start c cs found bad (nowhere all) = nowhere (bad, all)
FirstFit-skip size start c cs found bad (somewhere before d after e all good) =
    subst (λ a. FirstFit size start (c ∷ cs) (some a)) (omega arith)
      (somewhere (c ∷ before) d after (ap (◌∷◌ c) e) (bad, all) good)

-- The test of the loop, on a block.
abbrev fits : ℕ → Chunk → Bool
fits size c = leb size c.size && not c.used

fits_sound : (size : ℕ) (c : Chunk) → fits size c ≡ true → Fits size c
fits_sound size c h = (ground arith, ground arith)

fits_complete : (size : ℕ) (c : Chunk) → fits size c ≡ false → ¬ Fits size c
fits_complete size c h p = ground arith

find_loop-FirstFit :
    (h : Heap) (size : ℕ) (fuel : ℕ) (start : ℕ) (cs : List Chunk)
    → Tiles h.memory start cs h.mem_brk
    → length cs < fuel
    → (found : Option ℕ) × (find_loop fuel size start h ≡ some found) × FirstFit size start cs found
unfolding find_loop mem_heap_hi total
find_loop-FirstFit h size zero start cs t k = absurd (omega arith)
find_loop-FirstFit h size (suc fuel) start [] t k =
    let stop : ltb start (h.mem_brk - 1) ≡ false = ground (arith, t) in
    (none, rw stop refl, nowhere tt)
find_loop-FirstFit h size (suc fuel) start (c ∷ cs) t k =
    let len = Tiles-total h.memory (start + c.size) cs h.mem_brk t.1 in
    let here : start < h.mem_brk - 1 = omega (arith, t.0.large) in
    let go : ltb start (h.mem_brk - 1) ≡ true = ground arith in
    let size_at = get_size-IsBlock h start c t.0 in
    let used_at = check_allocated-IsBlock h start c t.0 in
    let (found, runs, first) =
      find_loop-FirstFit h size fuel (start + c.size) cs t.1 (omega arith) in
    elim (Bool-cases (fits size c)) [
      | inl e ↦ (
        some start,
        rw go (rw size_at (rw used_at (rw e refl))),
        subst (λ a. FirstFit size start (c ∷ cs) (some a)) (omega arith)
            (somewhere [] c cs refl tt (fits_sound size c e)),
      )
      | inr e ↦ (
        found,
        rw go (rw size_at (rw used_at (rw e runs))),
        FirstFit-skip size start c cs found (fits_complete size c e) first,
      )
    ]

-- On a heap, find_fit ends: a unit of fuel for each block and one more is enough. What it finds is
-- the first free block of the size or a larger one, and NULL only if there is none.
pub find_fit-FirstFit :
    (h : Heap) (cs : List Chunk) (size fuel : ℕ)
    → IsHeap h cs
    → length cs < fuel
    → (found : Option ℕ) × (find_fit fuel size h ≡ some found) × FirstFit size (h.heap + 8) cs found
unfolding find_fit first_block mem_heap_lo
find_fit-FirstFit h cs size fuel k enough =
    subst
      (λ start.
        (found : Option ℕ) × (find_loop fuel size start h ≡ some found)
        × FirstFit size (h.heap + 8) cs found)
      {x = h.heap + 8} (omega arith) (find_loop-FirstFit h size fuel (h.heap + 8) cs k.tiles enough)
