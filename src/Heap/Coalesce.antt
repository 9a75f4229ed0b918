-- ===== src/Heap/Coalesce.antt =====
-- coalesce: the neighbours that it finds, and the block that it makes of them.
pub mod Merge
use cs_24_coursework.Prelude.{
  ℕ, zero, suc, ◌+◌, ◌-◌, ◌*◌, ◌%◌, ◌^◌, ◌≤◌, ◌<◌, ◌≡◌, ◌≢◌, refl, sym, ap, ◌∙◌, ◌⊎◌, inl, inr,
  Bool, true, false, Option, none, some, List, [], ◌∷◌, ◌++◌, ◌==◌, if◌then◌else◌, length, ltb, leb,
  leb→le, Bool-cases, append_assoc, arith,
}
use mathlib.Core.Path.{subst}
use native.Mathlib.Decide.{dec_le}
use cs_24_coursework.Heap.{
  Heap, get_size, check_allocated, mem_heap_hi, mem_heap_lo, first_block, next_block, prev_block,
  if_free, tag,
}
use cs_24_coursework.Heap.Tiles.{
  Chunk, total, total-append, IsBlock, Tiles, Tiles-split, Tiles-total, IsHeap, IsHeap-IsBlock,
  IsHeap-total,
}
use cs_24_coursework.Heap.Marks.{get_size-IsBlock, check_allocated-IsBlock, tag-mod}

-- The block in front of the rest, and what is left of it: one free block is taken, or none, if there
-- is none.
pub data Right (ys : List Chunk) : List Chunk → List Chunk → Type 0 where
  right_end : ys ≡ [] → Right ys [] []
  right_used : (c : Chunk) (after : List Chunk) → ys ≡ c ∷ after → c.used ≡ true → Right ys [] ys
  right_free :
      (c : Chunk) (after : List Chunk) → ys ≡ c ∷ after → c.used ≡ false → Right ys (c ∷ []) after

-- The same at the end of the blocks xs; but a block is taken only if the block b is smaller than all
-- of xs.
pub data Left (b : Chunk) (xs : List Chunk) : List Chunk → List Chunk → Type 0 where
  left_far : total xs ≤ b.size → Left b xs xs []
  left_used :
      (before : List Chunk) (a : Chunk) → xs ≡ before ++ a ∷ [] → a.used ≡ true → Left b xs xs []
  left_free :
      (before : List Chunk) (a : Chunk)
      → xs ≡ before ++ a ∷ []
      → a.used ≡ false
      → b.size < total xs
      → Left b xs before (a ∷ [])

-- A neighbour as coalesce has it: NULL, or a free block and its size.
pub data Neighbour (h : Heap) (at : ℕ) : List Chunk → Option ℕ → Type 0 where
  no_neighbour : Neighbour h at [] none
  neighbour : (c : Chunk) → get_size h at ≡ c.size → Neighbour h at (c ∷ []) (some at)

if_free-used : (h : Heap) (x : ℕ) → check_allocated h x ≡ true → if_free (some x) h ≡ none
unfolding if_free
if_free-used h x e = rw e refl

if_free-free : (h : Heap) (x : ℕ) → check_allocated h x ≡ false → if_free (some x) h ≡ some x
unfolding if_free
if_free-free h x e = rw e refl

pub next-Right :
    (h : Heap) (xs : List Chunk) (b : Chunk) (ys : List Chunk) (at : ℕ)
    → at ≡ h.heap + 8 + total xs
    → IsHeap h (xs ++ b ∷ ys)
    → (rs : List Chunk) × (after : List Chunk) × Right ys rs after
      × Neighbour h (at + b.size) rs (if_free (next_block at h) h)
unfolding next_block mem_heap_hi total if_free
next-Right h xs b [] at place k =
    let here = IsHeap-IsBlock h xs [] b k in
    let whole = IsHeap-total h (xs ++ b ∷ []) k in
    let sum = total-append xs (b ∷ []) in
    let size_at = get_size-IsBlock h at b (subst (λ x. IsBlock h.memory x b) (sym place) here) in
    let last : leb (h.mem_brk - 1) (at + b.size) ≡ true = ground (arith, place, whole, sum) in
    ([], [], right_end refl, rw size_at (rw last no_neighbour))
next-Right h xs b (c ∷ ys) at place k =
    let t = (Tiles-split h.memory (h.heap + 8) xs (b ∷ c ∷ ys) h.mem_brk k.tiles).1 in
    let sum = Tiles-total h.memory (h.heap + 8 + total xs + b.size + c.size) ys h.mem_brk t.1.1 in
    let size_at = get_size-IsBlock h at b (subst (λ x. IsBlock h.memory x b) (sym place) t.0) in
    let here : IsBlock h.memory (at + b.size) c =
      subst (λ x. IsBlock h.memory (x + b.size) c) (sym place) t.1.0 in
    let more : leb (h.mem_brk - 1) (at + b.size) ≡ false = ground (arith, place, sum, here.large) in
    let used_at = check_allocated-IsBlock h (at + b.size) c here in
    rw size_at (
      rw more (elim (Bool-cases c.used) [
        | inl e ↦ (
          [],
          c ∷ ys,
          right_used c ys refl e,
          rw (if_free-used h (at + b.size) (used_at ∙ e)) no_neighbour,
        )
        | inr e ↦ (
          c ∷ [],
          ys,
          right_free c ys refl e,
          rw (if_free-free h (at + b.size) (used_at ∙ e))
              (neighbour c (get_size-IsBlock h (at + b.size) c here)),
        )
      ]))

-- The last of some blocks.
last-cases :
    (xs : List Chunk) → (xs ≡ []) ⊎ ((before : List Chunk) × (a : Chunk) × (xs ≡ before ++ a ∷ []))
last-cases [] = inl refl
last-cases (x ∷ xs) = elim (last-cases xs) [
  | inl e ↦ inr ([], x, ap (◌∷◌ x) e)
  | inr (before, a, e) ↦ inr (x ∷ before, a, ap (◌∷◌ x) e)
]

-- What prev_block gives: NULL, if b is not smaller than what is in front of it.
prev-far :
    (h : Heap) (xs : List Chunk) (b : Chunk) (ys : List Chunk) (at : ℕ)
    → at ≡ h.heap + 8 + total xs
    → IsHeap h (xs ++ b ∷ ys)
    → total xs ≤ b.size
    → prev_block at h ≡ none
unfolding prev_block first_block mem_heap_lo total
prev-far h xs b ys at place k far =
    let here = subst (λ x. IsBlock h.memory x b) (sym place) (IsHeap-IsBlock h xs ys b k) in
    let sum = total-append xs (b ∷ ys) in
    let whole = IsHeap-total h (xs ++ b ∷ ys) k in
    let stop : leb ((at + 2 ^ 64 - b.size) % 2 ^ 64) (h.heap + 16 - 8) ≡ true =
      ground (arith, place, sum, whole, k.bounded, k.placed, k.below) in
    rw (get_size-IsBlock h at b here) (rw stop refl)

prev-near :
    (h : Heap) (xs : List Chunk) (a b : Chunk) (ys : List Chunk) (at : ℕ)
    → at ≡ h.heap + 8 + total (xs ++ a ∷ [])
    → IsHeap h ((xs ++ a ∷ []) ++ b ∷ ys)
    → b.size < total (xs ++ a ∷ [])
    → prev_block at h ≡ some (h.heap + 8 + total xs)
unfolding prev_block first_block mem_heap_lo total
prev-near h xs a b ys at place k near =
    let here =
      subst (λ x. IsBlock h.memory x b) (sym place) (IsHeap-IsBlock h (xs ++ a ∷ []) ys b k) in
    let sum = total-append (xs ++ a ∷ []) (b ∷ ys) in
    let whole = IsHeap-total h ((xs ++ a ∷ []) ++ b ∷ ys) k in
    let front = total-append xs (a ∷ []) in
    let before =
      IsHeap-IsBlock h xs (b ∷ ys) a (subst (IsHeap h) (append_assoc xs (a ∷ []) (b ∷ ys)) k) in
    let go : leb ((at + 2 ^ 64 - b.size) % 2 ^ 64) (h.heap + 16 - 8) ≡ false =
      ground (arith, place, sum, whole, k.bounded, k.placed, k.below) in
    let footer : h.memory (at - 8) ≡ tag a.size a.used =
      subst (λ x. h.memory x ≡ tag a.size a.used) (omega (arith, place, front)) before.footer in
    let size_of = tag-mod a.size a.used (omega (arith, before.multiple)) in
    let back : at - a.size ≡ h.heap + 8 + total xs = omega (arith, place, front) in
    rw (get_size-IsBlock h at b here) (rw go (rw footer (rw size_of (ap some back))))

prev-Left_near :
    (h : Heap) (xs : List Chunk) (a b : Chunk) (ys : List Chunk) (at : ℕ)
    → at ≡ h.heap + 8 + total (xs ++ a ∷ [])
    → IsHeap h ((xs ++ a ∷ []) ++ b ∷ ys)
    → b.size < total (xs ++ a ∷ [])
    → (before : List Chunk) × (ls : List Chunk) × Left b (xs ++ a ∷ []) before ls
      × Neighbour h (h.heap + 8 + total before) ls (if_free (prev_block at h) h)
unfolding if_free
prev-Left_near h xs a b ys at place k near =
    let k' = subst (IsHeap h) (append_assoc xs (a ∷ []) (b ∷ ys)) k in
    let before = IsHeap-IsBlock h xs (b ∷ ys) a k' in
    let back = h.heap + 8 + total xs in
    let used_at = check_allocated-IsBlock h back a before in
    rw (prev-near h xs a b ys at place k near) (elim (Bool-cases a.used) [
      | inl e ↦ (
        xs ++ a ∷ [],
        [],
        left_used xs a refl e,
        rw (if_free-used h back (used_at ∙ e)) no_neighbour,
      )
      | inr e ↦ (
        xs,
        a ∷ [],
        left_free xs a refl e near,
        rw (if_free-free h back (used_at ∙ e)) (neighbour a (get_size-IsBlock h back a before)),
      )
    ])

pub prev-Left :
    (h : Heap) (xs : List Chunk) (b : Chunk) (ys : List Chunk) (at : ℕ)
    → at ≡ h.heap + 8 + total xs
    → IsHeap h (xs ++ b ∷ ys)
    → (before : List Chunk) × (ls : List Chunk) × Left b xs before ls
      × Neighbour h (h.heap + 8 + total before) ls (if_free (prev_block at h) h)
unfolding if_free total
prev-Left h xs b ys at place k = elim (dec_le (total xs) b.size) [
  | yes far ↦ (xs, [], left_far far, rw (prev-far h xs b ys at place k far) no_neighbour)
  | no near ↦ elim (last-cases xs) [
    | inl e ↦ absurd (near (rw e (omega arith)))
    | inr (front, a, e) ↦
        subst
          (λ zs.
            (before : List Chunk) × (ls : List Chunk) × Left b zs before ls
            × Neighbour h (h.heap + 8 + total before) ls (if_free (prev_block at h) h))
          (sym e)
          (prev-Left_near h front a b ys at (place ∙ ap (λ zs. h.heap + 8 + total zs) e)
            (subst (λ zs. IsHeap h (zs ++ b ∷ ys)) e k)
            (subst (λ zs. b.size < total zs) e (omega (arith, near))))
  ]
]
