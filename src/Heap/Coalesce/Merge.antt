-- ===== src/Heap/Coalesce/Merge.antt =====
-- coalesce in full: the blocks before and after it.
use cs_24_coursework.Prelude.{
  ℕ, ◌+◌, ◌%◌, ◌≤◌, ◌≡◌, refl, sym, ap, ◌∙◌, false, Option, List, [], ◌∷◌, ◌++◌, append-nil,
  append_assoc, arith,
}
use mathlib.Core.Path.{subst}
use cs_24_coursework.Heap.{
  Heap, get_size, set_block, next_block, prev_block, if_free, join, coalesce,
}
use cs_24_coursework.Heap.Tiles.{
  Chunk, chunk, total, total-append, IsBlock, Tiles-split, Tiles-multiple, AgreeOutside, IsHeap,
  IsHeap-replace, IsHeap-IsBlock,
}
use cs_24_coursework.Heap.Marks.{
  marked, marked-IsBlock, marked-AgreeOutside, set_block-marked, get_size-IsBlock,
}
use cs_24_coursework.Heap.Coalesce.{
  Right, right_end, right_used, right_free, Left, left_far, left_used, left_free, Neighbour,
  no_neighbour, neighbour, next-Right, prev-Left,
}

-- What coalesce does to the block b between xs and ys: its block, and the heap.
pub data Coalesces (h : Heap) (xs : List Chunk) (b : Chunk) (ys : List Chunk)
    : ℕ × Heap → Type 0 where
  coalesced :
      (before ls rs after : List Chunk) (m : ℕ → ℕ)
      → Left b xs before ls
      → Right ys rs after
      → IsHeap
          (record h { memory = m })
          (before ++ chunk (total ls + b.size + total rs) false ∷ after)
      → AgreeOutside h.memory m
          (h.heap + 8 + total before)
          (h.heap + 8 + total before + total ls + b.size + total rs)
      → Coalesces h xs b ys (h.heap + 8 + total before, record h { memory = m })

pub Left-append : (b : Chunk) (xs before ls : List Chunk) → Left b xs before ls → xs ≡ before ++ ls
Left-append b xs before ls (left_far far) = sym (append-nil xs)
Left-append b xs before ls (left_used front a e u) = sym (append-nil xs)
Left-append b xs before ls (left_free front a e u near) = e

pub Right-append : (ys rs after : List Chunk) → Right ys rs after → ys ≡ rs ++ after
Right-append ys rs after (right_end e) = e
Right-append ys rs after (right_used c cs e u) = refl
Right-append ys rs after (right_free c cs e u) = e

-- The blocks that become one stand together.
pub gather :
    (before ls : List Chunk) (b : Chunk) (rs after : List Chunk)
    → (before ++ ls) ++ b ∷ (rs ++ after) ≡ before ++ ((ls ++ b ∷ rs) ++ after)
gather before ls b rs after =
    append_assoc before ls (b ∷ (rs ++ after))
    ∙ ap (◌++◌ before) (sym (append_assoc ls (b ∷ rs) after))

merge-Coalesces :
    (h : Heap) (xs : List Chunk) (b : Chunk) (ys before ls rs after : List Chunk) (n : ℕ)
    → IsHeap h (xs ++ b ∷ ys)
    → Left b xs before ls
    → Right ys rs after
    → n ≡ total ls + b.size + total rs
    → Coalesces h xs b ys
        (h.heap + 8 + total before, set_block (h.heap + 8 + total before) n false h)
unfolding total
merge-Coalesces h xs b ys before ls rs after n k left right sum =
    let start = h.heap + 8 + total before in
    let le = Left-append b xs before ls left in
    let re = Right-append ys rs after right in
    let k' =
      subst (λ zs. IsHeap h (zs ++ b ∷ (rs ++ after))) le
        (subst (λ zs. IsHeap h (xs ++ b ∷ zs)) re k) in
    let k'' = subst (IsHeap h) (gather before ls b rs after) k' in
    let t =
      Tiles-split h.memory (h.heap + 8) before ((ls ++ b ∷ rs) ++ after) h.mem_brk k''.tiles in
    let t' = Tiles-split h.memory start (ls ++ b ∷ rs) after h.mem_brk t.1 in
    let here = IsHeap-IsBlock h (before ++ ls) (rs ++ after) b k' in
    let wide = total-append ls (b ∷ rs) in
    let mult = Tiles-multiple h.memory start (ls ++ b ∷ rs) (start + total (ls ++ b ∷ rs)) t'.0 in
    let size = total ls + b.size + total rs in
    let m = marked h.memory start size false in
    let large : 16 ≤ size = omega (arith, here.large) in
    let multiple : size % 16 ≡ 0 = omega (arith, wide, mult) in
    let out = marked-AgreeOutside h.memory start size false large in
    rw sum (
      rw (set_block-marked h start size false (omega arith)) (
        coalesced before ls rs after m left right
          (IsHeap-replace h m before (ls ++ b ∷ rs) (chunk size false ∷ []) after start
            (start + size) refl (omega (arith, wide)) k'' out
            (marked-IsBlock h.memory start size false large multiple, refl))
          (λ a p. out a (omega (arith, p)))))

size_of :
    (h : Heap) (xs : List Chunk) (b : Chunk) (ys : List Chunk) (at : ℕ)
    → at ≡ h.heap + 8 + total xs
    → IsHeap h (xs ++ b ∷ ys)
    → get_size h at ≡ b.size
size_of h xs b ys at place k =
    get_size-IsBlock h at b
      (subst (λ x. IsBlock h.memory x b) (sym place) (IsHeap-IsBlock h xs ys b k))

same_start :
    (h : Heap) (xs : List Chunk) (b : Chunk) (before : List Chunk) (at : ℕ)
    → at ≡ h.heap + 8 + total xs
    → Left b xs before []
    → at ≡ h.heap + 8 + total before
same_start h xs b before at place left =
    place ∙ ap (λ zs. h.heap + 8 + total zs) (Left-append b xs before [] left ∙ append-nil before)

join-Coalesces :
    (h : Heap) (xs : List Chunk) (b : Chunk) (ys before ls rs after : List Chunk) (at : ℕ)
    (next prev : Option ℕ)
    → at ≡ h.heap + 8 + total xs
    → IsHeap h (xs ++ b ∷ ys)
    → Left b xs before ls
    → Right ys rs after
    → Neighbour h (h.heap + 8 + total before) ls prev
    → Neighbour h (at + b.size) rs next
    → Coalesces h xs b ys (join at prev next h)
unfolding join total
join-Coalesces h xs b ys before ls rs after at next prev place k left right no_neighbour
      no_neighbour =
    let size_at = size_of h xs b ys at place k in
    let start = same_start h xs b before at place left in
    rw size_at
      (rw start (merge-Coalesces h xs b ys before [] [] after b.size k left right (omega arith)))
join-Coalesces h xs b ys before ls rs after at next prev place k left right no_neighbour
      (neighbour c e) =
    let size_at = size_of h xs b ys at place k in
    let start = same_start h xs b before at place left in
    rw size_at (
      rw e (
        rw start (
          merge-Coalesces h xs b ys before [] (c ∷ []) after (b.size + c.size) k left right
            (omega arith))))
join-Coalesces h xs b ys before ls rs after at next prev place k left right (neighbour a e)
      no_neighbour =
    rw e (
      rw (size_of h xs b ys at place k) (
        merge-Coalesces h xs b ys before (a ∷ []) [] after (a.size + b.size) k left right
          (omega arith)))
join-Coalesces h xs b ys before ls rs after at next prev place k left right (neighbour a e)
      (neighbour c f) =
    rw e (
      rw (size_of h xs b ys at place k) (
        rw f (
          merge-Coalesces h xs b ys before (a ∷ []) (c ∷ []) after (a.size + b.size + c.size) k left
            right (omega arith))))

-- On a heap, coalesce of any block makes one free block of it, of the free block behind it, if there
-- is one, and of the free block in front of it, if there is one and the block is smaller than all
-- that is in front of it. The blocks fill the heap as before, and no word outside them is written.
pub coalesce-Coalesces :
    (h : Heap) (xs : List Chunk) (b : Chunk) (ys : List Chunk)
    → IsHeap h (xs ++ b ∷ ys)
    → Coalesces h xs b ys (coalesce (h.heap + 8 + total xs) h)
unfolding coalesce
coalesce-Coalesces h xs b ys k =
    let at = h.heap + 8 + total xs in
    let (rs, after, right, n) = next-Right h xs b ys at refl k in
    let (before, ls, left, p) = prev-Left h xs b ys at refl k in
    join-Coalesces h xs b ys before ls rs after at (if_free (next_block at h) h)
      (if_free (prev_block at h) h) refl k left right p n
