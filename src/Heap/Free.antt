-- ===== src/Heap/Free.antt =====
-- free: the node that it writes beside the tags, and the heap that it leaves.
use cs_24_coursework.Prelude.{
  ℕ, ◌+◌, ◌-◌, ◌≤◌, ◌<◌, ◌≡◌, ◌≢◌, refl, ◌∙◌, ◌⊎◌, inl, inr, false, some, List, ◌∷◌, ◌++◌, ◌==◌,
  Bool-cases, arith,
}
use mathlib.Core.Path.{subst}
use cs_24_coursework.Heap.{Heap, put_word, coalesce, write_word, add_node, link_block, free}
use cs_24_coursework.Heap.Tiles.{Chunk, chunk, total, total-append, IsHeap, IsHeap-IsBlock}
use cs_24_coursework.Heap.Marks.{put_word_other, check_allocated-IsBlock}
use cs_24_coursework.Heap.Coalesce.{Left, Right}
use cs_24_coursework.Heap.Coalesce.Merge.{
  Coalesces, coalesced, coalesce-Coalesces, Left-append, Right-append, gather,
}
use cs_24_coursework.Heap.Tags.{NotTag, NotTag-merge, NotTag-payload, IsHeap-write_word}

-- The next pointer of last_node, if there is one, is no tag.
abbrev pub LastIsApart : Heap → List Chunk → Type 0
LastIsApart h cs = (h.last_node ≡ 0) ⊎ NotTag (h.last_node + 8) (h.heap + 8) cs

-- What free does to the block b between xs and ys: it is one free block with its free neighbours, and
-- the last node. Beside that block only the next pointer of the former last node is written.
pub data Frees (h : Heap) (xs : List Chunk) (b : Chunk) (ys : List Chunk) : Heap → Type 0 where
  freed :
      (before ls rs after : List Chunk) (h' : Heap)
      → Left b xs before ls
      → Right ys rs after
      → IsHeap h' (before ++ chunk (total ls + b.size + total rs) false ∷ after)
      → h'.last_node ≡ h.heap + 8 + total before + 8
      → ((a : ℕ)
          → (a < h.heap + 8 + total before)
            ⊎ (h.heap + 8 + total before + total ls + b.size + total rs ≤ a)
          → (h'.memory a ≡ h.memory a) ⊎ (a ≡ h.last_node + 8))
      → Frees h xs b ys h'

IsHeap-last_node :
    (h : Heap) (cs : List Chunk) (node : ℕ)
    → IsHeap h cs
    → IsHeap (record h { last_node = node }) cs
IsHeap-last_node h cs node k = record {
  tiles = k.tiles;
  aligned = k.aligned;
  bounded = k.bounded;
  placed = k.placed;
  below = k.below;
}

-- add_node keeps the blocks, if its node is in a payload and the last one's next pointer is no tag.
add_node-IsHeap :
    (h : Heap) (cs : List Chunk) (node : ℕ)
    → NotTag node (h.heap + 8) cs
    → NotTag (node + 8) (h.heap + 8) cs
    → LastIsApart h cs
    → IsHeap h cs
    → IsHeap (add_node node h) cs
unfolding add_node
add_node-IsHeap h cs node n₀ n₁ apart k =
    let h₁ = write_word (node + 8) 0 (write_word node 0 h) in
    let k₁ : IsHeap h₁ cs =
      IsHeap-write_word (write_word node 0 h) cs (node + 8) 0 n₁
        (IsHeap-write_word h cs node 0 n₀ k) in
    elim (Bool-cases (h.last_node == 0)) [
      | inl e ↦ rw e (IsHeap-last_node h₁ cs node k₁)
      | inr e ↦ elim apart [
        | inl z ↦ absurd (ground arith)
        | inr n ↦
            let h₂ = write_word (h.last_node + 8) node h₁ in
            let h₃ = write_word node h.last_node h₂ in
            rw e (
              IsHeap-last_node h₃ cs node (
                IsHeap-write_word h₂ cs node h.last_node n₀
                  (IsHeap-write_word h₁ cs (h.last_node + 8) node n k₁)))
      ]
    ]

two_writes_other :
    (h : Heap) (node v a : ℕ)
    → a ≢ node
    → a ≢ node + 8
    → put_word (put_word h.memory node 0) (node + 8) v a ≡ h.memory a
two_writes_other h node v a n₀ n₁ =
    put_word_other (put_word h.memory node 0) (node + 8) v a n₁
    ∙ put_word_other h.memory node 0 a n₀

add_node_other :
    (h : Heap) (node a : ℕ)
    → a ≢ node
    → a ≢ node + 8
    → ((add_node node h).memory a ≡ h.memory a) ⊎ (a ≡ h.last_node + 8)
unfolding add_node
add_node_other h node a n₀ n₁ = elim (Bool-cases (h.last_node == 0)) [
  | inl e ↦ rw e (inl (two_writes_other h node 0 a n₀ n₁))
  | inr e ↦ elim (Bool-cases (a == h.last_node + 8)) [
    | inl here ↦ inr (ground arith)
    | inr away ↦
        let m = put_word (put_word h.memory node 0) (node + 8) 0 in
        rw e (
          inl (
            put_word_other (put_word m (h.last_node + 8) node) node h.last_node a n₀
            ∙ put_word_other m (h.last_node + 8) node a (ground arith)
            ∙ two_writes_other h node 0 a n₀ n₁))
  ]
]

add_node_last : (h : Heap) (node : ℕ) → (add_node node h).last_node ≡ node
unfolding add_node
add_node_last h node = refl

LastIsApart-merge :
    (h : Heap) (xs : List Chunk) (b : Chunk) (ys before ls rs after : List Chunk) (m : ℕ → ℕ)
    → 32 ≤ b.size
    → Left b xs before ls
    → Right ys rs after
    → LastIsApart h (xs ++ b ∷ ys)
    → LastIsApart
        (record h { memory = m })
        (before ++ chunk (total ls + b.size + total rs) false ∷ after)
unfolding total
LastIsApart-merge h xs b ys before ls rs after m large left right (inl z) = inl z
LastIsApart-merge h xs b ys before ls rs after m large left right (inr n) =
    let le = Left-append b xs before ls left in
    let re = Right-append ys rs after right in
    let n' =
      subst (λ zs. NotTag (h.last_node + 8) (h.heap + 8) (zs ++ b ∷ (rs ++ after))) le
        (subst (λ zs. NotTag (h.last_node + 8) (h.heap + 8) (xs ++ b ∷ zs)) re n) in
    let size = total ls + b.size + total rs in
    let wide = total-append ls (b ∷ rs) in
    inr (
      NotTag-merge (h.last_node + 8) (h.heap + 8) before (ls ++ b ∷ rs) after size
        (omega (arith, wide)) (omega arith)
        (subst (NotTag (h.last_node + 8) (h.heap + 8)) (gather before ls b rs after) n'))

link_block-Frees :
    (h : Heap) (xs : List Chunk) (b : Chunk) (ys : List Chunk) (r : ℕ × Heap)
    → IsHeap h (xs ++ b ∷ ys)
    → 32 ≤ b.size
    → LastIsApart h (xs ++ b ∷ ys)
    → Coalesces h xs b ys r
    → (h' : Heap) × (link_block r ≡ some h') × Frees h xs b ys h'
link_block-Frees h xs b ys r k large apart (coalesced before ls rs after m left right k' same) =
    let start = h.heap + 8 + total before in
    let size = total ls + b.size + total rs in
    let merged = chunk size false in
    let h₁ = record h { memory = m } in
    let free_bit =
      check_allocated-IsBlock h₁ start merged (IsHeap-IsBlock h₁ before after merged k') in
    let apart' = LastIsApart-merge h xs b ys before ls rs after m large left right apart in
    let n₀ = NotTag-payload h₁ before merged after (start + 8) k' (omega arith) (omega arith) in
    let n₁ = NotTag-payload h₁ before merged after (start + 8 + 8) k' (omega arith) (omega arith) in
    (
      add_node (start + 8) h₁,
      rw free_bit refl,
      freed before ls rs after (add_node (start + 8) h₁) left right
          (add_node-IsHeap h₁ (before ++ merged ∷ after) (start + 8) n₀ n₁ apart' k')
          (add_node_last h₁ (start + 8))
          (λ a out.
            elim (add_node_other h₁ (start + 8) a (λ e. omega (arith, out))
              (λ e. omega (arith, out))) [
                | inl e ↦ inl (e ∙ same a (omega (arith, out)))
                | inr e ↦ inr e
              ]),
    )

-- On a heap, free of the payload of a block of 32 bytes or more succeeds, if there is no last node or
-- its next pointer is no tag of a block. The block becomes one free block with the neighbours that
-- coalesce joins, and the last node; the blocks fill the heap as before. No word outside that block is
-- written but the next pointer of the former last node.
pub free-Frees :
    (h : Heap) (xs : List Chunk) (b : Chunk) (ys : List Chunk)
    → IsHeap h (xs ++ b ∷ ys)
    → 32 ≤ b.size
    → LastIsApart h (xs ++ b ∷ ys)
    → (h' : Heap) × (free (h.heap + 8 + total xs + 8) h ≡ some h') × Frees h xs b ys h'
unfolding free
free-Frees h xs b ys k large apart =
    let not_null : (h.heap + 8 + total xs + 8 == 0) ≡ false = ground arith in
    let at : h.heap + 8 + total xs + 8 - 8 ≡ h.heap + 8 + total xs = omega arith in
    rw not_null (
      rw at (
        link_block-Frees h xs b ys (coalesce (h.heap + 8 + total xs) h) k large apart
          (coalesce-Coalesces h xs b ys k)))
