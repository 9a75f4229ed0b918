-- ===== src/Heap/Tags.antt =====
-- The words of a heap that are no tags, and writes to them.
use cs_24_coursework.Prelude.{
  ℕ, ◌+◌, ◌-◌, ◌≤◌, ◌<◌, ◌≡◌, ◌≢◌, sym, ◌∙◌, false, List, [], ◌∷◌, ◌++◌, arith,
}
use mathlib.Core.Path.{subst}
use cs_24_coursework.Heap.{Heap, put_word, write_word}
use cs_24_coursework.Heap.Tiles.{Chunk, chunk, total, Tiles, Tiles-split, Tiles-total, IsHeap}
use cs_24_coursework.Heap.Marks.{put_word_other}

-- The address of no tag.
abbrev pub NotTag : ℕ → ℕ → List Chunk → Type 0
NotTag a start [] = Unit {0}
NotTag a start (c ∷ cs) = (a ≢ start) × (a ≢ start + c.size - 8) × NotTag a (start + c.size) cs

Tiles-put_word :
    (m : ℕ → ℕ) (a v start : ℕ) (cs : List Chunk) (stop : ℕ)
    → NotTag a start cs
    → Tiles m start cs stop
    → Tiles (put_word m a v) start cs stop
Tiles-put_word m a v start [] stop away t = t
Tiles-put_word m a v start (c ∷ cs) stop away t = (
  record {
    header = put_word_other m a v start (λ e. away.0 (sym e)) ∙ t.0.header;
    footer = put_word_other m a v (start + c.size - 8) (λ e. away.1 (sym e)) ∙ t.0.footer;
    large = t.0.large;
    multiple = t.0.multiple;
  },
  Tiles-put_word m a v (start + c.size) cs stop away.2 t.1,
)

pub IsHeap-write_word :
    (h : Heap) (cs : List Chunk) (a v : ℕ)
    → NotTag a (h.heap + 8) cs
    → IsHeap h cs
    → IsHeap (write_word a v h) cs
IsHeap-write_word h cs a v away k = record {
  tiles = Tiles-put_word h.memory a v (h.heap + 8) cs h.mem_brk away k.tiles;
  aligned = k.aligned;
  bounded = k.bounded;
  placed = k.placed;
  below = k.below;
}

pub NotTag-split :
    (a start : ℕ) (xs ys : List Chunk)
    → NotTag a start (xs ++ ys)
    → NotTag a start xs × NotTag a (start + total xs) ys
unfolding total
NotTag-split a start [] ys n = (tt, subst (λ s. NotTag a s ys) (omega arith) n)
NotTag-split a start (x ∷ xs) ys n =
    let (l, r) = NotTag-split a (start + x.size) xs ys n.2 in
    ((n.0, n.1, l), subst (λ s. NotTag a s ys) (omega arith) r)

pub NotTag-append :
    (a start : ℕ) (xs ys : List Chunk)
    → NotTag a start xs
    → NotTag a (start + total xs) ys
    → NotTag a start (xs ++ ys)
unfolding total
NotTag-append a start [] ys l r = subst (λ s. NotTag a s ys) (omega arith) r
NotTag-append a start (x ∷ xs) ys l r = (
  l.0,
  l.1,
  NotTag-append a (start + x.size) xs ys l.2 (subst (λ s. NotTag a s ys) (omega arith) r),
)

-- The outer tags of some blocks are tags of theirs.
NotTag-ends :
    (a start : ℕ) (c : Chunk) (cs : List Chunk)
    → NotTag a start (c ∷ cs)
    → (a ≢ start) × (a ≢ start + total (c ∷ cs) - 8)
unfolding total
NotTag-ends a start c [] n = (n.0, λ e. n.1 (omega (arith, e)))
NotTag-ends a start c (d ∷ cs) n =
    let last = NotTag-ends a (start + c.size) d cs n.2 in (n.0, λ e. last.1 (omega (arith, e)))

NotTag-ends_of :
    (a start : ℕ) (cs : List Chunk)
    → 0 < total cs
    → NotTag a start cs
    → (a ≢ start) × (a ≢ start + total cs - 8)
unfolding total
NotTag-ends_of a start [] some_block n = absurd (omega arith)
NotTag-ends_of a start (c ∷ cs) some_block n = NotTag-ends a start c cs n

pub NotTag-merge :
    (a start : ℕ) (before mid after : List Chunk) (size : ℕ)
    → size ≡ total mid
    → 0 < size
    → NotTag a start (before ++ (mid ++ after))
    → NotTag a start (before ++ chunk size false ∷ after)
NotTag-merge a start before mid after size same large n =
    let (l, r) = NotTag-split a start before (mid ++ after) n in
    let (m, behind) = NotTag-split a (start + total before) mid after r in
    let ends = NotTag-ends_of a (start + total before) mid (omega (arith, same)) m in
    NotTag-append a start before (chunk size false ∷ after) l (
      ends.0,
      (λ e. ends.1 (omega (arith, e, same))),
      subst (λ s. NotTag a (start + total before + s) after) (sym same) behind,
    )

NotTag-below :
    (m : ℕ → ℕ) (a start : ℕ) (cs : List Chunk) (stop : ℕ)
    → a < start
    → Tiles m start cs stop
    → NotTag a start cs
NotTag-below m a start [] stop l t = tt
NotTag-below m a start (c ∷ cs) stop l t = (
  (λ e. omega arith),
  (λ e. omega (arith, t.0.large)),
  NotTag-below m a (start + c.size) cs stop (omega arith) t.1,
)

NotTag-above :
    (m : ℕ → ℕ) (a start : ℕ) (cs : List Chunk) (stop : ℕ)
    → stop ≤ a
    → Tiles m start cs stop
    → NotTag a start cs
NotTag-above m a start [] stop l t = tt
NotTag-above m a start (c ∷ cs) stop l t =
    let rest = Tiles-total m (start + c.size) cs stop t.1 in
    (
      (λ e. omega (arith, t.0.large)),
      (λ e. omega (arith, t.0.large)),
      NotTag-above m a (start + c.size) cs stop l t.1,
    )

-- The words of a payload are no tags.
pub NotTag-payload :
    (h : Heap) (before : List Chunk) (c : Chunk) (after : List Chunk) (a : ℕ)
    → IsHeap h (before ++ c ∷ after)
    → h.heap + 8 + total before < a
    → a < h.heap + 8 + total before + c.size - 8
    → NotTag a (h.heap + 8) (before ++ c ∷ after)
NotTag-payload h before c after a k low high =
    let start = h.heap + 8 + total before in
    let (l, r) = Tiles-split h.memory (h.heap + 8) before (c ∷ after) h.mem_brk k.tiles in
    NotTag-append a (h.heap + 8) before (c ∷ after)
      (NotTag-above h.memory a (h.heap + 8) before start (omega arith) l)
      (
        (λ e. omega arith),
        (λ e. omega arith),
        NotTag-below h.memory a (start + c.size) after h.mem_brk (omega (arith, r.0.large)) r.1,
      )
