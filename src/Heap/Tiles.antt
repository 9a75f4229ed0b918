-- ===== src/Heap/Tiles.antt =====
-- The heap as the list of its blocks, one behind the other, with a tag at either end of each.
use cs_24_coursework.Prelude.{
  ℕ, ◌+◌, ◌-◌, ◌*◌, ◌%◌, ◌^◌, ◌≤◌, ◌<◌, ◌≡◌, refl, sym, ◌∙◌, ◌⊎◌, inl, inr, Bool, List, [], ◌∷◌,
  ◌++◌, arith,
}
use mathlib.Core.Path.{subst}
use cs_24_coursework.Heap.{Heap, tag}

pub record Chunk : Type 0 where
  pub size : ℕ
  pub used : Bool

abbrev pub chunk : ℕ → Bool → Chunk
chunk size used = record { size = size; used = used }

unfoldable pub total : List Chunk → ℕ
total [] = 0
total (c ∷ cs) = c.size + total cs

-- A block at an address: both tags say the same, and the size is a positive multiple of 16.
pub record IsBlock (m : ℕ → ℕ) (b : ℕ) (c : Chunk) : Type 0 where
  pub header : m b ≡ tag c.size c.used
  pub footer : m (b + c.size - 8) ≡ tag c.size c.used
  pub large : 16 ≤ c.size
  pub multiple : c.size % 16 ≡ 0

-- The blocks fill the addresses from `start` to `stop`.
abbrev pub Tiles : (ℕ → ℕ) → ℕ → List Chunk → ℕ → Type 0
Tiles m start [] stop = start ≡ stop
Tiles m start (c ∷ cs) stop = IsBlock m start c × Tiles m (start + c.size) cs stop

-- Two memories that hold the same words from `start` to `stop`.
abbrev pub Agree : (ℕ → ℕ) → (ℕ → ℕ) → ℕ → ℕ → Type 0
Agree m m' start stop = (a : ℕ) → start ≤ a → a < stop → m' a ≡ m a

pub total-append : (xs ys : List Chunk) → total (xs ++ ys) ≡ total xs + total ys
unfolding total
total-append [] ys = omega arith
total-append (x ∷ xs) ys = omega (arith, total-append xs ys)

pub Tiles-total :
    (m : ℕ → ℕ) (start : ℕ) (cs : List Chunk) (stop : ℕ)
    → Tiles m start cs stop
    → start + total cs ≡ stop
unfolding total
Tiles-total m start [] stop t = omega (arith, t)
Tiles-total m start (c ∷ cs) stop t = omega (arith, Tiles-total m (start + c.size) cs stop t.1)

pub Tiles-multiple :
    (m : ℕ → ℕ) (start : ℕ) (cs : List Chunk) (stop : ℕ) → Tiles m start cs stop → total cs % 16 ≡ 0
unfolding total
Tiles-multiple m start [] stop t = refl
Tiles-multiple m start (c ∷ cs) stop t =
    omega (arith, t.0.multiple, Tiles-multiple m (start + c.size) cs stop t.1)

pub Tiles-split :
    (m : ℕ → ℕ) (start : ℕ) (xs ys : List Chunk) (stop : ℕ)
    → Tiles m start (xs ++ ys) stop
    → Tiles m start xs (start + total xs) × Tiles m (start + total xs) ys stop
unfolding total
Tiles-split m start [] ys stop t = (omega arith, subst (λ s. Tiles m s ys stop) (omega arith) t)
Tiles-split m start (x ∷ xs) ys stop t =
    let (l, r) = Tiles-split m (start + x.size) xs ys stop t.1 in
    let e : start + x.size + total xs ≡ start + (x.size + total xs) = omega arith in
    ((t.0, subst (λ s. Tiles m (start + x.size) xs s) e l), subst (λ s. Tiles m s ys stop) e r)

pub Tiles-append :
    (m : ℕ → ℕ) (start : ℕ) (xs ys : List Chunk) (mid stop : ℕ)
    → Tiles m start xs mid
    → Tiles m mid ys stop
    → Tiles m start (xs ++ ys) stop
Tiles-append m start [] ys mid stop l r = subst (λ s. Tiles m s ys stop) (sym l) r
Tiles-append m start (x ∷ xs) ys mid stop l r =
    (l.0, Tiles-append m (start + x.size) xs ys mid stop l.1 r)

pub IsBlock-Agree :
    (m m' : ℕ → ℕ) (b : ℕ) (c : Chunk) → Agree m m' b (b + c.size) → IsBlock m b c → IsBlock m' b c
IsBlock-Agree m m' b c same k = record {
  header = same b (omega arith) (omega (arith, k.large)) ∙ k.header;
  footer = same (b + c.size - 8) (omega (arith, k.large)) (omega (arith, k.large)) ∙ k.footer;
  large = k.large;
  multiple = k.multiple;
}

pub Tiles-Agree :
    (m m' : ℕ → ℕ) (start : ℕ) (cs : List Chunk) (stop : ℕ)
    → Agree m m' start stop
    → Tiles m start cs stop
    → Tiles m' start cs stop
Tiles-Agree m m' start [] stop same t = t
Tiles-Agree m m' start (c ∷ cs) stop same t =
    let n = Tiles-total m (start + c.size) cs stop t.1 in
    (
      IsBlock-Agree m m' start c (λ a l r. same a l (omega arith)) t.0,
      Tiles-Agree m m' (start + c.size) cs stop (λ a l r. same a (omega arith) r) t.1,
    )

-- A memory that differs only from `low` to `high`.
abbrev pub AgreeOutside : (ℕ → ℕ) → (ℕ → ℕ) → ℕ → ℕ → Type 0
AgreeOutside m m' low high = (a : ℕ) → (a < low) ⊎ (high ≤ a) → m' a ≡ m a

-- Blocks in the middle give way to others that fill the same addresses.
pub Tiles-replace :
    (m m' : ℕ → ℕ) (start : ℕ) (xs old new ys : List Chunk) (stop : ℕ)
    → Tiles m start (xs ++ (old ++ ys)) stop
    → AgreeOutside m m' (start + total xs) (start + total xs + total old)
    → Tiles m' (start + total xs) new (start + total xs + total old)
    → Tiles m' start (xs ++ (new ++ ys)) stop
Tiles-replace m m' start xs old new ys stop t same mid =
    let (l, r) = Tiles-split m start xs (old ++ ys) stop t in
    let (_, behind) = Tiles-split m (start + total xs) old ys stop r in
    Tiles-append m' start xs (new ++ ys) (start + total xs) stop
      (Tiles-Agree m m' start xs (start + total xs) (λ a p q. same a (inl q)) l)
      (Tiles-append m' (start + total xs) new ys (start + total xs + total old) stop mid
        (Tiles-Agree m m' (start + total xs + total old) ys stop (λ a p q. same a (inr p)) behind))

-- The blocks of a heap behind mm_init, which lies above its own size and below 2^63.
pub record IsHeap (h : Heap) (cs : List Chunk) : Type 0 where
  pub tiles : Tiles h.memory (h.heap + 8) cs h.mem_brk
  pub aligned : h.heap % 16 ≡ 0
  pub bounded : h.mem_brk ≤ h.mem_max_addr
  pub placed : h.mem_max_addr ≤ 2 * h.heap
  pub below : h.mem_max_addr < 2 ^ 63

-- A heap whose words have changed within some blocks, where others fill the addresses now.
pub IsHeap-replace :
    (h : Heap) (m : ℕ → ℕ) (xs old new ys : List Chunk) (b stop : ℕ)
    → h.heap + 8 + total xs ≡ b
    → b + total old ≡ stop
    → IsHeap h (xs ++ (old ++ ys))
    → AgreeOutside h.memory m b stop
    → Tiles m b new stop
    → IsHeap (record h { memory = m }) (xs ++ (new ++ ys))
IsHeap-replace h m xs old new ys b stop at wide k same mid = record {
  tiles =
      Tiles-replace h.memory m (h.heap + 8) xs old new ys h.mem_brk k.tiles
        (λ a out. same a (omega (arith, at, wide, out)))
        (subst (λ s. Tiles m s new (s + total old)) (sym at)
          (subst (Tiles m b new) (sym wide) mid));
  aligned = k.aligned;
  bounded = k.bounded;
  placed = k.placed;
  below = k.below;
}

-- The block behind the blocks xs.
pub IsHeap-IsBlock :
    (h : Heap) (xs ys : List Chunk) (c : Chunk)
    → IsHeap h (xs ++ c ∷ ys)
    → IsBlock h.memory (h.heap + 8 + total xs) c
IsHeap-IsBlock h xs ys c k = (Tiles-split h.memory (h.heap + 8) xs (c ∷ ys) h.mem_brk k.tiles).1.0

pub IsHeap-total : (h : Heap) (cs : List Chunk) → IsHeap h cs → h.heap + 8 + total cs ≡ h.mem_brk
IsHeap-total h cs k = Tiles-total h.memory (h.heap + 8) cs h.mem_brk k.tiles
