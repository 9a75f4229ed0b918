-- ===== src/Subpython/Pool/BestFit.antt =====
-- What the search of mm_malloc finds.
use cs_24_coursework.Prelude.{
  ℕ, zero, suc, ◌+◌, ◌-◌, ◌≤◌, ◌<◌, ◌≡◌, refl, sym, ap, ◌∙◌, inl, inr, Bool, ◌&&◌, Option, none,
  some, List, [], ◌∷◌, ◌++◌, ltb, leb, if◌then◌else◌, get_elem?, length, length-append, append-nil,
  append_assoc, arith, Bool-cases,
}
use mathlib.Core.Path.{ap₂}
use mathlib.Core.Option.{some-injective}
use native.Mathlib.Decide.{dec_lt}
use cs_24_coursework.Subpython.Pool.{
  Block, block, Pool, Best, size_max, search_fit, take_block, mm_malloc,
}

-- A block that serves a request.
abbrev pub Fits : ℕ → Block → Type 0
Fits size b = (size ≤ b.value_size) × (b.value_size < size_max)

-- No block of the list serves it with fewer than n bytes.
abbrev pub NoneBelow : ℕ → ℕ → List Block → Type 0
NoneBelow size n [] = Unit {0}
NoneBelow size n (b ∷ bs) = ¬ ((size ≤ b.value_size) × (b.value_size < n)) × NoneBelow size n bs

NoneBelow-le : (size n k : ℕ) (bs : List Block) → k ≤ n → NoneBelow size n bs → NoneBelow size k bs
NoneBelow-le size n k [] h x = tt
NoneBelow-le size n k (b ∷ bs) h x = ((λ p. x.0 (omega arith)), NoneBelow-le size n k bs h x.1)

NoneBelow-append :
    (size n : ℕ) (seen bs : List Block)
    → NoneBelow size n seen
    → NoneBelow size n bs
    → NoneBelow size n (seen ++ bs)
NoneBelow-append size n [] bs h k = k
NoneBelow-append size n (a ∷ seen) bs h k = (h.0, NoneBelow-append size n seen bs h.1 k)

-- The state of the search behind the blocks `seen`: nothing yet, or a block of theirs, and no
-- block of theirs is better.
pub data IsBest (size : ℕ) (seen : List Block) : Best → Type 0 where
  nothing :
      NoneBelow size size_max seen
      → IsBest size seen (record { best_fit = none; smallest_size = size_max })
  something :
      (i : ℕ) (b : Block)
      → get_elem? seen i ≡ some b
      → Fits size b
      → NoneBelow size b.value_size seen
      → IsBest size seen (record { best_fit = some i; smallest_size = b.value_size })

get_elem?-append_left :
    (xs ys : List Block) (i : ℕ) {b : Block}
    → get_elem? xs i ≡ some b
    → get_elem? (xs ++ ys) i ≡ some b
get_elem?-append_left [] ys i h = cc
get_elem?-append_left (x ∷ xs) ys zero h = h
get_elem?-append_left (x ∷ xs) ys (suc i) h = get_elem?-append_left xs ys i h

get_elem?-append_length :
    (xs ys : List Block) (b : Block) → get_elem? (xs ++ b ∷ ys) (length xs) ≡ some b
get_elem?-append_length [] ys b = refl
get_elem?-append_length (x ∷ xs) ys b = get_elem?-append_length xs ys b

length-snoc : (xs : List Block) (b : Block) → length (xs ++ b ∷ []) ≡ length xs + 1
length-snoc xs b = omega (arith, length-append xs (b ∷ []))

abbrev is_better : ℕ → Block → Best → Bool
is_better size b best = leb size b.value_size && ltb b.value_size best.smallest_size

abbrev next_best : ℕ → ℕ → Block → Best → Best
next_best size i b best =
    if is_better size b best
    then record { best_fit = some i; smallest_size = b.value_size }
    else best

better-IsBest :
    (size n : ℕ) (seen : List Block) (b : Block)
    → size ≤ b.value_size
    → b.value_size < n
    → n ≤ size_max
    → NoneBelow size n seen
    → IsBest size
        (seen ++ b ∷ [])
        (record { best_fit = some (length seen); smallest_size = b.value_size })
better-IsBest size n seen b h k top below =
    something (length seen) b (get_elem?-append_length seen [] b) (h, omega arith)
      (NoneBelow-append size _ seen (b ∷ []) (NoneBelow-le size n _ seen (omega arith) below)
        ((λ p. omega arith), tt))

next_best-IsBest :
    (size : ℕ) (seen : List Block) (b : Block) (best : Best)
    → IsBest size seen best
    → IsBest size (seen ++ b ∷ []) (next_best size (length seen) b best)
next_best-IsBest size seen b best (nothing below) = elim (Bool-cases (is_better size b best)) [
  | inl p ↦
      rw p (better-IsBest size size_max seen b (ground arith) (ground arith) (omega arith) below)
  | inr p ↦ rw p (nothing (NoneBelow-append size _ seen (b ∷ []) below ((λ q. ground arith), tt)))
]
next_best-IsBest size seen b best (something i c here fits below) =
    elim (Bool-cases (is_better size b best)) [
      | inl p ↦
          rw p (
            better-IsBest size c.value_size seen b (ground arith) (ground arith) (omega arith)
              below)
      | inr p ↦ rw p (
          something i c (get_elem?-append_left seen (b ∷ []) i here) fits
            (NoneBelow-append size _ seen (b ∷ []) below ((λ q. ground arith), tt)))
    ]

search_fit-IsBest :
    (size : ℕ) (bs seen : List Block) (best : Best)
    → IsBest size seen best
    → IsBest size (seen ++ bs) (search_fit size bs (length seen) best)
unfolding search_fit
search_fit-IsBest size [] seen best h = rw append-nil h
search_fit-IsBest size (b ∷ bs) seen best h =
    rw (← length-snoc seen b, ← append_assoc seen (b ∷ []) bs)
      (search_fit-IsBest size bs (seen ++ b ∷ []) _ (next_best-IsBest size seen b best h))

-- A block cut out of a list.
pub record Cut (bs : List Block) (i : ℕ) (b : Block) : Type 0 where
  pub before : List Block
  pub after : List Block
  pub split : bs ≡ before ++ b ∷ after
  pub place : length before ≡ i

Cut-at : (bs : List Block) (i : ℕ) (b : Block) → get_elem? bs i ≡ some b → Cut bs i b
Cut-at [] i b h = cc
Cut-at (x ∷ bs) zero b h = record {
  before = [];
  after = bs;
  split = ap (λ y. y ∷ bs) (some-injective _ _ h);
  place = refl;
}
Cut-at (x ∷ bs) (suc i) b h =
    let c = Cut-at bs i b h in
    record {
      before = x ∷ c.before;
      after = c.after;
      split = ap (λ y. x ∷ y) c.split;
      place = ap suc c.place;
    }

-- What mm_malloc does: it refuses a request that no block serves, and otherwise cuts the block out
-- of a smallest one that serves it, or hands that out whole where 24 bytes or fewer would remain.
pub data Allocates (size : ℕ) (p : Pool) : Option (Block × Pool) → Type 0 where
  exhausted : NoneBelow size size_max p.free_list → Allocates size p none
  splits :
      (before after : List Block) (b : Block)
      → p.free_list ≡ before ++ b ∷ after
      → Fits size b
      → NoneBelow size b.value_size p.free_list
      → 24 < b.value_size - size
      → Allocates size p (
          some (
            block b.addr size,
            record p { free_list = before ++ block (b.addr + size) (b.value_size - size) ∷ after },
          ))
  takes :
      (before after : List Block) (b : Block)
      → p.free_list ≡ before ++ b ∷ after
      → Fits size b
      → NoneBelow size b.value_size p.free_list
      → b.value_size - size ≤ 24
      → Allocates size p (some (b, record p { free_list = before ++ after }))

take_block-splits :
    (size : ℕ) (before after : List Block) (b : Block)
    → 24 < b.value_size - size
    → take_block size (length before) (before ++ b ∷ after)
      ≡ some (block b.addr size, before ++ block (b.addr + size) (b.value_size - size) ∷ after)
unfolding take_block
take_block-splits size [] after b h = ground arith
take_block-splits size (x ∷ before) after b h = rw (take_block-splits size before after b h)

take_block-takes :
    (size : ℕ) (before after : List Block) (b : Block)
    → b.value_size - size ≤ 24
    → take_block size (length before) (before ++ b ∷ after) ≡ some (b, before ++ after)
unfolding take_block
take_block-takes size [] after b h = ground arith
take_block-takes size (x ∷ before) after b h = rw (take_block-takes size before after b h)

-- mm_malloc behind its search.
allocate : ℕ → Pool → Best → Option (Block × Pool)
allocate size p best = elim best.best_fit [
  | none ↦ none
  | some i ↦ elim (take_block size i p.free_list) [
    | none ↦ none
    | some (got, rest) ↦ some (got, record p { free_list = rest })
  ]
]

allocate-Allocates :
    (size : ℕ) (p : Pool) (best : Best)
    → IsBest size p.free_list best
    → Allocates size p (allocate size p best)
unfolding allocate
allocate-Allocates size p best (nothing below) = exhausted below
allocate-Allocates size p best (something i b at_i fits below) =
    let c = Cut-at p.free_list i b at_i in
    elim (dec_lt 24 (b.value_size - size)) [
      | yes h ↦
          let e : take_block size i p.free_list
              ≡ some (
                block b.addr size,
                c.before ++ block (b.addr + size) (b.value_size - size) ∷ c.after,
              ) =
            ap₂ (take_block size) (sym c.place) c.split
            ∙ take_block-splits size c.before c.after b h in
          rw (e, allocate) (splits c.before c.after b c.split fits below h)
      | no h ↦
          let e : take_block size i p.free_list ≡ some (b, c.before ++ c.after) =
            ap₂ (take_block size) (sym c.place) c.split
            ∙ take_block-takes size c.before c.after b (omega arith) in
          rw (e, allocate) (takes c.before c.after b c.split fits below (omega arith))
    ]

-- mm_malloc is a best fit: it fails just when no free block serves the request, and otherwise uses
-- a block that serves it and that no other serving block is smaller than.
pub mm_malloc-Allocates : (size : ℕ) (p : Pool) → Allocates size p (mm_malloc size p)
unfolding mm_malloc allocate
mm_malloc-Allocates size p =
    allocate-Allocates size p (search_fit size p.free_list 0 _)
      (search_fit-IsBest size p.free_list [] _ (nothing tt))
