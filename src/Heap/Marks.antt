-- ===== src/Heap/Marks.antt =====
-- What set_header and set_footer write, and what the two tests read, at the blocks of a heap.
use cs_24_coursework.Prelude.{
  ℕ, ◌+◌, ◌-◌, ◌%◌, ◌≤◌, ◌≡◌, ◌≢◌, refl, ap, ◌∙◌, Bool, true, false, ◌==◌, arith,
}
use cs_24_coursework.Heap.{
  Heap, tag, put_word, get_size, check_allocated, set_header, set_footer, set_block,
}
use cs_24_coursework.Heap.Tiles.{Chunk, chunk, IsBlock, AgreeOutside}

pub put_word_self : (m : ℕ → ℕ) (a v : ℕ) → put_word m a v a ≡ v
put_word_self m a v = ground arith

pub put_word_other : (m : ℕ → ℕ) (a v y : ℕ) → y ≢ a → put_word m a v y ≡ m y
put_word_other m a v y h = ground arith

-- An even size and its bit.
pub tag-mod : (size : ℕ) (used : Bool) → size % 2 ≡ 0 → tag size used - tag size used % 2 ≡ size
unfolding tag
tag-mod size true h = omega arith
tag-mod size false h = omega arith

pub tag_bit : (size : ℕ) (used : Bool) → size % 2 ≡ 0 → (tag size used % 2 == 1) ≡ used
unfolding tag
tag_bit size true h = ground arith
tag_bit size false h = ground arith

module _ (h : Heap) (b : ℕ) (c : Chunk) (k : IsBlock h.memory b c) where
  pub get_size-IsBlock : get_size h b ≡ c.size
  unfolding get_size
  get_size-IsBlock =
      ap (λ w. w - w % 2) k.header ∙ tag-mod c.size c.used (omega (arith, k.multiple))

  pub check_allocated-IsBlock : check_allocated h b ≡ c.used
  unfolding check_allocated
  check_allocated-IsBlock =
      ap (λ w. w % 2 == 1) k.header ∙ tag_bit c.size c.used (omega (arith, k.multiple))

-- The memory with both tags of a block.
abbrev pub marked : (ℕ → ℕ) → ℕ → ℕ → Bool → ℕ → ℕ
marked m b size used = put_word (put_word m b (tag size used)) (b + size - 8) (tag size used)

pub marked-IsBlock :
    (m : ℕ → ℕ) (b size : ℕ) (used : Bool)
    → 16 ≤ size
    → size % 16 ≡ 0
    → IsBlock (marked m b size used) b (chunk size used)
marked-IsBlock m b size used large multiple = record {
  header =
      put_word_other (put_word m b (tag size used)) (b + size - 8) (tag size used) b
        (λ e. omega arith)
      ∙ put_word_self m b (tag size used);
  footer = put_word_self (put_word m b (tag size used)) (b + size - 8) (tag size used);
  large = large;
  multiple = multiple;
}

pub marked-AgreeOutside :
    (m : ℕ → ℕ) (b size : ℕ) (used : Bool)
    → 16 ≤ size
    → AgreeOutside m (marked m b size used) b (b + size)
marked-AgreeOutside m b size used large a out =
    put_word_other (put_word m b (tag size used)) (b + size - 8) (tag size used) a
      (λ e. omega (arith, out))
    ∙ put_word_other m b (tag size used) a (λ e. omega (arith, out))

pub set_block-marked :
    (h : Heap) (b size : ℕ) (used : Bool)
    → size % 2 ≡ 0
    → set_block b size used h ≡ record h { memory = marked h.memory b size used }
unfolding set_header set_footer get_size check_allocated
set_block-marked h b size used even =
    let read = put_word_self h.memory b (tag size used) in
    rw read (rw (tag-mod size used even) (rw (tag_bit size used even) refl))
