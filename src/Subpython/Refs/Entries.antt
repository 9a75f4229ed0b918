-- ===== src/Subpython/Refs/Entries.antt =====
-- The blocks that the reference table of project05-kweng/refs.c names, when an entry is set.
use cs_24_coursework.Prelude.{
  ℕ, zero, suc, ◌+◌, ◌≡◌, refl, sym, ap, Option, none, some, List, [], ◌∷◌, ◌++◌, length, get_elem?,
  set, arith,
}
use mathlib.Core.Option.{some-injective}
use cs_24_coursework.Subpython.Pool.{Block}
use cs_24_coursework.Subpython.Pool.Bytes.{count_holding, total_size}
use cs_24_coursework.Subpython.Refs.{Refs, find_unused, count_used, next_index, put_entry}

-- The blocks that the table names.
unfoldable pub used : List (Option Block) → List Block
used [] = []
used (none ∷ table) = used table
used (some b ∷ table) = b ∷ used table

-- `after` is the table with v at the entry i, which was unused.
pub record Enters (table after : List (Option Block)) (i : ℕ) (v : Block) : Type 0 where
  pub bytes :
      (a : ℕ)
      → count_holding a (used after) ≡ count_holding a (v ∷ []) + count_holding a (used table)
  pub total : total_size (used after) ≡ v.value_size + total_size (used table)
  pub counted : count_used after ≡ suc (count_used table)
  pub entry : get_elem? after i ≡ some (some v)
  pub others :
      (j : ℕ) (b : Block) → get_elem? table j ≡ some (some b) → get_elem? after j ≡ some (some b)

-- One more entry in front.
cons-Enters :
    (e : Option Block) (table after : List (Option Block)) (i : ℕ) (v : Block)
    → Enters table after i v
    → Enters (e ∷ table) (e ∷ after) (suc i) v
unfolding used count_holding total_size count_used
cons-Enters none table after i v r = record {
  bytes = r.bytes;
  total = r.total;
  counted = r.counted;
  entry = r.entry;
  others = λ j b h. behind j b h;
}
  where
    behind :
        (j : ℕ) (b : Block)
        → get_elem? (none ∷ table) j ≡ some (some b)
        → get_elem? (none ∷ after) j ≡ some (some b)
    behind zero b h = h
    behind (suc j) b h = r.others j b h
cons-Enters (some w) table after i v r = record {
  bytes = λ a. omega (arith, r.bytes a);
  total = omega (arith, r.total);
  counted = ap suc r.counted;
  entry = r.entry;
  others = λ j b h. behind j b h;
}
  where
    behind :
        (j : ℕ) (b : Block)
        → get_elem? (some w ∷ table) j ≡ some (some b)
        → get_elem? (some w ∷ after) j ≡ some (some b)
    behind zero b h = h
    behind (suc j) b h = r.others j b h

set-Enters :
    (table : List (Option Block)) (i : ℕ) (v : Block)
    → get_elem? table i ≡ some none
    → Enters table (set table i (some v)) i v
unfolding used count_holding total_size count_used
set-Enters [] i v e = cc
set-Enters (none ∷ table) zero v e = record {
  bytes = λ a. omega arith;
  total = refl;
  counted = refl;
  entry = refl;
  others = λ j b h. later j b h;
}
  where
    later :
        (j : ℕ) (b : Block)
        → get_elem? (none ∷ table) j ≡ some (some b)
        → get_elem? (some v ∷ table) j ≡ some (some b)
    later zero b h = cc
    later (suc j) b h = h
set-Enters (some w ∷ table) zero v e = cc
set-Enters (x ∷ table) (suc i) v e = cons-Enters x table _ i v (set-Enters table i v e)

append-Enters :
    (table : List (Option Block)) (v : Block) → Enters table (table ++ some v ∷ []) (length table) v
unfolding used count_holding total_size count_used
append-Enters [] v = record {
  bytes = λ a. omega arith;
  total = refl;
  counted = refl;
  entry = refl;
  others = λ j b h. cc;
}
append-Enters (x ∷ table) v = cons-Enters x table _ (length table) v (append-Enters table v)

pub find_unused_entry :
    (table : List (Option Block)) (i : ℕ)
    → find_unused table ≡ some i
    → get_elem? table i ≡ some none
unfolding find_unused
find_unused_entry [] i e = cc
find_unused_entry (none ∷ table) i e = rw (sym (some-injective _ _ e)) refl
find_unused_entry (some b ∷ table) i e = next (find_unused table) (find_unused_entry table) e
  where
    next :
        (o : Option ℕ)
        → ((k : ℕ) → o ≡ some k → get_elem? table k ≡ some none)
        → next_index o ≡ some i
        → get_elem? (some b ∷ table) i ≡ some none
    next none f e = cc
    next (some k) f e = rw (sym (some-injective _ _ e)) (f k refl)

pub put_entry-Enters :
    (o : Option ℕ) (v : Block) (s : Refs)
    → ((k : ℕ) → o ≡ some k → get_elem? s.ref_table k ≡ some none)
    → Enters s.ref_table (put_entry o v s).1.ref_table (put_entry o v s).0 v
      × ((put_entry o v s).1.pool ≡ s.pool)
      × ((put_entry o v s).1.values ≡ s.values)
put_entry-Enters none v s f = (append-Enters s.ref_table v, refl, refl)
put_entry-Enters (some i) v s f = (set-Enters s.ref_table i v (f i refl), refl, refl)

-- `after` is the table without its entry i, which was v.
pub record Leaves (table after : List (Option Block)) (v : Block) : Type 0 where
  pub bytes :
      (a : ℕ)
      → count_holding a (used table) ≡ count_holding a (v ∷ []) + count_holding a (used after)
  pub total : total_size (used table) ≡ v.value_size + total_size (used after)
  pub counted : count_used table ≡ suc (count_used after)

pub set-Leaves :
    (table : List (Option Block)) (i : ℕ) (v : Block)
    → get_elem? table i ≡ some (some v)
    → Leaves table (set table i none) v
unfolding used count_holding total_size count_used
set-Leaves [] i v e = cc
set-Leaves (none ∷ table) zero v e = cc
set-Leaves (some w ∷ table) zero v e =
    rw (sym (some-injective _ _ (some-injective _ _ e)))
      (record { bytes = λ a. omega arith; total = refl; counted = refl })
set-Leaves (none ∷ table) (suc i) v e =
    let r = set-Leaves table i v e in
    record { bytes = r.bytes; total = r.total; counted = r.counted }
set-Leaves (some w ∷ table) (suc i) v e =
    let r = set-Leaves table i v e in
    record {
      bytes = λ a. omega (arith, r.bytes a);
      total = omega (arith, r.total);
      counted = ap suc r.counted;
    }
