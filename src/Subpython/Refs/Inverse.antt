-- ===== src/Subpython/Refs/Inverse.antt =====
-- get_ref of project05-kweng/refs.c against deref.
use cs_24_coursework.Prelude.{
  ℕ, zero, suc, ◌≤◌, ◌<◌, ◌≡◌, refl, sym, ap, ◌∙◌, inl, inr, true, Option, none, some, List, [],
  ◌∷◌, ◌==◌, get_elem?, Bool-cases, arith,
}
use mathlib.Core.Option.{some-injective}
use cs_24_coursework.Subpython.Pool.{Block}
use cs_24_coursework.Subpython.Pool.Bytes.{holds, count_holding}
use cs_24_coursework.Subpython.Refs.{Refs, deref, get_ref, get_ref_loop, next_index}
use cs_24_coursework.Subpython.Refs.Entries.{used}
use cs_24_coursework.Subpython.Refs.Table.{IsTable}
use cs_24_coursework.Subpython.Refs.Counts.{in_pool_entry}

-- Every value of the table has a byte.
abbrev pub IsSolid : List (Option Block) → Type 0
IsSolid [] = Unit {0}
IsSolid (none ∷ table) = IsSolid table
IsSolid (some b ∷ table) = (0 < b.value_size) × IsSolid table

holds_self : (b : Block) → 0 < b.value_size → holds b.addr b ≡ true
holds_self b h = ground arith

-- An entry's first byte is counted.
entry-count_holding :
    (table : List (Option Block)) (r : ℕ) (v : Block)
    → IsSolid table
    → get_elem? table r ≡ some (some v)
    → 1 ≤ count_holding v.addr (used table)
unfolding used count_holding
entry-count_holding [] r v h e = cc
entry-count_holding (none ∷ table) zero v h e = cc
entry-count_holding (none ∷ table) (suc r) v h e = entry-count_holding table r v h e
entry-count_holding (some w ∷ table) zero v h e =
    rw (sym (some-injective _ _ (some-injective _ _ e))) (rw (holds_self w h.0) (omega arith))
entry-count_holding (some w ∷ table) (suc r) v h e =
    omega (arith, entry-count_holding table r v h.1 e)

get_ref_loop_entry :
    (table : List (Option Block)) (r : ℕ) (v : Block)
    → IsSolid table
    → count_holding v.addr (used table) ≤ 1
    → get_elem? table r ≡ some (some v)
    → get_ref_loop v.addr table ≡ some r
unfolding used count_holding get_ref_loop
get_ref_loop_entry [] r v h c e = cc
get_ref_loop_entry (none ∷ table) zero v h c e = cc
get_ref_loop_entry (none ∷ table) (suc r) v h c e =
    ap next_index (get_ref_loop_entry table r v h c e)
get_ref_loop_entry (some w ∷ table) zero v h c e =
    let same : (w.addr == v.addr) ≡ true =
      ap (λ (b : Block). w.addr == b.addr) (sym (some-injective _ _ (some-injective _ _ e)))
      ∙ self w.addr in
    rw same refl
  where
    self : (a : ℕ) → (a == a) ≡ true
    self a = ground arith
get_ref_loop_entry (some w ∷ table) (suc r) v h c e = elim (Bool-cases (w.addr == v.addr)) [
  | inl same ↦ absurd (twice same)
  | inr other ↦ rw other (ap next_index (get_ref_loop_entry table r v h.1 (omega (arith, c)) e))
]
  where
    twice : (w.addr == v.addr) ≡ true → ⊥
    twice same = ground (arith, holds_self w h.0, entry-count_holding table r v h.1 e)

-- When the free blocks and those of the table tile the pool and no value is empty, get_ref is the
-- inverse of deref: the value that a reference names is found under that reference and no other.
pub get_ref-deref :
    (size pool : ℕ) (s : Refs) (r : ℕ) (v : Block)
    → IsTable size pool s
    → IsSolid s.ref_table
    → deref r s ≡ some v
    → get_ref v.addr s ≡ some r
unfolding get_ref deref
get_ref-deref size pool s r v t h e =
    let once : count_holding v.addr (used s.ref_table) ≤ 1 = ground (arith, t.bytes v.addr) in
    get_ref_loop_entry s.ref_table r v h once (in_pool_entry s.pool (get_elem? s.ref_table r) v e)
