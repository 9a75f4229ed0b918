-- ===== src/Subpython/Collect/Measure.antt =====
-- How many entries of the table are still to be copied.
use cs_24_coursework.Prelude.{
  ℕ, zero, suc, ◌+◌, ◌≤◌, ◌≡◌, Bool, true, false, ◌&&◌, Option, none, some, List, [], ◌∷◌, leb, ltb,
  length, if◌then◌else◌, get_elem?, set, arith,
}
use mathlib.Core.Option.{some-injective}
use cs_24_coursework.Subpython.Pool.{Block}
use cs_24_coursework.Subpython.Refs.{Refs}

abbrev pub inside : ℕ → ℕ → ℕ → Bool
inside base size a = leb base a && ltb a (base + size)

unfoldable pub outside : ℕ → ℕ → List (Option Block) → ℕ
outside base size [] = 0
outside base size (none ∷ table) = outside base size table
outside base size (some v ∷ table) =
    (if inside base size v.addr then 0 else 1) + outside base size table

abbrev pub uncopied : Refs → ℕ
uncopied s = outside s.pool.memory_pool s.pool.memory_size s.ref_table

-- An entry from outside is replaced by one that is inside.
pub outside-set :
    (base size : ℕ) (table : List (Option Block)) (r : ℕ) (v w : Block)
    → get_elem? table r ≡ some (some v)
    → inside base size v.addr ≡ false
    → inside base size w.addr ≡ true
    → suc (outside base size (set table r (some w))) ≡ outside base size table
unfolding outside
outside-set base size [] r v w e h k = cc
outside-set base size (x ∷ table) zero v w e h k =
    let same : x ≡ some v = some-injective _ _ e in rw same (rw h (rw k (omega arith)))
outside-set base size (none ∷ table) (suc r) v w e h k = outside-set base size table r v w e h k
outside-set base size (some x ∷ table) (suc r) v w e h k =
    omega (arith, outside-set base size table r v w e h k)

pub outside_le :
    (base size : ℕ) (table : List (Option Block)) → outside base size table ≤ length table
unfolding outside
outside_le base size [] = omega arith
outside_le base size (none ∷ table) = omega (arith, outside_le base size table)
outside_le base size (some x ∷ table) = ground (arith, outside_le base size table)
