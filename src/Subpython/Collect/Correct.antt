-- ===== src/Subpython/Collect/Correct.antt =====
-- A whole collection: what is reached from the global variables.
use cs_24_coursework.Prelude.{
  ℕ, zero, suc, ◌<◌, ◌≡◌, refl, sym, ◌∙◌, true, false, Option, none, some, List, [], ◌∷◌,
  if◌then◌else◌, length, get_elem?, arith, Bool-cases, ◌⊎◌, inl, inr,
}
use mathlib.Core.Path.{subst}
use mathlib.Core.Bool.{true≢false}
use cs_24_coursework.Subpython.Pool.{Block, Pool, mm_init, is_pool_address}
use cs_24_coursework.Subpython.Pool.Bytes.{count_holding}
use cs_24_coursework.Subpython.Refs.{
  Reference, ref, Refs, Outcome, done, assert_failed, out_of_fuel, and_then, for_each,
}
use cs_24_coursework.Subpython.Collect.{
  Halves, other_half, half_pool, keep_copied, clear_entries, operate_global, collect_garbage,
}
use cs_24_coursework.Subpython.Collect.Measure.{outside_le}
use cs_24_coursework.Subpython.Collect.Copies.{
  kind_of, kind_at, IsApart, Keeps, Goes, IsClosed, IsHere, AreHere, held_by, here, here_entry,
  for_each-Goes,
}
use cs_24_coursework.Subpython.Collect.Moves.{operate_global-Goes}

-- The reference is in the list.
pub data IsAmong (r : Reference) : List Reference → Type 0 where
  first : (rs : List Reference) → IsAmong r (r ∷ rs)
  later : (i : Reference) (rs : List Reference) → IsAmong r rs → IsAmong r (i ∷ rs)

-- The program can come to the reference from the global variables.
pub data Reaches (globals : List Reference) (s : Refs) : Reference → Type 0 where
  global : (r : Reference) → IsAmong r globals → Reaches globals s r
  held :
      (i : ℕ) (r : Reference)
      → Reaches globals s (ref i)
      → IsAmong r (held_by (kind_at i s))
      → Reaches globals s r

-- No value is in the half that the collection copies into, and none has size 0.
abbrev pub IsBefore : Halves → Refs → Type 0
IsBefore h s =
    (r : ℕ) (v : Block)
    → get_elem? s.ref_table r ≡ some (some v)
    → (is_pool_address v.addr (half_pool (other_half h)) ≡ false) × (0 < v.value_size)

-- The entry has been copied and stands for what it stood for.
abbrev pub IsCopy : Refs → Refs → ℕ → Type 0
IsCopy s t r = (here r t ≡ true) × (kind_at r t ≡ kind_at r s)

-- The run does not come to the end of its fuel. If it is done, what is reached has been copied, and
-- each entry has or is unused.
abbrev pub Collects : List Reference → Refs → Outcome → Type 0
Collects globals s (done t) =
    ((r : ℕ) → Reaches globals s (ref r) → IsCopy s t r)
    × ((r : ℕ) → IsCopy s t r ⊎ (kind_at r t ≡ none))
Collects globals s assert_failed = Unit
Collects globals s out_of_fuel = ⊥

AreHere-among :
    (t : Refs) (r : Reference) (rs : List Reference) → AreHere t rs → IsAmong r rs → IsHere t r
AreHere-among t r [] h m = elim m [ ]
AreHere-among t r (i ∷ rs) (h, hs) (first _) = h
AreHere-among t r (i ∷ rs) (h, hs) (later _ _ m) = AreHere-among t r rs hs m

abbrev keep_entry : Pool → Option (Option Block) → Option (Option Block)
keep_entry pool none = none
keep_entry pool (some none) = some none
keep_entry pool (some (some v)) = if is_pool_address v.addr pool then some (some v) else some none

get_elem?-keep_copied :
    (pool : Pool) (table : List (Option Block)) (r : ℕ)
    → get_elem? (keep_copied pool table) r ≡ keep_entry pool (get_elem? table r)
unfolding keep_copied
get_elem?-keep_copied pool [] r = refl
get_elem?-keep_copied pool (none ∷ table) zero = refl
get_elem?-keep_copied pool (none ∷ table) (suc r) = get_elem?-keep_copied pool table r
get_elem?-keep_copied pool (some v ∷ table) zero = elim (Bool-cases (is_pool_address v.addr pool)) [
  | inl e ↦ rw e refl
  | inr e ↦ rw e refl
]
get_elem?-keep_copied pool (some v ∷ table) (suc r) =
    elim (Bool-cases (is_pool_address v.addr pool)) [
      | inl e ↦ rw e (get_elem?-keep_copied pool table r)
      | inr e ↦ rw e (get_elem?-keep_copied pool table r)
    ]

abbrev cleared : Refs → Refs
cleared t = record t { ref_table = keep_copied t.pool t.ref_table }

keep_entry-cases :
    (t : Refs) (o : Option (Option Block))
    → (here_entry t.pool.memory_pool t.pool.memory_size o ≡ true) × (keep_entry t.pool o ≡ o)
      ⊎ (here_entry t.pool.memory_pool t.pool.memory_size o ≡ false)
        × (kind_of t.values (keep_entry t.pool o) ≡ none)
unfolding is_pool_address
keep_entry-cases t none = inr (refl, refl)
keep_entry-cases t (some none) = inr (refl, refl)
keep_entry-cases t (some (some v)) = elim (Bool-cases (is_pool_address v.addr t.pool)) [
  | inl e ↦ inl (e, rw e refl)
  | inr e ↦ inr (e, rw e refl)
]

-- The state after the swap of the halves.
abbrev pub swapped : Halves → Refs → Refs
swapped h s = record s { pool = half_pool (other_half h) }

pub swapped-IsApart : (h : Halves) (s : Refs) → IsBefore h s → IsApart (swapped h s)
unfolding mm_init count_holding is_pool_address
swapped-IsApart h s before = record {
  once = λ a. omega arith;
  taken = λ r v e. let (out, size) = before r v e in (rw out refl, size);
}

swapped_empty : (h : Halves) (s : Refs) → IsBefore h s → (r : ℕ) → here r (swapped h s) ≡ true → ⊥
unfolding is_pool_address
swapped_empty h s before r e = none_here (get_elem? s.ref_table r) (λ v f. (before r v f).0) e
  where
    none_here :
        (o : Option (Option Block))
        → ((v : Block)
            → o ≡ some (some v)
            → is_pool_address v.addr (half_pool (other_half h)) ≡ false)
        → here_entry (half_pool (other_half h)).memory_pool (half_pool (other_half h)).memory_size o
          ≡ true
        → ⊥
    none_here none f k = cc
    none_here (some none) f k = cc
    none_here (some (some v)) f k = true≢false (sym k ∙ f v refl)

module _ (globals : List Reference) (h : Halves) (s u : Refs) (before : IsBefore h s)
    (k : Keeps (swapped h s) u) (c : IsClosed (swapped h s) u) (a : AreHere u globals) where
  reached-IsHere : (r : Reference) → Reaches globals s r → IsHere u r
  reached-IsHere r (global _ m) = AreHere-among u r globals a m
  reached-IsHere r (held i _ reach m) = elim (c i (reached-IsHere (ref i) reach)) [
    | inl old ↦ absurd (swapped_empty h s before i old)
    | inr all ↦
        let held = subst (λ o. AreHere u (held_by o)) (k.kinds i) all in
        AreHere-among u r (held_by (kind_at i s)) held m
  ]

  kept-IsCopy :
      (r : ℕ)
      → keep_entry u.pool (get_elem? u.ref_table r) ≡ get_elem? u.ref_table r
      → here r u ≡ true
      → IsCopy s (cleared u) r
  kept-IsCopy r same e =
      let entry = get_elem?-keep_copied u.pool u.ref_table r ∙ same in
      (rw entry e, rw entry (k.kinds r))

  kept-cases : (r : ℕ) → IsCopy s (cleared u) r ⊎ (kind_at r (cleared u) ≡ none)
  kept-cases r = elim (keep_entry-cases u (get_elem? u.ref_table r)) [
    | inl (e, same) ↦ inl (kept-IsCopy r same e)
    | inr (e, gone) ↦ inr (rw (get_elem?-keep_copied u.pool u.ref_table r) gone)
  ]

  reached-IsCopy : (r : ℕ) → Reaches globals s (ref r) → IsCopy s (cleared u) r
  reached-IsCopy r reach = elim (keep_entry-cases u (get_elem? u.ref_table r)) [
    | inl (e, same) ↦ kept-IsCopy r same e
    | inr (e, gone) ↦ absurd (true≢false (sym (reached-IsHere (ref r) reach) ∙ e))
  ]

cleared-Collects :
    (globals : List Reference) (h : Halves) (s : Refs) (o : Outcome)
    → IsBefore h s
    → Goes (swapped h s) globals o
    → Collects globals s (and_then o clear_entries)
cleared-Collects globals h s (done u) before (k, c, a) =
    (reached-IsCopy globals h s u before k c a, kept-cases globals h s u before k c a)
cleared-Collects globals h s assert_failed before g = tt
cleared-Collects globals h s out_of_fuel before g = g

-- The same of collect_garbage.
pub collect_garbage-Collects :
    (globals : List Reference) (h : Halves) (s : Refs)
    → IsBefore h s
    → Collects globals s (collect_garbage globals h s).0
unfolding collect_garbage
collect_garbage-Collects globals h s before =
    let apart = swapped-IsApart h s before in
    let fuel = suc (length s.ref_table) in
    let goes =
      for_each-Goes (operate_global fuel) fuel (λ r t k l. operate_global-Goes fuel r t k l) in
    let bound =
      outside_le (half_pool (other_half h)).memory_pool (half_pool (other_half h)).memory_size
        s.ref_table in
    cleared-Collects globals h s (for_each (operate_global fuel) globals (swapped h s)) before
      (goes globals (swapped h s) apart (omega (arith, bound)))
