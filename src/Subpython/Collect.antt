-- ===== src/Subpython/Collect.antt =====
-- project05-kweng/refs.c: the copying collector over the two halves of the pool. A copy changes what
-- memory holds at its own address only: that it may overlap a value that is in the half when the
-- collection starts is not modelled. The messages of the interactive mode are left out.
pub mod Copies
pub mod Measure
pub mod Moves
pub mod Correct
pub mod Room
pub mod Ready
pub mod Complete
mod Tests
use cs_24_coursework.Prelude.{
  ℕ, zero, suc, ◌+◌, ◌/◌, ◌%◌, ◌^◌, Bool, true, false, not, Option, none, some, List, [], ◌∷◌,
  if◌then◌else◌, length, get_elem?, set,
}
use cs_24_coursework.Subpython.Pool.{Block, block, Pool, mm_init, mm_malloc, is_pool_address}
use cs_24_coursework.Subpython.Refs.{
  Reference, ref, null_ref, tombstone_ref, Refs, write_value, set_count, Outcome, done,
  assert_failed, out_of_fuel, and_then, for_each, recurse,
}

-- pool, halfway_point, actual_size and f: the half in use is the second one if f is true.
pub record Halves : Type 0 where
  pub pool_start : ℕ
  pub halfway_point : ℕ
  pub actual_size : ℕ
  pub f : Bool

-- mm_malloc's NULL is written to, which is a fault.
abbrev pub copy_to :
    (Reference → Refs → Outcome) → ℕ → Block → Option (Block × Pool) → Refs → Outcome
copy_to again r v none s = assert_failed
copy_to again r v (some (new_v, pool)) s =
    let kind = (s.values v.addr).kind in
    let copied = write_value new_v.addr (record { kind = kind; ref_count = 1 }) s in
    let table = set s.ref_table r (some (block new_v.addr v.value_size)) in
    for_each again (recurse kind) (record copied { pool = pool; ref_table = table })

-- An entry that the table has not, or that is NULL, is read all the same, which is a fault.
abbrev pub copy_entry : (Reference → Refs → Outcome) → ℕ → Option (Option Block) → Refs → Outcome
copy_entry again r none s = assert_failed
copy_entry again r (some none) s = assert_failed
copy_entry again r (some (some v)) s =
    if is_pool_address v.addr s.pool
    then done (set_count v.addr (((s.values v.addr).ref_count + 1) % 2 ^ 64) s)
    else copy_to again r v (mm_malloc v.value_size s.pool) s

-- The fuel bounds the depth of the recursion.
unfoldable pub operate_global : ℕ → Reference → Refs → Outcome
operate_global n null_ref s = done s
operate_global n tombstone_ref s = done s
operate_global zero (ref r) s = out_of_fuel
operate_global (suc n) (ref r) s = copy_entry (operate_global n) r (get_elem? s.ref_table r) s

-- The loop that sets the entries that are not in the pool to NULL.
unfoldable pub keep_copied : Pool → List (Option Block) → List (Option Block)
keep_copied pool [] = []
keep_copied pool (none ∷ table) = none ∷ keep_copied pool table
keep_copied pool (some v ∷ table) =
    let rest = keep_copied pool table in
    if is_pool_address v.addr pool then some v ∷ rest else none ∷ rest

unfoldable pub other_half : Halves → Halves
other_half h = record h { f = not h.f }

abbrev pub half_pool : Halves → Pool
half_pool h = mm_init (h.actual_size / 2) (if h.f then h.halfway_point else h.pool_start)

abbrev pub clear_entries : Refs → Outcome
clear_entries s = done (record s { ref_table = keep_copied s.pool s.ref_table })

-- The references of the global variables, in order; the depth is bounded by the length of the table.
unfoldable pub collect_garbage : List Reference → Halves → Refs → Outcome × Halves
collect_garbage globals h s = (
  and_then
      (for_each (operate_global (suc (length s.ref_table))) globals
        (record s { pool = half_pool (other_half h) }))
      clear_entries,
  other_half h,
)
