-- ===== src/Subpython/Refs/Tests.antt =====
-- A pool of 256 bytes with an integer, and with a list of one integer, and the theorems there.
use cs_24_coursework.Prelude.{
  arith, ◌==◌, if◌then◌else◌, Option, ℕ, ◌≡◌, refl, none, some, List, [], ◌∷◌,
}
use cs_24_coursework.Subpython.Pool.{Block, block, mm_init, mm_malloc, mm_free, is_pool_address}
use cs_24_coursework.Subpython.Pool.Reach.{sys, start, Reach-IsTiled}
use cs_24_coursework.Subpython.Refs.{
  get_ref, ref, Kind, val_none, val_integer, val_list, val_ref_array, Value, Refs, init_refs,
  find_unused, assign_reference, make_ref, deref, count_used, refs_used, recurse, for_each, release,
  drop_reference, decref, done, Outcome, out_of_fuel, assert_failed,
}
use cs_24_coursework.Subpython.Refs.Entries.{used}
use cs_24_coursework.Subpython.Refs.Table.{IsTable, Makes, make_ref-Makes}
use cs_24_coursework.Subpython.Refs.Inverse.{get_ref-deref}
use cs_24_coursework.Subpython.Refs.Counts.{IsLeaf, Frees, decref_each-Frees}

abbrev memory : ℕ → Value
memory a = record { kind = val_none; ref_count = 0 }

abbrev empty : Refs
empty = record { pool = mm_init 256 4096; values = memory; ref_table = []; max_refs = 0 }

empty_init : init_refs memory 259 4096 ≡ empty
unfolding init_refs
empty_init = refl

empty-IsTable : IsTable 256 4096 empty
unfolding used
empty-IsTable = Reach-IsTiled 256 4096 (sys (mm_init 256 4096) []) start

abbrev value : Kind → ℕ → Value
value k n = record { kind = k; ref_count = n }

-- After make_ref of an integer of 30 bytes, rounded up to 32.
abbrev with_integer : Refs
with_integer = record {
  pool = record { memory_pool = 4096; memory_size = 256; free_list = block 4128 224 ∷ [] };
  values = λ a. if a == 4096 then value (val_integer 7) 1 else memory a;
  ref_table = some (block 4096 32) ∷ [];
  max_refs = 8;
}

makes_integer : make_ref (val_integer 7) 30 empty ≡ some (0, with_integer)
unfolding make_ref mm_malloc mm_init assign_reference find_unused
makes_integer = refl

make_ref-Makes_example : Makes 256 4096 (val_integer 7) 32 empty with_integer 0
make_ref-Makes_example =
    make_ref-Makes 256 4096 (val_integer 7) 30 empty with_integer 0 empty-IsTable makes_integer

-- The integer has two references more.
abbrev with_three : Refs
with_three = record with_integer {
  values = λ a. if a == 4096 then value (val_integer 7) 3 else memory a;
}

with_three-IsTable : IsTable 256 4096 with_three
with_three-IsTable = make_ref-Makes_example.tiled

with_three-IsLeaf : IsLeaf with_three 0 (block 4096 32) 2
unfolding deref recurse is_pool_address
with_three-IsLeaf = record { found = refl; holds_none = refl; counted = refl }

decref_each-Frees_example : Frees 256 4096 with_three 0 2
decref_each-Frees_example =
    decref_each-Frees 256 4096 with_three 0 (block 4096 32) 2 with_three-IsTable with_three-IsLeaf

get_ref-deref_example : get_ref 4096 with_three ≡ some 0
get_ref-deref_example =
    get_ref-deref 256 4096 with_three 0 (block 4096 32) with_three-IsTable (omega arith, tt)
      with_three-IsLeaf.found

-- A list (reference 2) of an array (1) that holds the integer (0) twice, whose count is 3: dropping
-- the list frees list and array and leaves the integer with one reference.
abbrev with_list : Refs
with_list = record {
  pool = record { memory_pool = 4096; memory_size = 256; free_list = block 4208 144 ∷ [] };
  values = λ a.
      if a == 4096
      then value (val_integer 7) 3
      else if a == 4128
      then value (val_ref_array (ref 0 ∷ ref 0 ∷ [])) 1
      else value (val_list 1 (ref 1)) 1;
  ref_table = some (block 4096 32) ∷ some (block 4128 40) ∷ some (block 4168 40) ∷ [];
  max_refs = 8;
}

abbrev left_over : Outcome → Option (ℕ × ℕ × List Block)
left_over (done s) = some (refs_used s, (s.values 4096).ref_count, s.pool.free_list)
left_over assert_failed = none
left_over out_of_fuel = none

drops_list :
    left_over (decref 3 (ref 2) with_list)
    ≡ some (1, 1, block 4168 40 ∷ block 4128 40 ∷ block 4208 144 ∷ [])
unfolding decref drop_reference for_each recurse deref release refs_used count_used mm_free
    is_pool_address
drops_list = refl
