-- ===== src/Subpython/Lists/Tests.antt =====
-- A list of two elements in an array of three, and the theorems there.
use cs_24_coursework.Prelude.{
  ℕ, ◌-◌, ◌^◌, ◌≡◌, refl, ◌⊎◌, none, some, List, [], ◌∷◌, get_elem?, arith,
}
use cs_24_coursework.Prelude.Answer.{answer}
use cs_24_coursework.Word.{half64, signed}
use cs_24_coursework.Subpython.Pool.{block, is_pool_address}
use cs_24_coursework.Subpython.Refs.{
  Reference, ref, null_ref, val_integer, val_list, val_ref_array, deref,
}
use cs_24_coursework.Subpython.Run.{Interp, pure, ◌>>◌, exc_index_error, address_of, take_reference}
use cs_24_coursework.Subpython.Values.{obj_of}
use cs_24_coursework.Subpython.Lists.{index_of, delete_at, list_refarray, list_subscr_get}
use cs_24_coursework.Subpython.Lists.Subscripts.{
  IsIndex, Indexes, index_of-Indexes, Deleted, delete_at-Deleted,
}
use cs_24_coursework.Subpython.Lists.Runs.{list_subscr_get-cases}

-- The subscript -1.
index_of-Indexes_example : Indexes 2 (signed half64 (2 ^ 64 - 1)) (index_of 2 (2 ^ 64 - 1))
index_of-Indexes_example = index_of-Indexes 2 (2 ^ 64 - 1) (omega arith) (omega arith)

abbrev three_refs : List Reference
three_refs = ref 4 ∷ ref 5 ∷ ref 6 ∷ []

delete_at-Deleted_example :
    (array' : List Reference) × (delete_at 0 1 three_refs ≡ some array')
    × Deleted 0 1 three_refs array'
delete_at-Deleted_example = delete_at-Deleted 0 1 three_refs (omega arith) (omega arith)

-- An array at address 4096, reference 0.
abbrev with_array : Interp
with_array = record {
  refs = record {
    pool = record { memory_pool = 4096; memory_size = 4096; free_list = [] };
    values = λ a. record { kind = val_ref_array three_refs; ref_count = 1 };
    ref_table = some (block 4096 48) ∷ [];
    max_refs = 8;
  };
  none_ref = null_ref;
  true_ref = null_ref;
  false_ref = null_ref;
  exception = none;
  global_vars = [];
}

array_there : list_refarray (ref 0) with_array ≡ answer ((4096, three_refs), with_array)
unfolding list_refarray obj_of address_of deref is_pool_address
array_there = refl

list_subscr_get-cases_example :
    (((i : ℕ) → ¬ IsIndex 2 (signed half64 1) i)
      × (list_subscr_get (val_list 2 (ref 0)) (val_integer 1) with_array
          ≡ answer (null_ref, record with_array { exception = some exc_index_error })))
    ⊎ ((i : ℕ) × (r : Reference) × IsIndex 2 (signed half64 1) i
        × (get_elem? three_refs i ≡ some r)
        × (list_subscr_get (val_list 2 (ref 0)) (val_integer 1) with_array
            ≡ (take_reference r >> pure r) with_array))
list_subscr_get-cases_example =
    list_subscr_get-cases 2 1 (ref 0) 4096 three_refs with_array refl array_there (omega arith)
      (omega arith) (omega arith)
