-- ===== src/Subpython/Dicts/Tests.antt =====
-- A table of four slots searched, and the theorem there.
use cs_24_coursework.Prelude.{
  ℕ, zero, suc, if◌then◌else◌, ◌%◌, ◌≡◌, refl, Bool, true, false, none, some, List, [], ◌∷◌, drop,
  ◌==◌, arith,
}
use cs_24_coursework.Prelude.Answer.{answer, fault}
use cs_24_coursework.Subpython.Refs.{
  Reference, ref, null_ref, tombstone_ref, val_none, val_integer, init_refs, deref,
}
use cs_24_coursework.Subpython.Pool.{block, mm_init, is_pool_address}
use cs_24_coursework.Subpython.Values.{obj_of, integer_cmp}
use cs_24_coursework.Subpython.Types.{ref_eq}
use cs_24_coursework.Word.{slt}
use mathlib.Core.Path.{subst}
use mathlib.Core.Option.{some-injective}
use cs_24_coursework.Subpython.Run.{Interp, Run, pure, address_of}
use cs_24_coursework.Subpython.Dicts.{keys_find, find_loop}
use cs_24_coursework.Subpython.Dicts.Probes.{
  IsCompared, found_from, first_stop, keys_find-found_from,
}

abbrev state : Interp
state = record {
  refs = init_refs (λ a. record { kind = val_none; ref_count = 0 }) 64 4096;
  none_ref = null_ref;
  true_ref = null_ref;
  false_ref = null_ref;
  exception = none;
  global_vars = [];
}

abbrev is_five : Reference → Bool
is_five (ref n) = n == 5
is_five _ = false

abbrev again : Reference → Reference → Run Bool
again l r = pure (is_five r)

abbrev slots : List Reference
slots = null_ref ∷ ref 4 ∷ tombstone_ref ∷ ref 5 ∷ []

-- Two integers, 7 under 0 and 8 under 1; ref_eq compares with the first one.
abbrev numbers : Interp
numbers = record state {
  refs = record {
    pool = mm_init 64 4096;
    values = λ a. record { kind = val_integer (if a == 4096 then 7 else 8); ref_count = 1 };
    ref_table = some (block 4096 32) ∷ some (block 4128 32) ∷ [];
    max_refs = 8;
  };
}

abbrev is_first : Reference → Bool
is_first (ref n) = n == 0
is_first _ = false

abbrev number_slots : List Reference
number_slots = null_ref ∷ ref 1 ∷ tombstone_ref ∷ ref 0 ∷ []

compared_at :
    (k : Reference) (r : ℕ)
    → some k ≡ some (ref r)
    → ref_eq 1 (ref 0) k numbers ≡ answer (is_first k, numbers)
    → ref_eq 1 (ref 0) (ref r) numbers ≡ answer (is_first (ref r), numbers)
compared_at k r e h =
    subst (λ i. ref_eq 1 (ref 0) i numbers ≡ answer (is_first i, numbers)) (some-injective _ _ e) h

numbers-IsCompared : IsCompared (ref_eq 1) (ref 0) is_first numbers number_slots
unfolding ref_eq obj_of address_of deref is_pool_address mm_init integer_cmp slt
numbers-IsCompared zero r e = cc
numbers-IsCompared (suc zero) r e = compared_at (ref 1) r e refl
numbers-IsCompared (suc (suc zero)) r e = cc
numbers-IsCompared (suc (suc (suc zero))) r e = compared_at (ref 0) r e refl
numbers-IsCompared (suc (suc (suc (suc i)))) r e = cc

keys_find-found_from_example :
    keys_find (ref_eq 1) number_slots 9 (ref 0) true numbers
    ≡ found_from (9 % 4) (first_stop is_first true (drop (9 % 4) number_slots)) numbers
keys_find-found_from_example =
    keys_find-found_from (ref_eq 1) (ref 0) is_first numbers number_slots 9 true numbers-IsCompared
      (omega arith)

-- From slot 1 on: the key in slot 3, and the tombstone in slot 2 if it is not skipped.
finds_key : keys_find again slots 9 (ref 5) true state ≡ answer (some 3, state)
unfolding keys_find find_loop
finds_key = refl

finds_slot : keys_find again slots 9 (ref 5) false state ≡ answer (some 2, state)
unfolding keys_find find_loop
finds_slot = refl

-- No key behind slot 1: slot 0 is not reached.
runs_over : keys_find again (null_ref ∷ ref 4 ∷ ref 6 ∷ ref 7 ∷ []) 9 (ref 5) true state ≡ fault
unfolding keys_find find_loop
runs_over = refl
