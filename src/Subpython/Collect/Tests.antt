-- ===== src/Subpython/Collect/Tests.antt =====
-- A collection of a pool of 512 bytes: a list with its array, an integer in the array, and a value that
-- nothing reaches.
use cs_24_coursework.Prelude.{
  ℕ, zero, suc, arith, ◌+◌, ◌/◌, ◌<◌, ◌==◌, if◌then◌else◌, false, Option, ◌≡◌, refl, none, some,
  List, [], ◌∷◌,
}
use mathlib.Core.Path.{subst}
use mathlib.Core.Option.{some-injective}
use cs_24_coursework.Subpython.Pool.{Block, block, mm_init, mm_malloc, is_pool_address}
use cs_24_coursework.Subpython.Refs.{
  ref, null_ref, Kind, val_integer, val_list, val_ref_array, Value, Refs, recurse, for_each, done,
  Outcome,
}
use cs_24_coursework.Subpython.Collect.{
  Halves, other_half, half_pool, operate_global, keep_copied, collect_garbage,
}
use cs_24_coursework.Subpython.Collect.Correct.{IsBefore}
use cs_24_coursework.Subpython.Pool.Bytes.{total_size}
use cs_24_coursework.Subpython.Refs.Entries.{used}
use cs_24_coursework.Subpython.Collect.Ready.{IsWhole}
use cs_24_coursework.Subpython.Collect.Complete.{Completes, collect_garbage-Completes}

abbrev value : Kind → ℕ → Value
value k n = record { kind = k; ref_count = n }

abbrev halves : Halves
halves = record { pool_start = 4096; halfway_point = 4352; actual_size = 512; f = false }

abbrev used_pool : Refs
used_pool = record {
  pool = mm_init 256 4096;
  values = λ a.
      if a == 4096
      then value (val_list 1 (ref 1)) 1
      else if a == 4136
      then value (val_ref_array (ref 2 ∷ null_ref ∷ [])) 1
      else value (val_integer 7) 3;
  ref_table =
      some (block 4096 40)
      ∷ some (block 4136 48)
      ∷ some (block 4184 32)
      ∷ some (block 4216 32)
      ∷ [];
  max_refs = 8;
}

-- The table after a run.
abbrev table_of : Outcome → List (Option Block)
table_of (done s) = s.ref_table
table_of _ = []

collected :
    table_of (collect_garbage (ref 0 ∷ []) halves used_pool).0
    ≡ some (block 4352 40) ∷ some (block 4392 48) ∷ some (block 4440 32) ∷ none ∷ []
unfolding collect_garbage operate_global keep_copied other_half mm_init mm_malloc is_pool_address
    for_each recurse
collected = refl

in_block :
    (b v : Block)
    → b ≡ v
    → (is_pool_address b.addr (half_pool (other_half halves)) ≡ false) × (0 < b.value_size)
    → (is_pool_address v.addr (half_pool (other_half halves)) ≡ false) × (0 < v.value_size)
in_block b v e h =
    subst
      (λ (w : Block).
        (is_pool_address w.addr (half_pool (other_half halves)) ≡ false) × (0 < w.value_size))
      e h

used_pool-IsBefore : IsBefore halves used_pool
unfolding is_pool_address mm_init other_half
used_pool-IsBefore zero v e =
    in_block (block 4096 40) v (some-injective _ _ (some-injective _ _ e)) (refl, omega arith)
used_pool-IsBefore (suc zero) v e =
    in_block (block 4136 48) v (some-injective _ _ (some-injective _ _ e)) (refl, omega arith)
used_pool-IsBefore (suc (suc zero)) v e =
    in_block (block 4184 32) v (some-injective _ _ (some-injective _ _ e)) (refl, omega arith)
used_pool-IsBefore (suc (suc (suc zero))) v e =
    in_block (block 4216 32) v (some-injective _ _ (some-injective _ _ e)) (refl, omega arith)
used_pool-IsBefore (suc (suc (suc (suc r)))) v e = cc

used_pool-IsWhole : IsWhole used_pool
unfolding recurse
used_pool-IsWhole zero = ((val_ref_array (ref 2 ∷ null_ref ∷ []), refl), tt)
used_pool-IsWhole (suc zero) = ((val_integer 7, refl), (tt, tt))
used_pool-IsWhole (suc (suc zero)) = tt
used_pool-IsWhole (suc (suc (suc zero))) = tt
used_pool-IsWhole (suc (suc (suc (suc r)))) = tt

used_pool_fits : total_size (used used_pool.ref_table) + 24 < 512 / 2
unfolding total_size used
used_pool_fits = omega arith

collect_garbage-Completes_example :
    Completes (ref 0 ∷ []) used_pool (collect_garbage (ref 0 ∷ []) halves used_pool).0
collect_garbage-Completes_example =
    collect_garbage-Completes (ref 0 ∷ []) halves used_pool used_pool-IsBefore
      ((val_list 1 (ref 1), refl), tt) used_pool-IsWhole used_pool_fits (omega arith)
