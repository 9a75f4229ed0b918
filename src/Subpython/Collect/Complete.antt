-- ===== src/Subpython/Collect/Complete.antt =====
-- A collection makes no fault when the values fit into the half.
use cs_24_coursework.Prelude.{
  ℕ, suc, ◌+◌, ◌/◌, ◌-◌, ◌^◌, ◌<◌, ◌≡◌, refl, none, List, length, arith, ◌⊎◌,
}
use cs_24_coursework.Subpython.Pool.{mm_init}
use cs_24_coursework.Subpython.Pool.Bytes.{total_size}
use cs_24_coursework.Subpython.Refs.{
  Reference, ref, Refs, Outcome, done, assert_failed, out_of_fuel, and_then, for_each,
}
use cs_24_coursework.Subpython.Refs.Entries.{used}
use cs_24_coursework.Subpython.Collect.{
  Halves, other_half, half_pool, clear_entries, operate_global, collect_garbage,
}
use cs_24_coursework.Subpython.Collect.Measure.{outside_le}
use cs_24_coursework.Subpython.Collect.Copies.{kind_at}
use cs_24_coursework.Subpython.Collect.Moves.{operate_global-Goes}
use cs_24_coursework.Subpython.Collect.Room.{need_le}
use cs_24_coursework.Subpython.Collect.Correct.{
  Reaches, IsBefore, IsCopy, Collects, swapped, swapped-IsApart, collect_garbage-Collects,
}
use cs_24_coursework.Subpython.Collect.Ready.{
  AreNamed, IsWhole, Runs, IsReady, for_each-Runs, operate_global-Runs,
}

swapped-IsReady :
    (h : Halves) (s : Refs)
    → IsBefore h s
    → IsWhole s
    → total_size (used s.ref_table) + 24 < h.actual_size / 2
    → h.actual_size / 2 < 2 ^ 64 - 1
    → IsReady (suc (length s.ref_table)) (swapped h s)
unfolding mm_init other_half
swapped-IsReady h s before whole fits small =
    let base = (half_pool (other_half h)).memory_pool in
    let extent = (half_pool (other_half h)).memory_size in
    let all = need_le base extent s.ref_table in
    let bound = outside_le base extent s.ref_table in
    record {
      apart = swapped-IsApart h s before;
      fuel = omega (arith, bound);
      room = record {
        addr = base;
        size = h.actual_size / 2;
        free = refl;
        room = omega (arith, all, fits);
        small = small;
      };
      whole = whole;
    }

-- The run is done, what is reached has been copied, and each entry has or is unused.
abbrev pub Completes : List Reference → Refs → Outcome → Type 0
Completes globals s (done t) =
    ((r : ℕ) → Reaches globals s (ref r) → IsCopy s t r)
    × ((r : ℕ) → IsCopy s t r ⊎ (kind_at r t ≡ none))
Completes globals s assert_failed = ⊥
Completes globals s out_of_fuel = ⊥

done-Completes :
    (globals : List Reference) (s : Refs) (o : Outcome)
    → Runs o
    → Collects globals s (and_then o clear_entries)
    → Completes globals s (and_then o clear_entries)
done-Completes globals s (done t) room c = c
done-Completes globals s assert_failed room c = room
done-Completes globals s out_of_fuel room c = room

-- collect_garbage, when no value is in the half that it copies into and no size is 0, when the global
-- variables and the references in values have values, and when the sizes of all values with 24 bytes
-- more are less than the half, whose size is below the greatest size_t: it runs to its end. Then each
-- value that is reached from the global variables has been copied into the other half under its
-- reference, with the type and the data that it had, and each other reference has been kept in the
-- same way or is unused.
pub collect_garbage-Completes :
    (globals : List Reference) (h : Halves) (s : Refs)
    → IsBefore h s
    → AreNamed s globals
    → IsWhole s
    → total_size (used s.ref_table) + 24 < h.actual_size / 2
    → h.actual_size / 2 < 2 ^ 64 - 1
    → Completes globals s (collect_garbage globals h s).0
unfolding collect_garbage
collect_garbage-Completes globals h s before named whole fits small =
    let fuel = suc (length s.ref_table) in
    let ready = swapped-IsReady h s before whole fits small in
    let runs =
      for_each-Runs (operate_global fuel) fuel (λ r t k l. operate_global-Goes fuel r t k l)
        (λ r t k m. operate_global-Runs fuel r t k m) globals (swapped h s) ready named in
    done-Completes globals s (for_each (operate_global fuel) globals (swapped h s)) runs
      (collect_garbage-Collects globals h s before)
