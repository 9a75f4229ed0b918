-- ===== src/Subpython/Refs.antt =====
-- project05-kweng/refs.c: the reference table over the pool of mm.c, and the reference counts. An
-- entry of the table is a value_t *, given as the block of the value; the table has num_refs entries.
pub mod Entries
pub mod Table
pub mod Counts
pub mod Inverse
mod Tests
use cs_24_coursework.Prelude.{
  ℕ, zero, suc, ◌+◌, ◌-◌, ◌*◌, ◌/◌, ◌%◌, ◌^◌, Bool, true, false, ◌&&◌, Option, none, some, List, [],
  ◌∷◌, ◌++◌, ltb, ◌==◌, if◌then◌else◌, length, get_elem?, set,
}
use cs_24_coursework.Subpython.Pool.{Block, Pool, mm_init, mm_malloc, mm_free, is_pool_address}

-- A reference_t: an index, NULL_REF or TOMBSTONE_REF.
pub data Reference : Type 0 where
  ref : ℕ → Reference
  null_ref tombstone_ref : Reference

-- value_type_t, with what stands behind the value_t of a value of the type: the pattern of an
-- int64_t, the characters of a string, the size of a list and its array, the size of a dictionary, its
-- occupied slots and its arrays, and the references of an array.
pub data Kind : Type 0 where
  val_none val_bool : Kind
  val_integer : ℕ → Kind
  val_string : List ℕ → Kind
  val_list : (size : ℕ) (values : Reference) → Kind
  val_dict : (size occupied : ℕ) (keys values : Reference) → Kind
  val_ref_array : List Reference → Kind

pub record Value : Type 0 where
  pub kind : Kind
  pub ref_count : ℕ

-- What memory holds at the address of a value, and the state of the module.
pub record Refs : Type 0 where
  pub pool : Pool
  pub values : ℕ → Value
  pub ref_table : List (Option Block)
  pub max_refs : ℕ

abbrev pub alignment : ℕ
alignment = 8

abbrev pub initial_size : ℕ
initial_size = 8

-- ref_table = NULL, num_refs = 0, max_refs = 0; `memory` is what the memory holds.
unfoldable pub init_refs : (ℕ → Value) → ℕ → ℕ → Refs
init_refs memory memory_size memory_pool = record {
  pool = mm_init (memory_size / alignment * alignment) memory_pool;
  values = memory;
  ref_table = [];
  max_refs = 0;
}

-- The index in a table that has one entry more in front.
abbrev pub next_index : Option ℕ → Option ℕ
next_index none = none
next_index (some i) = some (suc i)

unfoldable pub find_unused : List (Option Block) → Option ℕ
find_unused [] = none
find_unused (none ∷ table) = some 0
find_unused (some b ∷ table) = next_index (find_unused table)

-- The table is enlarged when it is full; the doubling is that of an int32_t.
abbrev pub grown_refs : Refs → ℕ
grown_refs s =
    if length s.ref_table == s.max_refs
    then (if s.max_refs == 0 then initial_size else s.max_refs * 2 % 2 ^ 32)
    else s.max_refs

abbrev pub put_entry : Option ℕ → Block → Refs → ℕ × Refs
put_entry (some i) value s = (i, record s { ref_table = set s.ref_table i (some value) })
put_entry none value s = (
  length s.ref_table,
  record s { ref_table = s.ref_table ++ some value ∷ []; max_refs = grown_refs s },
)

unfoldable pub assign_reference : Block → Refs → ℕ × Refs
assign_reference value s = put_entry (find_unused s.ref_table) value s

abbrev pub write_value : ℕ → Value → Refs → Refs
write_value addr v s = record s { values = λ a. if a == addr then v else s.values a }

abbrev pub aligned : ℕ → ℕ
aligned size = (size + alignment - 1) % 2 ^ 64 / alignment * alignment

abbrev pub initialize : Kind → Option (Block × Pool) → Refs → Option (ℕ × Refs)
initialize kind none s = none
initialize kind (some (value, pool)) s = some (
    assign_reference value
      (write_value value.addr (record { kind = kind; ref_count = 1 }) (record s { pool = pool })))

-- `none` is NULL_REF, where mm_malloc has set the MemoryError.
unfoldable pub make_ref : Kind → ℕ → Refs → Option (ℕ × Refs)
make_ref kind size s = initialize kind (mm_malloc (aligned size) s.pool) s

abbrev pub in_pool : Pool → Option (Option Block) → Option Block
in_pool pool none = none
in_pool pool (some none) = none
in_pool pool (some (some value)) = if is_pool_address value.addr pool then some value else none

-- `none` is a failed assert; NULL is no address of the pool.
unfoldable pub deref : ℕ → Refs → Option Block
deref r s = in_pool s.pool (get_elem? s.ref_table r)

abbrev pub is_entry : ℕ → Option Block → Bool
is_entry addr none = false
is_entry addr (some b) = b.addr == addr

-- `none` is the failed assert.
unfoldable pub get_ref_loop : ℕ → List (Option Block) → Option ℕ
get_ref_loop addr [] = none
get_ref_loop addr (e ∷ table) =
    if is_entry addr e then some 0 else next_index (get_ref_loop addr table)

unfoldable pub get_ref : ℕ → Refs → Option ℕ
get_ref addr s = get_ref_loop addr s.ref_table

unfoldable pub count_used : List (Option Block) → ℕ
count_used [] = 0
count_used (none ∷ table) = count_used table
count_used (some b ∷ table) = suc (count_used table)

unfoldable pub refs_used : Refs → ℕ
refs_used s = count_used s.ref_table

-- The references that recurse calls its function on, in order.
unfoldable pub recurse : Kind → List Reference
recurse (val_list size values) = values ∷ []
recurse (val_dict size occupied keys values) = keys ∷ values ∷ []
recurse (val_ref_array values) = values
recurse _ = []

abbrev pub set_count : ℕ → ℕ → Refs → Refs
set_count addr n s = write_value addr (record { kind = (s.values addr).kind; ref_count = n }) s

unfoldable pub incref : ℕ → Refs → Option Refs
incref r s = elim (deref r s) [
  | none ↦ none
  | some v ↦ some (set_count v.addr (((s.values v.addr).ref_count + 1) % 2 ^ 64) s)
]

pub data Outcome : Type 0 where
  done : Refs → Outcome
  assert_failed out_of_fuel : Outcome

abbrev pub and_then : Outcome → (Refs → Outcome) → Outcome
and_then (done s) k = k s
and_then assert_failed k = assert_failed
and_then out_of_fuel k = out_of_fuel

unfoldable pub for_each : (Reference → Refs → Outcome) → List Reference → Refs → Outcome
for_each f [] s = done s
for_each f (r ∷ rs) s = and_then (f r s) (for_each f rs)

-- ref_table[ref] = NULL; mm_free(v)
unfoldable pub release : ℕ → Block → Refs → Refs
release r v s = record s { pool = mm_free v s.pool; ref_table = set s.ref_table r none }

-- `again` is the call of decref on what the value holds.
unfoldable pub drop_reference : (Reference → Refs → Outcome) → ℕ → Option Block → Refs → Outcome
drop_reference again r none s = assert_failed
drop_reference again r (some v) s =
    let count = (s.values v.addr).ref_count - 1 in
    let counted = set_count v.addr count s in
    if count == 0
    then and_then (for_each again (recurse (s.values v.addr).kind) counted)
        (λ t. done (release r v t))
    else done counted

-- The fuel bounds the depth of the recursion.
unfoldable pub decref : ℕ → Reference → Refs → Outcome
decref n null_ref s = done s
decref n tombstone_ref s = done s
decref zero (ref r) s = out_of_fuel
decref (suc n) (ref r) s = drop_reference (decref n) r (deref r s) s
