-- ===== src/Subpython/Values.antt =====
-- project05-kweng/eval_refs.c, and the functions of project05-kweng/eval_types.c for None, booleans,
-- integers and strings. An int that says how two values compare is its sign.
pub mod Order
mod Tests
use Prim.Native.Nat.{Ordering, compare}
use cs_24_coursework.Prelude.{
  ℕ, ◌+◌, ◌-◌, ◌*◌, ◌/◌, ◌%◌, ◌^◌, Bool, true, false, not, Option, none, some, List, [], ◌∷◌, ◌++◌,
  ◌==◌, ltb, if◌then◌else◌, length, replicate,
}
use cs_24_coursework.Prelude.Int.{ℤ}
use cs_24_coursework.Word.{half64, add_w, sub_w, mul_w, sdiv, srem, slt}
use cs_24_coursework.Subpython.Refs.{
  Reference, ref, null_ref, tombstone_ref, Kind, val_none, val_bool, val_integer, val_string,
  val_list, val_dict, val_ref_array,
}
use cs_24_coursework.Subpython.Run.{
  Interp, Run, pure, fail, ◌>>=◌, ◌>>◌, address_of, kind_at, make_reference, take_reference,
}

abbrev pub sizeof_value : ℕ
sizeof_value = 24

unfoldable pub make_reference_none : Run Reference
make_reference_none = make_reference val_none sizeof_value

unfoldable pub make_reference_bool : Run Reference
make_reference_bool = make_reference val_bool sizeof_value

unfoldable pub make_reference_int : ℕ → Run Reference
make_reference_int i = make_reference (val_integer i) 32

-- The characters, and the 0 behind them.
unfoldable pub make_reference_string : List ℕ → Run Reference
make_reference_string text = make_reference (val_string text) (24 + (length text + 1))

unfoldable pub make_reference_string_concat : List ℕ → List ℕ → Run Reference
make_reference_string_concat v₁ v₂ =
    make_reference (val_string (v₁ ++ v₂)) (24 + (length v₁ + length v₂ + 1))

unfoldable pub make_reference_list : Run Reference
make_reference_list = make_reference (val_list 0 null_ref) 40

unfoldable pub make_reference_dict : Run Reference
make_reference_dict = make_reference (val_dict 0 0 null_ref null_ref) 48

unfoldable pub make_reference_refarray : ℕ → Run Reference
make_reference_refarray capacity =
    make_reference (val_ref_array (replicate capacity null_ref)) (32 + 4 * capacity)

-- A value_t *: the address, and what stands there when it is read.
pub record Obj : Type 0 where
  pub addr : ℕ
  pub kind : Kind

unfoldable pub obj_of : Reference → Run Obj
obj_of r = do addr ← address_of r; λ s. pure (record { addr = addr; kind = kind_at addr s }) s

-- The place of a type in value_type_t.
unfoldable pub type_of : Kind → ℕ
type_of val_none = 0
type_of val_bool = 1
type_of (val_integer i) = 2
type_of (val_string text) = 3
type_of (val_list size values) = 4
type_of (val_dict size occupied keys values) = 5
type_of (val_ref_array values) = 7

-- NodeExprBuiltinType
pub data Builtin : Type 0 where
  uop_negate uop_identity op_add op_subtract op_multiply op_divide op_modulo : Builtin
  comp_equals comp_lt comp_gt comp_le comp_ge : Builtin

-- SingletonType
pub data Singleton : Type 0 where
  s_none s_true s_false : Singleton

unfoldable pub singleton_to_ref_borrow : Singleton → Interp → Reference
singleton_to_ref_borrow s_none s = s.none_ref
singleton_to_ref_borrow s_true s = s.true_ref
singleton_to_ref_borrow s_false s = s.false_ref

unfoldable pub singleton_to_ref : Singleton → Run Reference
singleton_to_ref type s =
    (do take_reference (singleton_to_ref_borrow type s); pure (singleton_to_ref_borrow type s)) s

unfoldable pub bool_ref : Bool → Run Reference
bool_ref value = singleton_to_ref (if value then s_true else s_false)

unfoldable pub singleton_bool : Obj → Run Bool
singleton_bool obj s = (do t ← address_of s.true_ref; pure (obj.addr == t)) s

-- A reference_t as a uint64_t.
unfoldable pub reference_bits : Reference → ℕ
reference_bits (ref r) = r
reference_bits null_ref = 2 ^ 64 - 1
reference_bits tombstone_ref = 2 ^ 64 - 2

unfoldable pub singleton_hash : Bool → Obj → Run ℕ
singleton_hash true obj s = pure (reference_bits s.none_ref) s
singleton_hash false obj s = (do b ← singleton_bool obj; r ← bool_ref b; pure (reference_bits r)) s

-- The sign of a - b, of two truth values.
abbrev pub bool_cmp : Bool → Bool → Ordering
bool_cmp true false = Ordering.gt
bool_cmp false true = Ordering.lt
bool_cmp _ _ = Ordering.eq

unfoldable pub singleton_cmp : Obj → Obj → Run Ordering
singleton_cmp l r = do a ← singleton_bool l; b ← singleton_bool r; pure (bool_cmp a b)

unfoldable pub integer_bool : ℕ → Bool
integer_bool i = not (i == 0)

unfoldable pub integer_cmp : ℕ → ℕ → Ordering
integer_cmp l r =
    if slt half64 r l then Ordering.gt else if slt half64 l r then Ordering.lt else Ordering.eq

abbrev pub or_trap : Option ℕ → Run Reference
or_trap none = fail
or_trap (some i) = make_reference_int i

-- The functions of f_builtins for integers; a division that traps is a fault, and f_table ends with
-- OP_MODULO.
unfoldable pub integer_builtin : Builtin → ℕ → ℕ → Run Reference
integer_builtin uop_negate l r = make_reference_int (sub_w half64 0 l)
integer_builtin uop_identity l r = make_reference_int l
integer_builtin op_add l r = make_reference_int (add_w half64 l r)
integer_builtin op_subtract l r = make_reference_int (sub_w half64 l r)
integer_builtin op_multiply l r = make_reference_int (mul_w half64 l r)
integer_builtin op_divide l r = or_trap (sdiv half64 l r)
integer_builtin op_modulo l r = or_trap (srem half64 l r)
integer_builtin _ l r = fail

abbrev pub is_empty_text : List ℕ → Bool
is_empty_text [] = true
is_empty_text (c ∷ cs) = false

unfoldable pub string_bool : List ℕ → Bool
string_bool text = not (is_empty_text text)

-- A char is signed.
abbrev pub char_bits : ℕ → ℕ
char_bits c = if ltb c 128 then c else c + 2 ^ 64 - 256

unfoldable pub string_hash_loop : ℕ → List ℕ → ℕ
string_hash_loop hash [] = hash
string_hash_loop hash (c ∷ cs) = string_hash_loop ((31 * hash + char_bits c) % 2 ^ 64) cs

unfoldable pub string_hash : List ℕ → ℕ
string_hash text = string_hash_loop 1125899906842597 text

-- The strcmp of the C library, by the first characters that differ; the 0 at the end is below all of them.
unfoldable pub strcmp : List ℕ → List ℕ → Ordering
strcmp [] [] = Ordering.eq
strcmp [] (c ∷ cs) = Ordering.lt
strcmp (c ∷ cs) [] = Ordering.gt
strcmp (c ∷ cs) (d ∷ ds) =
    let rest = strcmp cs ds in
    if ltb c d then Ordering.lt else if ltb d c then Ordering.gt else rest

abbrev pub string_cmp : List ℕ → List ℕ → Ordering
string_cmp l r = strcmp l r
