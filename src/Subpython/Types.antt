-- ===== src/Subpython/Types.antt =====
-- The dispatch functions of project05-kweng/eval_types.c. A function that the table of a type has not
-- raises a TypeError; an array of references is no type of the table, and its use is a fault. The calls
-- of ref_eq and compare on elements run on fuel, one unit for each level of values.
use Prim.Native.Nat.{Ordering}
use cs_24_coursework.Prelude.{
  ℕ, zero, suc, ◌-◌, ◌^◌, Bool, true, false, ◌==◌, if◌then◌else◌, length,
}
use cs_24_coursework.Prelude.Answer.{no_fuel}
use cs_24_coursework.Subpython.Refs.{
  Reference, null_ref, Kind, val_none, val_bool, val_integer, val_string, val_list, val_dict,
  val_ref_array,
}
use cs_24_coursework.Subpython.Run.{
  Run, pure, fail, ◌>>=◌, ◌>>◌, exc_type_error, exception_set, exception_occurred,
}
use cs_24_coursework.Subpython.Values.{
  Obj, obj_of, type_of, Builtin, op_add, comp_equals, comp_lt, comp_gt, comp_le, comp_ge,
  make_reference_string_concat, bool_ref, singleton_bool, singleton_cmp, integer_bool, integer_cmp,
  integer_builtin, string_bool, string_cmp,
}
use cs_24_coursework.Subpython.Lists.{
  list_len, list_bool, list_cmp, list_eq, list_subscr_get, list_subscr_set, list_subscr_del,
  is_zero,
}
use cs_24_coursework.Subpython.Dicts.{dict_len, dict_bool, dict_subscr_get}
use cs_24_coursework.Subpython.Dicts.Change.{dict_subscr_set, dict_subscr_del, dict_eq}

-- A TypeError, and what the function gives back.
abbrev pub type_error : {A : Type 0} → A → Run A
type_error a = do exception_set exc_type_error; pure a

abbrev pub bool_obj : Obj → Kind → Run Bool
bool_obj obj (val_integer i) = pure (integer_bool i)
bool_obj obj (val_string text) = pure (string_bool text)
bool_obj obj (val_list size values) = list_bool obj.kind
bool_obj obj (val_dict size occupied keys values) = dict_bool obj.kind
bool_obj obj (val_ref_array values) = fail
bool_obj obj _ = singleton_bool obj

unfoldable pub ref_bool : Reference → Run Bool
ref_bool r = do obj ← obj_of r; bool_obj obj obj.kind

abbrev pub len_obj : Obj → Kind → Run ℕ
len_obj obj (val_string text) = pure (length text)
len_obj obj (val_list size values) = list_len obj.kind
len_obj obj (val_dict size occupied keys values) = dict_len obj.kind
len_obj obj (val_ref_array values) = fail
len_obj obj _ = type_error (2 ^ 64 - 1)

-- An int64_t; -1 with the TypeError.
unfoldable pub ref_len : Reference → Run ℕ
ref_len r = do obj ← obj_of r; len_obj obj obj.kind

-- The two kinds of operands. f_table has no entry behind OP_MODULO; eval_builtin sends no such type here.
abbrev pub builtin_obj : Builtin → Kind → Kind → Run Reference
builtin_obj type (val_integer l) (val_integer r) = integer_builtin type l r
builtin_obj op_add (val_string l) (val_string r) = make_reference_string_concat l r
builtin_obj type (val_ref_array ls) (val_ref_array rs) = fail
builtin_obj type l r = type_error null_ref

unfoldable pub ref_builtin : Builtin → Reference → Reference → Run Reference
ref_builtin type l r = do lobj ← obj_of l; robj ← obj_of r; builtin_obj type lobj.kind robj.kind

abbrev pub same_type : Kind → Kind → Bool
same_type l r = type_of l == type_of r

-- `again` is compare, on the elements of a list. None and booleans share their function.
abbrev pub cmp_obj : (Reference → Reference → Run Ordering) → Obj → Obj → Kind → Kind → Run Ordering
cmp_obj again l r val_none val_none = singleton_cmp l r
cmp_obj again l r val_bool val_bool = singleton_cmp l r
cmp_obj again l r (val_integer a) (val_integer b) = pure (integer_cmp a b)
cmp_obj again l r (val_string a) (val_string b) = pure (string_cmp a b)
cmp_obj again l r (val_list a as₁) (val_list b bs) = list_cmp again l.kind r.kind
cmp_obj again l r (val_ref_array a) k = fail
cmp_obj again l r j k = type_error Ordering.eq

unfoldable pub compare : ℕ → Reference → Reference → Run Ordering
compare zero l r s = no_fuel
compare (suc fuel) l r s =
    (do lobj ← obj_of l; robj ← obj_of r; cmp_obj (compare fuel) lobj robj lobj.kind robj.kind) s

abbrev pub compares : Builtin → Ordering → Run Reference
compares comp_equals o = bool_ref (is_zero o)
compares comp_lt Ordering.lt = bool_ref true
compares comp_lt _ = bool_ref false
compares comp_gt Ordering.gt = bool_ref true
compares comp_gt _ = bool_ref false
compares comp_le Ordering.gt = bool_ref false
compares comp_le _ = bool_ref true
compares comp_ge Ordering.lt = bool_ref false
compares comp_ge _ = bool_ref true
compares _ o = fail

unfoldable pub ref_compare : ℕ → Builtin → Reference → Reference → Run Reference
ref_compare fuel type l r = do
  comparison ← compare fuel l r
  failed ← exception_occurred
  if failed then pure null_ref else compares type comparison

-- `again` is ref_eq. Values of different types are not equal.
abbrev pub eq_obj : (Reference → Reference → Run Bool) → Obj → Obj → Kind → Kind → Run Bool
eq_obj again l r val_none val_none = pure (l.addr == r.addr)
eq_obj again l r val_bool val_bool = pure (l.addr == r.addr)
eq_obj again l r (val_integer a) (val_integer b) = pure (is_zero (integer_cmp a b))
eq_obj again l r (val_string a) (val_string b) = pure (is_zero (string_cmp a b))
eq_obj again l r (val_list a as₁) (val_list b bs) = list_eq again l.kind r.kind
eq_obj again l r (val_dict a o k v) (val_dict b p j w) = dict_eq again l.kind r.kind
eq_obj again l r (val_ref_array a) (val_ref_array b) = fail
eq_obj again l r j k = pure false

unfoldable pub ref_eq : ℕ → Reference → Reference → Run Bool
ref_eq zero l r s = no_fuel
ref_eq (suc fuel) l r s =
    (do lobj ← obj_of l; robj ← obj_of r; eq_obj (ref_eq fuel) lobj robj lobj.kind robj.kind) s

abbrev pub get_obj : ℕ → Kind → Reference → Run Reference
get_obj fuel (val_list size values) subscr = do
  subscript ← obj_of subscr
  list_subscr_get (val_list size values) subscript.kind
get_obj fuel (val_dict size occupied keys values) subscr =
    dict_subscr_get (ref_eq fuel) (val_dict size occupied keys values) subscr
get_obj fuel (val_ref_array values) subscr = fail
get_obj fuel _ subscr = type_error null_ref

unfoldable pub ref_subscr_get : ℕ → Reference → Reference → Run Reference
ref_subscr_get fuel r subscr = do obj ← obj_of r; get_obj fuel obj.kind subscr

abbrev pub set_obj : ℕ → Obj → Kind → Reference → Reference → Run (Unit {0})
set_obj fuel obj (val_list size values) subscr value = do
  subscript ← obj_of subscr
  list_subscr_set fuel obj.kind subscript.kind value
set_obj fuel obj (val_dict size occupied keys values) subscr value =
    dict_subscr_set (ref_eq fuel) fuel obj.addr subscr value
set_obj fuel obj (val_ref_array values) subscr value = fail
set_obj fuel obj _ subscr value = type_error tt

unfoldable pub ref_subscr_set : ℕ → Reference → Reference → Reference → Run (Unit {0})
ref_subscr_set fuel r subscr value = do obj ← obj_of r; set_obj fuel obj obj.kind subscr value

abbrev pub del_obj : ℕ → Obj → Kind → Reference → Run (Unit {0})
del_obj fuel obj (val_list size values) subscr = do
  subscript ← obj_of subscr
  list_subscr_del fuel obj subscript.kind
del_obj fuel obj (val_dict size occupied keys values) subscr =
    dict_subscr_del (ref_eq fuel) fuel obj.addr subscr
del_obj fuel obj (val_ref_array values) subscr = fail
del_obj fuel obj _ subscr = type_error tt

unfoldable pub ref_subscr_del : ℕ → Reference → Reference → Run (Unit {0})
ref_subscr_del fuel r subscr = do obj ← obj_of r; del_obj fuel obj obj.kind subscr
