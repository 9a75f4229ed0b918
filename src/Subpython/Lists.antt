-- ===== src/Subpython/Lists.antt =====
-- project05-kweng/eval_list.c. `again` is the function of eval_types.c that the code calls on the
-- elements. An access out of an array is a fault.
pub mod Subscripts
pub mod Runs
mod Tests
use Prim.Native.Nat.{Ordering}
use cs_24_coursework.Prelude.{
  ℕ, zero, suc, ◌+◌, ◌-◌, ◌*◌, ◌%◌, ◌^◌, Bool, true, false, not, ◌||◌, Option, none, some, List, [],
  ◌∷◌, ◌==◌, ltb, leb, if◌then◌else◌, length, get_elem?, set,
}
use cs_24_coursework.Word.{half64, add_w, sub_w, slt}
use cs_24_coursework.Subpython.Refs.{
  Reference, null_ref, Kind, val_integer, val_list, val_ref_array,
}
use cs_24_coursework.Subpython.Run.{
  Interp, Run, pure, fail, ◌>>=◌, ◌>>◌, Exception, exc_type_error, exc_index_error, exception_set,
  exception_occurred, kind_at, set_kind, take_reference, give_back,
}
use cs_24_coursework.Subpython.Values.{Obj, obj_of}

-- The size and the array of a list_value_t; the assert of list_coerce.
unfoldable pub list_coerce : Kind → Run (ℕ × Reference)
list_coerce (val_list size values) = pure (size, values)
list_coerce _ = fail

-- The index for a subscript of a list of this size, both of them patterns of an int64_t: the index of
-- the element, if it is in bounds.
unfoldable pub index_of : ℕ → ℕ → Option ℕ
index_of size subscript =
    let idx = if slt half64 subscript 0 then add_w half64 subscript size else subscript in
    if slt half64 idx 0 || not (slt half64 idx size) then none else some idx

abbrev pub in_bounds : Option ℕ → Run ℕ
in_bounds none = do exception_set exc_index_error; pure 0
in_bounds (some idx) = pure idx

unfoldable pub list_coerce_subscript : ℕ → Kind → Run ℕ
list_coerce_subscript size (val_integer i) = in_bounds (index_of size i)
list_coerce_subscript size _ = do exception_set exc_type_error; pure 0

-- The address and the elements of a ref_array_value_t, and the assert on its type.
abbrev pub array_of : Obj → Kind → Run (ℕ × List Reference)
array_of obj (val_ref_array values) = pure (obj.addr, values)
array_of obj _ = fail

unfoldable pub list_refarray : Reference → Run (ℕ × List Reference)
list_refarray values = do obj ← obj_of values; array_of obj obj.kind

abbrev pub element : Option Reference → Run Reference
element none = fail
element (some r) = pure r

unfoldable pub list_len : Kind → Run ℕ
list_len kind = do (size, _) ← list_coerce kind; pure size

unfoldable pub list_bool : Kind → Run Bool
list_bool kind = do (size, _) ← list_coerce kind; pure (slt half64 0 size)

-- The sign of the sizes' difference.
abbrev pub size_cmp : ℕ → ℕ → Ordering
size_cmp l r =
    if slt half64 r l then Ordering.gt else if slt half64 l r then Ordering.lt else Ordering.eq

abbrev pub is_zero : Ordering → Bool
is_zero Ordering.eq = true
is_zero _ = false

-- The loop of list_cmp, n rounds of it; `end` is the result behind it.
unfoldable pub cmp_loop :
    (Reference → Reference → Run Ordering)
    → ℕ
    → List Reference
    → List Reference
    → Ordering
    → Run Ordering
cmp_loop again zero ls rs end = pure end
cmp_loop again (suc n) (l ∷ ls) (r ∷ rs) end = do
  comparison ← again l r
  failed ← exception_occurred
  let rest = cmp_loop again n ls rs end
  if failed then pure Ordering.eq else if is_zero comparison then rest else pure comparison
cmp_loop again (suc n) _ _ end = fail

unfoldable pub list_cmp : (Reference → Reference → Run Ordering) → Kind → Kind → Run Ordering
list_cmp again l r = do
  (lsize, lvalues) ← list_coerce l
  (rsize, rvalues) ← list_coerce r
  (_, lvals) ← list_refarray lvalues
  (_, rvals) ← list_refarray rvalues
  let min_size = if slt half64 lsize rsize then lsize else rsize
  cmp_loop again (if slt half64 min_size 0 then 0 else min_size) lvals rvals (size_cmp lsize rsize)

unfoldable pub eq_loop :
    (Reference → Reference → Run Bool) → ℕ → List Reference → List Reference → Run Bool
eq_loop again zero ls rs = pure true
eq_loop again (suc n) (l ∷ ls) (r ∷ rs) = do
  equal ← again l r
  failed ← exception_occurred
  let rest = eq_loop again n ls rs
  if not equal || failed then pure false else rest
eq_loop again (suc n) _ _ = fail

unfoldable pub list_eq : (Reference → Reference → Run Bool) → Kind → Kind → Run Bool
list_eq again l r = do
  (lsize, lvalues) ← list_coerce l
  (rsize, rvalues) ← list_coerce r
  if not (lsize == rsize) then pure false else (do
    (_, lvals) ← list_refarray lvalues
    (_, rvals) ← list_refarray rvalues
    eq_loop again (if slt half64 lsize 0 then 0 else lsize) lvals rvals)

-- `subscript` is what stands at the subscript.
unfoldable pub list_subscr_get : Kind → Kind → Run Reference
list_subscr_get kind subscript = do
  (size, values) ← list_coerce kind
  idx ← list_coerce_subscript size subscript
  failed ← exception_occurred
  if failed then pure null_ref else (do
    (_, array) ← list_refarray values
    r ← element (get_elem? array idx)
    take_reference r
    pure r)

-- The assignment array->values[idx] = value.
unfoldable pub put_element : Reference → ℕ → Reference → Run (Unit {0})
put_element values idx value = do
  (addr, array) ← list_refarray values
  set_kind addr (val_ref_array (set array idx value))

unfoldable pub list_subscr_set : ℕ → Kind → Kind → Reference → Run (Unit {0})
list_subscr_set fuel kind subscript value = do
  (size, values) ← list_coerce kind
  idx ← list_coerce_subscript size subscript
  failed ← exception_occurred
  if failed then pure tt else (do
    (_, array) ← list_refarray values
    r ← element (get_elem? array idx)
    give_back fuel r
    take_reference value
    put_element values idx value)

abbrev pub with_some : {A B : Type 0} → Option A → (A → Option B) → Option B
with_some none f = none
with_some (some a) f = f a

-- The loop of list_subscr_del, n rounds of it from index i on.
unfoldable pub move_up : ℕ → ℕ → List Reference → Option (List Reference)
move_up zero i array = some array
move_up (suc n) i array =
    with_some (get_elem? array (suc i)) (λ r. move_up n (suc i) (set array i r))

abbrev pub clear_element : ℕ → List Reference → Option (List Reference)
clear_element i array = if ltb i (length array) then some (set array i null_ref) else none

-- The array behind a deletion, when `size` elements are left.
unfoldable pub delete_at : ℕ → ℕ → List Reference → Option (List Reference)
delete_at idx size array = with_some (move_up (size - idx) idx array) (clear_element size)

abbrev pub write_array : ℕ → Option (List Reference) → Run (Unit {0})
write_array addr none = fail
write_array addr (some array) = set_kind addr (val_ref_array array)

unfoldable pub list_subscr_del : ℕ → Obj → Kind → Run (Unit {0})
list_subscr_del fuel obj subscript = do
  (size, values) ← list_coerce obj.kind
  idx ← list_coerce_subscript size subscript
  failed ← exception_occurred
  if failed then pure tt else (do
    (_, array) ← list_refarray values
    let left = sub_w half64 size 1
    set_kind obj.addr (val_list left values)
    r ← element (get_elem? array idx)
    give_back fuel r
    (addr, array₁) ← list_refarray values
    write_array addr (delete_at idx left array₁))
