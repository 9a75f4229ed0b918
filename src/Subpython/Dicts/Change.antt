-- ===== src/Subpython/Dicts/Change.antt =====
-- dict_subscr_set, dict_subscr_del and dict_eq of project05-kweng/eval_dict.c.
use cs_24_coursework.Prelude.{
  ℕ, zero, suc, Bool, true, false, not, ◌||◌, Option, none, some, List, [], ◌∷◌, ◌==◌,
  if◌then◌else◌, get_elem?,
}
use cs_24_coursework.Prelude.Answer.{no_fuel}
use cs_24_coursework.Word.{half64, add_w, sub_w}
use cs_24_coursework.Subpython.Refs.{Reference, null_ref, tombstone_ref, Kind}
use cs_24_coursework.Subpython.Run.{
  Run, pure, fail, ◌>>=◌, ◌>>◌, exc_key_error, exception_set, exception_occurred, set_kind,
  take_reference, give_back,
}
use cs_24_coursework.Subpython.Lists.{list_refarray, element, put_element}
use cs_24_coursework.Subpython.Dicts.{
  ref_hash, Dict, dict_kind, dict_coerce, dict_at, is_null, is_tombstone, keys_find, dict_upsize,
  dict_maybe_upsize, holds_key,
}

-- A key that is there gets another value.
unfoldable pub overwrite : ℕ → Dict → ℕ → Reference → Run (Unit {0})
overwrite fuel dict idx value = do
  (_, values) ← list_refarray dict.values
  old ← element (get_elem? values idx)
  give_back fuel old
  take_reference value
  put_element dict.values idx value

-- A key that is not there takes a slot, which is NULL_REF or a tombstone by the assert.
unfoldable pub occupy : ℕ → ℕ → Dict → ℕ → Reference → Reference → Run (Unit {0})
occupy fuel addr dict idx subscr value = do
  (_, keys) ← list_refarray dict.keys
  (_, values) ← list_refarray dict.values
  key ← element (get_elem? keys idx)
  old ← element (get_elem? values idx)
  if not (is_null key || is_tombstone key) then fail else (do
    let size = add_w half64 dict.size 1
    let occupied = if is_null key then add_w half64 dict.occupied 1 else dict.occupied
    set_kind addr (dict_kind (record dict { size = size; occupied = occupied }))
    give_back fuel key
    give_back fuel old
    take_reference subscr
    take_reference value
    put_element dict.keys idx subscr
    put_element dict.values idx value)

abbrev pub settle :
    (Reference → Reference → Run Bool)
    → ℕ
    → ℕ
    → Dict
    → Reference
    → Reference
    → Run (Unit {0})
    → Option ℕ
    → Run (Unit {0})
settle again fuel addr dict subscr value retry none = dict_upsize again fuel addr >> retry
settle again fuel addr dict subscr value retry (some idx) =
    occupy fuel addr dict idx subscr value >> dict_maybe_upsize again fuel addr

abbrev pub out_of_calls : Run (Unit {0})
out_of_calls s = no_fuel

abbrev pub set_found :
    (Reference → Reference → Run Bool)
    → ℕ
    → ℕ
    → Dict
    → List Reference
    → ℕ
    → Reference
    → Reference
    → Run (Unit {0})
    → Option ℕ
    → Run (Unit {0})
set_found again fuel addr dict keys hash subscr value retry (some idx) =
    overwrite fuel dict idx value
set_found again fuel addr dict keys hash subscr value retry none = do
  slot ← keys_find again keys hash subscr false
  settle again fuel addr dict subscr value retry slot

-- The fuel bounds the calls of dict_subscr_set of itself, behind an enlargement, and the depth of decref.
unfoldable pub dict_subscr_set :
    (Reference → Reference → Run Bool) → ℕ → ℕ → Reference → Reference → Run (Unit {0})
dict_subscr_set again zero addr subscr value = out_of_calls
dict_subscr_set again (suc fuel) addr subscr value =
    let retry = dict_subscr_set again fuel addr subscr value in
    (do
      dict ← dict_at addr
      (_, keys) ← list_refarray dict.keys
      hash ← ref_hash subscr
      failed ← exception_occurred
      if failed then pure tt else (do
        found ← keys_find again keys hash subscr true
        slot ← holds_key keys found
        set_found again fuel addr dict keys hash subscr value retry slot))

abbrev pub delete_slot : ℕ → ℕ → Dict → Option ℕ → Run (Unit {0})
delete_slot fuel addr dict none = exception_set exc_key_error
delete_slot fuel addr dict (some idx) = do
  (_, keys) ← list_refarray dict.keys
  (_, values) ← list_refarray dict.values
  set_kind addr (dict_kind (record dict { size = sub_w half64 dict.size 1 }))
  key ← element (get_elem? keys idx)
  give_back fuel key
  value ← element (get_elem? values idx)
  give_back fuel value
  put_element dict.keys idx tombstone_ref
  put_element dict.values idx null_ref

unfoldable pub dict_subscr_del :
    (Reference → Reference → Run Bool) → ℕ → ℕ → Reference → Run (Unit {0})
dict_subscr_del again fuel addr subscr = do
  dict ← dict_at addr
  (_, keys) ← list_refarray dict.keys
  hash ← ref_hash subscr
  failed ← exception_occurred
  if failed then pure tt else (do
    found ← keys_find again keys hash subscr true
    slot ← holds_key keys found
    delete_slot fuel addr dict slot)

abbrev pub same_value :
    (Reference → Reference → Run Bool) → List Reference → Reference → Option ℕ → Run Bool
same_value again rvalues l none = pure false
same_value again rvalues l (some idx) = do r ← element (get_elem? rvalues idx); again l r

-- The loop of dict_eq, over the keys and the values of the left dictionary.
unfoldable pub eq_slots :
    (Reference → Reference → Run Bool)
    → List Reference
    → List Reference
    → List Reference
    → List Reference
    → Run Bool
eq_slots again rkeys rvalues [] lvalues = pure true
eq_slots again rkeys rvalues (k ∷ lkeys) [] = fail
eq_slots again rkeys rvalues (k ∷ lkeys) (v ∷ lvalues) =
    let rest = eq_slots again rkeys rvalues lkeys lvalues in
    if is_null k || is_tombstone k then rest else (do
      hash ← ref_hash k
      found ← keys_find again rkeys hash k true
      slot ← holds_key rkeys found
      equals ← same_value again rvalues v slot
      failed ← exception_occurred
      if failed || not equals then pure false else rest)

unfoldable pub dict_eq : (Reference → Reference → Run Bool) → Kind → Kind → Run Bool
dict_eq again l r = do
  ldict ← dict_coerce l
  rdict ← dict_coerce r
  if not (ldict.size == rdict.size) then pure false else (do
    (_, lkeys) ← list_refarray ldict.keys
    (_, lvalues) ← list_refarray ldict.values
    (_, rkeys) ← list_refarray rdict.keys
    (_, rvalues) ← list_refarray rdict.values
    eq_slots again rkeys rvalues lkeys lvalues)
