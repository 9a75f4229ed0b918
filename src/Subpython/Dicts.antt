-- ===== src/Subpython/Dicts.antt =====
-- project05-kweng/eval_dict.c, and ref_hash of project05-kweng/eval_types.c. `again` is ref_eq. An
-- access out of an array is a fault.
pub mod Change
pub mod Probes
mod Tests
use cs_24_coursework.Prelude.{
  ℕ, zero, suc, ◌+◌, ◌-◌, ◌*◌, ◌%◌, ◌^◌, Bool, true, false, not, ◌||◌, ◌&&◌, Option, none, some,
  List, [], ◌∷◌, ◌==◌, ltb, leb, if◌then◌else◌, length, get_elem?, set,
}
use cs_24_coursework.Word.{half64, add_w, sub_w, slt}
use cs_24_coursework.Subpython.Refs.{
  Reference, ref, null_ref, tombstone_ref, Kind, val_none, val_bool, val_integer, val_string,
  val_dict, val_ref_array,
}
use cs_24_coursework.Subpython.Run.{
  Interp, Run, pure, fail, ◌>>=◌, ◌>>◌, Exception, exc_type_error, exc_key_error, exception_set,
  exception_occurred, kind_at, set_kind, take_reference, give_back,
}
use cs_24_coursework.Subpython.Values.{
  Obj, obj_of, singleton_hash, string_hash, make_reference_refarray,
}
use cs_24_coursework.Subpython.Lists.{list_refarray, element, put_element}

-- The hash of a value; 2^64 - 1, for NULL_REF, with a TypeError if the type has none.
abbrev pub hash_obj : Obj → Kind → Run ℕ
hash_obj obj val_none = singleton_hash true obj
hash_obj obj val_bool = singleton_hash false obj
hash_obj obj (val_integer i) = pure i
hash_obj obj (val_string text) = pure (string_hash text)
hash_obj obj _ = do exception_set exc_type_error; pure (2 ^ 64 - 1)

unfoldable pub ref_hash : Reference → Run ℕ
ref_hash r = do obj ← obj_of r; hash_obj obj obj.kind

-- A dict_value_t.
pub record Dict : Type 0 where
  pub size : ℕ
  pub occupied : ℕ
  pub keys : Reference
  pub values : Reference

abbrev pub dict_kind : Dict → Kind
dict_kind d = val_dict d.size d.occupied d.keys d.values

-- The assert of dict_coerce.
unfoldable pub dict_coerce : Kind → Run Dict
dict_coerce (val_dict size occupied keys values) =
    pure (record { size = size; occupied = occupied; keys = keys; values = values })
dict_coerce _ = fail

unfoldable pub dict_at : ℕ → Run Dict
dict_at addr s = dict_coerce (kind_at addr s) s

abbrev pub is_null : Reference → Bool
is_null null_ref = true
is_null _ = false

abbrev pub is_tombstone : Reference → Bool
is_tombstone tombstone_ref = true
is_tombstone _ = false

-- The slot of a round of keys_find.
abbrev pub current_slot : ℕ → ℕ → ℕ → ℕ
current_slot capacity bucket idx =
    if ltb capacity (bucket + idx) then bucket + idx - capacity else bucket + idx

-- The loop of keys_find, n rounds of it from idx on; `none` is -1.
unfoldable pub find_loop :
    (Reference → Reference → Run Bool)
    → List Reference
    → ℕ
    → Reference
    → Bool
    → ℕ
    → ℕ
    → Run (Option ℕ)
find_loop again keys bucket subscr skip_tombstones zero idx = pure none
find_loop again keys bucket subscr skip_tombstones (suc n) idx =
    let current = current_slot (length keys) bucket idx in
    let rest = find_loop again keys bucket subscr skip_tombstones n (suc idx) in
    element (get_elem? keys current) >>= (λ key.
      if skip_tombstones && is_tombstone key
      then rest
      else if is_null key || is_tombstone key
      then pure (some current)
      else again subscr key >>= (λ equal. if equal then pure (some current) else rest))

-- A capacity of 0 is a division that traps.
unfoldable pub keys_find :
    (Reference → Reference → Run Bool) → List Reference → ℕ → Reference → Bool → Run (Option ℕ)
keys_find again keys hash subscr skip_tombstones =
    if length keys == 0
    then fail
    else find_loop again keys (hash % length keys) subscr skip_tombstones (length keys) 0

-- The loop of dict_upsize: each key and its value go to their slot in the new arrays. False is the
-- return behind an exception.
unfoldable pub rehash :
    (Reference → Reference → Run Bool)
    → List Reference
    → List Reference
    → Reference
    → Reference
    → Run Bool
rehash again [] values ref_keys ref_values = pure true
rehash again (k ∷ keys) [] ref_keys ref_values = fail
rehash again (k ∷ keys) (v ∷ values) ref_keys ref_values =
    let rest = rehash again keys values ref_keys ref_values in
    if is_null k || is_tombstone k then rest else (do
      hash ← ref_hash k
      failed ← exception_occurred
      if failed then pure false else (do
        (_, new_keys) ← list_refarray ref_keys
        idx ← keys_find again new_keys hash k false
        take_reference k
        take_reference v
        elim idx [
          | none ↦ fail
          | some i ↦ put_element ref_keys i k >> put_element ref_values i v >> rest
        ]))

unfoldable pub dict_upsize : (Reference → Reference → Run Bool) → ℕ → ℕ → Run (Unit {0})
dict_upsize again fuel addr = do
  dict ← dict_at addr
  (_, keys) ← list_refarray dict.keys
  (_, values) ← list_refarray dict.values
  ref_keys ← make_reference_refarray (length keys * 2)
  failed ← exception_occurred
  if failed then pure tt else (do
    ref_values ← make_reference_refarray (length keys * 2)
    failed₁ ← exception_occurred
    if failed₁ then give_back fuel ref_keys else (do
      whole ← rehash again keys values ref_keys ref_values
      if not whole then give_back fuel ref_keys >> give_back fuel ref_values else (do
        give_back fuel dict.keys
        give_back fuel dict.values
        set_kind addr (val_dict dict.size dict.size ref_keys ref_values))))

unfoldable pub dict_maybe_upsize : (Reference → Reference → Run Bool) → ℕ → ℕ → Run (Unit {0})
dict_maybe_upsize again fuel addr = do
  dict ← dict_at addr
  (_, keys) ← list_refarray dict.keys
  if leb (length keys) (dict.occupied * 2) then dict_upsize again fuel addr else pure tt

unfoldable pub dict_len : Kind → Run ℕ
dict_len kind = do dict ← dict_coerce kind; pure dict.size

unfoldable pub dict_bool : Kind → Run Bool
dict_bool kind = do dict ← dict_coerce kind; pure (slt half64 0 dict.size)

-- idx >= 0 and keys->values[idx] is not NULL_REF.
abbrev pub holds_key : List Reference → Option ℕ → Run (Option ℕ)
holds_key keys none = pure none
holds_key keys (some idx) = do
  key ← element (get_elem? keys idx)
  if is_null key then pure none else pure (some idx)

abbrev pub get_value : List Reference → Option ℕ → Run Reference
get_value values none = do exception_set exc_key_error; pure null_ref
get_value values (some idx) = do r ← element (get_elem? values idx); take_reference r; pure r

unfoldable pub dict_subscr_get :
    (Reference → Reference → Run Bool) → Kind → Reference → Run Reference
dict_subscr_get again kind subscr = do
  dict ← dict_coerce kind
  (_, keys) ← list_refarray dict.keys
  (_, values) ← list_refarray dict.values
  hash ← ref_hash subscr
  failed ← exception_occurred
  if failed then pure null_ref else (do
    found ← keys_find again keys hash subscr true
    slot ← holds_key keys found
    get_value values slot)
