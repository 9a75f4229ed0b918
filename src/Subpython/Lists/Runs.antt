-- ===== src/Subpython/Lists/Runs.antt =====
-- list_subscr_get and list_subscr_del as runs of the interpreter.
use cs_24_coursework.Prelude.{
  ℕ, zero, suc, ◌^◌, ◌≤◌, ◌<◌, ◌≡◌, refl, ap, ◌⊎◌, inl, inr, false, none, some, List, [], ◌∷◌,
  length, get_elem?, Option-cases, arith,
}
use mathlib.Core.Path.{subst}
use cs_24_coursework.Prelude.Answer.{answer}
use cs_24_coursework.Word.{half64, signed}
use cs_24_coursework.Subpython.Refs.{Reference, null_ref, val_integer, val_list}
use cs_24_coursework.Subpython.Run.{
  Interp, pure, ◌>>◌, exc_index_error, exception_set, exception_occurred, is_set, take_reference,
}
use cs_24_coursework.Subpython.Lists.{
  list_coerce, index_of, list_coerce_subscript, list_refarray, list_subscr_get,
}
use cs_24_coursework.Subpython.Lists.Subscripts.{IsIndex, Indexes, index_of-Indexes}

get_elem?-some :
    (i : ℕ) (xs : List Reference) → i < length xs → (r : Reference) × (get_elem? xs i ≡ some r)
get_elem?-some i [] h = absurd (omega arith)
get_elem?-some zero (x ∷ xs) h = (x, refl)
get_elem?-some (suc i) (x ∷ xs) h = get_elem?-some i xs (omega arith)

-- A read of a list of `size` elements in an array, at an integer subscript, in a state with no
-- exception: an IndexError and NULL_REF, if the subscript is no index; otherwise the element at the
-- index, of which one reference more is counted.
pub list_subscr_get-cases :
    (size subscript : ℕ) (values : Reference) (addr : ℕ) (array : List Reference) (s : Interp)
    → s.exception ≡ none
    → list_refarray values s ≡ answer ((addr, array), s)
    → size ≤ length array
    → size < 2 ^ 63
    → subscript < 2 ^ 64
    → (((i : ℕ) → ¬ IsIndex size (signed half64 subscript) i)
        × (list_subscr_get (val_list size values) (val_integer subscript) s
            ≡ answer (null_ref, record s { exception = some exc_index_error })))
      ⊎ ((i : ℕ) × (r : Reference) × IsIndex size (signed half64 subscript) i
          × (get_elem? array i ≡ some r)
          × (list_subscr_get (val_list size values) (val_integer subscript) s
              ≡ (take_reference r >> pure r) s))
unfolding list_subscr_get list_coerce list_coerce_subscript exception_set exception_occurred
list_subscr_get-cases size subscript values addr array s clean here fits h k =
    let flag : is_set s.exception ≡ false = ap is_set clean in
    let found = index_of-Indexes size subscript h k in
    elim (Option-cases (index_of size subscript)) [
      | inl e ↦ inl (subst (Indexes size (signed half64 subscript)) e found, rw e refl)
      | inr (i, e) ↦
          let index : IsIndex size (signed half64 subscript) i =
            subst (Indexes size (signed half64 subscript)) e found in
          let (r, at) = get_elem?-some i array (omega (arith, index.0)) in
          inr (i, r, index, at, rw e (rw flag (rw here (rw at refl))))
    ]
