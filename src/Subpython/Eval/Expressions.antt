-- ===== src/Subpython/Eval/Expressions.antt =====
-- project05-kweng/eval.c: the literals of lists and dictionaries, calls, and eval_expr.
use cs_24_coursework.Prelude.{
  ℕ, zero, suc, ◌*◌, true, false, Option, none, some, List, [], ◌∷◌, ◌++◌, ltb, if◌then◌else◌,
}
use cs_24_coursework.Prelude.Answer.{no_fuel}
use cs_24_coursework.Subpython.Refs.{Reference, null_ref, val_list, val_dict}
use cs_24_coursework.Subpython.Run.{
  Run, pure, fail, ◌>>=◌, ◌>>◌, exc_syntax_error, exc_name_error, exc_type_error, exc_internal,
  exception_set, exception_occurred, address_of, set_kind, give_back,
}
use cs_24_coursework.Subpython.Values.{
  singleton_to_ref, bool_ref, make_reference_int, make_reference_string, make_reference_list,
  make_reference_dict, make_reference_refarray,
}
use cs_24_coursework.Subpython.Lists.{put_element}
use cs_24_coursework.Subpython.Dicts.Change.{dict_subscr_set}
use cs_24_coursework.Subpython.Types.{ref_bool, ref_len, ref_eq}
use cs_24_coursework.Subpython.Eval.{
  Node, expr_literal_string, expr_literal_integer, expr_literal_list, expr_literal_dict,
  expr_literal_singleton, expr_identifier, expr_not_test, expr_and_test, expr_or_test, expr_builtin,
  expr_call, expr_subscript, NodeList, no_nodes, node_list, ast_nodelist_length, same_name,
  globals_get, eval_not_test, eval_short_circuit, eval_builtin, eval_subscript,
}

-- The loop of eval_literal_list: the array gets what eval_expr gives, NULL_REF included.
unfoldable pub fill_list :
    ℕ → (Node → Run Reference) → Reference → Reference → ℕ → NodeList → Run Reference
fill_list fuel expr ref_list ref_array idx no_nodes = pure ref_list
fill_list fuel expr ref_list ref_array idx (node_list n ns) =
    let rest = fill_list fuel expr ref_list ref_array (suc idx) ns in
    (do
      r ← expr n
      put_element ref_array idx r
      failed ← exception_occurred
      if failed then (do give_back fuel ref_list; pure null_ref) else rest)

unfoldable pub eval_literal_list : ℕ → (Node → Run Reference) → NodeList → Run Reference
eval_literal_list fuel expr values = do
  ref_array ← make_reference_refarray (ast_nodelist_length values)
  failed ← exception_occurred
  if failed then pure null_ref else (do
    ref_list ← make_reference_list
    failed₁ ← exception_occurred
    if failed₁ then (do give_back fuel ref_array; pure null_ref) else (do
      addr ← address_of ref_list
      set_kind addr (val_list (ast_nodelist_length values) ref_array)
      fill_list fuel expr ref_list ref_array 0 values))

-- A round of the loop of eval_literal_dict.
unfoldable pub add_entry : ℕ → (Node → Run Reference) → ℕ → Node → Node → Run (Unit {0})
add_entry fuel expr addr k v = do
  key ← expr k
  failed ← exception_occurred
  if failed then pure tt else (do
    value ← expr v
    failed₁ ← exception_occurred
    (if failed₁
        then pure tt
        else (do dict_subscr_set (ref_eq fuel) fuel addr key value; give_back fuel value))
    give_back fuel key)

unfoldable pub fill_dict :
    ℕ → (Node → Run Reference) → Reference → ℕ → NodeList → NodeList → Run Reference
fill_dict fuel expr ref_dict addr (node_list k ks) (node_list v vs) =
    let rest = fill_dict fuel expr ref_dict addr ks vs in
    (do
      add_entry fuel expr addr k v
      failed ← exception_occurred
      if failed then (do give_back fuel ref_dict; pure null_ref) else rest)
fill_dict fuel expr ref_dict addr _ _ = pure ref_dict

-- Twice the number of elements, and at least 16 slots.
abbrev pub first_capacity : NodeList → ℕ
first_capacity keys =
    if ltb (ast_nodelist_length keys * 2) 16 then 16 else ast_nodelist_length keys * 2

unfoldable pub eval_literal_dict : ℕ → (Node → Run Reference) → NodeList → NodeList → Run Reference
eval_literal_dict fuel expr keys values = do
  ref_key_array ← make_reference_refarray (first_capacity keys)
  failed ← exception_occurred
  if failed then pure null_ref else (do
    ref_value_array ← make_reference_refarray (first_capacity keys)
    failed₁ ← exception_occurred
    if failed₁ then (do give_back fuel ref_key_array; pure null_ref) else (do
      ref_dict ← make_reference_dict
      failed₂ ← exception_occurred
      if failed₂
          then (do give_back fuel ref_value_array; give_back fuel ref_key_array; pure null_ref)
          else (do
            addr ← address_of ref_dict
            set_kind addr (val_dict 0 0 ref_key_array ref_value_array)
            fill_dict fuel expr ref_dict addr keys values)))

-- The arguments in order, up to an exception.
unfoldable pub eval_arguments :
    (Node → Run Reference) → List Reference → NodeList → Run (List Reference)
eval_arguments expr args no_nodes = pure args
eval_arguments expr args (node_list n ns) = expr n >>= (λ r.
    exception_occurred
    >>= (λ failed. if failed then pure args else eval_arguments expr (args ++ r ∷ []) ns))

-- The last one first.
unfoldable pub give_back_all : ℕ → List Reference → Run (Unit {0})
give_back_all fuel [] = pure tt
give_back_all fuel (r ∷ rs) = give_back_all fuel rs >> give_back fuel r

abbrev pub wrong_arity : Run Reference
wrong_arity = do exception_set exc_type_error; pure null_ref

unfoldable pub eval_call_len : List Reference → Run Reference
eval_call_len (r ∷ []) = ref_len r >>= make_reference_int
eval_call_len _ = wrong_arity

unfoldable pub eval_call_bool : List Reference → Run Reference
eval_call_bool (r ∷ []) = ref_bool r >>= bool_ref
eval_call_bool _ = wrong_arity

-- `other` is what a name does that is neither len nor bool, and `none` for no such function.
abbrev pub call_other : Option (Run Reference) → Run Reference
call_other none = do exception_set exc_name_error; pure null_ref
call_other (some run) = run

module _ (other : List ℕ → List Reference → Option (Run Reference)) where
  unfoldable pub call_function : List ℕ → List Reference → Run Reference
  call_function name args =
      if same_name name (b'l' ∷ b'e' ∷ b'n' ∷ [])
      then eval_call_len args
      else if same_name name (b'b' ∷ b'o' ∷ b'o' ∷ b'l' ∷ [])
      then eval_call_bool args
      else call_other (other name args)

  -- The check that the function is a name lets the arguments be evaluated up to the first one.
  abbrev pub check_name : Node → Run (Option (List ℕ))
  check_name (expr_identifier name) = pure (some name)
  check_name _ = do exception_set exc_syntax_error; pure none

  abbrev pub call_named : Option (List ℕ) → List Reference → Run Reference
  call_named none args = fail
  call_named (some name) args = call_function name args

  unfoldable pub eval_call : ℕ → (Node → Run Reference) → Node → NodeList → Run Reference
  eval_call fuel expr func nodes = do
    name ← check_name func
    args ← eval_arguments expr [] nodes
    failed ← exception_occurred
    result ← (if failed then pure null_ref else call_named name args)
    give_back_all fuel args
    pure result

  abbrev pub expr_with : ℕ → (Node → Run Reference) → Node → Run Reference
  expr_with fuel expr (expr_literal_string value) = make_reference_string value
  expr_with fuel expr (expr_literal_integer value) = make_reference_int value
  expr_with fuel expr (expr_literal_list values) = eval_literal_list fuel expr values
  expr_with fuel expr (expr_literal_dict keys values) = eval_literal_dict fuel expr keys values
  expr_with fuel expr (expr_literal_singleton type) = singleton_to_ref type
  expr_with fuel expr (expr_identifier name) = globals_get name
  expr_with fuel expr (expr_not_test operand) = eval_not_test fuel expr operand
  expr_with fuel expr (expr_and_test left right) = eval_short_circuit false fuel expr left right
  expr_with fuel expr (expr_or_test left right) = eval_short_circuit true fuel expr left right
  expr_with fuel expr (expr_builtin type left right) = eval_builtin fuel expr type left right
  expr_with fuel expr (expr_call func args) = eval_call fuel expr func args
  expr_with fuel expr (expr_subscript obj index) = eval_subscript fuel expr obj index
  expr_with fuel expr _ = do exception_set exc_internal; pure null_ref

  unfoldable pub eval_expr : ℕ → Node → Run Reference
  eval_expr zero node s = no_fuel
  eval_expr (suc fuel) node s = expr_with fuel (eval_expr fuel) node s
