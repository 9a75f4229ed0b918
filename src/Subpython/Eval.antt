-- ===== src/Subpython/Eval.antt =====
-- project05-kweng/ast.h and project05-kweng/eval.c: the syntax tree, the global variables, and the
-- expressions. `expr` is eval_expr for the parts of an expression; fuel bounds the nesting of a tree,
-- of values, and the rounds of loops. `other` is what exit, quit, mem, gc and print do.
pub mod Globals
pub mod Expressions
pub mod Statements
mod Tests
use Prim.Native.Nat.{Ordering}
use cs_24_coursework.Prelude.{
  ℕ, zero, suc, ◌+◌, ◌*◌, ◌^◌, Bool, true, false, not, ◌||◌, Option, none, some, List, [], ◌∷◌,
  ◌++◌, ◌==◌, ltb, if◌then◌else◌, length,
}
use cs_24_coursework.Prelude.Answer.{no_fuel}
use cs_24_coursework.Subpython.Refs.{Reference, null_ref, val_list, val_dict}
use cs_24_coursework.Subpython.Run.{
  Interp, Run, pure, fail, ◌>>=◌, ◌>>◌, Global, exc_syntax_error, exc_name_error, exc_type_error,
  exc_internal, exception_set, exception_occurred, address_of, set_kind, take_reference, give_back,
}
use cs_24_coursework.Subpython.Values.{
  Builtin, comp_equals, comp_lt, comp_gt, comp_le, comp_ge, Singleton, singleton_to_ref, bool_ref,
  string_cmp, make_reference_int, make_reference_string, make_reference_list, make_reference_dict,
  make_reference_refarray,
}
use cs_24_coursework.Subpython.Lists.{is_zero, put_element}
use cs_24_coursework.Subpython.Dicts.Change.{dict_subscr_set}
use cs_24_coursework.Subpython.Types.{
  ref_bool, ref_len, ref_builtin, ref_compare, ref_eq, ref_subscr_get,
}

mutual
  pub data Node : Type 0 where
    stmt_sequence : NodeList → Node
    stmt_assign : (left right : Node) → Node
    stmt_del : Node → Node
    stmt_if : (cond left : Node) → OptionalNode → Node
    stmt_while : (cond body : Node) → Node
    expr_literal_string : List ℕ → Node
    expr_literal_integer : ℕ → Node
    expr_literal_list : NodeList → Node
    expr_literal_dict : (keys values : NodeList) → Node
    expr_literal_singleton : Singleton → Node
    expr_identifier : List ℕ → Node
    expr_not_test : Node → Node
    expr_and_test : (left right : Node) → Node
    expr_or_test : (left right : Node) → Node
    expr_builtin : Builtin → Node → OptionalNode → Node
    expr_call : Node → NodeList → Node
    expr_subscript : (obj index : Node) → Node

  -- A node that may be NULL.
  pub data OptionalNode : Type 0 where
    null_node : OptionalNode
    some_node : Node → OptionalNode

  -- A list that is NULL is empty.
  pub data NodeList : Type 0 where
    no_nodes : NodeList
    node_list : Node → NodeList → NodeList

unfoldable pub ast_nodelist_length : NodeList → ℕ
ast_nodelist_length no_nodes = 0
ast_nodelist_length (node_list n ns) = suc (ast_nodelist_length ns)

abbrev pub same_name : List ℕ → List ℕ → Bool
same_name a b = is_zero (string_cmp a b)

unfoldable pub find_global : List ℕ → List Global → Option Reference
find_global name [] = none
find_global name (g ∷ gs) =
    let rest = find_global name gs in if same_name name g.name then some g.global_ref else rest

unfoldable pub put_global : List ℕ → Reference → List Global → List Global
put_global name value [] = record { name = name; global_ref = value } ∷ []
put_global name value (g ∷ gs) =
    let rest = put_global name value gs in
    if same_name name g.name then record g { global_ref = value } ∷ gs else g ∷ rest

unfoldable pub remove_global : List ℕ → List Global → List Global
remove_global name [] = []
remove_global name (g ∷ gs) =
    let rest = remove_global name gs in if same_name name g.name then gs else g ∷ rest

abbrev pub got_global : Option Reference → Run Reference
got_global none = do exception_set exc_name_error; pure null_ref
got_global (some r) = do take_reference r; pure r

unfoldable pub globals_get : List ℕ → Run Reference
globals_get name s = got_global (find_global name s.global_vars) s

abbrev pub write_globals : (List Global → List Global) → Run (Unit {0})
write_globals f s = pure tt (record s { global_vars = f s.global_vars })

abbrev pub give_back_global : ℕ → Option Reference → Run (Unit {0})
give_back_global fuel none = pure tt
give_back_global fuel (some old) = give_back fuel old

-- The former value is given back; the growth of the array is left out.
unfoldable pub globals_set : ℕ → List ℕ → Reference → Run (Unit {0})
globals_set fuel name value s =
    (do
      give_back_global fuel (find_global name s.global_vars)
      take_reference value
      write_globals (put_global name value))
      s

abbrev pub delete_found : ℕ → List ℕ → Option Reference → Run (Unit {0})
delete_found fuel name none = exception_set exc_name_error
delete_found fuel name (some old) = do give_back fuel old; write_globals (remove_global name)

unfoldable pub globals_delete : ℕ → List ℕ → Run (Unit {0})
globals_delete fuel name s = delete_found fuel name (find_global name s.global_vars) s

unfoldable pub eval_not_test : ℕ → (Node → Run Reference) → Node → Run Reference
eval_not_test fuel expr operand = do
  r ← expr operand
  failed ← exception_occurred
  if failed
      then pure null_ref
      else (do b ← ref_bool r; result ← bool_ref (not b); give_back fuel r; pure result)

-- `stop` is the truth value of the left operand that decides.
unfoldable pub eval_short_circuit : Bool → ℕ → (Node → Run Reference) → Node → Node → Run Reference
eval_short_circuit stop fuel expr left right = do
  r ← expr left
  failed ← exception_occurred
  if failed then pure null_ref else (do
    b ← ref_bool r
    if (if stop then b else not b) then pure r else (do give_back fuel r; expr right))

-- type > COMP_EQUALS
abbrev pub is_order : Builtin → Bool
is_order comp_lt = true
is_order comp_gt = true
is_order comp_le = true
is_order comp_ge = true
is_order _ = false

abbrev pub is_equals : Builtin → Bool
is_equals comp_equals = true
is_equals _ = false

abbrev pub apply_builtin : ℕ → Builtin → Reference → Reference → Run Reference
apply_builtin fuel type left right =
    if is_equals type
    then (do b ← ref_eq fuel left right; bool_ref b)
    else if is_order type
    then ref_compare fuel type left right
    else ref_builtin type left right

abbrev pub finish_builtin : ℕ → Builtin → Reference → Reference → Run Reference
finish_builtin fuel type left right = do
  result ← apply_builtin fuel type left right
  give_back fuel left
  give_back fuel right
  pure result

abbrev pub right_operand :
    ℕ → (Node → Run Reference) → Builtin → Reference → OptionalNode → Run Reference
right_operand fuel expr type left null_node = do
  take_reference left
  finish_builtin fuel type left left
right_operand fuel expr type left (some_node node) = do
  right ← expr node
  failed ← exception_occurred
  if failed then (do give_back fuel left; pure null_ref) else finish_builtin fuel type left right

unfoldable pub eval_builtin :
    ℕ → (Node → Run Reference) → Builtin → Node → OptionalNode → Run Reference
eval_builtin fuel expr type left right = do
  r ← expr left
  failed ← exception_occurred
  if failed then pure null_ref else right_operand fuel expr type r right

unfoldable pub eval_subscript : ℕ → (Node → Run Reference) → Node → Node → Run Reference
eval_subscript fuel expr obj index = do
  target ← expr obj
  failed ← exception_occurred
  if failed then pure null_ref else (do
    i ← expr index
    failed₁ ← exception_occurred
    if failed₁ then (do give_back fuel target; pure null_ref) else (do
      result ← ref_subscr_get fuel target i
      give_back fuel target
      give_back fuel i
      pure result))
