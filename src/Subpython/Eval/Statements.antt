-- ===== src/Subpython/Eval/Statements.antt =====
-- project05-kweng/eval.c: eval_init, the statements, and eval_root. What a statement gives is NULL_REF,
-- but for the last one of a sequence and an expression.
use cs_24_coursework.Prelude.{ℕ, zero, suc, Bool, Option, List, [], ◌∷◌, if◌then◌else◌}
use cs_24_coursework.Prelude.Answer.{no_fuel}
use cs_24_coursework.Subpython.Refs.{Reference, null_ref}
use cs_24_coursework.Subpython.Run.{
  Run, pure, fail, ◌>>=◌, ◌>>◌, exc_syntax_error, exc_internal, exception_set, exception_occurred,
  take_reference, give_back,
}
use cs_24_coursework.Subpython.Values.{make_reference_none, make_reference_bool}
use cs_24_coursework.Subpython.Dicts.{is_null}
use cs_24_coursework.Subpython.Types.{ref_bool, ref_subscr_set, ref_subscr_del}
use cs_24_coursework.Subpython.Eval.{
  Node, stmt_sequence, stmt_assign, stmt_del, stmt_if, stmt_while, expr_literal_string,
  expr_literal_integer, expr_literal_list, expr_literal_dict, expr_literal_singleton,
  expr_identifier, expr_not_test, expr_and_test, expr_or_test, expr_builtin, expr_call,
  expr_subscript, OptionalNode, null_node, some_node, NodeList, no_nodes, node_list, globals_set,
  globals_delete,
}
use cs_24_coursework.Subpython.Eval.Expressions.{eval_expr}

abbrev none_name : List ℕ
none_name = b'N' ∷ b'o' ∷ b'n' ∷ b'e' ∷ []

abbrev true_name : List ℕ
true_name = b'T' ∷ b'r' ∷ b'u' ∷ b'e' ∷ []

abbrev false_name : List ℕ
false_name = b'F' ∷ b'a' ∷ b'l' ∷ b's' ∷ b'e' ∷ []

abbrev keep_singletons : Reference → Reference → Reference → Run (Unit {0})
keep_singletons n t f s = pure tt (record s { none_ref = n; true_ref = t; false_ref = f })

abbrev pub define_global : ℕ → List ℕ → Reference → Run (Unit {0})
define_global fuel name r = globals_set fuel name r >> give_back fuel r

-- A failed initialization aborts.
unfoldable pub eval_init : ℕ → Run (Unit {0})
eval_init fuel = do
  n ← make_reference_none
  t ← make_reference_bool
  f ← make_reference_bool
  keep_singletons n t f
  failed ← exception_occurred
  if failed then fail else (do
    define_global fuel none_name n
    define_global fuel true_name t
    define_global fuel false_name f)

-- An assignment to what is no target, and to an identifier or a subscript.
unfoldable pub eval_stmt_assign : ℕ → (Node → Run Reference) → Node → Node → Run (Unit {0})
eval_stmt_assign fuel expr (expr_literal_string v) right = exception_set exc_syntax_error
eval_stmt_assign fuel expr (expr_literal_integer v) right = exception_set exc_syntax_error
eval_stmt_assign fuel expr (expr_literal_singleton v) right = exception_set exc_syntax_error
eval_stmt_assign fuel expr (expr_literal_dict ks vs) right = exception_set exc_syntax_error
eval_stmt_assign fuel expr (expr_literal_list vs) right = exception_set exc_syntax_error
eval_stmt_assign fuel expr (expr_identifier name) right = do
  r ← expr right
  failed ← exception_occurred
  if failed then pure tt else (do globals_set fuel name r; give_back fuel r)
eval_stmt_assign fuel expr (expr_not_test n) right = exception_set exc_syntax_error
eval_stmt_assign fuel expr (expr_and_test l r) right = exception_set exc_syntax_error
eval_stmt_assign fuel expr (expr_or_test l r) right = exception_set exc_syntax_error
eval_stmt_assign fuel expr (expr_builtin type l r) right = exception_set exc_syntax_error
eval_stmt_assign fuel expr (expr_call func args) right = exception_set exc_syntax_error
eval_stmt_assign fuel expr (expr_subscript obj index) right = do
  r ← expr right
  failed ← exception_occurred
  if failed then pure tt else (do
    target ← expr obj
    failed₁ ← exception_occurred
    (if failed₁ then pure tt else (do
      i ← expr index
      failed₂ ← exception_occurred
      (if failed₂ then pure tt else (do ref_subscr_set fuel target i r; give_back fuel i))
      give_back fuel target))
    give_back fuel r)
eval_stmt_assign fuel expr _ right = exception_set exc_internal

unfoldable pub eval_stmt_del : ℕ → (Node → Run Reference) → Node → Run (Unit {0})
eval_stmt_del fuel expr (expr_literal_string v) = exception_set exc_syntax_error
eval_stmt_del fuel expr (expr_literal_integer v) = exception_set exc_syntax_error
eval_stmt_del fuel expr (expr_literal_singleton v) = exception_set exc_syntax_error
eval_stmt_del fuel expr (expr_literal_dict ks vs) = exception_set exc_syntax_error
eval_stmt_del fuel expr (expr_literal_list vs) = exception_set exc_syntax_error
eval_stmt_del fuel expr (expr_identifier name) = globals_delete fuel name
eval_stmt_del fuel expr (expr_not_test n) = exception_set exc_syntax_error
eval_stmt_del fuel expr (expr_and_test l r) = exception_set exc_syntax_error
eval_stmt_del fuel expr (expr_or_test l r) = exception_set exc_syntax_error
eval_stmt_del fuel expr (expr_builtin type l r) = exception_set exc_syntax_error
eval_stmt_del fuel expr (expr_call func args) = exception_set exc_syntax_error
eval_stmt_del fuel expr (expr_subscript obj index) = do
  target ← expr obj
  failed ← exception_occurred
  if failed then pure tt else (do
    i ← expr index
    failed₁ ← exception_occurred
    (if failed₁ then pure tt else (do ref_subscr_del fuel target i; give_back fuel i))
    give_back fuel target)
eval_stmt_del fuel expr _ = exception_set exc_internal

-- The loop of eval_stmt_sequence, with the result so far.
unfoldable pub eval_statements : ℕ → (Node → Run Reference) → Reference → NodeList → Run Reference
eval_statements fuel stmt result no_nodes = pure result
eval_statements fuel stmt result (node_list n ns) =
    (if is_null result then pure tt else give_back fuel result)
    >> (stmt n >>= (λ r.
        exception_occurred
        >>= (λ failed. if failed then pure null_ref else eval_statements fuel stmt r ns)))

-- The value of a condition, and what is done when the expression has not raised an exception.
unfoldable pub with_condition :
    ℕ → (Node → Run Reference) → Node → (Bool → Run (Unit {0})) → Run (Unit {0})
with_condition fuel expr node f = do
  r ← expr node
  failed ← exception_occurred
  if failed then pure tt else (do b ← ref_bool r; give_back fuel r; f b)

-- What the statements of a branch give is dropped, and its reference not given back.
abbrev pub run_branch : (Node → Run Reference) → OptionalNode → Run (Unit {0})
run_branch stmt null_node = pure tt
run_branch stmt (some_node n) = stmt n >> pure tt

-- `again` is the loop of the while statement.
abbrev pub while_round :
    ℕ
    → (Node → Run Reference)
    → (Node → Run Reference)
    → Run (Unit {0})
    → Node
    → Node
    → Run (Unit {0})
while_round fuel expr stmt again cond body =
    with_condition fuel expr cond (λ b. if b then stmt body >> again else pure tt)

abbrev pub no_result : Run (Unit {0}) → Run Reference
no_result m = m >> pure null_ref

unfoldable pub eval_stmt_while :
    ℕ → (Node → Run Reference) → (Node → Run Reference) → ℕ → Node → Node → Run (Unit {0})
eval_stmt_while fuel expr stmt zero cond body s = no_fuel
eval_stmt_while fuel expr stmt (suc rounds) cond body s =
    while_round fuel expr stmt (eval_stmt_while fuel expr stmt rounds cond body) cond body s

module _ (other : List ℕ → List Reference → Option (Run Reference)) where
  abbrev pub stmt_with : ℕ → (Node → Run Reference) → (Node → Run Reference) → Node → Run Reference
  stmt_with fuel expr stmt (stmt_sequence nodes) = eval_statements fuel stmt null_ref nodes
  stmt_with fuel expr stmt (stmt_assign left right) =
      no_result (eval_stmt_assign fuel expr left right)
  stmt_with fuel expr stmt (stmt_del arg) = no_result (eval_stmt_del fuel expr arg)
  stmt_with fuel expr stmt (stmt_if cond left right) = no_result (
      with_condition fuel expr cond
        (λ b. if b then run_branch stmt (some_node left) else run_branch stmt right))
  stmt_with fuel expr stmt (stmt_while cond body) =
      no_result (eval_stmt_while fuel expr stmt fuel cond body)
  stmt_with fuel expr stmt node = expr node

  unfoldable pub eval_stmt : ℕ → Node → Run Reference
  eval_stmt zero node s = no_fuel
  eval_stmt (suc fuel) node s = stmt_with fuel (eval_expr other fuel) (eval_stmt fuel) node s

  abbrev or_none : Reference → Run Reference
  or_none r s = if is_null r then (take_reference s.none_ref >> pure s.none_ref) s else pure r s

  unfoldable pub eval_root : ℕ → Node → Run Reference
  eval_root fuel root = eval_stmt fuel root >>= or_none
