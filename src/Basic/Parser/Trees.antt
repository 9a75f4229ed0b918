-- ===== src/Basic/Parser/Trees.antt =====
-- The trees that the parser builds, which are those that the compiler's theorems ask for.
use cs_24_coursework.Prelude.{
  ℕ, zero, suc, ◌≡◌, ap, ◌∙◌, drop, inl, inr, Bool, true, Option, none, some, List, Bool-cases,
  arith, ◌||◌, ◌==◌,
}
use mathlib.Core.Path.{subst}
use cs_24_coursework.Basic.Ast.{
  Text, text_eq, Node, init_num_node, init_binary_node, init_var_node, init_print_node,
  init_let_node, init_label_node, init_goto_node, init_cond_node,
}
use cs_24_coursework.Basic.Compile.{is_arithmetic, is_comparison, compile_ast}
use cs_24_coursework.Basic.Semantics.{IsVar, IsExpr, IsStmt}
use cs_24_coursework.Basic.Correct.Labels.{success_of_stmt}
use cs_24_coursework.Basic.Parser.{
  Parse, parsed, advance, peek, is_variable_name, is_factor_operator, is_term_operator,
  is_comparison_sign, is_number_start, is_expression_start, is_nul, is_comment, goto_word,
  print_word, let_word, if_word, then_word, advance_until_separator, close, factor, operator_loop,
  term, expression, comparison, let_statement, then_branch, if_statement, keyword, statement, parse,
}
use cs_24_coursework.Basic.Parser.Builds.{
  Builds, Builds-if, Builds-parsed, Builds-some, Builds-then, Builds-word, Builds-zero,
  advance_loop-Found, advance_loop_again, init_binary_node-Tree, init_num_node-Tree,
  init_var_node-Tree, is_variable_name-IsVar, builds, null, faults, no_fuel, Tree,
}

module _ (strtol : Text → ℕ) (file : List ℕ) where
  module _ (expr : ℕ → Parse (Option Node)) (trees : (pos : ℕ) → Builds IsExpr (expr pos)) where
    close-Builds :
        (node : Option Node) (pos : ℕ)
        → Tree IsExpr node
        → Builds IsExpr (close strtol file expr node pos)
    close-Builds node pos tree =
        Builds-if ((advance strtol file pos).0 == b')') (λ c. Builds-parsed node tree) null

    factor-Builds : (pos : ℕ) → Builds IsExpr (factor strtol file expr pos)
    unfolding factor
    factor-Builds pos =
        let next = peek strtol file pos in
        Builds-zero next.0 null λ some_char.
          Builds-if (next.0 == b'(')
            (λ p. Builds-then (trees _) λ node q tree. close-Builds node q tree)
            (Builds-if (is_variable_name next.0)
              (λ v. elim (advance_loop_again file pos (advance_loop-Found (drop pos file) pos)) [
                | inl z ↦ absurd (some_char z)
                | inr e ↦
                    Builds-parsed (init_var_node _)
                      (init_var_node-Tree _ (ap is_variable_name e ∙ v))
              ])
              (Builds-if (is_number_start next.0)
                (λ d.
                  Builds-word (advance_until_separator strtol file next.1)
                    λ s q. Builds-parsed (init_num_node strtol s) (init_num_node-Tree strtol s))
                null))

    operator_loop-Builds :
        (is_op : ℕ → Bool) (operand : ℕ → Parse (Option Node))
        → ((c : ℕ) → is_op c ≡ true → (is_arithmetic c || is_comparison c) ≡ true)
        → ((pos : ℕ) → Builds IsExpr (operand pos))
        → (n : ℕ) (result : Option Node) (pos : ℕ) → Tree IsExpr result
        → Builds IsExpr (operator_loop strtol file expr is_op operand n result pos)
    unfolding operator_loop
    operator_loop-Builds is_op operand ops operands zero result pos tree = no_fuel
    operator_loop-Builds is_op operand ops operands (suc n) result pos tree =
        let next = advance strtol file pos in
        Builds-if (is_op next.0)
          (λ p. Builds-then (operands next.1) λ right q right_tree.
            operator_loop-Builds is_op operand ops operands n (init_binary_node next.0 result right)
              q (init_binary_node-Tree next.0 result right (ops next.0 p) tree right_tree))
          (Builds-parsed result tree)

    term-Builds : (n pos : ℕ) → Builds IsExpr (term strtol file expr n pos)
    unfolding term
    term-Builds n pos = Builds-then (factor-Builds pos) λ result p tree.
        operator_loop-Builds is_factor_operator (factor strtol file expr) (λ c h. ground arith)
          factor-Builds n result p tree

  expression-Builds : (n pos : ℕ) → Builds IsExpr (expression strtol file n pos)
  unfolding expression
  expression-Builds zero pos = no_fuel
  expression-Builds (suc n) pos =
      let expr = expression strtol file n in
      let next = peek strtol file pos in
      Builds-if (is_expression_start next.0)
        (λ s. Builds-then (term-Builds expr (expression-Builds n) n next.1) λ result p tree.
          operator_loop-Builds expr (expression-Builds n) is_term_operator (term strtol file expr n)
            (λ c h. ground arith) (term-Builds expr (expression-Builds n) n) n result p tree)
        null

  comparison-Builds : (n pos : ℕ) → Builds IsExpr (comparison strtol file n pos)
  unfolding comparison
  comparison-Builds n pos = Builds-then (expression-Builds n pos) λ left p tree.
      let next = advance strtol file p in
      Builds-if (is_comparison_sign next.0)
        (λ s. Builds-then (expression-Builds n next.1) λ right q right_tree.
          Builds-parsed (init_binary_node next.0 left right)
            (init_binary_node-Tree next.0 left right (signs next.0 s) tree right_tree))
        null
    where
      signs : (c : ℕ) → is_comparison_sign c ≡ true → (is_arithmetic c || is_comparison c) ≡ true
      signs c h = ground arith

  init_print_node-Tree : (o : Option Node) → Tree IsExpr o → Tree IsStmt (init_print_node o)
  unfolding init_print_node
  init_print_node-Tree none h = tt
  init_print_node-Tree (some e) h = h

  init_let_node-Tree :
      (x : ℕ) (o : Option Node) → IsVar x → Tree IsExpr o → Tree IsStmt (init_let_node x o)
  unfolding init_let_node
  init_let_node-Tree x none v h = tt
  init_let_node-Tree x (some e) v h = elim (Bool-cases (x == 0)) [
    | inl z ↦ rw z tt
    | inr z ↦ rw z (v, h)
  ]

  init_goto_node-Tree : (o : Option Text) → Tree IsStmt (init_goto_node o)
  unfolding init_goto_node
  init_goto_node-Tree none = tt
  init_goto_node-Tree (some l) = tt

  init_cond_node-Tree :
      (c s : Option Node) → Tree IsExpr c → Tree IsStmt s → Tree IsStmt (init_cond_node c s)
  unfolding init_cond_node
  init_cond_node-Tree none s h k = tt
  init_cond_node-Tree (some c) none h k = tt
  init_cond_node-Tree (some c) (some s) h k = (h, k)

  let_statement-Builds : (n pos : ℕ) → Builds IsStmt (let_statement strtol file n pos)
  unfolding let_statement
  let_statement-Builds n pos =
      let name = advance strtol file pos in
      let sign = advance strtol file name.1 in
      Builds-if (is_variable_name name.0)
        (λ v.
          Builds-if (sign.0 == b'=')
            (λ s. Builds-then (expression-Builds n sign.1) λ value p tree.
              Builds-parsed (init_let_node name.0 value)
                (init_let_node-Tree name.0 value (is_variable_name-IsVar name.0 v) tree))
            null)
        null

  module _ (branch : ℕ → Parse (Option Node))
      (bodies : (pos : ℕ) → Builds IsStmt (branch pos)) where
    then_branch-Builds :
        (condition : Option Node)
        → Tree IsExpr condition
        → (o : Option Text) (pos : ℕ)
        → Builds IsStmt (then_branch strtol file branch condition o pos)
    unfolding then_branch
    then_branch-Builds condition tree none pos = faults
    then_branch-Builds condition tree (some word) pos =
        Builds-if (text_eq then_word word)
          (λ e. Builds-then (bodies pos) λ body q body_tree.
            Builds-parsed (init_cond_node condition body)
              (init_cond_node-Tree condition body tree body_tree))
          null

    if_statement-Builds : (n pos : ℕ) → Builds IsStmt (if_statement strtol file branch n pos)
    unfolding if_statement
    if_statement-Builds n pos = Builds-then (comparison-Builds n pos) λ condition p tree.
        Builds-word (advance_until_separator strtol file p) (then_branch-Builds condition tree)

    keyword-Builds :
        (n : ℕ) (o : Option Text) (pos : ℕ) → Builds IsStmt (keyword strtol file branch n o pos)
    unfolding keyword init_label_node
    keyword-Builds n none pos = null
    keyword-Builds n (some word) pos =
        Builds-if (is_nul word) (λ e. null)
          (Builds-if (is_comment word) (λ e. null)
            (Builds-if (text_eq goto_word word)
              (λ e.
                Builds-word (advance_until_separator strtol file pos)
                  λ l p. Builds-parsed (init_goto_node l) (init_goto_node-Tree l))
              (Builds-if (text_eq print_word word)
                (λ e. Builds-then (expression-Builds n pos) λ value p tree.
                  Builds-parsed (init_print_node value) (init_print_node-Tree value tree))
                (Builds-if (text_eq let_word word) (λ e. let_statement-Builds n pos)
                  (Builds-if (text_eq if_word word) (λ e. if_statement-Builds n pos)
                    (builds tt))))))

  statement-Builds : (n pos : ℕ) → Builds IsStmt (statement strtol file n pos)
  unfolding statement
  statement-Builds zero pos = no_fuel
  statement-Builds (suc n) pos =
      Builds-word (advance_until_separator strtol file pos)
        (keyword-Builds (statement strtol file n) (statement-Builds n) n)

  -- Whatever the file: a statement that parse gives back is a tree that the semantics knows, with
  -- variables A to Z and the operators of the language, and compile_ast accepts it.
  pub parse-IsStmt :
      (n pos : ℕ) (s : Node) (end label_no : ℕ)
      → parse strtol file n pos ≡ parsed (some s) end
      → IsStmt s × ((compile_ast s label_no).success ≡ true)
  unfolding parse
  parse-IsStmt n pos s end label_no e =
      let tree = Builds-some (subst (Builds IsStmt) e (statement-Builds n pos)) in
      (tree, success_of_stmt s label_no tree)
