-- ===== src/Basic/Parser/Tests.antt =====
-- Statements parsed, and the theorems at these files.
use cs_24_coursework.Prelude.{
  if◌then◌else◌, ◌==◌, ℕ, ◌+◌, ◌-◌, ◌*◌, ◌≡◌, refl, true, Option, none, some, List, [], ◌∷◌,
}
use cs_24_coursework.Basic.Ast.{
  print_ast, Text, Node, num, var, binary_op, print, cond, goto, init_num_node, init_binary_node,
  init_var_node, init_print_node, init_goto_node, init_cond_node,
}
use cs_24_coursework.Basic.Compile.{compile_ast}
use cs_24_coursework.Basic.Semantics.{IsStmt}
use cs_24_coursework.Basic.Parser.{
  Parse, parsed, fault, out_of_fuel, is_factor_operator, advance_until_separator, factor,
  operator_loop, term, expression, comparison, then_branch, if_statement, keyword, statement, parse,
}
use cs_24_coursework.Basic.Parser.Trees.{parse-IsStmt}
use cs_24_coursework.Basic.Parser.Hang.{term_loop-hangs}

-- strtol on decimal digits.
abbrev digits_from : ℕ → Text → ℕ
digits_from n [] = n
digits_from n (c ∷ cs) = digits_from (n * 10 + (c - 48)) cs

abbrev decimal : Text → ℕ
decimal = digits_from 0

-- PRINT A-2*(B+10)
abbrev print_line : List ℕ
print_line =
    b'P' ∷ b'R' ∷ b'I' ∷ b'N' ∷ b'T' ∷ 32 ∷ b'A' ∷ b'-' ∷ b'2' ∷ b'*' ∷ b'(' ∷ b'B' ∷ b'+' ∷ b'1'
    ∷ b'0' ∷ b')' ∷ 10 ∷ []

abbrev print_tree : Node
print_tree =
    print (binary_op b'-' (var b'A') (binary_op b'*' (num 2) (binary_op b'+' (var b'B') (num 10))))

parse_print : parse decimal print_line 9 0 ≡ parsed (some print_tree) 16
unfolding parse statement keyword expression term operator_loop factor advance_until_separator
    init_num_node init_var_node init_binary_node init_print_node
parse_print = refl

-- IF A < 2 THEN GOTO 10
abbrev if_line : List ℕ
if_line =
    b'I' ∷ b'F' ∷ 32 ∷ b'A' ∷ 32 ∷ b'<' ∷ 32 ∷ b'2' ∷ 32 ∷ b'T' ∷ b'H' ∷ b'E' ∷ b'N' ∷ 32 ∷ b'G'
    ∷ b'O' ∷ b'T' ∷ b'O' ∷ 32 ∷ b'1' ∷ b'0' ∷ 10 ∷ []

parse_if :
    parse decimal if_line 9 0
    ≡ parsed (some (cond (binary_op b'<' (var b'A') (num 2)) (goto (b'1' ∷ b'0' ∷ [])))) 22
unfolding parse statement keyword if_statement then_branch comparison expression term operator_loop
    factor advance_until_separator init_num_node init_var_node init_binary_node init_goto_node
    init_cond_node
parse_if = refl

-- IF A < 2 and the end of the file: strcmp gets NULL.
parse_if_fault : parse decimal (b'I' ∷ b'F' ∷ 32 ∷ b'A' ∷ b'<' ∷ b'2' ∷ []) 9 0 ≡ fault
unfolding parse statement keyword if_statement then_branch comparison expression term operator_loop
    factor advance_until_separator init_num_node init_var_node init_binary_node
parse_if_fault = refl

-- PRINT A* and the end of the file.
abbrev hanging_line : List ℕ
hanging_line = b'P' ∷ b'R' ∷ b'I' ∷ b'N' ∷ b'T' ∷ 32 ∷ b'A' ∷ b'*' ∷ []

parse_hangs : parse decimal hanging_line 20 0 ≡ out_of_fuel
unfolding parse statement keyword expression term operator_loop factor advance_until_separator
    init_num_node init_var_node init_binary_node init_print_node
parse_hangs = refl

abbrev shown : ℕ → Text
shown n = if n == 2 then b'2' ∷ [] else b'1' ∷ b'0' ∷ []

-- IF(<(A, 2), GOTO(10))
prints_if :
    print_ast shown (cond (binary_op b'<' (var b'A') (num 2)) (goto (b'1' ∷ b'0' ∷ [])))
    ≡ b'I' ∷ b'F' ∷ b'(' ∷ b'<' ∷ b'(' ∷ b'A' ∷ b',' ∷ 32 ∷ b'2' ∷ b')' ∷ b',' ∷ 32 ∷ b'G' ∷ b'O'
      ∷ b'T' ∷ b'O' ∷ b'(' ∷ b'1' ∷ b'0' ∷ b')' ∷ b')' ∷ []
unfolding print_ast
prints_if = refl

parse-IsStmt_example : IsStmt print_tree × ((compile_ast print_tree 3).success ≡ true)
parse-IsStmt_example = parse-IsStmt decimal print_line 9 0 print_tree 16 3 parse_print

abbrev no_parentheses : ℕ → Parse (Option Node)
no_parentheses pos = parsed none pos

term_loop-hangs_example :
    operator_loop decimal hanging_line no_parentheses is_factor_operator
      (factor decimal hanging_line no_parentheses)
      1000
      (some (var b'A'))
      7
    ≡ out_of_fuel
term_loop-hangs_example =
    term_loop-hangs decimal hanging_line no_parentheses 1000 7 b'*' (some (var b'A')) refl refl
