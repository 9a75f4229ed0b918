-- ===== src/Basic/Ast.antt =====
-- project03-kweng/include/ast.h and src/ast.c: the syntax tree and its constructors. A NULL node
-- is `none`. A number is the 64-bit pattern of its value, a name or operator is its char, and a
-- label is its bytes.
use cs_24_coursework.Prelude.{
  ℕ, Bool, true, false, Option, none, some, List, [], ◌∷◌, ◌++◌, ◌&&◌, ◌==◌, if◌then◌else◌,
}

abbrev pub Text : Type 0
Text = List ℕ

-- node_t and the structs that extend it.
pub data Node : Type 0 where
  num : ℕ → Node
  binary_op : ℕ → Node → Node → Node
  var : ℕ → Node
  print : Node → Node
  let_var : ℕ → Node → Node
  label : Text → Node
  goto : Text → Node
  cond : Node → Node → Node

-- `strtol(s, NULL, 0)` as its 64-bit pattern.
module _ (strtol : Text → ℕ) where
  unfoldable pub init_num_node : Option Text → Option Node
  init_num_node none = none
  init_num_node (some s) = some (num (strtol s))

unfoldable pub init_binary_node : ℕ → Option Node → Option Node → Option Node
init_binary_node op none right = none
init_binary_node op (some left) none = none
init_binary_node op (some left) (some right) = some (binary_op op left right)

unfoldable pub init_var_node : ℕ → Option Node
init_var_node name = if name == 0 then none else some (var name)

unfoldable pub init_print_node : Option Node → Option Node
init_print_node none = none
init_print_node (some expr) = some (print expr)

unfoldable pub init_let_node : ℕ → Option Node → Option Node
init_let_node name none = none
init_let_node name (some value) = if name == 0 then none else some (let_var name value)

unfoldable pub init_label_node : Option Text → Option Node
init_label_node none = none
init_label_node (some l) = some (label l)

unfoldable pub init_goto_node : Option Text → Option Node
init_goto_node none = none
init_goto_node (some l) = some (goto l)

unfoldable pub init_cond_node : Option Node → Option Node → Option Node
init_cond_node none if_branch = none
init_cond_node (some condition) none = none
init_cond_node (some condition) (some if_branch) = some (cond condition if_branch)

abbrev pub text_eq : Text → Text → Bool
text_eq [] [] = true
text_eq [] (y ∷ ys) = false
text_eq (x ∷ xs) [] = false
text_eq (x ∷ xs) (y ∷ ys) = (x == y) && text_eq xs ys

abbrev comma : Text
comma = b',' ∷ 32 ∷ []

abbrev right_paren : Text
right_paren = b')' ∷ []

-- What print_ast writes to stderr; `decimal` is printf's "%" PRId64.
module _ (decimal : ℕ → Text) where
  unfoldable pub print_ast : Node → Text
  print_ast (num v) = decimal v
  print_ast (binary_op op l r) =
      op ∷ b'(' ∷ (print_ast l ++ (comma ++ (print_ast r ++ right_paren)))
  print_ast (var x) = x ∷ []
  print_ast (print e) = b'P' ∷ b'R' ∷ b'I' ∷ b'N' ∷ b'T' ∷ b'(' ∷ (print_ast e ++ right_paren)
  print_ast (let_var x e) = b'L' ∷ b'E' ∷ b'T' ∷ b'(' ∷ x ∷ (comma ++ (print_ast e ++ right_paren))
  print_ast (label l) = b'L' ∷ b'A' ∷ b'B' ∷ b'E' ∷ b'L' ∷ b'(' ∷ (l ++ right_paren)
  print_ast (goto l) = b'G' ∷ b'O' ∷ b'T' ∷ b'O' ∷ b'(' ∷ (l ++ right_paren)
  print_ast (cond c s) =
      b'I' ∷ b'F' ∷ b'(' ∷ (print_ast c ++ (comma ++ (print_ast s ++ right_paren)))
