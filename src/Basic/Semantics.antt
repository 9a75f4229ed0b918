-- ===== src/Basic/Semantics.antt =====
-- What a TeenyBASIC program means: the language of the programs under project03-kweng/progs, with
-- 64-bit arithmetic, where a comparison is 1 or 0. `none` is a division error, a GOTO to no label,
-- or a tree that the parser does not build.
use cs_24_coursework.Prelude.{
  ℕ, ◌≤◌, ◌≡◌, Bool, true, false, Option, none, some, List, [], ◌∷◌, ◌++◌, ◌==◌, ◌||◌,
  if◌then◌else◌,
}
use cs_24_coursework.Word.{half64, add_w, sub_w, mul_w, slt, sdiv}
use cs_24_coursework.Basic.Ast.{
  Text, text_eq, Node, num, binary_op, var, print, let_var, label, goto, cond,
}
use cs_24_coursework.Basic.Compile.{is_arithmetic, is_comparison}

-- The value of each variable, by its name.
abbrev pub Env : Type 0
Env = ℕ → ℕ

abbrev pub assign : Env → ℕ → ℕ → Env
assign env x v y = if x == y then v else env y

infixl 5 ◌>>=◌
abbrev pub ◌>>=◌ : {A B : Type 0} → Option A → (A → Option B) → Option B
none >>= f = none
some a >>= f = f a

abbrev pub truth : Bool → ℕ
truth b = if b then 1 else 0

unfoldable pub apply : ℕ → ℕ → ℕ → Option ℕ
apply op a b =
    if op == b'+'
    then some (add_w half64 a b)
    else if op == b'-'
    then some (sub_w half64 a b)
    else if op == b'*'
    then some (mul_w half64 a b)
    else if op == b'/'
    then sdiv half64 a b
    else if op == b'<'
    then some (truth (slt half64 a b))
    else if op == b'>'
    then some (truth (slt half64 b a))
    else if op == b'='
    then some (truth (a == b))
    else none

unfoldable pub eval : Env → Node → Option ℕ
eval env (num v) = some v
eval env (var x) = some (env x)
eval env (binary_op op l r) = do a ← eval env l; b ← eval env r; apply op a b
eval env _ = none

-- How a statement ends: in the next one, or at a label.
pub data Flow : Type 0 where
  fall : Env → List ℕ → Flow
  jump : Text → Flow

unfoldable pub run_stmt : Env → List ℕ → Node → Option Flow
run_stmt env out (print e) = do v ← eval env e; some (fall env (out ++ v ∷ []))
run_stmt env out (let_var x e) = do v ← eval env e; some (fall (assign env x v) out)
run_stmt env out (label l) = some (fall env out)
run_stmt env out (goto l) = some (jump l)
run_stmt env out (cond c s) = do
  let taken = run_stmt env out s
  v ← eval env c
  if v == 0 then some (fall env out) else taken
run_stmt env out _ = none

-- The label that a statement sets; IF may hold one.
unfoldable pub sets_label : Text → Node → Bool
sets_label l (label t) = text_eq t l
sets_label l (cond c s) = sets_label l s
sets_label l _ = false

unfoldable pub find_stmt : Text → List Node → Option (List Node)
find_stmt l [] = none
find_stmt l (s ∷ ss) = if sets_label l s then some ss else find_stmt l ss

-- The statements that are still to run, the variables and the output.
pub record Config : Type 0 where
  pub rest : List Node
  pub env : Env
  pub out : List ℕ

abbrev pub config : List Node → Env → List ℕ → Config
config ss env out = record { rest = ss; env = env; out = out }

abbrev pub continue : List Node → List Node → Env → List ℕ → Flow → Option Config
continue program ss env out (fall env' out') = some (config ss env' out')
continue program ss env out (jump l) = do ss' ← find_stmt l program; some (config ss' env out)

unfoldable pub step_stmts : List Node → List Node → Env → List ℕ → Option Config
step_stmts program [] env out = none
step_stmts program (s ∷ ss) env out = do f ← run_stmt env out s; continue program ss env out f

pub data Runs (program : List Node) (c : Config) : Config → Type 0 where
  here : Runs program c c
  next :
      {a b : Config}
      → Runs program c a
      → step_stmts program a.rest a.env a.out ≡ some b
      → Runs program c b

-- The trees that the parser builds.
abbrev pub IsVar : ℕ → Type 0
IsVar x = (b'A' ≤ x) × (x ≤ b'Z')

abbrev pub IsExpr : Node → Type 0
IsExpr (num v) = Unit {0}
IsExpr (var x) = IsVar x
IsExpr (binary_op op l r) = ((is_arithmetic op || is_comparison op) ≡ true) × IsExpr l × IsExpr r
IsExpr _ = ⊥

abbrev pub IsStmt : Node → Type 0
IsStmt (print e) = IsExpr e
IsStmt (let_var x e) = IsVar x × IsExpr e
IsStmt (label l) = Unit {0}
IsStmt (goto l) = Unit {0}
IsStmt (cond c s) = IsExpr c × IsStmt s
IsStmt _ = ⊥

abbrev pub IsProgram : List Node → Type 0
IsProgram [] = Unit {0}
IsProgram (s ∷ ss) = IsStmt s × IsProgram ss
