-- ===== src/Basic/Correct/Tests.antt =====
-- A program with a loop, a division and an IF inside an IF, compiled and run, and the theorems at
-- inputs that meet their hypotheses.
use cs_24_coursework.Prelude.{
  ℕ, zero, suc, ◌+◌, ◌-◌, ◌≡◌, refl, inr, none, some, List, [], ◌∷◌, ◌++◌, arith, true,
}
use cs_24_coursework.Word.{add_w, sub_w, mul_w, slt, sdiv, srem, half64}
use cs_24_coursework.Basic.Ast.{Node, num, binary_op, var, print, let_var, label, goto, cond}
use cs_24_coursework.Basic.Compile.{
  Instr, label_c, compile_ast, compile_program, var_offset, operator_code, compare_code,
}
use cs_24_coursework.Basic.Machine.{
  Regs, State, Mach, at, step, step_lines, operate, find_l, find_c, Steps,
}
use cs_24_coursework.Basic.Semantics.{
  Env, IsProgram, config, Runs, assign, step_stmts, run_stmt, find_stmt, sets_label, eval, apply,
}
use cs_24_coursework.Basic.Correct.Expr.{Agrees, Yields, compile_ast-Yields}
use cs_24_coursework.Basic.Correct.Labels.{find_c-skip}
use cs_24_coursework.Basic.Correct.Stmt.{var_offset-injective}
use cs_24_coursework.Basic.Correct.Program.{compile_program-Runs, lines_of, compile_program-success}

-- 10 LET B = 3; 20 PRINT B * B; LET B = B - 1; IF 0 < B THEN IF B < 9 THEN GOTO 20
abbrev b_var : Node
b_var = var b'B'

abbrev countdown : List Node
countdown =
    let_var b'B' (num 3)
    ∷ label (b'2' ∷ [])
    ∷ print (binary_op b'*' b_var b_var)
    ∷ let_var b'B' (binary_op b'-' b_var (num 1))
    ∷ cond (binary_op b'<' (num 0) b_var) (cond (binary_op b'<' b_var (num 9)) (goto (b'2' ∷ [])))
    ∷ []

after_call : List ℕ → Regs
after_call out = record { rax = 1; rdi = 2; rsi = 3; rdx = 4; left = 5; right = 6 }

abbrev start : State
start = record {
  rax = 0;
  rdi = 0;
  rsi = 0;
  rdx = 0;
  left = 0;
  right = 0;
  slots = λ _. 0;
  stack = [];
  out = [];
}

run : ℕ → List Instr → Mach → Mach
run zero whole m = m
run (suc f) whole m = elim (step after_call whole m) [ none ↦ m | some m' ↦ run f whole m' ]

run_lines : ℕ → List Node → List ℕ
unfolding run step_lines operate find_l find_c compile_program compile_ast var_offset operator_code
    compare_code add_w sub_w mul_w slt sdiv srem after_call
run_lines f p = (run f (compile_program p 0).code (at (compile_program p 0).code start)).state.out

countdown_prints : run_lines 200 countdown ≡ 9 ∷ 4 ∷ 1 ∷ []
unfolding run_lines
countdown_prints = refl

abbrev zero_env : Env
zero_env x = 0

-- LET B = 2; IF B > 1 THEN PRINT B / 2
abbrev halve : List Node
halve =
    let_var b'B' (num 2)
    ∷ cond (binary_op b'>' b_var (num 1)) (print (binary_op b'/' b_var (num 2)))
    ∷ []

halve-Runs : Runs halve (config halve zero_env []) (config [] (assign zero_env b'B' 2) (1 ∷ []))
unfolding step_stmts run_stmt find_stmt sets_label eval apply add_w sub_w mul_w slt sdiv srem
halve-Runs = Runs.next (Runs.next Runs.here refl) refl

halve-IsProgram : IsProgram halve
halve-IsProgram = ((omega arith, tt), (((refl, omega arith, tt), (refl, omega arith, tt)), tt))

compile_program-Runs_example :
    (s' : State) × Steps after_call (lines_of halve) (at (lines_of halve) start) (at [] s')
    × (s'.out ≡ 1 ∷ [])
    × Agrees (assign zero_env b'B' 2) s'.slots
compile_program-Runs_example =
    compile_program-Runs after_call halve halve-IsProgram zero_env (assign zero_env b'B' 2) (1 ∷ [])
      start (λ x h. refl) refl halve-Runs

compile_program-success_example : (compile_program halve 0).success ≡ true
compile_program-success_example = compile_program-success halve 0 halve-IsProgram

compile_ast-Yields_example :
    Yields after_call []
      (compile_ast (binary_op b'-' b_var (num 1)) 0).code
      []
      start
      (half64 + half64 - 1)
unfolding eval apply sub_w
compile_ast-Yields_example =
    compile_ast-Yields after_call [] (binary_op b'-' b_var (num 1)) 0 zero_env [] start _
      (refl, omega arith, tt) (λ x h. refl) refl

abbrev nested : Node
nested = cond (num 1) (cond (num 1) (print (num 7)))

find_c-skip_example :
    find_c 5 ((compile_ast nested 3).code ++ label_c 5 ∷ []) ≡ find_c 5 (label_c 5 ∷ [])
unfolding compile_ast
find_c-skip_example = find_c-skip nested 3 5 (label_c 5 ∷ []) (omega arith) (inr (omega arith))

var_offset-injective_example : ◌≡◌ {A = ℕ} b'B' b'B'
var_offset-injective_example = var_offset-injective b'B' b'B' (omega arith) (omega arith) refl
