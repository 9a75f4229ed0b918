-- ===== src/Basic/Correct/Program.antt =====
-- A whole program: the lines that the loop of main collects do what the statements mean.
use cs_24_coursework.Prelude.{
  ℕ, ◌≤◌, ◌≡◌, refl, sym, ap, ◌∙◌, inl, inr, true, some, List, [], ◌∷◌, ◌++◌, append_assoc, arith,
  Bool-cases, Option-cases,
}
use mathlib.Core.Path.{subst}
use mathlib.Core.Option.{some-injective}
use cs_24_coursework.Basic.Ast.{Text, Node}
use cs_24_coursework.Basic.Compile.{Instr, jmp_l, compile_ast, compile_program}
use cs_24_coursework.Basic.Machine.{
  Regs, State, Mach, at, Steps, here, step_lines, jump_to, find_l, find_c,
}
use cs_24_coursework.Basic.Semantics.{
  Env, Flow, fall, jump, run_stmt, sets_label, find_stmt, Config, config, continue, step_stmts,
  Runs, IsStmt, IsProgram,
}
use cs_24_coursework.Basic.Correct.Expr.{Agrees, Steps-trans, one}
use cs_24_coursework.Basic.Correct.Labels.{
  Lands, label_no-le, success_of_stmt, find_c-skip, find_l-skip, find_l-Lands, pads-Steps,
}
use cs_24_coursework.Basic.Correct.Stmt.{Ends, compile_ast-Ends}

IsProgram-right : (a b : List Node) → IsProgram (a ++ b) → IsProgram b
IsProgram-right [] b h = h
IsProgram-right (s ∷ a) b h = IsProgram-right a b h.1

IsProgram-left : (a b : List Node) → IsProgram (a ++ b) → IsProgram a
IsProgram-left [] b h = tt
IsProgram-left (s ∷ a) b h = (h.0, IsProgram-left a b h.1)

-- The parts of a compiled program, where each statement compiles.
cons-code :
    (s : Node) (ss : List Node) (n : ℕ)
    → IsStmt s
    → (compile_program (s ∷ ss) n).code
      ≡ (compile_ast s n).code ++ (compile_program ss (compile_ast s n).label_no).code
unfolding compile_program
cons-code s ss n h = rw (success_of_stmt s n h)

cons-label_no :
    (s : Node) (ss : List Node) (n : ℕ)
    → IsStmt s
    → (compile_program (s ∷ ss) n).label_no
      ≡ (compile_program ss (compile_ast s n).label_no).label_no
unfolding compile_program
cons-label_no s ss n h = rw (success_of_stmt s n h)

pub append-code :
    (a b : List Node) (n : ℕ)
    → IsProgram (a ++ b)
    → (compile_program (a ++ b) n).code
      ≡ (compile_program a n).code ++ (compile_program b (compile_program a n).label_no).code
unfolding compile_program
append-code [] b n h = refl
append-code (s ∷ a) b n h = rw (
  cons-code s (a ++ b) n h.0,
  append-code a b _ h.1,
  cons-code s a n h.0,
  cons-label_no s a n h.0,
  append_assoc,
)

append-label_no :
    (a b : List Node) (n : ℕ)
    → IsProgram (a ++ b)
    → (compile_program (a ++ b) n).label_no
      ≡ (compile_program b (compile_program a n).label_no).label_no
unfolding compile_program
append-label_no [] b n h = refl
append-label_no (s ∷ a) b n h = rw (success_of_stmt s n h.0) (append-label_no a b _ h.1)

snoc-label_no :
    (a : List Node) (s : Node) (n : ℕ)
    → IsProgram (a ++ s ∷ [])
    → (compile_program (a ++ s ∷ []) n).label_no
      ≡ (compile_ast s (compile_program a n).label_no).label_no
unfolding compile_program
snoc-label_no a s n h =
    append-label_no a (s ∷ []) n h ∙ cons-label_no s [] _ (IsProgram-right a (s ∷ []) h).0

-- compile_ast accepts each of a program's statements, if the parser built them: main compiles the
-- whole program and does not end the process.
pub compile_program-success :
    (ss : List Node) (n : ℕ) → IsProgram ss → (compile_program ss n).success ≡ true
unfolding compile_program
compile_program-success [] n h = refl
compile_program-success (s ∷ ss) n h =
    rw (success_of_stmt s n h.0) (compile_program-success ss _ h.1)

program-label_no-le : (a : List Node) (n : ℕ) → IsProgram a → n ≤ (compile_program a n).label_no
unfolding compile_program
program-label_no-le [] n h = omega arith
program-label_no-le (s ∷ a) n h =
    rw (success_of_stmt s n h.0)
      (omega (arith, label_no-le s n h.0, program-label_no-le a (compile_ast s n).label_no h.1))

-- No label of the statements before has a number from label_no on.
program-find_c :
    (a : List Node) (n j : ℕ) (k : List Instr)
    → IsProgram a
    → (compile_program a n).label_no ≤ j
    → find_c j ((compile_program a n).code ++ k) ≡ find_c j k
unfolding compile_program
program-find_c [] n j k h le = refl
program-find_c (s ∷ a) n j k h le =
    let le' : (compile_program a (compile_ast s n).label_no).label_no ≤ j =
      rw (success_of_stmt s n h.0) at le in
    rw (success_of_stmt s n h.0, append_assoc)
      (find_c-skip s n j _ h.0
          (inr (omega (arith, program-label_no-le a (compile_ast s n).label_no h.1)))
        ∙ program-find_c a _ j k h.1 le')

-- A GOTO finds in the lines the place that it finds in the program.
record Found (l : Text) (ss : List Node) (n : ℕ) (to : List Node) : Type 0 where
  before : List Node
  split : ss ≡ before ++ to
  lands :
      Lands
        (find_l l (compile_program ss n).code)
        (compile_program to (compile_program before n).label_no).code

find_stmt-Found :
    (l : Text) (ss : List Node) (n : ℕ) (to : List Node)
    → IsProgram ss
    → find_stmt l ss ≡ some to
    → Found l ss n to
unfolding find_stmt compile_program
find_stmt-Found l [] n to h e = cc
find_stmt-Found l (s ∷ ss) n to h e = elim (Bool-cases (sets_label l s)) [
  | inl set ↦ rw (← some-injective _ _ (rw set at e)) (record {
    before = s ∷ [];
    split = refl;
    lands = rw (success_of_stmt s n h.0) (find_l-Lands s n l _ h.0 set);
  })
  | inr unset ↦
      let f = find_stmt-Found l ss (compile_ast s n).label_no to h.1 (rw unset at e) in
      record {
        before = s ∷ f.before;
        split = ap (λ x. s ∷ x) f.split;
        lands = rw (success_of_stmt s n h.0, find_l-skip s n l _ h.0 unset) f.lands;
      }
]

abbrev pub lines_of : List Node → List Instr
lines_of program = (compile_program program 0).code

module _ (after_call : List ℕ → Regs) (program : List Node) (ok : IsProgram program) where
  -- The machine stands at the lines of the statements that are still to run.
  pub record Sim (c : Config) (m : Mach) : Type 0 where
    pub before : List Node
    pub split : program ≡ before ++ c.rest
    pub place : m.rest ≡ (compile_program c.rest (compile_program before 0).label_no).code
    pub frame : Agrees c.env m.state.slots
    pub printed : m.state.out ≡ c.out

  abbrev Goal : Mach → Config → Type 0
  Goal m c' = (m' : Mach) × Steps after_call (lines_of program) m m' × Sim c' m'

  jump-step :
      (l : Text) (k : List Instr) (s : State) (to : List Node)
      → (f : Found l program 0 to)
      → Steps after_call
          (lines_of program)
          (at (jmp_l l ∷ k) s)
          (at (compile_program to (compile_program f.before 0).label_no).code s)
  unfolding step_lines
  jump-step l k s to f =
      Steps-trans after_call (lines_of program)
        (one after_call (lines_of program) (ap (λ o. jump_to o s) f.lands.lands))
        (pads-Steps after_call (lines_of program) f.lands.pads _ s f.lands.only)

  -- The end of the statement `s`, which stands behind `before`.
  Ends-Sim :
      (before : List Node) (s : Node) (ss : List Node) (env : Env) (out : List ℕ) (m : Mach)
      → program ≡ before ++ s ∷ ss
      → (f : Flow) {c' : Config} (st : List ℕ)
      → Ends after_call
          (lines_of program)
          m
          st
          (compile_program ss (compile_ast s (compile_program before 0).label_no).label_no).code
          env
          out
          f
      → continue program ss env out f ≡ some c'
      → Goal m c'
  unfolding compile_program
  Ends-Sim before s ss env out m split (fall env' out') st e q =
      let split' : program ≡ (before ++ s ∷ []) ++ ss =
        split ∙ sym (append_assoc before (s ∷ []) ss) in
      let ok' : IsProgram (before ++ s ∷ []) =
        IsProgram-left (before ++ s ∷ []) ss (subst IsProgram split' ok) in
      rw (← some-injective _ _ q) (
        at _ e.final,
        e.runs,
        record {
          before = before ++ s ∷ [];
          split = split';
          place = ap (λ j. (compile_program ss j).code) (sym (snoc-label_no before s 0 ok'));
          frame = e.frame;
          printed = e.printed;
        },
      )
  Ends-Sim before s ss env out m split (jump l) st e q = elim (Option-cases (find_stmt l program)) [
    | inl p ↦ cc
    | inr (to, p) ↦
        let f = find_stmt-Found l program 0 to ok p in
        rw (← some-injective _ _ (rw p at q)) (
          at _ e.1.final,
          Steps-trans after_call (lines_of program) e.1.runs (jump-step l e.0 e.1.final to f),
          record {
            before = f.before;
            split = f.split;
            place = refl;
            frame = e.1.frame;
            printed = e.1.printed;
          },
        )
  ]

  -- One step of the program is some steps of the machine.
  step_stmts-Sim :
      (rest : List Node) (env : Env) (out : List ℕ) (c' : Config) (m : Mach)
      → Sim (config rest env out) m
      → step_stmts program rest env out ≡ some c'
      → Goal m c'
  unfolding step_stmts
  step_stmts-Sim [] env out c' m sim e = cc
  step_stmts-Sim (s ∷ ss) env out c' m sim e =
      let n = (compile_program sim.before 0).label_no in
      let ok' : IsProgram (sim.before ++ s ∷ ss) = subst IsProgram sim.split ok in
      let hs : IsStmt s = (IsProgram-right sim.before (s ∷ ss) ok').0 in
      let place : m.rest
          ≡ (compile_ast s n).code ++ (compile_program ss (compile_ast s n).label_no).code =
        sim.place ∙ cons-code s ss n hs in
      let loc : find_c n (lines_of program)
          ≡ find_c n
              ((compile_ast s n).code ++ (compile_program ss (compile_ast s n).label_no).code) =
        ap (λ p. find_c n (compile_program p 0).code) sim.split
        ∙ ap (find_c n) (append-code sim.before (s ∷ ss) 0 ok')
        ∙ program-find_c sim.before 0 n _ (IsProgram-left sim.before (s ∷ ss) ok') (omega arith)
        ∙ ap (find_c n) (cons-code s ss n hs) in
      elim (Option-cases (run_stmt env out s)) [
        | inl p ↦ cc
        | inr (f, p) ↦
            Ends-Sim sim.before s ss env out m sim.split f m.state.stack
              (subst
                (λ r.
                  Ends after_call (lines_of program) (at r m.state) m.state.stack
                    (compile_program ss (compile_ast s n).label_no).code env out f)
                (sym place)
                (compile_ast-Ends after_call (lines_of program) s n env out f _ m.state hs sim.frame
                  sim.printed p loc))
              (rw p at e)
      ]

  Runs-Sim : {c c' : Config} (m : Mach) → Sim c m → Runs program c c' → Goal m c'
  Runs-Sim m sim Runs.here = (m, here, sim)
  Runs-Sim m sim (Runs.next {a} r e) =
      let (m₁, s₁, sim₁) = Runs-Sim m sim r in
      let (m₂, s₂, sim₂) = step_stmts-Sim a.rest a.env a.out _ m₁ sim₁ e in
      (m₂, Steps-trans after_call (lines_of program) s₁ s₂, sim₂)

  -- A program of statements that the parser builds and that runs to its end: its lines, started with
  -- the variables' values in the frame, run to their end, print the same numbers in order, and leave
  -- the values that the variables then have in the frame, whatever printf does to the registers.
  pub compile_program-Runs :
      (env env' : Env) (out : List ℕ) (s : State)
      → Agrees env s.slots
      → s.out ≡ []
      → Runs program (config program env []) (config [] env' out)
      → (s' : State) × Steps after_call (lines_of program) (at (lines_of program) s) (at [] s')
        × (s'.out ≡ out)
        × Agrees env' s'.slots
  unfolding compile_program
  compile_program-Runs env env' out s ag po r =
      let start : Sim (config program env []) (at (lines_of program) s) = record {
        before = [];
        split = refl;
        place = refl;
        frame = ag;
        printed = po;
      } in
      let (m, st, sim) = Runs-Sim (at (lines_of program) s) start r in
      (
        m.state,
        subst (λ k. Steps after_call (lines_of program) (at (lines_of program) s) (at k m.state))
            sim.place st,
        sim.printed,
        sim.frame,
      )
