-- ===== src/Basic/Correct/Stmt.antt =====
-- The lines that compile_ast prints for a statement, in their place among the program's.
use cs_24_coursework.Prelude.{
  ℕ, ◌≡◌, ◌≢◌, refl, sym, ap, ◌∙◌, inl, inr, some, List, [], ◌∷◌, ◌++◌, append_assoc, arith,
  Option-cases,
}
use native.Mathlib.Decide.{ℕ_discrete}
use mathlib.Core.Path.{ap₂}
use mathlib.Core.Option.{some-injective}
use cs_24_coursework.Basic.Ast.{Node, num, binary_op, var, print, let_var, label, goto, cond}
use cs_24_coursework.Basic.Compile.{
  Instr, mov_rax_rdi, call_print_int, store_rax, label_c, jmp_l, test_rax_rax, je_c, var_offset,
  compile_ast,
}
use cs_24_coursework.Basic.Machine.{
  Regs, State, Mach, at, Steps, here, next, step_lines, operate, print_int, find_c, update,
}
use cs_24_coursework.Basic.Semantics.{Env, assign, eval, Flow, fall, jump, run_stmt, IsVar, IsStmt}
use cs_24_coursework.Basic.Correct.Expr.{Agrees, Yields, Steps-trans, one, compile_ast-Yields}
use cs_24_coursework.Basic.Correct.Labels.{
  expr-label_no, expr-find_c, Lands, find_c-Lands, pads-Steps,
}

-- Two variables, of the letters A to Z, have two places.
pub var_offset-injective : (x y : ℕ) → IsVar x → IsVar y → var_offset x ≡ var_offset y → x ≡ y
unfolding var_offset
var_offset-injective x y h k e = omega arith

Agrees-assign :
    (env : Env) (slots : ℕ → ℕ) (x v : ℕ)
    → IsVar x
    → Agrees env slots
    → Agrees (assign env x v) (update slots (var_offset x) v)
Agrees-assign env slots x v h ag y k =
    ground (arith, ag y k, var_offset-injective x y h k, ap var_offset)

module _ (after_call : List ℕ → Regs) (whole : List Instr) where
  -- From `m` the machine reaches the lines `k` with these variables and this output.
  pub record Falls (m : Mach) (st : List ℕ) (k : List Instr) (env : Env) (out : List ℕ)
      : Type 0 where
    pub final : State
    pub runs : Steps after_call whole m (at k final)
    pub frame : Agrees env final.slots
    pub printed : final.out ≡ out
    pub stack : final.stack ≡ st

  abbrev pub Ends : Mach → List ℕ → List Instr → Env → List ℕ → Flow → Type 0
  Ends m st k env out (fall env' out') = Falls m st k env' out'
  Ends m st k env out (jump l) = (k' : List Instr) × Falls m st (jmp_l l ∷ k') env out

  -- Steps before, and steps behind a fall; `st` and `st'` are one stack.
  Ends-from :
      (a b : Mach) (st st' : List ℕ) (k k' : List Instr) (env : Env) (out : List ℕ) (f : Flow)
      → Steps after_call whole a b
      → ((final : State) → Steps after_call whole (at k final) (at k' final))
      → st ≡ st'
      → Ends b st k env out f
      → Ends a st' k' env out f
  Ends-from a b st st' k k' env out (fall env' out') p q same e = record {
    final = e.final;
    runs = Steps-trans after_call whole p (Steps-trans after_call whole e.runs (q e.final));
    frame = e.frame;
    printed = e.printed;
    stack = e.stack ∙ same;
  }
  Ends-from a b st st' k k' env out (jump l) p q same e = (
    e.0,
    record {
      final = e.1.final;
      runs = Steps-trans after_call whole p e.1.runs;
      frame = e.1.frame;
      printed = e.1.printed;
      stack = e.1.stack ∙ same;
    },
  )

  label-step :
      (j : ℕ) (k : List Instr) (s : State) → Steps after_call whole (at (label_c j ∷ k) s) (at k s)
  unfolding step_lines operate
  label-step j k s = one after_call whole refl

  store-step :
      (o : ℕ) (k : List Instr) (s : State)
      → Steps after_call whole
          (at (store_rax o ∷ k) s)
          (at k (record s { slots = update s.slots o s.rax }))
  unfolding step_lines operate
  store-step o k s = one after_call whole refl

  print-Steps :
      (k : List Instr) (s : State)
      → Steps after_call whole
          (at (mov_rax_rdi ∷ call_print_int ∷ k) s)
          (at k (print_int after_call (record s { rdi = s.rax })))
  unfolding step_lines operate
  print-Steps k s = next (one after_call whole refl) refl

  -- The test of an IF: on 0 the machine is at the lines behind the IF, else at its statement.
  je-skips :
      (j : ℕ) (k to : List Instr) (s : State)
      → s.rax ≡ 0
      → find_c j whole ≡ some to
      → Steps after_call whole
          (at (test_rax_rax ∷ je_c j ∷ k) s)
          (at to (record s { left = s.rax; right = 0 }))
  unfolding step_lines operate
  je-skips j k to s z f = next (one after_call whole refl) (rw (z, f) refl)

  je-enters :
      (j : ℕ) (k : List Instr) (s : State)
      → s.rax ≢ 0
      → Steps after_call whole
          (at (test_rax_rax ∷ je_c j ∷ k) s)
          (at k (record s { left = s.rax; right = 0 }))
  unfolding step_lines operate
  je-enters j k s z = next (one after_call whole refl) (ground arith)

  print-Falls :
      (c k : List Instr) (v : ℕ) (env : Env) (st : State)
      → Agrees env st.slots
      → Yields after_call whole c (mov_rax_rdi ∷ call_print_int ∷ k) st v
      → Falls
          (at ((c ++ mov_rax_rdi ∷ call_print_int ∷ []) ++ k) st)
          st.stack
          k
          env
          (st.out ++ v ∷ [])
  print-Falls c k v env st ag y = record {
    final = print_int after_call (record (y.final) { rdi = y.final.rax });
    runs = rw append_assoc (Steps-trans after_call whole y.runs (print-Steps k y.final));
    frame = λ x h. rw y.keeps.slots (ag x h);
    printed = ap₂ (λ o w. o ++ w ∷ []) y.keeps.out y.value;
    stack = y.keeps.stack;
  }

  let-Falls :
      (c k : List Instr) (x v : ℕ) (env : Env) (st : State)
      → IsVar x
      → Agrees env st.slots
      → Yields after_call whole c (store_rax (var_offset x) ∷ k) st v
      → Falls (at ((c ++ store_rax (var_offset x) ∷ []) ++ k) st) st.stack k (assign env x v) st.out
  let-Falls c k x v env st h ag y = record {
    final = record (y.final) { slots = update y.final.slots (var_offset x) y.final.rax };
    runs = rw append_assoc (Steps-trans after_call whole y.runs (store-step _ k y.final));
    frame = rw (y.keeps.slots, y.value) (Agrees-assign env st.slots x v h ag);
    printed = y.keeps.out;
    stack = y.keeps.stack;
  }

  -- An IF whose condition is 0.
  skip-Falls :
      (c b k : List Instr) (n : ℕ) (env : Env) (st : State)
      → Agrees env st.slots
      → Yields after_call whole c (test_rax_rax ∷ je_c n ∷ b) st 0
      → Lands (find_c n whole) k
      → Falls (at (c ++ test_rax_rax ∷ je_c n ∷ b) st) st.stack k env st.out
  skip-Falls c b k n env st ag y land = record {
    final = record (y.final) { left = y.final.rax; right = 0 };
    runs = Steps-trans after_call whole y.runs (
        Steps-trans after_call whole (je-skips n b _ y.final y.value land.lands)
          (pads-Steps after_call whole land.pads k _ land.only));
    frame = λ x h. rw y.keeps.slots (ag x h);
    printed = y.keeps.out;
    stack = y.keeps.stack;
  }

  pub compile_ast-Ends :
      (s : Node) (n : ℕ) (env : Env) (out : List ℕ) (f : Flow) (k : List Instr) (st : State)
      → IsStmt s
      → Agrees env st.slots
      → st.out ≡ out
      → run_stmt env out s ≡ some f
      → find_c n whole ≡ find_c n ((compile_ast s n).code ++ k)
      → Ends (at ((compile_ast s n).code ++ k) st) st.stack k env out f
  unfolding compile_ast run_stmt step_lines operate find_c
  compile_ast-Ends (print e) n env out f k st h ag po ev loc = elim (Option-cases (eval env e)) [
    | inl p ↦ cc
    | inr (v, p) ↦
        rw (← some-injective _ _ (rw p at ev), ← po)
          (print-Falls _ k v env st ag (compile_ast-Yields after_call whole e n env _ st v h ag p))
  ]
  compile_ast-Ends (let_var x e) n env out f k st h ag po ev loc =
      elim (Option-cases (eval env e)) [
        | inl p ↦ cc
        | inr (v, p) ↦
            rw (← some-injective _ _ (rw p at ev), ← po)
              (let-Falls _ k x v env st h.0 ag
                (compile_ast-Yields after_call whole e n env _ st v h.1 ag p))
      ]
  compile_ast-Ends (label l) n env out f k st h ag po ev loc =
      rw (← some-injective _ _ ev) (record {
        final = st;
        runs = one after_call whole refl;
        frame = ag;
        printed = po;
        stack = refl;
      })
  compile_ast-Ends (goto l) n env out f k st h ag po ev loc =
      rw (← some-injective _ _ ev)
        (k, record { final = st; runs = here; frame = ag; printed = po; stack = refl })
  compile_ast-Ends (cond c s) n env out f k st h ag po ev loc =
      let loc' : find_c n whole
          ≡ find_c n ((compile_ast s n).code ++ label_c (compile_ast s n).label_no ∷ k) =
        (rw (append_assoc, append_assoc, expr-label_no c n h.0) at loc)
        ∙ expr-find_c c n n (test_rax_rax ∷ je_c n ∷ _) h.0 in
      elim (Option-cases (eval env c)) [
        | inl p ↦ cc
        | inr (v, p) ↦
            let y = compile_ast-Yields after_call whole c n env _ st v h.0 ag p in
            rw (append_assoc, append_assoc, expr-label_no c n h.0)
              (elim (ℕ_discrete v 0) [
                | yes z ↦
                    let ev' : some (fall env out) ≡ some f = rw (p, z) at ev in
                    rw (← some-injective _ _ ev', ← po)
                      (skip-Falls (compile_ast c n).code _ k n env st ag
                        (compile_ast-Yields after_call whole c n env _ st 0 h.0 ag (p ∙ ap some z))
                        (record {
                          pads = (find_c-Lands s n k h.1).pads;
                          lands = loc' ∙ (find_c-Lands s n k h.1).lands;
                          only = (find_c-Lands s n k h.1).only;
                        }))
                | no z ↦
                    Ends-from _
                      (at ((compile_ast s n).code ++ label_c (compile_ast s n).label_no ∷ k)
                        (record (y.final) { left = y.final.rax; right = 0 }))
                      _ _ _ k env out f
                      (Steps-trans after_call whole y.runs
                        (je-enters n _ y.final (λ e. z (sym y.value ∙ e))))
                      (label-step _ k) y.keeps.stack
                      (compile_ast-Ends s n env out f _ _ h.1 (λ x i. rw y.keeps.slots (ag x i))
                        (y.keeps.out ∙ po) (ground arith) loc')
              ])
      ]
  compile_ast-Ends (num v) n env out f k st h ag po ev loc = absurd h
  compile_ast-Ends (var x) n env out f k st h ag po ev loc = absurd h
  compile_ast-Ends (binary_op op l r) n env out f k st h ag po ev loc = absurd h
