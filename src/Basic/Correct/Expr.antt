-- ===== src/Basic/Correct/Expr.antt =====
-- The lines that compile_ast prints for an expression.
use cs_24_coursework.Prelude.{
  ℕ, ◌≡◌, ◌≢◌, refl, ap, ◌∙◌, inl, inr, Option, none, some, List, [], ◌∷◌, ◌++◌, append_assoc,
  arith, Option-cases,
}
use mathlib.Core.Path.{ap₂}
use native.Mathlib.Decide.{ℕ_discrete}
use mathlib.Core.Option.{some-injective}
use cs_24_coursework.Word.{half64, sdiv, srem}
use cs_24_coursework.Word.Laws.{add_w_comm, mul_w_comm}
use cs_24_coursework.Basic.Ast.{Node, num, binary_op, var, print, let_var, label, goto, cond}
use cs_24_coursework.Basic.Compile.{
  Instr, mov_imm_rax, load_rax, jmp_l, je_c, push_rax, pop_rdi, var_offset, operator_code,
  compare_code, compile_ast,
}
use cs_24_coursework.Basic.Machine.{
  Regs, State, Mach, at, Steps, here, next, step_lines, operate, go_on, pop,
}
use cs_24_coursework.Basic.Semantics.{Env, ◌>>=◌, apply, eval, IsVar, IsExpr}

-- The frame holds the variables.
abbrev pub Agrees : Env → (ℕ → ℕ) → Type 0
Agrees env slots = (x : ℕ) → IsVar x → slots (var_offset x) ≡ env x

-- `s'` differs from `s` in the registers only.
pub record Keeps (s s' : State) : Type 0 where
  pub slots : s'.slots ≡ s.slots
  pub stack : s'.stack ≡ s.stack
  pub out : s'.out ≡ s.out

module _ (after_call : List ℕ → Regs) (whole : List Instr) where
  pub Steps-trans :
      {a b c : Mach}
      → Steps after_call whole a b
      → Steps after_call whole b c
      → Steps after_call whole a c
  Steps-trans p here = p
  Steps-trans p (next q e) = next (Steps-trans p q) e

  pub one :
      {a b : Mach}
      → step_lines after_call whole a.rest a.state ≡ some b
      → Steps after_call whole a b
  one e = next here e

  -- After the lines `c` the value v is in %rax, and nothing but registers has changed.
  pub record Yields (c k : List Instr) (s : State) (v : ℕ) : Type 0 where
    pub final : State
    pub runs : Steps after_call whole (at (c ++ k) s) (at k final)
    pub value : final.rax ≡ v
    pub keeps : Keeps s final

  straight :
      (i : Instr) (k : List Instr) (s : State) {t : State}
      → operate after_call i s ≡ some t
      → step_lines after_call whole (i ∷ k) s ≡ some (at k t)
  unfolding step_lines operate
  straight (jmp_l l) k s e = cc
  straight (je_c j) k s e = cc
  straight i k s e = ap (go_on k) e

  -- The lines of `c` in turn, with no jump.
  pub operate_all : List Instr → State → Option State
  operate_all [] s = some s
  operate_all (i ∷ c) s = do t ← operate after_call i s; operate_all c t

  pub operate_all-Steps :
      (c k : List Instr) (s : State) {t : State}
      → operate_all c s ≡ some t
      → Steps after_call whole (at (c ++ k) s) (at k t)
  unfolding operate_all
  operate_all-Steps [] k s e = rw (some-injective _ _ e) here
  operate_all-Steps (i ∷ c) k s {t} e = elim (Option-cases (operate after_call i s)) [
    | inl p ↦ cc
    | inr (u, p) ↦ Steps-trans (one (straight i (c ++ k) s p)) (operate_all-Steps c k u (rw p at e))
  ]

  abbrev Outcome : State → ℕ → Option State → Type 0
  Outcome s v none = ⊥
  Outcome s v (some t) = (t.rax ≡ v) × Keeps s t

  Outcome-Yields :
      (c k : List Instr) (s : State) (v : ℕ) → Outcome s v (operate_all c s) → Yields c k s v
  Outcome-Yields c k s v h = go (operate_all c s) refl h
    where
      go : (o : Option State) → operate_all c s ≡ o → Outcome s v o → Yields c k s v
      go none e h = absurd h
      go (some t) e h = record {
        final = t;
        runs = operate_all-Steps c k s e;
        value = h.0;
        keeps = h.1;
      }

  abbrev Operates : ℕ → Type 0
  Operates op =
      (v : ℕ) (s : State)
      → apply op s.rdi s.rax ≡ some v
      → Outcome s v (operate_all (operator_code op) s)

  operate_div : Operates b'/'
  unfolding operate_all apply operator_code operate sdiv srem
  operate_div v s e = ground arith

  operate_add : Operates b'+'
  unfolding operate_all apply operator_code compare_code operate
  operate_add v s e = ground (arith, add_w_comm half64 s.rax s.rdi)

  operate_sub : Operates b'-'
  unfolding operate_all apply operator_code compare_code operate
  operate_sub v s e = ground arith

  operate_mul : Operates b'*'
  unfolding operate_all apply operator_code compare_code operate
  operate_mul v s e = ground (arith, mul_w_comm half64 s.rax s.rdi)

  operate_lt : Operates b'<'
  unfolding operate_all apply operator_code compare_code operate
  operate_lt v s e = ground arith

  operate_gt : Operates b'>'
  unfolding operate_all apply operator_code compare_code operate
  operate_gt v s e = ground arith

  operate_eq : Operates b'='
  unfolding operate_all apply operator_code compare_code operate
  operate_eq v s e = ground arith

  operate_other :
      (op : ℕ)
      → op ≢ b'+'
      → op ≢ b'-'
      → op ≢ b'*'
      → op ≢ b'/'
      → op ≢ b'<'
      → op ≢ b'>'
      → op ≢ b'='
      → Operates op
  unfolding apply
  operate_other op h₁ h₂ h₃ h₄ h₅ h₆ h₇ v s e = absurd (ground arith)

  operate_any : (op : ℕ) → Operates op
  operate_any op = elim (ℕ_discrete op b'+') [
    | yes p ↦ rw p operate_add
    | no h₁ ↦ elim (ℕ_discrete op b'-') [
      | yes p ↦ rw p operate_sub
      | no h₂ ↦ elim (ℕ_discrete op b'*') [
        | yes p ↦ rw p operate_mul
        | no h₃ ↦ elim (ℕ_discrete op b'/') [
          | yes p ↦ rw p operate_div
          | no h₄ ↦ elim (ℕ_discrete op b'<') [
            | yes p ↦ rw p operate_lt
            | no h₅ ↦ elim (ℕ_discrete op b'>') [
              | yes p ↦ rw p operate_gt
              | no h₆ ↦ elim (ℕ_discrete op b'=') [
                | yes p ↦ rw p operate_eq
                | no h₇ ↦ operate_other op h₁ h₂ h₃ h₄ h₅ h₆ h₇
              ]
            ]
          ]
        ]
      ]
    ]
  ]

  Keeps-trans : {s t u : State} → Keeps s t → Keeps t u → Keeps s u
  Keeps-trans p q = record {
    slots = q.slots ∙ p.slots;
    stack = q.stack ∙ p.stack;
    out = q.out ∙ p.out;
  }

  push-step :
      (k : List Instr) (s : State)
      → Steps after_call whole (at (push_rax ∷ k) s) (at k (record s { stack = s.rax ∷ s.stack }))
  unfolding step_lines operate
  push-step k s = one refl

  pop-step :
      (k : List Instr) (s : State) {a : ℕ} {st : List ℕ}
      → s.stack ≡ a ∷ st
      → Steps after_call whole (at (pop_rdi ∷ k) s) (at k (record s { rdi = a; stack = st }))
  unfolding step_lines operate
  pop-step k s e = one (ap (λ x. go_on k (pop x s)) e)

  -- The left value waits on the stack while the right one is computed.
  binary-Yields :
      (ca cb : List Instr) (op a b v : ℕ) (k : List Instr) (s : State)
      → ((k' : List Instr) → Yields ca k' s a)
      → ((k' : List Instr) (t : State) → t.slots ≡ s.slots → Yields cb k' t b)
      → apply op a b ≡ some v
      → Yields (ca ++ push_rax ∷ (cb ++ pop_rdi ∷ operator_code op)) k s v
  binary-Yields ca cb op a b v k s left right e = record {
    final = yo.final;
    runs =
        rw (append_assoc, append_assoc)
          (Steps-trans ya.runs (
            Steps-trans (push-step _ ya.final)
              (Steps-trans yb.runs (Steps-trans (pop-step _ yb.final yb.keeps.stack) yo.runs))));
    value = yo.value;
    keeps = record {
      slots = yo.keeps.slots ∙ yb.keeps.slots ∙ ya.keeps.slots;
      stack = yo.keeps.stack ∙ ya.keeps.stack;
      out = yo.keeps.out ∙ yb.keeps.out ∙ ya.keeps.out;
    };
  }
    where
      ya : Yields ca (push_rax ∷ (cb ++ (pop_rdi ∷ (operator_code op ++ k)))) s a
      ya = left _

      pushed : State
      pushed = record (ya.final) { stack = ya.final.rax ∷ ya.final.stack }

      yb : Yields cb (pop_rdi ∷ (operator_code op ++ k)) pushed b
      yb = right _ pushed ya.keeps.slots

      popped : State
      popped = record (yb.final) { rdi = ya.final.rax; stack = ya.final.stack }

      yo : Yields (operator_code op) k popped v
      yo =
          Outcome-Yields _ k popped v
            (operate_any op v popped (ap₂ (apply op) ya.value yb.value ∙ e))

  -- The lines of an expression that the parser builds and that has a value, run in a frame that holds
  -- the variables: they end in front of whatever lines follow with the value in %rax, and change
  -- neither the frame nor the stack nor the output.
  pub compile_ast-Yields :
      (e : Node) (n : ℕ) (env : Env) (k : List Instr) (s : State) (v : ℕ)
      → IsExpr e
      → Agrees env s.slots
      → eval env e ≡ some v
      → Yields (compile_ast e n).code k s v
  unfolding compile_ast eval operate_all operate
  compile_ast-Yields (num w) n env k s v we ag ev =
      Outcome-Yields (mov_imm_rax w ∷ []) k s v (ground arith)
  compile_ast-Yields (var x) n env k s v we ag ev =
      Outcome-Yields (load_rax (var_offset x) ∷ []) k s v (ground (arith, ag x we))
  compile_ast-Yields (binary_op op l r) n env k s v we ag ev = elim (Option-cases (eval env l)) [
    | inl p ↦ cc
    | inr (a, p) ↦ elim (Option-cases (eval env r)) [
      | inl q ↦ ground arith
      | inr (b, q) ↦
          binary-Yields _ _ op a b v k s (λ k'. compile_ast-Yields l n env k' s a we.1 ag p)
            (λ k' t same. compile_ast-Yields r _ env k' t b we.2 (λ x h. rw same (ag x h)) q)
            (ground arith)
    ]
  ]
  compile_ast-Yields (print e) n env k s v we ag ev = absurd we
  compile_ast-Yields (let_var x e) n env k s v we ag ev = absurd we
  compile_ast-Yields (label l) n env k s v we ag ev = absurd we
  compile_ast-Yields (goto l) n env k s v we ag ev = absurd we
  compile_ast-Yields (cond c e) n env k s v we ag ev = absurd we
