-- ===== src/Basic/Machine.antt =====
-- The x86-64 machine that runs the lines of `Basic.Compile`, as far as compile_ast uses it: four
-- registers, the operands of the last comparison, the words at -offset(%rbp), the stack below the
-- frame, and the values that print_int (project03-kweng/src/compiler.c, header) has printed.
-- A jump goes to the line behind the first label of that name, as the assembler resolves it.
use cs_24_coursework.Prelude.{
  ℕ, ◌-◌, ◌+◌, ◌≡◌, Bool, Option, none, some, List, [], ◌∷◌, ◌++◌, ◌==◌, if◌then◌else◌,
}
use cs_24_coursework.Word.{half64, add_w, sub_w, mul_w, slt, sdiv, srem, is_neg}
use cs_24_coursework.Basic.Ast.{Text, text_eq}
use cs_24_coursework.Basic.Compile.{
  Instr, mov_imm_rax, mov_rax_rdi, mov_rax_rsi, mov_rdi_rax, call_print_int, load_rax, store_rax,
  push_rax, pop_rdi, addq_rdi_rax, subq_rax_rdi, imulq_rdi_rax, cqto, idiv_rsi, cmp_rax_rdi,
  mov_0_rax, mov_1_rsi, cmovl_rsi_rax, cmovg_rsi_rax, cmove_rsi_rax, label_l, jmp_l, test_rax_rax,
  je_c, label_c,
}

-- The registers that a callee may change.
pub record Regs : Type 0 where
  pub rax : ℕ
  pub rdi : ℕ
  pub rsi : ℕ
  pub rdx : ℕ
  pub left : ℕ
  pub right : ℕ

pub record State : Type 0 where
  pub rax : ℕ
  pub rdi : ℕ
  pub rsi : ℕ
  pub rdx : ℕ
  pub left : ℕ
  pub right : ℕ
  pub slots : ℕ → ℕ
  pub stack : List ℕ
  pub out : List ℕ

-- The lines that are still to run, and the state.
pub record Mach : Type 0 where
  pub rest : List Instr
  pub state : State

abbrev pub at : List Instr → State → Mach
at k s = record { rest = k; state = s }

abbrev pub update : (ℕ → ℕ) → ℕ → ℕ → ℕ → ℕ
update f p v q = if p == q then v else f q

unfoldable pub find_l : Text → List Instr → Option (List Instr)
find_l l [] = none
find_l l (label_l t ∷ k) = if text_eq t l then some k else find_l l k
find_l l (i ∷ k) = find_l l k

unfoldable pub find_c : ℕ → List Instr → Option (List Instr)
find_c n [] = none
find_c n (label_c j ∷ k) = if j == n then some k else find_c n k
find_c n (i ∷ k) = find_c n k

abbrev pub sign_extension : ℕ → ℕ
sign_extension a = if is_neg half64 a then half64 + half64 - 1 else 0

-- idivq %rsi divides %rdx:%rax; `none` is the divide error, and also a %rdx that cqto did not set.
abbrev pub idiv : State → Option State
idiv s =
    if s.rdx == sign_extension s.rax
    then (elim (sdiv half64 s.rax s.rsi) [
      | none ↦ none
      | some q ↦ elim (srem half64 s.rax s.rsi) [
        | none ↦ none
        | some r ↦ some (record s { rax = q; rdx = r })
      ]
    ])
    else none

abbrev pub cmov : Bool → State → Option State
cmov b s = some (record s { rax = if b then s.rsi else s.rax })

abbrev pub pop : List ℕ → State → Option State
pop [] s = none
pop (v ∷ st) s = some (record s { rdi = v; stack = st })

abbrev pub jump_to : Option (List Instr) → State → Option Mach
jump_to none s = none
jump_to (some k) s = some (at k s)

abbrev pub go_on : List Instr → Option State → Option Mach
go_on k none = none
go_on k (some s) = some (at k s)

-- `after_call out` is what the call of printf leaves in the registers that it may change.
module _ (after_call : List ℕ → Regs) where
  abbrev pub print_int : State → State
  print_int s =
      let r = after_call s.out in
      record s {
        rax = r.rax;
        rdi = r.rdi;
        rsi = r.rsi;
        rdx = r.rdx;
        left = r.left;
        right = r.right;
        out = s.out ++ s.rdi ∷ [];
      }

  -- The instructions that do not jump.
  unfoldable pub operate : Instr → State → Option State
  operate (mov_imm_rax v) s = some (record s { rax = v })
  operate mov_rax_rdi s = some (record s { rdi = s.rax })
  operate mov_rax_rsi s = some (record s { rsi = s.rax })
  operate mov_rdi_rax s = some (record s { rax = s.rdi })
  operate call_print_int s = some (print_int s)
  operate (load_rax o) s = some (record s { rax = s.slots o })
  operate (store_rax o) s = some (record s { slots = update s.slots o s.rax })
  operate push_rax s = some (record s { stack = s.rax ∷ s.stack })
  operate pop_rdi s = pop s.stack s
  operate addq_rdi_rax s = some (record s { rax = add_w half64 s.rax s.rdi })
  operate subq_rax_rdi s = some (record s { rdi = sub_w half64 s.rdi s.rax })
  operate imulq_rdi_rax s = some (record s { rax = mul_w half64 s.rax s.rdi })
  operate cqto s = some (record s { rdx = sign_extension s.rax })
  operate idiv_rsi s = idiv s
  operate cmp_rax_rdi s = some (record s { left = s.rdi; right = s.rax })
  operate mov_0_rax s = some (record s { rax = 0 })
  operate mov_1_rsi s = some (record s { rsi = 1 })
  operate cmovl_rsi_rax s = cmov (slt half64 s.left s.right) s
  operate cmovg_rsi_rax s = cmov (slt half64 s.right s.left) s
  operate cmove_rsi_rax s = cmov (s.left == s.right) s
  operate (label_l t) s = some s
  operate (label_c j) s = some s
  operate test_rax_rax s = some (record s { left = s.rax; right = 0 })
  operate (jmp_l t) s = none
  operate (je_c j) s = none

  -- One line of the program `whole`; `none` is a fault, or the end of the lines.
  unfoldable pub step_lines : List Instr → List Instr → State → Option Mach
  step_lines whole [] s = none
  step_lines whole (jmp_l t ∷ k) s = jump_to (find_l t whole) s
  step_lines whole (je_c j ∷ k) s =
      if s.left == s.right then jump_to (find_c j whole) s else some (at k s)
  step_lines whole (i ∷ k) s = go_on k (operate i s)

  abbrev pub step : List Instr → Mach → Option Mach
  step whole m = step_lines whole m.rest m.state

  pub data Steps (whole : List Instr) (m : Mach) : Mach → Type 0 where
    here : Steps whole m m
    next : {a b : Mach} → Steps whole m a → step whole a ≡ some b → Steps whole m b
