-- ===== src/Basic/Compile.antt =====
-- project03-kweng/src/compile.c: compile_ast, and the loop of main in src/compiler.c that calls it
-- on each statement. One constructor of `Instr` stands for one line that printf writes.
use cs_24_coursework.Prelude.{
  ℕ, ◌+◌, ◌-◌, ◌*◌, ◌%◌, ◌^◌, Bool, true, List, [], ◌∷◌, ◌++◌, ◌||◌, ◌==◌, if◌then◌else◌,
}
use cs_24_coursework.Basic.Ast.{Text, Node, num, binary_op, var, print, let_var, label, goto, cond}

pub data Instr : Type 0 where
  mov_imm_rax : ℕ → Instr
  mov_rax_rdi mov_rax_rsi mov_rdi_rax : Instr
  call_print_int : Instr
  load_rax store_rax : ℕ → Instr
  push_rax pop_rdi : Instr
  addq_rdi_rax subq_rax_rdi imulq_rdi_rax : Instr
  cqto idiv_rsi : Instr
  cmp_rax_rdi mov_0_rax mov_1_rsi cmovl_rsi_rax cmovg_rsi_rax cmove_rsi_rax : Instr
  label_l jmp_l : Text → Instr
  test_rax_rax : Instr
  je_c label_c : ℕ → Instr

-- What a call of compile_ast leaves: the lines that it printed, the static counter label_no and
-- its result.
pub record Emit : Type 0 where
  pub code : List Instr
  pub label_no : ℕ
  pub success : Bool

abbrev pub emit : List Instr → ℕ → Bool → Emit
emit c n b = record { code = c; label_no = n; success = b }

abbrev pub ascii_offset : ℕ
ascii_offset = b'A'

abbrev pub bytes_per_int : ℕ
bytes_per_int = 8

-- diff * bytes_per_int as the uint64_t that PRIx64 prints.
unfoldable pub var_offset : ℕ → ℕ
var_offset name = (name + 2 ^ 64 - ascii_offset) * bytes_per_int % 2 ^ 64

-- The operators of the outer switch, and those of the inner one.
abbrev pub is_arithmetic : ℕ → Bool
is_arithmetic op = (op == b'+') || ((op == b'-') || ((op == b'*') || (op == b'/')))

abbrev pub is_comparison : ℕ → Bool
is_comparison op = (op == b'<') || ((op == b'>') || (op == b'='))

unfoldable pub compare_code : ℕ → List Instr
compare_code op =
    cmp_rax_rdi
    ∷ mov_0_rax
    ∷ mov_1_rsi
    ∷ (if op == b'<'
        then cmovl_rsi_rax ∷ []
        else if op == b'>'
        then cmovg_rsi_rax ∷ []
        else if op == b'='
        then cmove_rsi_rax ∷ []
        else [])

unfoldable pub operator_code : ℕ → List Instr
operator_code op =
    if op == b'+'
    then addq_rdi_rax ∷ []
    else if op == b'-'
    then subq_rax_rdi ∷ mov_rdi_rax ∷ []
    else if op == b'*'
    then imulq_rdi_rax ∷ []
    else if op == b'/'
    then mov_rax_rsi ∷ mov_rdi_rax ∷ cqto ∷ idiv_rsi ∷ []
    else compare_code op

-- The results of the nested calls are not read.
unfoldable pub compile_ast : Node → ℕ → Emit
compile_ast (num v) n = emit (mov_imm_rax v ∷ []) n true
compile_ast (print e) n =
    let r = compile_ast e n in emit (r.code ++ mov_rax_rdi ∷ call_print_int ∷ []) r.label_no true
compile_ast (var x) n = emit (load_rax (var_offset x) ∷ []) n true
compile_ast (let_var x e) n =
    let r = compile_ast e n in emit (r.code ++ store_rax (var_offset x) ∷ []) r.label_no true
compile_ast (binary_op op l r) n =
    let a = compile_ast l n in
    let b = compile_ast r a.label_no in
    emit (a.code ++ push_rax ∷ (b.code ++ pop_rdi ∷ operator_code op)) b.label_no
      (is_arithmetic op || is_comparison op)
compile_ast (label l) n = emit (label_l l ∷ []) n true
compile_ast (goto l) n = emit (jmp_l l ∷ []) n true
compile_ast (cond c s) n =
    let a = compile_ast c n in
    let b = compile_ast s a.label_no in
    emit (a.code ++ test_rax_rax ∷ je_c a.label_no ∷ (b.code ++ label_c b.label_no ∷ []))
      (b.label_no + 1) true

-- The loop of main over the statements that parse returns; it ends the process at the first
-- statement that compile_ast refuses, after that statement's lines.
unfoldable pub compile_program : List Node → ℕ → Emit
compile_program [] n = emit [] n true
compile_program (s ∷ ss) n =
    let r = compile_ast s n in
    let t = compile_program ss r.label_no in
    if r.success then emit (r.code ++ t.code) t.label_no t.success else r
