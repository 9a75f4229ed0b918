-- ===== src/Jvm/Tests.antt =====
-- A class file whose main prints sub(5, 3) and a count, run; and the theorems at inputs that meet
-- their hypotheses.
use cs_24_coursework.Prelude.{
  ℕ, ◌+◌, ◌*◌, ◌≡◌, refl, none, some, List, [], ◌∷◌, ◌++◌, arith, length, drop,
}
use mathlib.Core.List.{reverse}
use cs_24_coursework.Word.{add_w, sub_w, slt}
use cs_24_coursework.Jvm.ClassFile.{
  Text, utf8, method_ref, name_and_type, Method, ClassFile, find_method, find_method_from_index,
  get_number_of_parameters,
}
use cs_24_coursework.Jvm.Bytes.{int8, int16, sipush_value, branch_offset, sipush_value-int16}
use cs_24_coursework.Jvm.Execute.{
  arithmetic, compare, conditional_jump, Result, done, Outcome, pass_arguments, malloc_locals,
  execute,
}
use cs_24_coursework.Jvm.Execute.Frames.{JumpTarget, conditional_jump-target}
use cs_24_coursework.Jvm.Execute.Calls.{pass_arguments-in_order}
use cs_24_coursework.Jvm.Execute.Dispatch.{
  frame, ArithmeticTable, ComparisonTable, ZeroTable, step-arithmetic, step-if_icmp, step-if,
}
use cs_24_coursework.Jvm.Lookup.{Finds, find_method-Finds}

abbrev sub_name : Text
sub_name = b's' ∷ b'u' ∷ b'b' ∷ []

abbrev sub_descriptor : Text
sub_descriptor = b'(' ∷ b'I' ∷ b'I' ∷ b')' ∷ b'I' ∷ []

abbrev main_name : Text
main_name = b'm' ∷ []

-- iload_0, iload_1, isub, ireturn
abbrev sub : Method
sub = record {
  name = sub_name;
  descriptor = sub_descriptor;
  max_stack = 2;
  max_locals = 2;
  code = 0x1a ∷ 0x1b ∷ 0x64 ∷ 0xac ∷ [];
}

-- getstatic, iconst_5, iconst_3, invokestatic 1, invokevirtual;
-- bipush 2, istore_1, L: getstatic, iload_1, invokevirtual, iinc 1 -1, iload_1, ifgt L, return
abbrev main : Method
main = record {
  name = main_name;
  descriptor = [];
  max_stack = 2;
  max_locals = 2;
  code =
      0xb2 ∷ 0 ∷ 0 ∷ 8 ∷ 6 ∷ 0xb8 ∷ 0 ∷ 1 ∷ 0xb6 ∷ 0 ∷ 0 ∷ 0x10 ∷ 2 ∷ 0x3c ∷ 0xb2 ∷ 0 ∷ 0 ∷ 0x1b
      ∷ 0xb6 ∷ 0 ∷ 0 ∷ 0x84 ∷ 1 ∷ 255 ∷ 0x1b ∷ 0x9d ∷ 0xff ∷ 0xf5 ∷ 0xb1 ∷ [];
}

abbrev class : ClassFile
class = record {
  constant_pool = method_ref 0 2 ∷ name_and_type 3 4 ∷ utf8 sub_name ∷ utf8 sub_descriptor ∷ [];
  methods = main ∷ sub ∷ [];
}

uninitialised : ℕ → ℕ
uninitialised i = 99

run_main : ℕ → Result Outcome
unfolding execute find_method_from_index get_number_of_parameters conditional_jump arithmetic
    compare pass_arguments malloc_locals uninitialised int8 sipush_value branch_offset sub_w add_w
    slt
run_main n = execute uninitialised class n main (frame 0 [] (0 ∷ 0 ∷ [])) []

main_prints : run_main 40 ≡ done (none, 2 ∷ 2 ∷ 1 ∷ [])
unfolding run_main
main_prints = refl

sipush_value-int16_example : sipush_value 0xff 0xfe ≡ int16 (0xff * 256 + 0xfe)
sipush_value-int16_example = sipush_value-int16 0xff 0xfe (omega arith) (omega arith)

abbrev args : List ℕ
args = 5 ∷ 3 ∷ []

abbrev fresh : List ℕ
fresh = 99 ∷ 99 ∷ 99 ∷ []

pass_arguments-in_order_example :
    pass_arguments (length args) (reverse args ++ 7 ∷ []) fresh
    ≡ some (7 ∷ [], args ++ drop (length args) fresh)
pass_arguments-in_order_example = pass_arguments-in_order args (7 ∷ []) fresh (omega arith)

find_method-Finds_example :
    Finds sub_name sub_descriptor class.methods (find_method sub_name sub_descriptor class.methods)
find_method-Finds_example = find_method-Finds sub_name sub_descriptor class.methods

step-arithmetic_example : ArithmeticTable sub class 2 5 3 [] args
step-arithmetic_example = step-arithmetic sub class 2 5 3 [] args

step-if_icmp_example : ComparisonTable main class 25 5 3 [] args
step-if_icmp_example = step-if_icmp main class 25 5 3 [] args

step-if_example : ZeroTable main class 25 5 3 [] args
step-if_example = step-if main class 25 5 3 [] args

conditional_jump-target_example : JumpTarget main (frame 25 [] args) 0xff 0xf5
conditional_jump-target_example =
    conditional_jump-target main (frame 25 [] args) 0xff 0xf5 refl refl (omega arith) (omega arith)
      (omega arith) (omega arith)
