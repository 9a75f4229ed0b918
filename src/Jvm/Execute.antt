-- ===== src/Jvm/Execute.antt =====
-- project01-kweng/jvm.c: the functions of the arithmetic and comparison tables, conditional_jump,
-- and execute. Signed overflow wraps, as in the compiled code; a division that traps is a
-- fault.
pub mod Frames
pub mod Dispatch
pub mod Calls
use cs_24_coursework.Prelude.{
  ℕ, zero, suc, ◌+◌, ◌-◌, ◌*◌, ◌/◌, ◌%◌, ◌^◌, Bool, true, false, not, ◌&&◌, ◌||◌, Option, none,
  some, List, [], ◌∷◌, ◌++◌, ltb, leb, ◌==◌, if◌then◌else◌, get_elem?,
}
use cs_24_coursework.Word.{half32, add_w, sub_w, mul_w, sdiv, srem, slt}
use cs_24_coursework.Jvm.ClassFile.{
  Constant, integer, Method, ClassFile, ◌>>=◌, get_constant, get_number_of_parameters, find_method,
  find_method_from_index,
}
use cs_24_coursework.Jvm.Bytes.{int8, index16, sipush_value, branch_offset}
use cs_24_coursework.Jvm.Frame.{Frame, push, pop, store, operand, skip, advance}
use cs_24_coursework.Jvm.Opcode.{
  i_iconst_m1, i_iconst_5, i_bipush, i_sipush, i_ldc, i_iload, i_iload_0, i_iload_3, i_istore,
  i_istore_0, i_istore_3, i_iadd, i_isub, i_imul, i_idiv, i_irem, i_ineg, i_iinc, i_ifeq, i_ifle,
  i_if_icmpeq, i_if_icmple, i_goto, i_ireturn, i_return, i_getstatic, i_invokevirtual,
  i_invokestatic,
}

abbrev pub const_offset : ℕ
const_offset = 0x3

abbrev pub load_offset : ℕ
load_offset = 0x1a

abbrev pub store_offset : ℕ
store_offset = 0x3b

abbrev pub arithmetic_offset : ℕ
arithmetic_offset = 0x60

abbrev pub jump_zero_offset : ℕ
jump_zero_offset = 0x99

abbrev pub jump_offset : ℕ
jump_offset = 0x9f

-- arithmetic[k](a, b), for the table {add, subtract, multiply, divide, remain}.
unfoldable pub arithmetic : ℕ → ℕ → ℕ → Option ℕ
arithmetic k a b =
    if k == 0
    then some (add_w half32 a b)
    else if k == 1
    then some (sub_w half32 a b)
    else if k == 2
    then some (mul_w half32 a b)
    else if k == 3
    then sdiv half32 a b
    else if k == 4
    then srem half32 a b
    else none

-- compare[k](a, b), for the table {eq, ne, lt, ge, gt, le}.
unfoldable pub compare : ℕ → ℕ → ℕ → Option Bool
compare k a b =
    if k == 0
    then some (a == b)
    else if k == 1
    then some (not (a == b))
    else if k == 2
    then some (slt half32 a b)
    else if k == 3
    then some (not (slt half32 a b))
    else if k == 4
    then some (slt half32 b a)
    else if k == 5
    then some (not (slt half32 b a))
    else none

-- The new pc, before the pc++ of the loop. Only a jump that is taken reads its two bytes.
unfoldable pub conditional_jump : Bool → Method → Frame → Option Frame
conditional_jump false m f = some (skip 2 f)
conditional_jump true m f = do
  hi ← operand m f 1
  lo ← operand m f 2
  some (record f { pc = (f.pc + branch_offset hi lo + 2 ^ 64 - 1) % 2 ^ 64 })

abbrev integer_bytes : Constant → Option ℕ
integer_bytes (integer v) = some v
integer_bytes _ = none

abbrev load_local : Method → ℕ → Frame → Option Frame
load_local m i f = do v ← get_elem? f.locals i; push m v f

abbrev store_local : ℕ → Frame → Option Frame
store_local i f = do
  (v, s) ← pop f.stack
  ls ← store f.locals i v
  some (record f { stack = s; locals = ls })

-- A constant that is no CONSTANT_Integer, whose bytes the code reads all the same, is a fault.
abbrev exec_ldc : Method → ClassFile → Frame → Option Frame
exec_ldc m c f = do
  index ← operand m f 1
  constant ← get_constant c.constant_pool index
  v ← integer_bytes constant
  push m v (skip 1 f)

abbrev exec_arithmetic : ℕ → Frame → Option Frame
exec_arithmetic op f = do
  (b, s) ← pop f.stack
  (a, s') ← pop s
  v ← arithmetic ((op - arithmetic_offset) / 4) a b
  some (record f { stack = v ∷ s' })

abbrev exec_iinc : Method → Frame → Option Frame
exec_iinc m f = do
  i ← operand m f 1
  d ← operand m f 2
  v ← get_elem? f.locals i
  ls ← store f.locals i (add_w half32 v (int8 d))
  some (skip 2 (record f { locals = ls }))

abbrev exec_if : Method → ℕ → Frame → Option Frame
exec_if m op f = do
  (a, s) ← pop f.stack
  t ← compare (op - jump_zero_offset) a 0
  conditional_jump t m (record f { stack = s })

abbrev exec_if_icmp : Method → ℕ → Frame → Option Frame
exec_if_icmp m op f = do
  (b, s) ← pop f.stack
  (a, s') ← pop s
  t ← compare (op - jump_offset) a b
  conditional_jump t m (record f { stack = s' })

abbrev between : ℕ → ℕ → ℕ → Bool
between lo hi op = leb lo op && leb op hi

-- The cases of the switch that neither return, print nor call, up to the pc++ behind it.
unfoldable pub step : Method → ClassFile → ℕ → Frame → Option Frame
step m c op f =
    if between i_iconst_m1 i_iconst_5 op
    then push m ((op + 2 ^ 32 - const_offset) % 2 ^ 32) f
    else if op == i_bipush
    then (do b ← operand m f 1; push m (int8 b) (skip 1 f))
    else if op == i_sipush
    then (do hi ← operand m f 1; lo ← operand m f 2; push m (sipush_value hi lo) (skip 2 f))
    else if op == i_ldc
    then exec_ldc m c f
    else if op == i_iload
    then (do i ← operand m f 1; load_local m i (skip 1 f))
    else if between i_iload_0 i_iload_3 op
    then load_local m (op - load_offset) f
    else if op == i_istore
    then (do i ← operand m f 1; store_local i (skip 1 f))
    else if between i_istore_0 i_istore_3 op
    then store_local (op - store_offset) f
    else if (op == i_iadd) || (op == i_isub) || (op == i_imul) || (op == i_idiv) || (op == i_irem)
    then exec_arithmetic op f
    else if op == i_ineg
    then (do (a, s) ← pop f.stack; some (record f { stack = mul_w half32 a (2 ^ 32 - 1) ∷ s }))
    else if op == i_iinc
    then exec_iinc m f
    else if between i_ifeq i_ifle op
    then exec_if m op f
    else if between i_if_icmpeq i_if_icmple op
    then exec_if_icmp m op f
    else if op == i_goto
    then conditional_jump true m f
    else if op == i_getstatic
    then some (skip 2 f)
    else some f

pub data Result (A : Type 0) : Type 0 where
  done : A → Result A
  fault out_of_fuel : Result A

abbrev pub and_then : {A B : Type 0} → Result A → (A → Result B) → Result B
and_then (done a) k = k a
and_then fault k = fault
and_then out_of_fuel k = out_of_fuel

abbrev pub checked : {A : Type 0} → Option A → Result A
checked none = fault
checked (some a) = done a

-- What execute gives back, NULL or a pointer to an int, and the values printed so far.
abbrev pub Outcome : Type 0
Outcome = Option ℕ × List ℕ

-- The loop that moves the arguments: the k topmost values become locals k - 1 down to 0.
unfoldable pub pass_arguments : ℕ → List ℕ → List ℕ → Option (List ℕ × List ℕ)
pass_arguments zero stack locals_new = some (stack, locals_new)
pass_arguments (suc k) stack locals_new = do
  (v, s) ← pop stack
  ls ← store locals_new k v
  pass_arguments k s ls

-- `uninitialised i` is what malloc leaves at index i of a new array.
module _ (uninitialised : ℕ → ℕ) (class : ClassFile) where
  unfoldable pub malloc_locals : ℕ → ℕ → List ℕ
  malloc_locals zero i = []
  malloc_locals (suc n) i = uninitialised i ∷ malloc_locals n (i + 1)

  abbrev push_result : Method → Option ℕ → Frame → Option Frame
  push_result m none f = some f
  push_result m (some v) f = push m v f

  -- One round of the loop; `again` is the rest of the loop, or a call of execute.
  module _ (again : Method → Frame → List ℕ → Result Outcome) (m : Method) where
    abbrev proceed : List ℕ → Option Frame → Result Outcome
    proceed out f = and_then (checked f) λ f'. again m (advance f') out

    unfoldable pub print_top : Frame → List ℕ → Result Outcome
    print_top f out =
        and_then (checked (pop f.stack))
          λ top. proceed (out ++ top.0 ∷ []) (some (skip 2 (record f { stack = top.1 })))

    unfoldable pub find_callee : Frame → Option Method
    find_callee f = do
      hi ← operand m f 1
      lo ← operand m f 2
      found ← find_method_from_index (index16 hi lo) class
      found

    unfoldable pub invoke : Frame → List ℕ → Result Outcome
    unfolding find_callee
    invoke f out = and_then (checked (find_callee f)) λ callee.
        and_then
          (checked (
            pass_arguments (get_number_of_parameters callee) f.stack
              (malloc_locals callee.max_locals 0)))
          λ passed.
            and_then (again callee (record { pc = 0; stack = []; locals = passed.1 }) out)
              λ back. proceed back.1 (push_result m back.0 (skip 2 (record f { stack = passed.0 })))

    unfoldable pub round : Frame → List ℕ → ℕ → Result Outcome
    unfolding print_top invoke step
    round f out op =
        if op == i_return
        then done (none, out)
        else if op == i_ireturn
        then and_then (checked (pop f.stack)) (λ top. done (some top.0, out))
        else if op == i_invokevirtual
        then print_top f out
        else if op == i_invokestatic
        then invoke f out
        else proceed out (step m class op f)

  -- The fuel bounds the rounds of the loop and the depth of the calls.
  unfoldable pub execute : ℕ → Method → Frame → List ℕ → Result Outcome
  unfolding round
  execute zero m f out = out_of_fuel
  execute (suc n) m f out = and_then (checked (get_elem? m.code f.pc)) (round (execute n) m f out)
