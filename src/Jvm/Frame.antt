-- ===== src/Jvm/Frame.antt =====
-- The variables of execute in project01-kweng/jvm.c. `stack` holds stack[0] to stack[size - 1], the
-- last first. A read or write outside the arrays stack, locals and code is a fault, `none`.
use cs_24_coursework.Prelude.{
  ℕ, ◌+◌, ◌%◌, ◌^◌, Option, none, some, List, [], ◌∷◌, ltb, if◌then◌else◌, length, get_elem?, set,
}
use cs_24_coursework.Jvm.ClassFile.{Method}

pub record Frame : Type 0 where
  pub pc : ℕ
  pub stack : List ℕ
  pub locals : List ℕ

-- stack[size++] = v; a write behind the array, which the code does not check, is a fault.
abbrev pub push : Method → ℕ → Frame → Option Frame
push m v f =
    if ltb (length f.stack) m.max_stack then some (record f { stack = v ∷ f.stack }) else none

-- stack[--size]
abbrev pub pop : List ℕ → Option (ℕ × List ℕ)
pop [] = none
pop (v ∷ s) = some (v, s)

-- locals[i] = v; a write behind the array, which the code does not check, is a fault.
abbrev pub store : List ℕ → ℕ → ℕ → Option (List ℕ)
store ls i v = if ltb i (length ls) then some (set ls i v) else none

-- The byte at pc + k.
abbrev pub operand : Method → Frame → ℕ → Option ℕ
operand m f k = get_elem? m.code (f.pc + k)

abbrev pub skip : ℕ → Frame → Frame
skip k f = record f { pc = f.pc + k }

-- pc++, on a size_t.
abbrev pub advance : Frame → Frame
advance f = record f { pc = (f.pc + 1) % 2 ^ 64 }
