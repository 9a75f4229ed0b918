-- ===== src/Jvm/Execute/Frames.antt =====
-- What one round of execute does to the frame.
use cs_24_coursework.Prelude.{
  ℕ, ◌+◌, ◌-◌, ◌*◌, ◌%◌, ◌^◌, ◌≤◌, ◌<◌, ◌≡◌, refl, true, false, some, ltb, if◌then◌else◌, arith,
}
use cs_24_coursework.Jvm.ClassFile.{Method}
use cs_24_coursework.Jvm.Bytes.{branch_offset, index16-bytes}
use cs_24_coursework.Jvm.Frame.{Frame, operand, skip, advance}
use cs_24_coursework.Jvm.Execute.{conditional_jump}

-- pc plus the signed 16-bit offset hi, lo, and 2 ^ 16 more, which keeps it positive.
abbrev pub raised_target : ℕ → ℕ → ℕ → ℕ
raised_target pc hi lo = pc + (hi * 256 + lo) + (if ltb hi 128 then 2 ^ 16 else 0)

-- Where a jump leaves the loop, taken and not taken; the rest of the frame stays.
abbrev pub JumpTarget : Method → Frame → ℕ → ℕ → Type 0
JumpTarget m f hi lo =
    ((f' : Frame) × (conditional_jump true m f ≡ some f')
      × (f'.stack ≡ f.stack)
      × (f'.locals ≡ f.locals)
      × ((advance f').pc + 2 ^ 16 ≡ raised_target f.pc hi lo))
    × ((f' : Frame) × (conditional_jump false m f ≡ some f')
        × (f'.stack ≡ f.stack)
        × (f'.locals ≡ f.locals)
        × ((advance f').pc ≡ f.pc + 3))

-- A taken jump goes on at pc plus the signed 16-bit offset behind the opcode, and one that is not
-- taken behind the two bytes of the offset; neither changes the stack or the locals. This is so for
-- a pc below 2^32 and a target that is not before the start of the code.
pub conditional_jump-target :
    (m : Method) (f : Frame) (hi lo : ℕ)
    → operand m f 1 ≡ some hi
    → operand m f 2 ≡ some lo
    → hi < 256
    → lo < 256
    → f.pc < 2 ^ 32
    → 2 ^ 16 ≤ raised_target f.pc hi lo
    → JumpTarget m f hi lo
unfolding conditional_jump branch_offset
conditional_jump-target m f hi lo eh el h k small from = (
  (
    record f { pc = (f.pc + branch_offset hi lo + 2 ^ 64 - 1) % 2 ^ 64 },
    ground arith,
    refl,
    refl,
    ground (arith, index16-bytes hi lo h k),
  ),
  (skip 2 f, refl, refl, refl, omega arith),
)
