-- ===== src/Jvm/Execute/Dispatch.antt =====
-- The switch of execute finds its operations by offsets into tables; here each opcode is set
-- against the operation of its mnemonic.
use cs_24_coursework.Prelude.{ℕ, ◌≡◌, refl, not, Option, none, some, List, ◌∷◌, ◌==◌, arith}
use cs_24_coursework.Word.{half32, add_w, sub_w, mul_w, sdiv, srem, slt}
use cs_24_coursework.Jvm.ClassFile.{Method, ClassFile}
use cs_24_coursework.Jvm.Frame.{Frame}
use cs_24_coursework.Jvm.Opcode.{
  i_iadd, i_isub, i_imul, i_idiv, i_irem, i_ifeq, i_ifne, i_iflt, i_ifge, i_ifgt, i_ifle,
  i_if_icmpeq, i_if_icmpne, i_if_icmplt, i_if_icmpge, i_if_icmpgt, i_if_icmple,
}
use cs_24_coursework.Jvm.Execute.{step, arithmetic, compare, conditional_jump}

abbrev pub frame : ℕ → List ℕ → List ℕ → Frame
frame pc s ls = record { pc = pc; stack = s; locals = ls }

-- The topmost values replaced by a result, if there is one.
abbrev pub replaced : ℕ → Option ℕ → List ℕ → List ℕ → Option Frame
replaced pc none s ls = none
replaced pc (some v) s ls = some (frame pc (v ∷ s) ls)

module _ (m : Method) (c : ClassFile) (pc a b : ℕ) (s ls : List ℕ) where
  abbrev pub ArithmeticTable : Type 0
  ArithmeticTable =
      (step m c i_iadd (frame pc (b ∷ a ∷ s) ls) ≡ replaced pc (some (add_w half32 a b)) s ls)
      × (step m c i_isub (frame pc (b ∷ a ∷ s) ls) ≡ replaced pc (some (sub_w half32 a b)) s ls)
      × (step m c i_imul (frame pc (b ∷ a ∷ s) ls) ≡ replaced pc (some (mul_w half32 a b)) s ls)
      × (step m c i_idiv (frame pc (b ∷ a ∷ s) ls) ≡ replaced pc (sdiv half32 a b) s ls)
      × (step m c i_irem (frame pc (b ∷ a ∷ s) ls) ≡ replaced pc (srem half32 a b) s ls)

  abbrev pub ComparisonTable : Type 0
  ComparisonTable =
      (step m c i_if_icmpeq (frame pc (b ∷ a ∷ s) ls) ≡ conditional_jump (a == b) m (frame pc s ls))
      × (step m c i_if_icmpne (frame pc (b ∷ a ∷ s) ls)
          ≡ conditional_jump (not (a == b)) m (frame pc s ls))
      × (step m c i_if_icmplt (frame pc (b ∷ a ∷ s) ls)
          ≡ conditional_jump (slt half32 a b) m (frame pc s ls))
      × (step m c i_if_icmpge (frame pc (b ∷ a ∷ s) ls)
          ≡ conditional_jump (not (slt half32 a b)) m (frame pc s ls))
      × (step m c i_if_icmpgt (frame pc (b ∷ a ∷ s) ls)
          ≡ conditional_jump (slt half32 b a) m (frame pc s ls))
      × (step m c i_if_icmple (frame pc (b ∷ a ∷ s) ls)
          ≡ conditional_jump (not (slt half32 b a)) m (frame pc s ls))

  abbrev pub ZeroTable : Type 0
  ZeroTable =
      (step m c i_ifeq (frame pc (a ∷ s) ls) ≡ conditional_jump (a == 0) m (frame pc s ls))
      × (step m c i_ifne (frame pc (a ∷ s) ls) ≡ conditional_jump (not (a == 0)) m (frame pc s ls))
      × (step m c i_iflt (frame pc (a ∷ s) ls)
          ≡ conditional_jump (slt half32 a 0) m (frame pc s ls))
      × (step m c i_ifge (frame pc (a ∷ s) ls)
          ≡ conditional_jump (not (slt half32 a 0)) m (frame pc s ls))
      × (step m c i_ifgt (frame pc (a ∷ s) ls)
          ≡ conditional_jump (slt half32 0 a) m (frame pc s ls))
      × (step m c i_ifle (frame pc (a ∷ s) ls)
          ≡ conditional_jump (not (slt half32 0 a)) m (frame pc s ls))

  -- Each arithmetic opcode applies its operation to the second and the topmost value, in this
  -- order, and puts the result in their place; a division that traps is a fault.
  pub step-arithmetic : ArithmeticTable
  unfolding step arithmetic
  step-arithmetic = (refl, refl, refl, ground arith, ground arith)

  -- Each comparison opcode compares the second with the topmost value as signed numbers, drops
  -- both, and jumps just if its comparison holds.
  pub step-if_icmp : ComparisonTable
  unfolding step compare
  step-if_icmp = (refl, refl, refl, refl, refl, refl)

  -- Each comparison opcode against zero compares the topmost value with 0 as signed numbers, drops
  -- it, and jumps just if its comparison holds.
  pub step-if : ZeroTable
  unfolding step compare
  step-if = (refl, refl, refl, refl, refl, refl)
