-- ===== src/Basic/Parser/Hang.antt =====
-- The loops of term and expression at the end of a file.
use cs_24_coursework.Prelude.{
  ℕ, zero, suc, ◌+◌, ◌≡◌, refl, sym, ap, ◌∙◌, true, false, Option, none, List, [], ◌∷◌, drop, arith,
}
use cs_24_coursework.Basic.Ast.{Text, Node, init_binary_node}
use cs_24_coursework.Basic.Parser.{
  Parse, parsed, out_of_fuel, is_space, is_factor_operator, is_term_operator, advance, factor,
  operator_loop, term,
}
use cs_24_coursework.Basic.Parser.Builds.{drop-drop}

module _ (strtol : Text → ℕ) (file : List ℕ) (expr : ℕ → Parse (Option Node)) where
  drop-suc : (pos c : ℕ) → drop pos file ≡ c ∷ [] → drop (pos + 1) file ≡ []
  drop-suc pos c last = sym (drop-drop 1 pos (pos + 1) file refl) ∙ ap (drop 1) last

  factor-end :
      (pos c : ℕ) → drop pos file ≡ c ∷ [] → factor strtol file expr (pos + 1) ≡ parsed none pos
  unfolding factor
  factor-end pos c last = rw (drop-suc pos c last) (ap (parsed none) (omega arith))

  advance-last :
      (pos c : ℕ)
      → drop pos file ≡ c ∷ []
      → is_space c ≡ false
      → advance strtol file pos ≡ (c, pos + 1)
  advance-last pos c last solid = rw last (rw solid refl)

  -- When * or / is the last byte of the file and the loop of term reads it, the loop does not end,
  -- whatever the fuel: the factor behind it is missing, and reading on at the end of the file sets the
  -- position back to the operator.
  pub term_loop-hangs :
      (n pos c : ℕ) (result : Option Node)
      → drop pos file ≡ c ∷ []
      → is_factor_operator c ≡ true
      → operator_loop strtol file expr is_factor_operator (factor strtol file expr) n result pos
        ≡ out_of_fuel
  unfolding operator_loop
  term_loop-hangs zero pos c result last op = refl
  term_loop-hangs (suc n) pos c result last op =
      let solid : is_space c ≡ false = ground arith in
      rw (advance-last pos c last solid) (
        rw op (
          rw (factor-end pos c last)
            (term_loop-hangs n pos c (init_binary_node c result none) last op)))

  -- With the operator of a sum as the last byte, a term behind it ends where it started.
  term-end :
      (n pos c : ℕ)
      → drop pos file ≡ c ∷ []
      → is_term_operator c ≡ true
      → term strtol file expr (suc n) (pos + 1) ≡ parsed none pos
  unfolding term operator_loop
  term-end n pos c last op =
      let solid : is_space c ≡ false = ground arith in
      let other : is_factor_operator c ≡ false = ground arith in
      rw (factor-end pos c last)
        (rw (advance-last pos c last solid) (rw other (ap (parsed none) (omega arith))))

  -- The same for + and - in the loop of expression.
  expression_loop-hangs :
      (n k pos c : ℕ) (result : Option Node)
      → drop pos file ≡ c ∷ []
      → is_term_operator c ≡ true
      → operator_loop strtol file expr is_term_operator (term strtol file expr (suc k)) n result pos
        ≡ out_of_fuel
  unfolding operator_loop
  expression_loop-hangs zero k pos c result last op = refl
  expression_loop-hangs (suc n) k pos c result last op =
      let solid : is_space c ≡ false = ground arith in
      rw (advance-last pos c last solid) (
        rw op (
          rw (term-end k pos c last op)
            (expression_loop-hangs n k pos c (init_binary_node c result none) last op)))
