-- ===== src/Basic/Correct/Labels.antt =====
-- Where the labels stand in the lines of compile_ast: label_no numbers them without a repetition,
-- and behind the label that a jump names stand labels only, up to the next statement.
use cs_24_coursework.Prelude.{
  ℕ, ◌≤◌, ◌<◌, ◌≡◌, ◌≢◌, refl, ◌∙◌, ◌⊎◌, Bool, true, false, Option, some, List, [], ◌∷◌, ◌++◌, ◌==◌,
  append_assoc, arith, if◌then◌else◌,
}
use cs_24_coursework.Basic.Ast.{Text, Node, num, binary_op, var, print, let_var, label, goto, cond}
use cs_24_coursework.Basic.Compile.{
  Instr, cmovl_rsi_rax, cmovg_rsi_rax, cmove_rsi_rax, label_c, label_l, operator_code, compare_code,
  compile_ast,
}
use cs_24_coursework.Basic.Machine.{
  Regs, State, at, Steps, here, step_lines, operate, find_l, find_c,
}
use cs_24_coursework.Basic.Semantics.{IsExpr, IsStmt, sets_label}
use cs_24_coursework.Basic.Correct.Expr.{Steps-trans, one}

abbrev pub All : (Instr → Type 0) → List Instr → Type 0
All P [] = Unit {0}
All P (i ∷ c) = P i × All P c

All-append : (P : Instr → Type 0) (c d : List Instr) → All P c → All P d → All P (c ++ d)
All-append P [] d h k = k
All-append P (i ∷ c) d h k = (h.0, All-append P c d h.1 k)

All-if :
    (P : Instr → Type 0) (b : Bool) (c d : List Instr)
    → All P c
    → All P d
    → All P (if b then c else d)
All-if P true c d h k = h
All-if P false c d h k = k

-- A line that is no label.
abbrev IsPlain : Instr → Type 0
IsPlain (label_c j) = ⊥
IsPlain (label_l l) = ⊥
IsPlain i = Unit {0}

-- A label that label_no numbers.
abbrev pub IsPad : Instr → Type 0
IsPad (label_c j) = Unit {0}
IsPad i = ⊥

compare_code-IsPlain : (op : ℕ) → All IsPlain (compare_code op)
unfolding compare_code
compare_code-IsPlain op =
    let moved =
      All-if IsPlain (op == b'<') (cmovl_rsi_rax ∷ []) _ (tt, tt)
        (All-if IsPlain (op == b'>') (cmovg_rsi_rax ∷ []) _ (tt, tt)
          (All-if IsPlain (op == b'=') (cmove_rsi_rax ∷ []) [] (tt, tt) tt)) in
    (tt, (tt, (tt, moved)))

operator_code-IsPlain : (op : ℕ) → All IsPlain (operator_code op)
unfolding operator_code
operator_code-IsPlain op =
    All-if IsPlain (op == b'+') _ _ (tt, tt)
      (All-if IsPlain (op == b'-') _ _ (tt, (tt, tt))
        (All-if IsPlain (op == b'*') _ _ (tt, tt)
          (All-if IsPlain (op == b'/') _ _ (tt, (tt, (tt, (tt, tt)))) (compare_code-IsPlain op))))

-- An expression has no label and does not move label_no.
pub expr-label_no : (e : Node) (n : ℕ) → IsExpr e → (compile_ast e n).label_no ≡ n
unfolding compile_ast
expr-label_no (num v) n h = refl
expr-label_no (var x) n h = refl
expr-label_no (binary_op op l r) n h = expr-label_no r _ h.2 ∙ expr-label_no l n h.1
expr-label_no (print e) n h = absurd h
expr-label_no (let_var x e) n h = absurd h
expr-label_no (label l) n h = absurd h
expr-label_no (goto l) n h = absurd h
expr-label_no (cond c e) n h = absurd h

expr-IsPlain : (e : Node) (n : ℕ) → IsExpr e → All IsPlain (compile_ast e n).code
unfolding compile_ast
expr-IsPlain (num v) n h = (tt, tt)
expr-IsPlain (var x) n h = (tt, tt)
expr-IsPlain (binary_op op l r) n h =
    All-append IsPlain _ _ (expr-IsPlain l n h.1)
      (tt, All-append IsPlain _ _ (expr-IsPlain r _ h.2) (tt, operator_code-IsPlain op))
expr-IsPlain (print e) n h = absurd h
expr-IsPlain (let_var x e) n h = absurd h
expr-IsPlain (label l) n h = absurd h
expr-IsPlain (goto l) n h = absurd h
expr-IsPlain (cond c e) n h = absurd h

plain-find_c : (j : ℕ) (c k : List Instr) → All IsPlain c → find_c j (c ++ k) ≡ find_c j k
unfolding find_c
plain-find_c j [] k h = refl
plain-find_c j (label_c i ∷ c) k h = absurd h.0
plain-find_c j (label_l l ∷ c) k h = absurd h.0
plain-find_c j (i ∷ c) k h = plain-find_c j c k h.1

plain-find_l : (l : Text) (c k : List Instr) → All IsPlain c → find_l l (c ++ k) ≡ find_l l k
unfolding find_l
plain-find_l j [] k h = refl
plain-find_l j (label_c i ∷ c) k h = absurd h.0
plain-find_l j (label_l l ∷ c) k h = absurd h.0
plain-find_l j (i ∷ c) k h = plain-find_l j c k h.1

pub expr-find_c :
    (e : Node) (n j : ℕ) (k : List Instr)
    → IsExpr e
    → find_c j ((compile_ast e n).code ++ k) ≡ find_c j k
expr-find_c e n j k h = plain-find_c j _ k (expr-IsPlain e n h)

pub label_no-le : (s : Node) (n : ℕ) → IsStmt s → n ≤ (compile_ast s n).label_no
unfolding compile_ast
label_no-le (print e) n h = omega (arith, expr-label_no e n h)
label_no-le (let_var x e) n h = omega (arith, expr-label_no e n h.1)
label_no-le (label l) n h = omega arith
label_no-le (goto l) n h = omega arith
label_no-le (cond c s) n h =
    omega (arith, expr-label_no c n h.0, label_no-le s (compile_ast c n).label_no h.1)
label_no-le (num v) n h = absurd h
label_no-le (var x) n h = absurd h
label_no-le (binary_op op l r) n h = absurd h

pub success_of_stmt : (s : Node) (n : ℕ) → IsStmt s → (compile_ast s n).success ≡ true
unfolding compile_ast
success_of_stmt (print e) n h = refl
success_of_stmt (let_var x e) n h = refl
success_of_stmt (label l) n h = refl
success_of_stmt (goto l) n h = refl
success_of_stmt (cond c s) n h = refl
success_of_stmt (num v) n h = absurd h
success_of_stmt (var x) n h = absurd h
success_of_stmt (binary_op op l r) n h = absurd h

find_c-label_ne : (i j : ℕ) (k : List Instr) → i ≢ j → find_c j (label_c i ∷ k) ≡ find_c j k
unfolding find_c
find_c-label_ne i j k h = ground arith

find_c-label_self : (j : ℕ) (k : List Instr) → find_c j (label_c j ∷ k) ≡ some k
unfolding find_c
find_c-label_self j k = ground arith

-- The lines of a statement that the parser builds set no label C<j> where j is below the counter
-- before them, or not below the counter after them: a search for such a label passes over them.
pub find_c-skip :
    (s : Node) (n j : ℕ) (k : List Instr)
    → IsStmt s
    → (j < n) ⊎ ((compile_ast s n).label_no ≤ j)
    → find_c j ((compile_ast s n).code ++ k) ≡ find_c j k
unfolding compile_ast find_c
find_c-skip (print e) n j k h out = rw append_assoc (plain-find_c j _ _ (expr-IsPlain e n h))
find_c-skip (let_var x e) n j k h out = rw append_assoc (plain-find_c j _ _ (expr-IsPlain e n h.1))
find_c-skip (label l) n j k h out = refl
find_c-skip (goto l) n j k h out = refl
find_c-skip (cond c s) n j k h out =
    rw (append_assoc, append_assoc)
      (plain-find_c j _ _ (expr-IsPlain c n h.0)
        ∙ find_c-skip s _ j _ h.1 (omega (arith, expr-label_no c n h.0))
        ∙ find_c-label_ne _ j k
            (omega (arith, expr-label_no c n h.0, label_no-le s (compile_ast c n).label_no h.1)))
find_c-skip (num v) n j k h out = absurd h
find_c-skip (var x) n j k h out = absurd h
find_c-skip (binary_op op l r) n j k h out = absurd h

-- What a jump finds: labels only, and then the lines `k`.
pub record Lands (found : Option (List Instr)) (k : List Instr) : Type 0 where
  pub pads : List Instr
  pub lands : found ≡ some (pads ++ k)
  pub only : All IsPad pads

Lands-snoc :
    (found : Option (List Instr)) (j : ℕ) (k : List Instr)
    → Lands found (label_c j ∷ k)
    → Lands found k
Lands-snoc found j k p = record {
  pads = p.pads ++ label_c j ∷ [];
  lands = rw append_assoc p.lands;
  only = All-append IsPad _ _ p.only (tt, tt);
}

plain-Lands :
    (c : List Instr) (n j : ℕ) (k : List Instr)
    → All IsPlain c
    → j ≡ n
    → Lands (find_c n (c ++ label_c j ∷ k)) k
plain-Lands c n j k h e = record {
  pads = [];
  lands = plain-find_c n c (label_c j ∷ k) h ∙ rw e (find_c-label_self n k);
  only = tt;
}

self-Lands : (n : ℕ) (k : List Instr) → Lands (find_c n (label_c n ∷ k)) k
self-Lands n k = record { pads = []; lands = find_c-label_self n k; only = tt }

-- The je of an IF whose label number n is taken by an IF inside it jumps to that one's label.
pub find_c-Lands :
    (s : Node) (n : ℕ) (k : List Instr)
    → IsStmt s
    → Lands (find_c n ((compile_ast s n).code ++ label_c (compile_ast s n).label_no ∷ k)) k
unfolding compile_ast find_c
find_c-Lands (print e) n k h =
    plain-Lands _ n _ k (All-append IsPlain _ _ (expr-IsPlain e n h) (tt, (tt, tt)))
      (expr-label_no e n h)
find_c-Lands (let_var x e) n k h =
    plain-Lands _ n _ k (All-append IsPlain _ _ (expr-IsPlain e n h.1) (tt, tt))
      (expr-label_no e n h.1)
find_c-Lands (label l) n k h = self-Lands n k
find_c-Lands (goto l) n k h = self-Lands n k
find_c-Lands (cond c s) n k h =
    rw
      (append_assoc, append_assoc, plain-find_c n _ _ (expr-IsPlain c n h.0), expr-label_no c n h.0)
      (Lands-snoc _ _ k (find_c-Lands s n _ h.1))
find_c-Lands (num v) n k h = absurd h
find_c-Lands (var x) n k h = absurd h
find_c-Lands (binary_op op l r) n k h = absurd h

-- A GOTO passes over a statement that does not set its label.
pub find_l-skip :
    (s : Node) (n : ℕ) (l : Text) (k : List Instr)
    → IsStmt s
    → sets_label l s ≡ false
    → find_l l ((compile_ast s n).code ++ k) ≡ find_l l k
unfolding compile_ast find_l sets_label
find_l-skip (print e) n l k h out = rw append_assoc (plain-find_l l _ _ (expr-IsPlain e n h))
find_l-skip (let_var x e) n l k h out = rw append_assoc (plain-find_l l _ _ (expr-IsPlain e n h.1))
find_l-skip (label t) n l k h out = ground arith
find_l-skip (goto t) n l k h out = refl
find_l-skip (cond c s) n l k h out =
    rw (append_assoc, append_assoc)
      (plain-find_l l _ _ (expr-IsPlain c n h.0) ∙ find_l-skip s _ l _ h.1 out)
find_l-skip (num v) n l k h out = absurd h
find_l-skip (var x) n l k h out = absurd h
find_l-skip (binary_op op a b) n l k h out = absurd h

-- A GOTO to a label goes on behind the statement that sets it.
pub find_l-Lands :
    (s : Node) (n : ℕ) (l : Text) (k : List Instr)
    → IsStmt s
    → sets_label l s ≡ true
    → Lands (find_l l ((compile_ast s n).code ++ k)) k
unfolding compile_ast find_l sets_label
find_l-Lands (print e) n l k h is = cc
find_l-Lands (let_var x e) n l k h is = cc
find_l-Lands (label t) n l k h is = record { pads = []; lands = ground arith; only = tt }
find_l-Lands (goto t) n l k h is = cc
find_l-Lands (cond c s) n l k h is =
    rw (append_assoc, append_assoc, plain-find_l l _ _ (expr-IsPlain c n h.0))
      (Lands-snoc _ _ k (find_l-Lands s _ l _ h.1 is))
find_l-Lands (num v) n l k h is = absurd h
find_l-Lands (var x) n l k h is = absurd h
find_l-Lands (binary_op op a b) n l k h is = absurd h

module _ (after_call : List ℕ → Regs) (whole : List Instr) where
  pub pads-Steps :
      (p k : List Instr) (s : State) → All IsPad p → Steps after_call whole (at (p ++ k) s) (at k s)
  unfolding step_lines operate
  pads-Steps [] k s h = here
  pads-Steps (label_c j ∷ p) k s h =
      Steps-trans after_call whole (one after_call whole refl) (pads-Steps p k s h.1)
  pads-Steps (i ∷ p) k s h = absurd h.0
