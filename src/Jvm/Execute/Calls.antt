-- ===== src/Jvm/Execute/Calls.antt =====
-- Calls: the arguments of a callee.
use cs_24_coursework.Prelude.{
  ℕ, zero, suc, ◌≤◌, ◌<◌, ◌≡◌, refl, ap, ◌∙◌, some, List, [], ◌∷◌, ◌++◌, arith, length,
  length-append, set, length-set, lt→ltb, drop,
}
use mathlib.Core.List.{reverse, reverse_aux, reverse-append, reverse-reverse, reverse_aux-eq}
use cs_24_coursework.Jvm.Execute.{pass_arguments}

drop-set : (ls : List ℕ) (k v : ℕ) → k < length ls → drop k (set ls k v) ≡ v ∷ drop (suc k) ls
drop-set [] k v h = elim h [ ]
drop-set (x ∷ ls) zero v h = refl
drop-set (x ∷ ls) (suc k) v h = drop-set ls k v (omega arith)

pass_arguments-reverse_aux :
    (xs s ls : List ℕ)
    → length xs ≤ length ls
    → pass_arguments (length xs) (xs ++ s) ls ≡ some (s, reverse_aux xs (drop (length xs) ls))
unfolding pass_arguments
pass_arguments-reverse_aux [] s ls h = refl
pass_arguments-reverse_aux (x ∷ xs) s ls h = rw (lt→ltb (length xs) (length ls) (omega arith)) (
    pass_arguments-reverse_aux xs s (set ls (length xs) x)
      (omega (arith, length-set ls (length xs) x))
    ∙ ap (λ r. some (s, reverse_aux xs r)) (drop-set ls (length xs) x (omega arith)))

length-reverse : (xs : List ℕ) → length (reverse xs) ≡ length xs
length-reverse [] = refl
length-reverse (x ∷ xs) =
    ap length (reverse-append (x ∷ []) xs)
    ∙ length-append (reverse xs) (x ∷ [])
    ∙ omega (arith, length-reverse xs)

-- The caller has pushed its arguments in turn, so that they lie reversed on its stack, and the callee
-- has at least as many locals: the callee has the arguments in its first locals in order, and the
-- caller's stack has lost just them.
pub pass_arguments-in_order :
    (args s ls : List ℕ)
    → length args ≤ length ls
    → pass_arguments (length args) (reverse args ++ s) ls ≡ some (s, args ++ drop (length args) ls)
pass_arguments-in_order args s ls h =
    let p = pass_arguments-reverse_aux (reverse args) s ls (omega (arith, length-reverse args)) in
    rw (reverse_aux-eq (reverse args), reverse-reverse args, length-reverse args) at p
