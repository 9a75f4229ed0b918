-- ===== src/Subpython/Eval/Globals.antt =====
-- The global variables as a map from names to references.
use cs_24_coursework.Prelude.{
  ℕ, ◌≡◌, ◌≢◌, refl, sym, ap, ◌∙◌, inl, inr, true, false, Option, none, some, List, [], ◌∷◌,
  Bool-cases, arith,
}
use mathlib.Core.Path.{subst}
use Prim.Native.Nat.{Ordering}
use cs_24_coursework.Subpython.Refs.{
  Reference, Refs, ref, null_ref, tombstone_ref, incref, decref, done, assert_failed, out_of_fuel,
}
use cs_24_coursework.Prelude.Answer.{Answer, answer, fault, no_fuel, All, All-answer}
use cs_24_coursework.Subpython.Run.{
  Global, Interp, Run, continue, give_back, dropped, take_reference, counted,
}
use cs_24_coursework.Subpython.Values.{string_cmp}
use cs_24_coursework.Subpython.Values.Order.{strcmp-IsOrder}
use cs_24_coursework.Subpython.Lists.{is_zero}
use cs_24_coursework.Subpython.Eval.{
  same_name, find_global, put_global, remove_global, give_back_global, globals_set,
}

is_zero-eq : (o : Ordering) → is_zero o ≡ true → o ≡ Ordering.eq
is_zero-eq Ordering.eq h = refl
is_zero-eq Ordering.lt h = absurd (ground arith)
is_zero-eq Ordering.gt h = absurd (ground arith)

same_name-eq : (a b : List ℕ) → same_name a b ≡ true → a ≡ b
same_name-eq a b h = (strcmp-IsOrder.equals a b).0 (is_zero-eq (string_cmp a b) h)

same_name_self : (a : List ℕ) → same_name a a ≡ true
same_name_self a = ap is_zero ((strcmp-IsOrder.equals a a).1 refl)

same_name_other : (a b : List ℕ) → a ≢ b → same_name a b ≡ false
same_name_other a b h = elim (Bool-cases (same_name a b)) [
  | inl e ↦ absurd (h (same_name-eq a b e))
  | inr e ↦ e
]

-- The value of a name that is set, and of any other name.
put_global-find_global :
    (name other : List ℕ) (value : Reference) (gs : List Global)
    → other ≢ name
    → (find_global name (put_global name value gs) ≡ some value)
      × (find_global other (put_global name value gs) ≡ find_global other gs)
unfolding find_global put_global
put_global-find_global name other value [] apart =
    (rw (same_name_self name) refl, rw (same_name_other other name apart) refl)
put_global-find_global name other value (g ∷ gs) apart =
    let (here, there) = put_global-find_global name other value gs apart in
    elim (Bool-cases (same_name name g.name)) [
      | inl e ↦
          let away : same_name other g.name ≡ false =
            same_name_other other g.name (λ f. apart (f ∙ sym (same_name-eq name g.name e))) in
          (rw e (rw e refl), rw e (rw away refl))
      | inr e ↦ (
        rw e (rw e here),
        rw e
            (elim (Bool-cases (same_name other g.name)) [ inl f ↦ rw f refl | inr f ↦ rw f there ]),
      )
    ]

-- No name stands twice.
abbrev pub Unused : List ℕ → List Global → Type 0
Unused name [] = Unit {0}
Unused name (g ∷ gs) = (name ≢ g.name) × Unused name gs

abbrev pub NoTwice : List Global → Type 0
NoTwice [] = Unit {0}
NoTwice (g ∷ gs) = Unused g.name gs × NoTwice gs

Unused-find_global :
    (name : List ℕ) (gs : List Global) → Unused name gs → find_global name gs ≡ none
unfolding find_global
Unused-find_global name [] h = refl
Unused-find_global name (g ∷ gs) h =
    rw (same_name_other name g.name h.0) (Unused-find_global name gs h.1)

Unused-put_global :
    (n name : List ℕ) (value : Reference) (gs : List Global)
    → n ≢ name
    → Unused n gs
    → Unused n (put_global name value gs)
unfolding put_global
Unused-put_global n name value [] apart h = (apart, tt)
Unused-put_global n name value (g ∷ gs) apart h = elim (Bool-cases (same_name name g.name)) [
  | inl e ↦ rw e h
  | inr e ↦ rw e (h.0, Unused-put_global n name value gs apart h.1)
]

differ : true ≡ false → ⊥
differ e = ground (arith, e)

put_global-NoTwice :
    (name : List ℕ) (value : Reference) (gs : List Global)
    → NoTwice gs
    → NoTwice (put_global name value gs)
unfolding put_global
put_global-NoTwice name value [] h = (tt, tt)
put_global-NoTwice name value (g ∷ gs) h = elim (Bool-cases (same_name name g.name)) [
  | inl e ↦ rw e h
  | inr e ↦ rw e (
    Unused-put_global g.name name value gs
        (λ f. differ (sym (same_name_self name) ∙ ap (same_name name) (sym f) ∙ e)) h.0,
    put_global-NoTwice name value gs h.1,
  )
]

-- Of global variables of which no name stands twice: a name that is removed has no value, and any other
-- name the value it had.
pub remove_global-find_global :
    (name other : List ℕ) (gs : List Global)
    → NoTwice gs
    → other ≢ name
    → (find_global name (remove_global name gs) ≡ none)
      × (find_global other (remove_global name gs) ≡ find_global other gs)
unfolding find_global remove_global
remove_global-find_global name other [] d apart = (refl, refl)
remove_global-find_global name other (g ∷ gs) d apart =
    let (here, there) = remove_global-find_global name other gs d.1 apart in
    elim (Bool-cases (same_name name g.name)) [
      | inl e ↦
          let same = same_name-eq name g.name e in
          let away : same_name other g.name ≡ false =
            same_name_other other g.name (λ f. apart (f ∙ sym same)) in
          (
            rw e (Unused-find_global name gs (subst (λ n. Unused n gs) (sym same) d.0)),
            rw e (rw away refl),
          )
      | inr e ↦ (
        rw e (rw e here),
        rw e
            (elim (Bool-cases (same_name other g.name)) [ inl f ↦ rw f refl | inr f ↦ rw f there ]),
      )
    ]

-- A run that leaves the global variables as they are.
abbrev KeepsGlobals : {A : Type 0} → Interp → Answer (A × Interp) → Type 0
KeepsGlobals s m = All (λ r. r.1.global_vars ≡ s.global_vars) m

give_back-KeepsGlobals :
    (fuel : ℕ) (r : Reference) (s : Interp) → KeepsGlobals s (give_back fuel r s)
unfolding give_back
give_back-KeepsGlobals fuel r s =
    elim (decref fuel r s.refs) as (λ o. KeepsGlobals s (dropped o s)) [
      | done refs ↦ refl
      | assert_failed ↦ tt
      | out_of_fuel ↦ tt
    ]

counted-KeepsGlobals : (o : Option Refs) (s : Interp) → KeepsGlobals s (counted o s)
counted-KeepsGlobals none s = tt
counted-KeepsGlobals (some refs) s = refl

take_reference-KeepsGlobals : (r : Reference) (s : Interp) → KeepsGlobals s (take_reference r s)
unfolding take_reference
take_reference-KeepsGlobals (ref r) s = counted-KeepsGlobals (incref r s.refs) s
take_reference-KeepsGlobals null_ref s = tt
take_reference-KeepsGlobals tombstone_ref s = tt

give_back_global-KeepsGlobals :
    (fuel : ℕ) (o : Option Reference) (s : Interp) → KeepsGlobals s (give_back_global fuel o s)
give_back_global-KeepsGlobals fuel none s = refl
give_back_global-KeepsGlobals fuel (some r) s = give_back-KeepsGlobals fuel r s

All-continue :
    {A B : Type 0} (s : Interp) (P : B × Interp → Type 0) (m : Answer (A × Interp)) (f : A → Run B)
    → KeepsGlobals s m
    → ((a : A) (t : Interp) → t.global_vars ≡ s.global_vars → All P (f a t))
    → All P (continue m f)
All-continue s P (answer (a, t)) f h k = k a t h
All-continue s P fault f h k = tt
All-continue s P no_fuel f h k = tt

globals_set-All :
    (fuel : ℕ) (name : List ℕ) (value : Reference) (s : Interp)
    → All
        (λ r. r.1.global_vars ≡ put_global name value s.global_vars)
        (globals_set fuel name value s)
unfolding globals_set
globals_set-All fuel name value s =
    let P = λ (r : Unit {0} × Interp). r.1.global_vars ≡ put_global name value s.global_vars in
    All-continue s P (give_back_global fuel (find_global name s.global_vars) s) _
      (give_back_global-KeepsGlobals fuel (find_global name s.global_vars) s)
      (λ a t e.
        All-continue s P (take_reference value t) _
          (subst (λ gs. All (λ r. r.1.global_vars ≡ gs) (take_reference value t)) e
            (take_reference-KeepsGlobals value t))
          (λ b u f. ap (put_global name value) f))

-- When globals_set ends, whatever the reference counts: the name has the value, and any other name
-- what it had before.
pub globals_set-find_global :
    (fuel : ℕ) (name other : List ℕ) (value : Reference) (s : Interp) (r : Unit {0} × Interp)
    → globals_set fuel name value s ≡ answer r
    → other ≢ name
    → (find_global name r.1.global_vars ≡ some value)
      × (find_global other r.1.global_vars ≡ find_global other s.global_vars)
globals_set-find_global fuel name other value s r e apart =
    let set =
      All-answer (λ t. t.1.global_vars ≡ put_global name value s.global_vars) _ r e
        (globals_set-All fuel name value s) in
    let (here, there) = put_global-find_global name other value s.global_vars apart in
    (ap (find_global name) set ∙ here, ap (find_global other) set ∙ there)
