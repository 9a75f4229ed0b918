-- ===== src/Subpython/Values/Order.antt =====
-- Values that compare as equal, and their hashes.
use Prim.Native.Nat.{Ordering}
use cs_24_coursework.Prelude.{
  ℕ, ◌^◌, ◌≤◌, ◌<◌, ◌≡◌, ◌↔◌, refl, inl, inr, false, List, [], ◌∷◌, ltb, Bool-cases, arith,
}
use mathlib.Core.Path.{ap₂, subst}
use cs_24_coursework.Word.{slt}
use cs_24_coursework.Subpython.Values.{integer_cmp, strcmp}

-- The other way round.
abbrev pub flip : Ordering → Ordering
flip Ordering.lt = Ordering.gt
flip Ordering.eq = Ordering.eq
flip Ordering.gt = Ordering.lt

abbrev pub IsLt : Ordering → Type 0
IsLt Ordering.lt = Unit {0}
IsLt _ = ⊥

abbrev IsGt : Ordering → Type 0
IsGt Ordering.gt = Unit {0}
IsGt _ = ⊥

strcmp-flip : (a b : List ℕ) → strcmp b a ≡ flip (strcmp a b)
unfolding strcmp
strcmp-flip [] [] = refl
strcmp-flip [] (d ∷ ds) = refl
strcmp-flip (c ∷ cs) [] = refl
strcmp-flip (c ∷ cs) (d ∷ ds) = elim (Bool-cases (ltb c d)) [
  | inl e ↦ let f : ltb d c ≡ false = ground arith in rw e (rw f refl)
  | inr e ↦ elim (Bool-cases (ltb d c)) [
    | inl f ↦ rw e (rw f refl)
    | inr f ↦ rw e (rw f (strcmp-flip cs ds))
  ]
]

strcmp-eq : (a b : List ℕ) → strcmp a b ≡ Ordering.eq → a ≡ b
unfolding strcmp
strcmp-eq [] [] h = refl
strcmp-eq [] (d ∷ ds) h = absurd (subst IsLt h tt)
strcmp-eq (c ∷ cs) [] h = absurd (subst IsGt h tt)
strcmp-eq (c ∷ cs) (d ∷ ds) h = elim (Bool-cases (ltb c d)) [
  | inl e ↦ absurd (subst IsLt (rw e at h) tt)
  | inr e ↦ elim (Bool-cases (ltb d c)) [
    | inl f ↦ absurd (subst IsGt (rw (e, f) at h) tt)
    | inr f ↦ ap₂ ◌∷◌ (ground arith) (strcmp-eq cs ds (rw (e, f) at h))
  ]
]

strcmp_self : (a : List ℕ) → strcmp a a ≡ Ordering.eq
unfolding strcmp
strcmp_self [] = refl
strcmp_self (c ∷ cs) = let e : ltb c c ≡ false = ground arith in rw e (strcmp_self cs)

-- What a comparison with < says of the first characters and the others.
first_lt :
    (x y : ℕ) (xs ys : List ℕ)
    → IsLt (strcmp (x ∷ xs) (y ∷ ys))
    → (x ≤ y) × (x ≡ y → IsLt (strcmp xs ys))
unfolding strcmp
first_lt x y xs ys h = elim (Bool-cases (ltb x y)) [
  | inl e ↦ (ground arith, λ same. absurd (ground arith))
  | inr e ↦ elim (Bool-cases (ltb y x)) [
    | inl f ↦ absurd (rw (e, f) at h)
    | inr f ↦ (ground arith, λ same. rw (e, f) at h)
  ]
]

strcmp_trans : (a b c : List ℕ) → IsLt (strcmp a b) → IsLt (strcmp b c) → IsLt (strcmp a c)
unfolding strcmp
strcmp_trans [] [] c h k = absurd h
strcmp_trans [] (y ∷ ys) [] h k = absurd k
strcmp_trans [] (y ∷ ys) (z ∷ zs) h k = tt
strcmp_trans (x ∷ xs) [] c h k = absurd h
strcmp_trans (x ∷ xs) (y ∷ ys) [] h k = absurd k
strcmp_trans (x ∷ xs) (y ∷ ys) (z ∷ zs) h k = elim (Bool-cases (ltb x z)) [
  | inl e ↦ rw e tt
  | inr e ↦
      let (le₁, t₁) = first_lt x y xs ys h in
      let (le₂, t₂) = first_lt y z ys zs k in
      let same : x ≡ z = ground arith in
      let f : ltb z x ≡ false = ground arith in
      rw e (rw f (strcmp_trans xs ys zs (t₁ (ground arith)) (t₂ (ground arith))))
]

-- The order of strcmp: turned round by exchanging its arguments, equal on equal strings only, and
-- transitive.
pub record IsOrder (cmp : List ℕ → List ℕ → Ordering) : Type 0 where
  pub flips : (a b : List ℕ) → cmp b a ≡ flip (cmp a b)
  pub equals : (a b : List ℕ) → (cmp a b ≡ Ordering.eq) ↔ (a ≡ b)
  pub transits : (a b c : List ℕ) → IsLt (cmp a b) → IsLt (cmp b c) → IsLt (cmp a c)

-- strcmp is a linear order.
pub strcmp-IsOrder : IsOrder strcmp
strcmp-IsOrder = record {
  flips = strcmp-flip;
  equals = λ a b. (strcmp-eq a b, λ e. subst (λ x. strcmp a x ≡ Ordering.eq) e (strcmp_self a));
  transits = strcmp_trans;
}

-- Integers of 64 bits and strings that compare as equal are equal, so that dictionaries hash them to
-- the same slot.
pub integer_cmp-eq : (a b : ℕ) → a < 2 ^ 64 → b < 2 ^ 64 → integer_cmp a b ≡ Ordering.eq → a ≡ b
unfolding integer_cmp slt
integer_cmp-eq a b h k e = ground arith
