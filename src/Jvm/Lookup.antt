-- ===== src/Jvm/Lookup.antt =====
-- find_method of project01-kweng/read_class.c against the methods of the class.
use cs_24_coursework.Prelude.{
  ◌≡◌, refl, ap, inl, inr, true, false, ◌&&◌, Option, none, some, List, [], ◌∷◌, ◌++◌, arith,
  Bool-cases,
}
use cs_24_coursework.Jvm.ClassFile.{Text, Method, str_eq, find_method}

pub str_eq_sound : (a b : Text) → str_eq a b ≡ true → a ≡ b
str_eq_sound [] [] h = refl
str_eq_sound [] (y ∷ ys) h = cc
str_eq_sound (x ∷ xs) [] h = cc
str_eq_sound (x ∷ xs) (y ∷ ys) h = ground (arith, str_eq_sound xs ys)

pub str_eq_refl : (a : Text) → str_eq a a ≡ true
str_eq_refl [] = refl
str_eq_refl (x ∷ xs) = ground (arith, str_eq_refl xs)

-- The method has this name and this descriptor.
abbrev pub Named : Text → Text → Method → Type 0
Named name descriptor m = (m.name ≡ name) × (m.descriptor ≡ descriptor)

abbrev pub NoneNamed : Text → Text → List Method → Type 0
NoneNamed name descriptor [] = Unit {0}
NoneNamed name descriptor (m ∷ ms) = (¬ Named name descriptor m) × NoneNamed name descriptor ms

-- The first method of this name and descriptor, where there is one.
pub data Finds (name descriptor : Text) (ms : List Method) : Option Method → Type 0 where
  found :
      {m : Method} (before after : List Method)
      → ms ≡ before ++ m ∷ after
      → Named name descriptor m
      → NoneNamed name descriptor before
      → Finds name descriptor ms (some m)
  missing : NoneNamed name descriptor ms → Finds name descriptor ms none

Finds-cons :
    {name descriptor : Text} {m : Method} {ms : List Method} {o : Option Method}
    → ¬ Named name descriptor m
    → Finds name descriptor ms o
    → Finds name descriptor (m ∷ ms) o
Finds-cons {m} h (found before after split named first) =
    found (m ∷ before) after (ap (λ t. m ∷ t) split) named (h, first)
Finds-cons h (missing all) = missing (h, all)

matches-Named :
    (name descriptor : Text) (m : Method)
    → (str_eq name m.name && str_eq descriptor m.descriptor) ≡ true
    → Named name descriptor m
matches-Named name descriptor m h =
    ground (arith, str_eq_sound name m.name, str_eq_sound descriptor m.descriptor)

differs-Named :
    (name descriptor : Text) (m : Method)
    → (str_eq name m.name && str_eq descriptor m.descriptor) ≡ false
    → ¬ Named name descriptor m
differs-Named name descriptor m h (p, q) =
    let same : (str_eq m.name m.name && str_eq m.descriptor m.descriptor) ≡ false =
      rw (← p, ← q) at h in
    ground (arith, str_eq_refl m.name, str_eq_refl m.descriptor)

-- find_method returns the first method of the class that has both the name and the descriptor,
-- and NULL just when there is none.
pub find_method-Finds :
    (name descriptor : Text) (ms : List Method)
    → Finds name descriptor ms (find_method name descriptor ms)
unfolding find_method
find_method-Finds name descriptor [] = missing tt
find_method-Finds name descriptor (m ∷ ms) =
    elim (Bool-cases (str_eq name m.name && str_eq descriptor m.descriptor)) [
      | inl p ↦ rw p (found [] ms refl (matches-Named name descriptor m p) tt)
      | inr p ↦
          rw p
            (Finds-cons (differs-Named name descriptor m p) (find_method-Finds name descriptor ms))
    ]
