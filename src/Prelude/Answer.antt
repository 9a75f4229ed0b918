-- ===== src/Prelude/Answer.antt =====
-- What a run gives: a value, a fault such as a failed assert or a read of NULL, or no fuel left.
use mathlib.Core.Path.{◌≡◌, ap, subst}

pub data Answer {ℓ} (A : Type ℓ) : Type ℓ where
  answer : A → Answer A
  fault no_fuel : Answer A

infixl 5 ◌>>=◌
abbrev pub ◌>>=◌ {ℓ κ} : {A : Type ℓ} {B : Type κ} → Answer A → (A → Answer B) → Answer B
answer a >>= f = f a
fault >>= f = fault
no_fuel >>= f = no_fuel

-- The value, if there is one; it is `d` otherwise.
abbrev value_or {ℓ} : {A : Type ℓ} → A → Answer A → A
value_or d (answer a) = a
value_or d fault = d
value_or d no_fuel = d

pub answer-injective {ℓ} : {A : Type ℓ} (a b : A) → answer a ≡ answer b → a ≡ b
answer-injective a b e = ap (value_or a) e

-- What holds of the value, if there is one.
abbrev pub All {ℓ κ} : {A : Type ℓ} → (A → Type κ) → Answer A → Type κ
All P (answer a) = P a
All P fault = Unit
All P no_fuel = Unit

pub All-bind {ℓ κ μ ν} :
    {A : Type ℓ} {B : Type κ} (Q : A → Type μ) (P : B → Type ν) (m : Answer A) (f : A → Answer B)
    → All Q m
    → ((a : A) → Q a → All P (f a))
    → All P (m >>= f)
All-bind Q P (answer a) f h k = k a h
All-bind Q P fault f h k = tt
All-bind Q P no_fuel f h k = tt

pub All-true {ℓ} : {A : Type ℓ} (m : Answer A) → All (λ a. Unit {0}) m
All-true (answer a) = tt
All-true fault = tt
All-true no_fuel = tt

pub All-answer {ℓ κ} :
    {A : Type ℓ} (P : A → Type κ) (m : Answer A) (a : A) → m ≡ answer a → All P m → P a
All-answer P m a e h = subst (All P) e h
