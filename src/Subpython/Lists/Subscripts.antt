-- ===== src/Subpython/Lists/Subscripts.antt =====
-- The subscripts of a list as Python has them, and a deletion as the removal of an element.
use cs_24_coursework.Prelude.{
  ℕ, zero, suc, ◌-◌, ◌^◌, ◌≤◌, ◌<◌, ◌≡◌, refl, ap, ◌∙◌, ◌⊎◌, inl, inr, true, false, Option, none,
  some, List, [], ◌∷◌, ltb, lt→ltb, length, get_elem?, set, take, drop, Bool-cases, Option-cases,
  arith,
}
use cs_24_coursework.Prelude.Int.{ℤ, pos, ◌+ℤ◌}
use cs_24_coursework.Word.{half64, signed, slt, add_w}
use cs_24_coursework.Subpython.Refs.{Reference, null_ref}
use cs_24_coursework.Subpython.Lists.{index_of, move_up, with_some, clear_element, delete_at}

-- An index of a list: counted from the front, or from the end if the subscript is negative.
abbrev pub IsIndex : ℕ → ℤ → ℕ → Type 0
IsIndex size subscript i = (i < size) × ((subscript ≡ pos i) ⊎ (subscript +ℤ pos size ≡ pos i))

index_of-IsIndex :
    (size subscript i : ℕ)
    → size < 2 ^ 63
    → subscript < 2 ^ 64
    → index_of size subscript ≡ some i
    → IsIndex size (signed half64 subscript) i
unfolding index_of slt add_w ◌+ℤ◌
index_of-IsIndex size subscript i h k e = ground arith

index_of-none :
    (size subscript i : ℕ)
    → size < 2 ^ 63
    → subscript < 2 ^ 64
    → index_of size subscript ≡ none
    → ¬ IsIndex size (signed half64 subscript) i
unfolding index_of slt add_w ◌+ℤ◌
index_of-none size subscript i h k e p = ground arith

-- What index_of finds.
abbrev pub Indexes : ℕ → ℤ → Option ℕ → Type 0
Indexes size subscript none = (i : ℕ) → ¬ IsIndex size subscript i
Indexes size subscript (some i) = IsIndex size subscript i

-- For a size below 2^63 and a subscript of 64 bits: the index is below the size and is the subscript,
-- or the subscript plus the size, in the integers; and there is an IndexError, `none`, only if neither
-- is an index of the list.
pub index_of-Indexes :
    (size subscript : ℕ)
    → size < 2 ^ 63
    → subscript < 2 ^ 64
    → Indexes size (signed half64 subscript) (index_of size subscript)
index_of-Indexes size subscript h k = elim (Option-cases (index_of size subscript)) [
  | inl e ↦ rw e (λ i. index_of-none size subscript i h k e)
  | inr (i, e) ↦ rw e (index_of-IsIndex size subscript i h k e)
]

-- The elements without the one at an index.
abbrev pub remove : {A : Type 0} → ℕ → List A → List A
remove i [] = []
remove zero (x ∷ xs) = xs
remove (suc i) (x ∷ xs) = x ∷ remove i xs

abbrev cons_some : Reference → Option (List Reference) → Option (List Reference)
cons_some x none = none
cons_some x (some xs) = some (x ∷ xs)

move_up-cons :
    (n i : ℕ) (x : Reference) (xs : List Reference)
    → move_up n (suc i) (x ∷ xs) ≡ cons_some x (move_up n i xs)
unfolding move_up
move_up-cons zero i x xs = refl
move_up-cons (suc n) i x xs =
    elim (get_elem? xs (suc i))
      as (λ o.
        with_some o (λ r. move_up n (suc (suc i)) (x ∷ set xs i r))
        ≡ cons_some x (with_some o (λ r. move_up n (suc i) (set xs i r)))) [
          | none ↦ refl
          | some r ↦ move_up-cons n (suc i) x (set xs i r)
        ]

-- n elements of the front move up by one, over the first.
abbrev shift : ℕ → List Reference → List Reference
shift zero xs = xs
shift (suc n) [] = []
shift (suc n) (x ∷ []) = x ∷ []
shift (suc n) (x ∷ y ∷ ys) = y ∷ shift n (y ∷ ys)

move_up-shift : (n : ℕ) (xs : List Reference) → n < length xs → move_up n 0 xs ≡ some (shift n xs)
unfolding move_up
move_up-shift zero xs h = refl
move_up-shift (suc n) [] h = absurd (omega arith)
move_up-shift (suc n) (x ∷ []) h = absurd (omega arith)
move_up-shift (suc n) (x ∷ y ∷ ys) h =
    move_up-cons n 0 y (y ∷ ys) ∙ ap (cons_some y) (move_up-shift n (y ∷ ys) (omega arith))

length-shift : (n : ℕ) (xs : List Reference) → length (shift n xs) ≡ length xs
length-shift zero xs = refl
length-shift (suc n) [] = refl
length-shift (suc n) (x ∷ []) = refl
length-shift (suc n) (x ∷ y ∷ ys) = ap suc (length-shift n (y ∷ ys))

take-shift :
    (n : ℕ) (v : Reference) (x : Reference) (xs : List Reference)
    → n ≤ length xs
    → take n (set (shift n (x ∷ xs)) n v) ≡ take n xs
take-shift zero v x xs h = refl
take-shift (suc n) v x [] h = absurd (omega arith)
take-shift (suc n) v x (y ∷ ys) h = ap (◌∷◌ y) (take-shift n v y ys (omega arith))

drop-shift :
    (n : ℕ) (v : Reference) (x : Reference) (xs : List Reference)
    → n ≤ length xs
    → drop n (set (shift n (x ∷ xs)) n v) ≡ v ∷ drop n xs
drop-shift zero v x xs h = refl
drop-shift (suc n) v x [] h = absurd (omega arith)
drop-shift (suc n) v x (y ∷ ys) h = drop-shift n v y ys (omega arith)

-- The array behind a deletion: the elements that are left, NULL_REF, and what was behind the list.
pub record Deleted (idx left : ℕ) (array array' : List Reference) : Type 0 where
  pub elements : take left array' ≡ remove idx (take (suc left) array)
  pub rest : drop left array' ≡ null_ref ∷ drop (suc left) array

clear_element-cons :
    (left : ℕ) (x : Reference) (ys : List Reference)
    → clear_element (suc left) (x ∷ ys) ≡ cons_some x (clear_element left ys)
clear_element-cons left x ys = elim (Bool-cases (ltb left (length ys))) [
  | inl e ↦ let e' : ltb (suc left) (suc (length ys)) ≡ true = ground arith in rw e' (rw e refl)
  | inr e ↦ let e' : ltb (suc left) (suc (length ys)) ≡ false = ground arith in rw e' (rw e refl)
]

delete_at-cons :
    (idx left : ℕ) (x : Reference) (xs : List Reference)
    → delete_at (suc idx) (suc left) (x ∷ xs) ≡ cons_some x (delete_at idx left xs)
unfolding delete_at
delete_at-cons idx left x xs =
    let same : suc left - suc idx ≡ left - idx = omega arith in
    rw same (
      rw (move_up-cons (left - idx) idx x xs)
        (elim (move_up (left - idx) idx xs)
          as (λ o.
            with_some (cons_some x o) (clear_element (suc left))
            ≡ cons_some x (with_some o (clear_element left))) [
              | none ↦ refl
              | some ys ↦ clear_element-cons left x ys
            ]))

-- Deleting at an index of a list of left + 1 elements, whose array holds them, leaves the other
-- elements in their order, NULL_REF behind them, and what is behind the list as it was.
pub delete_at-Deleted :
    (idx left : ℕ) (array : List Reference)
    → idx ≤ left
    → left < length array
    → (array' : List Reference) × (delete_at idx left array ≡ some array')
      × Deleted idx left array array'
unfolding delete_at
delete_at-Deleted idx left [] h k = absurd (omega arith)
delete_at-Deleted zero left (x ∷ xs) h k =
    let same : left - 0 ≡ left = omega arith in
    let room : ltb left (length (shift left (x ∷ xs))) ≡ true =
      lt→ltb left _ (omega (arith, length-shift left (x ∷ xs))) in
    (
      set (shift left (x ∷ xs)) left null_ref,
      rw same (rw (move_up-shift left (x ∷ xs) (omega arith)) (rw room refl)),
      record {
        elements = take-shift left null_ref x xs (omega arith);
        rest = drop-shift left null_ref x xs (omega arith);
      },
    )
delete_at-Deleted (suc idx) zero (x ∷ xs) h k = absurd (omega arith)
delete_at-Deleted (suc idx) (suc left) (x ∷ xs) h k =
    let (array', e, d) = delete_at-Deleted idx left xs (omega arith) (omega arith) in
    (
      x ∷ array',
      delete_at-cons idx left x xs ∙ ap (cons_some x) e,
      record { elements = ap (◌∷◌ x) d.elements; rest = d.rest },
    )
