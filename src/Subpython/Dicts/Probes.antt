-- ===== src/Subpython/Dicts/Probes.antt =====
-- keys_find as a search in the slots from the bucket on.
use cs_24_coursework.Prelude.{
  ℕ, zero, suc, ◌+◌, ◌%◌, ◌≤◌, ◌<◌, ◌≡◌, refl, ap, ◌∙◌, inl, inr, Bool, true, false, ◌||◌, ◌&&◌,
  Option, none, some, List, [], ◌∷◌, length, get_elem?, drop, ltb, ◌==◌, if◌then◌else◌, Bool-cases,
  length-drop, arith,
}
use mathlib.Core.Path.{subst}
use native.Mathlib.Nat.{mod-lt}
use cs_24_coursework.Prelude.Answer.{Answer, answer, fault}
use cs_24_coursework.Subpython.Refs.{Reference, ref, null_ref, tombstone_ref, next_index}
use cs_24_coursework.Subpython.Run.{Interp, Run}
use cs_24_coursework.Subpython.Dicts.{is_null, is_tombstone, find_loop, keys_find}

-- Where the search stops: at NULL_REF, at a tombstone that is not skipped, at an equal key.
abbrev pub stops : (Reference → Bool) → Bool → Reference → Bool
stops same skip_tombstones key =
    if skip_tombstones && is_tombstone key
    then false
    else if is_null key || is_tombstone key
    then true
    else same key

-- The first such slot of some slots.
abbrev pub first_stop : (Reference → Bool) → Bool → List Reference → Option ℕ
first_stop same skip [] = none
first_stop same skip (k ∷ ks) =
    let rest = next_index (first_stop same skip ks) in if stops same skip k then some 0 else rest

-- The answer of a search from a bucket: no slot is -1 if the bucket is 0, and otherwise the read
-- behind the last slot.
abbrev pub found_from : ℕ → Option ℕ → Interp → Answer (Option ℕ × Interp)
found_from bucket (some i) s = answer (some (bucket + i), s)
found_from bucket none s = if bucket == 0 then answer (none, s) else fault

get_elem?-drop : (i : ℕ) (xs : List Reference) → get_elem? xs i ≡ get_elem? (drop i xs) 0
get_elem?-drop zero xs = refl
get_elem?-drop (suc i) [] = refl
get_elem?-drop (suc i) (x ∷ xs) = get_elem?-drop i xs

drop-suc :
    (i : ℕ) (xs ys : List Reference) (x : Reference) → drop i xs ≡ x ∷ ys → drop (suc i) xs ≡ ys
drop-suc zero [] ys x e = absurd (omega (arith, ap length e))
drop-suc zero (y ∷ xs) ys x e = ap (drop 1) e
drop-suc (suc i) [] ys x e = absurd (omega (arith, ap length e))
drop-suc (suc i) (y ∷ xs) ys x e = drop-suc i xs ys x e

-- ref_eq of the key and each reference of the slots gives an answer, and leaves the state.
abbrev pub IsCompared :
    (Reference → Reference → Run Bool)
    → Reference
    → (Reference → Bool)
    → Interp
    → List Reference
    → Type 0
IsCompared again subscr same s keys =
    (i r : ℕ) → get_elem? keys i ≡ some (ref r) → again subscr (ref r) s ≡ answer (same (ref r), s)

module _ (again : Reference → Reference → Run Bool) (subscr : Reference) (same : Reference → Bool)
    (s : Interp) where
  IsCompared-at :
      (keys : List Reference) (i : ℕ) (key : Reference)
      → IsCompared again subscr same s keys
      → get_elem? keys i ≡ some key
      → (is_null key || is_tombstone key) ≡ false
      → again subscr key s ≡ answer (same key, s)
  IsCompared-at keys i (ref r) compared e f = compared i r e
  IsCompared-at keys i null_ref compared e f = cc
  IsCompared-at keys i tombstone_ref compared e f = cc

  -- The result of the rounds from idx on, at the slots from bucket + idx on.
  abbrev found_at : ℕ → ℕ → Option ℕ → Answer (Option ℕ × Interp)
  found_at bucket idx (some i) = answer (some (bucket + idx + i), s)
  found_at bucket idx none = if bucket == 0 then answer (none, s) else fault

  found_at_next :
      (bucket idx : ℕ) (o : Option ℕ)
      → found_at bucket (suc idx) o ≡ found_at bucket idx (next_index o)
  found_at_next bucket idx none = refl
  found_at_next bucket idx (some i) = ap (λ x. answer (some x, s)) (omega arith)

  find_loop-found_at :
      (keys : List Reference) (bucket : ℕ) (skip : Bool) (n idx : ℕ) (ks : List Reference)
      → IsCompared again subscr same s keys
      → bucket < length keys
      → n + idx ≡ length keys
      → drop (bucket + idx) keys ≡ ks
      → bucket + idx ≤ length keys
      → find_loop again keys bucket subscr skip n idx s
        ≡ found_at bucket idx (first_stop same skip ks)
  unfolding find_loop
  find_loop-found_at keys bucket skip zero idx [] compared low all rest in_range =
      let first : (bucket == 0) ≡ true = ground arith in rw first refl
  find_loop-found_at keys bucket skip (suc n) idx [] compared low all rest in_range =
      let ends : bucket + idx ≡ length keys =
        omega (arith, ap length rest, length-drop (bucket + idx) keys) in
      let not_first : (bucket == 0) ≡ false = ground arith in
      let inside : ltb (length keys) (bucket + idx) ≡ false = ground arith in
      let outside = get_elem?-drop (bucket + idx) keys ∙ ap (λ l. get_elem? l 0) rest in
      rw not_first (rw inside (rw outside refl))
  find_loop-found_at keys bucket skip zero idx (k ∷ ks) compared low all rest in_range =
      absurd (omega (arith, ap length rest, length-drop (bucket + idx) keys))
  find_loop-found_at keys bucket skip (suc n) idx (k ∷ ks) compared low all rest in_range =
      let more : bucket + idx < length keys =
        omega (arith, ap length rest, length-drop (bucket + idx) keys) in
      let inside : ltb (length keys) (bucket + idx) ≡ false = ground arith in
      let here = get_elem?-drop (bucket + idx) keys ∙ ap (λ l. get_elem? l 0) rest in
      let behind : drop (bucket + suc idx) keys ≡ ks =
        subst (λ i. drop i keys ≡ ks) {x = suc (bucket + idx)} (omega arith)
          (drop-suc (bucket + idx) keys ks k rest) in
      let later =
        find_loop-found_at keys bucket skip n (suc idx) ks compared low (omega arith) behind
          (omega arith)
        ∙ found_at_next bucket idx (first_stop same skip ks) in
      let at : bucket + idx + 0 ≡ bucket + idx = omega arith in
      rw inside (
        rw here (elim (Bool-cases (skip && is_tombstone k)) [
          | inl e ↦ rw e later
          | inr e ↦ elim (Bool-cases (is_null k || is_tombstone k)) [
            | inl f ↦ rw e (rw f (rw at refl))
            | inr f ↦ rw e (
                rw f (
                  rw (IsCompared-at keys (bucket + idx) k compared here f)
                    (elim (Bool-cases (same k)) [
                      | inl g ↦ rw g (rw at refl)
                      | inr g ↦ rw g later
                    ])))
          ]
        ]))

  found_at-from : (bucket : ℕ) (o : Option ℕ) → found_at bucket 0 o ≡ found_from bucket o s
  found_at-from bucket none = refl
  found_at-from bucket (some i) = ap (λ x. answer (some x, s)) (omega arith)

  -- When ref_eq of the key and each reference in the slots gives an answer and leaves the state:
  -- keys_find of a table with slots takes the first slot, from the
  -- bucket of the hash on, that is NULL_REF, holds an equal key, or holds a tombstone, unless those are
  -- skipped. If there is none behind the bucket, it gives -1 when the bucket is the first one, and
  -- reads behind the last slot otherwise: it does not wrap round there.
  pub keys_find-found_from :
      (keys : List Reference) (hash : ℕ) (skip : Bool)
      → IsCompared again subscr same s keys
      → 0 < length keys
      → keys_find again keys hash subscr skip s
        ≡ found_from (hash % length keys) (first_stop same skip (drop (hash % length keys) keys)) s
  unfolding keys_find
  keys_find-found_from keys hash skip compared some_slots =
      let bucket = hash % length keys in
      let low : bucket < length keys = mod-lt hash some_slots in
      let not_empty : (length keys == 0) ≡ false = ground arith in
      let start : bucket + 0 ≡ bucket = omega arith in
      rw not_empty (
        find_loop-found_at keys bucket skip (length keys) 0 (drop bucket keys) compared low
          (omega arith) (ap (λ i. drop i keys) start) (omega arith)
        ∙ found_at-from bucket (first_stop same skip (drop bucket keys)))
