-- ===== src/Subpython/Collect/Copies.antt =====
-- A collection copies: what the references stand for stays.
use cs_24_coursework.Prelude.{
  ℕ, ◌≤◌, ◌<◌, ◌≡◌, refl, sym, ap, ◌∙◌, Bool, true, false, Option, none, some, List, [], ◌∷◌,
  if◌then◌else◌, get_elem?, set, ◌==◌, arith, Bool-cases, ◌⊎◌, inl, inr,
}
use mathlib.Core.Path.{subst}
use cs_24_coursework.Subpython.Pool.{Block, block, Pool, mm_malloc, is_pool_address}
use cs_24_coursework.Subpython.Pool.Bytes.{count_holding, mm_malloc-Conserves}
use cs_24_coursework.Subpython.Refs.{
  Reference, ref, null_ref, tombstone_ref, Kind, Value, Refs, write_value, set_count, Outcome, done,
  assert_failed, out_of_fuel, and_then, for_each, recurse,
}
use cs_24_coursework.Subpython.Collect.Measure.{inside, uncopied}

-- What a value holds, of its entry.
abbrev pub kind_of : (ℕ → Value) → Option (Option Block) → Option Kind
kind_of values none = none
kind_of values (some none) = none
kind_of values (some (some v)) = some (values v.addr).kind

abbrev pub kind_at : ℕ → Refs → Option Kind
kind_at r s = kind_of s.values (get_elem? s.ref_table r)

-- The free blocks are apart and in the pool, and no value starts in one.
pub record IsApart (s : Refs) : Type 0 where
  pub once :
      (a : ℕ) → count_holding a s.pool.free_list ≤ (if is_pool_address a s.pool then 1 else 0)
  pub taken :
      (r : ℕ) (v : Block)
      → get_elem? s.ref_table r ≡ some (some v)
      → (count_holding v.addr s.pool.free_list ≡ 0) × (0 < v.value_size)

-- The entry has been copied.
abbrev pub here_entry : ℕ → ℕ → Option (Option Block) → Bool
here_entry base size none = false
here_entry base size (some none) = false
here_entry base size (some (some v)) = inside base size v.addr

abbrev pub here : ℕ → Refs → Bool
here r s = here_entry s.pool.memory_pool s.pool.memory_size (get_elem? s.ref_table r)

abbrev pub IsHere : Refs → Reference → Type 0
IsHere s (ref r) = here r s ≡ true
IsHere s null_ref = Unit
IsHere s tombstone_ref = Unit

abbrev pub AreHere : Refs → List Reference → Type 0
AreHere s [] = Unit
AreHere s (r ∷ rs) = IsHere s r × AreHere s rs

-- The references that a value holds.
abbrev pub held_by : Option Kind → List Reference
held_by none = []
held_by (some k) = recurse k

pub record Keeps (s t : Refs) : Type 0 where
  pub apart : IsApart t
  pub kinds : (r : ℕ) → kind_at r t ≡ kind_at r s
  pub fewer : uncopied t ≤ uncopied s
  pub stays : (r : ℕ) → here r s ≡ true → here r t ≡ true

-- With a value that is copied, all that it holds is.
abbrev pub IsClosed : Refs → Refs → Type 0
IsClosed s t = (r : ℕ) → here r t ≡ true → (here r s ≡ true) ⊎ AreHere t (held_by (kind_at r t))

-- The run does not come to the end of its fuel, and if it is done, it has copied the references.
abbrev pub Goes : Refs → List Reference → Outcome → Type 0
Goes s rs (done t) = Keeps s t × IsClosed s t × AreHere t rs
Goes s rs assert_failed = Unit
Goes s rs out_of_fuel = ⊥

pub same-Keeps : (s : Refs) → IsApart s → Keeps s s
same-Keeps s h = record { apart = h; kinds = λ r. refl; fewer = omega arith; stays = λ r e. e }

pub Keeps-trans : (s t u : Refs) → Keeps s t → Keeps t u → Keeps s u
Keeps-trans s t u h k = record {
  apart = k.apart;
  kinds = λ r. k.kinds r ∙ h.kinds r;
  fewer = omega (arith, h.fewer, k.fewer);
  stays = λ r e. k.stays r (h.stays r e);
}

IsHere-Keeps : (s t : Refs) (r : Reference) → Keeps s t → IsHere s r → IsHere t r
IsHere-Keeps s t (ref r) k h = k.stays r h
IsHere-Keeps s t null_ref k h = tt
IsHere-Keeps s t tombstone_ref k h = tt

AreHere-Keeps : (s t : Refs) (rs : List Reference) → Keeps s t → AreHere s rs → AreHere t rs
AreHere-Keeps s t [] k h = tt
AreHere-Keeps s t (r ∷ rs) k (h, hs) = (IsHere-Keeps s t r k h, AreHere-Keeps s t rs k hs)

IsClosed-trans : (s t u : Refs) → Keeps t u → IsClosed s t → IsClosed t u → IsClosed s u
IsClosed-trans s t u k f g r e = elim (g r e) [
  | inr held ↦ inr held
  | inl before ↦ elim (f r before) [
    | inl first ↦ inl first
    | inr held ↦ inr (
        subst (λ o. AreHere u (held_by o)) (sym (k.kinds r))
          (AreHere-Keeps t u (held_by (kind_at r t)) k held))
  ]
]

module _ (f : Reference → Refs → Outcome) (n : ℕ)
    (goes : (r : Reference) (s : Refs) → IsApart s → uncopied s < n → Goes s (r ∷ []) (f r s)) where
  after_first :
      (s : Refs) (r : Reference) (rs : List Reference) (o : Outcome)
      → Goes s (r ∷ []) o
      → ((t : Refs) → Keeps s t → Goes t rs (for_each f rs t))
      → Goes s (r ∷ rs) (and_then o (for_each f rs))
  after_first s r rs (done t) (h, c, (a, _)) k = both (for_each f rs t) (k t h)
    where
      both : (o : Outcome) → Goes t rs o → Goes s (r ∷ rs) o
      both (done u) (h₁, c₁, a₁) =
          (Keeps-trans s t u h h₁, IsClosed-trans s t u h₁ c c₁, (IsHere-Keeps t u r h₁ a, a₁))
      both assert_failed g = tt
      both out_of_fuel g = g
  after_first s r rs assert_failed h k = tt
  after_first s r rs out_of_fuel h k = h

  pub for_each-Goes :
      (rs : List Reference) (s : Refs) → IsApart s → uncopied s < n → Goes s rs (for_each f rs s)
  unfolding for_each
  for_each-Goes [] s h l = (same-Keeps s h, (λ r e. inl e), tt)
  for_each-Goes (r ∷ rs) s h l =
      after_first s r rs (f r s) (goes r s h l)
        (λ t k. for_each-Goes rs t k.apart (omega (arith, l, k.fewer)))

set_count_kind :
    (addr n : ℕ) (s : Refs) (o : Option (Option Block))
    → kind_of (set_count addr n s).values o ≡ kind_of s.values o
set_count_kind addr n s none = refl
set_count_kind addr n s (some none) = refl
set_count_kind addr n s (some (some v)) = elim (Bool-cases (v.addr == addr)) [
  | inl e ↦
      let same : v.addr ≡ addr = ground arith in rw e (ap (λ a. some (s.values a).kind) (sym same))
  | inr e ↦ rw e refl
]

pub counted-Keeps : (addr n : ℕ) (s : Refs) → IsApart s → Keeps s (set_count addr n s)
counted-Keeps addr n s h = record {
  apart = record { once = h.once; taken = h.taken };
  kinds = λ r. set_count_kind addr n s (get_elem? s.ref_table r);
  fewer = omega arith;
  stays = λ r e. e;
}

-- The block that a copy is put into.
pub record Fresh (s : Refs) (size : ℕ) (got : Block) (p : Pool) : Type 0 where
  pub bytes : (a : ℕ) → count_holding a p.free_list ≤ count_holding a s.pool.free_list
  pub base : p.memory_pool ≡ s.pool.memory_pool
  pub extent : p.memory_size ≡ s.pool.memory_size
  pub was_free : count_holding got.addr s.pool.free_list ≡ 1
  pub now_taken : count_holding got.addr p.free_list ≡ 0
  pub in_half : is_pool_address got.addr s.pool ≡ true

pub mm_malloc-Fresh :
    (s : Refs) (size : ℕ) (got : Block) (p : Pool)
    → IsApart s
    → 0 < size
    → mm_malloc size s.pool ≡ some (got, p)
    → Fresh s size got p
unfolding count_holding
mm_malloc-Fresh s size got p h l e =
    let (conserves, base, extent, fits) = mm_malloc-Conserves size s.pool p got e in
    let own : count_holding got.addr (got ∷ []) ≡ 1 = ground (arith, fits) in
    let all = conserves.bytes got.addr in
    let once = h.once got.addr in
    record {
      bytes = λ a. omega (arith, conserves.bytes a);
      base = base;
      extent = extent;
      was_free = ground (arith, own, all, once);
      now_taken = ground (arith, own, all, once);
      in_half = ground (arith, own, all, once);
    }

abbrev pub moved : Refs → ℕ → Block → Block → Pool → Refs
moved s r v got p =
    record (write_value got.addr (record { kind = (s.values v.addr).kind; ref_count = 1 }) s) {
      pool = p;
      ref_table = set s.ref_table r (some (block got.addr v.value_size));
    }
