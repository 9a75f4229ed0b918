-- ===== src/Subpython/Collect/Moves.antt =====
-- One value is copied, and the recursion and the collection.
use cs_24_coursework.Prelude.{
  ℕ, zero, suc, ◌+◌, ◌%◌, ◌^◌, ◌<◌, ◌≡◌, refl, sym, ◌∙◌, true, false, Option, none, some, [], ◌∷◌,
  get_elem?, get_elem?-set_self, get_elem?-set_ne, ◌==◌, arith, Bool-cases, ◌⊎◌, inl, inr,
}
use mathlib.Core.Option.{some-injective}
use mathlib.Core.Path.{subst}
use cs_24_coursework.Subpython.Pool.{Block, block, Pool, mm_malloc, is_pool_address}
use cs_24_coursework.Subpython.Pool.Bytes.{count_holding}
use cs_24_coursework.Subpython.Refs.{
  Reference, ref, null_ref, tombstone_ref, Kind, Refs, Outcome, done, assert_failed, out_of_fuel,
  for_each, recurse,
}
use cs_24_coursework.Subpython.Refs.Counts.{get_elem?-lt}
use cs_24_coursework.Subpython.Collect.{copy_to, copy_entry, operate_global}
use cs_24_coursework.Subpython.Collect.Measure.{uncopied, outside-set}
use cs_24_coursework.Subpython.Collect.Copies.{
  kind_of, kind_at, IsApart, Keeps, Goes, same-Keeps, Keeps-trans, IsClosed, AreHere, held_by, here,
  for_each-Goes, counted-Keeps, Fresh, mm_malloc-Fresh, moved,
}

module _ (s : Refs) (r : ℕ) (v got : Block) (p : Pool) (h : IsApart s)
    (entry : get_elem? s.ref_table r ≡ some (some v)) (fresh : Fresh s v.value_size got p) where
  entry_self : get_elem? (moved s r v got p).ref_table r ≡ some (some (block got.addr v.value_size))
  entry_self =
      get_elem?-set_self s.ref_table r (some (block got.addr v.value_size))
        (get_elem?-lt s.ref_table r (some v) entry)

  entry_other :
      (i : ℕ)
      → (r == i) ≡ false
      → get_elem? (moved s r v got p).ref_table i ≡ get_elem? s.ref_table i
  entry_other i e =
      get_elem?-set_ne s.ref_table (some (block got.addr v.value_size))
        (λ same. ground (arith, e, same))

  moved_taken :
      (i : ℕ) (w : Block)
      → get_elem? (moved s r v got p).ref_table i ≡ some (some w)
      → (count_holding w.addr p.free_list ≡ 0) × (0 < w.value_size)
  moved_taken i w e = elim (Bool-cases (r == i)) [
    | inl same ↦
        let eq : r ≡ i = ground arith in
        let at : get_elem? (moved s r v got p).ref_table r ≡ some (some w) =
          subst (λ j. get_elem? (moved s r v got p).ref_table j ≡ some (some w)) (sym eq) e in
        let is : block got.addr v.value_size ≡ w =
          some-injective _ _ (some-injective _ _ (sym entry_self ∙ at)) in
        subst (λ (b : Block). (count_holding b.addr p.free_list ≡ 0) × (0 < b.value_size)) is
          (fresh.now_taken, (h.taken r v entry).1)
    | inr other ↦
        let (free, size) = h.taken i w (sym (entry_other i other) ∙ e) in
        (omega (arith, free, fresh.bytes w.addr), size)
  ]

  kept_kind :
      (o : Option (Option Block))
      → ((w : Block) → o ≡ some (some w) → count_holding w.addr s.pool.free_list ≡ 0)
      → kind_of (moved s r v got p).values o ≡ kind_of s.values o
  kept_kind none t = refl
  kept_kind (some none) t = refl
  kept_kind (some (some w)) t = elim (Bool-cases (w.addr == got.addr)) [
    | inl e ↦
        let same : w.addr ≡ got.addr = ground arith in
        let free : count_holding got.addr s.pool.free_list ≡ 0 =
          subst (λ a. count_holding a s.pool.free_list ≡ 0) same (t w refl) in
        absurd (omega (arith, free, fresh.was_free))
    | inr e ↦ rw e refl
  ]

  moved_kind : (i : ℕ) → kind_at i (moved s r v got p) ≡ kind_at i s
  moved_kind i = elim (Bool-cases (r == i)) [
    | inl same ↦
        let eq : r ≡ i = ground arith in
        let self : (got.addr == got.addr) ≡ true = ground arith in
        rw (sym eq) (rw entry_self (rw entry (rw self refl)))
    | inr other ↦
        rw (entry_other i other) (kept_kind (get_elem? s.ref_table i) (λ w e. (h.taken i w e).0))
  ]

  pub moved_fewer :
      is_pool_address v.addr s.pool ≡ false → suc (uncopied (moved s r v got p)) ≡ uncopied s
  unfolding is_pool_address
  moved_fewer out = rw fresh.base (
      rw fresh.extent (
        outside-set s.pool.memory_pool s.pool.memory_size s.ref_table r v
          (block got.addr v.value_size) entry out fresh.in_half))

  moved-here_self : here r (moved s r v got p) ≡ true
  unfolding is_pool_address
  moved-here_self = rw entry_self (rw fresh.base (rw fresh.extent fresh.in_half))

  moved-here_other : (i : ℕ) → (r == i) ≡ false → here i (moved s r v got p) ≡ here i s
  moved-here_other i e = rw (entry_other i e) (rw fresh.base (rw fresh.extent refl))

  moved_stays : (i : ℕ) → here i s ≡ true → here i (moved s r v got p) ≡ true
  moved_stays i e = elim (Bool-cases (r == i)) [
    | inl same ↦
        let eq : r ≡ i = ground arith in
        subst (λ j. here j (moved s r v got p) ≡ true) eq moved-here_self
    | inr other ↦ moved-here_other i other ∙ e
  ]

  moved-here : (i : ℕ) → here i (moved s r v got p) ≡ true → (here i s ≡ true) ⊎ (r ≡ i)
  moved-here i e = elim (Bool-cases (r == i)) [
    | inl same ↦ let eq : r ≡ i = ground arith in inr eq
    | inr other ↦ inl (sym (moved-here_other i other) ∙ e)
  ]

  pub moved-Keeps : is_pool_address v.addr s.pool ≡ false → Keeps s (moved s r v got p)
  unfolding is_pool_address
  moved-Keeps out = record {
    apart = record {
      once = λ a. rw fresh.base (rw fresh.extent (omega (arith, h.once a, fresh.bytes a)));
      taken = moved_taken;
    };
    kinds = moved_kind;
    fewer = omega (arith, moved_fewer out);
    stays = moved_stays;
  }

module _ (again : Reference → Refs → Outcome) (n : ℕ)
    (goes : (r : Reference) (s : Refs)
      → IsApart s
      → uncopied s < n
      → Goes s (r ∷ []) (again r s)) where
  -- What the recursion on the values that a copy holds gives, for the copy.
  with_held :
      (s t : Refs) (r : ℕ) (k : Kind) (o : Outcome)
      → Keeps s t
      → here r t ≡ true
      → kind_at r s ≡ some k
      → ((i : ℕ) → here i t ≡ true → (here i s ≡ true) ⊎ (r ≡ i))
      → Goes t (recurse k) o
      → Goes s (ref r ∷ []) o
  with_held s t r k (done u) h self kind new (h₁, c, a) =
      (Keeps-trans s t u h h₁, closed, (h₁.stays r self, tt))
    where
      own : AreHere u (held_by (kind_at r u))
      own = subst (λ m. AreHere u (held_by m)) (sym (h₁.kinds r ∙ h.kinds r ∙ kind)) a

      closed : IsClosed s u
      closed i e = elim (c i e) [
        | inr held ↦ inr held
        | inl before ↦ elim (new i before) [
          | inl first ↦ inl first
          | inr same ↦ inr (subst (λ j. AreHere u (held_by (kind_at j u))) same own)
        ]
      ]
  with_held s t r k assert_failed h self kind new g = tt
  with_held s t r k out_of_fuel h self kind new g = g

  copy_to-Goes :
      (s : Refs) (r : ℕ) (v : Block) (o : Option (Block × Pool))
      → IsApart s
      → uncopied s < suc n
      → get_elem? s.ref_table r ≡ some (some v)
      → is_pool_address v.addr s.pool ≡ false
      → mm_malloc v.value_size s.pool ≡ o
      → Goes s (ref r ∷ []) (copy_to again r v o s)
  copy_to-Goes s r v none h l entry out e = tt
  copy_to-Goes s r v (some (got, p)) h l entry out e =
      let fresh = mm_malloc-Fresh s v.value_size got p h (h.taken r v entry).1 e in
      let keeps = moved-Keeps s r v got p h entry fresh out in
      let fewer = moved_fewer s r v got p h entry fresh out in
      let kind = (s.values v.addr).kind in
      with_held s (moved s r v got p) r kind (for_each again (recurse kind) (moved s r v got p))
        keeps (moved-here_self s r v got p h entry fresh) (rw entry refl)
        (moved-here s r v got p h entry fresh)
        (for_each-Goes again n goes (recurse kind) (moved s r v got p) keeps.apart
          (omega (arith, l, fewer)))

  copy_entry-Goes :
      (s : Refs) (r : ℕ) (o : Option (Option Block))
      → IsApart s
      → uncopied s < suc n
      → get_elem? s.ref_table r ≡ o
      → Goes s (ref r ∷ []) (copy_entry again r o s)
  unfolding is_pool_address
  copy_entry-Goes s r none h l e = tt
  copy_entry-Goes s r (some none) h l e = tt
  copy_entry-Goes s r (some (some v)) h l e = elim (Bool-cases (is_pool_address v.addr s.pool)) [
    | inl found ↦ rw found (
      counted-Keeps v.addr (((s.values v.addr).ref_count + 1) % 2 ^ 64) s h,
      (λ i k. inl k),
      (rw e found, tt),
    )
    | inr out ↦ rw out (copy_to-Goes s r v (mm_malloc v.value_size s.pool) h l e out refl)
  ]

pub operate_global-Goes :
    (n : ℕ) (r : Reference) (s : Refs)
    → IsApart s
    → uncopied s < n
    → Goes s (r ∷ []) (operate_global n r s)
unfolding operate_global
operate_global-Goes n null_ref s h l = (same-Keeps s h, (λ i e. inl e), (tt, tt))
operate_global-Goes n tombstone_ref s h l = (same-Keeps s h, (λ i e. inl e), (tt, tt))
operate_global-Goes zero (ref r) s h l = absurd (omega (arith, l))
operate_global-Goes (suc n) (ref r) s h l =
    copy_entry-Goes (operate_global n) n (λ i t k m. operate_global-Goes n i t k m) s r
      (get_elem? s.ref_table r) h l refl
