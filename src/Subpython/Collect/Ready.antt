-- ===== src/Subpython/Collect/Ready.antt =====
-- The recursion of the collector makes no fault when there is room and every reference has a value.
use cs_24_coursework.Prelude.{
  ℕ, zero, suc, ◌+◌, ◌-◌, ◌<◌, ◌≡◌, refl, sym, ◌∙◌, false, Option, none, some, List, [], ◌∷◌,
  get_elem?, arith, Bool-cases, inl, inr,
}
use mathlib.Core.Path.{subst}
use cs_24_coursework.Subpython.Pool.{Block, block, Pool, mm_malloc, is_pool_address}
use cs_24_coursework.Subpython.Refs.{
  Reference, ref, null_ref, tombstone_ref, Kind, Refs, Outcome, done, assert_failed, out_of_fuel,
  and_then, for_each, recurse,
}
use cs_24_coursework.Subpython.Collect.{copy_to, copy_entry, operate_global}
use cs_24_coursework.Subpython.Collect.Measure.{uncopied}
use cs_24_coursework.Subpython.Collect.Copies.{
  kind_at, IsApart, Keeps, Goes, held_by, mm_malloc-Fresh, moved,
}
use cs_24_coursework.Subpython.Collect.Moves.{operate_global-Goes, moved-Keeps, moved_fewer}
use cs_24_coursework.Subpython.Collect.Room.{need-set, need_entry, HasRoom, mm_malloc_split}

-- The reference has a value.
abbrev pub IsNamed : Refs → Reference → Type 0
IsNamed s (ref r) = (k : Kind) × (kind_at r s ≡ some k)
IsNamed s null_ref = Unit
IsNamed s tombstone_ref = Unit

abbrev pub AreNamed : Refs → List Reference → Type 0
AreNamed s [] = Unit
AreNamed s (r ∷ rs) = IsNamed s r × AreNamed s rs

-- What a value holds has a value.
abbrev pub IsWhole : Refs → Type 0
IsWhole s = (r : ℕ) → AreNamed s (held_by (kind_at r s))

IsNamed-Keeps : (s t : Refs) (r : Reference) → Keeps s t → IsNamed s r → IsNamed t r
IsNamed-Keeps s t (ref r) k (kind, e) = (kind, k.kinds r ∙ e)
IsNamed-Keeps s t null_ref k h = tt
IsNamed-Keeps s t tombstone_ref k h = tt

AreNamed-Keeps : (s t : Refs) (rs : List Reference) → Keeps s t → AreNamed s rs → AreNamed t rs
AreNamed-Keeps s t [] k h = tt
AreNamed-Keeps s t (r ∷ rs) k (h, hs) = (IsNamed-Keeps s t r k h, AreNamed-Keeps s t rs k hs)

IsWhole-Keeps : (s t : Refs) → Keeps s t → IsWhole s → IsWhole t
IsWhole-Keeps s t k h r =
    subst (λ o. AreNamed t (held_by o)) (sym (k.kinds r))
      (AreNamed-Keeps s t (held_by (kind_at r s)) k (h r))

-- The run is done, and there is room for what is still to be copied.
abbrev pub Runs : Outcome → Type 0
Runs (done t) = HasRoom t
Runs assert_failed = ⊥
Runs out_of_fuel = ⊥

-- Where a run starts.
pub record IsReady (n : ℕ) (s : Refs) : Type 0 where
  pub apart : IsApart s
  pub fuel : uncopied s < n
  pub room : HasRoom s
  pub whole : IsWhole s

module _ (f : Reference → Refs → Outcome) (n : ℕ)
    (goes : (r : Reference) (s : Refs) → IsApart s → uncopied s < n → Goes s (r ∷ []) (f r s))
    (runs : (r : Reference) (s : Refs) → IsReady n s → IsNamed s r → Runs (f r s)) where
  pub for_each-Runs :
      (rs : List Reference) (s : Refs) → IsReady n s → AreNamed s rs → Runs (for_each f rs s)
  unfolding for_each
  for_each-Runs [] s h named = h.room
  for_each-Runs (r ∷ rs) s h (named, others) =
      next (f r s) (goes r s h.apart h.fuel) (runs r s h named)
        (λ t ready k. for_each-Runs rs t ready k)
    where
      next :
          (o : Outcome)
          → Goes s (r ∷ []) o
          → Runs o
          → ((t : Refs) → IsReady n t → AreNamed t rs → Runs (for_each f rs t))
          → Runs (and_then o (for_each f rs))
      next (done t) (keeps, _, _) room k =
          k t
            (record {
              apart = keeps.apart;
              fuel = omega (arith, h.fuel, keeps.fewer);
              room = room;
              whole = IsWhole-Keeps s t keeps h.whole;
            })
            (AreNamed-Keeps s t rs keeps others)
      next assert_failed g room k = room
      next out_of_fuel g room k = room

-- A value that is copied leaves room for the others.
moved-HasRoom :
    (s : Refs) (r : ℕ) (v : Block) (room : HasRoom s)
    → IsApart s
    → get_elem? s.ref_table r ≡ some (some v)
    → is_pool_address v.addr s.pool ≡ false
    → (got : Block) × (p : Pool) × (mm_malloc v.value_size s.pool ≡ some (got, p))
      × HasRoom (moved s r v got p)
unfolding is_pool_address
moved-HasRoom s r v room h entry out =
    let base = s.pool.memory_pool in
    let extent = s.pool.memory_size in
    let got = block room.addr v.value_size in
    let p = record s.pool {
      free_list = block (room.addr + v.value_size) (room.size - v.value_size) ∷ [];
    } in
    let part = need_entry base extent s.ref_table r v entry out in
    let split =
      mm_malloc_split s.pool room.addr room.size v.value_size room.free
        (omega (arith, part, room.room)) room.small in
    let fresh = mm_malloc-Fresh s v.value_size got p h (h.taken r v entry).1 split in
    let fewer = need-set base extent s.ref_table r v got entry out fresh.in_half in
    (
      got,
      p,
      split,
      record {
        addr = room.addr + v.value_size;
        size = room.size - v.value_size;
        free = refl;
        room = omega (arith, fewer, room.room);
        small = omega (arith, room.small);
      },
    )

module _ (again : Reference → Refs → Outcome) (n : ℕ)
    (goes : (r : Reference) (s : Refs) → IsApart s → uncopied s < n → Goes s (r ∷ []) (again r s))
    (runs : (r : Reference) (s : Refs) → IsReady n s → IsNamed s r → Runs (again r s)) where
  copy_to-Runs :
      (s : Refs) (r : ℕ) (v : Block)
      → IsReady (suc n) s
      → get_elem? s.ref_table r ≡ some (some v)
      → is_pool_address v.addr s.pool ≡ false
      → Runs (copy_to again r v (mm_malloc v.value_size s.pool) s)
  copy_to-Runs s r v h entry out =
      let (got, p, e, room) = moved-HasRoom s r v h.room h.apart entry out in
      let fresh = mm_malloc-Fresh s v.value_size got p h.apart (h.apart.taken r v entry).1 e in
      let keeps = moved-Keeps s r v got p h.apart entry fresh out in
      let fewer = moved_fewer s r v got p h.apart entry fresh out in
      let held : held_by (kind_at r s) ≡ recurse (s.values v.addr).kind = rw entry refl in
      let named = subst (AreNamed s) held (h.whole r) in
      rw e (
        for_each-Runs again n goes runs (recurse (s.values v.addr).kind) (moved s r v got p)
          (record {
            apart = keeps.apart;
            fuel = omega (arith, h.fuel, fewer);
            room = room;
            whole = IsWhole-Keeps s (moved s r v got p) keeps h.whole;
          })
          (AreNamed-Keeps s (moved s r v got p) (recurse (s.values v.addr).kind) keeps named))

  copy_entry-Runs :
      (s : Refs) (r : ℕ) (o : Option (Option Block))
      → IsReady (suc n) s
      → IsNamed s (ref r)
      → get_elem? s.ref_table r ≡ o
      → Runs (copy_entry again r o s)
  copy_entry-Runs s r none h (k, named) e = absurd (no_kind (sym (rw e refl) ∙ named))
    where
      no_kind : none ≡ some k → ⊥
      no_kind q = cc
  copy_entry-Runs s r (some none) h (k, named) e = absurd (no_kind (sym (rw e refl) ∙ named))
    where
      no_kind : none ≡ some k → ⊥
      no_kind q = cc
  copy_entry-Runs s r (some (some v)) h named e =
      elim (Bool-cases (is_pool_address v.addr s.pool)) [
        | inl found ↦ rw found (record {
          addr = h.room.addr;
          size = h.room.size;
          free = h.room.free;
          room = h.room.room;
          small = h.room.small;
        })
        | inr out ↦ rw out (copy_to-Runs s r v h e out)
      ]

pub operate_global-Runs :
    (n : ℕ) (r : Reference) (s : Refs) → IsReady n s → IsNamed s r → Runs (operate_global n r s)
unfolding operate_global
operate_global-Runs n null_ref s h named = h.room
operate_global-Runs n tombstone_ref s h named = h.room
operate_global-Runs zero (ref r) s h named = absurd (omega (arith, h.fuel))
operate_global-Runs (suc n) (ref r) s h named =
    copy_entry-Runs (operate_global n) n (λ i t k m. operate_global-Goes n i t k m)
      (λ i t k m. operate_global-Runs n i t k m) s r (get_elem? s.ref_table r) h named refl
