-- ===== src/Subpython/Refs/Table.antt =====
-- The reference table: the values that it names are the live blocks of the pool, through make_ref
-- and the release of a value.
use cs_24_coursework.Prelude.{
  ℕ, suc, ◌≤◌, ◌≡◌, refl, sym, ap, ◌∙◌, true, Option, none, some, List, ◌==◌, get_elem?, arith,
}
use mathlib.Core.Path.{subst}
use mathlib.Core.Option.{some-injective}
use cs_24_coursework.Subpython.Pool.{Block, Pool, mm_malloc, mm_free, is_pool_address}
use cs_24_coursework.Subpython.Pool.Bytes.{
  count_holding, total_size, Conserves, mm_malloc-Conserves,
}
use cs_24_coursework.Subpython.Pool.Reach.{sys, IsTiled}
use cs_24_coursework.Subpython.Refs.{
  Kind, Value, Refs, find_unused, assign_reference, make_ref, aligned, refs_used, initialize,
  release, write_value,
}
use cs_24_coursework.Subpython.Refs.Entries.{
  used, Enters, find_unused_entry, put_entry-Enters, set-Leaves,
}

-- The free blocks and those of the table tile the pool.
abbrev pub IsTable : ℕ → ℕ → Refs → Type 0
IsTable size pool s = IsTiled size pool (sys s.pool (used s.ref_table))

enter-IsTiled :
    (size pool : ℕ) (p p' : Pool) (table after : List (Option Block)) (i : ℕ) (v : Block)
    → IsTiled size pool (sys p (used table))
    → Conserves p.free_list v p'.free_list
    → p'.memory_pool ≡ p.memory_pool
    → p'.memory_size ≡ p.memory_size
    → Enters table after i v
    → IsTiled size pool (sys p' (used after))
unfolding is_pool_address
enter-IsTiled size pool p p' table after i v h c same_pool same_size r = record {
  bytes = λ a. ground (arith, h.bytes a, c.bytes a, r.bytes a);
  total = omega (arith, h.total, c.total, r.total);
  base = same_pool ∙ h.base;
  extent = same_size ∙ h.extent;
}

pub write_value_self : (a : ℕ) (v : Value) (s : Refs) → (write_value a v s).values a ≡ v
write_value_self a v s = let e : (a == a) ≡ true = ground arith in rw e refl

-- What make_ref leaves at the reference r that it gives back.
pub record Makes (size pool : ℕ) (kind : Kind) (requested : ℕ) (s s' : Refs) (r : ℕ) : Type 0 where
  pub value : Block
  pub entry : get_elem? s'.ref_table r ≡ some (some value)
  pub enough : requested ≤ value.value_size
  pub initial : s'.values value.addr ≡ record { kind = kind; ref_count = 1 }
  pub others :
      (j : ℕ) (b : Block)
      → get_elem? s.ref_table j ≡ some (some b)
      → get_elem? s'.ref_table j ≡ some (some b)
  pub counted : refs_used s' ≡ suc (refs_used s)
  pub tiled : IsTable size pool s'

initialize-Makes :
    (size pool : ℕ) (kind : Kind) (requested : ℕ) (s s' : Refs) (r : ℕ) (o : Option (Block × Pool))
    → IsTable size pool s
    → mm_malloc requested s.pool ≡ o
    → initialize kind o s ≡ some (r, s')
    → Makes size pool kind requested s s' r
unfolding assign_reference refs_used
initialize-Makes size pool kind requested s s' r none h m e = cc
initialize-Makes size pool kind requested s s' r (some (v, p)) h m e =
    let c = mm_malloc-Conserves requested s.pool p v m in
    let t : Refs =
      write_value v.addr (record { kind = kind; ref_count = 1 }) (record s { pool = p }) in
    let x = put_entry-Enters (find_unused s.ref_table) v t (find_unused_entry s.ref_table) in
    subst (λ (out : ℕ × Refs). Makes size pool kind requested s out.1 out.0) (some-injective _ _ e)
      (record {
        value = v;
        entry = x.0.entry;
        enough = c.3;
        initial =
            ap (λ (f : ℕ → Value). f v.addr) x.2
            ∙ write_value_self v.addr _ (record s { pool = p });
        others = x.0.others;
        counted = x.0.counted;
        tiled =
            subst (λ q. IsTiled size pool (sys q (used (assign_reference v t).1.ref_table)))
              (sym x.1) (enter-IsTiled size pool s.pool p s.ref_table _ _ v h c.0 c.1 c.2 x.0);
      })

-- When the free blocks and those of the table tile the pool and make_ref succeeds: the reference that
-- it gives back is an entry with a block of at least the size asked for, rounded up to the alignment,
-- with the type asked for and the count 1; every other reference keeps its block, one more is in use,
-- and the free blocks and those of the table again tile the pool.
pub make_ref-Makes :
    (size pool : ℕ) (kind : Kind) (n : ℕ) (s s' : Refs) (r : ℕ)
    → IsTable size pool s
    → make_ref kind n s ≡ some (r, s')
    → Makes size pool kind (aligned n) s s' r
unfolding make_ref
make_ref-Makes size pool kind n s s' r h e =
    initialize-Makes size pool kind (aligned n) s s' r (mm_malloc (aligned n) s.pool) h refl e

pub release-IsTable :
    (size pool : ℕ) (s : Refs) (r : ℕ) (v : Block)
    → IsTable size pool s
    → get_elem? s.ref_table r ≡ some (some v)
    → IsTable size pool (release r v s) × (refs_used s ≡ suc (refs_used (release r v s)))
unfolding release mm_free is_pool_address refs_used count_holding total_size
release-IsTable size pool s r v h e =
    let l = set-Leaves s.ref_table r v e in
    (
      record {
        bytes = λ a. ground (arith, h.bytes a, l.bytes a);
        total = omega (arith, h.total, l.total);
        base = h.base;
        extent = h.extent;
      },
      l.counted,
    )
