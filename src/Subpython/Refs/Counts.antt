-- ===== src/Subpython/Refs/Counts.antt =====
-- The reference count of a value that holds no references: the decref calls up to the last one.
use cs_24_coursework.Prelude.{
  ℕ, zero, suc, ◌-◌, ◌<◌, ◌≡◌, refl, ap, ◌∙◌, inl, inr, false, Option, none, some, List, [], ◌∷◌,
  ◌==◌, length, get_elem?, get_elem?-set_self, Bool-cases, arith,
}
use cs_24_coursework.Subpython.Pool.{Block, Pool, is_pool_address}
use cs_24_coursework.Subpython.Refs.{
  ref, Value, Refs, deref, in_pool, refs_used, recurse, release, decref, done, Outcome, and_then,
  drop_reference, for_each, set_count,
}
use cs_24_coursework.Subpython.Refs.Table.{IsTable, write_value_self, release-IsTable}

-- That many calls of decref on the reference.
unfoldable pub decref_each : ℕ → ℕ → Refs → Outcome
decref_each r zero s = done s
decref_each r (suc k) s = and_then (decref 1 (ref r) s) (decref_each r k)

pub in_pool_entry :
    (pool : Pool) (o : Option (Option Block)) (v : Block)
    → in_pool pool o ≡ some v
    → o ≡ some (some v)
in_pool_entry pool none v e = cc
in_pool_entry pool (some none) v e = cc
in_pool_entry pool (some (some w)) v e = elim (Bool-cases (is_pool_address w.addr pool)) [
  | inl p ↦ ap some (rw p at e)
  | inr p ↦ absurd (none_absurd (rw p at e))
]
  where
    none_absurd : none ≡ some v → ⊥
    none_absurd h = cc

pub get_elem?-lt :
    (table : List (Option Block)) (i : ℕ) (o : Option Block)
    → get_elem? table i ≡ some o
    → i < length table
get_elem?-lt [] i o e = cc
get_elem?-lt (x ∷ table) zero o e = omega arith
get_elem?-lt (x ∷ table) (suc i) o e = omega (arith, get_elem?-lt table i o e)

-- A value with the count c + 1 that holds no references.
pub record IsLeaf (s : Refs) (r : ℕ) (v : Block) (c : ℕ) : Type 0 where
  pub found : deref r s ≡ some v
  pub holds_none : recurse (s.values v.addr).kind ≡ []
  pub counted : (s.values v.addr).ref_count ≡ suc c

-- What the calls but the last leave, and what the last one leaves.
pub record Frees (size pool : ℕ) (s : Refs) (r c : ℕ) : Type 0 where
  pub before : Refs
  pub lives : decref_each r c s ≡ done before
  pub same_table : before.ref_table ≡ s.ref_table
  pub same_pool : before.pool ≡ s.pool
  pub after : Refs
  pub ends : decref 1 (ref r) before ≡ done after
  pub entry : get_elem? after.ref_table r ≡ some none
  pub counted : refs_used s ≡ suc (refs_used after)
  pub tiled : IsTable size pool after

-- One call with more references to come, and the last call.
decref_kept :
    (s : Refs) (r : ℕ) (v : Block) (c : ℕ)
    → IsLeaf s r v (suc c)
    → decref 1 (ref r) s ≡ done (set_count v.addr (suc c) s)
unfolding decref drop_reference
decref_kept s r v c h =
    let less : (s.values v.addr).ref_count - 1 ≡ suc c = omega (arith, h.counted) in
    let more : (suc c == 0) ≡ false = ground arith in rw h.found (rw less (rw more refl))

decref_last :
    (s : Refs) (r : ℕ) (v : Block)
    → IsLeaf s r v 0
    → decref 1 (ref r) s ≡ done (release r v (set_count v.addr 0 s))
unfolding decref drop_reference for_each
decref_last s r v h = rw h.found (rw h.counted (rw h.holds_none refl))

kept-IsLeaf :
    (s : Refs) (r : ℕ) (v : Block) (c : ℕ)
    → IsLeaf s r v (suc c)
    → IsLeaf (set_count v.addr (suc c) s) r v c
unfolding deref
kept-IsLeaf s r v c h =
    let now =
      write_value_self v.addr (record { kind = (s.values v.addr).kind; ref_count = suc c }) s in
    record {
      found = h.found;
      holds_none = ap (λ (x : Value). recurse x.kind) now ∙ h.holds_none;
      counted = ap (λ (x : Value). x.ref_count) now;
    }

last-Frees :
    (size pool : ℕ) (s : Refs) (r : ℕ) (v : Block)
    → IsTable size pool s
    → IsLeaf s r v 0
    → Frees size pool s r 0
unfolding decref_each deref release refs_used
last-Frees size pool s r v t h =
    let entry = in_pool_entry s.pool (get_elem? s.ref_table r) v h.found in
    let freed = release-IsTable size pool (set_count v.addr 0 s) r v t entry in
    record {
      before = s;
      lives = refl;
      same_table = refl;
      same_pool = refl;
      after = release r v (set_count v.addr 0 s);
      ends = decref_last s r v h;
      entry = get_elem?-set_self s.ref_table r none (get_elem?-lt s.ref_table r (some v) entry);
      counted = freed.1;
      tiled = freed.0;
    }

-- A value that holds no references and has the count c + 1, in a table whose blocks and the free ones
-- tile the pool: c calls of decref leave the table and the pool as they are, so that the value lives,
-- and the next call frees it. Then its entry is unused, one reference less is in use, and the free
-- blocks and those of the table again tile the pool.
pub decref_each-Frees :
    (size pool : ℕ) (s : Refs) (r : ℕ) (v : Block) (c : ℕ)
    → IsTable size pool s
    → IsLeaf s r v c
    → Frees size pool s r c
unfolding decref_each refs_used
decref_each-Frees size pool s r v zero t h = last-Frees size pool s r v t h
decref_each-Frees size pool s r v (suc c) t h =
    later (decref_each-Frees size pool (set_count v.addr (suc c) s) r v c t (kept-IsLeaf s r v c h))
      (decref_kept s r v c h)
  where
    later :
        Frees size pool (set_count v.addr (suc c) s) r c
        → decref 1 (ref r) s ≡ done (set_count v.addr (suc c) s)
        → Frees size pool s r (suc c)
    later f e = record {
      before = f.before;
      lives = rw e f.lives;
      same_table = f.same_table;
      same_pool = f.same_pool;
      after = f.after;
      ends = f.ends;
      entry = f.entry;
      counted = f.counted;
      tiled = f.tiled;
    }
