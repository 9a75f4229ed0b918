-- ===== src/Proxy/Cache/Chains.antt =====
-- The chains of the table, and what cache_insert and contains do to them and to the queue.
use cs_24_coursework.Prelude.{
  ℕ, zero, suc, ◌+◌, ◌%◌, ◌^◌, ◌≤◌, ◌<◌, ◌≡◌, ◌≢◌, refl, sym, ◌∙◌, true, false, Option, none, some,
  List, [], ◌∷◌, ◌++◌, length, leb, ◌==◌, arith,
}
use mathlib.Core.Path.{subst}
use cs_24_coursework.Prelude.Answer.{answer}
use cs_24_coursework.Proxy.Queue.{Queue, put, init_node}
use cs_24_coursework.Proxy.Queue.Links.{
  NotIn, NoRepeat, IsQueue, put_other, put_self, Linked-put_prev, Linked-put_next, enqueue-IsQueue,
}
use cs_24_coursework.Proxy.Queue.Update.{last_of, NotIn-last}
use cs_24_coursework.Proxy.Cache.{
  Cache, max_cache_size, max_object_size, put_at, new_node, chain_end, append_chain, find_key,
  bin_of, evict, cache_insert, contains,
}

-- The nodes of a chain, from its first one on.
abbrev pub Chain : (ℕ → Option ℕ) → Option ℕ → List ℕ → Type 0
Chain next o [] = o ≡ none
Chain next o (x ∷ xs) = (o ≡ some x) × Chain next (next x) xs

-- No node of the list has the key.
abbrev pub NoKey : (ℕ → ℕ) → ℕ → List ℕ → Type 0
NoKey keys key [] = Unit {0}
NoKey keys key (x ∷ xs) = (keys x ≢ key) × NoKey keys key xs

Chain-put :
    (next : ℕ → Option ℕ) (o : Option ℕ) (xs : List ℕ) (n : ℕ) (v : Option ℕ)
    → NotIn n xs
    → Chain next o xs
    → Chain (put next n v) o xs
Chain-put next o [] n v new c = c
Chain-put next o (x ∷ xs) n v new c = (
  c.0,
  subst (λ p. Chain (put next n v) p xs) (sym (put_other next n v x new.0))
      (Chain-put next (next x) xs n v new.1 c.1),
)

NoKey-put_at :
    (keys : ℕ → ℕ) (key : ℕ) (xs : List ℕ) (n k : ℕ)
    → NotIn n xs
    → NoKey keys key xs
    → NoKey (put_at keys n k) key xs
NoKey-put_at keys key [] n k new h = tt
NoKey-put_at keys key (x ∷ xs) n k new h =
    let same : put_at keys n k x ≡ keys x = ground (arith, new.0) in
    ((λ e. h.0 (sym same ∙ e)), NoKey-put_at keys key xs n k new.1 h.1)

chain_end-last_of :
    (c : Cache) (fuel p : ℕ) (o : Option ℕ) (xs : List ℕ)
    → Chain c.hash_table_next o xs
    → length xs ≤ fuel
    → chain_end fuel p o c ≡ answer (last_of p xs)
unfolding chain_end
chain_end-last_of c fuel p o [] h k = rw h refl
chain_end-last_of c zero p o (x ∷ xs) h k = absurd (omega arith)
chain_end-last_of c (suc fuel) p o (x ∷ xs) h k =
    rw (h.0) (chain_end-last_of c fuel x (c.hash_table_next x) xs h.1 (omega arith))

-- A node put at the end of a chain.
Chain-append :
    (next : ℕ → Option ℕ) (x : ℕ) (xs : List ℕ) (n : ℕ)
    → next n ≡ none
    → NotIn n (x ∷ xs)
    → NoRepeat (x ∷ xs)
    → Chain next (next x) xs
    → Chain (put next (last_of x xs) (some n)) (some x) (x ∷ (xs ++ n ∷ []))
Chain-append next x [] n end new d c =
    (refl, (put_self next x (some n), put_other next x (some n) n (λ e. new.0 (sym e)) ∙ end))
Chain-append next x (y ∷ ys) n end new d c =
    let p = last_of y ys in
    let away = NotIn-last x y ys d.0 in
    let here : put next p (some n) x ≡ some y =
      put_other next p (some n) x (λ e. away (sym e)) ∙ c.0 in
    (
      refl,
      subst (λ o. Chain (put next p (some n)) o (y ∷ (ys ++ n ∷ []))) (sym here)
          (Chain-append next y ys n end new.1 d.1 c.1),
    )

find_key-last :
    (c : Cache) (fuel key : ℕ) (o : Option ℕ) (xs : List ℕ) (n : ℕ)
    → Chain c.hash_table_next o (xs ++ n ∷ [])
    → NoKey c.key key xs
    → c.key n ≡ key
    → length xs < fuel
    → find_key fuel key o c ≡ answer (some n)
unfolding find_key
find_key-last c zero key o xs n h none_has here k = absurd (omega arith)
find_key-last c (suc fuel) key o [] n h none_has here k =
    let same : (c.key n == key) ≡ true = ground (arith, here) in rw (h.0) (rw same refl)
find_key-last c (suc fuel) key o (x ∷ xs) n h none_has here k =
    let other : (c.key x == key) ≡ false = ground (arith, none_has.0) in
    rw (h.0) (
      rw other
        (find_key-last c fuel key (c.hash_table_next x) xs n h.1 none_has.1 here (omega arith)))

-- The node is appended to the chain of its bin; the chain is then at the bin.
append_chain-Chain :
    (c : Cache) (fuel bin n : ℕ) (xs : List ℕ)
    → Chain c.hash_table_next (c.arr bin) xs
    → c.hash_table_next n ≡ none
    → NotIn n xs
    → NoRepeat xs
    → length xs ≤ fuel
    → (arr : ℕ → Option ℕ) × (next : ℕ → Option ℕ) × (append_chain fuel bin n (c.arr bin) c
        ≡ answer (record c { arr = arr; hash_table_next = next }))
      × Chain next (arr bin) (xs ++ n ∷ [])
unfolding append_chain
append_chain-Chain c fuel bin n [] h end new d k =
    (put c.arr bin (some n), c.hash_table_next, rw h refl, (put_self c.arr bin (some n), end))
append_chain-Chain c fuel bin n (x ∷ xs) h end new d k =
    let next = put c.hash_table_next (last_of x xs) (some n) in
    let walk = chain_end-last_of c fuel x (c.hash_table_next x) xs h.1 (omega arith) in
    (
      c.arr,
      next,
      rw (h.0) (rw walk refl),
      subst (λ o. Chain next o (x ∷ (xs ++ n ∷ []))) (sym (h.0))
          (Chain-append c.hash_table_next x xs n end new d h.1),
    )

init_node-IsQueue :
    (q : Queue) (nodes : List ℕ) (n : ℕ)
    → NotIn n nodes
    → IsQueue q nodes
    → IsQueue (init_node n q) nodes
unfolding init_node
init_node-IsQueue q nodes n new k = record {
  counted = k.counted;
  starts = k.starts;
  linked =
      Linked-put_prev q.prev (put q.next n none) none nodes q.back n none new
        (Linked-put_next q.prev q.next none nodes q.back n none new k.linked);
  distinct = k.distinct;
}

-- The chain of the bin of a key.
abbrev pub BinHas : (ℕ → List ℕ) → Cache → ℕ → List ℕ → Type 0
BinHas text c key xs = Chain c.hash_table_next (c.arr (bin_of text key)) xs

module _ (text : ℕ → List ℕ) (buffer_length : ℕ → ℕ) where
  evict_nothing :
      (fuel need : ℕ) (c : Cache)
      → c.size + need < max_cache_size
      → 0 < fuel
      → evict text buffer_length fuel need c ≡ answer c
  unfolding evict
  evict_nothing zero need c room k = absurd (omega arith)
  evict_nothing (suc fuel) need c room k =
      let exact : (c.size + need) % 2 ^ 64 ≡ c.size + need = omega (arith, room) in
      let low : leb max_cache_size ((c.size + need) % 2 ^ 64) ≡ false =
        ground (arith, exact, room) in
      rw low refl

  -- Inserting a value that is small enough for the cache as it is, under a key that no node of its
  -- bin has, succeeds: the new node is the last of the chain of its bin and the first of the queue, the
  -- size has grown by the length of the buffer, and contains finds the node.
  pub cache_insert-contains :
      (fuel node key value : ℕ) (c : Cache) (xs nodes : List ℕ)
      → buffer_length value < max_object_size
      → c.size + buffer_length value < max_cache_size
      → BinHas text c key xs
      → NoRepeat xs
      → NotIn node xs
      → NoKey c.key key xs
      → IsQueue c.queue nodes
      → NotIn node nodes
      → length nodes + 1 < 2 ^ 64
      → length xs < fuel
      → (c' : Cache) × (cache_insert text buffer_length fuel node key value c
          ≡ answer (some node, c'))
        × BinHas text c' key (xs ++ node ∷ [])
        × IsQueue c'.queue (node ∷ nodes)
        × (c'.size ≡ c.size + buffer_length value)
        × (contains text buffer_length fuel key c' ≡ answer (some node))
  unfolding cache_insert contains new_node init_node
  cache_insert-contains fuel node key value c xs nodes small room bin d new none_has q fresh few k =
      let c₁ = new_node node key value c in
      let at = bin_of text key in
      let low : leb max_object_size (buffer_length value) ≡ false = ground arith in
      let stays = evict_nothing fuel (buffer_length value) c₁ room (omega arith) in
      let (arr, next, appends, chain) =
        append_chain-Chain c₁ fuel at node xs
          (Chain-put c.hash_table_next (c.arr at) xs node none new bin)
          (put_self c.hash_table_next node none) new d (omega arith) in
      let (queue, enqueues, q') =
        enqueue-IsQueue node c₁.queue nodes (init_node-IsQueue c.queue nodes node fresh q) fresh
          (put_self c.queue.prev node none) few in
      let exact : (c.size + buffer_length value) % 2 ^ 64 ≡ c.size + buffer_length value =
        omega (arith, room) in
      let c' = record c₁ {
        arr = arr;
        hash_table_next = next;
        size = c.size + buffer_length value;
        queue = queue;
      } in
      let found =
        find_key-last c' fuel key (arr at) xs node chain
          (NoKey-put_at c.key key xs node key new none_has) (ground arith) k in
      (c', rw low (rw stays (rw appends (rw exact (rw enqueues refl)))), chain, q', refl, found)
