-- ===== src/Proxy/Cache/Limits.antt =====
-- The limits that cache_insert keeps.
use cs_24_coursework.Prelude.{
  ℕ, zero, suc, ◌+◌, ◌-◌, ◌%◌, ◌^◌, ◌≤◌, ◌<◌, ◌≡◌, refl, ◌⊎◌, inl, inr, Option, none, some, List,
  leb, Bool-cases, arith,
}
use cs_24_coursework.Prelude.Answer.{answer, All, All-bind, All-true, All-answer}
use cs_24_coursework.Proxy.Queue.{enqueue}
use cs_24_coursework.Proxy.Cache.{
  Cache, max_cache_size, max_object_size, new_node, enqueue_node, chain_end, append_chain, or_fault,
  cache_remove, bin_of, evict, cache_insert,
}

append_chain-size :
    (fuel bin node : ℕ) (head : Option ℕ) (c : Cache)
    → All (λ c'. c'.size ≡ c.size) (append_chain fuel bin node head c)
unfolding append_chain
append_chain-size fuel bin node none c = refl
append_chain-size fuel bin node (some head) c =
    All-bind (λ last. Unit {0}) (λ c'. c'.size ≡ c.size)
      (chain_end fuel head (c.hash_table_next head) c)
      (λ last. answer (record c { hash_table_next = _ })) (All-true _) (λ last h. refl)

enqueue_node-size : (node : ℕ) (c : Cache) → All (λ c'. c'.size ≡ c.size) (enqueue_node node c)
enqueue_node-size node c =
    All-bind (λ q. Unit {0}) (λ c'. c'.size ≡ c.size) (or_fault (enqueue node c.queue))
      (λ q. answer (record c { queue = q })) (All-true _) (λ q h. refl)

-- What cache_insert gives back, and the size that it leaves.
abbrev pub Keeps : ℕ → ℕ → Cache → Option ℕ × Cache → Type 0
Keeps node length c (r, c') =
    ((r ≡ none) × (max_object_size ≤ length) × (c'.size ≡ c.size) × (c'.arr ≡ c.arr))
    ⊎ ((r ≡ some node) × (length < max_object_size) × (c'.size < max_cache_size))

-- The sum in the test is the one that is stored.
size_lem :
    (a b c n : ℕ)
    → b ≡ a
    → c ≡ (b + n) % 2 ^ 64
    → (a + n) % 2 ^ 64 < max_cache_size
    → c < max_cache_size
size_lem a b c n same added room = omega (arith, same, added, room)

module _ (text : ℕ → List ℕ) (buffer_length : ℕ → ℕ) where
  evict-room :
      (fuel need : ℕ) (c : Cache)
      → All
          (λ c'. (c'.size + need) % 2 ^ 64 < max_cache_size)
          (evict text buffer_length fuel need c)
  unfolding evict
  evict-room zero need c = tt
  evict-room (suc fuel) need c = elim (Bool-cases (leb max_cache_size ((c.size + need) % 2 ^ 64))) [
    | inl e ↦ rw e (
        All-bind (λ r. Unit {0}) (λ c'. (c'.size + need) % 2 ^ 64 < max_cache_size)
          (cache_remove text buffer_length c)
          (λ r.
            evict text buffer_length fuel need
              (record r.1 { size = (r.1.size + 2 ^ 64 - buffer_length r.0) % 2 ^ 64 }))
          (All-true _)
          (λ r h.
            evict-room fuel need
              (record r.1 { size = (r.1.size + 2 ^ 64 - buffer_length r.0) % 2 ^ 64 })))
    | inr e ↦ rw e (ground arith)
  ]

  cache_insert-Keeps :
      (fuel node key value : ℕ) (c : Cache)
      → All
          (Keeps node (buffer_length value) c)
          (cache_insert text buffer_length fuel node key value c)
  unfolding cache_insert new_node
  cache_insert-Keeps fuel node key value c =
      let c₁ = new_node node key value c in
      let n = buffer_length value in
      let P = Keeps node n c in
      elim (Bool-cases (leb max_object_size n)) [
        | inl e ↦ rw e (inl (refl, ground arith, refl, refl))
        | inr e ↦ rw e (
            All-bind (λ c₂. (c₂.size + n) % 2 ^ 64 < max_cache_size) P
              (evict text buffer_length fuel n c₁) _ (evict-room fuel n c₁)
              (λ c₂ room.
                All-bind (λ c₃. c₃.size ≡ c₂.size) P
                  (append_chain fuel (bin_of text key) node (c₁.arr (bin_of text key)) c₂) _
                  (append_chain-size fuel (bin_of text key) node (c₁.arr (bin_of text key)) c₂)
                  (λ c₃ same.
                    All-bind (λ c₄. c₄.size ≡ (c₃.size + n) % 2 ^ 64) P
                      (enqueue_node node (record c₃ { size = (c₃.size + n) % 2 ^ 64 })) _
                      (enqueue_node-size node (record c₃ { size = (c₃.size + n) % 2 ^ 64 }))
                      (λ c₄ added.
                        inr (
                          refl,
                          ground arith,
                          size_lem c₂.size c₃.size c₄.size n same added room,
                        )))))
      ]

  -- Whenever cache_insert gives an answer: either it is NULL, the buffer has MAX_OBJECT_SIZE bytes or
  -- more, and neither the size nor the table has changed; or it is the new node, the buffer is shorter,
  -- and the size is below MAX_CACHE_SIZE.
  pub cache_insert-limits :
      (fuel node key value : ℕ) (c : Cache) (r : Option ℕ × Cache)
      → cache_insert text buffer_length fuel node key value c ≡ answer r
      → Keeps node (buffer_length value) c r
  cache_insert-limits fuel node key value c r e =
      All-answer (Keeps node (buffer_length value) c) _ r e
        (cache_insert-Keeps fuel node key value c)
