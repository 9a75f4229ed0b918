-- ===== src/Proxy/Cache/Tests.antt =====
-- A cache filled and emptied, and the theorems there. Keys 100 and 200 are the strings /a and /b.
use cs_24_coursework.Prelude.{
  ℕ, ◌+◌, ◌≡◌, refl, false, Option, none, some, List, [], ◌∷◌, ◌==◌, if◌then◌else◌, arith,
}
use cs_24_coursework.Prelude.Answer.{Answer, answer, fault, ◌>>=◌}
use cs_24_coursework.Proxy.Queue.{
  hash, hash_loop, init_queue, init_node, is_empty, enqueue, dequeue, put,
}
use cs_24_coursework.Proxy.Queue.Links.{IsQueue}
use cs_24_coursework.Proxy.Cache.{
  Cache, bin_of, new_node, init_cache, cache_insert, cache_remove, contains, evict, append_chain,
  chain_end,
}
use cs_24_coursework.Proxy.Cache.Chains.{BinHas, cache_insert-contains}
use cs_24_coursework.Proxy.Cache.Limits.{Keeps, cache_insert-limits}

abbrev text : ℕ → List ℕ
text key = if key == 100 then b'/' ∷ b'a' ∷ [] else b'/' ∷ b'b' ∷ []

-- The buffer at an address has as many bytes as the address says.
abbrev buffer_length : ℕ → ℕ
buffer_length value = value

abbrev nothing : Cache
nothing = record {
  size = 0;
  queue = record { size = 0; front = none; back = none; prev = λ x. none; next = λ x. none };
  arr = λ bin. none;
  hash_table_next = λ x. none;
  key = λ x. 0;
  value = λ x. 0;
  live = λ x. false;
}

abbrev insert : ℕ → ℕ → ℕ → Cache → Answer Cache
insert node key value c = do (_, c') ← cache_insert text buffer_length 9 node key value c; answer c'

abbrev small_two : Answer Cache
small_two = do c ← insert 1 100 10 (init_cache nothing); insert 2 200 20 c

abbrev sizes : Cache → ℕ × Option ℕ × Option ℕ
sizes c = (c.size, c.queue.front, c.queue.back)

filled : small_two >>= (λ c. answer (sizes c)) ≡ answer (30, some 2, some 1)
unfolding cache_insert new_node init_node init_cache init_queue evict append_chain chain_end enqueue
    is_empty hash hash_loop
filled = refl

abbrev insert_all : List ℕ → Cache → Answer Cache
insert_all [] c = answer c
insert_all (node ∷ nodes) c = insert node 200 100000 c >>= insert_all nodes

abbrev eleven : Answer Cache
eleven =
    insert 1 100 100000 (init_cache nothing)
    >>= insert_all (2 ∷ 3 ∷ 4 ∷ 5 ∷ 6 ∷ 7 ∷ 8 ∷ 9 ∷ 10 ∷ 11 ∷ [])

-- The eleventh buffer evicts the first, which is still the back of the queue; the twelfth reads it
-- again, after it has been freed.
evicts : eleven >>= (λ c. answer (sizes c)) ≡ answer (1000000, some 11, some 1)
unfolding cache_insert new_node init_node init_cache init_queue evict append_chain chain_end enqueue
    is_empty hash hash_loop cache_remove dequeue
evicts = refl

crashes : eleven >>= insert 12 200 100000 ≡ fault
unfolding cache_insert new_node init_node init_cache init_queue evict append_chain chain_end enqueue
    is_empty hash hash_loop cache_remove dequeue
crashes = refl

-- A cache of one node, 1, with key 100.
abbrev one : Cache
one = record {
  size = 10;
  queue = record { size = 1; front = some 1; back = some 1; prev = λ x. none; next = λ x. none };
  arr = put (λ bin. none) (bin_of text 100) (some 1);
  hash_table_next = λ x. none;
  key = λ x. 100;
  value = λ x. 10;
  live = λ x. x == 1;
}

one-IsQueue : IsQueue one.queue (1 ∷ [])
one-IsQueue = record {
  counted = refl;
  starts = refl;
  linked = (refl, refl, refl);
  distinct = (tt, tt);
}

cache_insert-contains_example :
    (c' : Cache) × (cache_insert text buffer_length 3 2 200 20 one ≡ answer (some 2, c'))
    × BinHas text c' 200 (2 ∷ [])
    × IsQueue c'.queue (2 ∷ 1 ∷ [])
    × (c'.size ≡ 10 + 20)
    × (contains text buffer_length 3 200 c' ≡ answer (some 2))
unfolding hash hash_loop
cache_insert-contains_example =
    cache_insert-contains text buffer_length 3 2 200 20 one [] (1 ∷ []) (omega arith) (omega arith)
      refl tt tt tt one-IsQueue ((λ e. omega arith), tt) (omega arith) (omega arith)

too_large :
    cache_insert text buffer_length 3 2 200 102400 one ≡ answer (none, new_node 2 200 102400 one)
unfolding cache_insert
too_large = refl

cache_insert-limits_example : Keeps 2 102400 one (none, new_node 2 200 102400 one)
cache_insert-limits_example =
    cache_insert-limits text buffer_length 3 2 200 102400 one (none, new_node 2 200 102400 one)
      too_large
