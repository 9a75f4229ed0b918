-- ===== src/Proxy/Cache.antt =====
-- project07-kweng/src/cache.c: the hash table of chains, and the cache of the table and the queue, for
-- calls of one thread. A key is the address of a string, a value that of a buffer; a node that has been
-- freed keeps its words, but a read of a node that is not live is a fault where `check_live` stands.
pub mod Chains
pub mod Limits
mod Tests
use cs_24_coursework.Prelude.{
  ℕ, zero, suc, ◌+◌, ◌-◌, ◌*◌, ◌%◌, ◌^◌, Bool, true, false, Option, none, some, List, [], ◌∷◌, ◌==◌,
  ltb, leb, if◌then◌else◌,
}
use cs_24_coursework.Prelude.Answer.{Answer, answer, fault, no_fuel, ◌>>=◌}
use cs_24_coursework.Proxy.Queue.{Queue, hash, put, init_queue, init_node, dequeue, enqueue}

abbrev pub max_cache_size : ℕ
max_cache_size = 1024 * 1024

abbrev pub max_object_size : ℕ
max_object_size = 1024 * 100

-- The cache_t with its queue and its table, and the other fields of every node.
pub record Cache : Type 0 where
  pub size : ℕ
  pub queue : Queue
  pub arr : ℕ → Option ℕ
  pub hash_table_next : ℕ → Option ℕ
  pub key : ℕ → ℕ
  pub value : ℕ → ℕ
  pub live : ℕ → Bool

abbrev pub put_at {ℓ} : {A : Type ℓ} → (ℕ → A) → ℕ → A → ℕ → A
put_at f x v y = if y == x then v else f y

-- The node is the one that malloc gives; it has no links in the queue or in a chain.
unfoldable pub new_node : ℕ → ℕ → ℕ → Cache → Cache
new_node node key value c = record c {
  queue = init_node node c.queue;
  hash_table_next = put c.hash_table_next node none;
  key = put_at c.key node key;
  value = put_at c.value node value;
  live = put_at c.live node true;
}

abbrev pub check_live : ℕ → Cache → Answer ℕ
check_live x c = if c.live x then answer x else fault

abbrev pub check_node : Option ℕ → Cache → Answer ℕ
check_node none c = fault
check_node (some x) c = check_live x c

abbrev pub or_fault {ℓ} : {A : Type ℓ} → Option A → Answer A
or_fault none = fault
or_fault (some a) = answer a

-- The front is written through when the queue is not empty.
abbrev pub enqueue_node : ℕ → Cache → Answer Cache
enqueue_node node c = do
  queue ← or_fault (enqueue node c.queue)
  answer (record c { queue = queue })

abbrev pub free_node : Option ℕ → Cache → Cache
free_node none c = c
free_node (some x) c = record c { live = put_at c.live x false }

-- The walk to the end of a chain, on fuel, with head_prev and head.
unfoldable pub chain_end : ℕ → ℕ → Option ℕ → Cache → Answer ℕ
chain_end fuel head_prev none c = answer head_prev
chain_end zero head_prev (some head) c = no_fuel
chain_end (suc fuel) head_prev (some head) c = chain_end fuel head (c.hash_table_next head) c

-- The node at the end of the chain of a bin.
unfoldable pub append_chain : ℕ → ℕ → ℕ → Option ℕ → Cache → Answer Cache
append_chain fuel bin node none c = answer (record c { arr = put c.arr bin (some node) })
append_chain fuel bin node (some head) c = do
  last ← chain_end fuel head (c.hash_table_next head) c
  answer (record c { hash_table_next = put c.hash_table_next last (some node) })

-- The walk of contains, on fuel: the first node with this key.
unfoldable pub find_key : ℕ → ℕ → Option ℕ → Cache → Answer (Option ℕ)
find_key fuel key none c = answer none
find_key zero key (some x) c = no_fuel
find_key (suc fuel) key (some x) c =
    let rest = find_key fuel key (c.hash_table_next x) c in
    if c.key x == key then answer (some x) else rest

-- The queue has no links, the table no nodes.
unfoldable pub init_cache : Cache → Cache
init_cache c = record c {
  size = 0;
  queue = init_queue c.queue.prev c.queue.next;
  arr = λ bin. none;
}

-- The uint8_t hashed_key; `text` is the string at an address.
abbrev pub bin_of : (ℕ → List ℕ) → ℕ → ℕ
bin_of text key = hash (text key) % 2 ^ 8

-- `text` is the string at an address, buffer_length the length of the buffer there.
module _ (text : ℕ → List ℕ) (buffer_length : ℕ → ℕ) where
  -- The value of the back of the queue; the whole bin of its key is dropped.
  unfoldable pub cache_remove : Cache → Answer (ℕ × Cache)
  cache_remove c = do
    last ← check_node c.queue.back c
    (_, queue) ← or_fault (dequeue c.queue)
    let bin = bin_of text (c.key last)
    let freed = free_node (c.arr bin) (record c { queue = queue })
    answer (c.value last, record freed { arr = put c.arr bin none })

  -- The loop that evicts, on fuel.
  unfoldable pub evict : ℕ → ℕ → Cache → Answer Cache
  evict zero need c = no_fuel
  evict (suc fuel) need c =
      let rest = cache_remove c >>= (λ r.
        evict fuel need (record r.1 { size = (r.1.size + 2 ^ 64 - buffer_length r.0) % 2 ^ 64 })) in
      if leb max_cache_size ((c.size + need) % 2 ^ 64) then rest else answer c

  -- `head` is read before the eviction. The answer is the node, or `none` for NULL.
  unfoldable pub cache_insert : ℕ → ℕ → ℕ → ℕ → Cache → Answer (Option ℕ × Cache)
  cache_insert fuel node key value c₀ =
      let c = new_node node key value c₀ in
      let head = c.arr (bin_of text key) in
      if leb max_object_size (buffer_length value) then answer (none, c) else (do
        c₁ ← evict fuel (buffer_length value) c
        c₂ ← append_chain fuel (bin_of text key) node head c₁
        c₃ ← enqueue_node node (record c₂ { size = (c₂.size + buffer_length value) % 2 ^ 64 })
        answer (some node, c₃))

  unfoldable pub contains : ℕ → ℕ → Cache → Answer (Option ℕ)
  contains fuel key c = find_key fuel key (c.arr (bin_of text key)) c
