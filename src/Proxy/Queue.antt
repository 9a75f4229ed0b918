-- ===== src/Proxy/Queue.antt =====
-- project07-kweng/src/cache.c: hash, and the queue of the cache, a doubly linked list of nodes with
-- the most recent one in front. A node is its address, NULL is none; the calls are those of one thread.
pub mod Links
pub mod Update
mod Tests
use cs_24_coursework.Prelude.{
  ℕ, suc, ◌+◌, ◌-◌, ◌*◌, ◌%◌, ◌^◌, Bool, true, false, Option, none, some, List, [], ◌∷◌, ◌==◌,
  if◌then◌else◌,
}

abbrev pub bins : ℕ
bins = 1024

-- A uint8_t takes each step modulo 2^8.
unfoldable pub hash_loop : ℕ → List ℕ → ℕ
hash_loop h [] = h
hash_loop h (c ∷ cs) = hash_loop ((h * 2 ^ 5 + h + c) % 2 ^ 8) cs

unfoldable pub hash : List ℕ → ℕ
hash s = hash_loop (5381 % 2 ^ 8) s % bins

-- The queue_t, and the fields prev and next of every node.
pub record Queue : Type 0 where
  pub size : ℕ
  pub front : Option ℕ
  pub back : Option ℕ
  pub prev : ℕ → Option ℕ
  pub next : ℕ → Option ℕ

abbrev pub put : (ℕ → Option ℕ) → ℕ → Option ℕ → ℕ → Option ℕ
put f x v y = if y == x then v else f y

abbrev pub same_node : Option ℕ → Option ℕ → Bool
same_node none none = true
same_node (some x) (some y) = x == y
same_node _ _ = false

-- `links` is what the memory holds.
unfoldable pub init_queue : (ℕ → Option ℕ) → (ℕ → Option ℕ) → Queue
init_queue prev next = record { size = 0; front = none; back = none; prev = prev; next = next }

-- The links of a new node.
unfoldable pub init_node : ℕ → Queue → Queue
init_node node q = record q { prev = put q.prev node none; next = put q.next node none }

unfoldable pub is_empty : Queue → Bool
is_empty q = same_node q.back none

-- The assignment node->prev = v of a node that may be NULL, which is a fault.
abbrev pub set_prev : Option ℕ → Option ℕ → Queue → Option Queue
set_prev none v q = none
set_prev (some x) v q = some (record q { prev = put q.prev x v })

-- The same behind a test for NULL.
abbrev pub set_prev_if : Option ℕ → Option ℕ → Queue → Option Queue
set_prev_if none v q = some q
set_prev_if (some x) v q = some (record q { prev = put q.prev x v })

abbrev pub set_next : Option ℕ → Option ℕ → Queue → Option Queue
set_next none v q = none
set_next (some x) v q = some (record q { next = put q.next x v })

infixl 5 ◌>>=◌
abbrev pub ◌>>=◌ : {A B : Type 0} → Option A → (A → Option B) → Option B
none >>= f = none
some a >>= f = f a

unfoldable pub enqueue : ℕ → Queue → Option Queue
enqueue node q =
    let linked = record q { next = put q.next node q.front } in
    if is_empty q
    then some (record linked { back = some node; front = some node; size = (q.size + 1) % 2 ^ 64 })
    else do
      q₁ ← set_prev q.front (some node) linked
      some (record q₁ { front = some node; size = (q.size + 1) % 2 ^ 64 })

abbrev pub one_less : Queue → Queue
one_less q = record q { size = (q.size + 2 ^ 64 - 1) % 2 ^ 64 }

-- `temp` is back->prev; the node that is given back, and the queue.
abbrev pub cut_behind : Option ℕ → Queue → Option ℕ × Queue
cut_behind none q = (none, one_less q)
cut_behind (some temp) q = (some temp, one_less (record q { next = put q.next temp none }))

-- `none` is a NULL that is read.
abbrev pub dequeue_back : Option ℕ → Queue → Option (Option ℕ × Queue)
dequeue_back none q = none
dequeue_back (some last) q = some (cut_behind (q.prev last) q)

unfoldable pub dequeue : Queue → Option (Option ℕ × Queue)
dequeue q =
    if is_empty q
    then some (none, q)
    else if same_node q.front q.back
    then some (q.front, record q { front = none })
    else dequeue_back q.back q

-- What stands behind the unlinking in queue_update.
unfoldable pub move_front : ℕ → Queue → Option Queue
move_front node q = do
  let linked = record q { next = put q.next node q.front; prev = put q.prev node none }
  q₁ ← set_prev q.front (some node) linked
  some (record q₁ { front = some node })

-- The new back of a queue whose back is moved to the front.
unfoldable pub retire_back : ℕ → Queue → Option Queue
retire_back node q =
    if same_node (some node) q.back
    then (do let back = q.prev node; set_next back none (record q { back = back }))
    else some q

-- The steps of queue_update that take the node out.
abbrev pub unlink : ℕ → Queue → Option Queue
unlink node q = do
  q₁ ← set_next (q.prev node) (q.next node) q
  q₂ ← set_prev_if (q₁.next node) (q₁.prev node) q₁
  retire_back node q₂

unfoldable pub queue_update : ℕ → Queue → Option Queue
queue_update node q =
    if same_node (some node) q.front then some q else unlink node q >>= move_front node
