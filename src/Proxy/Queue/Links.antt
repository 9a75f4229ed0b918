-- ===== src/Proxy/Queue/Links.antt =====
-- The queue as the list of its nodes, and what the operations do to the list.
use cs_24_coursework.Prelude.{
  ℕ, ◌+◌, ◌<◌, ◌%◌, ◌*◌, ◌^◌, ◌≡◌, ◌≢◌, refl, sym, ap, ◌∙◌, inl, inr, Option, none, some, List, [],
  ◌∷◌, length, Bool-cases, arith,
}
use mathlib.Core.Path.{subst}
use cs_24_coursework.Proxy.Queue.{
  hash_loop, hash, bins, Queue, put, same_node, is_empty, enqueue, dequeue, dequeue_back,
  cut_behind,
}

abbrev pub head : List ℕ → Option ℕ
head [] = none
head (x ∷ xs) = some x

abbrev pub NotIn : ℕ → List ℕ → Type 0
NotIn n [] = Unit {0}
NotIn n (x ∷ xs) = (n ≢ x) × NotIn n xs

abbrev pub NoRepeat : List ℕ → Type 0
NoRepeat [] = Unit {0}
NoRepeat (x ∷ xs) = NotIn x xs × NoRepeat xs

-- The nodes are linked in this order, behind `before`, and end in `last`.
abbrev pub Linked : (ℕ → Option ℕ) → (ℕ → Option ℕ) → Option ℕ → List ℕ → Option ℕ → Type 0
Linked prev next before [] last = last ≡ before
Linked prev next before (x ∷ xs) last =
    (prev x ≡ before) × (next x ≡ head xs) × Linked prev next (some x) xs last

pub record IsQueue (q : Queue) (nodes : List ℕ) : Type 0 where
  pub counted : q.size ≡ length nodes
  pub starts : q.front ≡ head nodes
  pub linked : Linked q.prev q.next none nodes q.back
  pub distinct : NoRepeat nodes

pub put_other : (f : ℕ → Option ℕ) (x : ℕ) (v : Option ℕ) (y : ℕ) → x ≢ y → put f x v y ≡ f y
put_other f x v y h = ground arith

pub put_self : (f : ℕ → Option ℕ) (x : ℕ) (v : Option ℕ) → put f x v x ≡ v
put_self f x v = ground arith

pub Linked-put_prev :
    (prev next : ℕ → Option ℕ) (before : Option ℕ) (xs : List ℕ) (last : Option ℕ) (n : ℕ)
    (v : Option ℕ)
    → NotIn n xs
    → Linked prev next before xs last
    → Linked (put prev n v) next before xs last
Linked-put_prev prev next before [] last n v h l = l
Linked-put_prev prev next before (x ∷ xs) last n v h l =
    (put_other prev n v x h.0 ∙ l.0, l.1, Linked-put_prev prev next (some x) xs last n v h.1 l.2)

pub Linked-put_next :
    (prev next : ℕ → Option ℕ) (before : Option ℕ) (xs : List ℕ) (last : Option ℕ) (n : ℕ)
    (v : Option ℕ)
    → NotIn n xs
    → Linked prev next before xs last
    → Linked prev (put next n v) before xs last
Linked-put_next prev next before [] last n v h l = l
Linked-put_next prev next before (x ∷ xs) last n v h l =
    (l.0, put_other next n v x h.0 ∙ l.1, Linked-put_next prev next (some x) xs last n v h.1 l.2)

pub Linked-last :
    (prev next : ℕ → Option ℕ) (before : Option ℕ) (x : ℕ) (xs : List ℕ) (last : Option ℕ)
    → Linked prev next before (x ∷ xs) last
    → (y : ℕ) × (last ≡ some y)
Linked-last prev next before x [] last l = (x, l.2)
Linked-last prev next before x (y ∷ xs) last l = Linked-last prev next (some x) y xs last l.2

enqueue_empty :
    (n : ℕ) (q : Queue)
    → IsQueue q []
    → q.prev n ≡ none
    → (q' : Queue) × (enqueue n q ≡ some q') × IsQueue q' (n ∷ [])
unfolding enqueue is_empty
enqueue_empty n q h fresh =
    let none_behind : q.back ≡ none = h.linked in
    (
      record q {
        next = put q.next n q.front;
        back = some n;
        front = some n;
        size = (q.size + 1) % 2 ^ 64;
      },
      rw none_behind refl,
      record {
        counted = omega (arith, h.counted);
        starts = refl;
        linked = (fresh, put_self q.next n q.front ∙ h.starts, refl);
        distinct = (tt, tt);
      },
    )

enqueue_more :
    (n : ℕ) (q : Queue) (x : ℕ) (xs : List ℕ)
    → IsQueue q (x ∷ xs)
    → NotIn n (x ∷ xs)
    → q.prev n ≡ none
    → length (x ∷ xs) + 1 < 2 ^ 64
    → (q' : Queue) × (enqueue n q ≡ some q') × IsQueue q' (n ∷ x ∷ xs)
unfolding enqueue is_empty
enqueue_more n q x xs h new fresh small =
    let (y, last) = Linked-last q.prev q.next none x xs q.back h.linked in
    let next = put q.next n q.front in
    let prev = put q.prev x (some n) in
    (
      record q { next = next; prev = prev; front = some n; size = (q.size + 1) % 2 ^ 64 },
      rw last (rw h.starts refl),
      record {
        counted = omega (arith, h.counted);
        starts = refl;
        linked = (
          put_other q.prev x (some n) n (λ e. new.0 (sym e)) ∙ fresh,
          put_self q.next n q.front ∙ h.starts,
          (
            put_self q.prev x (some n),
            put_other q.next n q.front x new.0 ∙ h.linked.1,
            Linked-put_prev q.prev next (some x) xs q.back x (some n) h.distinct.0
                (Linked-put_next q.prev q.next (some x) xs q.back n q.front new.1 h.linked.2),
          ),
        );
        distinct = (new, h.distinct);
      },
    )

-- Enqueuing a new node, whose prev is NULL, in a queue of fewer than 2^64 - 1 nodes succeeds and
-- puts the node in front of the others, with all links in both directions as they should be.
pub enqueue-IsQueue :
    (n : ℕ) (q : Queue) (nodes : List ℕ)
    → IsQueue q nodes
    → NotIn n nodes
    → q.prev n ≡ none
    → length nodes + 1 < 2 ^ 64
    → (q' : Queue) × (enqueue n q ≡ some q') × IsQueue q' (n ∷ nodes)
enqueue-IsQueue n q [] h new fresh small = enqueue_empty n q h fresh
enqueue-IsQueue n q (x ∷ xs) h new fresh small = enqueue_more n q x xs h new fresh small

hash_loop-lt : (h : ℕ) (s : List ℕ) → h < 2 ^ 8 → hash_loop h s < 2 ^ 8
unfolding hash_loop
hash_loop-lt h [] k = k
hash_loop-lt h (c ∷ cs) k = hash_loop-lt ((h * 2 ^ 5 + h + c) % 2 ^ 8) cs (omega arith)

-- The hash of a key is a bin of the table; only the first 256 of the 1024 bins are ever used.
pub hash-lt : (s : List ℕ) → (hash s < bins) × (hash s < 2 ^ 8)
unfolding hash
hash-lt s = let h = hash_loop-lt (5381 % 2 ^ 8) s (omega arith) in (omega arith, omega arith)

-- A result that keeps the back.
Keeps : Queue → Option (Option ℕ × Queue) → Type 0
Keeps q none = Unit {0}
Keeps q (some (t, q')) = q'.back ≡ q.back

cut_behind-back : (q : Queue) (o : Option ℕ) → (cut_behind o q).1.back ≡ q.back
cut_behind-back q none = refl
cut_behind-back q (some temp) = refl

dequeue_back-Keeps : (q : Queue) (o : Option ℕ) → Keeps q (dequeue_back o q)
unfolding Keeps
dequeue_back-Keeps q none = tt
dequeue_back-Keeps q (some last) = cut_behind-back q (q.prev last)

dequeue-Keeps : (q : Queue) → Keeps q (dequeue q)
unfolding Keeps dequeue
dequeue-Keeps q = elim (Bool-cases (is_empty q)) [
  | inl e ↦ rw e refl
  | inr e ↦ elim (Bool-cases (same_node q.front q.back)) [
    | inl f ↦ rw e (rw f refl)
    | inr f ↦ rw e (rw f (dequeue_back-Keeps q q.back))
  ]
]

-- Whatever the queue: dequeue never changes the back, so that a queue that is not empty is not empty
-- after it, not even when it had one node.
pub dequeue-is_empty :
    (q q' : Queue) (t : Option ℕ)
    → dequeue q ≡ some (t, q')
    → (q'.back ≡ q.back) × (is_empty q' ≡ is_empty q)
unfolding Keeps is_empty
dequeue-is_empty q q' t e =
    let kept : q'.back ≡ q.back = subst (Keeps q) e (dequeue-Keeps q) in
    (kept, ap (λ b. same_node b none) kept)
