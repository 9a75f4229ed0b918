-- ===== src/Proxy/Queue/Update.antt =====
-- queue_update as a move to the front of the list of nodes.
use cs_24_coursework.Prelude.{
  ℕ, ◌≡◌, ◌≢◌, refl, sym, ◌∙◌, inl, inr, Option, none, some, List, [], ◌∷◌, ◌++◌, length-append,
  true, false, Bool-cases, ◌==◌, arith,
}
use mathlib.Core.Path.{fun_ext}
use cs_24_coursework.Proxy.Queue.{
  Queue, put, same_node, retire_back, move_front, unlink, queue_update,
}
use cs_24_coursework.Proxy.Queue.Links.{
  head, NotIn, NoRepeat, Linked, IsQueue, put_other, put_self, Linked-put_prev, Linked-put_next,
}

-- The last of the nodes x ∷ xs.
abbrev pub last_of : ℕ → List ℕ → ℕ
last_of x [] = x
last_of x (y ∷ ys) = last_of y ys

NotIn-append : (n : ℕ) (xs ys : List ℕ) → NotIn n (xs ++ ys) → NotIn n xs × NotIn n ys
NotIn-append n [] ys h = (tt, h)
NotIn-append n (x ∷ xs) ys h = let (l, r) = NotIn-append n xs ys h.1 in ((h.0, l), r)

NotIn-join : (n : ℕ) (xs ys : List ℕ) → NotIn n xs → NotIn n ys → NotIn n (xs ++ ys)
NotIn-join n [] ys l r = r
NotIn-join n (x ∷ xs) ys l r = (l.0, NotIn-join n xs ys l.1 r)

NotIn-remove : (n m : ℕ) (xs ys : List ℕ) → NotIn n (xs ++ m ∷ ys) → NotIn n (xs ++ ys)
NotIn-remove n m xs ys h = let (l, r) = NotIn-append n xs (m ∷ ys) h in NotIn-join n xs ys l r.1

pub NotIn-last : (n x : ℕ) (xs : List ℕ) → NotIn n (x ∷ xs) → n ≢ last_of x xs
NotIn-last n x [] h = h.0
NotIn-last n x (y ∷ ys) h = NotIn-last n y ys h.1

NoRepeat-remove : (n : ℕ) (xs ys : List ℕ) → NoRepeat (xs ++ n ∷ ys) → NoRepeat (xs ++ ys)
NoRepeat-remove n [] ys h = h.1
NoRepeat-remove n (x ∷ xs) ys h = (NotIn-remove x n xs ys h.0, NoRepeat-remove n xs ys h.1)

NoRepeat-NotIn : (n : ℕ) (xs ys : List ℕ) → NoRepeat (xs ++ n ∷ ys) → NotIn n (xs ++ ys)
NoRepeat-NotIn n [] ys h = h.0
NoRepeat-NotIn n (x ∷ xs) ys h =
    let (_, r) = NotIn-append x xs (n ∷ ys) h.0 in ((λ e. r.0 (sym e)), NoRepeat-NotIn n xs ys h.1)

-- The links of a node behind x ∷ xs.
Linked-at :
    (prev next : ℕ → Option ℕ) (before : Option ℕ) (x : ℕ) (xs : List ℕ) (n : ℕ) (ys : List ℕ)
    (last : Option ℕ)
    → Linked prev next before (x ∷ (xs ++ n ∷ ys)) last
    → (prev n ≡ some (last_of x xs)) × (next n ≡ head ys) × Linked prev next (some n) ys last
Linked-at prev next before x [] n ys last l = l.2
Linked-at prev next before x (y ∷ xs) n ys last l = Linked-at prev next (some x) y xs n ys last l.2

-- The new prev of the first of the nodes ys.
abbrev put_head : (ℕ → Option ℕ) → List ℕ → Option ℕ → ℕ → Option ℕ
put_head f [] v = f
put_head f (y ∷ ys) v = put f y v

-- The back when n, with `before` in front of it and ys behind it, has been taken out.
abbrev new_back : List ℕ → ℕ → Option ℕ → Option ℕ
new_back [] p last = some p
new_back (y ∷ ys) p last = last

unlink-rest :
    (prev next : ℕ → Option ℕ) (x n : ℕ) (ys : List ℕ) (last : Option ℕ)
    → NotIn x ys
    → NoRepeat ys
    → Linked prev next (some n) ys last
    → Linked (put_head prev ys (some x)) (put next x (head ys)) (some x) ys (new_back ys x last)
unlink-rest prev next x n [] last h d l = refl
unlink-rest prev next x n (y ∷ ys) last h d l = (
  put_self prev y (some x),
  put_other next x (some y) y h.0 ∙ l.1,
  Linked-put_prev prev (put next x (some y)) (some y) ys last y (some x) d.0
      (Linked-put_next prev next (some y) ys last x (some y) h.1 l.2),
)

put_head_other :
    (prev : ℕ → Option ℕ) (ys : List ℕ) (v : Option ℕ) (x : ℕ)
    → NotIn x ys
    → put_head prev ys v x ≡ prev x
put_head_other prev [] v x h = refl
put_head_other prev (y ∷ ys) v x h = put_other prev y v x (λ e. h.0 (sym e))

Linked-unlink :
    (prev next : ℕ → Option ℕ) (before : Option ℕ) (x : ℕ) (xs : List ℕ) (n : ℕ) (ys : List ℕ)
    (last : Option ℕ)
    → NoRepeat (x ∷ (xs ++ n ∷ ys))
    → Linked prev next before (x ∷ (xs ++ n ∷ ys)) last
    → Linked
        (put_head prev ys (some (last_of x xs)))
        (put next (last_of x xs) (head ys))
        before
        (x ∷ (xs ++ ys))
        (new_back ys (last_of x xs) last)
Linked-unlink prev next before x [] n ys last d l = (
  put_head_other prev ys (some x) x d.0.1 ∙ l.0,
  put_self next x (head ys),
  unlink-rest prev next x n ys last d.0.1 d.1.1 l.2.2,
)
Linked-unlink prev next before x (y ∷ xs) n ys last d l =
    let (_, r) = NotIn-append x (y ∷ xs) (n ∷ ys) d.0 in
    let p = last_of y xs in
    let away = NotIn-last x y xs (NotIn-append x (y ∷ xs) (n ∷ ys) d.0).0 in
    (
      put_head_other prev ys (some p) x r.1 ∙ l.0,
      put_other next p (head ys) x (λ e. away (sym e)) ∙ l.1,
      Linked-unlink prev next (some x) y xs n ys last d.1 l.2,
    )

-- A node put in front of others.
Linked-front :
    (prev next : ℕ → Option ℕ) (x : ℕ) (xs : List ℕ) (last : Option ℕ) (n : ℕ)
    → NoRepeat (x ∷ xs)
    → NotIn n (x ∷ xs)
    → Linked prev next none (x ∷ xs) last
    → Linked (put (put prev n none) x (some n)) (put next n (some x)) none (n ∷ x ∷ xs) last
Linked-front prev next x xs last n d new l =
    let prev₁ = put prev n none in
    let next₁ = put next n (some x) in
    let l₁ =
      Linked-put_prev prev next₁ none (x ∷ xs) last n none new
        (Linked-put_next prev next none (x ∷ xs) last n (some x) new l) in
    (
      put_other prev₁ x (some n) n (λ e. new.0 (sym e)) ∙ put_self prev n none,
      put_self next n (some x),
      (
        put_self prev₁ x (some n),
        l₁.1,
        Linked-put_prev prev₁ next₁ (some x) xs last x (some n) d.0 l₁.2,
      ),
    )

same_node_self : (n : ℕ) → same_node (some n) (some n) ≡ true
same_node_self n = ground arith

same_node_other : (n m : ℕ) → n ≢ m → same_node (some n) (some m) ≡ false
same_node_other n m h = ground arith

-- A node that is not among the others is not the back of theirs.
Linked-not_back :
    (prev next : ℕ → Option ℕ) (before : Option ℕ) (x : ℕ) (xs : List ℕ) (last : Option ℕ) (n : ℕ)
    → NotIn n (x ∷ xs)
    → Linked prev next before (x ∷ xs) last
    → same_node (some n) last ≡ false
Linked-not_back prev next before x [] last n h l = rw l.2 (same_node_other n x h.0)
Linked-not_back prev next before x (y ∷ ys) last n h l =
    Linked-not_back prev next (some x) y ys last n h.1 l.2

put_twice : (f : ℕ → Option ℕ) (x : ℕ) (v : Option ℕ) → put (put f x v) x v ≡ put f x v
put_twice f x v =
    fun_ext (λ y. elim (Bool-cases (y == x)) [ inl e ↦ rw e refl | inr e ↦ rw e refl ])

-- The queue when the node behind x ∷ xs has been taken out.
abbrev unlinked : ℕ → List ℕ → List ℕ → Queue → Queue
unlinked x xs ys q = record q {
  prev = put_head q.prev ys (some (last_of x xs));
  next = put q.next (last_of x xs) (head ys);
  back = new_back ys (last_of x xs) q.back;
}

unlink_back :
    (q : Queue) (x : ℕ) (xs : List ℕ) (n : ℕ)
    → Linked q.prev q.next none (x ∷ (xs ++ n ∷ [])) q.back
    → n ≢ last_of x xs
    → unlink n q ≡ some (unlinked x xs [] q)
unfolding retire_back
unlink_back q x xs n linked away =
    let (p, f, b) = Linked-at q.prev q.next none x xs n [] q.back linked in
    let ne : (n == last_of x xs) ≡ false = ground arith in
    rw p (
      rw f (
        rw ne
          (rw b (rw (same_node_self n) (rw p (rw (put_twice q.next (last_of x xs) none) refl))))))

unlink_inner :
    (q : Queue) (x : ℕ) (xs : List ℕ) (n y : ℕ) (ys : List ℕ)
    → Linked q.prev q.next none (x ∷ (xs ++ n ∷ y ∷ ys)) q.back
    → n ≢ last_of x xs
    → NotIn n (y ∷ ys)
    → unlink n q ≡ some (unlinked x xs (y ∷ ys) q)
unfolding retire_back
unlink_inner q x xs n y ys linked away new =
    let (p, f, b) = Linked-at q.prev q.next none x xs n (y ∷ ys) q.back linked in
    let ne : (n == last_of x xs) ≡ false = ground arith in
    let not_back = Linked-not_back q.prev q.next (some n) y ys q.back n new b in
    rw p (rw f (rw ne (rw not_back (rw p refl))))

unlink-unlinked :
    (q : Queue) (x : ℕ) (xs : List ℕ) (n : ℕ) (ys : List ℕ)
    → IsQueue q (x ∷ (xs ++ n ∷ ys))
    → unlink n q ≡ some (unlinked x xs ys q)
unlink-unlinked q x xs n ys k =
    let (l, r) = NotIn-append n (x ∷ xs) ys (NoRepeat-NotIn n (x ∷ xs) ys k.distinct) in
    let away = NotIn-last n x xs l in
    elim ys
        as (λ zs.
          Linked q.prev q.next none (x ∷ (xs ++ n ∷ zs)) q.back
          → NotIn n zs
          → unlink n q ≡ some (unlinked x xs zs q)) [
            | [] ↦ λ linked new. unlink_back q x xs n linked away
            | z ∷ zs ↦ λ linked new. unlink_inner q x xs n z zs linked away new
          ]
      k.linked r

-- Moving a node that stands behind others to the front of the queue succeeds and leaves the order of
-- the others as it was, with all links in both directions as they should be.
pub queue_update-IsQueue :
    (q : Queue) (x : ℕ) (xs : List ℕ) (n : ℕ) (ys : List ℕ)
    → IsQueue q (x ∷ (xs ++ n ∷ ys))
    → (q' : Queue) × (queue_update n q ≡ some q') × IsQueue q' (n ∷ x ∷ (xs ++ ys))
unfolding queue_update move_front
queue_update-IsQueue q x xs n ys k =
    let u = unlinked x xs ys q in
    let new = NoRepeat-NotIn n (x ∷ xs) ys k.distinct in
    let not_front : same_node (some n) q.front ≡ false = rw k.starts (same_node_other n x new.0) in
    let d = NoRepeat-remove n (x ∷ xs) ys k.distinct in
    (
      record u {
        prev = put (put u.prev n none) x (some n);
        next = put u.next n (some x);
        front = some n;
      },
      rw not_front (rw (unlink-unlinked q x xs n ys k) (rw k.starts refl)),
      record {
        counted = omega (arith, k.counted, length-append xs (n ∷ ys), length-append xs ys);
        starts = refl;
        linked =
            Linked-front u.prev u.next x (xs ++ ys) u.back n d new
              (Linked-unlink q.prev q.next none x xs n ys q.back k.distinct k.linked);
        distinct = (new, d);
      },
    )
