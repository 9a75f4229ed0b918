-- ===== src/Proxy/Queue/Tests.antt =====
-- A queue of two nodes, built and used, and the theorems there.
use cs_24_coursework.Prelude.{ℕ, ◌≡◌, refl, Option, none, some, [], ◌∷◌, arith}
use cs_24_coursework.Proxy.Queue.{
  enqueue, Queue, put, is_empty, dequeue, queue_update, retire_back, move_front,
}
use cs_24_coursework.Proxy.Queue.Update.{queue_update-IsQueue}
use cs_24_coursework.Proxy.Queue.Links.{IsQueue, dequeue-is_empty, enqueue-IsQueue}

abbrev no_links : ℕ → Option ℕ
no_links x = none

-- 7 in front of 5.
abbrev two : Queue
two = record {
  size = 2;
  front = some 7;
  back = some 5;
  prev = put no_links 5 (some 7);
  next = put no_links 7 (some 5);
}

two-IsQueue : IsQueue two (7 ∷ 5 ∷ [])
two-IsQueue = record {
  counted = refl;
  starts = refl;
  linked = (refl, refl, (refl, refl, refl));
  distinct = (((λ e. omega arith), tt), (tt, tt));
}

enqueue-IsQueue_example : (q' : Queue) × (enqueue 9 two ≡ some q') × IsQueue q' (9 ∷ 7 ∷ 5 ∷ [])
enqueue-IsQueue_example =
    enqueue-IsQueue 9 two (7 ∷ 5 ∷ []) two-IsQueue ((λ e. omega arith), ((λ e. omega arith), tt))
      refl (omega arith)

-- Moving 5 to the front: the links of the two nodes are turned round.
abbrev ends : Option Queue → Option (Option ℕ × Option ℕ × Option ℕ × Option ℕ)
ends none = none
ends (some q) = some (q.front, q.back, q.prev 7, q.next 5)

moves_back : ends (queue_update 5 two) ≡ some (some 5, some 7, some 5, some 7)
unfolding queue_update retire_back move_front
moves_back = refl

-- The node given back is 7, and 5 is still the back.
gives_front : dequeue two ≡ some (some 7, record two { next = put two.next 7 none; size = 1 })
unfolding dequeue is_empty
gives_front = refl

dequeue-is_empty_example : (◌≡◌ {A = Option ℕ} (some 5) (some 5)) × (is_empty two ≡ is_empty two)
unfolding is_empty
dequeue-is_empty_example =
    dequeue-is_empty two (record two { next = put two.next 7 none; size = 1 }) (some 7) gives_front

queue_update-IsQueue_example :
    (q' : Queue) × (queue_update 5 two ≡ some q') × IsQueue q' (5 ∷ 7 ∷ [])
queue_update-IsQueue_example = queue_update-IsQueue two 7 [] 5 [] two-IsQueue
