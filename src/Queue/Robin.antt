-- ===== src/Queue/Robin.antt =====
-- The round robin of CMsgQueueArr in src/common/msg_queue.h.
use kunlun.Queue.{QueueArr, getmsgqueuebyrobin}
use native.Mathlib.Nat.{mod-add-mod}
use kunlun.Prelude.{
  ℕ, zero, suc, ◌+◌, ◌%◌, ◌<◌, ◌≡◌, ◌∙◌, List, [], ◌∷◌, get_elem?, some, arith, ap,
}

-- The indices that n calls in a row give.
abbrev pub calls : ℕ → QueueArr → List ℕ
calls zero arr = []
calls (suc n) arr = let (index, next) = getmsgqueuebyrobin arr in index ∷ calls n next

next_robin :
    (arr : QueueArr)
    → arr.queue_robin < arr.msg_queue_count
    → ((getmsgqueuebyrobin arr).1.queue_robin < arr.msg_queue_count)
      × ((getmsgqueuebyrobin arr).1.queue_robin ≡ (arr.queue_robin + 1) % arr.msg_queue_count)
      × ((getmsgqueuebyrobin arr).1.msg_queue_count ≡ arr.msg_queue_count)
unfolding getmsgqueuebyrobin
next_robin arr h = grind arith

-- The calls of getmsgqueuebyrobin go round the queues: call k from now on gives the queue k places
-- behind the first one, modulo the number of queues, so that every queue is given once in so many
-- calls, and the index is always one of a queue.
pub getmsgqueuebyrobin-turns :
    (n k : ℕ) (arr : QueueArr)
    → arr.queue_robin < arr.msg_queue_count
    → k < n
    → (get_elem? (calls n arr) k ≡ some ((arr.queue_robin + k) % arr.msg_queue_count))
      × ((arr.queue_robin + k) % arr.msg_queue_count < arr.msg_queue_count)
unfolding getmsgqueuebyrobin
getmsgqueuebyrobin-turns zero k arr h low = absurd (omega arith)
getmsgqueuebyrobin-turns (suc n) zero arr h low = (ap some (grind arith), grind arith)
getmsgqueuebyrobin-turns (suc n) (suc k) arr h low =
    let next = (getmsgqueuebyrobin arr).1 in
    let (small, robin, same) = next_robin arr h in
    let (found, inside) = getmsgqueuebyrobin-turns n k next small (omega arith) in
    let here : (next.queue_robin + k) % next.msg_queue_count
        ≡ (arr.queue_robin + suc k) % arr.msg_queue_count =
      ap (λ (i : ℕ). (i + k) % arr.msg_queue_count) robin
      ∙ (mod-add-mod (arr.queue_robin + 1) arr.msg_queue_count k
          ∙ ap (λ (i : ℕ). i % arr.msg_queue_count) (omega arith)) in
    (found ∙ ap some here, grind arith)
