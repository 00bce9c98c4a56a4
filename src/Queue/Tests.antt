-- ===== src/Queue/Tests.antt =====
-- A CMsgQueue of src/common/msg_queue.cpp with two messages, and an array of three queues.
use kunlun.Prelude.Run.{ret, fault, data_race}
use kunlun.Queue.{
  Queue, QueueArr, Reach, Step, start, later, locks_push, pushes, signals, waits, locks_pop,
  new_queue, lock_push, push, lock_pop, end_push, start_get, signal_set, pop,
}
use kunlun.Queue.Fifo.{pop-Reach, lock_pop-races, Reach-nsignal}
use kunlun.Queue.Robin.{calls, getmsgqueuebyrobin-turns}
use kunlun.Prelude.{ℕ, ◌<◌, ◌≡◌, [], ◌∷◌, ◌++◌, none, some, true, refl, get_elem?, arith}

abbrev locked : Queue
locked = lock_push 7 new_queue

abbrev pushed : Queue
pushed = record locked { msgs = 7 ∷ []; pushing = 1; in_push = none; pushed = 7 ∷ [] }

abbrev signalled : Queue
signalled = end_push pushed

abbrev waited : Queue
waited = start_get signalled

abbrev taking : Queue
taking = lock_pop waited

pushed-Reach : Reach pushed
unfolding new_queue lock_push push
pushed-Reach =
    later locked pushed (later new_queue locked start (locks_push new_queue 7 refl))
      (pushes locked pushed 7 refl refl)

signalled-Reach : Reach signalled
unfolding lock_push new_queue
signalled-Reach = later pushed signalled pushed-Reach (signals pushed (omega arith))

waited-Reach : Reach waited
unfolding end_push lock_push new_queue signal_set
waited-Reach = later signalled waited signalled-Reach (waits signalled (omega arith))

taking-Reach : Reach taking
unfolding start_get end_push lock_push new_queue
taking-Reach = later waited taking waited-Reach (locks_pop waited (omega arith) refl)

pop-Reach_example :
    (r : Queue) × (pop taking ≡ ret r)
    × (msg : ℕ) × (r.taken ≡ taking.taken ++ msg ∷ [])
    × (taking.pushed ≡ r.taken ++ r.msgs)
unfolding lock_pop start_get end_push lock_push new_queue
pop-Reach_example = pop-Reach taking taking-Reach refl refl

lock_pop-races_example :
    (r : Queue) × Reach r
    × (r.in_push ≡ some 8)
    × (r.in_pop ≡ true)
    × (pop r ≡ fault data_race)
    × (push 8 r ≡ fault data_race)
unfolding start_get end_push lock_push new_queue
lock_pop-races_example = lock_pop-races waited 8 waited-Reach (omega arith) refl refl

Reach-nsignal_test : Step signalled (start_get signalled)
unfolding end_push lock_push new_queue
Reach-nsignal_test = Reach-nsignal signalled signalled-Reach (λ e. cc e) (omega arith) (omega arith)

abbrev three : QueueArr
three = record { msg_queue_count = 3; queue_robin = 2 }

turns_of_three : (get_elem? (calls 4 three) 2 ≡ some 1) × (1 < 3)
turns_of_three = getmsgqueuebyrobin-turns 4 2 three (omega arith) (omega arith)
