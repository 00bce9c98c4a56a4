-- ===== src/Queue.antt =====
-- The message queues of src/common/msg_queue.h, msg_queue.cpp and event.cpp, used by several threads.
-- Locks succeed. push and pop lock different mutexes, so that one thread can be in each of them.
pub mod Fifo
pub mod Robin
mod Tests
use kunlun.Prelude.Run.{Run, ret, fault, out_of_bounds, data_race}
use kunlun.Prelude.{
  ℕ, ◌+◌, ◌-◌, ◌≡◌, ◌<◌, List, [], ◌∷◌, ◌++◌, Bool, true, false, ◌||◌, Option, none, some, ◌==◌,
  if◌then◌else◌,
}

abbrev pub is_some : Option ℕ → Bool
is_some none = false
is_some (some msg) = true

-- CEvent: m_nsignal and m_bsemaphore.
pub record Event : Type 0 where
  pub nsignal : ℕ
  pub semaphore : Bool

pub signal_set : Event → Event
signal_set e = record e { nsignal = e.nsignal + 1 }

-- signal_wait, once m_nsignal is not 0.
pub signal_wait : Event → Event
signal_wait e = record e { nsignal = if e.semaphore then e.nsignal - 1 else 0 }

-- A CMsgQueue of messages known by numbers, and its threads: how many of them are in push_msg before
-- signal_set, and in get_msg behind signal_wait. `in_push` is the message of the thread that has locked
-- m_ppush_mutex, `in_pop` says that one has locked m_ppop_mutex, and `raced` that one of each has been
-- there at once, behind which the std::queue is in no defined state. `pushed` and `taken` are what push_msg has been
-- given and what get_msg has returned so far.
pub record Queue : Type 0 where
  pub msgs : List ℕ
  pub event : Event
  pub pushing : ℕ
  pub popping : ℕ
  pub in_push : Option ℕ
  pub in_pop : Bool
  pub raced : Bool
  pub pushed : List ℕ
  pub taken : List ℕ

-- CMsgQueue::CMsgQueue
pub new_queue : Queue
new_queue = record {
  msgs = [];
  event = record { nsignal = 0; semaphore = true };
  pushing = 0;
  popping = 0;
  in_push = none;
  in_pop = false;
  raced = false;
  pushed = [];
  taken = [];
}

-- push up to the lock of m_ppush_mutex.
pub lock_push : ℕ → Queue → Queue
lock_push msg q = record q { in_push = some msg; raced = q.raced || q.in_pop }

-- The rest of push, of the message of the thread that has the lock.
pub push : ℕ → Queue → Run Queue
push msg q =
    if q.raced
    then fault data_race
    else ret (record q {
      msgs = q.msgs ++ msg ∷ [];
      pushing = q.pushing + 1;
      in_push = none;
      pushed = q.pushed ++ msg ∷ [];
    })

-- The end of push_msg.
pub end_push : Queue → Queue
end_push q = record q { event = signal_set q.event; pushing = q.pushing - 1 }

-- The start of get_msg.
pub start_get : Queue → Queue
start_get q = record q { event = signal_wait q.event; popping = q.popping + 1 }

-- pop up to the lock of m_ppop_mutex.
pub lock_pop : Queue → Queue
lock_pop q = record q { in_pop = true; raced = q.raced || is_some q.in_push }

-- The rest of pop; the front of an empty std::queue is not defined.
pub pop : Queue → Run Queue
pop q = if q.raced then fault data_race else elim q.msgs [
  | [] ↦ fault out_of_bounds
  | msg ∷ msgs ↦ ret (record q {
    msgs = msgs;
    popping = q.popping - 1;
    in_pop = false;
    taken = q.taken ++ msg ∷ [];
  })
]

-- What a thread can do next: the parts of push_msg and of get_msg.
pub data Step : Queue → Queue → Type 0 where
  locks_push : (q : Queue) (msg : ℕ) → q.in_push ≡ none → Step q (lock_push msg q)
  pushes : (q r : Queue) (msg : ℕ) → q.in_push ≡ some msg → push msg q ≡ ret r → Step q r
  signals : (q : Queue) → 0 < q.pushing → Step q (end_push q)
  waits : (q : Queue) → 0 < q.event.nsignal → Step q (start_get q)
  locks_pop : (q : Queue) → 0 < q.popping → q.in_pop ≡ false → Step q (lock_pop q)
  pops : (q r : Queue) → q.in_pop ≡ true → pop q ≡ ret r → Step q r

pub data Reach : Queue → Type 0 where
  start : Reach new_queue
  later : (q r : Queue) → Reach q → Step q r → Reach r

-- The array of CMsgQueueArr, as m_msg_queue_count and m_queue_robin.
pub record QueueArr : Type 0 where
  pub msg_queue_count : ℕ
  pub queue_robin : ℕ

-- getmsgqueuebyrobin: the index of the queue, and the array afterwards.
pub getmsgqueuebyrobin : QueueArr → ℕ × QueueArr
getmsgqueuebyrobin arr = (
  arr.queue_robin,
  record arr {
    queue_robin = if arr.queue_robin + 1 == arr.msg_queue_count then 0 else arr.queue_robin + 1;
  },
)
