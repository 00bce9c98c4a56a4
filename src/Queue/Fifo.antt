-- ===== src/Queue/Fifo.antt =====
-- What the threads on a CMsgQueue of src/common/msg_queue.cpp keep as long as push and pop do not meet,
-- and that nothing keeps them from meeting.
use kunlun.Prelude.Run.{ret, fault, data_race, ret-injective}
use mathlib.Core.Path.{subst}
use kunlun.Queue.{
  Queue, Step, locks_push, pushes, signals, waits, locks_pop, pops, Reach, start, later, new_queue,
  is_some, lock_push, push, end_push, start_get, lock_pop, pop, signal_set, signal_wait,
}
use kunlun.Prelude.{
  ℕ, suc, ◌+◌, ◌-◌, ◌<◌, ◌≡◌, ◌≢◌, ◌∙◌, sym, ap, refl, List, [], ◌∷◌, ◌++◌, true, false, ◌||◌, none,
  some, length, length-append, append_assoc, arith, Bool-cases, inl, inr,
}

-- The queue holds what has been pushed and not taken, in that order, and as many messages as there
-- are signals and threads in the middle of a call; the thread in pop is one of these.
pub record Inv (q : Queue) : Type 0 where
  pub in_order : q.pushed ≡ q.taken ++ q.msgs
  pub counted : length q.msgs ≡ q.pushing + q.event.nsignal + q.popping
  pub semaphore : q.event.semaphore ≡ true
  pub inside : q.in_pop ≡ true → 0 < q.popping

new_queue-Inv : Inv new_queue
unfolding new_queue
new_queue-Inv = record {
  in_order = refl;
  counted = omega arith;
  semaphore = refl;
  inside = λ e. cc;
}

lock_push-Inv : (q : Queue) (msg : ℕ) → Inv q → Inv (lock_push msg q)
unfolding lock_push
lock_push-Inv q msg inv = record {
  in_order = inv.in_order;
  counted = inv.counted;
  semaphore = inv.semaphore;
  inside = inv.inside;
}

pushed_on : ℕ → Queue → Queue
pushed_on msg q = record q {
  msgs = q.msgs ++ msg ∷ [];
  pushing = q.pushing + 1;
  in_push = none;
  pushed = q.pushed ++ msg ∷ [];
}

pushed_on-Inv : (q : Queue) (msg : ℕ) → Inv q → Inv (pushed_on msg q)
unfolding pushed_on
pushed_on-Inv q msg inv = record {
  in_order =
      ap (λ (xs : List ℕ). xs ++ msg ∷ []) inv.in_order ∙ append_assoc q.taken q.msgs (msg ∷ []);
  counted = omega (arith, length-append q.msgs (msg ∷ []), inv.counted);
  semaphore = inv.semaphore;
  inside = inv.inside;
}

push-raced : (q : Queue) (msg : ℕ) → q.raced ≡ true → push msg q ≡ fault data_race
unfolding push
push-raced q msg t = ground arith

push-calm : (q : Queue) (msg : ℕ) → q.raced ≡ false → push msg q ≡ ret (pushed_on msg q)
unfolding push pushed_on
push-calm q msg t = ground arith

push-Inv : (q r : Queue) (msg : ℕ) → push msg q ≡ ret r → Inv q → Inv r
push-Inv q r msg e inv = elim (Bool-cases q.raced) [
  | inl t ↦ cc (sym (push-raced q msg t) ∙ e)
  | inr t ↦ subst Inv (ret-injective _ _ (sym (push-calm q msg t) ∙ e)) (pushed_on-Inv q msg inv)
]

end_push-Inv : (q : Queue) → 0 < q.pushing → Inv q → Inv (end_push q)
unfolding end_push signal_set
end_push-Inv q h inv = record {
  in_order = inv.in_order;
  counted = omega (arith, inv.counted);
  semaphore = inv.semaphore;
  inside = inv.inside;
}

start_get-Inv : (q : Queue) → 0 < q.event.nsignal → Inv q → Inv (start_get q)
unfolding start_get signal_wait
start_get-Inv q h inv = record {
  in_order = inv.in_order;
  counted = rw inv.semaphore (omega (arith, inv.counted));
  semaphore = inv.semaphore;
  inside = λ e. omega arith;
}

lock_pop-Inv : (q : Queue) → 0 < q.popping → Inv q → Inv (lock_pop q)
unfolding lock_pop
lock_pop-Inv q h inv = record {
  in_order = inv.in_order;
  counted = inv.counted;
  semaphore = inv.semaphore;
  inside = λ e. h;
}

popped : Queue → ℕ → List ℕ → Queue
popped q msg msgs = record q {
  msgs = msgs;
  popping = q.popping - 1;
  in_pop = false;
  taken = q.taken ++ msg ∷ [];
}

-- pop on a queue that holds messages.
pop-cons :
    (q : Queue) (msg : ℕ) (msgs : List ℕ)
    → q.raced ≡ false
    → q.msgs ≡ msg ∷ msgs
    → pop q ≡ ret (popped q msg msgs)
unfolding pop popped
pop-cons q msg msgs calm e = ground arith

popped-Inv :
    (q : Queue) (msg : ℕ) (msgs : List ℕ)
    → 0 < q.popping
    → q.msgs ≡ msg ∷ msgs
    → Inv q
    → Inv (popped q msg msgs)
unfolding popped
popped-Inv q msg msgs h e inv =
    let long : length q.msgs ≡ suc (length msgs) = ap length e in
    record {
      in_order =
          inv.in_order
          ∙ ap (λ (xs : List ℕ). q.taken ++ xs) e
          ∙ sym (append_assoc q.taken (msg ∷ []) msgs);
      counted = omega (arith, inv.counted, long);
      semaphore = inv.semaphore;
      inside = λ t. cc;
    }

-- A queue with a thread behind signal_wait is not empty.
front : (q : Queue) → 0 < q.popping → Inv q → (msg : ℕ) × (msgs : List ℕ) × (q.msgs ≡ msg ∷ msgs)
front q h inv = at_front q.msgs (omega (arith, inv.counted))
  where
    at_front : (xs : List ℕ) → 0 < length xs → (msg : ℕ) × (msgs : List ℕ) × (xs ≡ msg ∷ msgs)
    at_front [] h = elim h [ ]
    at_front (x ∷ xs) h = (x, xs, refl)

pop-raced : (q : Queue) → q.raced ≡ true → pop q ≡ fault data_race
unfolding pop
pop-raced q t = ground arith

pop-Inv : (q r : Queue) → q.in_pop ≡ true → pop q ≡ ret r → Inv q → Inv r
unfolding popped
pop-Inv q r t e inv =
    let (msg, msgs, f) = front q (inv.inside t) inv in
    elim (Bool-cases q.raced) [
      | inl wild ↦ cc (sym (pop-raced q wild) ∙ e)
      | inr calm ↦
          subst Inv (ret-injective _ _ (sym (pop-cons q msg msgs calm f) ∙ e))
            (popped-Inv q msg msgs (inv.inside t) f inv)
    ]

Step-Inv : {q r : Queue} → Step q r → Inv q → Inv r
Step-Inv (locks_push q msg e) inv = lock_push-Inv q msg inv
Step-Inv (pushes q r msg e f) inv = push-Inv q r msg f inv
Step-Inv (signals q h) inv = end_push-Inv q h inv
Step-Inv (waits q h) inv = start_get-Inv q h inv
Step-Inv (locks_pop q h e) inv = lock_pop-Inv q h inv
Step-Inv (pops q r t e) inv = pop-Inv q r t e inv

pub Reach-Inv : {q : Queue} → Reach q → Inv q
Reach-Inv start = new_queue-Inv
Reach-Inv (later q r reach step) = Step-Inv step (Reach-Inv reach)

-- As long as no thread has been in push while another one was in pop, however the other parts of
-- push_msg and get_msg of several threads interleave, a thread in pop finds a message, and what
-- get_msg returns is what push_msg was given: the same messages, each once, in the order of the
-- pushes.
pub pop-Reach :
    (q : Queue)
    → Reach q
    → q.raced ≡ false
    → q.in_pop ≡ true
    → (r : Queue) × (pop q ≡ ret r)
      × (msg : ℕ) × (r.taken ≡ q.taken ++ msg ∷ [])
      × (q.pushed ≡ r.taken ++ r.msgs)
unfolding popped
pop-Reach q reach calm t =
    let inv = Reach-Inv reach in
    let (msg, msgs, f) = front q (inv.inside t) inv in
    (
      popped q msg msgs,
      pop-cons q msg msgs calm f,
      msg,
      refl,
      (popped-Inv q msg msgs (inv.inside t) f inv).in_order,
    )

-- Nothing keeps a thread that pushes out of the std::queue while another one takes a message from it:
-- wherever a thread can lock m_ppop_mutex, and no one has m_ppush_mutex, two steps lead to a
-- reachable state in which push and pop of the threads are a data race.
pub lock_pop-races :
    (q : Queue) (msg : ℕ)
    → Reach q
    → 0 < q.popping
    → q.in_pop ≡ false
    → q.in_push ≡ none
    → (r : Queue) × Reach r
      × (r.in_push ≡ some msg)
      × (r.in_pop ≡ true)
      × (pop r ≡ fault data_race)
      × (push msg r ≡ fault data_race)
unfolding lock_push lock_pop push pop
lock_pop-races q msg reach h out free =
    let taking = lock_pop q in
    let both = lock_push msg taking in
    let raced : both.raced ≡ true = elim (Bool-cases (q.raced || is_some q.in_push)) [
      | inl t ↦ rw t refl
      | inr t ↦ rw t refl
    ] in
    (
      both,
      later taking both (later q taking reach (locks_pop q h out)) (locks_push taking msg free),
      refl,
      refl,
      rw raced refl,
      rw raced refl,
    )

-- No wake-up is lost: in a reachable state with messages and no thread in the middle of push_msg or
-- get_msg, a thread that calls get_msg does not wait.
pub Reach-nsignal :
    (q : Queue) → Reach q → q.msgs ≢ [] → q.pushing ≡ 0 → q.popping ≡ 0 → Step q (start_get q)
Reach-nsignal q reach ne idle idle' =
    let inv = Reach-Inv reach in waits q (some_signal q.msgs ne (inv.counted))
  where
    some_signal :
        (xs : List ℕ)
        → xs ≢ []
        → length xs ≡ q.pushing + q.event.nsignal + q.popping
        → 0 < q.event.nsignal
    some_signal [] ne e = absurd (ne refl)
    some_signal (x ∷ xs) ne e = omega arith
