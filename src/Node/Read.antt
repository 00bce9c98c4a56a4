-- ===== src/Node/Read.antt =====
-- get_read_replica of src/proxynode/node_info.cpp.
use kunlun.Prelude.{
  ℕ, zero, suc, ◌+◌, ◌-◌, ◌%◌, ◌<◌, ◌≡◌, ◌≢◌, ◌⊎◌, inl, inr, refl, sym, ap, ◌∙◌, List, [], ◌∷◌,
  Bool, some, length, get_elem?, leb, ◌==◌, if◌then◌else◌, Bool-cases, get_elem?-lt, arith,
}
use native.Mathlib.Nat.{mod-add-mod}
use kunlun.Node.Status
use kunlun.Node.{
  Replica, Vnode, Pick, picked, no_active, no_replica, wrap, read_loop, get_read_replica,
}

-- The status of the replica at a place, as a test.
abbrev pub is_active : Replica → Bool
is_active r = r.replica_status == Status.active

abbrev pub ActiveAt : List Replica → ℕ → Type 0
ActiveAt rs i = (r : Replica) × (get_elem? rs i ≡ some r) × (r.replica_status ≡ Status.active)

abbrev pub IdleAt : List Replica → ℕ → Type 0
IdleAt rs i = (r : Replica) → get_elem? rs i ≡ some r → r.replica_status ≢ Status.active

-- The place k turns after place s, of n places in a circle.
abbrev pub turn : ℕ → ℕ → ℕ → ℕ
turn n s k = (s + k) % n

pub turn_next : (n s k : ℕ) → s < n → turn n (turn n s 1) k ≡ turn n s (suc k)
turn_next n s k h = mod-add-mod (s + 1) n k ∙ ap (λ (t : ℕ). t % n) (omega arith)

turn_zero : (n s : ℕ) → s < n → turn n s 0 ≡ s
turn_zero n s h = grind arith

pub turn_lt : (n s k : ℕ) → s < n → turn n s k < n
turn_lt n s k h = grind arith

-- Every place is at most n turns away.
pub turn_reaches : (n s i : ℕ) → s < n → i < n → (k : ℕ) × (k < n) × (turn n s k ≡ i)
turn_reaches n s i hs hi = elim (Bool-cases (leb s i)) [
  | inl t ↦ (i - s, ground arith, grind arith)
  | inr f ↦ (i + n - s, ground arith, grind arith)
]

pub wrap-turn : (rs : List Replica) (s : ℕ) → s < length rs → wrap rs (s + 1) ≡ turn (length rs) s 1
unfolding wrap
wrap-turn rs s h = grind arith

-- What a loop of m rounds from place s ends with: the first active replica in the circle, or none.
abbrev Outcome : List Replica → ℕ → ℕ → ℕ × Pick → Type 0
Outcome rs s m (robin, pick) =
    ((k : ℕ) × (k < m)
      × (pick ≡ picked (turn (length rs) s k))
      × (robin ≡ turn (length rs) s k + 1)
      × ActiveAt rs (turn (length rs) s k)
      × ((j : ℕ) → j < k → IdleAt rs (turn (length rs) s j)))
    ⊎ ((pick ≡ no_active) × ((j : ℕ) → j < m → IdleAt rs (turn (length rs) s j)))

Idle_shift :
    (rs : List Replica) (s m : ℕ)
    → s < length rs
    → IdleAt rs s
    → ((j : ℕ) → j < m → IdleAt rs (turn (length rs) (turn (length rs) s 1) j))
    → (j : ℕ) → j < suc m
    → IdleAt rs (turn (length rs) s j)
Idle_shift rs s m h idle later zero hj = rw (turn_zero (length rs) s h) idle
Idle_shift rs s m h idle later (suc j) hj =
    rw (← turn_next (length rs) s j h) (later j (omega arith))

Outcome-skip :
    (rs : List Replica) (s m : ℕ) (r : ℕ × Pick)
    → s < length rs
    → IdleAt rs s
    → Outcome rs (turn (length rs) s 1) m r
    → Outcome rs s (suc m) r
Outcome-skip rs s m (robin, pick) h idle (inl (k, lt, p, q, a, before)) = inl (
  suc k,
  omega arith,
  p ∙ ap picked (turn_next (length rs) s k h),
  q ∙ ap (λ (t : ℕ). t + 1) (turn_next (length rs) s k h),
  rw (← turn_next (length rs) s k h) a,
  Idle_shift rs s k h idle before,
)
Outcome-skip rs s m (robin, pick) h idle (inr (p, none_before)) =
    inr (p, Idle_shift rs s m h idle none_before)

Outcome-hit :
    (rs : List Replica) (s m : ℕ) (r : Replica)
    → s < length rs
    → get_elem? rs s ≡ some r
    → r.replica_status ≡ Status.active
    → Outcome rs s (suc m) (s + 1, picked s)
Outcome-hit rs s m r h er a =
    let e = sym (turn_zero (length rs) s h) in
    inl (
      0,
      omega arith,
      ap picked e,
      ap (λ (i : ℕ). i + 1) e,
      rw (← e) (r, er, a),
      λ j hj. elim hj [ ],
    )

read_loop_step :
    (m : ℕ) (rs : List Replica) (robin s : ℕ) (r : Replica)
    → wrap rs robin ≡ s
    → get_elem? rs s ≡ some r
    → read_loop (suc m) rs robin
      ≡ (if is_active r then (s + 1, picked s) else read_loop m rs (s + 1))
unfolding read_loop
read_loop_step m rs robin s r e er = ground arith

read_loop-Outcome :
    (m : ℕ) (rs : List Replica) (robin s : ℕ)
    → wrap rs robin ≡ s
    → s < length rs
    → Outcome rs s m (read_loop m rs robin)
read_loop-Outcome zero rs robin s e h = inr (unfold read_loop in refl, λ j hj. elim hj [ ])
read_loop-Outcome (suc m) rs robin s e h =
    let (r, er) = get_elem?-lt rs s h in
    elim (Bool-cases (is_active r)) [
      | inl t ↦
          rw (read_loop_step m rs robin s r e er, t) (Outcome-hit rs s m r h er (ground arith))
      | inr f ↦
          rw (read_loop_step m rs robin s r e er, f)
            (Outcome-skip rs s m _ h (λ r' e' a. ground arith)
              (read_loop-Outcome m rs (s + 1) _ (wrap-turn rs s h) (turn_lt (length rs) s 1 h)))
    ]

pub wrap-lt : (rs : List Replica) (robin : ℕ) → rs ≢ [] → wrap rs robin < length rs
unfolding wrap
wrap-lt [] robin h = absurd (h refl)
wrap-lt (r ∷ rs) robin h = ground arith

-- A vnode after a read: only its rd_req_robin may differ.
abbrev pub after_read : Vnode → ℕ → Vnode
after_read v robin = record v { rd_req_robin = robin }

-- get_read_replica on a vnode with replicas, as its first round begins at place s.
abbrev pub ReadsFrom : Vnode → ℕ → Type 0
ReadsFrom v s =
    let rs = v.replica_list in
    ((k : ℕ) × (k < length rs)
      × (get_read_replica v
          ≡ (after_read v (turn (length rs) s k + 1), picked (turn (length rs) s k)))
      × ActiveAt rs (turn (length rs) s k)
      × ((j : ℕ) → j < k → IdleAt rs (turn (length rs) s j)))
    ⊎ ((robin : ℕ) × (get_read_replica v ≡ (after_read v robin, no_active))
        × ((i : ℕ) → i < length rs → IdleAt rs i))

get_read_replica_ne :
    (v : Vnode) (robin : ℕ) (pick : Pick)
    → v.replica_list ≢ []
    → (read_loop (length v.replica_list) v.replica_list v.rd_req_robin).0 ≡ robin
    → (read_loop (length v.replica_list) v.replica_list v.rd_req_robin).1 ≡ pick
    → get_read_replica v ≡ (after_read v robin, pick)
unfolding get_read_replica
get_read_replica_ne v robin pick h e f = ground arith

-- On a vnode with replicas, get_read_replica goes round the circle of places once, from
-- rd_req_robin or from 0 when that is past the end. It returns the first active replica that it
-- meets and leaves rd_req_robin behind it; it returns -1 only if no replica is active. Nothing
-- else of the vnode changes.
pub get_read_replica_lem :
    (v : Vnode) → v.replica_list ≢ [] → ReadsFrom v (wrap v.replica_list v.rd_req_robin)
get_read_replica_lem v h =
    let rs = v.replica_list in
    let s = wrap rs v.rd_req_robin in
    let lt = wrap-lt rs v.rd_req_robin h in
    elim (read_loop-Outcome (length rs) rs v.rd_req_robin s refl lt) [
      | inl (k, hk, p, q, a, before) ↦ inl (k, hk, get_read_replica_ne v _ _ h q p, a, before)
      | inr (p, none_there) ↦ inr (
        (read_loop (length rs) rs v.rd_req_robin).0,
        get_read_replica_ne v _ _ h refl p,
        λ i hi. let (k, hk, e) = turn_reaches (length rs) s i lt hi in rw e at (none_there k hk),
      )
    ]

pub get_read_replica_nil : (v : Vnode) → v.replica_list ≡ [] → get_read_replica v ≡ (v, no_replica)
unfolding get_read_replica
get_read_replica_nil v e = ground arith
