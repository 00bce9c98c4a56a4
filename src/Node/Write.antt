-- ===== src/Node/Write.antt =====
-- get_write_replica of src/proxynode/node_info.cpp.
use kunlun.Prelude.{
  ℕ, zero, suc, ◌+◌, ◌≤◌, ◌≡◌, ◌≢◌, refl, List, [], ◌∷◌, none, some, length, get_elem?,
  if◌then◌else◌, nil-cases, get_elem?-ge, inl, inr, arith,
}
use kunlun.Node.{
  Replica, Vnode, Pick, picked, no_active, no_replica, wild, wrap, write_loop, get_read_replica,
  get_write_replica,
}
use kunlun.Node.Read.{get_read_replica_nil, get_read_replica_lem, after_read, turn, is_active}

-- The replica at the place rd_req_robin, if it is active.
abbrev pub read_place_choice : List Replica → ℕ → Pick
read_place_choice rs rd = elim (get_elem? rs rd) [
  | none ↦ wild
  | some r ↦ if is_active r then picked rd else no_active
]

write_loop-choice :
    (m : ℕ) (rs : List Replica) (rd wr : ℕ)
    → (write_loop (suc m) rs rd wr).1 ≡ read_place_choice rs rd
unfolding write_loop
write_loop-choice zero rs rd wr = ground arith
write_loop-choice (suc m) rs rd wr = ground (arith, write_loop-choice m rs rd (wrap rs wr + 1))

write_lem :
    (v : Vnode) (rs : List Replica)
    → v.replica_list ≡ rs
    → v.replica_list ≢ []
    → get_write_replica v ≡ (
      record v { wr_req_robin = (get_write_replica v).0.wr_req_robin },
      read_place_choice v.replica_list v.rd_req_robin,
    )
unfolding get_write_replica
write_lem v [] e h = absurd (h e)
write_lem v (r ∷ rs) e h =
    ground (arith, write_loop-choice (length rs) (r ∷ rs) v.rd_req_robin v.wr_req_robin)

-- On a vnode with replicas, get_write_replica looks at the place rd_req_robin alone, whatever
-- wr_req_robin is: it returns the replica there if it is active and -1 if it is not, and it uses
-- the end of the list as a replica if the place is past the end. All it changes is wr_req_robin.
pub get_write_replica_lem :
    (v : Vnode)
    → v.replica_list ≢ []
    → get_write_replica v ≡ (
      record v { wr_req_robin = (get_write_replica v).0.wr_req_robin },
      read_place_choice v.replica_list v.rd_req_robin,
    )
unfolding get_write_replica
get_write_replica_lem v h = write_lem v v.replica_list refl h

past_end : (rs : List Replica) (i : ℕ) → length rs ≤ i → read_place_choice rs i ≡ wild
past_end rs i h = rw (get_elem?-ge rs i h, read_place_choice)

get_write_replica_nil : (v : Vnode) → v.replica_list ≡ [] → get_write_replica v ≡ (v, no_replica)
unfolding get_write_replica
get_write_replica_nil v e = ground arith

-- Two writes with no read between them get the same answer, so writes do not go round the replicas.
pub get_write_replica_repeats :
    (v : Vnode) → (get_write_replica (get_write_replica v).0).1 ≡ (get_write_replica v).1
get_write_replica_repeats v = elim (nil-cases v.replica_list) [
  | inl e ↦ let once = get_write_replica_nil v e in rw (once, once)
  | inr h ↦
      let once = get_write_replica_lem v h in
      rw (
        once,
        get_write_replica_lem (record v { wr_req_robin = (get_write_replica v).0.wr_req_robin }) h,
      )
]

-- A read that takes the last replica leaves the next write the end of the list for a replica.
pub get_write_replica-get_read_replica :
    (v : Vnode) (i : ℕ)
    → (get_read_replica v).1 ≡ picked i
    → i + 1 ≡ length v.replica_list
    → (get_write_replica (get_read_replica v).0).1 ≡ wild
get_write_replica-get_read_replica v i e last = elim (nil-cases v.replica_list) [
  | inl nil ↦ cc (get_read_replica_nil v nil)
  | inr h ↦ elim (get_read_replica_lem v h) [
    | inl (k, hk, r, a, before) ↦ rw r (
        rw (get_write_replica_lem (after_read v _) h) (
          past_end v.replica_list _ (
            let at : turn (length v.replica_list) (wrap v.replica_list v.rd_req_robin) k ≡ i =
              ground (arith, r) in
            omega arith)))
    | inr (robin, r, idle) ↦ ground (arith, r)
  ]
]
