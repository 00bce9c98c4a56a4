-- ===== src/Mover.antt =====
-- master_do_move_vnode of src/proxynode/vnode_balancer.cpp, and get_total_replica_count of
-- node_container.cpp. Sums and products of ints do not overflow.
pub mod Barren
pub mod Termination
mod Tests
use kunlun.Prelude.Run.{Run, ret, fault, out_of_bounds, null_deref, endless, ◌>>=◌, or_fault}
use kunlun.Prelude.Int.{ℤ, pos, to_int, ◌+ℤ◌, ◌-ℤ◌, ◌*ℤ◌, div_int, is_positive}
use kunlun.Node.Status
use kunlun.Node.{Device, Devices, Replica, Vnode, get_replica_info, is_diff_zones}
use kunlun.Proxy.{Proxy, DeviceContainer, deref, get_vnode}
use kunlun.Balancer.{minus_one, set_status, push_sync, attach, enter}
use kunlun.Storage.{enomem}
use kunlun.Prelude.{
  ℕ, zero, suc, ◌+◌, ◌-◌, ◌*◌, ◌%◌, List, [], ◌∷◌, Bool, true, false, not, ◌&&◌, Option, none, some,
  length, get_elem?, set, ◌==◌, if◌then◌else◌,
}

-- The loop of get_total_replica_count over the slots below m_node_count; `none` is the result -1.
pub total_replicas : Devices → ℕ → List (Option ℕ) → ℕ → ℤ → Run (Option (ℕ × ℤ))
total_replicas ds zero slots count weight = ret (some (count, weight))
total_replicas ds (suc n) [] count weight = fault out_of_bounds
total_replicas ds (suc n) (none ∷ slots) count weight = ret none
total_replicas ds (suc n) (some a ∷ slots) count weight = do
  d ← deref ds a
  total_replicas ds n slots (count + length d.vnode_list) (weight +ℤ to_int d.weight)

pub get_total_replica_count : Proxy → Run (Option (ℕ × ℤ))
get_total_replica_count p =
    total_replicas p.devices p.container.node_count p.container.slots 0 (pos 0)

-- vnode_list.erase(vnode_list.begin() + i)
pub erase_at : List ℕ → ℕ → List ℕ
erase_at [] i = []
erase_at (x ∷ xs) zero = xs
erase_at (x ∷ xs) (suc i) = x ∷ erase_at xs i

pub holds : ℕ → List ℕ → Bool
holds n [] = false
holds n (x ∷ xs) = if n == x then true else holds n xs

-- What the tests of a round say of the vnode at a place of the current device: an early return of
-- -1, goto_choose_another_vnode, or the way to the move of it, with its index, the vnode, the place of
-- its replica on the current device and that replica.
pub data Choice : Type 0 where
  give_up : Choice
  another : Choice
  move : ℕ → Vnode → ℕ → Replica → Choice

-- The zone test: whether the vnode can move to the joining device.
pub choose_by_zone : Proxy → Device → Device → Vnode → Run Bool
choose_by_zone p curr join v =
    if curr.zone_id == join.zone_id
    then ret true
    else or_fault (is_diff_zones p.devices v join) null_deref

pub choose_by_replica : Proxy → Device → Device → ℕ → Vnode → Replica → Run Bool
choose_by_replica p curr join vnode_index v src =
    if not (src.replica_status == Status.active)
    then ret false
    else (if holds vnode_index join.vnode_list then ret false else choose_by_zone p curr join v)

-- The tests for vnode_list[i] of the current device at address c, for the joining device at a.
pub choose : Proxy → ℕ → ℕ → ℕ → Run Choice
choose p c a i = do
  curr ← deref p.devices c
  join ← deref p.devices a
  vnode_index ← or_fault (get_elem? curr.vnode_list i) out_of_bounds
  found ← get_vnode p.vnodes vnode_index
  elim found [
    | none ↦ ret give_up
    | some v ↦ elim (get_replica_info v c) [
      | none ↦ ret give_up
      | some s ↦ (do
        src ← or_fault (get_elem? v.replica_list s) out_of_bounds
        apart ← choose_by_replica p curr join vnode_index v src
        ret (if apart then move vnode_index v s src else another))
    ]
  ]

-- An assignment of a pointer as a condition of C: the pointer behind it, and whether the condition
-- holds.
pub assign : Option Replica → Option Replica → Option Replica × Bool
assign old none = (none, false)
assign old (some r) = (some r, true)

-- The move of vnode i with the source replica s, and its result: the source is set to MOVE_SRC, the
-- new replica is made and tested by `if(pjoin_replica = NULL)`, its fields are written through the
-- pointer, the source's device gets the event, and the vnode and the joining device each other.
pub move_vnode : Proxy → ℕ → ℕ → Vnode → ℕ → Replica → Run (Proxy × ℕ)
move_vnode p a i v s src =
    let v' = set_status v s src Status.move_src in
    let p' = record p { vnodes = set p.vnodes i v' } in
    let fresh : Replica = record { replica_status = Status.online; preplica = a } in
    let (pjoin_replica, failed) = assign (some fresh) none in
    if failed then ret (p', enomem) else (do
      join_replica ← or_fault pjoin_replica null_deref
      pushed ← push_sync p' src.preplica (record { src_vnode_index = i; pdest_node = some a })
      moved ← attach pushed i join_replica.preplica v' Status.wait_sync
      ret (moved, 0))

-- rand % size of the k-th call of rand() since srand().
module _ (rand : ℕ → ℕ) where
  -- while(vnode_list.size() > 0) for one device, over the local copy of its vnode_list; move_count
  -- vnodes are to be moved, and moved of them have been. It gives the proxy, the calls of rand() so
  -- far, and the result: 0 where the loop ends, else the early return. Each round that goes on erases
  -- an entry, so the length of the list is enough fuel.
  pub move_loop : ℕ → Proxy → ℕ → ℕ → ℤ → ℕ → List ℕ → ℕ → Run (Proxy × ℕ × ℕ)
  move_loop fuel p c a move_count moved [] k = ret (p, k, 0)
  move_loop zero p c a move_count moved (x ∷ xs) k = fault endless
  move_loop (suc fuel) p c a move_count moved (x ∷ xs) k = do
    let i = rand k % length (x ∷ xs)
    choice ← choose p c a i
    elim choice [
      | give_up ↦ ret (p, k + 1, minus_one)
      | another ↦ move_loop fuel p c a move_count moved (erase_at (x ∷ xs) i) (k + 1)
      | move vnode_index v s src ↦ (do
        (p', code) ← move_vnode p a vnode_index v s src
        elim code [
          | suc e ↦ ret (p', k + 1, suc e)
          | zero ↦ elim (is_positive (move_count -ℤ pos (moved + 1))) [
            | false ↦ ret (p', k + 1, 0)
            | true ↦ move_loop fuel p' c a move_count (moved + 1) (erase_at (x ∷ xs) i) (k + 1)
          ]
        ])
    ]

  -- The loop over the devices of the container, on the slots left below m_node_count. The result
  -- is 0 if the function goes on to add the device; if not, it is the early return.
  pub move_devices : ℕ → List (Option ℕ) → Proxy → ℕ → ℤ → ℕ → Run (Proxy × ℕ)
  move_devices zero slots p a avg k = ret (p, 0)
  move_devices (suc n) [] p a avg k = fault out_of_bounds
  move_devices (suc n) (none ∷ slots) p a avg k = ret (p, minus_one)
  move_devices (suc n) (some c ∷ slots) p a avg k = do
    curr ← deref p.devices c
    let move_count = pos (length curr.vnode_list) -ℤ avg *ℤ to_int curr.weight
    elim (is_positive move_count) [
      | false ↦ move_devices n slots p a avg k
      | true ↦ (do
        (p', k', code) ← move_loop (length curr.vnode_list) p c a move_count 0 curr.vnode_list k
        elim code [ zero ↦ move_devices n slots p' a avg k' | suc e ↦ ret (p', suc e) ])
    ]

  pub master_do_move_vnode : ℕ → ℕ → Proxy → Run (Proxy × ℕ)
  master_do_move_vnode now a p = do
    join ← deref p.devices a
    totals ← get_total_replica_count p
    elim totals [
      | none ↦ ret (p, minus_one)
      | some (count, weight) ↦ (do
        avg ← div_int count (weight +ℤ to_int join.weight)
        (p', code) ← move_devices p.container.node_count p.container.slots p a avg 0
        elim code [ suc e ↦ ret (p', suc e) | zero ↦ (do p'' ← enter now a p'; ret (p'', 0)) ])
    ]
