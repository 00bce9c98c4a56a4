-- ===== src/Node.antt =====
-- src/proxynode/node_info.h and node_info.cpp: what the proxy knows of devices and of vnodes.
-- A device_info is known by its address, a number. A pointer to a replica_info is its place in the
-- replica_list of its vnode.
pub mod Status
pub mod Read
pub mod Reads
pub mod Write
pub mod Zones
mod Tests
use kunlun.Prelude.{
  ℕ, zero, suc, ◌+◌, List, [], ◌∷◌, ◌++◌, Bool, true, false, Option, none, some, length, get_elem?,
  leb, ◌==◌, if◌then◌else◌,
}

pub record SyncEvent : Type 0 where
  pub src_vnode_index : ℕ
  pub pdest_node : Option ℕ

pub record Device : Type 0 where
  pub device_id : ℕ
  pub zone_id : ℕ
  pub weight : ℕ
  pub bind_ip : List ℕ
  pub nbind_port : ℕ
  pub last_update_time : ℕ
  pub vnode_list : List ℕ
  pub sync_list : List SyncEvent
  pub syncing_list : List SyncEvent

pub record Replica : Type 0 where
  pub replica_status : ℕ
  pub preplica : ℕ

pub record Vnode : Type 0 where
  pub vnode_id : ℕ
  pub version : ℕ
  pub wr_req_robin : ℕ
  pub rd_req_robin : ℕ
  pub replica_list : List Replica

-- The devices by address; `none` is an address that holds no device_info.
abbrev pub Devices : Type 0
Devices = ℕ → Option Device

-- What get_read_replica and get_write_replica return: 0 with a replica, -1, or -2. `wild` is the
-- use of replica_list.end() as a replica.
pub data Pick : Type 0 where
  picked : ℕ → Pick
  no_active no_replica wild : Pick

-- if(robin >= replica_list.size()) robin = 0
pub wrap : List Replica → ℕ → ℕ
wrap rs robin = if leb (length rs) robin then 0 else robin

-- The rounds left of the loop of get_read_replica. The result has the new rd_req_robin.
pub read_loop : ℕ → List Replica → ℕ → ℕ × Pick
read_loop zero rs robin = (robin, no_active)
read_loop (suc n) rs robin =
    let place = wrap rs robin in
    let rest = read_loop n rs (place + 1) in
    elim (get_elem? rs place) [
      | none ↦ (place, wild)
      | some r ↦ if r.replica_status == Status.active then (place + 1, picked place) else rest
    ]

unfoldable pub get_read_replica : Vnode → Vnode × Pick
get_read_replica v = elim v.replica_list [
  | [] ↦ (v, no_replica)
  | r ∷ rs ↦
      let (robin, pick) = read_loop (length v.replica_list) v.replica_list v.rd_req_robin in
      (record v { rd_req_robin = robin }, pick)
]

-- The rounds left of the loop of get_write_replica, which counts in `wr` and walks to place `rd`.
-- The result has the new wr_req_robin.
pub write_loop : ℕ → List Replica → ℕ → ℕ → ℕ × Pick
write_loop zero rs rd wr = (wr, no_active)
write_loop (suc n) rs rd wr =
    let turn = wrap rs wr in
    let rest = write_loop n rs rd (turn + 1) in
    elim (get_elem? rs rd) [
      | none ↦ (turn, wild)
      | some r ↦ if r.replica_status == Status.active then (turn + 1, picked rd) else rest
    ]

unfoldable pub get_write_replica : Vnode → Vnode × Pick
get_write_replica v = elim v.replica_list [
  | [] ↦ (v, no_replica)
  | r ∷ rs ↦
      let (robin, pick) =
        write_loop (length v.replica_list) v.replica_list v.rd_req_robin v.wr_req_robin in
      (record v { wr_req_robin = robin }, pick)
]

-- The place of the first replica on a device; get_replica_info returns NULL for `none`.
unfoldable pub find_replica : ℕ → List Replica → Option ℕ
find_replica dev [] = none
find_replica dev (r ∷ rs) =
    if dev == r.preplica
    then some 0
    else elim (find_replica dev rs) [ none ↦ none | some i ↦ some (i + 1) ]

unfoldable pub get_replica_info : Vnode → ℕ → Option ℕ
unfolding find_replica
get_replica_info v dev = find_replica dev v.replica_list

-- The loop of destroy_replica_info: it deletes the first replica on the device.
unfoldable pub remove_replica : ℕ → List Replica → List Replica
remove_replica dev [] = []
remove_replica dev (r ∷ rs) = if r.preplica == dev then rs else r ∷ remove_replica dev rs

unfoldable pub destroy_replica_info : Vnode → ℕ → Vnode
unfolding remove_replica
destroy_replica_info v dev = record v { replica_list = remove_replica dev v.replica_list }

-- `none` is the use of a device that is not there.
pub diff_zones : Devices → ℕ → List Replica → Option Bool
diff_zones ds zone [] = some true
diff_zones ds zone (r ∷ rs) =
    let rest = diff_zones ds zone rs in
    elim (ds r.preplica) [ none ↦ none | some d ↦ if zone == d.zone_id then some false else rest ]

pub is_diff_zones : Devices → Vnode → Device → Option Bool
unfolding diff_zones
is_diff_zones ds v join = diff_zones ds join.zone_id v.replica_list

-- The loop of erase_vnode: the list without the first entry that is vnode_index; `none` if there
-- is none, where erase_vnode returns -1.
unfoldable pub erase_index : ℕ → List ℕ → Option (List ℕ)
erase_index n [] = none
erase_index n (x ∷ xs) =
    let rest = erase_index n xs in
    if n == x then some xs else elim rest [ none ↦ none | some ys ↦ some (x ∷ ys) ]

pub erase_vnode : Device → ℕ → Device × Bool
unfolding erase_index
erase_vnode d n = elim (erase_index n d.vnode_list) [
  | none ↦ (d, false)
  | some xs ↦ (record d { vnode_list = xs }, true)
]

-- The event that pop_syncing_vnode starts with, and returns if no other is found.
abbrev pub null_event : SyncEvent
null_event = record { src_vnode_index = 0; pdest_node = none }

pub pop_event : ℕ → List SyncEvent → SyncEvent × List SyncEvent
pop_event n [] = (null_event, [])
pop_event n (e ∷ es) =
    let rest = pop_event n es in if e.src_vnode_index == n then (e, es) else (rest.0, e ∷ rest.1)

pub pop_syncing_vnode : Device → ℕ → SyncEvent × Device
unfolding pop_event
pop_syncing_vnode d n =
    let (event, left) = pop_event n d.syncing_list in (event, record d { syncing_list = left })
