-- ===== src/Balancer.antt =====
-- CVnodeBalancer of src/proxynode/vnode_balancer.cpp: how a joining device gets its replicas.
-- Locks and allocations succeed; time(NULL) is an argument. A function's result code is its bit
-- pattern, -1 included.
pub mod Copy
pub mod Loop
pub mod Join
mod Tests
use kunlun.Prelude.Run.{Run, ret, fault, out_of_bounds, null_deref, ◌>>=◌, or_fault}
use kunlun.Node.Status
use kunlun.Node.{
  Device, Replica, Vnode, SyncEvent, Pick, picked, no_active, no_replica, wild, get_read_replica,
  is_diff_zones,
}
use kunlun.Proxy.{Proxy, update, deref, get_vnode, add_node}
use kunlun.Prelude.{
  ℕ, zero, suc, ◌+◌, ◌-◌, ◌^◌, List, [], ◌∷◌, ◌++◌, true, false, none, some, length, get_elem?, set,
}

-- The result -1.
abbrev pub minus_one : ℕ
minus_one = 2 ^ 32 - 1

-- Replica s of the vnode gets another status.
unfoldable pub set_status : Vnode → ℕ → Replica → ℕ → Vnode
set_status v s r status = record v {
  replica_list = set v.replica_list s (record r { replica_status = status });
}

-- sync_list.push_back on the device at an address
unfoldable pub push_sync : Proxy → ℕ → SyncEvent → Run Proxy
push_sync p a event = do
  d ← deref p.devices a
  ret (record p {
    devices = update p.devices a (some (record d { sync_list = d.sync_list ++ event ∷ [] }));
  })

-- The last two calls of a round: replica_list.push_back(pjoin_replica) on vnode i and
-- vnode_list.push_back(i) on the joining device.
pub attach : Proxy → ℕ → ℕ → Vnode → ℕ → Run Proxy
attach p i a v status = do
  d ← deref p.devices a
  ret (record p {
    devices = update p.devices a (some (record d { vnode_list = d.vnode_list ++ i ∷ [] }));
    vnodes = set p.vnodes i (record v {
      replica_list = v.replica_list ++ record { replica_status = status; preplica = a } ∷ [];
    });
  })

-- The branch of master_do_copy_vnode with a source replica s to copy from.
pub copy_from : Proxy → ℕ → ℕ → Vnode → ℕ → Run Proxy
copy_from p i a v s = do
  src ← or_fault (get_elem? v.replica_list s) out_of_bounds
  p' ← push_sync p src.preplica (record { src_vnode_index = i; pdest_node = some a })
  attach p' i a (set_status v s src Status.copy_src) Status.wait_sync

-- How a round goes on after the choice of a source for a vnode that has replicas.
pub copy_pick : Proxy → ℕ → ℕ → Vnode × Pick → Run (Proxy × ℕ)
copy_pick p i a (v, picked s) = do p' ← copy_from p i a v s; ret (p', 0)
copy_pick p i a (v, no_active) = do p' ← attach p i a v Status.online; ret (p', 0)
copy_pick p i a (v, no_replica) = ret (record p { vnodes = set p.vnodes i v }, minus_one)
copy_pick p i a (v, wild) = fault out_of_bounds

-- The part of a round of master_do_copy_vnode behind the zone test.
pub copy_round : Proxy → ℕ → ℕ → Vnode → Run (Proxy × ℕ)
copy_round p i a v = elim v.replica_list [
  | [] ↦ (do p' ← attach p i a v Status.active; ret (p', 0))
  | first ∷ others ↦ copy_pick p i a (get_read_replica v)
]

-- What a round does with vnode i, the zone test included.
pub copy_vnode : Proxy → ℕ → ℕ → Vnode → Run (Proxy × ℕ)
copy_vnode p i a v = do
  d ← deref p.devices a
  apart ← or_fault (is_diff_zones p.devices v d) null_deref
  elim apart [ true ↦ copy_round p i a v | false ↦ ret (p, 0) ]

-- The rounds left of the loop over the vnodes; i is the next vnode.
pub copy_loop : ℕ → ℕ → ℕ → Proxy → Run (Proxy × ℕ)
copy_loop zero i a p = ret (p, 0)
copy_loop (suc m) i a p = do
  found ← get_vnode p.vnodes i
  elim found [
    | none ↦ ret (p, minus_one)
    | some v ↦ (do
      (p', code) ← copy_vnode p i a v
      elim code [ zero ↦ copy_loop m (i + 1) a p' | suc c ↦ ret (p', suc c) ])
  ]

-- last_update_time = time(NULL), and add_node of the joining device.
pub enter : ℕ → ℕ → Proxy → Run Proxy
enter now a p = do
  d ← deref p.devices a
  c ← add_node p.container a
  ret (record p {
    container = c;
    devices = update p.devices a (some (record d { last_update_time = now }));
  })

pub master_do_copy_vnode : ℕ → ℕ → Proxy → Run (Proxy × ℕ)
master_do_copy_vnode now a p = do
  (p', code) ← copy_loop (length p.vnodes) 0 a p
  elim code [ zero ↦ (do p'' ← enter now a p'; ret (p'', 0)) | suc c ↦ ret (p', suc c) ]

pub slaver_do_device_join : ℕ → ℕ → Proxy → Run (Proxy × ℕ)
slaver_do_device_join now a p = do p' ← enter now a p; ret (p', 0)
