-- ===== src/Handler/Merge.antt =====
-- master_do_device_merge of src/proxynode/proxy_msg_parser.cpp: the master compares what a storage
-- node reports with what it knows, and answers with what the node has to do.
pub mod Soundness
pub mod Answering
pub mod Told
pub mod SelfSync
mod Tests
use kunlun.Prelude.Run.{Run, ret, fault, out_of_bounds, null_deref, ◌>>=◌, or_fault}
use kunlun.Protocol.{
  VnodeReport, VnodeResp, get_report, put_resps, vnode_report_size, vnode_resp_size,
}
use kunlun.Node.Status
use kunlun.Node.{
  Device, Replica, Vnode, SyncEvent, Pick, picked, no_active, no_replica, wild, get_read_replica,
  get_replica_info, erase_index,
}
use kunlun.Proxy.{Proxy, deref, ip_addr_len}
use kunlun.Balancer.{minus_one, set_status, push_sync}
use kunlun.Handler.{Stream, response_header}
use kunlun.Handler.Address.{Reply, silent, vnode_at, put_vnode}
use kunlun.Handler.Join.{put_device}
use kunlun.Prelude.{
  ℕ, zero, suc, ◌+◌, ◌*◌, ◌^◌, ◌%◌, List, [], ◌∷◌, ◌++◌, Bool, true, not, ◌||◌, none, some, length,
  drop, get_elem?, replicate, ltb, ◌==◌, if◌then◌else◌,
}

-- The locals of the function: resp_vnode, vnode_resp_list and device_vnode_list.
pub record Merge : Type 0 where
  pub proxy : Proxy
  pub resp : VnodeResp
  pub answers : List VnodeResp
  pub left : List ℕ

-- push_back of resp_vnode
abbrev pub answer : Merge → VnodeResp → Merge
answer m r = record m { resp = r; answers = m.answers ++ r ∷ [] }

abbrev pub answer_status : Merge → ℕ → ℕ → Merge
answer_status m id status = answer m (record m.resp { vnode_id = id; vnode_status = status })

-- The place of the replica on a device, and the replica.
unfoldable pub own_replica : Vnode → ℕ → Run (ℕ × Replica)
own_replica v a = do
  i ← or_fault (get_replica_info v a) null_deref
  r ← or_fault (get_elem? v.replica_list i) out_of_bounds
  ret (i, r)

-- A round of the loop over sync_list: `e` has been taken from it, and `es` is left.
pub answer_event : ℕ → SyncEvent → List SyncEvent → Merge → Run Merge
answer_event a e es m = do
  d ← deref m.proxy.devices a
  let p =
      put_device m.proxy a
        (some (record d { sync_list = es; syncing_list = d.syncing_list ++ e ∷ [] }))
  v ← vnode_at p e.src_vnode_index
  (i, r) ← own_replica v a
  b ← or_fault e.pdest_node null_deref
  dest ← deref p.devices b
  ret (
      answer (record m { proxy = p })
        (record {
          vnode_id = v.vnode_id;
          vnode_status = r.replica_status;
          sync_dest_ip = dest.bind_ip;
          sync_dest_port = dest.nbind_port;
        }))

pub answer_events : ℕ → List SyncEvent → Merge → Run Merge
answer_events a [] m = ret m
answer_events a (e ∷ es) m = do m' ← answer_event a e es m; answer_events a es m'

-- resp_vnode after memset
abbrev pub zero_resp : VnodeResp
zero_resp = record {
  vnode_id = 0;
  vnode_status = 0;
  sync_dest_ip = replicate ip_addr_len 0;
  sync_dest_port = 0;
}

abbrev pub is_source : ℕ → Bool
is_source status = status == Status.copy_src || status == Status.move_src

-- x < y for the numbers of two int64_t patterns
abbrev pub less_int64 : ℕ → ℕ → Bool
less_int64 x y = ltb ((x + 2 ^ 63) % 2 ^ 64) ((y + 2 ^ 63) % 2 ^ 64)

-- The branch for a replica that lags behind, at place i, after get_read_replica.
pub resync : ℕ → ℕ → ℕ → Replica → Merge → Vnode × Pick → Run (Merge × ℕ)
resync a id i own m (v, picked s) = do
  let v1 = set_status v i own Status.wait_sync
  src ← or_fault (get_elem? v1.replica_list s) out_of_bounds
  let v2 = set_status v1 s src Status.copy_src
  p ←
      push_sync (put_vnode m.proxy id v2) src.preplica
        (record { src_vnode_index = id; pdest_node = some a })
  ret (answer_status (record m { proxy = p }) id Status.wait_sync, 0)
resync a id i own m (v, no_active) =
    let p = put_vnode m.proxy id (set_status v i own Status.online) in
    ret (answer_status (record m { proxy = p }) id Status.online, 0)
resync a id i own m (v, no_replica) = ret (record m { proxy = put_vnode m.proxy id v }, minus_one)
resync a id i own m (v, wild) = fault out_of_bounds

-- The branch for a replica that has no task.
pub compare_versions : ℕ → VnodeReport → Vnode → ℕ → Replica → Merge → Run (Merge × ℕ)
compare_versions a unit v i own m =
    let id = unit.vnode_id in
    if less_int64 unit.vnode_version v.version
    then resync a id i own m (get_read_replica v)
    else (if unit.vnode_version == v.version
        then ret (
          answer_status
              (record m { proxy = put_vnode m.proxy id (set_status v i own Status.active) }) id
              Status.active,
          0,
        )
        else ret (
          answer_status
              (record m {
                proxy = put_vnode m.proxy id (record v { version = unit.vnode_version });
              })
              id own.replica_status,
          0,
        ))

-- The branch for a replica that the proxy knows.
pub merge_known : ℕ → VnodeReport → Merge → Run (Merge × ℕ)
merge_known a unit m = do
  v ← vnode_at m.proxy unit.vnode_id
  (i, own) ← own_replica v a
  let m0 = record m { resp = zero_resp }
  if is_source own.replica_status
      then ret (m0, 0)
      else (if own.replica_status == Status.wait_sync
          then ret (answer_status m0 unit.vnode_id Status.wait_sync, 0)
          else compare_versions a unit v i own m0)

-- A round of the loop over the reported vnodes; the number is 0, or the result of the function.
pub merge_report : ℕ → VnodeReport → Merge → Run (Merge × ℕ)
merge_report a unit m = elim (erase_index unit.vnode_id m.left) [
  | none ↦ ret (answer_status m unit.vnode_id Status.offline, 0)
  | some left ↦ merge_known a unit (record m { left = left })
]

-- The rounds left of that loop.
unfoldable pub merge_reports : ℕ → ℕ → List ℕ → Merge → Run (Merge × ℕ)
merge_reports zero a bytes m = ret (m, 0)
merge_reports (suc n) a bytes m = do
  unit ← or_fault (get_report bytes) out_of_bounds
  (m', code) ← merge_report a unit m
  elim code [ zero ↦ merge_reports n a (drop vnode_report_size bytes) m' | suc c ↦ ret (m', suc c) ]

-- A round of the loop over the vnodes that were not reported.
pub answer_missing : ℕ → ℕ → Merge → Run Merge
answer_missing a id m = do
  v ← vnode_at m.proxy id
  (i, own) ← own_replica v a
  if is_source own.replica_status
      then ret (record m { resp = record m.resp { vnode_status = own.replica_status } })
      else ret (answer_status m id own.replica_status)

pub answer_all_missing : ℕ → List ℕ → Merge → Run Merge
answer_all_missing a [] m = ret m
answer_all_missing a (id ∷ ids) m = do m' ← answer_missing a id m; answer_all_missing a ids m'

-- What the function sends at its end.
pub merge_reply : Stream → Merge → Reply
merge_reply s m =
    let len = vnode_resp_size * length m.answers in
    let header = response_header true len 0 in
    if not (s.header_sent == 0)
    then record { after = m.proxy; sent = header ∷ []; code = s.header_sent }
    else (if len == 0 then record { after = m.proxy; sent = header ∷ []; code = 0 } else record {
      after = m.proxy;
      sent = header ∷ put_resps m.answers ∷ [];
      code = s.body_sent;
    })

-- The function, for `count` units at the head of a buffer; `stale` is what lies in the memory of
-- resp_vnode.
pub master_do_device_merge : VnodeResp → ℕ → List ℕ → ℕ → Proxy → Stream → Run Reply
master_do_device_merge stale a bytes count p s = do
  d ← deref p.devices a
  m1 ←
      answer_events a d.sync_list
        (record { proxy = p; resp = stale; answers = []; left = d.vnode_list })
  (m2, code) ← merge_reports count a bytes m1
  elim code [
    | zero ↦ (do m3 ← answer_all_missing a m2.left m2; ret (merge_reply s m3))
    | suc c ↦ ret (silent m2.proxy (suc c))
  ]
