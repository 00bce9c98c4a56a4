-- ===== src/Handler/Merge/SelfSync.antt =====
-- master_do_device_merge of src/proxynode/proxy_msg_parser.cpp, for a device that lags behind in a
-- vnode of which it has the only replica.
use kunlun.Prelude.Run.{ret}
use kunlun.Protocol.{VnodeReport}
use kunlun.Node.{
  Device, Replica, Vnode, picked, get_read_replica, erase_index, find_replica, get_replica_info,
}
use kunlun.Node.Status
use kunlun.Node.Read.{get_read_replica_lem, after_read}
use kunlun.Proxy.{deref}
use kunlun.Proxy.Zones.{Inv}
use kunlun.Balancer.{set_status, push_sync}
use kunlun.Handler.Address.{put_vnode}
use kunlun.Handler.Join.{put_device}
use kunlun.Handler.Merge.{
  Merge, zero_resp, less_int64, is_source, resync, compare_versions, merge_known, merge_report,
}
use kunlun.Handler.Merge.Told.{HasStatus, Known, known_vnode, known_own}
use kunlun.Prelude.{
  ℕ, zero, suc, ◌≡◌, ◌∙◌, sym, ap, inl, inr, refl, List, [], ◌∷◌, ◌++◌, get_elem?-set_self,
  lt_of_get_elem?, ◌+◌, some, true, false, get_elem?, ◌==◌, arith,
}

only_place :
    (rs : List Replica) (own r : Replica) (k : ℕ) → rs ≡ own ∷ [] → get_elem? rs k ≡ some r → k ≡ 0
only_place rs own r zero only e = refl
only_place rs own r (suc k) only e = cc (rw only at e)

-- A vnode with one replica, which is active, is read from that replica.
read_only_replica :
    (v : Vnode) (own : Replica)
    → v.replica_list ≡ own ∷ []
    → own.replica_status ≡ Status.active
    → (robin : ℕ) × (get_read_replica v ≡ (after_read v robin, picked 0))
read_only_replica v own only act = elim (get_read_replica_lem v (λ e. cc (sym only ∙ e))) [
  | inl (k, hk, r, (src, es, ea), before) ↦ (
    _,
    r
        ∙ ap (λ (j : ℕ). (after_read v (j + 1), picked j))
            (only_place v.replica_list own src _ only es),
  )
  | inr (robin, r, idle) ↦ absurd (idle 0 (rw only (omega arith)) own (rw only refl) act)
]

-- The vnode and the device of the event once the device is to synchronise with itself.
abbrev source_now : Vnode → ℕ → Replica → Vnode
source_now v robin own = record (after_read v robin) {
  replica_list = record own { replica_status = Status.copy_src } ∷ [];
}

abbrev told_to_send : Device → ℕ → ℕ → Device
told_to_send d id a = record d {
  sync_list = d.sync_list ++ record { src_vnode_index = id; pdest_node = some a } ∷ [];
}

abbrev self_synced : ℕ → ℕ → Vnode → Device → Merge → Merge
self_synced a id w d m = record m {
  proxy = put_device (put_vnode m.proxy id w) a (some (told_to_send d id a));
  resp = record zero_resp { vnode_id = id; vnode_status = Status.wait_sync };
  answers = m.answers ++ record zero_resp { vnode_id = id; vnode_status = Status.wait_sync } ∷ [];
}

resync_self :
    (a id robin : ℕ) (v : Vnode) (own : Replica) (d : Device) (m : Merge)
    → v.replica_list ≡ own ∷ []
    → own.preplica ≡ a
    → m.proxy.devices a ≡ some d
    → resync a id 0 own (record m { resp = zero_resp }) (after_read v robin, picked 0)
      ≡ ret (self_synced a id (source_now v robin own) d m, 0)
unfolding resync push_sync deref set_status
resync_self a id robin v own d m only at_a ed = rw (only, at_a, ed) refl

-- Where the only replica of a sound vnode is ACTIVE, and the device that has it reports a lower
-- version, the device is told to wait for a synchronisation (WAIT_SYNC), while the replica becomes the
-- source of that synchronisation (COPY_SRC) and the device gets the order to send the vnode to itself.
pub merge_report-self_sync :
    (a : ℕ) (unit : VnodeReport) (v : Vnode) (own : Replica) (d : Device) (left : List ℕ)
    (m : Merge)
    → Inv m.proxy
    → get_elem? m.proxy.vnodes unit.vnode_id ≡ some v
    → v.replica_list ≡ own ∷ []
    → own.preplica ≡ a
    → own.replica_status ≡ Status.active
    → m.proxy.devices a ≡ some d
    → less_int64 unit.vnode_version v.version ≡ true
    → erase_index unit.vnode_id m.left ≡ some left
    → (m' : Merge) × (merge_report a unit m ≡ ret (m', 0))
      × (m'.answers
          ≡ m.answers
            ++ record zero_resp { vnode_id = unit.vnode_id; vnode_status = Status.wait_sync } ∷ [])
      × HasStatus m'.proxy.vnodes a unit.vnode_id Status.copy_src
      × (m'.proxy.devices a
          ≡ some (record d {
            sync_list =
                d.sync_list ++ record { src_vnode_index = unit.vnode_id; pdest_node = some a } ∷ [];
          }))
unfolding get_replica_info find_replica merge_report merge_known compare_versions
merge_report-self_sync a unit v own d left m inv ev only at_a act ed less el =
    let id = unit.vnode_id in
    let known : Known m.proxy a id v 0 own = record {
      sound = inv id v ev;
      here = ev;
      place = found;
      entry = rw only refl;
    } in
    let (robin, r) = read_only_replica v own only act in
    let w = source_now v robin own in
    let idle : is_source own.replica_status ≡ false = rw act refl in
    let rested : (own.replica_status == Status.wait_sync) ≡ false = rw act refl in
    (
      self_synced a id w d (record m { left = left }),
      rw
          (
            el,
            merge_report,
            merge_known,
            known_vnode a id v 0 own m known,
            known_own a id v 0 own m known,
            idle,
            rested,
            compare_versions,
            less,
            r,
          )
          (resync_self a id robin v own d (record m { left = left }) only at_a ed),
      refl,
      (
        w,
        0,
        record own { replica_status = Status.copy_src },
        get_elem?-set_self m.proxy.vnodes id w (lt_of_get_elem? m.proxy.vnodes id v ev),
        rw at_a (ground arith),
        refl,
        refl,
      ),
      ground arith,
    )
  where
    found : get_replica_info v a ≡ some 0
    found = rw (only, at_a) (ground arith)
