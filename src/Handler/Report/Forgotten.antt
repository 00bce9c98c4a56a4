-- ===== src/Handler/Report/Forgotten.antt =====
-- slaver_do_device_merge of src/proxynode/proxy_msg_parser.cpp and the vnodes that a device no
-- longer reports.
use kunlun.Prelude.Run.{ret, fault, null_deref}
use kunlun.Protocol.{VnodeReport}
use kunlun.Node.{
  Device, Vnode, erase_index, remove_replica, find_replica, get_replica_info, destroy_replica_info,
}
use kunlun.Proxy.{Proxy, deref, get_vnode, destroy_replicas}
use kunlun.Proxy.Container.{get_vnode-some}
use kunlun.Handler.Address.{vnode_at}
use kunlun.Handler.Merge.{own_replica}
use kunlun.Handler.Report.{slave_report, slave_reports, slaver_do_device_merge}
use kunlun.Prelude.{
  ℕ, ◌≡◌, refl, List, [], ◌∷◌, none, some, get_elem?, set, ap, ◌∙◌, true, get_elem?-set_self,
  lt_of_get_elem?, arith, ◌==◌,
}

-- A slave whose device reports no vnode, where its vnode_list holds one, deletes the replica, the only
-- one of that device, but leaves the vnode in the vnode_list: the next unit that reports that vnode
-- makes the slave write through NULL.
pub slaver_do_device_merge-forgotten :
    (a id : ℕ) (bytes : List ℕ) (p : Proxy) (d : Device) (v : Vnode) (unit : VnodeReport)
    → p.devices a ≡ some d
    → d.vnode_list ≡ id ∷ []
    → get_elem? p.vnodes id ≡ some v
    → v.vnode_id ≡ id
    → find_replica a (remove_replica a v.replica_list) ≡ none
    → unit.vnode_id ≡ id
    → (q : Proxy) × (slaver_do_device_merge a bytes 0 p ≡ ret q)
      × (q.devices a ≡ some d)
      × (slave_report a unit (q, d.vnode_list) ≡ fault null_deref)
unfolding slaver_do_device_merge slave_reports slave_report destroy_replicas deref own_replica
    vnode_at get_replica_info erase_index destroy_replica_info
slaver_do_device_merge-forgotten a id bytes p d v unit ed el ev own gone same =
    let w = destroy_replica_info v a in
    let q = record p { vnodes = set p.vnodes id w } in
    let ew : get_vnode q.vnodes id ≡ ret (some w) =
      get_vnode-some q.vnodes id w
        (get_elem?-set_self p.vnodes id w (lt_of_get_elem? p.vnodes id v ev)) own in
    let ew_unit : get_vnode q.vnodes unit.vnode_id ≡ ret (some w) =
      ap (get_vnode q.vnodes) same ∙ ew in
    let hit : (unit.vnode_id == id) ≡ true = ground arith in
    (q, rw (ed, el, get_vnode-some p.vnodes id v ev own) refl, ed, rw (el, ew_unit, hit, gone) refl)
