-- ===== src/Handler/SyncDown/Ending.antt =====
-- What a report of ended synchronisations does to the proxy: msg_sync_down_handle of
-- src/proxynode/proxy_msg_parser.cpp.
use kunlun.Prelude.Run.{ret, fault, Fault, null_deref, Run-cases, ret-injective}
use kunlun.Node.{Device, Vnode, pop_syncing_vnode, get_replica_info, destroy_replica_info}
use kunlun.Node.Zones.{
  Zones, IsSound, destroy_replica_info-IsSound, pop_syncing_vnode-zone, pop_syncing_vnode-null,
  NotSyncing,
}
use kunlun.Proxy.{Proxy, update, deref, get_vnode, get_node_by_addr}
use kunlun.Proxy.Zones.{Inv, set_vnode-Inv, put_device-Inv}
use kunlun.Proxy.Container.{get_vnode-get_elem?, deref-ret}
use kunlun.Node.Status
use kunlun.Serializer.{buff2int32}
use kunlun.Balancer.Copy.{set_status-IsSound}
use kunlun.Balancer.{set_status}
use kunlun.Handler.{Message, Stream}
use kunlun.Protocol.{storage_info_size}
use kunlun.Handler.Address.{Reply}
use kunlun.Handler.SyncDown.{
  end_sync, replica_on, sync_vnode, sync_vnodes, sync_reply, msg_sync_down_handle, sync_count,
  sync_bytes, sync_ip,
}
use mathlib.Core.Path.{subst}
use kunlun.Prelude.{
  ℕ, zero, suc, ◌≡◌, ◌⊎◌, inl, inr, refl, sym, ap, ◌∙◌, List, none, some, get_elem?, Bool-cases,
  ◌==◌, Option-cases, arith, drop, set, ◌%◌,
}

end_sync-IsSound :
    (z : Zones) (k : ℕ) (v v' : Vnode) (i j : ℕ)
    → IsSound z k v
    → end_sync v i j ≡ ret v'
    → IsSound z k v'
unfolding end_sync
end_sync-IsSound z k v v' i j sound h = elim (Option-cases (get_elem? v.replica_list j)) [
  | inl e ↦ absurd (ground arith)
  | inr (dest, e) ↦
      let v1 = set_status v j dest Status.active in
      let sound1 = set_status-IsSound z k v j dest Status.active e sound in
      elim (Option-cases (get_elem? v1.replica_list i)) [
        | inl f ↦ absurd (ground arith)
        | inr (src, f) ↦ elim (Bool-cases (src.replica_status == Status.move_src)) [
          | inl t ↦
              let same : destroy_replica_info v1 src.preplica ≡ v' =
                ret-injective _ _ (rw (e, end_sync, f, t) at h) in
              subst (IsSound z k) same (destroy_replica_info-IsSound z k src.preplica v1 sound1)
          | inr t ↦
              let same : set_status v1 i src Status.active ≡ v' =
                ret-injective _ _ (rw (e, end_sync, f, t) at h) in
              subst (IsSound z k) same (set_status-IsSound z k v1 i src Status.active f sound1)
        ]
      ]
]

sync_vnode-Inv : (a id : ℕ) (p p' : Proxy) → Inv p → sync_vnode a id p ≡ ret p' → Inv p'
unfolding sync_vnode
sync_vnode-Inv a id p p' inv h = elim (Run-cases (get_vnode p.vnodes id)) [
  | inr (x, e) ↦ absurd (ground arith)
  | inl (none, e) ↦ absurd (ground arith)
  | inl (some v, e) ↦ elim (Run-cases (deref p.devices a)) [
    | inr (x, f) ↦ absurd (ground arith)
    | inl (d, f) ↦
        let event = (pop_syncing_vnode d id).0 in
        let d' = (pop_syncing_vnode d id).1 in
        elim (Option-cases (replica_on v event.pdest_node)) [
          | inl g ↦ absurd (ground arith)
          | inr (j, g) ↦ elim (Option-cases (get_replica_info v a)) [
            | inl k ↦ absurd (ground arith)
            | inr (i, k) ↦ elim (Run-cases (end_sync v i j)) [
              | inr (x, l) ↦ absurd (ground arith)
              | inl (v', l) ↦
                  let ev = get_vnode-get_elem? p.vnodes id v e in
                  let same : record p {
                    devices = update p.devices a (some d');
                    vnodes = set p.vnodes id v';
                  }
                      ≡ p' =
                    ret-injective _ _ (rw (e, f, g, k, l) at h) in
                  subst Inv same (
                    put_device-Inv (record p { vnodes = set p.vnodes id v' }) a d d'
                      (set_vnode-Inv p id v v' inv ev
                        (end_sync-IsSound _ id v v' i j (inv id v ev) l))
                      (deref-ret p.devices a d f) (pop_syncing_vnode-zone d id))
            ]
          ]
        ]
  ]
]

sync_vnodes-Inv :
    (n a : ℕ) (bytes : List ℕ) (p p' : Proxy) → Inv p → sync_vnodes n a bytes p ≡ ret p' → Inv p'
unfolding sync_vnodes
sync_vnodes-Inv zero a bytes p p' inv h = subst Inv (ret-injective p p' h) inv
sync_vnodes-Inv (suc n) a bytes p p' inv h = elim (Option-cases (buff2int32 bytes)) [
  | inl e ↦ absurd (ground arith)
  | inr (id, e) ↦ elim (Run-cases (sync_vnode a id p)) [
    | inr (x, f) ↦ absurd (ground arith)
    | inl (q, f) ↦
        sync_vnodes-Inv n a (drop 4 bytes) q p' (sync_vnode-Inv a id p q inv f) (rw (e, f) at h)
  ]
]

-- A report about a vnode that its device is not synchronising makes the proxy write through NULL,
-- when the vnode and the device exist.
pub sync_vnode-NotSyncing :
    (a id : ℕ) (p : Proxy) (v : Vnode) (d : Device)
    → get_vnode p.vnodes id ≡ ret (some v)
    → deref p.devices a ≡ ret d
    → NotSyncing id d.syncing_list
    → sync_vnode a id p ≡ fault null_deref
unfolding sync_vnode replica_on
sync_vnode-NotSyncing a id p v d ev ed idle = rw (ev, ed, pop_syncing_vnode-null d id idle) refl

-- A handler that returns leaves the proxy as it was, or as its loop has left it.
abbrev Handled : Proxy → Message → Proxy → Type 0
Handled p msg q =
    (q ≡ p)
    ⊎ ((a : ℕ) × (sync_vnodes (sync_count msg) a (drop storage_info_size msg.body) p ≡ ret q))

returned-Handled :
    (peer : List ℕ) (p : Proxy) (s : Stream) (msg : Message) (r : Reply)
    → msg_sync_down_handle peer p s msg ≡ ret r
    → Handled p msg r.after
unfolding msg_sync_down_handle sync_reply
returned-Handled peer p s msg r h = elim (Run-cases (sync_ip peer msg.body)) [
  | inr (x, e) ↦ inl (ground arith)
  | inl (ip, e) ↦ elim (Option-cases (buff2int32 (drop 16 msg.body))) [
    | inl f ↦ inl (ground arith)
    | inr (port, f) ↦ elim (Run-cases (get_node_by_addr p ip port)) [
      | inr (x, g) ↦ inl (ground arith)
      | inl (none, g) ↦ inl (ground arith)
      | inl (some a, g) ↦
          elim (Run-cases (sync_vnodes (sync_count msg) a (drop storage_info_size msg.body) p)) [
            | inr (x, k) ↦ inl (ground arith)
            | inl (q, k) ↦ elim (Bool-cases (sync_bytes msg % 4 == 0)) [
              | inr t ↦ inl (ground arith)
              | inl t ↦ elim (Bool-cases (s.open_error == 0)) [
                | inr o ↦ inl (ground arith)
                | inl o ↦ let same : q ≡ r.after = ground arith in inr (a, k ∙ ap ret same)
              ]
            ]
          ]
    ]
  ]
]

-- A report of ended synchronisations keeps the vnodes of the proxy sound, whatever it says: the
-- handler returns with sound vnodes, or it runs into a fault.
pub msg_sync_down_handle-Inv :
    (peer : List ℕ) (p : Proxy) (s : Stream) (msg : Message)
    → Inv p
    → ((r : Reply) × (msg_sync_down_handle peer p s msg ≡ ret r) × Inv r.after)
      ⊎ ((x : Fault) × (msg_sync_down_handle peer p s msg ≡ fault x))
msg_sync_down_handle-Inv peer p s msg inv = elim (Run-cases (msg_sync_down_handle peer p s msg)) [
  | inr (x, e) ↦ inr (x, e)
  | inl (r, e) ↦ inl (r, e, kept r (returned-Handled peer p s msg r e))
]
  where
    kept : (r : Reply) → Handled p msg r.after → Inv r.after
    kept r (inl same) = subst Inv {x = p} {y = r.after} (sym same) inv
    kept r (inr (a, e)) = sync_vnodes-Inv _ a _ p r.after inv e
