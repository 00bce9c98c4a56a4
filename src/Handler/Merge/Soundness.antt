-- ===== src/Handler/Merge/Soundness.antt =====
-- master_do_device_merge of src/proxynode/proxy_msg_parser.cpp keeps the replicas of every vnode in
-- different zones.
use kunlun.Prelude.Run.{
  Fault, ret, out_of_bounds, null_deref, Keeps, Keeps->>=, Keeps-ret, Keeps-fault, Keeps-if,
  or_fault, Run-cases, ret-injective,
}
use kunlun.Protocol.{VnodeReport}
use kunlun.Node.{
  Replica, Vnode, SyncEvent, Pick, picked, no_active, no_replica, wild, get_read_replica,
  get_replica_info, erase_index,
}
use kunlun.Node.Status
use mathlib.Core.Path.{subst}
use kunlun.Node.Read.{get_read_replica_lem, after_read}
use kunlun.Node.Zones.{zone_at, Zones, IsSound}
use kunlun.Proxy.{Proxy, deref, get_vnode}
use kunlun.Proxy.Zones.{Inv, set_vnode-Inv, put_device-Inv}
use kunlun.Proxy.Container.{get_vnode-get_elem?, deref-ret}
use kunlun.Balancer.{set_status, push_sync}
use kunlun.Balancer.Copy.{set_status-IsSound}
use kunlun.Handler.Address.{vnode_at, put_vnode}
use kunlun.Handler.Merge.{
  Merge, own_replica, answer_event, answer_events, is_source, less_int64, resync, compare_versions,
  merge_known, merge_report,
}
use kunlun.Prelude.{
  ℕ, ◌≡◌, ◌∙◌, ap, sym, inl, inr, refl, List, [], ◌∷◌, Option, none, some, get_elem?, ◌==◌, arith,
  nil-cases, Option-cases,
}

-- The vnode that vnode_at finds.
pub vnode_at-get_elem? :
    (p : Proxy) (id : ℕ) (v : Vnode) → vnode_at p id ≡ ret v → get_elem? p.vnodes id ≡ some v
unfolding vnode_at
vnode_at-get_elem? p id v e = elim (Run-cases (get_vnode p.vnodes id)) [
  | inr (x, f) ↦ absurd (ground arith)
  | inl (none, f) ↦ absurd (ground arith)
  | inl (some w, f) ↦
      get_vnode-get_elem? p.vnodes id v
        (f ∙ ap (λ (u : Vnode). ret (some u)) (ret-injective _ _ (rw f at e)))
]

pub own_replica-get_elem? :
    (v : Vnode) (a i : ℕ) (r : Replica)
    → own_replica v a ≡ ret (i, r)
    → get_elem? v.replica_list i ≡ some r
unfolding own_replica
own_replica-get_elem? v a i r e = elim (Option-cases (get_replica_info v a)) [
  | inl f ↦ absurd (ground arith)
  | inr (j, f) ↦ elim (Option-cases (get_elem? v.replica_list j)) [
    | inl g ↦ absurd (ground arith)
    | inr (q, g) ↦ ground arith
  ]
]

-- A choice of a replica changes only rd_req_robin.
pub get_read_replica-after_read :
    (v : Vnode) → (robin : ℕ) × ((get_read_replica v).0 ≡ after_read v robin)
unfolding get_read_replica
get_read_replica-after_read v = elim (nil-cases v.replica_list) [
  | inl nil ↦ (v.rd_req_robin, rw nil refl)
  | inr ne ↦ elim (get_read_replica_lem v ne) [
    | inl (t, ht, r, at, before) ↦ (_, ap (λ (x : Vnode × Pick). x.0) r)
    | inr (robin, r, idle) ↦ (robin, ap (λ (x : Vnode × Pick). x.0) r)
  ]
]

or_fault-some : {A : Type 0} (o : Option A) (x : Fault) (b : A) → or_fault o x ≡ ret b → o ≡ some b
or_fault-some none x b e = cc
or_fault-some (some c) x b e = ap some (ret-injective c b e)

pub get_read_replica-IsSound :
    (z : Zones) (k : ℕ) (v : Vnode) → IsSound z k v → IsSound z k (get_read_replica v).0
get_read_replica-IsSound z k v sound =
    let (robin, e) = get_read_replica-after_read v in
    subst (IsSound z k) (sym e) (record { own_id = sound.own_id; zones_apart = sound.zones_apart })

push_sync-Inv : (p : Proxy) (b : ℕ) (event : SyncEvent) → Inv p → Keeps Inv (push_sync p b event)
unfolding push_sync
push_sync-Inv p b event inv =
    Keeps->>= Inv (deref p.devices b)
      (λ d e. Keeps-ret Inv _ (put_device-Inv p b d _ inv (deref-ret p.devices b d e) refl))

-- The proxy of a merge is sound.
abbrev pub Sound : Merge → Type 0
Sound m = Inv m.proxy

put_vnode-Inv :
    (p : Proxy) (id : ℕ) (w v : Vnode)
    → Inv p
    → get_elem? p.vnodes id ≡ some w
    → IsSound (zone_at p.devices) id v
    → Inv (put_vnode p id v)
put_vnode-Inv p id w v inv e sound = set_vnode-Inv p id w v inv e sound

answer_event-Inv :
    (a : ℕ) (e : SyncEvent) (es : List SyncEvent) (m : Merge)
    → Sound m
    → Keeps Sound (answer_event a e es m)
unfolding answer_event
answer_event-Inv a e es m inv = Keeps->>= Sound (deref m.proxy.devices a) (λ d ed.
    Keeps->>= Sound (vnode_at _ e.src_vnode_index) (λ v ev.
      Keeps->>= Sound (own_replica v a) (λ own eo.
        Keeps->>= Sound (or_fault e.pdest_node null_deref) (λ b eb.
          Keeps->>= Sound (deref _ b) (λ dest ef.
            Keeps-ret Sound _
              (put_device-Inv m.proxy a d _ inv (deref-ret m.proxy.devices a d ed) refl))))))

pub answer_events-Inv :
    (a : ℕ) (es : List SyncEvent) (m : Merge) → Sound m → Keeps Sound (answer_events a es m)
unfolding answer_events
answer_events-Inv a [] m inv = Keeps-ret Sound m inv
answer_events-Inv a (e ∷ es) m inv =
    Keeps->>= Sound (answer_event a e es m)
      (λ m' h. answer_events-Inv a es m' (answer_event-Inv a e es m inv m' h))

-- The proxy of a merge with its result code is sound.
abbrev pub SoundBoth : Merge × ℕ → Type 0
SoundBoth (m, code) = Inv m.proxy

resync-Inv :
    (a id i : ℕ) (own : Replica) (m : Merge) (w v : Vnode) (pick : Pick)
    → Sound m
    → get_elem? m.proxy.vnodes id ≡ some w
    → IsSound (zone_at m.proxy.devices) id v
    → get_elem? v.replica_list i ≡ some own
    → Keeps SoundBoth (resync a id i own m (v, pick))
unfolding resync
resync-Inv a id i own m w v (picked s) inv ew sound eo =
    let z = zone_at m.proxy.devices in
    let v1 = set_status v i own Status.wait_sync in
    let sound1 = set_status-IsSound z id v i own Status.wait_sync eo sound in
    Keeps->>= SoundBoth (or_fault (get_elem? v1.replica_list s) out_of_bounds) (λ src es.
      let v2 = set_status v1 s src Status.copy_src in
      let es' : get_elem? v1.replica_list s ≡ some src = or_fault-some _ _ _ es in
      let inv2 =
        put_vnode-Inv m.proxy id w v2 inv ew
          (set_status-IsSound z id v1 s src Status.copy_src es' sound1) in
      Keeps->>= SoundBoth (push_sync (put_vnode m.proxy id v2) src.preplica _)
        (λ p ep. Keeps-ret SoundBoth _ (push_sync-Inv _ src.preplica _ inv2 p ep)))
resync-Inv a id i own m w v no_active inv ew sound eo =
    Keeps-ret SoundBoth _
      (put_vnode-Inv m.proxy id w _ inv ew (set_status-IsSound _ id v i own _ eo sound))
resync-Inv a id i own m w v no_replica inv ew sound eo =
    Keeps-ret SoundBoth _ (put_vnode-Inv m.proxy id w v inv ew sound)
resync-Inv a id i own m w v wild inv ew sound eo = Keeps-fault SoundBoth out_of_bounds

compare_versions-Inv :
    (a : ℕ) (unit : VnodeReport) (v : Vnode) (i : ℕ) (own : Replica) (m : Merge)
    → Sound m
    → get_elem? m.proxy.vnodes unit.vnode_id ≡ some v
    → get_elem? v.replica_list i ≡ some own
    → Keeps SoundBoth (compare_versions a unit v i own m)
unfolding compare_versions
compare_versions-Inv a unit v i own m inv ev eo =
    let id = unit.vnode_id in
    let sound = inv id v ev in
    Keeps-if SoundBoth (less_int64 unit.vnode_version v.version)
      (λ t.
        resync-Inv a id i own m v (get_read_replica v).0 (get_read_replica v).1 inv ev
          (get_read_replica-IsSound _ id v sound)
          (ap (λ (w : Vnode). get_elem? w.replica_list i) (get_read_replica-after_read v).1 ∙ eo))
      (λ t.
        Keeps-if SoundBoth (unit.vnode_version == v.version)
          (λ u.
            Keeps-ret SoundBoth _
              (put_vnode-Inv m.proxy id v _ inv ev (set_status-IsSound _ id v i own _ eo sound)))
          (λ u. Keeps-ret SoundBoth _ (
            put_vnode-Inv m.proxy id v _ inv ev
              (record { own_id = sound.own_id; zones_apart = sound.zones_apart }))))

pub merge_report-Inv :
    (a : ℕ) (unit : VnodeReport) (m : Merge) → Sound m → Keeps SoundBoth (merge_report a unit m)
unfolding merge_report merge_known
merge_report-Inv a unit m inv = elim (Option-cases (erase_index unit.vnode_id m.left)) [
  | inl e ↦ rw (e, merge_report) (Keeps-ret SoundBoth _ inv)
  | inr (left, e) ↦
      rw (e, merge_report)
        (Keeps->>= SoundBoth (vnode_at m.proxy unit.vnode_id) (λ v ev.
          Keeps->>= SoundBoth (own_replica v a) (λ (i, own) eo.
            Keeps-if SoundBoth (is_source own.replica_status) (λ t. Keeps-ret SoundBoth _ inv)
              (λ t.
                Keeps-if SoundBoth (own.replica_status == Status.wait_sync)
                  (λ u. Keeps-ret SoundBoth _ inv)
                  (λ u.
                    compare_versions-Inv a unit v i own _ inv
                      (vnode_at-get_elem? m.proxy unit.vnode_id v ev)
                      (own_replica-get_elem? v a i own eo))))))
]
