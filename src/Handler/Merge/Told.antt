-- ===== src/Handler/Merge/Told.antt =====
-- What master_do_device_merge of src/proxynode/proxy_msg_parser.cpp tells a storage node about a
-- vnode, against what it then knows itself.
use kunlun.Prelude.Run.{Run, ret}
use kunlun.Protocol.{VnodeReport}
use kunlun.Node.{
  Replica, Vnode, picked, no_active, get_read_replica, get_replica_info, find_replica, erase_index,
}
use kunlun.Node.Status
use kunlun.Node.Read.{get_read_replica_lem, after_read}
use kunlun.Node.Zones.{zone_at, IsSound, Apart-mem}
use mathlib.Core.Option.{some-injective}
use kunlun.Proxy.{Proxy}
use kunlun.Proxy.Zones.{Inv}
use kunlun.Proxy.Container.{get_vnode-some}
use kunlun.Balancer.{set_status}
use kunlun.Balancer.Copy.{push_sync_lem}
use kunlun.Handler.Address.{vnode_at, put_vnode}
use kunlun.Handler.Merge.{
  Merge, answer_status, own_replica, is_source, less_int64, resync, zero_resp, compare_versions,
  merge_known, merge_report,
}
use kunlun.Prelude.{
  ℕ, zero, suc, true, ◌≡◌, ◌≢◌, ◌⊎◌, ◌∙◌, ap, sym, inl, inr, refl, List, [], ◌∷◌, ◌++◌, some,
  get_elem?, set, ◌==◌, arith, Bool-cases, get_elem?-set_self, get_elem?-set_ne, lt_of_get_elem?,
}

-- The replica of vnode id on device a has a status.
abbrev pub HasStatus : List Vnode → ℕ → ℕ → ℕ → Type 0
HasStatus vs a id status =
    (v : Vnode) × (i : ℕ) × (r : Replica) × (get_elem? vs id ≡ some v)
    × (get_replica_info v a ≡ some i)
    × (get_elem? v.replica_list i ≡ some r)
    × (r.replica_status ≡ status)

-- A round that answers with the status that the proxy then has, or that does not answer, about the
-- source of a synchronisation, and leaves the proxy as it was.
abbrev pub Told : ℕ → ℕ → Merge → Merge → Type 0
Told a id m m' =
    ((m'.answers ≡ m.answers)
      × (m'.proxy ≡ m.proxy)
      × (status : ℕ) × (is_source status ≡ true)
      × HasStatus m'.proxy.vnodes a id status)
    ⊎ ((status : ℕ) × (m'.answers
          ≡ m.answers ++ record zero_resp { vnode_id = id; vnode_status = status } ∷ [])
        × HasStatus m'.proxy.vnodes a id status)

-- A status does not matter to the search for the replica on a device.
pub find_replica-set :
    (dev : ℕ) (rs : List Replica) (s : ℕ) (r : Replica) (status : ℕ)
    → get_elem? rs s ≡ some r
    → find_replica dev (set rs s (record r { replica_status = status })) ≡ find_replica dev rs
unfolding find_replica
find_replica-set dev [] s r status e = refl
find_replica-set dev (x ∷ rs) zero r status e = ground arith
find_replica-set dev (x ∷ rs) (suc s) r status e = rw (find_replica-set dev rs s r status e) refl

-- What a round needs to know of the proxy, of the vnode that a unit is about, and of its replica
-- `own` at place i, on device a.
pub record Known (p : Proxy) (a id : ℕ) (v : Vnode) (i : ℕ) (own : Replica) : Type 0 where
  pub sound : IsSound (zone_at p.devices) id v
  pub here : get_elem? p.vnodes id ≡ some v
  pub place : get_replica_info v a ≡ some i
  pub entry : get_elem? v.replica_list i ≡ some own

-- The status that device a's replica gets, in a list of replicas.
pub find-set_status :
    (a i : ℕ) (rs : List Replica) (own : Replica) (status : ℕ)
    → find_replica a rs ≡ some i
    → get_elem? rs i ≡ some own
    → (find_replica a (set rs i (record own { replica_status = status })) ≡ some i)
      × (get_elem? (set rs i (record own { replica_status = status })) i
          ≡ some (record own { replica_status = status }))
find-set_status a i rs own status ep eo = (
  find_replica-set a rs i own status eo ∙ ep,
  get_elem?-set_self rs i _ (lt_of_get_elem? rs i own eo),
)

has_entry : (rs : List Replica) (i : ℕ) (r : Replica) → get_elem? rs i ≡ some r → rs ≢ []
has_entry [] i r e = cc
has_entry (x ∷ rs) i r e = λ f. cc

module _ (a id : ℕ) (v : Vnode) (i : ℕ) (own : Replica) (m : Merge)
    (known : Known m.proxy a id v i own) where
  -- The vnodes vs have w at place id, whose replica on the device has a status.
  pub has_status :
      (w : Vnode) (vs : List Vnode) (r : Replica)
      → vs ≡ set m.proxy.vnodes id w
      → (find_replica a w.replica_list ≡ some i) × (get_elem? w.replica_list i ≡ some r)
      → HasStatus vs a id r.replica_status
  unfolding get_replica_info
  has_status w vs r ev (ep, er) = (
    w,
    i,
    r,
    ap (λ (ws : List Vnode). get_elem? ws id) ev
        ∙ get_elem?-set_self m.proxy.vnodes id w (lt_of_get_elem? m.proxy.vnodes id v known.here),
    ep,
    er,
    refl,
  )

  -- A round ends with 0, with the answer told.
  Round : Run (Merge × ℕ) → Type 0
  Round r = (m' : Merge) × (r ≡ ret (m', 0)) × Told a id m m'

  zeroed : Merge
  zeroed = record m { resp = zero_resp }

  resync_idle : (robin : ℕ) → Round (resync a id i own zeroed (after_read v robin, no_active))
  unfolding Round resync zeroed set_status get_replica_info
  resync_idle robin = (
    _,
    refl,
    inr (
      Status.online,
      refl,
      has_status (set_status (after_read v robin) i own Status.online) _ _ refl
          (find-set_status a i v.replica_list own Status.online known.place known.entry),
    ),
  )

  resync_picked :
      (robin s : ℕ) (src : Replica)
      → s ≢ i
      → get_elem? v.replica_list s ≡ some src
      → Round (resync a id i own zeroed (after_read v robin, picked s))
  unfolding Round resync zeroed set_status get_replica_info
  resync_picked robin s src other es =
      let rs1 = set v.replica_list i (record own { replica_status = Status.wait_sync }) in
      let (found1, entry1) =
        find-set_status a i v.replica_list own Status.wait_sync known.place known.entry in
      let es1 =
        get_elem?-set_ne v.replica_list i s (record own { replica_status = Status.wait_sync })
          (λ e. other (sym e))
        ∙ es in
      let found2 = find_replica-set a rs1 s src Status.copy_src es1 ∙ found1 in
      let entry2 =
        get_elem?-set_ne rs1 s i (record src { replica_status = Status.copy_src }) other ∙ entry1 in
      let (zone, ez) = Apart-mem _ v.replica_list s src es known.sound.zones_apart in
      let v2 =
        set_status (set_status (after_read v robin) i own Status.wait_sync) s src Status.copy_src in
      let (q, eq, qv, qz, qc) =
        push_sync_lem (put_vnode m.proxy id v2) src.preplica zone
          (record { src_vnode_index = id; pdest_node = some a }) ez in
      (
        answer_status (record zeroed { proxy = q }) id Status.wait_sync,
        rw (es1, eq) refl,
        inr (Status.wait_sync, refl, has_status v2 q.vnodes _ qv (found2, entry2)),
      )

  resync_round :
      own.replica_status ≢ Status.active → Round (resync a id i own zeroed (get_read_replica v))
  resync_round idle = elim (get_read_replica_lem v (has_entry v.replica_list i own known.entry)) [
    | inl (k, hk, r, (src, es, act), before) ↦ rw r (
        resync_picked _ _ src
          (λ e. idle (
            ap (λ (r : Replica). r.replica_status)
              (some-injective _ _ (sym known.entry ∙ ap (get_elem? v.replica_list) (sym e) ∙ es))
            ∙ act))
          es)
    | inr (robin, r, none_active) ↦ rw r (resync_idle robin)
  ]

  compare_round :
      (unit : VnodeReport)
      → unit.vnode_id ≡ id
      → own.replica_status ≢ Status.active
      → Round (compare_versions a unit v i own zeroed)
  unfolding Round compare_versions set_status get_replica_info zeroed
  compare_round unit same idle =
      rw same (elim (Bool-cases (less_int64 unit.vnode_version v.version)) [
        | inl t ↦ rw t (resync_round idle)
        | inr t ↦ elim (Bool-cases (unit.vnode_version == v.version)) [
          | inl u ↦
              rw (t, u)
                (
                  _,
                  refl,
                  inr (
                    Status.active,
                    refl,
                    has_status (set_status v i own Status.active) _ _ refl (
                        find-set_status a i v.replica_list own Status.active known.place
                          known.entry),
                  ),
                )
          | inr u ↦
              rw (t, u)
                (
                  _,
                  refl,
                  inr (
                    own.replica_status,
                    refl,
                    has_status (record v { version = unit.vnode_version }) _ own refl
                        (known.place, known.entry),
                  ),
                )
        ]
      ])

  pub known_vnode : vnode_at m.proxy id ≡ ret v
  unfolding vnode_at
  known_vnode = rw (get_vnode-some m.proxy.vnodes id v known.here known.sound.own_id) refl

  pub known_own : own_replica v a ≡ ret (i, own)
  unfolding own_replica
  known_own = rw (known.place, known.entry) refl

  merge_known_round :
      (unit : VnodeReport)
      → unit.vnode_id ≡ id
      → own.replica_status ≢ Status.active
      → Round (merge_known a unit m)
  unfolding Round merge_known zeroed get_replica_info
  merge_known_round unit same idle = elim (Bool-cases (is_source own.replica_status)) [
    | inl t ↦
        rw (merge_known, same, known_vnode, known_own, t)
          (
            _,
            refl,
            inl (
              refl,
              refl,
              own.replica_status,
              t,
              (v, i, own, known.here, known.place, known.entry, refl),
            ),
          )
    | inr t ↦ elim (Bool-cases (own.replica_status == Status.wait_sync)) [
      | inl u ↦
          let waits : own.replica_status ≡ Status.wait_sync = ground arith in
          rw (merge_known, same, known_vnode, known_own, t, u)
            (
              _,
              refl,
              inr (
                Status.wait_sync,
                refl,
                (v, i, own, known.here, known.place, known.entry, waits),
              ),
            )
      | inr u ↦
          rw (merge_known, same, known_vnode, known_own, t, u)
            (compare_round (record unit { vnode_id = id }) refl idle)
    ]
  ]

-- A round about a vnode of which the device has a replica that is not ACTIVE ends, whatever version is
-- reported, when the vnode is sound. It tells the device the status that the proxy then has for
-- that replica; only where the replica is the source of a synchronisation it does not answer, and
-- the proxy stays as it was.
pub merge_report-Told :
    (a : ℕ) (unit : VnodeReport) (v : Vnode) (i : ℕ) (own : Replica) (left : List ℕ) (m : Merge)
    → Inv m.proxy
    → get_elem? m.proxy.vnodes unit.vnode_id ≡ some v
    → get_replica_info v a ≡ some i
    → get_elem? v.replica_list i ≡ some own
    → own.replica_status ≢ Status.active
    → erase_index unit.vnode_id m.left ≡ some left
    → (m' : Merge) × (merge_report a unit m ≡ ret (m', 0)) × Told a unit.vnode_id m m'
unfolding merge_report Round
merge_report-Told a unit v i own left m inv ev ep eo idle el =
    rw (el, merge_report)
      (merge_known_round a unit.vnode_id v i own (record m { left = left })
        (record { sound = inv unit.vnode_id v ev; here = ev; place = ep; entry = eo }) unit refl
        idle)
