-- ===== src/Node/Zones.antt =====
-- The replicas of a vnode lie in different zones: the invariant of src/proxynode/node_info.h and
-- vnode_balancer.cpp.
use kunlun.Node.{
  Device, Devices, Replica, Vnode, SyncEvent, diff_zones, is_diff_zones, remove_replica,
  destroy_replica_info, pop_event, pop_syncing_vnode, null_event,
}
use kunlun.Prelude.{
  ℕ, zero, suc, ◌≡◌, ◌≢◌, refl, ◌⊎◌, inl, inr, ap, ◌∙◌, List, [], ◌∷◌, ◌++◌, true, false, Option,
  none, some, All, get_elem?, set, ◌==◌, Bool-cases, arith, sym, Option-cases, All-append,
}
use mathlib.Core.Path.{subst}
use mathlib.Core.Option.{some-injective}

-- The zone of the device at an address.
abbrev pub zone_at : Devices → ℕ → Option ℕ
zone_at ds a = elim (ds a) [ none ↦ none | some d ↦ some d.zone_id ]

abbrev pub Zones : Type 0
Zones = ℕ → Option ℕ

-- Every replica lies on a device of the heap, and in another zone than `zone`.
abbrev pub Away : Zones → ℕ → List Replica → Type 0
Away z zone = All (λ r. (w : ℕ) × (z r.preplica ≡ some w) × (w ≢ zone))

abbrev pub Apart : Zones → List Replica → Type 0
Apart z [] = Unit {0}
Apart z (r ∷ rs) = ((w : ℕ) × (z r.preplica ≡ some w) × Away z w rs) × Apart z rs

-- Some replica lies in `zone`.
abbrev pub Meets : Zones → ℕ → List Replica → Type 0
Meets z zone [] = ⊥
Meets z zone (r ∷ rs) = (z r.preplica ≡ some zone) ⊎ Meets z zone rs

pub record IsSound (z : Zones) (i : ℕ) (v : Vnode) : Type 0 where
  pub own_id : v.vnode_id ≡ i
  pub zones_apart : Apart z v.replica_list

pub device_at :
    (ds : Devices) (a zone : ℕ)
    → zone_at ds a ≡ some zone
    → (d : Device) × (ds a ≡ some d) × (d.zone_id ≡ zone)
device_at ds a zone e = elim (Option-cases (ds a)) [
  | inl f ↦ cc (rw (f, zone_at) at e)
  | inr (d, f) ↦ (d, f, some-injective _ _ (rw (f, zone_at) at e))
]

add-Away :
    (ds : Devices) (zone : ℕ) (r : Replica) (rs : List Replica) (w : ℕ)
    → zone_at ds r.preplica ≡ some w
    → w ≢ zone
    → ((diff_zones ds zone rs ≡ some true) × Away (zone_at ds) zone rs)
      ⊎ ((diff_zones ds zone rs ≡ some false) × Meets (zone_at ds) zone rs)
    → ((diff_zones ds zone rs ≡ some true) × Away (zone_at ds) zone (r ∷ rs))
      ⊎ ((diff_zones ds zone rs ≡ some false) × Meets (zone_at ds) zone (r ∷ rs))
add-Away ds zone r rs w e ne (inl (t, away)) = inl (t, ((w, e, ne), away))
add-Away ds zone r rs w e ne (inr (f, meets)) = inr (f, inr meets)

-- The zone test of a joining device, on replicas that lie on devices of the heap.
pub diff_zones-cases :
    (ds : Devices) (zone : ℕ) (rs : List Replica)
    → Apart (zone_at ds) rs
    → ((diff_zones ds zone rs ≡ some true) × Away (zone_at ds) zone rs)
      ⊎ ((diff_zones ds zone rs ≡ some false) × Meets (zone_at ds) zone rs)
unfolding diff_zones
diff_zones-cases ds zone [] h = inl (refl, tt)
diff_zones-cases ds zone (r ∷ rs) ((w, e, away), h) =
    let (d, ed, ew) = device_at ds r.preplica w e in
    elim (Bool-cases (zone == d.zone_id)) [
      | inl t ↦ inr (rw (ed, diff_zones, t), inl (rw (ed, zone_at) (ap some (ground arith))))
      | inr f ↦
          rw (ed, diff_zones, f)
            (add-Away ds zone r rs w e (ground arith) (diff_zones-cases ds zone rs h))
    ]

pub Apart-append :
    (z : Zones) (rs : List Replica) (r : Replica) (zone : ℕ)
    → z r.preplica ≡ some zone
    → Away z zone rs
    → Apart z rs
    → Apart z (rs ++ r ∷ [])
Apart-append z [] r zone e away h = ((zone, e, tt), tt)
Apart-append z (x ∷ rs) r zone e ((w, ew, ne), away) ((w', ew', rest), h) = (
  (w, ew, All-append _ rs (r ∷ []) rest' ((zone, e, λ q. ne (sym q)), tt)),
  Apart-append z rs r zone e away h,
)
  where
    rest' : Away z w rs
    rest' = subst (λ (k : ℕ). Away z k rs) (some-injective _ _ (sym ew' ∙ ew)) rest

pub Away-set :
    (z : Zones) (zone : ℕ) (rs : List Replica) (s : ℕ) (r : Replica) (status : ℕ)
    → get_elem? rs s ≡ some r
    → Away z zone rs
    → Away z zone (set rs s (record r { replica_status = status }))
Away-set z zone [] s r status e h = tt
Away-set z zone (x ∷ rs) zero r status e ((w, ew, ne), h) =
    let same : x ≡ r = some-injective _ _ e in
    ((w, ap (λ (y : Replica). z y.preplica) (sym same) ∙ ew, ne), h)
Away-set z zone (x ∷ rs) (suc s) r status e (h, hs) = (h, Away-set z zone rs s r status e hs)

-- A replica's status does not matter to the zones.
pub Apart-set :
    (z : Zones) (rs : List Replica) (s : ℕ) (r : Replica) (status : ℕ)
    → get_elem? rs s ≡ some r
    → Apart z rs
    → Apart z (set rs s (record r { replica_status = status }))
Apart-set z [] s r status e h = tt
Apart-set z (x ∷ rs) zero r status e ((w, ew, away), h) =
    let same : x ≡ r = some-injective _ _ e in
    ((w, ap (λ (y : Replica). z y.preplica) (sym same) ∙ ew, away), h)
Apart-set z (x ∷ rs) (suc s) r status e ((w, ew, away), h) =
    ((w, ew, Away-set z w rs s r status e away), Apart-set z rs s r status e h)

-- The device of each replica has a zone.
pub Apart-mem :
    (z : Zones) (rs : List Replica) (s : ℕ) (r : Replica)
    → get_elem? rs s ≡ some r
    → Apart z rs
    → (w : ℕ) × (z r.preplica ≡ some w)
Apart-mem z [] s r e h = cc
Apart-mem z (x ∷ rs) zero r e ((w, ew, away), h) =
    (w, ap (λ (y : Replica). z y.preplica) (sym (some-injective _ _ e)) ∙ ew)
Apart-mem z (x ∷ rs) (suc s) r e (_, h) = Apart-mem z rs s r e h

-- The zone test of vnode_info::is_diff_zones, both ways.
pub is_diff_zones-cases :
    (ds : Devices) (v : Vnode) (d : Device)
    → Apart (zone_at ds) v.replica_list
    → ((is_diff_zones ds v d ≡ some true) × Away (zone_at ds) d.zone_id v.replica_list)
      ⊎ ((is_diff_zones ds v d ≡ some false) × Meets (zone_at ds) d.zone_id v.replica_list)
unfolding is_diff_zones
is_diff_zones-cases ds v d h = diff_zones-cases ds d.zone_id v.replica_list h

-- A replica that goes leaves the others apart.
Away-remove_replica :
    (z : Zones) (zone dev : ℕ) (rs : List Replica)
    → Away z zone rs
    → Away z zone (remove_replica dev rs)
unfolding remove_replica
Away-remove_replica z zone dev [] h = tt
Away-remove_replica z zone dev (r ∷ rs) (h, hs) = elim (Bool-cases (r.preplica == dev)) [
  | inl t ↦ rw (t, remove_replica) hs
  | inr f ↦ rw (f, remove_replica) (h, Away-remove_replica z zone dev rs hs)
]

Apart-remove_replica :
    (z : Zones) (dev : ℕ) (rs : List Replica) → Apart z rs → Apart z (remove_replica dev rs)
unfolding remove_replica
Apart-remove_replica z dev [] h = tt
Apart-remove_replica z dev (r ∷ rs) ((w, ew, away), h) = elim (Bool-cases (r.preplica == dev)) [
  | inl t ↦ rw (t, remove_replica) h
  | inr f ↦
      rw (f, remove_replica)
        ((w, ew, Away-remove_replica z w dev rs away), Apart-remove_replica z dev rs h)
]

pub destroy_replica_info-IsSound :
    (z : Zones) (i dev : ℕ) (v : Vnode) → IsSound z i v → IsSound z i (destroy_replica_info v dev)
unfolding destroy_replica_info
destroy_replica_info-IsSound z i dev v sound = record {
  own_id = sound.own_id;
  zones_apart = Apart-remove_replica z dev v.replica_list sound.zones_apart;
}

pub pop_syncing_vnode-zone : (d : Device) (n : ℕ) → (pop_syncing_vnode d n).1.zone_id ≡ d.zone_id
unfolding pop_syncing_vnode
pop_syncing_vnode-zone d n = refl

-- No synchronisation of vnode n is under way.
abbrev pub NotSyncing : ℕ → List SyncEvent → Type 0
NotSyncing n = All (λ e. e.src_vnode_index ≢ n)

pop_event-null : (n : ℕ) (es : List SyncEvent) → NotSyncing n es → (pop_event n es).0 ≡ null_event
unfolding pop_event
pop_event-null n [] h = refl
pop_event-null n (e ∷ es) (ne, h) = elim (Bool-cases (e.src_vnode_index == n)) [
  | inl t ↦ absurd (ne (ground arith))
  | inr f ↦ rw (f, pop_event) (pop_event-null n es h)
]

pub pop_syncing_vnode-null :
    (d : Device) (n : ℕ) → NotSyncing n d.syncing_list → (pop_syncing_vnode d n).0 ≡ null_event
unfolding pop_syncing_vnode
pop_syncing_vnode-null d n h = pop_event-null n d.syncing_list h
