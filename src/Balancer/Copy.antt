-- ===== src/Balancer/Copy.antt =====
-- master_do_copy_vnode of src/proxynode/vnode_balancer.cpp keeps the replicas of every vnode in
-- different zones, and gives the joining device a replica of each vnode that its zone allows.
use kunlun.Prelude.Run.{Run, ret}
use kunlun.Node.Status
use kunlun.Node.{Replica, Vnode, picked, no_active, get_read_replica}
use kunlun.Node.Read.{IdleAt, get_read_replica_lem, after_read}
use kunlun.Node.Zones.{
  zone_at, Zones, Away, Apart, Meets, IsSound, Apart-append, Apart-set, Away-set, Apart-mem,
}
use kunlun.Proxy.Zones.{zone_at-update, deref-some}
use kunlun.Proxy.{Proxy}
use kunlun.Balancer.{set_status, push_sync, attach, copy_from, copy_pick, copy_round}
use kunlun.Prelude.{
  ℕ, ◌<◌, ◌≡◌, ◌≢◌, ◌⊎◌, inl, inr, refl, ap, ◌∙◌, List, [], ◌∷◌, ◌++◌, some, length, get_elem?, set,
  nil-cases, arith,
}

-- The replicas and the status that a joining device meets: the replicas rs become rs'.
abbrev pub Joins : List Replica → List Replica → ℕ → Type 0
Joins rs rs' status =
    ((rs ≡ []) × (rs' ≡ []) × (status ≡ Status.active))
    ⊎ (((s : ℕ) × (src : Replica) × (get_elem? rs s ≡ some src)
          × (src.replica_status ≡ Status.active)
          × (rs' ≡ set rs s (record src { replica_status = Status.copy_src }))
          × (status ≡ Status.wait_sync))
        ⊎ ((rs ≢ [])
            × ((i : ℕ) → i < length rs → IdleAt rs i)
            × (rs' ≡ rs)
            × (status ≡ Status.online)))

-- A vnode before and after the join of device a of a zone.
abbrev pub Joined : Zones → ℕ → ℕ → Vnode → Vnode → Type 0
Joined z zone a v v' =
    (Meets z zone v.replica_list × (v' ≡ v))
    ⊎ (Away z zone v.replica_list
        × (rs : List Replica) × (status : ℕ) × (v'.replica_list
            ≡ rs ++ record { replica_status = status; preplica = a } ∷ [])
        × Joins v.replica_list rs status)

-- What a round does to the proxy.
pub record Placed (p : Proxy) (i a zone : ℕ) (v : Vnode) (p' : Proxy) : Type 0 where
  pub after : Vnode
  pub vnodes_set : p'.vnodes ≡ set p.vnodes i after
  pub same_zones : (b : ℕ) → zone_at p'.devices b ≡ zone_at p.devices b
  pub same_container : p'.container ≡ p.container
  pub sound : IsSound (zone_at p.devices) i after
  pub joined : Joined (zone_at p.devices) zone a v after

-- attach, on a joining device of the heap.
attach_lem :
    (p : Proxy) (i a zone status : ℕ) (v : Vnode)
    → zone_at p.devices a ≡ some zone
    → (p' : Proxy) × (attach p i a v status ≡ ret p')
      × (p'.vnodes
          ≡ set p.vnodes i (record v {
            replica_list = v.replica_list ++ record { replica_status = status; preplica = a } ∷ [];
          }))
      × ((b : ℕ) → zone_at p'.devices b ≡ zone_at p.devices b)
      × (p'.container ≡ p.container)
unfolding attach
attach_lem p i a zone status v e =
    let (d, ed, eh, ez) = deref-some p a zone e in
    rw ed (_, refl, refl, zone_at-update p.devices a d _ eh refl, refl)

pub push_sync_lem :
    (p : Proxy) (a zone : ℕ) (event : _)
    → zone_at p.devices a ≡ some zone
    → (p' : Proxy) × (push_sync p a event ≡ ret p')
      × (p'.vnodes ≡ p.vnodes)
      × ((b : ℕ) → zone_at p'.devices b ≡ zone_at p.devices b)
      × (p'.container ≡ p.container)
unfolding push_sync
push_sync_lem p a zone event e =
    let (d, ed, eh, ez) = deref-some p a zone e in
    rw ed (_, refl, refl, zone_at-update p.devices a d _ eh refl, refl)

-- A vnode that gets one more replica, on a device away from the zones of the others.
grown-IsSound :
    (z : Zones) (i zone : ℕ) (v : Vnode) (r : Replica)
    → v.vnode_id ≡ i
    → Apart z v.replica_list
    → z r.preplica ≡ some zone
    → Away z zone v.replica_list
    → IsSound z i (record v { replica_list = v.replica_list ++ r ∷ [] })
grown-IsSound z i zone v r own apart e away = record {
  own_id = own;
  zones_apart = Apart-append z v.replica_list r zone e away apart;
}

copy_round_ne :
    (p : Proxy) (i a : ℕ) (v : Vnode)
    → v.replica_list ≢ []
    → copy_round p i a v ≡ copy_pick p i a (get_read_replica v)
unfolding copy_round
copy_round_ne p i a v h = ground arith

-- What a round needs: a joining device of a known zone, and a sound vnode that this zone may join.
module _ (p : Proxy) (i a zone : ℕ) (v : Vnode) (here : zone_at p.devices a ≡ some zone)
    (sound : IsSound (zone_at p.devices) i v)
    (away : Away (zone_at p.devices) zone v.replica_list) where
  -- attach on the vnode as the round has left it: v' with the replicas rs.
  place :
      (v' : Vnode) (status : ℕ) (q : Proxy)
      → v'.vnode_id ≡ v.vnode_id
      → Apart (zone_at p.devices) v'.replica_list
      → Away (zone_at p.devices) zone v'.replica_list
      → Joins v.replica_list v'.replica_list status
      → q.vnodes ≡ p.vnodes
      → ((b : ℕ) → zone_at q.devices b ≡ zone_at p.devices b)
      → q.container ≡ p.container
      → (p' : Proxy) × (attach q i a v' status ≡ ret p') × Placed p i a zone v p'
  place v' status q own apart away' joins ev ez ec =
      let grown : Vnode = record v' {
        replica_list = v'.replica_list ++ record { replica_status = status; preplica = a } ∷ [];
      } in
      let (p', e, fv, fz, fc) = attach_lem q i a zone status v' (ez a ∙ here) in
      (
        p',
        e,
        record {
          after = grown;
          vnodes_set = fv ∙ ap (λ (vs : List Vnode). set vs i grown) ev;
          same_zones = λ b. fz b ∙ ez b;
          same_container = fc ∙ ec;
          sound = grown-IsSound _ i zone v' _ (own ∙ sound.own_id) apart here away';
          joined = inr (away, v'.replica_list, status, refl, joins);
        },
      )

  -- Any round ends with one more replica for the vnode, and returns 0.
  Round : Run (Proxy × ℕ) → Type 0
  Round r = (p' : Proxy) × (r ≡ ret (p', 0)) × Placed p i a zone v p'

  round_first : v.replica_list ≡ [] → Round (copy_round p i a v)
  unfolding copy_round Round
  round_first nil =
      let (p', e, placed) =
        place v Status.active p refl sound.zones_apart away (inl (nil, nil, refl)) refl (λ b. refl)
          refl in
      (p', ground (arith, e), placed)

  round_idle :
      (robin : ℕ)
      → v.replica_list ≢ []
      → get_read_replica v ≡ (after_read v robin, no_active)
      → ((j : ℕ) → j < length v.replica_list → IdleAt v.replica_list j)
      → Round (copy_round p i a v)
  unfolding copy_pick Round
  round_idle robin ne r idle =
      let (p', e, placed) =
        place (after_read v robin) Status.online p refl sound.zones_apart away
          (inr (inr (ne, idle, refl, refl))) refl (λ b. refl) refl in
      (p', copy_round_ne p i a v ne ∙ rw (r, e), placed)

  round_picked :
      (s robin : ℕ) (src : Replica)
      → v.replica_list ≢ []
      → get_read_replica v ≡ (after_read v robin, picked s)
      → get_elem? v.replica_list s ≡ some src
      → src.replica_status ≡ Status.active
      → Round (copy_round p i a v)
  unfolding copy_pick copy_from set_status Round
  round_picked s robin src ne r es act =
      let (w, ew) = Apart-mem _ v.replica_list s src es sound.zones_apart in
      let (q, eq, qv, qz, qc) =
        push_sync_lem p src.preplica w (record { src_vnode_index = i; pdest_node = some a }) ew in
      let (p', e, placed) =
        place (set_status (after_read v robin) s src Status.copy_src) Status.wait_sync q refl
          (Apart-set _ v.replica_list s src _ es sound.zones_apart)
          (Away-set _ zone v.replica_list s src _ es away) (inr (inl (s, src, es, act, refl, refl)))
          qv qz qc in
      (p', copy_round_ne p i a v ne ∙ rw (r, es, eq, e), placed)

-- A round on a sound vnode that the zone of the joining device may join.
pub copy_round_lem :
    (p : Proxy) (i a zone : ℕ) (v : Vnode)
    → zone_at p.devices a ≡ some zone
    → IsSound (zone_at p.devices) i v
    → Away (zone_at p.devices) zone v.replica_list
    → (p' : Proxy) × (copy_round p i a v ≡ ret (p', 0)) × Placed p i a zone v p'
unfolding Round
copy_round_lem p i a zone v here sound away = elim (nil-cases v.replica_list) [
  | inl nil ↦ round_first p i a zone v here sound away nil
  | inr ne ↦ elim (get_read_replica_lem v ne) [
    | inl (k, hk, r, (src, es, act), before) ↦
        round_picked p i a zone v here sound away _ _ src ne r es act
    | inr (robin, r, idle) ↦ round_idle p i a zone v here sound away robin ne r idle
  ]
]

-- A replica with another status keeps its vnode sound.
pub set_status-IsSound :
    (z : Zones) (k : ℕ) (v : Vnode) (s : ℕ) (r : Replica) (status : ℕ)
    → get_elem? v.replica_list s ≡ some r
    → IsSound z k v
    → IsSound z k (set_status v s r status)
unfolding set_status
set_status-IsSound z k v s r status e sound = record {
  own_id = sound.own_id;
  zones_apart = Apart-set z v.replica_list s r status e sound.zones_apart;
}
