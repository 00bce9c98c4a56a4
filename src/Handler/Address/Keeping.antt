-- ===== src/Handler/Address/Keeping.antt =====
-- msg_get_vnode_addr_handle of src/proxynode/proxy_msg_parser.cpp keeps the replicas of every vnode in
-- different zones.
use kunlun.Prelude.Run.{out_of_bounds, Keeps, Keeps->>=, Keeps-ret, Keeps-fault, Keeps-if}
use kunlun.NameSpace.{NameSpace, get_vnode_id}
use kunlun.Node.{
  Replica, Vnode, Pick, picked, no_active, no_replica, wild, get_read_replica, get_write_replica,
}
use kunlun.Node.Zones.{zone_at, Zones, IsSound}
use kunlun.Proxy.{Proxy}
use kunlun.Proxy.Zones.{Inv, set_vnode-Inv}
use kunlun.Handler.{Message, Stream, read_string}
use kunlun.Handler.Address.{
  Gathered, file_info_size, error_reply, success_reply, replica_device, vnode_at, put_vnode,
  read_reply, same_start, start_of, gather, write_reply, address_reply, msg_get_vnode_addr_handle,
  storage_info, count,
}
use kunlun.Handler.Merge.Soundness.{vnode_at-get_elem?, get_read_replica-IsSound}
use kunlun.Handler.Merge.Answering.{SoundReply}
use kunlun.Prelude.{
  ℕ, zero, suc, ◌-◌, ◌^◌, ◌≡◌, sym, refl, List, [], ◌∷◌, ◌++◌, Option, none, some, Bool, not,
  get_elem?, ltb, ◌==◌, Bool-cases, inl, inr, Option-cases, ◌⊎◌,
}
use mathlib.Core.Path.{subst}

Pick-cases :
    (pick : Pick)
    → ((i : ℕ) × (pick ≡ picked i)) ⊎ ((pick ≡ no_active) ⊎ ((pick ≡ no_replica) ⊎ (pick ≡ wild)))
Pick-cases (picked i) = inl (i, refl)
Pick-cases no_active = inr (inl refl)
Pick-cases no_replica = inr (inr (inl refl))
Pick-cases wild = inr (inr (inr refl))

cons-cases : (rs : List Replica) → (rs ≡ []) ⊎ ((x : Replica) × (xs : List Replica) × (rs ≡ x ∷ xs))
cons-cases [] = inl refl
cons-cases (x ∷ xs) = inr (x, xs, refl)

-- get_write_replica changes only wr_req_robin.
get_write_replica-robin :
    (v : Vnode) → (robin : ℕ) × ((get_write_replica v).0 ≡ record v { wr_req_robin = robin })
unfolding get_write_replica
get_write_replica-robin v = elim (cons-cases v.replica_list) [
  | inl e ↦ (v.wr_req_robin, rw e refl)
  | inr (x, xs, e) ↦ rw e (_, refl)
]

get_write_replica-IsSound :
    (z : Zones) (k : ℕ) (v : Vnode) → IsSound z k v → IsSound z k (get_write_replica v).0
get_write_replica-IsSound z k v sound =
    let (robin, e) = get_write_replica-robin v in
    subst (IsSound z k) (sym e) (record { own_id = sound.own_id; zones_apart = sound.zones_apart })

success_reply-Inv :
    (p : Proxy) (s : Stream) (len : ℕ) (body : List ℕ)
    → Inv p
    → SoundReply (success_reply p s len body)
unfolding success_reply
success_reply-Inv p s len body inv = elim (Bool-cases (s.header_sent == 0)) [
  | inl t ↦ rw (success_reply, t) inv
  | inr t ↦ rw (success_reply, t) inv
]

module _ (p : Proxy) (s : Stream) (id : ℕ) (w : Vnode) (inv : Inv p)
    (here : get_elem? p.vnodes id ≡ some w) where
  read_reply-Inv :
      (v : Vnode) (pick : Pick)
      → IsSound (zone_at p.devices) id v
      → Keeps SoundReply (read_reply p s id (v, pick))
  unfolding read_reply error_reply
  read_reply-Inv v (picked i) sound =
      Keeps-if SoundReply (p.replica_count == 0) (λ t. Keeps-fault SoundReply out_of_bounds)
        (λ t. Keeps->>= SoundReply (replica_device p v i) (λ d ed.
          Keeps-ret SoundReply _
            (success_reply-Inv (put_vnode p id v) s _ _ (set_vnode-Inv p id w v inv here sound))))
  read_reply-Inv v no_active sound = Keeps-ret SoundReply _ (set_vnode-Inv p id w v inv here sound)
  read_reply-Inv v no_replica sound = Keeps-ret SoundReply _ (set_vnode-Inv p id w v inv here sound)
  read_reply-Inv v wild sound = Keeps-fault SoundReply out_of_bounds

  SoundGathered : Gathered → Type 0
  SoundGathered g = IsSound (zone_at p.devices) id g.vnode

  write_reply-Inv : (g : Gathered) → SoundGathered g → SoundReply (write_reply p s id g)
  unfolding write_reply error_reply SoundGathered
  write_reply-Inv g sound = elim (Option-cases g.infos) [
    | inl e ↦ rw (write_reply, e) (set_vnode-Inv p id w g.vnode inv here sound)
    | inr (infos, e) ↦ elim (Bool-cases (ltb (count infos) 2)) [
      | inl t ↦ rw (write_reply, e) (rw t (set_vnode-Inv p id w g.vnode inv here sound))
      | inr t ↦
          rw (write_reply, e)
            (rw t (
              success_reply-Inv (put_vnode p id g.vnode) s _ _
                (set_vnode-Inv p id w g.vnode inv here sound)))
    ]
  ]

  gather-Inv :
      (m : ℕ) (start : Option ℕ) (infos : List (List ℕ)) (v : Vnode)
      → IsSound (zone_at p.devices) id v
      → Keeps SoundGathered (gather m p start infos v)
  unfolding gather SoundGathered
  gather-Inv zero start infos v sound = Keeps-ret SoundGathered _ sound
  gather-Inv (suc m) start infos v sound =
      let v' = (get_write_replica v).0 in
      let sound' = get_write_replica-IsSound _ id v sound in
      elim (Pick-cases (get_write_replica v).1) [
        | inl (i, e) ↦ elim (Bool-cases (same_start start i)) [
          | inl t ↦ rw (gather, e, t) (Keeps-ret SoundGathered _ sound')
          | inr t ↦
              rw (gather, e, t)
                (Keeps->>= SoundGathered (replica_device p v' i) (λ d ed.
                  gather-Inv m (some (start_of start i)) (infos ++ storage_info d ∷ []) v' sound'))
        ]
        | inr (inl e) ↦ rw (gather, e) (Keeps-ret SoundGathered _ sound')
        | inr (inr (inl e)) ↦ rw (gather, e) (Keeps-ret SoundGathered _ sound')
        | inr (inr (inr e)) ↦ rw (gather, e) (Keeps-fault SoundGathered out_of_bounds)
      ]

address_reply-Inv :
    (p : Proxy) (s : Stream) (id : ℕ) (flag : Bool)
    → Inv p
    → Keeps SoundReply (address_reply p s flag id)
unfolding address_reply SoundGathered
address_reply-Inv p s id flag inv = Keeps->>= SoundReply (vnode_at p id) (λ v ev.
    let here = vnode_at-get_elem? p id v ev in
    let sound = inv id v here in
    Keeps-if SoundReply flag
      (λ t.
        read_reply-Inv p s id v inv here (get_read_replica v).0 (get_read_replica v).1
          (get_read_replica-IsSound _ id v sound))
      (λ t. Keeps->>= SoundReply (gather p.replica_count p none [] v) (λ g eg.
        Keeps-ret SoundReply _ (
          write_reply-Inv p s id v inv here g
            (gather-Inv p s id v inv here p.replica_count none [] v sound g eg)))))

pub msg_get_vnode_addr_handle-Inv :
    (ns : NameSpace) (p : Proxy) (s : Stream) (msg : Message) (flag : Bool)
    → Inv p
    → Keeps SoundReply (msg_get_vnode_addr_handle ns p s msg flag)
unfolding msg_get_vnode_addr_handle
msg_get_vnode_addr_handle-Inv ns p s msg flag inv =
    Keeps-if SoundReply (not (file_info_size == msg.pkg_len - 2)) (λ t. Keeps-ret SoundReply _ inv)
      (λ t.
        Keeps-if SoundReply (not (s.open_error == 0)) (λ u. Keeps-ret SoundReply _ inv)
          (λ u. Keeps->>= SoundReply (read_string msg.body) (λ path ep.
            Keeps->>= SoundReply (get_vnode_id ns path) (λ id ei.
              Keeps-if SoundReply (ltb id (2 ^ 31)) (λ x. address_reply-Inv p s id flag inv)
                (λ x. Keeps-ret SoundReply _ inv)))))
