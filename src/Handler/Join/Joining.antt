-- ===== src/Handler/Join/Joining.antt =====
-- msg_device_join_handle of src/proxynode/proxy_msg_parser.cpp on a master that has fewer devices
-- than each vnode is to have replicas.
use kunlun.Prelude.Run.{ret}
use kunlun.Node.{Device, Devices, Replica, Vnode}
use kunlun.Node.Zones.{zone_at, Zones, Away, Apart}
use kunlun.Proxy.{Proxy, update}
use kunlun.Proxy.Zones.{Inv}
use kunlun.Proxy.Container.{HasRoom, with_node}
use kunlun.Balancer.{master_do_copy_vnode}
use kunlun.Balancer.Copy.{Joined}
use kunlun.Balancer.Join.{master_do_copy_vnode_lem}
use kunlun.Handler.{Message, Stream, response_header}
use kunlun.Handler.Address.{Reply}
use kunlun.Handler.Join.{
  JoinBody, join_body, join_ip, join_body_size, new_device, put_device, settle, join_reply, balance,
  msg_device_join_handle,
}
use kunlun.Prelude.{
  ℕ, ◌+◌, ◌<◌, ◌≡◌, refl, List, [], ◌∷◌, ◌==◌, Option, none, some, true, get_elem?, arith,
  Bool-cases, inl, inr,
}

-- Every device with a zone keeps it.
abbrev Keeps : Zones → Zones → Type 0
Keeps z z' = (b w : ℕ) → z b ≡ some w → z' b ≡ some w

Away-Keeps :
    (z z' : Zones) (zone : ℕ) (rs : List Replica) → Keeps z z' → Away z zone rs → Away z' zone rs
Away-Keeps z z' zone [] k h = tt
Away-Keeps z z' zone (r ∷ rs) k ((w, ew, ne), h) =
    ((w, k r.preplica w ew, ne), Away-Keeps z z' zone rs k h)

Apart-Keeps : (z z' : Zones) (rs : List Replica) → Keeps z z' → Apart z rs → Apart z' rs
Apart-Keeps z z' [] k h = tt
Apart-Keeps z z' (r ∷ rs) k ((w, ew, away), h) =
    ((w, k r.preplica w ew, Away-Keeps z z' w rs k away), Apart-Keeps z z' rs k h)

-- A device at a free address changes no zone that was there.
zone_at-free :
    (ds : Devices) (a : ℕ) (d : Device)
    → ds a ≡ none
    → Keeps (zone_at ds) (zone_at (update ds a (some d)))
zone_at-free ds a d free b w e = elim (Bool-cases (b == a)) [
  | inr miss ↦ rw (miss, zone_at, update) e
  | inl hit ↦ let same : b ≡ a = ground arith in cc (rw (same, free, zone_at) at e)
]

Inv-put :
    (p : Proxy) (a : ℕ) (d : Device) → p.devices a ≡ none → Inv p → Inv (put_device p a (some d))
Inv-put p a d free inv i v e =
    let sound = inv i v e in
    record {
      own_id = sound.own_id;
      zones_apart =
          Apart-Keeps _ _ v.replica_list (zone_at-free p.devices a d free) sound.zones_apart;
    }

zone_at-put :
    (p : Proxy) (a : ℕ) (d : Device) → zone_at (put_device p a (some d)).devices a ≡ some d.zone_id
zone_at-put p a d = let same : (a == a) ≡ true = ground arith in rw (same, zone_at, update)

balance_copies :
    (rand : ℕ → ℕ) (now a : ℕ) (p p' : Proxy)
    → p.is_master ≡ true
    → p.container.node_count < p.replica_count
    → master_do_copy_vnode now a p ≡ ret (p', 0)
    → balance rand now a p ≡ ret (p', 0)
unfolding balance
balance_copies rand now a p p' master few e = ground (arith, e)

answered :
    (rand : ℕ → ℕ) (now a : ℕ) (peer : Option (List ℕ)) (p p' : Proxy) (s : Stream) (msg : Message)
    (ip : List ℕ) (body : JoinBody)
    → msg.pkg_len ≡ join_body_size + 2
    → join_ip peer s msg.body ≡ ret (some ip)
    → join_body msg.body ≡ ret body
    → s.open_error ≡ 0
    → balance rand now a (put_device p a (some (new_device ip body))) ≡ ret (p', 0)
    → msg_device_join_handle rand now a peer p s msg
      ≡ ret (record {
        after = p';
        sent = response_header p'.is_master 0 0 ∷ [];
        code = s.header_sent;
      })
unfolding msg_device_join_handle settle join_reply
answered rand now a peer p p' s msg ip body len eip ebody opened e =
    rw (len, eip, ebody, e, opened) refl

-- On a sound master with a free slot and fewer devices than each vnode is to have replicas, a join
-- request that can be read is answered with a header of status 0, when the new object is at a free
-- address and the stream opens. The new device stands in the container, the vnodes are sound, and
-- each vnode has got a replica on the device or has one in its zone. The result is that of
-- stream_send.
pub msg_device_join_handle_lem :
    (rand : ℕ → ℕ) (now a : ℕ) (peer : Option (List ℕ)) (p : Proxy) (s : Stream) (msg : Message)
    (ip : List ℕ) (body : JoinBody) (i : ℕ) (v : Vnode)
    → p.is_master ≡ true
    → p.container.node_count < p.replica_count
    → Inv p
    → HasRoom p.container
    → p.devices a ≡ none
    → msg.pkg_len ≡ join_body_size + 2
    → join_ip peer s msg.body ≡ ret (some ip)
    → join_body msg.body ≡ ret body
    → s.open_error ≡ 0
    → get_elem? p.vnodes i ≡ some v
    → (r : Reply) × (v' : Vnode) × (msg_device_join_handle rand now a peer p s msg ≡ ret r)
      × Inv r.after
      × (get_elem? r.after.vnodes i ≡ some v')
      × Joined (zone_at (update p.devices a (some (new_device ip body)))) body.zone_id a v v'
      × (r.after.container ≡ with_node p.container a)
      × (r.sent ≡ response_header r.after.is_master 0 0 ∷ [])
      × (r.code ≡ s.header_sent)
unfolding new_device
msg_device_join_handle_lem rand now a peer p s msg ip body i v master few inv room free len eip
      ebody opened at_i =
    let d = new_device ip body in
    let q = put_device p a (some d) in
    let (p', v', e, inv', at', joined, ec) =
      master_do_copy_vnode_lem now a body.zone_id q i v (zone_at-put p a d) (Inv-put p a d free inv)
        room at_i in
    (
      record { after = p'; sent = response_header p'.is_master 0 0 ∷ []; code = s.header_sent },
      v',
      answered rand now a peer p p' s msg ip body len eip ebody opened
          (balance_copies rand now a q p' master few e),
      inv',
      at',
      joined,
      ec,
      refl,
      refl,
    )
