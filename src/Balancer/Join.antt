-- ===== src/Balancer/Join.antt =====
-- The whole of master_do_copy_vnode of src/proxynode/vnode_balancer.cpp, over all vnodes.
use kunlun.Prelude.Run.{ret, Ends}
use kunlun.Proxy.Termination.{deref-Ends, add_node-Ends}
use kunlun.Node.{Vnode}
use kunlun.Node.Zones.{zone_at, Zones, IsSound}
use kunlun.Proxy.Container.{HasRoom, with_node, add_node_room}
use kunlun.Proxy.Zones.{Inv, zone_at-update, deref-some}
use kunlun.Proxy.{Proxy, DeviceContainer}
use kunlun.Balancer.{enter, master_do_copy_vnode}
use kunlun.Balancer.Copy.{Joined}
use mathlib.Core.Path.{subst, fun_ext}
use kunlun.Prelude.{ℕ, ◌≡◌, refl, sym, ap, ◌∙◌, List, some, length, get_elem?, arith}
use kunlun.Balancer.Loop.{copy_loop_lem}

enter_lem :
    (now a zone : ℕ) (p : Proxy)
    → zone_at p.devices a ≡ some zone
    → HasRoom p.container
    → (p' : Proxy) × (enter now a p ≡ ret p')
      × (p'.vnodes ≡ p.vnodes)
      × ((b : ℕ) → zone_at p'.devices b ≡ zone_at p.devices b)
      × (p'.container ≡ with_node p.container a)
unfolding enter
enter_lem now a zone p here room =
    let (d, ed, eh, ez) = deref-some p a zone here in
    rw (ed, add_node_room p.container a room)
      (_, refl, refl, zone_at-update p.devices a d _ eh refl, refl)

-- master_do_copy_vnode returns 0 when the joining device is in the heap, the vnodes are sound and
-- the container has room. Afterwards the vnodes are sound: the replicas of each lie in different
-- zones. A vnode that has a replica in the zone of the joining device is left as it was. Every
-- other vnode has one more replica, on that device: ACTIVE if it is the first, WAIT_SYNC if an
-- active replica was made its COPY_SRC, ONLINE if no replica was active. The device stands behind
-- the others in the container.
pub master_do_copy_vnode_lem :
    (now a zone : ℕ) (p : Proxy) (i : ℕ) (v : Vnode)
    → zone_at p.devices a ≡ some zone
    → Inv p
    → HasRoom p.container
    → get_elem? p.vnodes i ≡ some v
    → (p' : Proxy) × (v' : Vnode) × (master_do_copy_vnode now a p ≡ ret (p', 0))
      × Inv p'
      × (get_elem? p'.vnodes i ≡ some v')
      × Joined (zone_at p.devices) zone a v v'
      × (p'.container ≡ with_node p.container a)
unfolding master_do_copy_vnode
master_do_copy_vnode_lem now a zone p i v here inv room at_i =
    let (q, eq, copied) = copy_loop_lem (length p.vnodes) 0 a zone p (omega arith) here inv in
    let (p', e, ev, ez, ec) =
      enter_lem now a zone q (copied.same_zones a ∙ here)
        (subst HasRoom (sym copied.same_container) room) in
    let (v', e', joined) = copied.behind i v (omega arith) at_i in
    (
      p',
      v',
      rw (eq, e),
      (λ j w h.
          subst (λ (z : Zones). IsSound z j w) (sym (fun_ext ez))
            (copied.sound j w (ap (λ (vs : List Vnode). get_elem? vs j) (sym ev) ∙ h))),
      rw ev e',
      joined,
      ec ∙ ap (λ (c : DeviceContainer). with_node c a) copied.same_container,
    )

-- Adding a device leaves the vnodes as they are.
pub enter-vnodes : (now a : ℕ) (p p' : Proxy) → enter now a p ≡ ret p' → p'.vnodes ≡ p.vnodes
unfolding enter
enter-vnodes now a p p' e = ground arith

pub enter-Ends : (now a : ℕ) (p : Proxy) → Ends (enter now a p)
unfolding enter
enter-Ends now a p e = ground (arith, deref-Ends p.devices a, add_node-Ends p.container a)
