-- ===== src/Proxy/Zones.antt =====
-- Soundness of the whole proxy: src/proxynode/node_container.h.
use kunlun.Node.{Device, Devices, Vnode}
use kunlun.Prelude.Run.{ret}
use kunlun.Node.Zones.{zone_at, Zones, device_at, IsSound}
use mathlib.Core.Path.{subst, fun_ext}
use mathlib.Core.Option.{some-injective}
use native.Mathlib.Decide.{ℕ_discrete}
use kunlun.Proxy.{Proxy, update, deref}
use kunlun.Prelude.{
  ℕ, ◌≡◌, ◌∙◌, sym, some, get_elem?, set, get_elem?-set_self, get_elem?-set_ne, lt_of_get_elem?,
  ◌==◌, Bool-cases, ap, inl, inr, arith,
}

-- Every vnode of the proxy is sound.
abbrev pub Inv : Proxy → Type 0
Inv p = (i : ℕ) (v : Vnode) → get_elem? p.vnodes i ≡ some v → IsSound (zone_at p.devices) i v

-- Writing a device back with its zone unchanged changes no zone.
pub zone_at-update :
    (ds : Devices) (a : ℕ) (d d' : Device)
    → ds a ≡ some d
    → d'.zone_id ≡ d.zone_id
    → (b : ℕ) → zone_at (update ds a (some d')) b ≡ zone_at ds b
zone_at-update ds a d d' e same b = elim (Bool-cases (b == a)) [
  | inl hit ↦
      rw (hit, zone_at, update)
        (let same_place : b ≡ a = ground arith in rw (same_place, e, zone_at) (ap some same))
  | inr miss ↦ rw (miss, zone_at, update)
]

-- The pointer to a device with a zone can be used.
pub deref-some :
    (p : Proxy) (a zone : ℕ)
    → zone_at p.devices a ≡ some zone
    → (d : Device) × (deref p.devices a ≡ ret d) × (p.devices a ≡ some d) × (d.zone_id ≡ zone)
unfolding deref
deref-some p a zone e =
    let (d, ed, ez) = device_at p.devices a zone e in (d, rw (ed, deref), ed, ez)

-- A proxy with another vnode at a place that holds one.
pub set_vnode-Inv :
    (p : Proxy) (id : ℕ) (v v' : Vnode)
    → Inv p
    → get_elem? p.vnodes id ≡ some v
    → IsSound (zone_at p.devices) id v'
    → Inv (record p { vnodes = set p.vnodes id v' })
set_vnode-Inv p id v v' inv ev sound k w e = elim (ℕ_discrete id k) [
  | yes same ↦
      let at_k : some v' ≡ some w =
        sym (get_elem?-set_self p.vnodes id v' (lt_of_get_elem? p.vnodes id v ev))
        ∙ rw (← same) at e in
      subst (λ (n : ℕ). IsSound (zone_at p.devices) n w) same
        (subst (IsSound (zone_at p.devices) id) (some-injective _ _ at_k) sound)
  | no other ↦ inv k w (sym (get_elem?-set_ne p.vnodes id k v' other) ∙ e)
]

-- A proxy with another device of the same zone at an address.
pub put_device-Inv :
    (p : Proxy) (a : ℕ) (d d' : Device)
    → Inv p
    → p.devices a ≡ some d
    → d'.zone_id ≡ d.zone_id
    → Inv (record p { devices = update p.devices a (some d') })
put_device-Inv p a d d' inv ed ez k w e =
    subst (λ (z : Zones). IsSound z k w) (sym (fun_ext (zone_at-update p.devices a d d' ed ez)))
      (inv k w e)
