-- ===== src/Balancer/Loop.antt =====
-- The loop of master_do_copy_vnode of src/proxynode/vnode_balancer.cpp over all vnodes.
use kunlun.Prelude.Run.{ret}
use kunlun.Node.{Vnode}
use kunlun.Node.Zones.{zone_at, Zones, Away, Meets, IsSound, is_diff_zones-cases}
use kunlun.Proxy.Container.{get_vnode-some}
use kunlun.Proxy.Zones.{Inv, deref-some}
use kunlun.Proxy.{Proxy}
use kunlun.Balancer.{copy_vnode, copy_loop}
use kunlun.Balancer.Copy.{Placed, Joined, copy_round_lem}
use mathlib.Core.Path.{subst, fun_ext}
use mathlib.Core.Option.{some-injective}
use native.Mathlib.Decide.{ℕ_discrete}
use kunlun.Prelude.{
  ℕ, zero, suc, ◌+◌, ◌≤◌, ◌<◌, ◌≡◌, ◌≢◌, inl, inr, refl, sym, ap, ◌∙◌, List, some, length,
  get_elem?, get_elem?-set_self, get_elem?-set_ne, get_elem?-lt, set_same, lt_of_get_elem?,
  length-set, arith,
}

copy_vnode_lem :
    (p : Proxy) (i a zone : ℕ) (v : Vnode)
    → zone_at p.devices a ≡ some zone
    → IsSound (zone_at p.devices) i v
    → get_elem? p.vnodes i ≡ some v
    → (p' : Proxy) × (copy_vnode p i a v ≡ ret (p', 0)) × Placed p i a zone v p'
unfolding copy_vnode
copy_vnode_lem p i a zone v here sound ev =
    let (d, ed, eh, ez) = deref-some p a zone here in
    elim (is_diff_zones-cases p.devices v d sound.zones_apart) [
      | inl (t, away) ↦
          let (p', e, placed) =
            copy_round_lem p i a zone v here sound
              (subst (λ (k : ℕ). Away (zone_at p.devices) k v.replica_list) ez away) in
          (p', rw (ed, t, copy_vnode) e, placed)
      | inr (f, meets) ↦ (
        p,
        rw (ed, f, copy_vnode),
        record {
          after = v;
          vnodes_set = sym (set_same p.vnodes i v ev);
          same_zones = λ b. refl;
          same_container = refl;
          sound = sound;
          joined =
              inl (subst (λ (k : ℕ). Meets (zone_at p.devices) k v.replica_list) ez meets, refl);
        },
      )
    ]

-- What the loop from vnode i on does to the proxy.
pub record Copied (p : Proxy) (i a zone : ℕ) (p' : Proxy) : Type 0 where
  pub same_zones : (b : ℕ) → zone_at p'.devices b ≡ zone_at p.devices b
  pub same_container : p'.container ≡ p.container
  pub sound : Inv p'
  pub before : (j : ℕ) → j < i → get_elem? p'.vnodes j ≡ get_elem? p.vnodes j
  pub behind :
      (j : ℕ) (v : Vnode)
      → i ≤ j
      → get_elem? p.vnodes j ≡ some v
      → (v' : Vnode) × (get_elem? p'.vnodes j ≡ some v') × Joined (zone_at p.devices) zone a v v'

-- The vnode of the round, and the others.
module _ (p : Proxy) (i a zone : ℕ) (v : Vnode) (q : Proxy) (placed : Placed p i a zone v q) where
  placed_self : i < length p.vnodes → get_elem? q.vnodes i ≡ some placed.after
  placed_self lt =
      ap (λ (vs : List Vnode). get_elem? vs i) placed.vnodes_set
      ∙ get_elem?-set_self p.vnodes i placed.after lt

  placed_other : (j : ℕ) → i ≢ j → get_elem? q.vnodes j ≡ get_elem? p.vnodes j
  placed_other j ne =
      ap (λ (vs : List Vnode). get_elem? vs j) placed.vnodes_set
      ∙ get_elem?-set_ne p.vnodes i j placed.after ne

  placed_zones : zone_at q.devices ≡ zone_at p.devices
  placed_zones = fun_ext placed.same_zones

Placed-Inv :
    (p : Proxy) (i a zone : ℕ) (v : Vnode) (p' : Proxy)
    → Inv p
    → i < length p.vnodes
    → Placed p i a zone v p'
    → Inv p'
Placed-Inv p i a zone v p' inv lt placed j w e =
    subst (λ (z : Zones). IsSound z j w) (sym (placed_zones p i a zone v p' placed))
      (elim (ℕ_discrete i j) [
        | yes same ↦
            let at_i : some placed.after ≡ some w =
              sym (placed_self p i a zone v p' placed lt) ∙ rw (← same) at e in
            subst (λ (k : ℕ). IsSound (zone_at p.devices) k w) same
              (subst (IsSound (zone_at p.devices) i) (some-injective _ _ at_i) placed.sound)
        | no other ↦ inv j w (sym (placed_other p i a zone v p' placed j other) ∙ e)
      ])

Copied-step :
    (p : Proxy) (i a zone : ℕ) (v : Vnode) (q p' : Proxy)
    → get_elem? p.vnodes i ≡ some v
    → Placed p i a zone v q
    → Copied q (i + 1) a zone p'
    → Copied p i a zone p'
Copied-step p i a zone v q p' ev placed rest = record {
  same_zones = λ b. rest.same_zones b ∙ placed.same_zones b;
  same_container = rest.same_container ∙ placed.same_container;
  sound = rest.sound;
  before = λ j h. rest.before j (omega arith) ∙ placed_other p i a zone v q placed j (omega arith);
  behind = λ j w h e. elim (ℕ_discrete i j) [
    | yes same ↦
        let at_i : some v ≡ some w = sym ev ∙ rw (← same) at e in
        (
          placed.after,
          rw (← same) (
              rest.before i (omega arith)
              ∙ placed_self p i a zone v q placed (lt_of_get_elem? p.vnodes i v ev)),
          subst (λ (u : Vnode). Joined (zone_at p.devices) zone a u placed.after)
              (some-injective _ _ at_i) placed.joined,
        )
    | no other ↦
        let (w', e', joined) =
          rest.behind j w (omega arith) (placed_other p i a zone v q placed j other ∙ e) in
        (
          w',
          e',
          subst (λ (z : Zones). Joined z zone a w w') (placed_zones p i a zone v q placed) joined,
        )
  ];
}

pub copy_loop_lem :
    (m i a zone : ℕ) (p : Proxy)
    → m + i ≡ length p.vnodes
    → zone_at p.devices a ≡ some zone
    → Inv p
    → (p' : Proxy) × (copy_loop m i a p ≡ ret (p', 0)) × Copied p i a zone p'
unfolding copy_loop
copy_loop_lem zero i a zone p len here inv = (
  p,
  refl,
  record {
    same_zones = λ b. refl;
    same_container = refl;
    sound = inv;
    before = λ j h. refl;
    behind = λ j v h e. absurd (omega (arith, lt_of_get_elem? p.vnodes j v e));
  },
)
copy_loop_lem (suc m) i a zone p len here inv =
    let (v, ev) = get_elem?-lt p.vnodes i (omega arith) in
    let sound = inv i v ev in
    let (q, eq, placed) = copy_vnode_lem p i a zone v here sound ev in
    let lt = lt_of_get_elem? p.vnodes i v ev in
    let (p', e, rest) =
      copy_loop_lem m (i + 1) a zone q
        (omega (
          arith,
          ap (λ (vs : List Vnode). length vs) placed.vnodes_set,
          length-set p.vnodes i placed.after,
        ))
        (placed.same_zones a ∙ here) (Placed-Inv p i a zone v q inv lt placed) in
    (
      p',
      rw (get_vnode-some p.vnodes i v ev sound.own_id, eq, e),
      Copied-step p i a zone v q p' ev placed rest,
    )
