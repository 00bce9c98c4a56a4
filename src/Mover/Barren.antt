-- ===== src/Mover/Barren.antt =====
-- What master_do_move_vnode of src/proxynode/vnode_balancer.cpp comes to.
use kunlun.Prelude.Run.{ret, fault, null_deref, Fault, Keeps, Keeps-cases, Run-cases}
use kunlun.Prelude.Int.{ℤ, pos, div_int, to_int, ◌+ℤ◌, ◌-ℤ◌, ◌*ℤ◌}
use kunlun.Node.{Vnode, Replica}
use kunlun.Proxy.{Proxy, deref}
use kunlun.Balancer.{enter}
use kunlun.Balancer.Join.{enter-vnodes}
use kunlun.Mover.{
  give_up, another, move, choose, assign, move_vnode, erase_at, move_loop, move_devices,
  get_total_replica_count, master_do_move_vnode,
}
use kunlun.Prelude.{
  ℕ, zero, suc, ◌+◌, ◌%◌, ◌≡◌, ◌≢◌, ◌⊎◌, inl, inr, refl, arith, List, [], ◌∷◌, Option, none, some,
  length,
}

-- The move of a vnode never gets behind the test of the new replica.
move_vnode-fault :
    (p : Proxy) (a i : ℕ) (v : Vnode) (s : ℕ) (src : Replica)
    → move_vnode p a i v s src ≡ fault null_deref
unfolding move_vnode assign
move_vnode-fault p a i v s src = refl

module _ (rand : ℕ → ℕ) where
  move_loop-same :
      (fuel : ℕ) (p : Proxy) (c a : ℕ) (n : ℤ) (moved : ℕ) (xs : List ℕ) (k : ℕ)
      → Keeps (λ (r : Proxy × ℕ × ℕ). r.0 ≡ p) (move_loop rand fuel p c a n moved xs k)
  unfolding move_loop
  move_loop-same fuel p c a n moved [] k r e = ground arith
  move_loop-same zero p c a n moved (x ∷ xs) k r e = ground arith
  move_loop-same (suc fuel) p c a n moved (x ∷ xs) k r e =
      let i = rand k % length (x ∷ xs) in
      let later = move_loop-same fuel p c a n moved (erase_at (x ∷ xs) i) (k + 1) r in
      elim (Run-cases (choose p c a i)) [
        | inr (y, f) ↦ ground arith
        | inl (give_up, f) ↦ ground arith
        | inl (another, f) ↦ ground (arith, later)
        | inl (move index v s src, f) ↦ ground (arith, move_vnode-fault p a index v s src)
      ]

  move_devices-same :
      (n : ℕ) (slots : List (Option ℕ)) (p : Proxy) (a : ℕ) (avg : ℤ) (k : ℕ)
      → Keeps (λ (r : Proxy × ℕ). r.0 ≡ p) (move_devices rand n slots p a avg k)
  unfolding move_devices
  move_devices-same zero slots p a avg k r e = ground arith
  move_devices-same (suc n) [] p a avg k r e = ground arith
  move_devices-same (suc n) (none ∷ slots) p a avg k r e = ground arith
  move_devices-same (suc n) (some c ∷ slots) p a avg k r e = elim (Run-cases (deref p.devices c)) [
    | inr (x, d) ↦ ground arith
    | inl (curr, d) ↦
        let xs = curr.vnode_list in
        let move_count = pos (length xs) -ℤ avg *ℤ to_int curr.weight in
        let left = move_loop rand (length xs) p c a move_count 0 xs k in
        let same = move_loop-same (length xs) p c a move_count 0 xs k in
        let stay = move_devices-same n slots p a avg k r in
        elim (Run-cases left) [
          | inr (x, f) ↦ ground (arith, stay)
          | inl ((p', k', suc x), f) ↦ ground (arith, stay, same (p', k', suc x) f)
          | inl ((p', k', zero), f) ↦
              let kept = same (p', k', zero) f in
              let next = move_devices-same n slots p' a avg k' r in ground (arith, stay, kept, next)
        ]
  ]

-- The proxy after a join that returned: the vnodes are as they were, and so are the replicas of
-- every device. Either the result is not 0 and nothing has changed, or it is 0 and the device is in.
abbrev pub Barren : ℕ → ℕ → Proxy → Proxy → ℕ → Type 0
Barren now a p p' code = ((p' ≡ p) × (code ≢ 0)) ⊎ ((enter now a p ≡ ret p') × (code ≡ 0))

returned-Barren :
    (rand : ℕ → ℕ) (now a : ℕ) (p : Proxy)
    → Keeps
        (λ (r : Proxy × ℕ). Barren now a p r.0 r.1 × (r.0.vnodes ≡ p.vnodes))
        (master_do_move_vnode rand now a p)
unfolding master_do_move_vnode
returned-Barren rand now a p (p', code) e = elim (Run-cases (deref p.devices a)) [
  | inr (x, d) ↦ ground arith
  | inl (join, d) ↦ elim (Run-cases (get_total_replica_count p)) [
    | inr (x, t) ↦ ground arith
    | inl (none, t) ↦ ground arith
    | inl (some (count, weight), t) ↦
        elim (Run-cases (div_int count (weight +ℤ to_int join.weight))) [
          | inr (x, q) ↦ ground arith
          | inl (avg, q) ↦
              let n = p.container.node_count in
              let slots = p.container.slots in
              elim (Run-cases (move_devices rand n slots p a avg 0)) [
                | inr (x, f) ↦ ground arith
                | inl ((p'', suc x), f) ↦
                    ground (arith, move_devices-same rand n slots p a avg 0 (p'', suc x) f)
                | inl ((p'', zero), f) ↦ ground (
                  arith,
                  move_devices-same rand n slots p a avg 0 (p'', zero) f,
                  enter-vnodes now a p p',
                )
              ]
        ]
  ]
]

-- A move of a vnode runs into a NULL pointer, and master_do_move_vnode never moves a vnode, whatever
-- rand() gives. Either it returns with the proxy as it was and a result other than 0, or with the
-- device added, the result 0 and no vnode touched, or it runs into a fault.
pub master_do_move_vnode-Barren :
    (rand : ℕ → ℕ) (now a : ℕ) (p : Proxy)
    → ((i : ℕ) (v : Vnode) (s : ℕ) (src : Replica) → move_vnode p a i v s src ≡ fault null_deref)
      × (((r : Proxy × ℕ) × (master_do_move_vnode rand now a p ≡ ret r)
            × (Barren now a p r.0 r.1 × (r.0.vnodes ≡ p.vnodes)))
          ⊎ ((x : Fault) × (master_do_move_vnode rand now a p ≡ fault x)))
master_do_move_vnode-Barren rand now a p = (
  move_vnode-fault p a,
  Keeps-cases _ (master_do_move_vnode rand now a p) (returned-Barren rand now a p),
)
