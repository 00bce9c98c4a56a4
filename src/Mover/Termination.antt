-- ===== src/Mover/Termination.antt =====
-- The loops of master_do_move_vnode of src/proxynode/vnode_balancer.cpp end.
use kunlun.Prelude.Run.{Ends, Ends->>=, Run-cases}
use kunlun.Prelude.Int.{ℤ, div_int, pos, div_int-Ends, to_int, ◌+ℤ◌, ◌-ℤ◌, ◌*ℤ◌, is_positive}
use kunlun.Node.{Device, Devices, Replica, Vnode, get_replica_info}
use kunlun.Proxy.{Proxy, deref, get_vnode}
use kunlun.Proxy.Termination.{deref-Ends, get_vnode-Ends}
use kunlun.Balancer.Join.{enter-Ends}
use kunlun.Mover.{
  total_replicas, get_total_replica_count, erase_at, give_up, another, move, choose_by_zone,
  choose_by_replica, choose, assign, move_vnode, move_loop, move_devices, master_do_move_vnode,
}
use kunlun.Prelude.{
  ℕ, zero, suc, ◌+◌, ◌%◌, ◌≤◌, ◌<◌, ◌≡◌, List, [], ◌∷◌, Option, none, some, length, arith,
  get_elem?, Option-cases, Bool-cases, inl, inr,
}

length-erase_at : (xs : List ℕ) (i : ℕ) → i < length xs → length (erase_at xs i) + 1 ≡ length xs
unfolding erase_at
length-erase_at [] i h = absurd (omega arith)
length-erase_at (x ∷ xs) zero h = omega arith
length-erase_at (x ∷ xs) (suc i) h = omega (arith, length-erase_at xs i (omega arith))

total_replicas-Ends :
    (ds : Devices) (n : ℕ) (slots : List (Option ℕ)) (count : ℕ) (weight : ℤ)
    → Ends (total_replicas ds n slots count weight)
unfolding total_replicas
total_replicas-Ends ds zero slots count weight e = ground arith
total_replicas-Ends ds (suc n) [] count weight e = ground arith
total_replicas-Ends ds (suc n) (none ∷ slots) count weight e = ground arith
total_replicas-Ends ds (suc n) (some a ∷ slots) count weight e =
    Ends->>= (deref ds a) (deref-Ends ds a) (λ d. total_replicas-Ends ds n slots _ _) e

choose_by_replica-Ends :
    (p : Proxy) (curr join : Device) (i : ℕ) (v : Vnode) (src : Replica)
    → Ends (choose_by_replica p curr join i v src)
unfolding choose_by_zone choose_by_replica
choose_by_replica-Ends p curr join i v src e = ground arith

choose-Ends : (p : Proxy) (c a i : ℕ) → Ends (choose p c a i)
unfolding choose
choose-Ends p c a i e = elim (Run-cases (deref p.devices c)) [
  | inr (x, d) ↦ ground (arith, deref-Ends p.devices c)
  | inl (curr, d) ↦ elim (Run-cases (deref p.devices a)) [
    | inr (x, j) ↦ ground (arith, deref-Ends p.devices a)
    | inl (join, j) ↦ elim (Option-cases (get_elem? curr.vnode_list i)) [
      | inl f ↦ ground arith
      | inr (index, f) ↦ elim (Run-cases (get_vnode p.vnodes index)) [
        | inr (x, g) ↦ ground (arith, get_vnode-Ends p.vnodes index)
        | inl (none, g) ↦ ground arith
        | inl (some v, g) ↦ elim (Option-cases (get_replica_info v c)) [
          | inl r ↦ ground arith
          | inr (s, r) ↦ elim (Option-cases (get_elem? v.replica_list s)) [
            | inl t ↦ ground arith
            | inr (src, t) ↦ ground (arith, choose_by_replica-Ends p curr join index v src)
          ]
        ]
      ]
    ]
  ]
]

move_vnode-Ends :
    (p : Proxy) (a i : ℕ) (v : Vnode) (s : ℕ) (src : Replica) → Ends (move_vnode p a i v s src)
unfolding move_vnode assign
move_vnode-Ends p a i v s src e = cc

move_loop-Ends :
    (rand : ℕ → ℕ) (fuel : ℕ) (p : Proxy) (c a : ℕ) (n : ℤ) (moved : ℕ) (xs : List ℕ) (k : ℕ)
    → length xs ≤ fuel
    → Ends (move_loop rand fuel p c a n moved xs k)
unfolding move_loop
move_loop-Ends rand fuel p c a n moved [] k h e = ground arith
move_loop-Ends rand zero p c a n moved (x ∷ xs) k h e = absurd (omega arith)
move_loop-Ends rand (suc fuel) p c a n moved (x ∷ xs) k h e =
    let i = rand k % length (x ∷ xs) in
    let lt : i < length (x ∷ xs) = grind arith in
    let less : length (erase_at (x ∷ xs) i) ≤ fuel = omega (arith, length-erase_at (x ∷ xs) i lt) in
    let later = move_loop-Ends rand fuel p c a n moved (erase_at (x ∷ xs) i) (k + 1) less in
    elim (Run-cases (choose p c a i)) [
      | inr (y, f) ↦ ground (arith, choose-Ends p c a i)
      | inl (give_up, f) ↦ ground arith
      | inl (another, f) ↦ ground (arith, later)
      | inl (move index v s src, f) ↦ elim (Run-cases (move_vnode p a index v s src)) [
        | inr (y, g) ↦ ground (arith, move_vnode-Ends p a index v s src)
        | inl ((p', suc code), g) ↦ ground arith
        | inl ((p', zero), g) ↦
            let next =
              move_loop-Ends rand fuel p' c a n (moved + 1) (erase_at (x ∷ xs) i) (k + 1) less in
            elim (Bool-cases (is_positive (n -ℤ pos (moved + 1)))) [
              | inl t ↦ ground (arith, next)
              | inr t ↦ ground arith
            ]
      ]
    ]

move_devices-Ends :
    (rand : ℕ → ℕ) (n : ℕ) (slots : List (Option ℕ)) (p : Proxy) (a : ℕ) (avg : ℤ) (k : ℕ)
    → Ends (move_devices rand n slots p a avg k)
unfolding move_devices
move_devices-Ends rand zero slots p a avg k e = ground arith
move_devices-Ends rand (suc n) [] p a avg k e = ground arith
move_devices-Ends rand (suc n) (none ∷ slots) p a avg k e = ground arith
move_devices-Ends rand (suc n) (some c ∷ slots) p a avg k e = elim (Run-cases (deref p.devices c)) [
  | inr (x, d) ↦ ground (arith, deref-Ends p.devices c)
  | inl (curr, d) ↦
      let xs = curr.vnode_list in
      let move_count = pos (length xs) -ℤ avg *ℤ to_int curr.weight in
      let stay = move_devices-Ends rand n slots p a avg k in
      elim (Run-cases (move_loop rand (length xs) p c a move_count 0 xs k)) [
        | inl ((p', k', zero), f) ↦ ground (arith, stay, move_devices-Ends rand n slots p' a avg k')
        | inl ((p', k', suc code), f) ↦ ground (arith, stay)
        | inr (x, f) ↦
            ground
              (arith, stay, move_loop-Ends rand (length xs) p c a move_count 0 xs k (omega arith))
      ]
]

-- master_do_move_vnode never loops for ever, whatever rand() gives and whatever the proxy holds.
pub master_do_move_vnode-Ends :
    (rand : ℕ → ℕ) (now a : ℕ) (p : Proxy) → Ends (master_do_move_vnode rand now a p)
unfolding master_do_move_vnode get_total_replica_count
master_do_move_vnode-Ends rand now a p e =
    let c = p.container in
    elim (Run-cases (deref p.devices a)) [
      | inr (x, d) ↦ ground (arith, deref-Ends p.devices a)
      | inl (join, d) ↦ elim (Run-cases (total_replicas p.devices c.node_count c.slots 0 (pos 0))) [
        | inr (x, t) ↦ ground (arith, total_replicas-Ends p.devices c.node_count c.slots 0 (pos 0))
        | inl (none, t) ↦ ground arith
        | inl (some (count, weight), t) ↦
            let total = weight +ℤ to_int join.weight in
            elim (Run-cases (div_int count total)) [
              | inr (x, q) ↦ ground (arith, div_int-Ends count total)
              | inl (avg, q) ↦ elim (Run-cases (move_devices rand c.node_count c.slots p a avg 0)) [
                | inr (x, f) ↦ ground (arith, move_devices-Ends rand c.node_count c.slots p a avg 0)
                | inl ((p', zero), f) ↦ ground (arith, enter-Ends now a p')
                | inl ((p', suc code), f) ↦ ground arith
              ]
            ]
      ]
    ]
