-- ===== src/Mover/Tests.antt =====
-- master_do_move_vnode of src/proxynode/vnode_balancer.cpp on a small proxy.
use kunlun.Prelude.Run.{Ends, ret, fault, null_deref, Fault}
use kunlun.Node.{Vnode, Replica}
use kunlun.Prelude.{ℕ, ◌≡◌, ◌⊎◌}
use kunlun.Proxy.{Proxy}
use kunlun.Proxy.Sample.{proxy}
use kunlun.Mover.{move_vnode, master_do_move_vnode}
use kunlun.Mover.Termination.{master_do_move_vnode-Ends}
use kunlun.Mover.Barren.{Barren, master_do_move_vnode-Barren}

-- A generator of random numbers that always gives 7.
abbrev sevens : ℕ → ℕ
sevens k = 7

master_do_move_vnode-Barren_example :
    ((i : ℕ) (v : Vnode) (s : ℕ) (src : Replica) → move_vnode proxy 1 i v s src ≡ fault null_deref)
    × (((r : Proxy × ℕ) × (master_do_move_vnode sevens 1000 1 proxy ≡ ret r)
          × (Barren 1000 1 proxy r.0 r.1 × (r.0.vnodes ≡ proxy.vnodes)))
        ⊎ ((x : Fault) × (master_do_move_vnode sevens 1000 1 proxy ≡ fault x)))
master_do_move_vnode-Barren_example = master_do_move_vnode-Barren sevens 1000 1 proxy

master_do_move_vnode-Ends_example : Ends (master_do_move_vnode sevens 1000 1 proxy)
master_do_move_vnode-Ends_example = master_do_move_vnode-Ends sevens 1000 1 proxy
