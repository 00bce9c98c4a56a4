-- ===== src/Balancer/Tests.antt =====
-- src/proxynode/vnode_balancer.cpp on a small proxy: the device of zone 2 joins.
use kunlun.Prelude.Run.{ret}
use kunlun.Prelude.{◌≡◌, refl, some, get_elem?, arith}
use kunlun.Node.{Vnode}
use kunlun.Node.Zones.{zone_at}
use kunlun.Proxy.{Proxy}
use kunlun.Proxy.Zones.{Inv}
use kunlun.Proxy.Container.{HasRoom, with_node}
use kunlun.Proxy.Sample.{heap, first, proxy, proxy-Inv}
use kunlun.Balancer.{master_do_copy_vnode}
use kunlun.Balancer.Copy.{Joined}
use kunlun.Balancer.Join.{master_do_copy_vnode_lem}

proxy-HasRoom : HasRoom proxy.container
proxy-HasRoom = record { below_size = omega arith; slots_there = omega arith }

master_do_copy_vnode_lem_example :
    (p' : Proxy) × (v' : Vnode) × (master_do_copy_vnode 1000 1 proxy ≡ ret (p', 0))
    × Inv p'
    × (get_elem? p'.vnodes 0 ≡ some v')
    × Joined (zone_at heap) 2 1 first v'
    × (p'.container ≡ with_node proxy.container 1)
master_do_copy_vnode_lem_example =
    master_do_copy_vnode_lem 1000 1 2 proxy 0 first refl proxy-Inv proxy-HasRoom refl
