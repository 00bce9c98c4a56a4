-- ===== src/Handler/Join/Tests.antt =====
-- msg_device_join_handle of src/proxynode/proxy_msg_parser.cpp on a small proxy: a device of zone 5
-- joins from the address that the socket has.
use kunlun.Prelude.Run.{ret}
use kunlun.Prelude.{
  ℕ, zero, suc, ◌≡◌, refl, List, [], ◌∷◌, ◌++◌, none, some, true, get_elem?, replicate, arith, ◌==◌,
  if◌then◌else◌,
}
use kunlun.Serializer.{buff2int32}
use kunlun.Node.{Devices, Vnode}
use kunlun.Node.Zones.{zone_at, IsSound}
use kunlun.Proxy.{Proxy, update, same_bytes}
use kunlun.Proxy.Zones.{Inv}
use kunlun.Proxy.Container.{with_node}
use kunlun.Proxy.Sample.{device, first, second}
use kunlun.Balancer.Copy.{Joined}
use kunlun.Handler.{Message, Stream, response_header}
use kunlun.Handler.Address.{Reply}
use kunlun.Handler.Join.{JoinBody, join_body, join_ip, new_device, msg_device_join_handle}
use kunlun.Handler.Join.Joining.{msg_device_join_handle_lem}
use mathlib.Core.Path.{subst}
use mathlib.Core.Option.{some-injective}

abbrev sevens : ℕ → ℕ
sevens k = 7

abbrev stream : Stream
stream = record { open_error = 0; header_sent = 0; body_sent = 0 }

-- "0.0.0.0", port 80, zone 5 and weight 1.
abbrev message : Message
message = record {
  pkg_len = 30;
  body =
      (48 ∷ 46 ∷ 48 ∷ 46 ∷ 48 ∷ 46 ∷ 48 ∷ 0 ∷ 0 ∷ 0 ∷ 0 ∷ 0 ∷ 0 ∷ 0 ∷ 0 ∷ 0 ∷ [])
      ++ 0 ∷ 0 ∷ 0 ∷ 80 ∷ 0 ∷ 0 ∷ 0 ∷ 5 ∷ 0 ∷ 0 ∷ 0 ∷ 1 ∷ [];
}

abbrev peer_ip : List ℕ
peer_ip = 49 ∷ 50 ∷ replicate 14 0

abbrev body : JoinBody
body = record { bind_port = 80; zone_id = 5; weight = 1 }

-- A heap with one device, at address 0.
abbrev heap : Devices
heap n = if n == 0 then some (device 1) else none

abbrev proxy : Proxy
proxy = record {
  devices = heap;
  container = record { slots = some 0 ∷ none ∷ none ∷ []; node_count = 1; container_size = 3 };
  vnodes = first ∷ second ∷ [];
  replica_count = 2;
  is_master = true;
}

proxy-Inv : Inv proxy
proxy-Inv zero v e =
    subst (IsSound (zone_at heap) 0) (some-injective _ _ e)
      (record { own_id = refl; zones_apart = ((1, refl, tt), tt) })
proxy-Inv (suc zero) v e =
    subst (IsSound (zone_at heap) 1) (some-injective _ _ e)
      (record { own_id = refl; zones_apart = tt })
proxy-Inv (suc (suc i)) v e = cc

message-ip : join_ip (some peer_ip) stream message.body ≡ ret (some peer_ip)
unfolding join_ip same_bytes
message-ip = refl

message-body : join_body message.body ≡ ret body
unfolding join_body buff2int32
message-body = refl

msg_device_join_handle_lem_example :
    (r : Reply) × (v' : Vnode) × (msg_device_join_handle sevens 1000 1
        (some peer_ip)
        proxy
        stream
        message
      ≡ ret r)
    × Inv r.after
    × (get_elem? r.after.vnodes 0 ≡ some v')
    × Joined (zone_at (update heap 1 (some (new_device peer_ip body)))) 5 1 first v'
    × (r.after.container ≡ with_node proxy.container 1)
    × (r.sent ≡ response_header r.after.is_master 0 0 ∷ [])
    × (r.code ≡ 0)
msg_device_join_handle_lem_example =
    msg_device_join_handle_lem sevens 1000 1 (some peer_ip) proxy stream message peer_ip body 0
      first refl (omega arith) proxy-Inv
      (record { below_size = omega arith; slots_there = omega arith }) refl refl message-ip
      message-body refl refl
