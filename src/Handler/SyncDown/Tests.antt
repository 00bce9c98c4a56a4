-- ===== src/Handler/SyncDown/Tests.antt =====
-- msg_sync_down_handle of src/proxynode/proxy_msg_parser.cpp on a small proxy: the device at address
-- 0 has sent vnode 0 to the device at address 1.
use kunlun.Prelude.Run.{ret, fault, Fault, null_deref}
use kunlun.Prelude.{
  zero, suc, ◌≡◌, ◌⊎◌, refl, [], ◌∷◌, ◌++◌, none, some, true, replicate, ◌==◌, if◌then◌else◌,
}
use kunlun.Node.Status
use kunlun.Node.{Devices, Vnode}
use kunlun.Node.Zones.{zone_at, IsSound}
use kunlun.Proxy.{Proxy, deref}
use kunlun.Proxy.Zones.{Inv}
use kunlun.Proxy.Container.{get_vnode-some}
use kunlun.Proxy.Sample.{device, second}
use kunlun.Handler.{Message, Stream}
use kunlun.Handler.Address.{Reply}
use kunlun.Handler.SyncDown.{sync_vnode, msg_sync_down_handle}
use kunlun.Handler.SyncDown.Ending.{msg_sync_down_handle-Inv, sync_vnode-NotSyncing}
use mathlib.Core.Path.{subst}
use mathlib.Core.Option.{some-injective}

abbrev heap : Devices
heap n =
    if n == 0
    then some (record (device 1) {
      syncing_list = record { src_vnode_index = 0; pdest_node = some 1 } ∷ [];
    })
    else some (device 2)

abbrev copied : Vnode
copied = record {
  vnode_id = 0;
  version = 0;
  wr_req_robin = 0;
  rd_req_robin = 0;
  replica_list =
      record { replica_status = Status.copy_src; preplica = 0 }
      ∷ record { replica_status = Status.wait_sync; preplica = 1 }
      ∷ [];
}

abbrev proxy : Proxy
proxy = record {
  devices = heap;
  container = record { slots = some 0 ∷ some 1 ∷ none ∷ []; node_count = 2; container_size = 3 };
  vnodes = copied ∷ second ∷ [];
  replica_count = 2;
  is_master = true;
}

proxy-Inv : Inv proxy
proxy-Inv zero v e = subst (IsSound (zone_at heap) 0) (some-injective _ _ e) (record {
  own_id = refl;
  zones_apart = ((1, refl, ((2, refl, λ q. cc q), tt)), ((2, refl, tt), tt));
})
proxy-Inv (suc zero) v e =
    subst (IsSound (zone_at heap) 1) (some-injective _ _ e)
      (record { own_id = refl; zones_apart = tt })
proxy-Inv (suc (suc i)) v e = cc

abbrev stream : Stream
stream = record { open_error = 0; header_sent = 0; body_sent = 0 }

-- The address and the port of the device, and the id of vnode 0.
abbrev message : Message
message = record { pkg_len = 26; body = replicate 16 0 ++ 0 ∷ 0 ∷ 0 ∷ 80 ∷ 0 ∷ 0 ∷ 0 ∷ 0 ∷ [] }

msg_sync_down_handle-Inv_example :
    ((r : Reply) × (msg_sync_down_handle [] proxy stream message ≡ ret r) × Inv r.after)
    ⊎ ((x : Fault) × (msg_sync_down_handle [] proxy stream message ≡ fault x))
msg_sync_down_handle-Inv_example = msg_sync_down_handle-Inv [] proxy stream message proxy-Inv

sync_vnode-NotSyncing_test : sync_vnode 1 0 proxy ≡ fault null_deref
unfolding deref
sync_vnode-NotSyncing_test =
    sync_vnode-NotSyncing 1 0 proxy copied (device 2)
      (get_vnode-some proxy.vnodes 0 copied refl refl) refl tt
