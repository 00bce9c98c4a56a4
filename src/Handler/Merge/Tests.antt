-- ===== src/Handler/Merge/Tests.antt =====
-- master_do_device_merge of src/proxynode/proxy_msg_parser.cpp on small proxies.
use kunlun.Prelude.Run.{ret}
use kunlun.Protocol.{VnodeReport}
use kunlun.Node.{Vnode, Replica, get_replica_info, erase_index}
use kunlun.Node.Status
use kunlun.Node.Zones.{zone_at, IsSound}
use kunlun.Proxy.{Proxy}
use kunlun.Proxy.Zones.{Inv}
use kunlun.Proxy.Sample.{device, heap}
use kunlun.Handler.Merge.{Merge, merge_report, zero_resp}
use kunlun.Handler.Merge.Told.{Told, HasStatus, merge_report-Told}
use kunlun.Handler.Merge.SelfSync.{merge_report-self_sync}
use kunlun.Prelude.{zero, suc, ◌≡◌, refl, [], ◌∷◌, none, some, true}
use mathlib.Core.Path.{subst}
use mathlib.Core.Option.{some-injective}

-- Vnode 0 at version 5: device 0 has it, and device 1 is ONLINE.
abbrev lagging : Replica
lagging = record { replica_status = Status.online; preplica = 1 }

abbrev source : Replica
source = record { replica_status = Status.active; preplica = 0 }

abbrev shared : Vnode
shared = record {
  vnode_id = 0;
  version = 5;
  wr_req_robin = 0;
  rd_req_robin = 0;
  replica_list = source ∷ lagging ∷ [];
}

abbrev alone : Vnode
alone = record {
  vnode_id = 0;
  version = 5;
  wr_req_robin = 0;
  rd_req_robin = 0;
  replica_list = source ∷ [];
}

abbrev with_vnode : Vnode → Proxy
with_vnode v = record {
  devices = heap;
  container = record { slots = some 0 ∷ some 1 ∷ none ∷ []; node_count = 2; container_size = 3 };
  vnodes = v ∷ [];
  replica_count = 2;
  is_master = true;
}

shared-Inv : Inv (with_vnode shared)
shared-Inv zero v e = subst (IsSound (zone_at heap) 0) (some-injective _ _ e) (record {
  own_id = refl;
  zones_apart = ((1, refl, ((2, refl, λ q. cc q), tt)), ((2, refl, tt), tt));
})
shared-Inv (suc i) v e = cc

alone-Inv : Inv (with_vnode alone)
alone-Inv zero v e =
    subst (IsSound (zone_at heap) 0) (some-injective _ _ e)
      (record { own_id = refl; zones_apart = ((1, refl, tt), tt) })
alone-Inv (suc i) v e = cc

-- The device is at version 3.
abbrev behind : VnodeReport
behind = record { vnode_id = 0; vnode_version = 3; vnode_status = Status.online }

abbrev start : Vnode → Merge
start v = record { proxy = with_vnode v; resp = zero_resp; answers = []; left = 0 ∷ [] }

merge_report-Told_example :
    (m' : Merge) × (merge_report 1 behind (start shared) ≡ ret (m', 0)) × Told 1 0 (start shared) m'
unfolding get_replica_info erase_index
merge_report-Told_example =
    merge_report-Told 1 behind shared 1 lagging [] (start shared) shared-Inv refl refl refl
      (λ e. cc e) refl

merge_report-self_sync_example :
    (m' : Merge) × (merge_report 0 behind (start alone) ≡ ret (m', 0))
    × (m'.answers ≡ record zero_resp { vnode_id = 0; vnode_status = Status.wait_sync } ∷ [])
    × HasStatus m'.proxy.vnodes 0 0 Status.copy_src
    × (m'.proxy.devices 0
        ≡ some (record (device 1) {
          sync_list = record { src_vnode_index = 0; pdest_node = some 0 } ∷ [];
        }))
unfolding get_replica_info erase_index
merge_report-self_sync_example =
    merge_report-self_sync 0 behind alone source (device 1) [] (start alone) alone-Inv refl refl
      refl refl refl refl refl
