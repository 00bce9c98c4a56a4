-- ===== src/Proxy/Sample.antt =====
-- A small proxy of src/proxynode for tests: vnode 0 has an active replica in zone 1, vnode 1 has no
-- replica, and there is a device in every zone.
use kunlun.Prelude.{ℕ, ◌+◌, refl, [], ◌∷◌, none, some, replicate, true, zero, suc}
use kunlun.Node.Status
use kunlun.Node.{Device, Devices, Vnode}
use kunlun.Node.Zones.{zone_at, IsSound}
use kunlun.Proxy.{Proxy}
use kunlun.Proxy.Zones.{Inv}
use mathlib.Core.Path.{subst}
use mathlib.Core.Option.{some-injective}

abbrev pub device : ℕ → Device
device zone = record {
  device_id = zone;
  zone_id = zone;
  weight = 1;
  bind_ip = replicate 16 0;
  nbind_port = 80;
  last_update_time = 0;
  vnode_list = [];
  sync_list = [];
  syncing_list = [];
}

-- The device at address n lies in zone n + 1.
abbrev pub heap : Devices
heap n = some (device (n + 1))

abbrev pub first : Vnode
first = record {
  vnode_id = 0;
  version = 0;
  wr_req_robin = 0;
  rd_req_robin = 0;
  replica_list = record { replica_status = Status.active; preplica = 0 } ∷ [];
}

abbrev pub second : Vnode
second = record { vnode_id = 1; version = 0; wr_req_robin = 0; rd_req_robin = 0; replica_list = [] }

abbrev pub proxy : Proxy
proxy = record {
  devices = heap;
  container = record { slots = some 0 ∷ none ∷ none ∷ []; node_count = 1; container_size = 3 };
  vnodes = first ∷ second ∷ [];
  replica_count = 2;
  is_master = true;
}

first-IsSound : IsSound (zone_at heap) 0 first
first-IsSound = record { own_id = refl; zones_apart = ((1, refl, tt), tt) }

second-IsSound : IsSound (zone_at heap) 1 second
second-IsSound = record { own_id = refl; zones_apart = tt }

pub proxy-Inv : Inv proxy
proxy-Inv zero v e = subst (IsSound (zone_at heap) 0) (some-injective _ _ e) first-IsSound
proxy-Inv (suc zero) v e = subst (IsSound (zone_at heap) 1) (some-injective _ _ e) second-IsSound
proxy-Inv (suc (suc i)) v e = cc
