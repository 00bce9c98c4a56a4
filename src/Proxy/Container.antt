-- ===== src/Proxy/Container.antt =====
-- CDeviceContainer and CVnodeContainer of src/proxynode/node_container.cpp, where there is room.
use kunlun.Prelude.Run.{ret, fault, out_of_bounds}
use kunlun.Node.{Device, Devices, Vnode}
use kunlun.Proxy.{DeviceContainer, add_node, get_vnode, deref}
use kunlun.Prelude.{ℕ, ◌+◌, ◌≤◌, ◌<◌, ◌≡◌, some, length, get_elem?, List, set, arith}

-- A device is added while the array has a slot for it.
pub record HasRoom (c : DeviceContainer) : Type 0 where
  pub below_size : c.node_count < c.container_size
  pub slots_there : c.container_size ≤ length c.slots

-- The container with one more device.
abbrev pub with_node : DeviceContainer → ℕ → DeviceContainer
with_node c a = record c {
  slots = set c.slots c.node_count (some a);
  node_count = c.node_count + 1;
}

pub add_node_room : (c : DeviceContainer) (a : ℕ) → HasRoom c → add_node c a ≡ ret (with_node c a)
unfolding add_node
add_node_room c a h = ground arith

-- add_node on a full array of m_container_size pointers always writes outside the block that it
-- has asked for: the block has m_container_size + 100 bytes.
pub add_node_full :
    (c : DeviceContainer) (a : ℕ)
    → c.node_count ≡ c.container_size
    → 0 < c.container_size
    → add_node c a ≡ fault out_of_bounds
unfolding add_node
add_node_full c a full h = ground arith

pub get_vnode-some :
    (vs : List Vnode) (i : ℕ) (v : Vnode)
    → get_elem? vs i ≡ some v
    → v.vnode_id ≡ i
    → get_vnode vs i ≡ ret (some v)
unfolding get_vnode
get_vnode-some vs i v e own = ground arith

-- What get_vnode gives is the vnode at that place.
pub get_vnode-get_elem? :
    (vs : List Vnode) (i : ℕ) (v : Vnode) → get_vnode vs i ≡ ret (some v) → get_elem? vs i ≡ some v
unfolding get_vnode
get_vnode-get_elem? vs i v e = ground arith

pub deref-ret : (ds : Devices) (a : ℕ) (d : Device) → deref ds a ≡ ret d → ds a ≡ some d
unfolding deref
deref-ret ds a d e = ground arith
