-- ===== src/Proxy.antt =====
-- The state of a proxy node: src/proxynode/proxy_global.h, node_container.h and
-- node_container.cpp. The device_info objects lie in a heap; CDeviceContainer is an array of
-- pointers to them, CVnodeContainer an array of vnodes that its constructor fills.
pub mod Zones
pub mod Container
pub mod Termination
pub mod Sample
mod Tests
use kunlun.Prelude.Run.{Run, ret, fault, out_of_bounds, null_deref, ◌>>=◌, or_fault}
use kunlun.Node.{Device, Devices, Vnode, destroy_replica_info}
use kunlun.Prelude.{
  ℕ, zero, suc, ◌+◌, ◌-◌, ◌*◌, ◌/◌, List, [], ◌∷◌, ◌++◌, Bool, true, false, ◌&&◌, Option, none,
  some, length, get_elem?, set, replicate, leb, ltb, ◌==◌, if◌then◌else◌,
}

-- m_pnode_container, m_node_count, m_container_size. A slot is NULL or an address.
pub record DeviceContainer : Type 0 where
  pub slots : List (Option ℕ)
  pub node_count : ℕ
  pub container_size : ℕ

pub record Proxy : Type 0 where
  pub devices : Devices
  pub container : DeviceContainer
  pub vnodes : List Vnode
  pub replica_count : ℕ
  pub is_master : Bool

-- KL_PROXY_CONTAINER_SIZE
abbrev pub container_step : ℕ
container_step = 100

-- The array after CDeviceContainer::CDeviceContainer.
pub empty_container : DeviceContainer
empty_container = record {
  slots = replicate container_step none;
  node_count = 0;
  container_size = container_step;
}

-- m_pnode_container[m_node_count++] = pdevice_info
pub store_node : DeviceContainer → ℕ → Run DeviceContainer
store_node c a =
    if ltb c.node_count (length c.slots)
    then ret (record c { slots = set c.slots c.node_count (some a); node_count = c.node_count + 1 })
    else fault out_of_bounds

-- The branch of add_node that makes room. realloc is asked for m_container_size + 100 bytes, and
-- memset clears 100 bytes from the old end of the array of 8-byte pointers.
pub grow : DeviceContainer → Run DeviceContainer
grow c =
    let bytes = c.container_size + container_step in
    if ltb bytes (c.container_size * 8 + container_step)
    then fault out_of_bounds
    else ret (record c { slots = replicate (bytes / 8) none; container_size = bytes })

pub add_node : DeviceContainer → ℕ → Run DeviceContainer
unfolding store_node grow
add_node c a =
    if c.node_count == c.container_size then (do c' ← grow c; store_node c' a) else store_node c a

abbrev pub update : Devices → ℕ → Option Device → Devices
update ds a d b = if b == a then d else ds b

-- The use of a pointer to a device.
unfoldable pub deref : Devices → ℕ → Run Device
deref ds a = or_fault (ds a) null_deref

-- memcmp of two buffers
unfoldable pub same_bytes : List ℕ → List ℕ → Bool
same_bytes [] [] = true
same_bytes (x ∷ xs) (y ∷ ys) = x == y && same_bytes xs ys
same_bytes _ _ = false

-- node_diff_cmp returns 0.
pub same_node : List ℕ → ℕ → Device → Bool
unfolding same_bytes
same_node ip port d = same_bytes ip d.bind_ip && port == d.nbind_port

-- The loop of get_node_by_addr over the slots below m_node_count.
pub find_node : Devices → List ℕ → ℕ → ℕ → List (Option ℕ) → Run (Option ℕ)
find_node ds ip port zero slots = ret none
find_node ds ip port (suc n) [] = fault out_of_bounds
find_node ds ip port (suc n) (none ∷ slots) = fault null_deref
find_node ds ip port (suc n) (some a ∷ slots) =
    let rest = find_node ds ip port n slots in
    elim (ds a) [
      | none ↦ fault null_deref
      | some d ↦ if same_node ip port d then ret (some a) else rest
    ]

-- KL_COMMON_IP_ADDR_LEN
abbrev pub ip_addr_len : ℕ
ip_addr_len = 16

-- memset of the 16 bytes of bind_ip and strcpy of a string into them.
pub padded_ip : List ℕ → Run (List ℕ)
padded_ip ip =
    if ltb (length ip) ip_addr_len
    then ret (ip ++ replicate (ip_addr_len - length ip) 0)
    else fault out_of_bounds

pub get_node_by_addr : Proxy → List ℕ → ℕ → Run (Option ℕ)
unfolding padded_ip find_node
get_node_by_addr p ip port = do
  dest ← padded_ip ip
  find_node p.devices dest port p.container.node_count p.container.slots

-- CVnodeContainer::get_vnode. A vnode under another id counts as NULL.
pub get_vnode : List Vnode → ℕ → Run (Option Vnode)
get_vnode vs index = elim (get_elem? vs index) [
  | none ↦ fault out_of_bounds
  | some v ↦ ret (if v.vnode_id == index then some v else none)
]

-- The vnodes that the constructor and initilize make.
pub init_vnodes : ℕ → ℕ → List Vnode
init_vnodes zero i = []
init_vnodes (suc n) i =
    record { vnode_id = i; version = 0; wr_req_robin = 0; rd_req_robin = 0; replica_list = [] }
    ∷ init_vnodes n (i + 1)

-- The loop of destroy_all_replicas_info over the vnode_list from its back, here the list reversed.
unfoldable pub destroy_replicas : ℕ → List ℕ → List Vnode → Run (List Vnode)
destroy_replicas a [] vs = ret vs
destroy_replicas a (i ∷ is) vs = do
  found ← get_vnode vs i
  v ← or_fault found null_deref
  destroy_replicas a is (set vs i (destroy_replica_info v a))
