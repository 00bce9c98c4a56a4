-- ===== src/Proxy/Termination.antt =====
-- The operations of src/proxynode/node_container.cpp end.
use kunlun.Prelude.Run.{Ends}
use kunlun.Node.{Devices, Vnode}
use kunlun.Proxy.{DeviceContainer, deref, get_vnode, add_node}
use kunlun.Prelude.{ℕ, List, arith}

pub deref-Ends : (ds : Devices) (a : ℕ) → Ends (deref ds a)
unfolding deref
deref-Ends ds a e = ground arith

pub get_vnode-Ends : (vs : List Vnode) (i : ℕ) → Ends (get_vnode vs i)
unfolding get_vnode
get_vnode-Ends vs i e = ground arith

pub add_node-Ends : (c : DeviceContainer) (a : ℕ) → Ends (add_node c a)
unfolding add_node
add_node-Ends c a e = ground arith
