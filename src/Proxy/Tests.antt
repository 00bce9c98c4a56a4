-- ===== src/Proxy/Tests.antt =====
-- CDeviceContainer of src/proxynode/node_container.cpp on concrete containers.
use kunlun.Prelude.Run.{fault, out_of_bounds}
use kunlun.Prelude.{◌≡◌, refl, none, replicate, arith}
use kunlun.Proxy.{DeviceContainer, add_node}
use kunlun.Proxy.Container.{add_node_full}

-- A container after 100 devices.
abbrev full : DeviceContainer
full = record { slots = replicate 100 none; node_count = 100; container_size = 100 }

full_container : add_node full 4096 ≡ fault out_of_bounds
full_container = add_node_full full 4096 refl (omega arith)
