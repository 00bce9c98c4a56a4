-- ===== src/Handler/Tests.antt =====
-- The handlers of src/proxynode/proxy_msg_parser.cpp on a small proxy.
use kunlun.Prelude.Run.{ret, fault, Fault}
use kunlun.Prelude.{◌≡◌, ◌⊎◌, [], ◌∷◌, false}
use kunlun.NameSpace.{NameSpace}
use kunlun.Proxy.Sample.{proxy}
use kunlun.Handler.{Message, Stream}
use kunlun.Handler.Address.{Reply, address_reply}
use kunlun.Handler.Address.Writing.{Refused, write_address-Refused}

-- The name space of the two vnodes of the proxy.
abbrev space : NameSpace
space = record { name_power = 4; vnode_count = 2 }

abbrev stream : Stream
stream = record { open_error = 0; header_sent = 0; body_sent = 0 }

-- "/a" and a zero byte, at the head of a file_info.
abbrev message : Message
message = record { pkg_len = 258; body = 47 ∷ 97 ∷ 0 ∷ 3 ∷ [] }

write_address-Refused_example :
    ((r : Reply) × (address_reply proxy stream false 0 ≡ ret r) × Refused proxy r)
    ⊎ ((x : Fault) × (address_reply proxy stream false 0 ≡ fault x))
write_address-Refused_example = write_address-Refused proxy stream 0
