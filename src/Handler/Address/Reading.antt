-- ===== src/Handler/Address/Reading.antt =====
-- msg_get_vnode_addr_handle of src/proxynode/proxy_msg_parser.cpp, asked for an address to read from.
use kunlun.Prelude.Run.{ret}
use kunlun.Serializer.{int2buff}
use kunlun.NameSpace.{NameSpace}
use kunlun.Node.Status
use kunlun.Node.{Device, Replica, Vnode}
use kunlun.Node.Read.{IdleAt, after_read}
use kunlun.Proxy.{Proxy}
use kunlun.Handler.{Message, Stream, read_string, eacces}
use kunlun.Protocol.{storage_info_size}
use kunlun.Handler.Address.{
  Reply, file_info_size, storage_info, success_reply, error_reply, put_vnode,
}
use kunlun.Prelude.{ℕ, ◌+◌, ◌<◌, ◌≡◌, ◌⊎◌, List, ◌++◌, some, length, get_elem?}

-- The answer to a client that reads vnode `id`, which is v.
abbrev pub Answer : Proxy → Stream → ℕ → Vnode → Reply → Type 0
Answer p s id v r =
    ((i : ℕ) × (src : Replica) × (d : Device) × (get_elem? v.replica_list i ≡ some src)
      × (src.replica_status ≡ Status.active)
      × (p.devices src.preplica ≡ some d)
      × (r
          ≡ success_reply (put_vnode p id (after_read v (i + 1))) s (4 + storage_info_size)
              (int2buff id ++ storage_info d)))
    ⊎ (((i : ℕ) → i < length v.replica_list → IdleAt v.replica_list i)
        × (robin : ℕ) × (r ≡ error_reply (put_vnode p id (after_read v robin)) eacces))

-- A message that asks about a path: 256 bytes of body, with a zero byte in them.
abbrev pub Asks : Message → List ℕ → Type 0
Asks msg path = (msg.pkg_len ≡ file_info_size + 2) × (read_string msg.body ≡ ret path)
