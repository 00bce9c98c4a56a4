-- ===== src/Handler/Address.antt =====
-- msg_get_vnode_addr_handle of src/proxynode/proxy_msg_parser.cpp: a client asks which storage
-- nodes hold the vnode of a path.
pub mod Reading
pub mod Writing
pub mod Keeping
use kunlun.Prelude.Run.{Run, ret, fault, out_of_bounds, null_deref, ◌>>=◌, or_fault}
use kunlun.Serializer.{int2buff}
use kunlun.NameSpace.{NameSpace, get_vnode_id, einval}
use kunlun.Node.{
  Device, Replica, Vnode, Pick, picked, no_active, no_replica, wild, get_read_replica,
  get_write_replica,
}
use kunlun.Protocol.{storage_info_size}
use kunlun.Proxy.{Proxy, deref, get_vnode}
use kunlun.Handler.{Message, Stream, response_header, read_string, eacces}
use kunlun.Prelude.{
  ℕ, zero, suc, ◌+◌, ◌-◌, ◌*◌, ◌^◌, List, [], ◌∷◌, ◌++◌, Bool, true, false, not, ◌&&◌, Option, none,
  some, get_elem?, set, ltb, ◌==◌, if◌then◌else◌,
}

-- sizeof(file_info)
abbrev pub file_info_size : ℕ
file_info_size = 256

-- The proxy afterwards, the buffers handed to stream_send, and the result of the handler.
pub record Reply : Type 0 where
  pub after : Proxy
  pub sent : List (List ℕ)
  pub code : ℕ

-- do_err_resp
pub error_reply : Proxy → ℕ → Reply
error_reply p code = record {
  after = p;
  sent = response_header p.is_master 0 code ∷ [];
  code = code;
}

-- do_succ_resp
pub success_reply : Proxy → Stream → ℕ → List ℕ → Reply
success_reply p s len body =
    let header = response_header p.is_master len 0 in
    if s.header_sent == 0
    then record { after = p; sent = header ∷ body ∷ []; code = s.body_sent }
    else record { after = p; sent = header ∷ []; code = s.header_sent }

-- The storage_info of a device: bind_ip and the port.
pub storage_info : Device → List ℕ
storage_info d = d.bind_ip ++ int2buff d.nbind_port

-- preplica_info->preplica, for replica place i of a vnode.
pub replica_device : Proxy → Vnode → ℕ → Run Device
replica_device p v i = do
  r ← or_fault (get_elem? v.replica_list i) out_of_bounds
  deref p.devices r.preplica

-- The vnode that g_pvnode_container->get_vnode(nvnode_id) points to.
unfoldable pub vnode_at : Proxy → ℕ → Run Vnode
vnode_at p id = do found ← get_vnode p.vnodes id; or_fault found null_deref

abbrev pub put_vnode : Proxy → ℕ → Vnode → Proxy
put_vnode p id v = record p { vnodes = set p.vnodes id v }

-- The branch for reading, behind get_read_replica. It writes one storage_info into a buffer with
-- room for m_replica_count of them.
pub read_reply : Proxy → Stream → ℕ → Vnode × Pick → Run Reply
read_reply p s id (v, picked i) = if p.replica_count == 0 then fault out_of_bounds else (do
  d ← replica_device p v i
  ret (success_reply (put_vnode p id v) s (4 + storage_info_size) (int2buff id ++ storage_info d)))
read_reply p s id (v, wild) = fault out_of_bounds
read_reply p s id (v, _) = ret (error_reply (put_vnode p id v) eacces)

-- pstart_replica == preplica_info && i != 0; pstart_replica is unset in round 0.
pub same_start : Option ℕ → ℕ → Bool
same_start none i = false
same_start (some start) i = start == i

-- pstart_replica after the choice of place i.
pub start_of : Option ℕ → ℕ → ℕ
start_of none i = i
start_of (some start) i = start

-- What the loop of the branch for writing ends with: the storage_infos that it has written, or
-- `none` for the jump to do_err_resp.
pub record Gathered : Type 0 where
  pub vnode : Vnode
  pub infos : Option (List (List ℕ))

-- The rounds left of that loop, with pstart_replica and the storage_infos so far.
pub gather : ℕ → Proxy → Option ℕ → List (List ℕ) → Vnode → Run Gathered
gather zero p start infos v = ret (record { vnode = v; infos = some infos })
gather (suc m) p start infos v =
    let (v', pick) = get_write_replica v in
    elim pick [
      | picked i ↦ elim (same_start start i) [
        | true ↦ ret (record { vnode = v'; infos = some infos })
        | false ↦ (do
          d ← replica_device p v' i
          gather m p (some (start_of start i)) (infos ++ storage_info d ∷ []) v')
      ]
      | no_active ↦ ret (record { vnode = v'; infos = none })
      | no_replica ↦ ret (record { vnode = v'; infos = none })
      | wild ↦ fault out_of_bounds
    ]

abbrev concat : List (List ℕ) → List ℕ
concat [] = []
concat (xs ∷ xss) = xs ++ concat xss

abbrev pub count : List (List ℕ) → ℕ
count [] = 0
count (xs ∷ xss) = suc (count xss)

-- The branch for writing, behind its loop.
pub write_reply : Proxy → Stream → ℕ → Gathered → Reply
write_reply p s id g = elim g.infos [
  | none ↦ error_reply (put_vnode p id g.vnode) eacces
  | some infos ↦
      if ltb (count infos) 2
      then error_reply (put_vnode p id g.vnode) eacces
      else success_reply (put_vnode p id g.vnode) s (4 + storage_info_size * count infos)
          (int2buff id ++ concat infos)
]

-- The handler behind get_vnode_id, for a vnode id of no error.
pub address_reply : Proxy → Stream → Bool → ℕ → Run Reply
address_reply p s bread_flag id = do
  v ← vnode_at p id
  if bread_flag
      then read_reply p s id (get_read_replica v)
      else (do g ← gather p.replica_count p none [] v; ret (write_reply p s id g))

-- A handler that returns without an answer.
abbrev pub silent : Proxy → ℕ → Reply
silent p code = record { after = p; sent = []; code = code }

pub msg_get_vnode_addr_handle : NameSpace → Proxy → Stream → Message → Bool → Run Reply
msg_get_vnode_addr_handle ns p s msg bread_flag =
    if not (file_info_size == msg.pkg_len - 2)
    then ret (silent p einval)
    else (if not (s.open_error == 0) then ret (silent p s.open_error) else (do
      path ← read_string msg.body
      id ← get_vnode_id ns path
      if ltb id (2 ^ 31) then address_reply p s bread_flag id else ret (silent p (2 ^ 32 - id))))
