-- ===== src/Handler/SyncDown.antt =====
-- msg_sync_down_handle of src/proxynode/proxy_msg_parser.cpp: a storage node reports that it has
-- sent the data of some vnodes to the devices that were to get them.
pub mod Ending
mod Tests
use kunlun.Prelude.Run.{Run, ret, out_of_bounds, null_deref, ◌>>=◌, or_fault}
use kunlun.Serializer.{buff2int32, long2buff}
use kunlun.NameSpace.{einval}
use kunlun.Node.Status
use kunlun.Node.{Device, Replica, Vnode, get_replica_info, destroy_replica_info, pop_syncing_vnode}
use kunlun.Proxy.{Proxy, update, deref, get_vnode, get_node_by_addr, same_bytes}
use kunlun.Balancer.{set_status}
use kunlun.Handler.{Message, Stream, read_string, eacces, response_header}
use kunlun.Protocol.{storage_info_size}
use kunlun.Handler.Address.{Reply, silent}
use kunlun.Handler.Join.{any_ip}
use kunlun.Prelude.{
  ℕ, zero, suc, ◌+◌, ◌-◌, ◌/◌, ◌%◌, ◌^◌, List, [], ◌∷◌, ◌++◌, Option, none, some, true, not, length,
  take, drop, get_elem?, set, ltb, ◌==◌, if◌then◌else◌, low_bits,
}

-- pkg_len - sizeof(storage_info) - 2, which is unsigned.
unfoldable pub sync_bytes : Message → ℕ
sync_bytes msg = (msg.pkg_len + 2 ^ 64 - storage_info_size - 2) % 2 ^ 64

-- vnode_count, an int; the loop runs for no negative count.
unfoldable pub sync_count : Message → ℕ
sync_count msg = let n = low_bits (sync_bytes msg / 4) 32 in if ltb n (2 ^ 31) then n else 0

-- The replica of a vnode on a device that may be NULL.
pub replica_on : Vnode → Option ℕ → Option ℕ
replica_on v none = none
replica_on v (some b) = get_replica_info v b

-- The statements on the two replicas, at places i and j: the destination becomes ACTIVE, the source
-- goes if it was to be moved and becomes ACTIVE if not.
pub end_sync : Vnode → ℕ → ℕ → Run Vnode
end_sync v i j = do
  dest ← or_fault (get_elem? v.replica_list j) out_of_bounds
  let v1 = set_status v j dest Status.active
  src ← or_fault (get_elem? v1.replica_list i) out_of_bounds
  if src.replica_status == Status.move_src
      then ret (destroy_replica_info v1 src.preplica)
      else ret (set_status v1 i src Status.active)

-- A round of the loop for the device at address a.
pub sync_vnode : ℕ → ℕ → Proxy → Run Proxy
sync_vnode a id p = do
  found ← get_vnode p.vnodes id
  v ← or_fault found null_deref
  d ← deref p.devices a
  let (event, d') = pop_syncing_vnode d id
  j ← or_fault (replica_on v event.pdest_node) null_deref
  i ← or_fault (get_replica_info v a) null_deref
  v' ← end_sync v i j
  ret (record p { devices = update p.devices a (some d'); vnodes = set p.vnodes id v' })

-- The loop over the vnode ids of the body.
unfoldable pub sync_vnodes : ℕ → ℕ → List ℕ → Proxy → Run Proxy
sync_vnodes zero a bytes p = ret p
sync_vnodes (suc n) a bytes p = do
  id ← or_fault (buff2int32 bytes) out_of_bounds
  p' ← sync_vnode a id p
  sync_vnodes n a (drop 4 bytes) p'

-- do_resp: the master's command, whoever answers. An error of the loop comes before one of the
-- stream.
pub sync_reply : Stream → ℕ → Proxy → Reply
sync_reply s code p = record {
  after = p;
  sent = response_header true 0 code ∷ [];
  code = if code == 0 then s.header_sent else code;
}

-- The string in the field of the ip, in which the address of the peer stands if it was "0.0.0.0".
pub sync_ip : List ℕ → List ℕ → Run (List ℕ)
sync_ip peer body =
    if same_bytes (take 8 body) any_ip then read_string (peer ++ drop 16 body) else read_string body

pub msg_sync_down_handle : List ℕ → Proxy → Stream → Message → Run Reply
msg_sync_down_handle peer p s msg =
    if not (sync_bytes msg % 4 == 0)
    then ret (silent p einval)
    else (if not (s.open_error == 0) then ret (silent p s.open_error) else (do
      ip ← sync_ip peer msg.body
      port ← or_fault (buff2int32 (drop 16 msg.body)) out_of_bounds
      found ← get_node_by_addr p ip port
      elim found [
        | none ↦ ret (sync_reply s eacces p)
        | some a ↦ (do
          p' ← sync_vnodes (sync_count msg) a (drop storage_info_size msg.body) p
          ret (sync_reply s 0 p'))
      ]))
