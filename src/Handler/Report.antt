-- ===== src/Handler/Report.antt =====
-- msg_device_report_handle and slaver_do_device_merge of src/proxynode/proxy_msg_parser.cpp: a
-- storage node reports the vnodes that it holds.
pub mod Reporting
pub mod Forgotten
mod Tests
use kunlun.Prelude.Run.{Run, ret, out_of_bounds, null_deref, ◌>>=◌, or_fault}
use kunlun.Serializer.{buff2int32}
use kunlun.Protocol.{VnodeReport, VnodeResp, get_report, vnode_report_size, storage_info_size}
use kunlun.Node.{Device, Replica, Vnode, get_replica_info, erase_index}
use kunlun.Proxy.{Proxy, deref, get_node_by_addr, same_bytes, destroy_replicas}
use kunlun.Balancer.{minus_one, set_status}
use kunlun.Handler.{Message, Stream, read_string, response_header}
use kunlun.Handler.Address.{Reply, silent, vnode_at, put_vnode}
use kunlun.Handler.Join.{any_ip, put_device}
use kunlun.Handler.Merge.{own_replica, master_do_device_merge}
use kunlun.Prelude.{
  ℕ, zero, suc, ◌+◌, ◌-◌, ◌/◌, ◌%◌, ◌^◌, List, [], ◌∷◌, ◌++◌, Option, none, some, not, take, drop,
  ltb, ◌==◌, if◌then◌else◌, low_bits,
}

-- A round of the loop of slaver_do_device_merge. The pair has the device_vnode_list that is left.
pub slave_report : ℕ → VnodeReport → Proxy × List ℕ → Run (Proxy × List ℕ)
slave_report a unit (p, left) = do
  found ← vnode_at p unit.vnode_id
  let v = record found { version = unit.vnode_version }
  elim (erase_index unit.vnode_id left) [
    | none ↦ (do
      d ← deref p.devices a
      let p' = put_device p a (some (record d { vnode_list = d.vnode_list ++ unit.vnode_id ∷ [] }))
      ret (
        put_vnode p' unit.vnode_id (record v {
          replica_list =
              v.replica_list ++ record { replica_status = unit.vnode_status; preplica = a } ∷ [];
        }),
        left,
      ))
    | some left' ↦ (do
      (i, own) ← own_replica v a
      ret (put_vnode p unit.vnode_id (set_status v i own unit.vnode_status), left'))
  ]

-- The rounds left of that loop.
pub slave_reports : ℕ → ℕ → List ℕ → Proxy × List ℕ → Run (Proxy × List ℕ)
slave_reports zero a bytes m = ret m
slave_reports (suc n) a bytes m = do
  unit ← or_fault (get_report bytes) out_of_bounds
  m' ← slave_report a unit m
  slave_reports n a (drop vnode_report_size bytes) m'

-- slaver_do_device_merge, for `count` units at the head of a buffer.
pub slaver_do_device_merge : ℕ → List ℕ → ℕ → Proxy → Run Proxy
slaver_do_device_merge a bytes count p = do
  d ← deref p.devices a
  (p', left) ← slave_reports count a bytes (p, d.vnode_list)
  vs ← destroy_replicas a left p'.vnodes
  ret (record p' { vnodes = vs })

-- pkg_len - sizeof(storage_info) - 2, which is unsigned.
unfoldable pub report_bytes : Message → ℕ
report_bytes msg = (msg.pkg_len + 2 ^ 64 - storage_info_size - 2) % 2 ^ 64

-- vnode_count, an int; the loops run for no negative count.
unfoldable pub report_count : Message → ℕ
report_count msg =
    let n = low_bits (report_bytes msg / vnode_report_size) 32 in if ltb n (2 ^ 31) then n else 0

-- The body once the ip of the peer stands in it, if its own was "0.0.0.0"; `peer` is what
-- getpeeraddr and getipaddress leave in that field, or `none` where getpeeraddr fails.
unfoldable pub named_body : Option (List ℕ) → List ℕ → Option (List ℕ)
named_body peer body =
    if same_bytes (take 8 body) any_ip
    then elim peer [ none ↦ none | some ip ↦ some (ip ++ drop 16 body) ]
    else some body

-- The answer that has no body: to an unknown device, and of a slave.
pub plain_reply : Stream → ℕ → Proxy → Reply
plain_reply s code p = record {
  after = p;
  sent = response_header p.is_master 0 code ∷ [];
  code = if s.header_sent == 0 then code else s.header_sent;
}

-- The handler behind the search for the device. The slave reads the units sizeof(pstorage_info)
-- bytes, the size of a pointer, behind the start of the body.
pub merge_device : ℕ → VnodeResp → Proxy → Stream → List ℕ → ℕ → Option ℕ → Run Reply
merge_device now stale p s body count none = ret (plain_reply s minus_one p)
merge_device now stale p s body count (some a) = do
  d ← deref p.devices a
  let p' = put_device p a (some (record d { last_update_time = now }))
  if p'.is_master
      then master_do_device_merge stale a (drop storage_info_size body) count p' s
      else (do q ← slaver_do_device_merge a (drop 8 body) count p'; ret (plain_reply s 0 q))

unfoldable pub msg_device_report_handle :
    ℕ → VnodeResp → Option (List ℕ) → Proxy → Stream → Message → Run Reply
msg_device_report_handle now stale peer p s msg =
    if not (report_bytes msg % vnode_report_size == 0)
    then ret (silent p minus_one)
    else (if not (s.open_error == 0)
        then ret (silent p s.open_error)
        else elim (named_body peer msg.body) [
          | none ↦ ret (silent p minus_one)
          | some body ↦ (do
            ip ← read_string body
            port ← or_fault (buff2int32 (drop 16 body)) out_of_bounds
            found ← get_node_by_addr p ip port
            merge_device now stale p s body (report_count msg) found)
        ])
