-- ===== src/Storage/BeatHeart.antt =====
-- CThreadBeatHeart of src/storagenode/thread_beat_heart.cpp: a storage node joins, reports its vnodes
-- and does what the proxy answers. Locks and allocations succeed.
pub mod Following
pub mod Wire
pub mod Answered
use kunlun.Prelude.Run.{Run, ret, fault, no_return, out_of_bounds, null_deref, ◌>>=◌, or_fault}
use kunlun.Serializer.{int2buff, long2buff}
use kunlun.Protocol.{
  VnodeResp, VnodeReport, put_report, get_resp, storage_info_size, vnode_report_size,
  vnode_resp_size,
}
use kunlun.NameSpace.{einval}
use kunlun.Node.Status
use kunlun.Balancer.{minus_one}
use kunlun.Storage.{
  StorageVnode, Part, Outcome, at, get_vnode, set_vnode_status, add_vnode, delete_vnode,
  get_vnode_count,
}
use kunlun.Prelude.{
  ℕ, zero, suc, ◌+◌, ◌-◌, ◌*◌, ◌/◌, ◌%◌, ◌^◌, List, [], ◌∷◌, ◌++◌, Bool, true, false, not, ◌||◌,
  ◌&&◌, Option, none, some, length, drop, ltb, ◌==◌, if◌then◌else◌, low_bits,
}

-- g_storage_bind_ip, g_nstorage_bind_port, g_nstorage_zone_id and g_nstorage_weight
pub record Globals : Type 0 where
  pub bind_ip : List ℕ
  pub bind_port : ℕ
  pub zone_id : ℕ
  pub weight : ℕ

-- A storage_sync_event that is pushed to a queue of the threads that send vnodes.
pub record SyncMessage : Type 0 where
  pub vnode_id : ℕ
  pub sync_dest_port : ℕ
  pub sync_dest_ip : List ℕ

-- The vnode container, what has been pushed to m_psync_msg_queue, and g_sync_down_queue.
pub record Node : Type 0 where
  pub vnodes : List StorageVnode
  pub sync_msgs : List SyncMessage
  pub sync_down : List ℕ

-- A pkg_header of a request; the commands are KL_PROXY_CMD_DEVICE_JOIN, _BEAT_HEART and _SYNC_DOWN.
pub request_header : ℕ → ℕ → List ℕ
request_header cmd len = long2buff len ++ cmd ∷ 0 ∷ []

-- What comes back: the error of receiving the header, its fields, the error of receiving the body.
pub record Answer : Type 0 where
  pub header_error : ℕ
  pub len : ℕ
  pub cmd : ℕ
  pub status : ℕ
  pub body_error : ℕ
  pub body : List ℕ

-- What stream_send returns for the header and for the body.
pub record Sends : Type 0 where
  pub header_sent : ℕ
  pub body_sent : ℕ

-- The device_join_body of join_and_report.
pub join_request : Globals → List ℕ
join_request g = g.bind_ip ++ (int2buff g.bind_port ++ (int2buff g.zone_id ++ int2buff g.weight))

-- The result of join_and_report.
pub join_and_report : Sends → Answer → ℕ
join_and_report s r =
    if not (s.header_sent == 0)
    then s.header_sent
    else (if not (s.body_sent == 0)
        then s.body_sent
        else (if not (r.header_error == 0)
            then r.header_error
            else (if not (r.len == 0) || not (r.cmd == 3) || not (r.status == 0)
                then minus_one
                else 0)))

unfoldable pub report_unit : StorageVnode → VnodeReport
report_unit v = record {
  vnode_id = v.vnode_id;
  vnode_version = v.vnode_version;
  vnode_status = v.vnode_status;
}

-- The rounds left of the loop of report_vnode_info; `curr` is vnode_curr.
pub report_units : ℕ → ℕ → List StorageVnode → Run (List ℕ)
report_units zero curr vs = ret []
report_units (suc n) curr vs = do
  v ← or_fault (at vs curr) null_deref
  rest ← report_units n (curr + 1) vs
  ret (put_report (report_unit v) ++ rest)

-- The storage_info at the head of a body.
pub own_info : Globals → List ℕ
own_info g = g.bind_ip ++ int2buff g.bind_port

-- The body of a report.
pub report_body : Globals → List StorageVnode → Run (List ℕ)
report_body g vs = do units ← report_units (get_vnode_count vs) 0 vs; ret (own_info g ++ units)

-- report_vnode_info: the buffers handed to stream_send, and the result.
pub report_vnode_info : Globals → Sends → List StorageVnode → Run (List (List ℕ) × ℕ)
report_vnode_info g s vs = do
  body ← report_body g vs
  let header = request_header 2 (length body)
  ret (
      if s.header_sent == 0
      then (header ∷ body ∷ [], s.body_sent)
      else (header ∷ [], s.header_sent))

-- The vnode container after merge_vnode_status, and its result.
pub merge_vnode_status : (Part → Outcome) → ℕ → ℕ → List StorageVnode → List StorageVnode × ℕ
merge_vnode_status disk id status vs =
    if status == Status.offline then (delete_vnode vs id, 0) else elim (get_vnode vs id) [
      | some v ↦ (set_vnode_status vs id status, 0)
      | none ↦
          add_vnode disk vs
            (some (record { vnode_id = id; vnode_status = status; vnode_version = 0 }))
    ]

-- A round of the loop over the units of an answer, and its result code.
pub follow_unit : (ℕ → Part → Outcome) → VnodeResp → Node → Node × ℕ
follow_unit disk unit node =
    let (vs, code) =
      merge_vnode_status (disk unit.vnode_id) unit.vnode_id unit.vnode_status node.vnodes in
    let merged = record node { vnodes = vs } in
    if not (code == 0)
    then (merged, code)
    else (if unit.vnode_status == Status.copy_src || unit.vnode_status == Status.move_src
        then (
          record merged {
            sync_msgs =
                merged.sync_msgs
                ++ record {
                  vnode_id = unit.vnode_id;
                  sync_dest_port = unit.sync_dest_port;
                  sync_dest_ip = unit.sync_dest_ip;
                }
                  ∷ [];
          },
          0,
        )
        else (merged, 0))

-- The rounds left of that loop.
pub follow_units : (ℕ → Part → Outcome) → ℕ → List ℕ → Node → Run (Node × ℕ)
follow_units disk zero bytes node = ret (node, 0)
follow_units disk (suc n) bytes node = do
  unit ← or_fault (get_resp bytes) out_of_bounds
  let (node', code) = follow_unit disk unit node
  let rest = follow_units disk n (drop vnode_resp_size bytes) node'
  if code == 0 then rest else ret (node', code)

-- vnode_count, an int.
pub answer_count : ℕ → ℕ
answer_count len = let n = low_bits (len / vnode_resp_size) 32 in if ltb n (2 ^ 31) then n else 0

-- The body of report_sync_down_info; the units are vnode ids.
pub down_units : List ℕ → List ℕ
down_units [] = []
down_units (id ∷ ids) = int2buff id ++ down_units ids

pub down_body : Globals → List ℕ → List ℕ
down_body g ids = own_info g ++ down_units ids

-- What a call of report_sync_down_info does: the buffers handed to stream_send, whether it deletes the
-- stream of its caller, and its result; `none` where it ends without a return.
pub record DownReport : Type 0 where
  pub sent : List (List ℕ)
  pub deleted : Bool
  pub result : Option ℕ

-- report_sync_down_info, over the vnode ids of g_sync_down_queue, which is empty afterwards.
pub report_sync_down_info : Globals → Sends → Answer → List ℕ → DownReport
report_sync_down_info g s r ids =
    let body = down_body g ids in
    let header = request_header 5 (length body) in
    let failed : List (List ℕ) → ℕ → DownReport =
      λ sent code. record { sent = sent; deleted = true; result = some code } in
    if not (s.header_sent == 0)
    then failed (header ∷ []) s.header_sent
    else (if not (s.body_sent == 0)
        then failed (header ∷ body ∷ []) s.body_sent
        else (if not (r.header_error == 0)
            then failed (header ∷ body ∷ []) r.header_error
            else (if not (r.status == 0)
                then failed (header ∷ body ∷ []) einval
                else record { sent = header ∷ body ∷ []; deleted = false; result = none })))

-- `delete preport_stream` in do_err, for a stream that is deleted already or not.
pub delete_stream : Bool → Run Bool
delete_stream true = fault null_deref
delete_stream false = ret true

-- The node behind a pass of the loop of run, the buffers that were handed to stream_send, and the code
-- with which run ends, or 0 where it goes on.
pub record Passed : Type 0 where
  pub after : Node
  pub sent : List (List ℕ)
  pub code : ℕ

-- The end of a pass of the loop of run.
pub end_pass : Globals → Bool → Sends → Answer → Node → Run Passed
end_pass g is_first s r node =
    if is_first && not (length node.sync_down == 0)
    then (do
      let d = report_sync_down_info g s r node.sync_down
      let node' = record node { sync_down = [] }
      code ← or_fault d.result no_return
      if code == 0 then ret (record { after = node'; sent = d.sent; code = 0 }) else (do
        gone ← delete_stream d.deleted
        ret (record { after = node'; sent = d.sent; code = code })))
    else ret (record { after = node; sent = []; code = 0 })

-- A pass of the loop of run, behind the sleep: the report, the answer to it, and the end with the
-- sends and the answer of report_sync_down_info.
pub beat :
    (ℕ → Part → Outcome) → Globals → Bool → Sends → Answer → Sends → Answer → Node → Run Passed
beat disk g is_first s r s' r' node = do
  (sent, code) ← report_vnode_info g s node.vnodes
  let stays : ℕ → Passed = λ code'. record { after = node; sent = sent; code = code' }
  if not (code == 0)
      then ret (stays code)
      else (if not (r.header_error == 0)
          then ret (stays r.header_error)
          else (if not (r.status == 0)
              then ret (stays minus_one)
              else (if r.len == 0
                  then ret (stays 0)
                  else (if r.cmd == 4 || not (r.len % vnode_resp_size == 0)
                      then ret (stays minus_one)
                      else (if not (r.body_error == 0) then ret (stays r.body_error) else (do
                        (node', code') ← follow_units disk (answer_count r.len) r.body node
                        if code' == 0
                            then (do
                              e ← end_pass g is_first s' r' node'
                              ret (record e { sent = sent ++ e.sent }))
                            else ret (record { after = node'; sent = sent; code = code' })))))))
