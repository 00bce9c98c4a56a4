-- ===== src/Storage/Objects/Relaying.antt =====
-- An upload and its second nodes: msg_upload_file_handle of src/storagenode/storage_msg_parser.cpp.
use kunlun.Prelude.Run.{Run, ret, out_of_bounds, ◌>>=◌, or_fault}
use kunlun.Serializer.{long2buff, buff2int32}
use kunlun.Protocol.{storage_info_size}
use kunlun.NameSpace.{einval}
use kunlun.Handler.{Message, read_string, eacces}
use kunlun.Storage.Files.{Files, FileCalls, stream_readout}
use kunlun.Prelude.{
  ℕ, zero, suc, ◌+◌, ◌-◌, ◌/◌, ◌%◌, ◌^◌, List, [], ◌∷◌, ◌++◌, Bool, false, not, ◌&&◌, drop, ltb,
  ◌==◌, if◌then◌else◌, low_bits,
}
use kunlun.Storage.Objects.{
  upload_info_size, UploadInfo, get_upload, Store, Served, Peer, System, refused, failed_with,
  succeeded, body_len, vnode_error, upload_path, store_object, next_version,
}

-- The second storage node of an upload as the first one meets it: the error of the connection, thrown
-- or returned, or 0; the result of sending the header; the calls on the file and fstat; the error of
-- receiving the answer, and its status.
pub record Second : Type 0 where
  pub connect_error : ℕ
  pub header_sent : ℕ
  pub file : FileCalls
  pub stat_error : ℕ
  pub answer_error : ℕ
  pub answer_status : ℕ

-- The header that a second node gets: KL_STORAGE_CMD_CTRL_STREAM, for an upload_file_info.
abbrev pub relay_header : List ℕ
relay_header = long2buff upload_info_size ++ 13 ∷ 0 ∷ []

-- What a second node gets, and whether it counts for nctrl_stream_count.
unfoldable pub relay : Files → List ℕ → Second → Run (List ℕ × Bool)
relay files path node =
    if not (node.connect_error == 0)
    then ret ([], false)
    else (if not (node.header_sent == 0) then ret (relay_header, false) else (do
      (bytes, code) ← stream_readout files node.file node.stat_error path
      ret (relay_header ++ bytes, code == 0 && node.answer_error == 0 && node.answer_status == 0)))

-- The rounds left of the loop over the storage_infos behind an upload_file_info: the address and the
-- bytes of each second node, and nctrl_stream_count.
unfoldable pub relay_all :
    Files → List ℕ → (ℕ → Second) → ℕ → ℕ → List ℕ → Run (List (List ℕ × ℕ × List ℕ) × ℕ)
relay_all files path nodes zero i infos = ret ([], 0)
relay_all files path nodes (suc n) i infos = do
  port ← or_fault (buff2int32 (drop 16 infos)) out_of_bounds
  ip ← read_string infos
  (bytes, counts) ← relay files path (nodes i)
  (others, count) ← relay_all files path nodes n (i + 1) (drop storage_info_size infos)
  ret ((ip, port, bytes) ∷ others, if counts then count + 1 else count)

-- nsecond_replica_count, an int
unfoldable pub second_count : Message → ℕ
second_count msg =
    let n =
      low_bits (low_bits (body_len msg + 2 ^ 64 - upload_info_size) 64 / storage_info_size) 32 in
    if ltb n (2 ^ 31) then n else 0

-- What an upload leaves behind: its answer, and what the second nodes got.
pub record Uploaded : Type 0 where
  pub served : Served
  pub relayed : List (List ℕ × ℕ × List ℕ)

abbrev pub alone : Served → Uploaded
alone r = record { served = r; relayed = [] }

-- msg_upload_file_handle behind the file: the version is counted up, then the second nodes follow.
unfoldable pub replicate_object : (ℕ → Second) → Store → Peer → Message → ℕ → List ℕ → Run Uploaded
replicate_object nodes s peer msg id path =
    let s' = record s { vnodes = next_version s.vnodes id } in
    let n = second_count msg in
    if ltb n 1 then ret (alone (failed_with s' einval)) else (do
      (others, count) ← relay_all s.files path nodes n 0 (drop upload_info_size msg.body)
      ret (record {
        served = if ltb count 1 then failed_with s' eacces else succeeded s' peer;
        relayed = others;
      }))

-- msg_upload_file_handle behind the tests of the vnode.
unfoldable pub upload_object :
    System → (ℕ → Second) → Store → Peer → Message → UploadInfo → Run Uploaded
upload_object sys nodes s peer msg info =
    let refusal = vnode_error s.vnodes info.vnode_id in
    if refusal == 0
    then (do
      path ← upload_path sys info
      (files, code) ← store_object sys s.files path info.file_length
      let s' = record s { files = files }
      if code == 0
          then replicate_object nodes s' peer msg info.vnode_id path
          else ret (alone (failed_with s' code)))
    else ret (alone (failed_with s refusal))

unfoldable pub msg_upload_file_handle :
    System → (ℕ → Second) → Store → Peer → Message → Run Uploaded
msg_upload_file_handle sys nodes s peer msg =
    if not (low_bits (body_len msg + 2 ^ 64 - upload_info_size) 64 % storage_info_size == 0)
    then ret (alone (refused s einval))
    else (if not (peer.open_error == 0)
        then ret (alone (refused s peer.open_error))
        else (do info ← get_upload msg.body; upload_object sys nodes s peer msg info))
