-- ===== src/Storage/Objects.antt =====
-- What clients and storage nodes do with the objects of a vnode: msg_download_file_handle and
-- msg_ctrl_stream_handle of src/storagenode/storage_msg_parser.cpp, and in Relaying
-- msg_upload_file_handle, with the bodies of storage_protocol.h. Locks and allocations succeed.
pub mod Relaying
pub mod Stored
pub mod Uploading
pub mod Relayed
pub mod Keeping
mod Tests
use kunlun.Prelude.Run.{Run, ret, fault, out_of_bounds, null_deref, uncaught, ◌>>=◌, or_fault}
use kunlun.Serializer.{int2buff, long2buff, buff2int32, buff2int64}
use kunlun.Protocol.{storage_info_size}
use kunlun.NameSpace.{einval}
use kunlun.Node.Status
use kunlun.Handler.{Message, read_string, eacces}
use kunlun.Storage.{StorageVnode, get_vnode}
use kunlun.Storage.Files.{
  Files, FileCalls, object_path, parent_dir, content, stream_writein, stream_readout,
}
use kunlun.Prelude.{
  ℕ, zero, suc, ◌+◌, ◌-◌, ◌/◌, ◌%◌, ◌^◌, List, [], ◌∷◌, ◌++◌, Bool, true, false, not, ◌&&◌, none,
  some, length, drop, ltb, ◌==◌, if◌then◌else◌, low_bits,
}

-- sizeof(upload_file_info) and sizeof(download_file_info)
abbrev pub upload_info_size : ℕ
upload_info_size = 268

abbrev pub download_info_size : ℕ
download_info_size = 260

-- upload_file_info; `file_path` is what lies in the body from that field on.
pub record UploadInfo : Type 0 where
  pub vnode_id : ℕ
  pub file_path : List ℕ
  pub file_length : ℕ

unfoldable pub get_upload : List ℕ → Run UploadInfo
get_upload body = do
  id ← or_fault (buff2int32 body) out_of_bounds
  len ← or_fault (buff2int64 (drop 260 body)) out_of_bounds
  ret (record { vnode_id = id; file_path = drop 4 body; file_length = len })

-- The vnodes and the files of a storage node.
pub record Store : Type 0 where
  pub vnodes : List StorageVnode
  pub files : Files

-- The store afterwards, the buffers handed to stream_send, and the result of a handler.
pub record Served : Type 0 where
  pub after : Store
  pub sent : List (List ℕ)
  pub code : ℕ

-- The stream that answers: what its constructor throws, or 0, and what stream_send returns.
pub record Peer : Type 0 where
  pub open_error : ℕ
  pub header_sent : ℕ
  pub body_sent : ℕ

-- The system below the disk: g_device_root, the result of make_dir, the calls on a file, fstat.
pub record System : Type 0 where
  pub root : List ℕ
  pub make_dir : List ℕ → ℕ
  pub file : List ℕ → FileCalls
  pub stat_error : ℕ

-- The bytes of a pkg_header with KL_STORAGE_CMD_SERVER_RESP; the status is cut to a byte.
pub server_header : ℕ → ℕ → List ℕ
server_header len status = long2buff len ++ 14 ∷ low_bits status 8 ∷ []

-- A return before there is a stream.
abbrev pub refused : Store → ℕ → Served
refused s code = record { after = s; sent = []; code = code }

-- do_err_resp
abbrev pub failed_with : Store → ℕ → Served
failed_with s code = record { after = s; sent = server_header 0 code ∷ []; code = code }

-- do_succ_resp
abbrev pub succeeded : Store → Peer → Served
succeeded s peer = record { after = s; sent = server_header 0 0 ∷ []; code = peer.header_sent }

-- pkg_len - 2, as an unsigned number.
unfoldable pub body_len : Message → ℕ
body_len msg = low_bits (msg.pkg_len + 2 ^ 64 - 2) 64

-- The vnode must be in the container and ACTIVE; the code otherwise, or 0.
unfoldable pub vnode_error : List StorageVnode → ℕ → ℕ
vnode_error vs id = elim (get_vnode vs id) [
  | none ↦ einval
  | some v ↦ if v.vnode_status == Status.active then 0 else eacces
]

-- true_file_path
unfoldable pub upload_path : System → UploadInfo → Run (List ℕ)
upload_path sys info = do
  name ← read_string info.file_path
  ret (object_path sys.root info.vnode_id name)

-- The object of an upload is to be written: its directory is made and its file opened. The code with which the handler fails, or 0.
unfoldable pub store_object : System → Files → List ℕ → ℕ → Run (Files × ℕ)
store_object sys files path len = do
  dir ← or_fault (parent_dir path) null_deref
  let made = sys.make_dir dir
  if made == 0 then stream_writein files (sys.file path) path len else ret (files, made)

-- vnode_version++ through the pointer of get_vnode.
unfoldable pub next_version : List StorageVnode → ℕ → List StorageVnode
next_version [] id = []
next_version (v ∷ vs) id =
    let rest = next_version vs id in
    if v.vnode_id == id
    then record v { vnode_version = low_bits (v.vnode_version + 1) 64 } ∷ vs
    else v ∷ rest

-- msg_ctrl_stream_handle behind the test of the length: the stream is there.
pub take_object : System → Store → Peer → UploadInfo → Run Served
take_object sys s peer info =
    let refusal = vnode_error s.vnodes info.vnode_id in
    if refusal == 0
    then (do
      path ← upload_path sys info
      (files, code) ← store_object sys s.files path info.file_length
      let s' = record s { files = files }
      ret (
          if code == 0
          then succeeded (record s' { vnodes = next_version s.vnodes info.vnode_id }) peer
          else failed_with s' code))
    else ret (failed_with s refusal)

pub msg_ctrl_stream_handle : System → Store → Peer → Message → Run Served
msg_ctrl_stream_handle sys s peer msg =
    if not (body_len msg == upload_info_size)
    then ret (refused s einval)
    else (if not (peer.open_error == 0)
        then ret (refused s peer.open_error)
        else (do info ← get_upload msg.body; take_object sys s peer info))

-- msg_download_file_handle behind the tests of the vnode. The length of a file that cannot be
-- examined is sent as -1.
pub send_object : System → Store → Peer → List ℕ → Run Served
send_object sys s peer path = elim (s.files path) [
  | none ↦
      let io = sys.file path in
      ret (failed_with s (if io.open_error == 0 then 2 else io.open_error))
  | some bytes ↦
      let io = sys.file path in
      let size = if sys.stat_error == 0 then length bytes else 2 ^ 64 - 1 in
      let header = server_header 8 0 in
      if not (io.open_error == 0)
      then ret (failed_with s io.open_error)
      else (if not (peer.header_sent == 0)
          then ret (record { after = s; sent = header ∷ []; code = peer.header_sent })
          else (if not (peer.body_sent == 0)
              then ret
                  (record { after = s; sent = header ∷ long2buff size ∷ []; code = peer.body_sent })
              else (do
                (out, code) ← stream_readout s.files io sys.stat_error path
                ret (record {
                  after = s;
                  sent = header ∷ long2buff size ∷ out ∷ [];
                  code = code;
                }))))
]

-- It catches no error of the stream's constructor but std::bad_alloc.
pub msg_download_file_handle : System → Store → Peer → Message → Run Served
msg_download_file_handle sys s peer msg =
    if not (body_len msg == download_info_size) then ret (refused s einval) else (do
      id ← or_fault (buff2int32 msg.body) out_of_bounds
      if not (peer.open_error == 0) then fault uncaught else (do
        let refusal = vnode_error s.vnodes id
        if refusal == 0
            then (do
              name ← read_string (drop 4 msg.body)
              send_object sys s peer (object_path sys.root id name))
            else ret (failed_with s refusal)))
