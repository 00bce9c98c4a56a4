-- ===== src/Storage/Copying.antt =====
-- How storage nodes copy the files of a vnode: msg_file_sync_handle of
-- src/storagenode/storage_msg_parser.cpp on the one side, sync_vnode_file of
-- src/storagenode/thread_sync_data.cpp on the other. Locks and allocations succeed.
pub mod Copied
pub mod Keeping
mod Tests
use kunlun.Prelude.Run.{Run, ret, fault, out_of_bounds, uncaught, ◌>>=◌, or_fault}
use kunlun.Serializer.{long2buff, buff2int64}
use kunlun.NameSpace.{einval}
use kunlun.Handler.{Message, read_string}
use kunlun.Storage.Files.{Files, file_path, stream_writein, stream_readout}
use kunlun.Storage.BeatHeart.{Node, SyncMessage}
use kunlun.Storage.Objects.{Store, Peer, System, Served, server_header, refused, body_len}
use kunlun.Prelude.{
  ℕ, zero, suc, ◌+◌, ◌-◌, ◌/◌, ◌%◌, ◌^◌, List, [], ◌∷◌, ◌++◌, Bool, not, none, some, length, take,
  drop, ltb, ◌==◌, if◌then◌else◌, low_bits,
}

-- sizeof(sync_file_info)
abbrev pub sync_info_size : ℕ
sync_info_size = 264

-- The rounds left of the loop of msg_file_sync_handle over its sync_file_infos: the files, and the
-- code of the answer.
unfoldable pub sync_files : System → ℕ → List ℕ → Files → Run (Files × ℕ)
sync_files sys zero infos files = ret (files, 0)
sync_files sys (suc n) infos files = do
  name ← read_string infos
  len ← or_fault (buff2int64 (drop 256 infos)) out_of_bounds
  let path = file_path sys.root name
  (files', code) ← stream_writein files (sys.file path) path len
  let more = sync_files sys n (drop sync_info_size infos) files'
  if code == 0 then more else ret (files', code)

-- nfile_count, an int
unfoldable pub sync_file_count : Message → ℕ
sync_file_count msg =
    let n = low_bits (body_len msg / sync_info_size) 32 in if ltb n (2 ^ 31) then n else 0

-- It catches no error of the stream's constructor but std::bad_alloc.
pub msg_file_sync_handle : System → Store → Peer → Message → Run Served
msg_file_sync_handle sys s peer msg =
    if not (body_len msg % sync_info_size == 0)
    then ret (refused s einval)
    else (if not (peer.open_error == 0) then fault uncaught else (do
      (files, code) ← sync_files sys (sync_file_count msg) msg.body s.files
      ret (record {
        after = record s { files = files };
        sent = server_header 0 code ∷ [];
        code = peer.header_sent;
      })))

-- What a call of sync_vnode_file meets: the memory of file_info, the results of sending, what is left
-- in errno when the file cannot be sent, the error of receiving the answer, and its status.
pub record Copying : Type 0 where
  pub stale : List ℕ
  pub header_sent : ℕ
  pub info_sent : ℕ
  pub errno : ℕ
  pub answer_error : ℕ
  pub answer_status : ℕ

-- strcpy into a field of KL_COMMON_PATH_LEN characters, whose memory held `stale`.
unfoldable pub copy_path : List ℕ → List ℕ → Run (List ℕ)
copy_path stale path =
    if ltb (length path) 256
    then ret (path ++ 0 ∷ drop (length path + 1) stale)
    else fault out_of_bounds

-- A pkg_header with KL_STORAGE_CMD_FILE_SYNC.
abbrev pub sync_header : List ℕ
sync_header = long2buff sync_info_size ++ 2 ∷ 0 ∷ []

-- sync_vnode_file: the buffers that are sent, and the result. A file whose size cannot be found out is
-- announced with the length -1.
unfoldable pub sync_vnode_file : System → Files → Copying → List ℕ → Run (List (List ℕ) × ℕ)
sync_vnode_file sys files c name =
    let path = file_path sys.root name in
    let io = sys.file path in
    elim (files path) [
      | none ↦ ret ([], if io.open_error == 0 then 2 else io.open_error)
      | some bytes ↦
          if not (io.open_error == 0)
          then ret ([], io.open_error)
          else (if not (c.header_sent == 0) then ret (sync_header ∷ [], c.header_sent) else (do
            field ← copy_path c.stale name
            let size = if sys.stat_error == 0 then length bytes else 2 ^ 64 - 1
            let info = field ++ long2buff size
            if not (c.info_sent == 0) then ret (sync_header ∷ info ∷ [], c.info_sent) else (do
              (out, code) ← stream_readout files io sys.stat_error path
              ret (
                sync_header ∷ info ∷ out ∷ [],
                if not (code == 0)
                    then c.errno
                    else (if not (c.answer_error == 0) then c.answer_error else c.answer_status),
              ))))
    ]
