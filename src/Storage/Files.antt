-- ===== src/Storage/Files.antt =====
-- The files of a storage node: paths under g_device_root, and CFileWriterStream and CFileReaderStream
-- of src/common/file_writer_stream.cpp and file_reader_stream.cpp. What the system calls return is
-- an argument.
pub mod Streams
use kunlun.Prelude.Run.{Run, ret, fault, endless, ◌>>=◌}
use kunlun.Prelude.Text.{codes, decimal}
use kunlun.Proxy.{same_bytes}
use kunlun.Prelude.{
  ℕ, zero, suc, ◌+◌, ◌-◌, ◌^◌, List, [], ◌∷◌, ◌++◌, Option, none, some, length, take, drop, ltb,
  ◌==◌, if◌then◌else◌,
}

-- The regular files by their paths.
abbrev pub Files : Type 0
Files = List ℕ → Option (List ℕ)

abbrev pub write_file : Files → List ℕ → List ℕ → Files
write_file files path bytes p = if same_bytes p path then some bytes else files p

-- snprintf into an array of KL_COMMON_PATH_LEN characters.
abbrev pub cut_path : List ℕ → List ℕ
cut_path text = take 255 text

-- "%s/storage_vnode%d/object/%s"
unfoldable pub object_path : List ℕ → ℕ → List ℕ → List ℕ
object_path root id name =
    cut_path (root ++ (codes "/storage_vnode" ++ (decimal id ++ (codes "/object/" ++ name))))

-- "%s/%s"
pub file_path : List ℕ → List ℕ → List ℕ
file_path root name = cut_path (root ++ (codes "/" ++ name))

-- The part of a path before its last '/'; `none` where strrchr finds none.
unfoldable pub parent_dir : List ℕ → Option (List ℕ)
parent_dir [] = none
parent_dir (c ∷ cs) = elim (parent_dir cs) [
  | none ↦ if c == 47 then some [] else none
  | some dir ↦ some (c ∷ dir)
]

-- A call of sendfile: the bytes that it moves, or a result of at most 0 with errno.
pub data Moved : Type 0 where
  moved stopped : ℕ → Moved

abbrev pub eio : ℕ
eio = 5

-- The loops of stream_writein and stream_readout over the bytes left: the bytes moved, and the
-- result. A call of sendfile without a result does not return.
unfoldable pub transfer : List Moved → ℕ → Run (ℕ × ℕ)
transfer calls zero = ret (0, 0)
transfer [] (suc left) = fault endless
transfer (stopped errno ∷ calls) (suc left) = ret (0, if errno == 0 then eio else errno)
transfer (moved k ∷ calls) (suc left) = do
  (n, code) ← transfer calls (suc left - k)
  ret (k + n, code)

-- The system below a stream over a file: the errno that the constructor of CFile throws, or 0, the
-- calls of sendfile from the file to a socket, and the errno of a call from a socket to the file.
-- sendfile(2) allows no socket as its in_fd, so that such a call fails and moves nothing.
pub record FileCalls : Type 0 where
  pub open_error : ℕ
  pub calls : List Moved
  pub refusal : ℕ

-- An off_t; a negative length leaves the loop at once.
abbrev pub signed_len : ℕ → ℕ
signed_len n = if ltb n (2 ^ 63) then n else 0

abbrev pub content : Option (List ℕ) → List ℕ
content none = []
content (some bytes) = bytes

-- The files behind a CFileWriterStream and stream_writein, and the code with which the caller fails, or
-- 0. The file is made when it is not there, and not cut to nothing when it is. The socket is the in_fd
-- of sendfile.
unfoldable pub stream_writein : Files → FileCalls → List ℕ → ℕ → Run (Files × ℕ)
stream_writein files io path size =
    if io.open_error == 0
    then (do
      (n, code) ← transfer (stopped io.refusal ∷ []) (signed_len size)
      ret (write_file files path (content (files path)), code))
    else ret (files, io.open_error)

-- A CFileReaderStream: what it sends, and the code with which the caller fails, or 0. A file that is
-- not there cannot be opened; `stat_error` is the result of fstat.
unfoldable pub stream_readout : Files → FileCalls → ℕ → List ℕ → Run (List ℕ × ℕ)
stream_readout files io stat_error path = elim (files path) [
  | none ↦ ret ([], if io.open_error == 0 then 2 else io.open_error)
  | some bytes ↦
      if io.open_error == 0
      then (if stat_error == 0
          then (do (n, code) ← transfer io.calls (length bytes); ret (take n bytes, code))
          else ret ([], stat_error))
      else ret ([], io.open_error)
]
