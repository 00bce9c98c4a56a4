-- ===== src/Storage/Objects/Stored.antt =====
-- What an upload leaves for a download:
-- src/storagenode/storage_msg_parser.cpp.
use kunlun.Prelude.Run.{ret}
use kunlun.Serializer.{int2buff, long2buff}
use kunlun.Serializer.RoundTrip.{buff2int32-int2buff, buff2int64-long2buff}
use kunlun.Handler.{Message, read_string_lem}
use kunlun.Storage.{StorageVnode, get_vnode}
use kunlun.Storage.Files.{object_path, parent_dir, content, write_file}
use kunlun.Storage.Files.Streams.{Delivers, refusal_code, stream_writein_lem, stream_readout_lem}
use kunlun.Storage.Objects.{
  System, Store, Peer, Served, failed_with, get_upload, upload_path, store_object, body_len,
  vnode_error, next_version, succeeded, server_header, take_object, msg_ctrl_stream_handle,
  send_object, msg_download_file_handle,
}
use kunlun.Prelude.{
  ℕ, false, ◌+◌, ◌<◌, ◌^◌, ◌==◌, if◌then◌else◌, Bool-cases, inl, inr, ◌≡◌, ◌≢◌, refl, List, [], ◌∷◌,
  ◌++◌, some, length, drop, All, drop-append, length-append, append_assoc, IsU32, IsU64, arith,
}

-- A string of 256 bytes with its zero, in a field of KL_COMMON_PATH_LEN characters.
pub record IsField (name pad : List ℕ) : Type 0 where
  pub no_zero : All (λ c. c ≢ 0) name
  pub fits : length (name ++ 0 ∷ pad) ≡ 256

-- The bodies that a client sends for an object: upload_file_info, with the storage_infos of the second
-- nodes behind it, and download_file_info.
abbrev pub upload_body : ℕ → List ℕ → List ℕ → ℕ → List ℕ → List ℕ
upload_body id name pad len infos = int2buff id ++ ((name ++ 0 ∷ pad) ++ (long2buff len ++ infos))

abbrev pub download_body : ℕ → List ℕ → List ℕ → List ℕ
download_body id name pad = int2buff id ++ (name ++ 0 ∷ pad)

abbrev pub message : List ℕ → Message
message body = record { pkg_len = length body + 2; body = body }

pub get_upload-upload_body :
    (id : ℕ) (name pad : List ℕ) (len : ℕ) (infos : List ℕ)
    → IsU32 id
    → IsU64 len
    → IsField name pad
    → get_upload (upload_body id name pad len infos)
      ≡ ret (record {
        vnode_id = id;
        file_path = (name ++ 0 ∷ pad) ++ (long2buff len ++ infos);
        file_length = len;
      })
unfolding get_upload int2buff long2buff
get_upload-upload_body id name pad len infos u32 u64 field =
    let tail = long2buff len ++ infos in
    let id_back = buff2int32-int2buff id ((name ++ 0 ∷ pad) ++ tail) u32 in
    let behind : drop 256 ((name ++ 0 ∷ pad) ++ tail) ≡ tail =
      drop-append 256 (name ++ 0 ∷ pad) tail field.fits in
    let len_back = buff2int64-long2buff len infos u64 in rw (id_back, behind, len_back) refl

-- A system that opens the file of a path for an object of `n` bytes, and has its directory.
pub record CanStore (sys : System) (path : List ℕ) (n : ℕ) : Type 0 where
  pub dir : List ℕ
  pub has_dir : parent_dir path ≡ some dir
  pub made : sys.make_dir dir ≡ 0
  pub opened : (sys.file path).open_error ≡ 0
  pub signed : n < 2 ^ 63

-- Where the object of a vnode lies.
abbrev pub place : System → ℕ → List ℕ → List ℕ
place sys id name = object_path sys.root id name

-- The file as it was, or an empty one.
abbrev pub old_object : System → Store → ℕ → List ℕ → List ℕ
old_object sys s id name = content (s.files (place sys id name))

-- The store behind an upload that fails, and the one behind an upload of no bytes.
abbrev pub opened_store : System → Store → ℕ → List ℕ → Store
opened_store sys s id name = record s {
  files = write_file s.files (place sys id name) (old_object sys s id name);
}

abbrev pub counted_store : System → Store → ℕ → List ℕ → Store
counted_store sys s id name = record (opened_store sys s id name) {
  vnodes = next_version s.vnodes id;
}

-- What becomes of an object of `n` bytes at a second node.
abbrev pub taken : System → Store → Peer → ℕ → List ℕ → ℕ → Served
taken sys s peer id name n =
    if n == 0
    then succeeded (counted_store sys s id name) peer
    else failed_with (opened_store sys s id name) (refusal_code (sys.file (place sys id name)))

-- The status of a vnode does not change when its version is counted up.
pub vnode_error-next_version :
    (vs : List StorageVnode) (id k : ℕ) → vnode_error (next_version vs id) k ≡ vnode_error vs k
unfolding vnode_error next_version get_vnode
vnode_error-next_version [] id k = refl
vnode_error-next_version (v ∷ vs) id k = ground (arith, vnode_error-next_version vs id k)

module _ (sys : System) (s : Store) (id : ℕ) (name pad : List ℕ) (u32 : IsU32 id)
    (field : IsField name pad) (active : vnode_error s.vnodes id ≡ 0) where
  pub store_object_lem :
      (n : ℕ)
      → CanStore sys (place sys id name) n
      → store_object sys s.files (place sys id name) n
        ≡ ret (
          (opened_store sys s id name).files,
          if n == 0 then 0 else refusal_code (sys.file (place sys id name)),
        )
  unfolding store_object
  store_object_lem n can =
      let path = place sys id name in
      rw (can.has_dir, can.made)
        (stream_writein_lem s.files (sys.file path) path n can.opened can.signed)

  pub upload_path_lem :
      (rest : List ℕ) (len : ℕ)
      → upload_path sys
          (record { vnode_id = id; file_path = (name ++ 0 ∷ pad) ++ rest; file_length = len })
        ≡ ret (place sys id name)
  unfolding upload_path
  upload_path_lem rest len =
      rw (append_assoc name (0 ∷ pad) rest, read_string_lem name (pad ++ rest) field.no_zero) refl

  -- msg_ctrl_stream_handle at a vnode that is ACTIVE.
  pub msg_ctrl_stream_handle_lem :
      (peer : Peer) (n : ℕ)
      → peer.open_error ≡ 0
      → CanStore sys (place sys id name) n
      → msg_ctrl_stream_handle sys s peer (message (upload_body id name pad n []))
        ≡ ret (taken sys s peer id name n)
  unfolding msg_ctrl_stream_handle take_object body_len int2buff long2buff
  msg_ctrl_stream_handle_lem peer n opened can =
      let len : body_len (message (upload_body id name pad n [])) ≡ 268 =
        omega (arith, length-append (name ++ 0 ∷ pad) (long2buff n), field.fits) in
      let low : IsU64 n = omega (arith, can.signed) in
      let info = get_upload-upload_body id name pad n [] u32 low field in
      let path = upload_path_lem (long2buff n) n in
      let written = store_object_lem n can in
      let io = sys.file (place sys id name) in
      elim (Bool-cases (n == 0)) [
        | inl t ↦ rw (len, opened, info, active, path, written, t) refl
        | inr t ↦
            let fails : (refusal_code io == 0) ≡ false = ground arith in
            rw (len, opened, info, active, path, written, t, fails) refl
      ]

  pub msg_download_file_handle_lem :
      (peer : Peer) (path bytes : List ℕ)
      → place sys id name ≡ path
      → peer.open_error ≡ 0
      → peer.header_sent ≡ 0
      → peer.body_sent ≡ 0
      → sys.stat_error ≡ 0
      → s.files path ≡ some bytes
      → Delivers (sys.file path) (length bytes)
      → msg_download_file_handle sys s peer (message (download_body id name pad))
        ≡ ret (record {
          after = s;
          sent = server_header 8 0 ∷ long2buff (length bytes) ∷ bytes ∷ [];
          code = 0;
        })
  unfolding msg_download_file_handle send_object body_len int2buff
  msg_download_file_handle_lem peer path bytes at opened h b st found whole =
      let len : body_len (message (download_body id name pad)) ≡ 260 = omega (arith, field.fits) in
      let id_back = buff2int32-int2buff id (name ++ 0 ∷ pad) u32 in
      let name_back = read_string_lem name pad field.no_zero in
      let out =
        stream_readout_lem s.files (sys.file path) sys.stat_error path bytes found st whole in
      rw (len, id_back, opened, active, name_back, at)
        (rw (found, send_object) (simp (whole.0, h, b) (rw (out, st) refl)))
