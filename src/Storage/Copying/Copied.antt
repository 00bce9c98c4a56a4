-- ===== src/Storage/Copying/Copied.antt =====
-- A file that sync_vnode_file sends, at msg_file_sync_handle:
-- src/storagenode/thread_sync_data.cpp against storage_msg_parser.cpp.
use kunlun.Prelude.Run.{ret}
use kunlun.Serializer.{long2buff, buff2int64}
use kunlun.Serializer.RoundTrip.{buff2int64-long2buff}
use kunlun.Handler.{read_string, read_string_lem}
use kunlun.Storage.Files.{Files, file_path, content, write_file}
use kunlun.Storage.Files.Streams.{Delivers, refusal_code, stream_writein_lem, stream_readout_lem}
use kunlun.Storage.Objects.{System, Store, Peer, body_len, server_header}
use kunlun.Storage.Objects.Stored.{message}
use kunlun.Storage.Copying.{
  Copying, sync_files, sync_file_count, msg_file_sync_handle, copy_path, sync_header,
  sync_vnode_file,
}
use kunlun.Prelude.{
  if◌then◌else◌, ◌==◌, ◌^◌, ℕ, true, ◌+◌, ◌<◌, ◌≡◌, ◌≢◌, refl, List, [], ◌∷◌, ◌++◌, some, length,
  drop, All, drop-append, length-append, length-drop, append_assoc, append_nil, IsU64, arith, ltb,
}

-- A name that fits its field, and the memory of the field.
pub record IsName (name stale : List ℕ) : Type 0 where
  pub no_zero : All (λ c. c ≢ 0) name
  pub short : length name < 256
  pub memory : length stale ≡ 256

-- The sync_file_info of a name and a length.
abbrev pub sync_info : List ℕ → List ℕ → ℕ → List ℕ
sync_info stale name len = (name ++ 0 ∷ drop (length name + 1) stale) ++ long2buff len

length-field :
    (name stale : List ℕ)
    → IsName name stale
    → length (name ++ 0 ∷ drop (length name + 1) stale) ≡ 256
length-field name stale ok = omega (
  arith,
  length-append name (0 ∷ drop (length name + 1) stale),
  length-drop (length name + 1) stale,
  ok.short,
  ok.memory,
)

length-sync_info :
    (stale name : List ℕ) (n : ℕ) → IsName name stale → length (sync_info stale name n) ≡ 264
unfolding long2buff
length-sync_info stale name n ok = omega (
  arith,
  length-append (name ++ 0 ∷ drop (length name + 1) stale) (long2buff n),
  length-field name stale ok,
)

sync_vnode_file_lem :
    (sys : System) (files : Files) (c : Copying) (name object : List ℕ)
    → IsName name c.stale
    → files (file_path sys.root name) ≡ some object
    → Delivers (sys.file (file_path sys.root name)) (length object)
    → sys.stat_error ≡ 0
    → c.header_sent ≡ 0
    → c.info_sent ≡ 0
    → c.answer_error ≡ 0
    → sync_vnode_file sys files c name
      ≡ ret (sync_header ∷ sync_info c.stale name (length object) ∷ object ∷ [], c.answer_status)
unfolding sync_vnode_file copy_path
sync_vnode_file_lem sys files c name object ok found whole st h i a =
    let path = file_path sys.root name in
    let out = stream_readout_lem files (sys.file path) sys.stat_error path object found st whole in
    let short : ltb (length name) 256 ≡ true = ground (arith, ok.short) in
    rw (found, sync_vnode_file) (simp (whole.0, h, i, short) (rw (out, st) (simp a)))

sync_files_one :
    (sys : System) (files : Files) (stale name : List ℕ) (n : ℕ)
    → IsName name stale
    → (sys.file (file_path sys.root name)).open_error ≡ 0
    → n < 2 ^ 63
    → sync_files sys 1 (sync_info stale name n) files
      ≡ ret (
        write_file files (file_path sys.root name) (content (files (file_path sys.root name))),
        if n == 0 then 0 else refusal_code (sys.file (file_path sys.root name)),
      )
unfolding sync_files
sync_files_one sys files stale name n ok opened signed =
    let path = file_path sys.root name in
    let field = name ++ 0 ∷ drop (length name + 1) stale in
    let behind : drop 256 (field ++ long2buff n) ≡ long2buff n =
      drop-append 256 field (long2buff n) (length-field name stale ok) in
    let after = drop (length name + 1) stale ++ long2buff n in
    let name_back : read_string (field ++ long2buff n) ≡ ret name =
      rw (append_assoc name (0 ∷ drop (length name + 1) stale) (long2buff n))
        (read_string_lem name after ok.no_zero) in
    let low : IsU64 n = omega (arith, signed) in
    let len_back : buff2int64 (long2buff n) ≡ some n =
      rw (← append_nil (long2buff n)) (buff2int64-long2buff n [] low) in
    let written = stream_writein_lem files (sys.file path) path n opened signed in
    rw (name_back, behind, len_back, written) (ground arith)

-- A file that one storage node sends whole with sync_vnode_file, its name in its field, reaches no
-- other one: msg_file_sync_handle there, where the file of that name is opened, leaves that file as it
-- was, or makes an empty one, and changes nothing else. It answers with the errno of sendfile, cut to
-- a byte, and with 0 only where the file is empty; the sender's result is the status of the answer
-- that it gets.
pub msg_file_sync_handle-sync_vnode_file :
    (src dest : System) (files : Files) (s : Store) (c : Copying) (peer : Peer)
    (name object : List ℕ)
    → IsName name c.stale
    → files (file_path src.root name) ≡ some object
    → Delivers (src.file (file_path src.root name)) (length object)
    → src.stat_error ≡ 0
    → c.header_sent ≡ 0
    → c.info_sent ≡ 0
    → c.answer_error ≡ 0
    → peer.open_error ≡ 0
    → (dest.file (file_path dest.root name)).open_error ≡ 0
    → (info : List ℕ) × (sync_vnode_file src files c name
        ≡ ret (sync_header ∷ info ∷ object ∷ [], c.answer_status))
      × (length info ≡ 264)
      × (msg_file_sync_handle dest s peer (message info)
          ≡ ret (record {
            after = record s {
              files =
                  write_file s.files
                    (file_path dest.root name)
                    (content (s.files (file_path dest.root name)));
            };
            sent =
                server_header 0 (
                  if length object == 0
                  then 0
                  else refusal_code (dest.file (file_path dest.root name)))
                ∷ [];
            code = peer.header_sent;
          }))
unfolding msg_file_sync_handle sync_file_count body_len
msg_file_sync_handle-sync_vnode_file src dest files s c peer name object ok found out st h i a
      opened made =
    let info = sync_info c.stale name (length object) in
    let len : length info ≡ 264 = length-sync_info c.stale name (length object) ok in
    let one = sync_files_one dest s.files c.stale name (length object) ok made out.2 in
    (
      info,
      sync_vnode_file_lem src files c name object ok found out st h i a,
      len,
      rw (len, opened, one) refl,
    )
