-- ===== src/Storage/Objects/Uploading.antt =====
-- The first storage node of an upload: msg_upload_file_handle of
-- src/storagenode/storage_msg_parser.cpp.
use kunlun.Prelude.Run.{ret}
use kunlun.Serializer.{int2buff, long2buff}
use kunlun.NameSpace.{einval}
use kunlun.Handler.{Message, eacces}
use kunlun.Storage.Files.Streams.{refusal_code}
use kunlun.Storage.Objects.{
  System, Store, Peer, Served, body_len, vnode_error, failed_with, succeeded, next_version,
}
use kunlun.Storage.Objects.Relaying.{
  Second, alone, relay_all, second_count, replicate_object, upload_object, msg_upload_file_handle,
}
use kunlun.Storage.Objects.Stored.{
  IsField, CanStore, upload_body, message, get_upload-upload_body, place, opened_store,
  counted_store, store_object_lem, upload_path_lem,
}
use kunlun.Prelude.{
  ℕ, zero, suc, refl, Bool-cases, inl, inr, false, ◌+◌, ◌-◌, ◌*◌, ◌/◌, ◌%◌, ◌^◌, ◌<◌, ◌≡◌, ◌∙◌, ap,
  List, ◌∷◌, ◌++◌, length, drop, drop_add, drop-append, length-append, IsU32, IsU64, arith, ◌==◌,
  ltb, if◌then◌else◌, low_bits,
}

-- The answer to an upload for `n` second nodes, of which `count` took it.
abbrev pub answer_for : Store → Peer → ℕ → ℕ → Served
answer_for s peer n count =
    if ltb count 1 then failed_with s (if n == 0 then einval else eacces) else succeeded s peer

module _ (id : ℕ) (name pad : List ℕ) (len : ℕ) (infos : List ℕ) (n : ℕ) (field : IsField name pad)
    (units : length infos ≡ 20 * n) (few : n < 2 ^ 31) where
  body_len-upload : body_len (message (upload_body id name pad len infos)) ≡ 268 + 20 * n
  unfolding body_len int2buff long2buff
  body_len-upload =
      omega (arith, length-append (name ++ 0 ∷ pad) (long2buff len ++ infos), field.fits, units)

  second_count-upload : second_count (message (upload_body id name pad len infos)) ≡ n
  unfolding second_count
  second_count-upload =
      let low : low_bits (low_bits (268 + 20 * n + 2 ^ 64 - 268) 64 / 20) 32 ≡ n = omega arith in
      rw (body_len-upload, low) (ground arith)

  infos-behind : drop 268 (upload_body id name pad len infos) ≡ infos
  unfolding int2buff long2buff
  infos-behind =
      let tail = long2buff len ++ infos in
      let behind : drop 256 ((name ++ 0 ∷ pad) ++ tail) ≡ tail =
        drop-append 256 (name ++ 0 ∷ pad) tail field.fits in
      drop_add 256 8 ((name ++ 0 ∷ pad) ++ tail) ∙ ap (drop 8) behind

replicate_object_lem :
    (nodes : ℕ → Second) (s : Store) (peer : Peer) (msg : Message) (id : ℕ) (path infos : List ℕ)
    (n : ℕ) (others : List (List ℕ × ℕ × List ℕ)) (count : ℕ)
    → second_count msg ≡ n
    → drop 268 msg.body ≡ infos
    → relay_all s.files path nodes n 0 infos ≡ ret (others, count)
    → replicate_object nodes s peer msg id path
      ≡ ret (record {
        served = answer_for (record s { vnodes = next_version s.vnodes id }) peer n count;
        relayed = others;
      })
unfolding replicate_object relay_all
replicate_object_lem nodes s peer msg id path infos zero others count e behind relayed =
    rw e (ground arith)
replicate_object_lem nodes s peer msg id path infos (suc n) others count e behind relayed =
    rw (e, behind, relayed) (ground arith)

-- An upload of `len` bytes for a vnode that is ACTIVE, with the name in its field, in a directory that
-- is made and a file that is opened, and with whole storage_infos behind it. Where it has bytes it
-- fails with the errno of sendfile: the version is not counted up, and no second node hears of it.
-- Without bytes the version is counted up before the second nodes are looked at, and stays so
-- whatever comes of these: without a storage_info the answer is EINVAL, and when no second node
-- takes the object it is EACCES.
pub msg_upload_file_handle_lem :
    (sys : System) (nodes : ℕ → Second) (s : Store) (id : ℕ) (name pad : List ℕ) (len : ℕ)
    (infos : List ℕ) (n : ℕ) (peer : Peer) (others : List (List ℕ × ℕ × List ℕ)) (count : ℕ)
    → IsU32 id
    → IsField name pad
    → length infos ≡ 20 * n
    → n < 2 ^ 31
    → vnode_error s.vnodes id ≡ 0
    → CanStore sys (place sys id name) len
    → peer.open_error ≡ 0
    → relay_all (opened_store sys s id name).files (place sys id name) nodes n 0 infos
      ≡ ret (others, count)
    → msg_upload_file_handle sys nodes s peer (message (upload_body id name pad len infos))
      ≡ ret (
          if len == 0
          then record {
            served = answer_for (counted_store sys s id name) peer n count;
            relayed = others;
          }
          else alone (
              failed_with
                (opened_store sys s id name)
                (refusal_code (sys.file (place sys id name)))))
unfolding msg_upload_file_handle upload_object replicate_object
msg_upload_file_handle_lem sys nodes s id name pad len infos n peer others count u32 field units few
      active can opened relayed =
    let size = body_len-upload id name pad len infos n field units few in
    let low : IsU64 len = omega (arith, can.signed) in
    let info = get_upload-upload_body id name pad len infos u32 low field in
    let path = upload_path_lem sys s id name pad u32 field active (long2buff len ++ infos) len in
    let written = store_object_lem sys s id name pad u32 field active len can in
    let whole : low_bits (268 + 20 * n + 2 ^ 64 - 268) 64 % 20 ≡ 0 = omega arith in
    let counted = second_count-upload id name pad len infos n field units few in
    let behind = infos-behind id name pad len infos n field units few in
    let msg = message (upload_body id name pad len infos) in
    let followed =
      replicate_object_lem nodes (opened_store sys s id name) peer msg id (place sys id name) infos
        n others count counted behind relayed in
    elim (Bool-cases (len == 0)) [
      | inl t ↦ rw (size, whole, opened, info, active, path, written, t) followed
      | inr t ↦
          let fails : (refusal_code (sys.file (place sys id name)) == 0) ≡ false = ground arith in
          rw (size, whole, opened, info, active, path, written, t, fails) refl
    ]
