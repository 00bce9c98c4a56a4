-- ===== src/Storage/Objects/Keeping.antt =====
-- The messages about objects, src/storagenode/storage_msg_parser.cpp, keep the ids of the vnodes distinct.
use kunlun.Prelude.Run.{Keeps, Keeps-ret, Keeps-if, Keeps->>=}
use kunlun.Handler.{Message}
use kunlun.NameSpace.{einval}
use kunlun.Storage.{StorageVnode}
use kunlun.Storage.Container.{IsDistinct}
use kunlun.Storage.Files.{Files}
use kunlun.Storage.Objects.{
  Store, Peer, System, Served, UploadInfo, next_version, get_upload, upload_path, store_object,
  vnode_error, refused, failed_with, body_len, upload_info_size, take_object,
  msg_ctrl_stream_handle,
}
use kunlun.Storage.Objects.Relaying.{
  Second, Uploaded, second_count, relay_all, replicate_object, upload_object,
  msg_upload_file_handle, alone,
}
use kunlun.Protocol.{storage_info_size}
use kunlun.Prelude.{
  ℕ, ◌+◌, ◌-◌, ◌^◌, ◌%◌, ◌≢◌, List, [], ◌∷◌, not, drop, ltb, low_bits, Bool-cases, inl, inr, All,
  ◌==◌,
}

module _ (id : ℕ) where
  All-next_version :
      (k : ℕ) (vs : List StorageVnode)
      → All (λ w. w.vnode_id ≢ k) vs
      → All (λ w. w.vnode_id ≢ k) (next_version vs id)
  unfolding next_version
  All-next_version k [] h = tt
  All-next_version k (v ∷ vs) (ne, h) = elim (Bool-cases (v.vnode_id == id)) [
    | inl t ↦ rw (t, next_version) (ne, h)
    | inr t ↦ rw (t, next_version) (ne, All-next_version k vs h)
  ]

  pub IsDistinct-next_version :
      (vs : List StorageVnode) → IsDistinct vs → IsDistinct (next_version vs id)
  unfolding next_version
  IsDistinct-next_version [] h = tt
  IsDistinct-next_version (v ∷ vs) (ne, h) = elim (Bool-cases (v.vnode_id == id)) [
    | inl t ↦ rw (t, next_version) (ne, h)
    | inr t ↦ rw (t, next_version) (All-next_version v.vnode_id vs ne, IsDistinct-next_version vs h)
  ]

module _ (sys : System) (s : Store) (peer : Peer) (distinct : IsDistinct s.vnodes) where
  pub take_object-IsDistinct :
      (info : UploadInfo) → Keeps (λ r. IsDistinct r.after.vnodes) (take_object sys s peer info)
  unfolding take_object
  take_object-IsDistinct info =
      let P : Served → Type 0 = λ r. IsDistinct r.after.vnodes in
      Keeps-if P (vnode_error s.vnodes info.vnode_id == 0)
        (λ t. Keeps->>= P (upload_path sys info) λ path ep.
          Keeps->>= P (store_object sys s.files path info.file_length) λ r er.
            Keeps-ret P _ (elim (Bool-cases (r.1 == 0)) [
              | inl u ↦ rw u (IsDistinct-next_version info.vnode_id s.vnodes distinct)
              | inr u ↦ rw u distinct
            ]))
        (λ t. Keeps-ret P (failed_with s (vnode_error s.vnodes info.vnode_id)) distinct)

  pub msg_ctrl_stream_handle-IsDistinct :
      (msg : Message)
      → Keeps (λ r. IsDistinct r.after.vnodes) (msg_ctrl_stream_handle sys s peer msg)
  unfolding msg_ctrl_stream_handle
  msg_ctrl_stream_handle-IsDistinct msg =
      let P : Served → Type 0 = λ r. IsDistinct r.after.vnodes in
      Keeps-if P (not (body_len msg == upload_info_size))
        (λ t. Keeps-ret P (refused s einval) distinct)
        (λ t.
          Keeps-if P (not (peer.open_error == 0))
            (λ u. Keeps-ret P (refused s peer.open_error) distinct)
            (λ u. Keeps->>= P (get_upload msg.body) λ info ei. take_object-IsDistinct info))

  replicate_object-IsDistinct :
      (nodes : ℕ → Second) (files : Files) (msg : Message) (id : ℕ) (path : List ℕ)
      → Keeps
          (λ u. IsDistinct u.served.after.vnodes)
          (replicate_object nodes (record s { files = files }) peer msg id path)
  unfolding replicate_object
  replicate_object-IsDistinct nodes files msg id path =
      let P : Uploaded → Type 0 = λ u. IsDistinct u.served.after.vnodes in
      let next = IsDistinct-next_version id s.vnodes distinct in
      let s' : Store = record { vnodes = next_version s.vnodes id; files = files } in
      Keeps-if P (ltb (second_count msg) 1) (λ t. Keeps-ret P (alone (failed_with s' einval)) next)
        (λ t.
          Keeps->>= P
            (relay_all files path nodes (second_count msg) 0 (drop upload_info_size msg.body))
            λ r er.
              Keeps-ret P _
                (elim (Bool-cases (ltb r.1 1)) [ inl u ↦ rw u next | inr u ↦ rw u next ]))

  pub msg_upload_file_handle-IsDistinct :
      (nodes : ℕ → Second) (msg : Message)
      → Keeps (λ u. IsDistinct u.served.after.vnodes) (msg_upload_file_handle sys nodes s peer msg)
  unfolding msg_upload_file_handle upload_object
  msg_upload_file_handle-IsDistinct nodes msg =
      let P : Uploaded → Type 0 = λ u. IsDistinct u.served.after.vnodes in
      Keeps-if P
        (not (low_bits (body_len msg + 2 ^ 64 - upload_info_size) 64 % storage_info_size == 0))
        (λ t. Keeps-ret P (alone (refused s einval)) distinct)
        (λ t.
          Keeps-if P (not (peer.open_error == 0))
            (λ u. Keeps-ret P (alone (refused s peer.open_error)) distinct)
            (λ u. Keeps->>= P (get_upload msg.body) λ info ei.
              Keeps-if P (vnode_error s.vnodes info.vnode_id == 0)
                (λ v. Keeps->>= P (upload_path sys info) λ path ep.
                  Keeps->>= P (store_object sys s.files path info.file_length) λ r er.
                    Keeps-if P (r.1 == 0)
                      (λ w. replicate_object-IsDistinct nodes r.0 msg info.vnode_id path)
                      (λ w.
                        Keeps-ret P (alone (failed_with (record s { files = r.0 }) r.1)) distinct))
                (λ v.
                  Keeps-ret P (alone (failed_with s (vnode_error s.vnodes info.vnode_id)))
                    distinct)))
