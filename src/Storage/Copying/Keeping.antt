-- ===== src/Storage/Copying/Keeping.antt =====
-- A message with files of a vnode, src/storagenode/storage_msg_parser.cpp, leaves the vnodes alone.
use kunlun.Prelude.Run.{uncaught, Keeps, Keeps-ret, Keeps-fault, Keeps-if, Keeps->>=}
use kunlun.Handler.{Message}
use kunlun.NameSpace.{einval}
use kunlun.Storage.Objects.{System, Store, Peer, Served, refused, body_len}
use kunlun.Storage.Copying.{sync_info_size, sync_files, sync_file_count, msg_file_sync_handle}
use kunlun.Prelude.{◌%◌, ◌≡◌, refl, not, ◌==◌}

pub msg_file_sync_handle-vnodes :
    (sys : System) (s : Store) (peer : Peer) (msg : Message)
    → Keeps (λ r. r.after.vnodes ≡ s.vnodes) (msg_file_sync_handle sys s peer msg)
unfolding msg_file_sync_handle
msg_file_sync_handle-vnodes sys s peer msg =
    let P : Served → Type 0 = λ r. r.after.vnodes ≡ s.vnodes in
    Keeps-if P (not (body_len msg % sync_info_size == 0)) (λ t. Keeps-ret P (refused s einval) refl)
      (λ t.
        Keeps-if P (not (peer.open_error == 0)) (λ u. Keeps-fault P uncaught)
          (λ u.
            Keeps->>= P (sync_files sys (sync_file_count msg) msg.body s.files)
              λ r er. Keeps-ret P _ refl))
