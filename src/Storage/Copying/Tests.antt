-- ===== src/Storage/Copying/Tests.antt =====
-- A file that is copied between two small storage nodes of src/storagenode.
use kunlun.Prelude.Run.{ret}
use kunlun.Prelude.Text.{codes}
use kunlun.Storage.Files.{Files, moved, write_file, file_path}
use kunlun.Storage.Objects.{System, Store, Peer, server_header}
use kunlun.Storage.Objects.Stored.{message}
use kunlun.Storage.Copying.{Copying, sync_header, sync_vnode_file, msg_file_sync_handle}
use kunlun.Storage.Copying.Copied.{IsName, msg_file_sync_handle-sync_vnode_file}
use kunlun.Prelude.{ℕ, ◌≡◌, refl, List, [], ◌∷◌, some, length, replicate, arith}

abbrev name : List ℕ
name = codes "storage_vnode3/object/a.txt"

abbrev object : List ℕ
object = 1 ∷ 2 ∷ 3 ∷ 4 ∷ 5 ∷ []

abbrev old_object : List ℕ
old_object = 9 ∷ 9 ∷ 9 ∷ 9 ∷ 9 ∷ 8 ∷ 7 ∷ []

abbrev source_files : Files
source_files path = some object

abbrev dest_store : Store
dest_store = record { vnodes = []; files = λ path. some old_object }

-- A disk whose files take five bytes, in two pieces.
abbrev system : System
system = record {
  root = codes "/d";
  make_dir = λ dir. 0;
  file = λ path. record { open_error = 0; calls = moved 2 ∷ moved 3 ∷ []; refusal = 22 };
  stat_error = 0;
}

abbrev copying : Copying
copying = record {
  stale = replicate 256 170;
  header_sent = 0;
  info_sent = 0;
  errno = 11;
  answer_error = 0;
  answer_status = 0;
}

abbrev peer : Peer
peer = record { open_error = 0; header_sent = 0; body_sent = 0 }

name-IsName : IsName name copying.stale
name-IsName = record { no_zero = omega arith; short = omega arith; memory = refl }

msg_file_sync_handle-sync_vnode_file_example :
    (info : List ℕ) × (sync_vnode_file system source_files copying name
      ≡ ret (sync_header ∷ info ∷ object ∷ [], 0))
    × (length info ≡ 264)
    × (msg_file_sync_handle system dest_store peer (message info)
        ≡ ret (record {
          after = record dest_store {
            files = write_file dest_store.files (file_path system.root name) old_object;
          };
          sent = server_header 0 22 ∷ [];
          code = 0;
        }))
msg_file_sync_handle-sync_vnode_file_example =
    msg_file_sync_handle-sync_vnode_file system system source_files dest_store copying peer name
      object name-IsName refl
      (refl, (omega arith, omega arith, (omega arith, omega arith, tt)), omega arith) refl refl refl
      refl refl refl
