-- ===== src/Storage/Checking/Tests.antt =====
-- Checks of files at a small storage node of src/storagenode.
use kunlun.Prelude.Run.{ret, fault}
use kunlun.Prelude.Text.{codes, decimal}
use kunlun.Serializer.{int2buff, long2buff, buff2int32, buff2int64}
use kunlun.Proxy.{same_bytes}
use kunlun.Node.Status
use kunlun.Handler.{Message, read_string}
use kunlun.Storage.{StorageVnode, done, get_vnode, set_vnode_status}
use kunlun.Storage.Files.{Files}
use kunlun.Storage.Objects.{Peer, server_header, body_len}
use kunlun.Storage.Objects.Stored.{message}
use kunlun.Storage.HashCode.{
  VnodeHashCode, text, printed, is_quotable, has_no_quote, callback, query_all_hashcode,
  query_hashcode_by_filepath, insert_record, delete_record,
}
use kunlun.Storage.HashCode.Engines.{list_engine, list_engine-IsSql, with_path}
use kunlun.Storage.Checking.{
  CheckInfo, put_check, put_checks, get_check, padded_hash, Disk, Calls, do_data_file_check,
  do_file_hashcode_check, check_loop, check_round, want, erase_path, delete_rest, last_dot,
  first_dir, hash_db_path, vnode_dir, set_vnode_version,
}
use kunlun.Storage.Checking.Answering.{
  Answered, check_count, check_files, check_vnode, check_reply, msg_file_check_handle,
}
use kunlun.Storage.Checking.Slots.{no_more, one_more, ShortNames, msg_file_check_handle-IsStale}
use kunlun.Storage.Checking.Tables.{IsEntry, do_data_file_check-once, do_data_file_check-again}
use kunlun.Prelude.{
  ℕ, ◌-◌, ◌*◌, ◌≡◌, refl, List, [], ◌∷◌, ◌++◌, true, false, none, length, take, drop, replicate,
  arith,
}

abbrev vnode : StorageVnode
vnode = record { vnode_id = 3; vnode_status = Status.active; vnode_version = 6 }

abbrev no_files : Files
no_files path = none

abbrev disk : Disk list_engine
disk = record { vnodes = vnode ∷ []; files = no_files; dbs = λ path. [] }

abbrev calls : Calls list_engine
calls = record {
  root = codes "/d";
  open_error = λ path. 0;
  read_error = λ path. 0;
  has_table = λ path. true;
  parts = λ part. done;
}

abbrev file_a : List ℕ
file_a = codes "storage_vnode3/object/a.txt"

abbrev file_b : List ℕ
file_b = codes "storage_vnode3/object/b.txt"

abbrev hash : List ℕ
hash = codes "0123456789abcdef0123456789abcdef"

abbrev old_hash : List ℕ
old_hash = codes "fedcba9876543210fedcba9876543210"

abbrev entry : List ℕ → CheckInfo
entry path = record {
  file_path = path ++ replicate (256 - length path) 0;
  hash_code = padded_hash hash;
}

file_a-IsEntry : IsEntry file_a hash
unfolding text is_quotable has_no_quote first_dir
file_a-IsEntry = record {
  dir = codes "storage_vnode3";
  has_dir = refl;
  dir_fits = omega arith;
  no_zero = omega arith;
  not_empty = omega arith;
  path_fits = omega arith;
  hash_fits = omega arith;
  selectable = record { fits = omega arith; quotable = refl };
  insertable = record { fits = omega arith; quotable = refl };
}

do_data_file_check-once_example :
    (d' : Disk list_engine) × (do_data_file_check list_engine calls disk file_a (padded_hash hash)
      ≡ ret (d', 0, true))
    × (do_data_file_check list_engine calls
          (record d' { files = no_files })
          file_a
          (padded_hash hash)
        ≡ ret (record d' { files = no_files }, 0, false))
unfolding with_path list_engine-IsSql same_bytes file_a-IsEntry
do_data_file_check-once_example =
    do_data_file_check-once list_engine list_engine-IsSql calls disk file_a hash file_a-IsEntry
      no_files refl refl

abbrev old_row : VnodeHashCode
old_row = record { file_path = file_a; hash_code = old_hash }

abbrev old_disk : Disk list_engine
old_disk = record disk { dbs = λ path. old_row ∷ [] }

do_data_file_check-again_example :
    (do_data_file_check list_engine calls old_disk file_a (padded_hash hash)
      ≡ ret (old_disk, 0, true))
    × (do_data_file_check list_engine calls
          (record old_disk { files = no_files })
          file_a
          (padded_hash hash)
        ≡ ret (record old_disk { files = no_files }, 0, true))
unfolding with_path list_engine-IsSql same_bytes file_a-IsEntry
do_data_file_check-again_example =
    do_data_file_check-again list_engine list_engine-IsSql calls old_disk file_a hash file_a-IsEntry
      old_row no_files refl refl (record { path_fits = omega arith; hash_fits = omega arith }) refl

abbrev peer : Peer
peer = record { open_error = 0; header_sent = 0; body_sent = 0 }

abbrev request : Message
request = message (int2buff 3 ++ (long2buff 7 ++ put_checks (entry file_a ∷ entry file_b ∷ [])))

abbrev heap : ℕ → List ℕ
heap n = replicate n 170

abbrev unserved : Answered list_engine
unserved = record { after = disk; sent = []; code = 1 }

abbrev served : Answered list_engine
served = elim (msg_file_check_handle list_engine calls heap disk peer request) [
  | ret r ↦ r
  | fault x ↦ unserved
]

abbrev answer_body : List ℕ
answer_body = file_b ++ 0 ∷ replicate (512 - length file_b - 1) 170

request-ShortNames : ShortNames (check_count request) (drop 12 request.body)
unfolding check_count body_len int2buff long2buff put_checks put_check get_check read_string
request-ShortNames =
    one_more 1 _ file_a (padded_hash hash) refl (omega arith)
      (one_more 0 _ file_b (padded_hash hash) refl (omega arith) (no_more _))

is_served : msg_file_check_handle list_engine calls heap disk peer request ≡ ret served
unfolding msg_file_check_handle check_files check_vnode check_count check_reply body_len put_checks
    put_check int2buff long2buff buff2int32 buff2int64 get_vnode set_vnode_status set_vnode_version
    check_loop get_check read_string check_round do_file_hashcode_check do_data_file_check last_dot
    first_dir hash_db_path vnode_dir decimal same_bytes erase_path want delete_rest
    query_all_hashcode query_hashcode_by_filepath insert_record delete_record callback printed text
    is_quotable has_no_quote with_path
is_served = refl

served-sent : served.sent ≡ server_header 512 0 ∷ answer_body ∷ []
unfolding msg_file_check_handle check_files check_vnode check_count check_reply body_len put_checks
    put_check int2buff long2buff buff2int32 buff2int64 get_vnode set_vnode_status set_vnode_version
    check_loop get_check read_string check_round do_file_hashcode_check do_data_file_check last_dot
    first_dir hash_db_path vnode_dir decimal same_bytes erase_path want delete_rest
    query_all_hashcode query_hashcode_by_filepath insert_record delete_record callback printed text
    is_quotable has_no_quote with_path
served-sent = refl

msg_file_check_handle-IsStale_example :
    (m : ℕ) × (drop 256 answer_body ≡ take m (drop 256 (heap (check_count request * 256))))
msg_file_check_handle-IsStale_example =
    msg_file_check_handle-IsStale list_engine calls heap disk peer request served
      (server_header 512 0) answer_body request-ShortNames is_served served-sent
