-- ===== src/Storage/Comparing/Tests.antt =====
-- Two small storage nodes of src/storagenode that compare a vnode.
use kunlun.Prelude.Run.{ret, ◌>>=◌, fault, wild_pointer}
use kunlun.Prelude.Text.{codes, decimal}
use kunlun.Serializer.{int2buff, long2buff, buff2int32, buff2int64}
use kunlun.Hex.{bin2hex}
use kunlun.Hex.RoundTrip.{length-bin2hex}
use kunlun.Md5.{Md5, reset}
use kunlun.NameSpace.{new_md5}
use kunlun.Node.Status
use kunlun.Storage.{StorageVnode, done, get_vnode}
use kunlun.Storage.Files.{Files}
use kunlun.Storage.Objects.{Peer, body_len}
use kunlun.Storage.Objects.Stored.{message}
use kunlun.Storage.HashCode.{
  VnodeHashCode, query_all_hashcode, printed, callback, text, is_quotable,
}
use kunlun.Storage.HashCode.Engines.{list_engine}
use kunlun.Storage.Checking.{
  CheckInfo, put_checks, padded_hash, Disk, Calls, vnode_dir, vnode_info_size, check_info_size,
  Checked, check_loop, md5_text, file_digest,
}
use kunlun.Storage.Checking.Answering.{check_count, msg_file_check_handle}
use kunlun.Storage.Copying.{copy_path}
use kunlun.Storage.BeatHeart.{Node, SyncMessage}
use kunlun.Storage.Comparing.Running.{Turn, do_event, run_sync, run_sync_lem}
use kunlun.Storage.Comparing.{
  Meeting, follow_answer, check_and_sync_vnode, do_sync_event, db_checks, db_names, check_body,
  data_check,
}
use kunlun.Storage.Comparing.Wire.{IsCheck, IsRow, read_row, check_all, check_body-read}
use kunlun.Storage.Comparing.Version.{msg_file_check_handle-wild}
use kunlun.Prelude.{
  ℕ, zero, suc, All, Option-cases, inl, inr, ◌≢◌, ◌-◌, ◌+◌, ◌^◌, ◌%◌, low_bits, ◌≡◌, refl, none,
  ◌==◌, if◌then◌else◌, List, [], ◌∷◌, ◌++◌, true, some, length, take, drop, replicate, arith,
}

abbrev vnode : StorageVnode
vnode = record { vnode_id = 3; vnode_status = Status.active; vnode_version = 6 }

abbrev empty_files : Files
empty_files path = some []

abbrev row : VnodeHashCode
row = record {
  file_path = codes "storage_vnode3/object/a.txt";
  hash_code = codes "0123456789abcdef0123456789abcdef";
}

abbrev disk : Disk list_engine
disk = record { vnodes = vnode ∷ []; files = empty_files; dbs = λ path. row ∷ [] }

abbrev calls : Calls list_engine
calls = record {
  root = codes "/d";
  open_error = λ path. 0;
  read_error = λ path. 0;
  has_table = λ path. true;
  parts = λ part. done;
}

-- The new request holds ones.
abbrev stale : ℕ → List ℕ
stale i = replicate 256 1

abbrev peer : Peer
peer = record { open_error = 0; header_sent = 0; body_sent = 0 }

row-IsRow : IsRow row
row-IsRow = record { no_zero = omega arith; path_fits = omega arith; hash_fits = omega arith }

abbrev row_check : CheckInfo
row_check = record {
  file_path = row.file_path ++ 0 ∷ replicate (255 - length row.file_path) 0;
  hash_code = padded_hash row.hash_code;
}

row_check-IsCheck : IsCheck row_check
row_check-IsCheck = record {
  name = row.file_path;
  pad = replicate (255 - length row.file_path) 0;
  field = refl;
  no_zero = omega arith;
  path_fits = refl;
  hash_fits = refl;
}

vnode-found : get_vnode (vnode ∷ []) 3 ≡ some vnode
unfolding get_vnode
vnode-found = refl

msg_file_check_handle-wild_example :
    msg_file_check_handle list_engine calls
      (λ n. replicate n 170)
      disk
      peer
      (message (int2buff 3 ++ (long2buff 2 ++ put_checks (row_check ∷ []))))
    ≡ fault wild_pointer
unfolding row_check-IsCheck
msg_file_check_handle-wild_example =
    msg_file_check_handle-wild list_engine calls (λ n. replicate n 170) disk peer 3 vnode
      (row_check ∷ []) ((row.file_path, padded_hash row.hash_code) ∷ []) (omega arith)
      ((row_check-IsCheck, refl), refl) (omega arith) vnode-found refl

length-md5_text : (m : Md5) → length (md5_text m) ≡ 33
unfolding md5_text
length-md5_text m = elim (Option-cases (bin2hex 33 (take 16 m.digest_bytes))) [
  | inl e ↦ rw (e, length) refl
  | inr (hex, e) ↦ rw (e, length) (length-bin2hex 33 (take 16 m.digest_bytes) hex e)
]

-- The MD5 object at each of the three databases, which are empty files.
abbrev md5_at : ℕ → Md5
md5_at zero = new_md5
md5_at (suc i) = reset (file_digest (md5_at i) [])

abbrev db_check : ℕ → List ℕ → CheckInfo
db_check i name = record {
  file_path = name ++ 0 ∷ replicate (255 - length name) 1;
  hash_code = md5_text (file_digest (md5_at i) []);
}

abbrev account_db : List ℕ
account_db = codes "storage_vnode3/account/account.db"

abbrev container_db : List ℕ
container_db = codes "storage_vnode3/container/container.db"

abbrev deleted_db : List ℕ
deleted_db = codes "storage_vnode3/object/delete_file_record.db"

abbrev dbs : List CheckInfo
dbs = db_check 0 deleted_db ∷ db_check 1 account_db ∷ db_check 2 container_db ∷ []

abbrev db_read : ℕ → List ℕ → List ℕ × List ℕ
db_read i name = (name, md5_text (file_digest (md5_at i) []))

dbs-checked : db_checks list_engine calls empty_files stale 0 new_md5 (db_names 3) ≡ ret (dbs, 0)
unfolding db_checks db_names vnode_dir decimal copy_path
dbs-checked = refl

abbrev db-IsCheck :
    (i : ℕ) (name : List ℕ)
    → All (λ x. x ≢ 0) name
    → length (db_check i name).file_path ≡ 256
    → IsCheck (db_check i name)
db-IsCheck i name h len = record {
  name = name;
  pad = replicate (255 - length name) 1;
  field = refl;
  no_zero = h;
  path_fits = len;
  hash_fits = length-md5_text (file_digest (md5_at i) []);
}

table-queried : query_all_hashcode list_engine (row ∷ []) ≡ ret (row ∷ [], 0)
unfolding query_all_hashcode callback printed text is_quotable
table-queried = refl

abbrev heap : Checked list_engine
heap = record { disk = disk; list = []; block = replicate 1024 170; wanted = 0 }

check_body-read_example :
    (body : List ℕ) × (check_body list_engine calls disk stale 3 ≡ ret (body, 0))
    × (low_bits (body_len (message body) + 2 ^ 64 - vnode_info_size) 64 % check_info_size ≡ 0)
    × (buff2int32 body ≡ some 3)
    × (buff2int64 (drop 4 body) ≡ some 6)
    × (check_loop list_engine calls (check_count (message body)) (drop vnode_info_size body) heap
        ≡ check_all list_engine calls
            (read_row row
              ∷ db_read 0 deleted_db
              ∷ db_read 1 account_db
              ∷ db_read 2 container_db
              ∷ [])
            heap)
check_body-read_example =
    check_body-read list_engine calls disk stale 3 vnode (row ∷ []) dbs
      (db_read 0 deleted_db ∷ db_read 1 account_db ∷ db_read 2 container_db ∷ []) list_engine calls
      heap (omega arith) (omega arith) refl table-queried vnode-found dbs-checked (row-IsRow, tt)
      (
        (db-IsCheck 0 deleted_db (omega arith) refl, refl),
        (
          (db-IsCheck 1 account_db (omega arith) refl, refl),
          ((db-IsCheck 2 container_db (omega arith) refl, refl), refl),
        ),
      )
      (omega arith)

abbrev event : ℕ → SyncMessage
event id = record { vnode_id = id; sync_dest_port = 80; sync_dest_ip = codes "10.0.0.2" }

abbrev idle_node : Node
idle_node = record { vnodes = []; sync_msgs = []; sync_down = [] }

-- The other node wants no file.
abbrev meeting : Meeting
meeting = record {
  stale = stale;
  sends = record { header_sent = 0; body_sent = 0 };
  answer = record { header_error = 0; len = 0; cmd = 0; status = 0; body_error = 0; body = [] };
  copies = λ i. record {
    stale = replicate 256 170;
    header_sent = 0;
    info_sent = 0;
    errno = 11;
    answer_error = 0;
    answer_status = 0;
  };
}

-- The second connection is refused.
abbrev turns : ℕ → Turn list_engine
turns i = record {
  calls = calls;
  system = record {
    root = codes "/d";
    make_dir = λ dir. 0;
    file = λ path. record { open_error = 0; calls = []; refusal = 22 };
    stat_error = 0;
  };
  disk = disk;
  meeting = meeting;
  thrown = 0;
  connected = i;
  errno = 111;
}

abbrev request : List ℕ
request = int2buff 3 ++ (long2buff 6 ++ put_checks (row_check ∷ dbs))

request-made : check_body list_engine calls disk stale 3 ≡ ret (request, 0)
unfolding check_body data_check
request-made = rw (table-queried, vnode-found, dbs-checked) refl

event_3-served : (sent : List (List ℕ)) × (do_event list_engine (turns 0) (event 3) ≡ ret (sent, 0))
unfolding do_sync_event check_and_sync_vnode follow_answer
event_3-served = ((long2buff (length request) ++ 1 ∷ 0 ∷ []) ∷ request ∷ [], rw request-made refl)

run_sync_lem_example :
    (run_sync list_engine turns 0 (event 3 ∷ []) idle_node
      ≡ ret (record idle_node { sync_msgs = []; sync_down = 3 ∷ [] }, none))
    × (run_sync list_engine turns 0 (event 3 ∷ event 4 ∷ event 5 ∷ []) idle_node ≡ (do
      (sent, code) ← do_event list_engine (turns 1) (event 4)
      let rest =
          run_sync list_engine turns 2 (event 5 ∷ []) (record idle_node { sync_down = 3 ∷ 4 ∷ [] })
      if code == 0
          then rest
          else ret (record idle_node { sync_msgs = event 5 ∷ []; sync_down = 3 ∷ [] }, some code)))
run_sync_lem_example =
    run_sync_lem list_engine turns 0 (event 3 ∷ []) (event 4) (event 5 ∷ []) idle_node
      (event_3-served, tt)
