-- ===== src/Storage/Parser/Tests.antt =====
-- Messages to a small storage node of src/storagenode, one after the other.
use kunlun.Prelude.Run.{ret}
use kunlun.Prelude.Text.{codes}
use kunlun.Serializer.{int2buff, long2buff, buff2int32, buff2int64}
use kunlun.Node.Status
use kunlun.Storage.{StorageVnode, done, get_vnode, set_vnode_status, add_vnode, make_parts}
use kunlun.Storage.Container.{IsDistinct}
use kunlun.Storage.Files.{moved}
use kunlun.Storage.Objects.{Peer, System, body_len}
use kunlun.Storage.Objects.Relaying.{Second}
use kunlun.Storage.Objects.Stored.{message}
use kunlun.Storage.HashCode.{query_all_hashcode, callback, printed, text, is_quotable}
use kunlun.Storage.HashCode.Engines.{list_engine}
use kunlun.Storage.Checking.{Disk, Calls, set_vnode_version, delete_rest, check_loop}
use kunlun.Storage.Checking.Answering.{
  check_count, check_files, check_vnode, check_reply, msg_file_check_handle,
}
use kunlun.Storage.Parser.{Outside, parse_msg}
use kunlun.Storage.Parser.Distinct.{Arrival, parse_all, parse_all-IsDistinct}
use kunlun.Prelude.{ℕ, ◌≡◌, refl, [], ◌∷◌, ◌++◌, true, none, some, replicate}

abbrev vnode : StorageVnode
vnode = record { vnode_id = 3; vnode_status = Status.active; vnode_version = 6 }

abbrev disk : Disk list_engine
disk = record { vnodes = vnode ∷ []; files = λ path. none; dbs = λ path. [] }

abbrev system : System
system = record {
  root = codes "/d";
  make_dir = λ dir. 0;
  file = λ path. record { open_error = 0; calls = moved 5 ∷ []; refusal = 22 };
  stat_error = 0;
}

abbrev calls : Calls list_engine
calls = record {
  root = codes "/d";
  open_error = λ path. 0;
  read_error = λ path. 0;
  has_table = λ path. true;
  parts = λ part. done;
}

abbrev nobody : ℕ → Second
nobody i = record {
  connect_error = 111;
  header_sent = 0;
  file = record { open_error = 0; calls = []; refusal = 22 };
  stat_error = 0;
  answer_error = 0;
  answer_status = 0;
}

abbrev outside : Outside list_engine
outside = record { system = system; calls = calls; heap = λ n. replicate n 170; nodes = nobody }

abbrev peer : Peer
peer = record { open_error = 0; header_sent = 0; body_sent = 0 }

-- A check of no files of a vnode at version 7.
abbrev check : ℕ → Arrival list_engine
check id = record {
  outside = outside;
  peer = peer;
  cmd = some 1;
  msg = message (int2buff id ++ long2buff 7);
}

abbrev checked : ℕ → StorageVnode
checked id = record { vnode_id = id; vnode_status = Status.wait_sync; vnode_version = 7 }

abbrev disk_after : Disk list_engine
disk_after = record disk { vnodes = checked 3 ∷ checked 4 ∷ [] }

all-parsed : parse_all list_engine disk (check 3 ∷ check 4 ∷ check 4 ∷ []) ≡ ret disk_after
unfolding parse_all parse_msg msg_file_check_handle body_len int2buff long2buff buff2int32
    buff2int64 check_vnode check_files check_count check_reply get_vnode set_vnode_status
    set_vnode_version add_vnode make_parts query_all_hashcode callback printed text is_quotable
    check_loop delete_rest
all-parsed = refl

parse_all-IsDistinct_example : IsDistinct disk_after.vnodes
parse_all-IsDistinct_example =
    parse_all-IsDistinct list_engine disk disk_after (check 3 ∷ check 4 ∷ check 4 ∷ []) (tt, tt)
      all-parsed
