-- ===== src/Storage/Comparing/Version.antt =====
-- The request for a vnode of version 2, src/storagenode/thread_sync_data.cpp, and what
-- msg_file_check_handle of storage_msg_parser.cpp does with it.
use kunlun.Prelude.Run.{fault, wild_pointer}
use kunlun.Serializer.{int2buff, long2buff}
use kunlun.Node.Status
use kunlun.Storage.{StorageVnode, get_vnode, set_vnode_status}
use kunlun.Storage.Objects.{Peer, body_len}
use kunlun.Storage.Objects.Stored.{message}
use kunlun.Storage.HashCode.{Engine}
use kunlun.Storage.Checking.{CheckInfo, put_checks, Disk, Calls}
use kunlun.Storage.Checking.Answering.{check_vnode, msg_file_check_handle}
use kunlun.Storage.Comparing.Wire.{AreChecks, check_request-read}
use kunlun.Prelude.{ℕ, ◌^◌, ◌<◌, ◌≡◌, refl, true, List, ◌++◌, some, length, IsU32, arith}

check_vnode-at_once :
    (e : Engine) (c : Calls e) (id : ℕ) (vs : List StorageVnode) (v : StorageVnode)
    → get_vnode vs id ≡ some v
    → check_vnode e c id 2 vs ≡ (set_vnode_status vs id Status.wait_sync, 0, true)
unfolding check_vnode
check_vnode-at_once e c id vs v found = rw (found, check_vnode) refl

-- A storage node that has a vnode and is asked to check the files of it at version 2, the number of the
-- status WAIT_SYNC, deletes a block that it never allocated, whatever version it has itself.
pub msg_file_check_handle-wild :
    (e : Engine) (c : Calls e) (heap : ℕ → List ℕ) (d : Disk e) (peer : Peer) (id : ℕ)
    (v : StorageVnode) (cs : List CheckInfo) (reads : List (List ℕ × List ℕ))
    → IsU32 id
    → AreChecks cs reads
    → length cs < 2 ^ 31
    → get_vnode d.vnodes id ≡ some v
    → peer.open_error ≡ 0
    → msg_file_check_handle e c heap d peer
        (message (int2buff id ++ (long2buff 2 ++ put_checks cs)))
      ≡ fault wild_pointer
unfolding msg_file_check_handle body_len int2buff
msg_file_check_handle-wild e c heap d peer id v cs reads u32 ok few found opened =
    let body = int2buff id ++ (long2buff 2 ++ put_checks cs) in
    let (whole, count, id_back, version_back, behind) =
      check_request-read id 2 cs reads u32 (omega arith) ok few in
    rw (whole, opened, id_back, version_back, check_vnode-at_once e c id d.vnodes v found) refl
