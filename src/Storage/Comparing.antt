-- ===== src/Storage/Comparing.antt =====
-- check_and_sync_vnode and do_sync_event of src/storagenode/thread_sync_data.cpp: a storage node tells
-- another one the files of a vnode and sends those that it wants. Locks and allocations succeed.
pub mod Wire
pub mod Version
pub mod Running
mod Tests
use kunlun.Prelude.Run.{Run, ret, fault, null_deref, ◌>>=◌, or_fault}
use kunlun.Prelude.Text.{codes}
use kunlun.Serializer.{int2buff, long2buff}
use kunlun.Md5.{Md5, reset}
use kunlun.NameSpace.{einval, new_md5}
use kunlun.Balancer.{minus_one}
use kunlun.Handler.{read_string}
use kunlun.Storage.{get_vnode}
use kunlun.Storage.BeatHeart.{Answer, Sends}
use kunlun.Storage.Files.{Files, file_path}
use kunlun.Storage.Objects.{System}
use kunlun.Storage.Copying.{Copying, copy_path, sync_vnode_file}
use kunlun.Storage.HashCode.{Engine, VnodeHashCode, query_all_hashcode}
use kunlun.Storage.Checking.{
  CheckInfo, put_checks, check_resp_size, hash_db_path, vnode_dir, file_digest, md5_text,
  padded_hash, Disk, Calls,
}
use kunlun.Prelude.{
  ℕ, zero, suc, ◌+◌, ◌-◌, ◌/◌, ◌%◌, ◌^◌, List, [], ◌∷◌, ◌++◌, not, none, some, map, length, drop,
  replicate, ltb, ◌==◌, if◌then◌else◌, low_bits,
}

-- The check_file_info of a record: the arrays of a CVnodeHashCode were cleared.
unfoldable pub data_check : VnodeHashCode → CheckInfo
data_check r = record {
  file_path = r.file_path ++ replicate (256 - length r.file_path) 0;
  hash_code = padded_hash r.hash_code;
}

-- The files of a vnode that are databases, in the order of the request.
pub db_names : ℕ → List (List ℕ)
db_names id =
    (vnode_dir id ++ codes "/object/delete_file_record.db")
    ∷ (vnode_dir id ++ codes "/account/account.db")
    ∷ (vnode_dir id ++ codes "/container/container.db")
    ∷ []

-- The check_file_infos that have been filled in, and the code with which that fails, or 0.
abbrev pub Filled : Type 0
Filled = List CheckInfo × ℕ

-- What check_and_sync_vnode meets: the memory of the path fields of its request, by their number, the
-- results of the stream, and what each call of sync_vnode_file meets.
pub record Meeting : Type 0 where
  pub stale : ℕ → List ℕ
  pub sends : Sends
  pub answer : Answer
  pub copies : ℕ → Copying

module _ (e : Engine) where
  -- The hash codes of the databases of a vnode; the MD5 object is reset before each one.
  pub db_checks : Calls e → Files → (ℕ → List ℕ) → ℕ → Md5 → List (List ℕ) → Run Filled
  db_checks c files stale i m [] = ret ([], 0)
  db_checks c files stale i m (name ∷ names) = do
    field ← copy_path (stale i) name
    let path = file_path c.root name
    elim (files path) [
      | none ↦ ret ([], if c.open_error path == 0 then 2 else c.open_error path)
      | some bytes ↦
          if not (c.open_error path == 0)
          then ret ([], c.open_error path)
          else (if not (c.read_error path == 0) then ret ([], c.read_error path) else (do
            let m' = file_digest m bytes
            (others, code) ← db_checks c files stale (i + 1) (reset m') names
            ret (record { file_path = field; hash_code = md5_text m' } ∷ others, code)))
    ]

  -- The body of the request, and the code with which making it fails, or 0.
  pub check_body : Calls e → Disk e → (ℕ → List ℕ) → ℕ → Run (List ℕ × ℕ)
  check_body c d stale id =
      let db_path = hash_db_path c.root (vnode_dir id) in
      if not (c.has_table db_path) then ret ([], minus_one) else (do
        (rows, code) ← query_all_hashcode e (d.dbs db_path)
        if not (code == 0) then ret ([], code) else (do
          v ← or_fault (get_vnode d.vnodes id) null_deref
          (dbs, code') ← db_checks c d.files stale 0 new_md5 (db_names id)
          ret (
            int2buff id ++ (long2buff v.vnode_version ++ put_checks (map data_check rows ++ dbs)),
            code',
          )))

-- The rounds left of the loop over the check_file_resps: the buffers that are sent, and the result.
pub sync_wanted : System → Files → (ℕ → Copying) → ℕ → ℕ → List ℕ → Run (List (List ℕ) × ℕ)
sync_wanted sys files copies zero i resps = ret ([], 0)
sync_wanted sys files copies (suc n) i resps = do
  name ← read_string resps
  (sent, code) ← sync_vnode_file sys files (copies i) name
  let rest = sync_wanted sys files copies n (i + 1) (drop check_resp_size resps)
  if code == 0 then (do (more, code') ← rest; ret (sent ++ more, code')) else ret (sent, code)

-- file_count, an int
unfoldable pub resp_count : ℕ → ℕ
resp_count len = let n = low_bits (len / check_resp_size) 32 in if ltb n (2 ^ 31) then n else 0

-- What follows the request: the answer, and the files that it names.
pub follow_answer : System → Files → Meeting → Run (List (List ℕ) × ℕ)
follow_answer sys files w =
    let r = w.answer in
    if not (r.header_error == 0)
    then ret ([], r.header_error)
    else (if not (r.status == 0)
        then ret ([], r.status)
        else (if r.len == 0
            then ret ([], 0)
            else (if not (r.len % check_resp_size == 0)
                then ret ([], einval)
                else (if not (r.body_error == 0)
                    then ret ([], r.body_error)
                    else sync_wanted sys files w.copies (resp_count r.len) 0 r.body))))

module _ (e : Engine) where
  -- check_and_sync_vnode: the buffers that are sent, and the result.
  pub check_and_sync_vnode : Calls e → System → Disk e → Meeting → ℕ → Run (List (List ℕ) × ℕ)
  check_and_sync_vnode c sys d w id = do
    (body, code) ← check_body e c d w.stale id
    let header = long2buff (length body) ++ 1 ∷ 0 ∷ []
    if not (code == 0)
        then ret ([], code)
        else (if not (w.sends.header_sent == 0)
            then ret (header ∷ [], w.sends.header_sent)
            else (if not (w.sends.body_sent == 0)
                then ret (header ∷ body ∷ [], w.sends.body_sent)
                else (do
                  (sent, code') ← follow_answer sys d.files w
                  ret (header ∷ body ∷ sent, code'))))

  -- do_sync_event: what the constructors of its connector and stream throw, or 0, what stream_connect
  -- returns, and errno behind it.
  pub do_sync_event : Calls e → System → Disk e → Meeting → ℕ → ℕ → ℕ → ℕ → Run (List (List ℕ) × ℕ)
  do_sync_event c sys d w thrown connected errno id =
      if not (thrown == 0)
      then ret ([], thrown)
      else (if not (connected == 0) then ret ([], errno) else check_and_sync_vnode c sys d w id)
