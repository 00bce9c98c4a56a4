-- ===== src/Storage/Checking.antt =====
-- msg_file_check_handle of src/storagenode/storage_msg_parser.cpp: a storage node is told the files of a
-- vnode with their hash codes, and answers which of them it wants. Locks and allocations succeed.
pub mod Answering
pub mod Tables
pub mod Slots
pub mod Keeping
mod Tests
use kunlun.Prelude.Run.{Run, ret, fault, out_of_bounds, null_deref, wild_pointer, ◌>>=◌, or_fault}
use kunlun.Prelude.Text.{codes, decimal}
use kunlun.Serializer.{long2buff, buff2int32, buff2int64}
use kunlun.Hex.{bin2hex}
use kunlun.Md5.{Md5, update_file, digest}
use kunlun.NameSpace.{einval, new_md5}
use kunlun.Proxy.{same_bytes}
use kunlun.Node.Status
use kunlun.Handler.{Message, read_string}
use kunlun.Storage.{StorageVnode, Part, Outcome, get_vnode, set_vnode_status, add_vnode, enomem}
use kunlun.Storage.Files.{Files, cut_path, file_path}
use kunlun.Storage.Objects.{Peer, System, server_header, body_len}
use kunlun.Storage.Copying.{copy_path}
use kunlun.Storage.HashCode.{
  Engine, VnodeHashCode, insert_record, delete_record, query_all_hashcode,
  query_hashcode_by_filepath, minus_two,
}
use kunlun.Prelude.{
  ℕ, zero, suc, ◌+◌, ◌-◌, ◌*◌, ◌/◌, ◌%◌, ◌^◌, List, [], ◌∷◌, ◌++◌, Bool, true, false, not, Option,
  none, some, length, take, drop, replicate, ltb, ◌==◌, if◌then◌else◌, low_bits,
}

-- sizeof(sync_vnode_info), sizeof(check_file_info) and sizeof(check_file_resp)
abbrev pub vnode_info_size : ℕ
vnode_info_size = 12

abbrev pub check_info_size : ℕ
check_info_size = 289

abbrev pub check_resp_size : ℕ
check_resp_size = 256

-- A check_file_info: the bytes of its fields.
pub record CheckInfo : Type 0 where
  pub file_path : List ℕ
  pub hash_code : List ℕ

unfoldable pub put_check : CheckInfo → List ℕ
put_check c = c.file_path ++ c.hash_code

unfoldable pub put_checks : List CheckInfo → List ℕ
put_checks [] = []
put_checks (c ∷ cs) = put_check c ++ put_checks cs

-- The string in the path field of the check_file_info at the head of a buffer, and its hash code.
unfoldable pub get_check : List ℕ → Run (List ℕ × List ℕ)
get_check unit = do path ← read_string unit; ret (path, take 33 (drop 256 unit))

-- The part of a path from its last '.' on; `none` where strrchr finds none.
pub last_dot : List ℕ → Option (List ℕ)
last_dot [] = none
last_dot (c ∷ cs) = elim (last_dot cs) [
  | none ↦ if c == 46 then some (c ∷ cs) else none
  | some suffix ↦ some suffix
]

-- The part of a path before its first '/'; `none` where strchr finds none.
pub first_dir : List ℕ → Option (List ℕ)
first_dir [] = none
first_dir (c ∷ cs) = elim (first_dir cs) [
  | none ↦ if c == 47 then some [] else none
  | some dir ↦ some (if c == 47 then [] else c ∷ dir)
]

-- "%s/%s/object/hashcode.db" for a directory, which is "storage_vnode%d" for a vnode
pub hash_db_path : List ℕ → List ℕ → List ℕ
hash_db_path root dir = cut_path (root ++ (codes "/" ++ (dir ++ codes "/object/hashcode.db")))

unfoldable pub vnode_dir : ℕ → List ℕ
vnode_dir id = codes "storage_vnode" ++ decimal id

-- An MD5 object behind its update with a file and the call of digest.
pub file_digest : Md5 → List ℕ → Md5
file_digest m bytes = digest (update_file (length bytes) m bytes)

-- What MD5::to_string leaves in a buffer of 33 characters.
unfoldable pub md5_text : Md5 → List ℕ
md5_text m = elim (bin2hex 33 (take 16 m.digest_bytes)) [ none ↦ replicate 33 0 | some hex ↦ hex ]

-- A write of the version through the pointer of get_vnode.
unfoldable pub set_vnode_version : List StorageVnode → ℕ → ℕ → List StorageVnode
set_vnode_version [] id version = []
set_vnode_version (v ∷ vs) id version =
    let rest = set_vnode_version vs id version in
    if v.vnode_id == id then record v { vnode_version = version } ∷ vs else v ∷ rest

-- A string in a buffer of 33 characters that held zeros.
abbrev pub padded_hash : List ℕ → List ℕ
padded_hash text = text ++ replicate (33 - length text) 0

module _ (e : Engine) where
  open e use {Db}

  -- The vnodes, the files and the databases of a storage node, by their paths.
  pub record Disk : Type 0 where
    pub vnodes : List StorageVnode
    pub files : Files
    pub dbs : List ℕ → Db

  -- What the calls below the disk do: g_device_root, the errno of opening a file, the result of
  -- MD5::update on it, whether a CTbHashCode can be made (it throws
  -- a message otherwise), and the parts of a new vnode.
  pub record Calls : Type 0 where
    pub root : List ℕ
    pub open_error : List ℕ → ℕ
    pub read_error : List ℕ → ℕ
    pub has_table : List ℕ → Bool
    pub parts : Part → Outcome

  abbrev pub set_db : Disk → List ℕ → Db → Disk
  set_db d path db = record d { dbs = λ p. if same_bytes p path then db else d.dbs p }

  -- do_db_file_check: the code, and bsync_flag.
  pub do_db_file_check : Calls → Disk → List ℕ → List ℕ → ℕ × Bool
  do_db_file_check c d path hash =
      let true_path = file_path c.root path in
      elim (d.files true_path) [
        | none ↦ (if c.open_error true_path == 0 then 2 else c.open_error true_path, false)
        | some bytes ↦
            if not (c.open_error true_path == 0)
            then (c.open_error true_path, false)
            else (if not (c.read_error true_path == 0)
                then (c.read_error true_path, false)
                else (0, not (same_bytes (md5_text (file_digest new_md5 bytes)) hash)))
      ]

  -- do_data_file_check: a file that the table does not have is put into it; the result of that is
  -- not looked at. The name of the directory is copied into an array of KL_COMMON_PATH_LEN characters.
  unfoldable pub do_data_file_check : Calls → Disk → List ℕ → List ℕ → Run (Disk × ℕ × Bool)
  do_data_file_check c d path hash = do
    dir ← or_fault (first_dir path) null_deref
    let db_path = hash_db_path c.root dir
    if not (ltb (length dir) 256)
        then fault out_of_bounds
        else (if not (c.has_table db_path) then ret (d, enomem, false) else (do
          let db = d.dbs db_path
          (local, code) ← query_hashcode_by_filepath e path db
          let differs = not (same_bytes (padded_hash local) hash)
          if code == minus_two
              then (if ltb (length path) 256
                  then (do
                    text ← read_string hash
                    let (db', code') =
                        insert_record e (record { file_path = path; hash_code = text }) db
                    ret (set_db d db_path db', 0, differs))
                  else fault out_of_bounds)
              else ret (d, 0, differs)))

  -- do_file_hashcode_check
  pub do_file_hashcode_check : Calls → Disk → List ℕ → List ℕ → Run (Disk × ℕ × Bool)
  do_file_hashcode_check c d path hash = do
    suffix ← or_fault (last_dot path) null_deref
    if same_bytes suffix (codes ".db")
        then (let (code, sync) = do_db_file_check c d path hash in ret (d, code, sync))
        else do_data_file_check c d path hash

  -- The first record of a path is erased from file_hashcode_list.
  pub erase_path : List ℕ → List VnodeHashCode → List VnodeHashCode
  erase_path path [] = []
  erase_path path (r ∷ rs) =
      let rest = erase_path path rs in if same_bytes r.file_path path then rs else r ∷ rest

  -- What the loop over the check_file_infos has: the disk, file_hashcode_list, the block at
  -- presp_body, and nsync_file_count.
  pub record Checked : Type 0 where
    pub disk : Disk
    pub list : List VnodeHashCode
    pub block : List ℕ
    pub wanted : ℕ

  -- A file that is wanted: pfile_resp_info is set to presp_body in each round, so that its path goes
  -- to the first check_file_resp of the block.
  pub want : List ℕ → Checked → Run Checked
  want path k =
      if ltb (length path) (length k.block)
      then ret
          (record k { block = path ++ 0 ∷ drop (length path + 1) k.block; wanted = k.wanted + 1 })
      else fault out_of_bounds

  -- A round of the loop, and the code of do_file_hashcode_check.
  pub check_round : Calls → List ℕ → List ℕ → Checked → Run (Checked × ℕ)
  check_round c path hash k = do
    (disk, code, sync) ← do_file_hashcode_check c k.disk path hash
    let k' = record k { disk = disk; list = erase_path path k.list }
    if not (code == 0)
        then ret (k', code)
        else (if sync then (do k'' ← want path k'; ret (k'', 0)) else ret (k', 0))

  -- The rounds left of the loop.
  unfoldable pub check_loop : Calls → ℕ → List ℕ → Checked → Run (Checked × ℕ)
  check_loop c zero infos k = ret (k, 0)
  check_loop c (suc n) infos k = do
    (path, hash) ← get_check infos
    (k', code) ← check_round c path hash k
    let rest = check_loop c n (drop check_info_size infos) k'
    if code == 0 then rest else ret (k', code)

  -- The files that are left in file_hashcode_list are deleted.
  unfoldable pub delete_rest : Calls → List ℕ → List VnodeHashCode → Disk → Disk
  delete_rest c db_path [] d = d
  delete_rest c db_path (r ∷ rs) d =
      let true_path = file_path c.root r.file_path in
      let (db, code) = delete_record e r.file_path (d.dbs db_path) in
      let d' = set_db d db_path db in
      delete_rest c db_path rs
        (record d' { files = λ p. if same_bytes p true_path then none else d.files p })
