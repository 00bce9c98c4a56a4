-- ===== src/Storage/Checking/Answering.antt =====
-- The handler msg_file_check_handle of src/storagenode/storage_msg_parser.cpp around its loop over files.
use kunlun.Prelude.Run.{Run, ret, fault, out_of_bounds, wild_pointer, ◌>>=◌, or_fault}
use kunlun.Serializer.{buff2int32, buff2int64}
use kunlun.NameSpace.{einval}
use kunlun.Node.Status
use kunlun.Handler.{Message}
use kunlun.Storage.{StorageVnode, get_vnode, set_vnode_status, add_vnode, enomem}
use kunlun.Storage.Objects.{Peer, server_header, body_len}
use kunlun.Storage.HashCode.{Engine, query_all_hashcode}
use kunlun.Storage.Checking.{
  vnode_info_size, check_info_size, check_resp_size, hash_db_path, vnode_dir, set_vnode_version,
  Disk, Calls, Checked, check_loop, delete_rest,
}
use kunlun.Prelude.{
  ℕ, ◌+◌, ◌-◌, ◌*◌, ◌/◌, ◌%◌, ◌^◌, List, [], ◌∷◌, Bool, true, false, not, none, some, take, drop,
  ltb, ◌==◌, if◌then◌else◌, low_bits,
}

-- file_count, an int
unfoldable pub check_count : Message → ℕ
check_count msg =
    let n = low_bits (low_bits (body_len msg + 2 ^ 64 - vnode_info_size) 64 / check_info_size) 32 in
    if ltb n (2 ^ 31) then n else 0

module _ (e : Engine) where
  -- The part of msg_file_check_handle behind the vnode: `block` is presp_body as it is allocated.
  unfoldable pub check_files :
      (Calls e) → ℕ → ℕ → List ℕ → List ℕ → (Disk e) → Run ((Checked e) × ℕ)
  check_files c id n infos block d =
      let db_path = hash_db_path c.root (vnode_dir id) in
      if not (c.has_table db_path)
      then ret (record { disk = d; list = []; block = block; wanted = 0 }, enomem)
      else (do
        (list, ignored) ← query_all_hashcode e (d.dbs db_path)
        (k, code) ←
            check_loop e c n infos (record { disk = d; list = list; block = block; wanted = 0 })
        ret (
            if code == 0
            then (record k { disk = delete_rest e c db_path k.list k.disk }, 0)
            else (k, code)))

  -- The container after the vnode of a check is looked up, and the code with which that fails, or 0; the
  -- flag is set where the handler goes on to the answer at once. It compares the status that it has
  -- just set with the version of the message.
  unfoldable pub check_vnode : (Calls e) → ℕ → ℕ → List StorageVnode → List StorageVnode × ℕ × Bool
  check_vnode c id version vs = elim (get_vnode vs id) [
    | some v ↦
        let waiting = set_vnode_status vs id Status.wait_sync in
        if Status.wait_sync == version
        then (waiting, 0, true)
        else (set_vnode_version waiting id version, 0, false)
    | none ↦
        let v : StorageVnode = record {
          vnode_id = id;
          vnode_status = Status.wait_sync;
          vnode_version = version;
        } in
        let (vs', code) = add_vnode c.parts vs (some v) in (vs', code, false)
  ]

  -- The disk afterwards, the buffers handed to stream_send, and the result.
  pub record Answered : Type 0 where
    pub after : (Disk e)
    pub sent : List (List ℕ)
    pub code : ℕ

  -- do_err_resp and do_success_resp
  unfoldable pub check_reply : Peer → (Checked e) → ℕ → Answered
  check_reply peer k code =
      let len = low_bits (low_bits k.wanted 32 * check_resp_size) 64 in
      if not (code == 0)
      then record { after = k.disk; sent = server_header 0 code ∷ []; code = code }
      else (if not (peer.header_sent == 0)
          then record { after = k.disk; sent = server_header len 0 ∷ []; code = peer.header_sent }
          else (if len == 0
              then record { after = k.disk; sent = server_header len 0 ∷ []; code = 0 }
              else record {
                after = k.disk;
                sent = server_header len 0 ∷ take len k.block ∷ [];
                code = peer.body_sent;
              }))

  -- msg_file_check_handle; `heap` is the memory of a new block of a size. Where it goes on to the answer
  -- at once, it deletes presp_body, which nothing has set.
  unfoldable pub msg_file_check_handle :
      (Calls e) → (ℕ → List ℕ) → (Disk e) → Peer → Message → Run Answered
  msg_file_check_handle c heap d peer msg =
      if not (low_bits (body_len msg + 2 ^ 64 - vnode_info_size) 64 % check_info_size == 0)
      then ret (record { after = d; sent = []; code = einval })
      else (if not (peer.open_error == 0)
          then ret (record { after = d; sent = []; code = peer.open_error })
          else (do
            id ← or_fault (buff2int32 msg.body) out_of_bounds
            version ← or_fault (buff2int64 (drop 4 msg.body)) out_of_bounds
            let (vs, code, at_once) = check_vnode c id version d.vnodes
            let n = check_count msg
            let d' = record d { vnodes = vs }
            if at_once
                then fault wild_pointer
                else (if not (code == 0)
                    then ret (
                        check_reply peer (record { disk = d'; list = []; block = []; wanted = 0 })
                          code)
                    else (do
                      (k, code') ←
                          check_files c id n (drop vnode_info_size msg.body)
                            (heap (n * check_resp_size)) d'
                      ret (check_reply peer k code')))))
