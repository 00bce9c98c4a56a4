-- ===== src/Storage/Checking/Keeping.antt =====
-- A check of files, src/storagenode/storage_msg_parser.cpp, keeps the ids of the vnodes distinct.
use kunlun.Prelude.Run.{
  ret, out_of_bounds, null_deref, wild_pointer, Keeps, Keeps-ret, Keeps-fault, Keeps-if, Keeps->>=,
  or_fault,
}
use kunlun.Serializer.{buff2int32, buff2int64}
use kunlun.Node.Status
use kunlun.Handler.{Message, read_string}
use kunlun.Proxy.{same_bytes}
use kunlun.Prelude.Text.{codes}
use kunlun.Storage.{StorageVnode, get_vnode, add_vnode}
use kunlun.Storage.Container.{IsDistinct, IsDistinct-set, IsDistinct-append, All-get_vnode}
use kunlun.Storage.Objects.{Peer, body_len}
use kunlun.Storage.HashCode.{
  Engine, VnodeHashCode, query_all_hashcode, query_hashcode_by_filepath, minus_two,
}
use kunlun.Storage.Checking.{
  vnode_info_size, check_info_size, check_resp_size, hash_db_path, vnode_dir, set_vnode_version,
  first_dir, last_dot, get_check, Disk, Calls, Checked, do_data_file_check, do_file_hashcode_check,
  erase_path, want, check_round, check_loop, delete_rest,
}
use kunlun.Storage.Checking.Answering.{
  check_files, check_vnode, Answered, check_reply, check_count, msg_file_check_handle,
}
use kunlun.Prelude.{
  ℕ, zero, suc, ◌+◌, ◌-◌, ◌*◌, ◌^◌, ◌%◌, ◌≡◌, ◌≢◌, ◌∙◌, refl, List, [], ◌∷◌, Bool, not, length,
  drop, ltb, low_bits, Option-cases, Bool-cases, inl, inr, All, arith, ◌==◌,
}

module _ (id : ℕ) where
  All-set_vnode_version :
      (k version : ℕ) (vs : List StorageVnode)
      → All (λ w. w.vnode_id ≢ k) vs
      → All (λ w. w.vnode_id ≢ k) (set_vnode_version vs id version)
  unfolding set_vnode_version
  All-set_vnode_version k version [] h = tt
  All-set_vnode_version k version (v ∷ vs) (ne, h) = elim (Bool-cases (v.vnode_id == id)) [
    | inl t ↦ rw (t, set_vnode_version) (ne, h)
    | inr t ↦ rw (t, set_vnode_version) (ne, All-set_vnode_version k version vs h)
  ]

  IsDistinct-set_vnode_version :
      (version : ℕ) (vs : List StorageVnode)
      → IsDistinct vs
      → IsDistinct (set_vnode_version vs id version)
  unfolding set_vnode_version
  IsDistinct-set_vnode_version version [] h = tt
  IsDistinct-set_vnode_version version (v ∷ vs) (ne, h) = elim (Bool-cases (v.vnode_id == id)) [
    | inl t ↦ rw (t, set_vnode_version) (ne, h)
    | inr t ↦
        rw (t, set_vnode_version)
          (
            All-set_vnode_version v.vnode_id version vs ne,
            IsDistinct-set_vnode_version version vs h,
          )
  ]

check_vnode-IsDistinct :
    (e : Engine) (c : Calls e) (id version : ℕ) (vs : List StorageVnode)
    → IsDistinct vs
    → IsDistinct (check_vnode e c id version vs).0
unfolding check_vnode add_vnode
check_vnode-IsDistinct e c id version vs h = elim (Option-cases (get_vnode vs id)) [
  | inl t ↦
      rw (t, check_vnode)
        (IsDistinct-append id vs
          (record { vnode_id = id; vnode_status = Status.wait_sync; vnode_version = version })
          (All-get_vnode id vs t) h)
  | inr (v, t) ↦
      rw (t, check_vnode)
        (let waiting = IsDistinct-set id Status.wait_sync vs h in
          elim (Bool-cases (Status.wait_sync == version)) [
            | inl u ↦ rw u waiting
            | inr u ↦ rw u (IsDistinct-set_vnode_version id version _ waiting)
          ])
]

module _ (e : Engine) (c : Calls e) where
  do_data_file_check-vnodes :
      (d : Disk e) (path hash : List ℕ)
      → Keeps (λ r. r.0.vnodes ≡ d.vnodes) (do_data_file_check e c d path hash)
  unfolding do_data_file_check
  do_data_file_check-vnodes d path hash =
      let P : Disk e × ℕ × Bool → Type 0 = λ r. r.0.vnodes ≡ d.vnodes in
      Keeps->>= P (or_fault (first_dir path) null_deref) λ dir ed.
        let db_path = hash_db_path c.root dir in
        Keeps-if P (not (ltb (length dir) 256)) (λ t. Keeps-fault P out_of_bounds)
          (λ room.
            Keeps-if P (not (c.has_table db_path)) (λ t. Keeps-ret P _ refl)
              (λ t. Keeps->>= P (query_hashcode_by_filepath e path (d.dbs db_path)) λ q eq.
                Keeps-if P (q.1 == minus_two)
                  (λ u.
                    Keeps-if P (ltb (length path) 256)
                      (λ v. Keeps->>= P (read_string hash) λ text et. Keeps-ret P _ refl)
                      (λ v. Keeps-fault P out_of_bounds))
                  (λ u. Keeps-ret P _ refl)))

  do_file_hashcode_check-vnodes :
      (d : Disk e) (path hash : List ℕ)
      → Keeps (λ r. r.0.vnodes ≡ d.vnodes) (do_file_hashcode_check e c d path hash)
  unfolding do_file_hashcode_check
  do_file_hashcode_check-vnodes d path hash =
      let P : Disk e × ℕ × Bool → Type 0 = λ r. r.0.vnodes ≡ d.vnodes in
      Keeps->>= P (or_fault (last_dot path) null_deref) λ suffix es.
        Keeps-if P (same_bytes suffix (codes ".db")) (λ t. Keeps-ret P _ refl)
          (λ t. do_data_file_check-vnodes d path hash)

  check_round-vnodes :
      (path hash : List ℕ) (k : Checked e)
      → Keeps (λ r. r.0.disk.vnodes ≡ k.disk.vnodes) (check_round e c path hash k)
  unfolding check_round want
  check_round-vnodes path hash k =
      let P : Checked e × ℕ → Type 0 = λ r. r.0.disk.vnodes ≡ k.disk.vnodes in
      Keeps->>= P (do_file_hashcode_check e c k.disk path hash) λ r er.
        let same = do_file_hashcode_check-vnodes k.disk path hash r er in
        Keeps-if P (not (r.1 == 0)) (λ t. Keeps-ret P _ same)
          (λ t.
            Keeps-if P r.2
              (λ u.
                Keeps->>= P (want e path (record k { disk = r.0; list = erase_path e path k.list }))
                  (Keeps-if (λ k'. Keeps P (ret (k', 0))) (ltb (length path) (length k.block))
                    (λ v. Keeps-ret _ _ (Keeps-ret P _ same)) (λ v. Keeps-fault _ out_of_bounds)))
              (λ u. Keeps-ret P _ same))

  check_loop-vnodes :
      (n : ℕ) (infos : List ℕ) (k : Checked e)
      → Keeps (λ r. r.0.disk.vnodes ≡ k.disk.vnodes) (check_loop e c n infos k)
  unfolding check_loop
  check_loop-vnodes zero infos k = Keeps-ret (λ r. r.0.disk.vnodes ≡ k.disk.vnodes) (k, 0) refl
  check_loop-vnodes (suc n) infos k =
      let P : Checked e × ℕ → Type 0 = λ r. r.0.disk.vnodes ≡ k.disk.vnodes in
      Keeps->>= P (get_check infos) λ g eg. Keeps->>= P (check_round e c g.0 g.1 k) λ r er.
        let same = check_round-vnodes g.0 g.1 k r er in
        Keeps-if P (r.1 == 0)
          (λ t r' er'. check_loop-vnodes n (drop check_info_size infos) r.0 r' er' ∙ same)
          (λ t. Keeps-ret P _ same)

  delete_rest-vnodes :
      (db_path : List ℕ) (rs : List VnodeHashCode) (d : Disk e)
      → (delete_rest e c db_path rs d).vnodes ≡ d.vnodes
  unfolding delete_rest
  delete_rest-vnodes db_path [] d = refl
  delete_rest-vnodes db_path (r ∷ rs) d = delete_rest-vnodes db_path rs _

  check_files-vnodes :
      (id n : ℕ) (infos block : List ℕ) (d : Disk e)
      → Keeps (λ r. r.0.disk.vnodes ≡ d.vnodes) (check_files e c id n infos block d)
  unfolding check_files
  check_files-vnodes id n infos block d =
      let P : Checked e × ℕ → Type 0 = λ r. r.0.disk.vnodes ≡ d.vnodes in
      let db_path = hash_db_path c.root (vnode_dir id) in
      Keeps-if P (not (c.has_table db_path)) (λ t. Keeps-ret P _ refl)
        (λ t. Keeps->>= P (query_all_hashcode e (d.dbs db_path)) λ q eq.
          let k : Checked e = record { disk = d; list = q.0; block = block; wanted = 0 } in
          Keeps->>= P (check_loop e c n infos k) λ r er.
            let same = check_loop-vnodes n infos k r er in
            Keeps-ret P _ (elim (Bool-cases (r.1 == 0)) [
              | inl u ↦ rw u (delete_rest-vnodes db_path r.0.list r.0.disk ∙ same)
              | inr u ↦ rw u same
            ]))

  check_reply-after :
      (peer : Peer) (k : Checked e) (code : ℕ) → (check_reply e peer k code).after ≡ k.disk
  unfolding check_reply
  check_reply-after peer k code = ground arith

  pub msg_file_check_handle-IsDistinct :
      (heap : ℕ → List ℕ) (d : Disk e) (peer : Peer) (msg : Message)
      → IsDistinct d.vnodes
      → Keeps (λ r. IsDistinct r.after.vnodes) (msg_file_check_handle e c heap d peer msg)
  unfolding msg_file_check_handle
  msg_file_check_handle-IsDistinct heap d peer msg distinct =
      let P : Answered e → Type 0 = λ r. IsDistinct r.after.vnodes in
      let n = check_count msg in
      let bytes = low_bits (body_len msg + 2 ^ 64 - vnode_info_size) 64 in
      Keeps-if P (not (bytes % check_info_size == 0)) (λ t. Keeps-ret P _ distinct)
        (λ t.
          Keeps-if P (not (peer.open_error == 0)) (λ u. Keeps-ret P _ distinct)
            (λ u. Keeps->>= P (or_fault (buff2int32 msg.body) out_of_bounds) λ id ei.
              Keeps->>= P (or_fault (buff2int64 (drop 4 msg.body)) out_of_bounds) λ version ev.
                let found = check_vnode e c id version d.vnodes in
                let still = check_vnode-IsDistinct e c id version d.vnodes distinct in
                let d' : Disk e = record d { vnodes = found.0 } in
                let none_yet : Checked e = record {
                  disk = d';
                  list = [];
                  block = [];
                  wanted = 0;
                } in
                Keeps-if P found.2 (λ w. Keeps-fault P wild_pointer)
                  (λ w.
                    Keeps-if P (not (found.1 == 0))
                      (λ x.
                        Keeps-ret P (check_reply e peer none_yet found.1)
                          (rw (check_reply-after peer none_yet found.1) still))
                      (λ x.
                        Keeps->>= P
                          (check_files e c id n (drop vnode_info_size msg.body)
                            (heap (n * check_resp_size)) d')
                          λ r er.
                            let same =
                              check_files-vnodes id n (drop vnode_info_size msg.body)
                                (heap (n * check_resp_size)) d' r er in
                            Keeps-ret P (check_reply e peer r.0 r.1)
                              (rw (check_reply-after peer r.0 r.1, same) still)))))
