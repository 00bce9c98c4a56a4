-- ===== src/Storage/Checking/Slots.antt =====
-- The block of answers of msg_file_check_handle of src/storagenode/storage_msg_parser.cpp.
use kunlun.Prelude.Run.{
  or_fault, wild_pointer, ret, out_of_bounds, Keeps, Keeps-ret, Keeps-fault, Keeps->>=, Keeps-if,
}
use kunlun.Serializer.{buff2int32, buff2int64}
use kunlun.Handler.{Message}
use kunlun.Storage.HashCode.{Engine, query_all_hashcode}
use kunlun.Storage.Checking.{
  Disk, Calls, Checked, get_check, check_info_size, do_file_hashcode_check, erase_path, want,
  check_round, check_loop,
}
use kunlun.NameSpace.{einval}
use kunlun.Storage.Objects.{Peer, body_len}
use kunlun.Storage.Checking.Answering.{
  Answered, check_reply, check_files, msg_file_check_handle, check_vnode, check_count,
}
use kunlun.Storage.Checking.{check_resp_size, vnode_info_size, hash_db_path, vnode_dir}
use kunlun.Prelude.{
  ℕ, zero, suc, ◌+◌, ◌-◌, ◌≤◌, ◌<◌, ◌≡◌, ◌∙◌, ap, refl, sym, List, [], ◌∷◌, ◌++◌, length, drop,
  drop_add, drop-append, arith, ltb, ◌==◌, Bool-cases, inl, inr, true, ◌^◌, ◌%◌, not, low_bits,
  take, ◌*◌,
}

-- The names that the rounds read are shorter than their fields.
pub data ShortNames : ℕ → List ℕ → Type 0 where
  no_more : (infos : List ℕ) → ShortNames zero infos
  one_more :
      (n : ℕ) (infos path hash : List ℕ)
      → get_check infos ≡ ret (path, hash)
      → length path < 256
      → ShortNames n (drop check_info_size infos)
      → ShortNames (suc n) infos

-- A string over the head of a list, with its end, leaves the list behind it as it is.
drop-overlay :
    (n : ℕ) (xs : List ℕ) (y : ℕ) (zs : List ℕ)
    → length xs < n
    → drop n (xs ++ y ∷ drop (length xs + 1) zs) ≡ drop n zs
drop-overlay n xs y zs h =
    let l = length xs in
    let m = n - l - 1 in
    let over = xs ++ y ∷ drop (l + 1) zs in
    let behind : drop l over ≡ y ∷ drop (l + 1) zs = drop-append l xs (y ∷ drop (l + 1) zs) refl in
    let front : n ≡ l + suc m = omega arith in
    let back : l + 1 + m ≡ n = omega arith in
    ap (λ (k : ℕ). drop k over) front
    ∙ drop_add l (suc m) over
    ∙ ap (drop (suc m)) behind
    ∙ sym (drop_add (l + 1) m zs)
    ∙ ap (λ (k : ℕ). drop k zs) back

take_nil : (n : ℕ) → [] ≡ take {A = ℕ} n []
take_nil zero = refl
take_nil (suc n) = refl

drop-take : (n m : ℕ) (xs : List ℕ) → drop n (take m xs) ≡ take (m - n) (drop n xs)
drop-take zero m xs = let e : m ≡ m - 0 = omega arith in ap (λ (k : ℕ). take k xs) e
drop-take (suc n) zero xs =
    let e : 0 ≡ 0 - suc n = omega arith in ap (λ (k : ℕ). take k (drop (suc n) xs)) e
drop-take (suc n) (suc m) [] = take_nil (suc m - suc n)
drop-take (suc n) (suc m) (x ∷ xs) =
    let e : m - n ≡ suc m - suc n = omega arith in
    drop-take n m xs ∙ ap (λ (k : ℕ). take k (drop n xs)) e

module _ (e : Engine) where
  -- What the bytes behind the first check_file_resp are, and that the count only grows.
  abbrev pub SameTail : Checked e → Checked e → Type 0
  SameTail k k' = (drop 256 k'.block ≡ drop 256 k.block) × (k.wanted ≤ k'.wanted)

  want-SameTail :
      (path : List ℕ) (k : Checked e) → length path < 256 → Keeps (SameTail k) (want e path k)
  unfolding want
  want-SameTail path k short =
      Keeps-if (SameTail k) (ltb (length path) (length k.block))
        (λ t. Keeps-ret (SameTail k) _ (drop-overlay 256 path 0 k.block short, omega arith))
        (λ t. Keeps-fault (SameTail k) out_of_bounds)

  -- The same for the disk and the list replaced first.
  check_round-SameTail :
      (c : Calls e) (path hash : List ℕ) (k : Checked e)
      → length path < 256
      → Keeps (λ r. SameTail k r.0) (check_round e c path hash k)
  unfolding check_round
  check_round-SameTail c path hash k short =
      let P : Checked e × ℕ → Type 0 = λ r. SameTail k r.0 in
      Keeps->>= P (do_file_hashcode_check e c k.disk path hash) λ r er.
        let k' = record k { disk = r.0; list = erase_path e path k.list } in
        Keeps-if P (not (r.1 == 0)) (λ t. Keeps-ret P (k', r.1) (refl, omega arith))
          (λ t.
            Keeps-if P r.2
              (λ u.
                Keeps->>= P (want e path k')
                  λ k'' ew. Keeps-ret P (k'', 0) (want-SameTail path k' short k'' ew))
              (λ u. Keeps-ret P (k', 0) (refl, omega arith)))

  pub check_loop-SameTail :
      (c : Calls e) (n : ℕ) (infos : List ℕ) (k : Checked e)
      → ShortNames n infos
      → Keeps (λ r. SameTail k r.0) (check_loop e c n infos k)
  unfolding check_loop
  check_loop-SameTail c zero infos k (no_more _) =
      Keeps-ret (λ r. SameTail k r.0) (k, 0) (refl, omega arith)
  check_loop-SameTail c (suc n) infos k (one_more _ _ path hash named short more) =
      let P : Checked e × ℕ → Type 0 = λ r. SameTail k r.0 in
      rw named (
        Keeps->>= P (check_round e c path hash k) λ r er.
          let (tail, grows) = check_round-SameTail c path hash k short r er in
          Keeps-if P (r.1 == 0)
            (λ t r' er'.
              let (tail', grows') =
                check_loop-SameTail c n (drop check_info_size infos) r.0 more r' er' in
              (tail' ∙ tail, omega arith))
            (λ t. Keeps-ret P (r.0, r.1) (tail, grows)))

  -- What is behind the first check_file_resp of the body of an answer was in the memory of `block`.
  abbrev pub IsStale : List ℕ → Answered e → Type 0
  IsStale block r =
      (header body : List ℕ)
      → r.sent ≡ header ∷ body ∷ []
      → (m : ℕ) × (drop 256 body ≡ take m (drop 256 block))

  check_reply-IsStale :
      (peer : Peer) (k : Checked e) (code : ℕ) (block : List ℕ)
      → drop 256 k.block ≡ drop 256 block
      → IsStale block (check_reply e peer k code)
  unfolding check_reply
  check_reply-IsStale peer k code block same header body sent =
      let len = low_bits (low_bits k.wanted 32 * check_resp_size) 64 in
      let whole : take len k.block ≡ body = ground arith in
      (len - 256, rw (← whole) (drop-take 256 len k.block ∙ ap (take (len - 256)) same))

  check_files-block :
      (c : Calls e) (id n : ℕ) (infos block : List ℕ) (d : Disk e)
      → ShortNames n infos
      → Keeps (λ r. drop 256 r.0.block ≡ drop 256 block) (check_files e c id n infos block d)
  unfolding check_files
  check_files-block c id n infos block d short =
      let P : Checked e × ℕ → Type 0 = λ r. drop 256 r.0.block ≡ drop 256 block in
      Keeps-if P (not (c.has_table (hash_db_path c.root (vnode_dir id)))) (λ t. Keeps-ret P _ refl)
        (λ t.
          Keeps->>= P (query_all_hashcode e (d.dbs (hash_db_path c.root (vnode_dir id)))) λ q eq.
            let k : Checked e = record { disk = d; list = q.0; block = block; wanted = 0 } in
            Keeps->>= P (check_loop e c n infos k) λ r er.
              let (tail, grows) = check_loop-SameTail c n infos k short r er in
              Keeps-ret P _
                (elim (Bool-cases (r.1 == 0)) [ inl u ↦ rw u tail | inr u ↦ rw u tail ]))

answered-IsStale :
    (e : Engine) (c : Calls e) (heap : ℕ → List ℕ) (d : Disk e) (peer : Peer) (msg : Message)
    → ShortNames (check_count msg) (drop vnode_info_size msg.body)
    → Keeps
        (IsStale e (heap (check_count msg * check_resp_size)))
        (msg_file_check_handle e c heap d peer msg)
unfolding msg_file_check_handle check_reply
answered-IsStale e c heap d peer msg short =
    let n = check_count msg in
    let block = heap (n * check_resp_size) in
    let P = IsStale e block in
    let bare : (code : ℕ) → Keeps P (ret (record { after = d; sent = []; code = code })) =
      λ code. Keeps-ret P (record { after = d; sent = []; code = code }) (λ header body sent. cc) in
    let odd = not (low_bits (body_len msg + 2 ^ 64 - vnode_info_size) 64 % check_info_size == 0) in
    Keeps-if P odd (λ t. bare einval)
      (λ t.
        Keeps-if P (not (peer.open_error == 0)) (λ u. bare peer.open_error)
          (λ u. Keeps->>= P (or_fault (buff2int32 msg.body) out_of_bounds) λ id ei.
            Keeps->>= P (or_fault (buff2int64 (drop 4 msg.body)) out_of_bounds) λ version ev.
              let (vs, code, at_once) = check_vnode e c id version d.vnodes in
              let d' : Disk e = record d { vnodes = vs } in
              let none_yet : Checked e = record { disk = d'; list = []; block = []; wanted = 0 } in
              Keeps-if P at_once (λ w. Keeps-fault P wild_pointer)
                (λ w.
                  Keeps-if P (not (code == 0))
                    (λ failed.
                      Keeps-ret P (check_reply e peer none_yet code)
                        (refused_reply none_yet code failed))
                    (λ ok.
                      Keeps->>= P (check_files e c id n (drop vnode_info_size msg.body) block d')
                        λ r er. Keeps-ret P (check_reply e peer r.0 r.1) (
                          check_reply-IsStale e peer r.0 r.1 block (
                            check_files-block e c id n (drop vnode_info_size msg.body) block d'
                              short r er))))))
  where
    refused_reply :
        (k : Checked e) (code : ℕ)
        → not (code == 0) ≡ true
        → IsStale e (heap (check_count msg * check_resp_size)) (check_reply e peer k code)
    refused_reply k code failed header body sent = ground arith

-- Of the files that an answer to a check of files asks for, at most one is named: behind the first
-- check_file_resp the body has whatever was in the memory of the new block, as long as the names in
-- the request are shorter than their fields.
pub msg_file_check_handle-IsStale :
    (e : Engine) (c : Calls e) (heap : ℕ → List ℕ) (d : Disk e) (peer : Peer) (msg : Message)
    (r : Answered e) (header body : List ℕ)
    → ShortNames (check_count msg) (drop vnode_info_size msg.body)
    → msg_file_check_handle e c heap d peer msg ≡ ret r
    → r.sent ≡ header ∷ body ∷ []
    → (m : ℕ) × (drop 256 body ≡ take m (drop 256 (heap (check_count msg * check_resp_size))))
msg_file_check_handle-IsStale e c heap d peer msg r header body short answers sent =
    answered-IsStale e c heap d peer msg short r answers header body sent
