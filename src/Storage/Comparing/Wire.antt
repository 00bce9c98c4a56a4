-- ===== src/Storage/Comparing/Wire.antt =====
-- The request of check_and_sync_vnode, src/storagenode/thread_sync_data.cpp, as msg_file_check_handle of
-- src/storagenode/storage_msg_parser.cpp reads it.
use kunlun.Prelude.Run.{Run, ret, Run-cases, ◌>>=◌}
use kunlun.Serializer.{int2buff, long2buff, buff2int32, buff2int64}
use kunlun.Serializer.RoundTrip.{buff2int32-int2buff, buff2int64-long2buff}
use kunlun.Handler.{Message, read_string, read_string_lem}
use kunlun.Storage.Objects.{body_len}
use kunlun.Storage.Objects.Stored.{message}
use kunlun.NameSpace.{new_md5}
use kunlun.Storage.{StorageVnode, get_vnode}
use kunlun.Storage.HashCode.{Engine, VnodeHashCode, query_all_hashcode}
use kunlun.Storage.Checking.{
  CheckInfo, put_check, put_checks, get_check, check_info_size, Checked, check_round, check_loop,
  vnode_info_size, padded_hash, Disk, Calls, hash_db_path, vnode_dir,
}
use kunlun.Storage.Checking.Answering.{check_count}
use kunlun.Storage.Comparing.{data_check, db_checks, db_names, check_body}
use kunlun.Prelude.{
  ℕ, ◌%◌, ◌==◌, if◌then◌else◌, inl, inr, true, zeros_cons, map, ◌+◌, ◌-◌, ◌*◌, ◌/◌, ◌^◌, ◌<◌, ◌≡◌,
  ◌≢◌, ◌∙◌, ap, refl, List, [], ◌∷◌, ◌++◌, some, length, take, drop, replicate, All, take-append,
  drop-append, length-append, length-replicate, append_assoc, drop_add, IsU32, IsU64, low_bits,
  arith,
}

-- A check_file_info whose path field begins with a string and its zero.
pub record IsCheck (c : CheckInfo) : Type 0 where
  pub name : List ℕ
  pub pad : List ℕ
  pub field : c.file_path ≡ name ++ 0 ∷ pad
  pub no_zero : All (λ x. x ≢ 0) name
  pub path_fits : length c.file_path ≡ 256
  pub hash_fits : length c.hash_code ≡ 33

-- The name and the hash code that are read from it.
abbrev pub read_of : (c : CheckInfo) → IsCheck c → List ℕ × List ℕ
read_of c ok = (ok.name, c.hash_code)

pub get_check-put_check :
    (c : CheckInfo) (rest : List ℕ) (ok : IsCheck c)
    → (get_check (put_check c ++ rest) ≡ ret (ok.name, c.hash_code))
      × (drop check_info_size (put_check c ++ rest) ≡ rest)
unfolding get_check put_check
get_check-put_check c rest ok =
    let split = append_assoc c.file_path c.hash_code rest in
    let behind : drop 256 (c.file_path ++ (c.hash_code ++ rest)) ≡ c.hash_code ++ rest =
      drop-append 256 c.file_path (c.hash_code ++ rest) ok.path_fits in
    let hash : take 33 (c.hash_code ++ rest) ≡ c.hash_code =
      take-append 33 c.hash_code rest ok.hash_fits in
    let gone : drop 33 (c.hash_code ++ rest) ≡ rest =
      drop-append 33 c.hash_code rest ok.hash_fits in
    let named : read_string (c.file_path ++ (c.hash_code ++ rest)) ≡ ret ok.name =
      rw (ok.field, append_assoc ok.name (0 ∷ ok.pad) (c.hash_code ++ rest))
        (read_string_lem ok.name (ok.pad ++ (c.hash_code ++ rest)) ok.no_zero) in
    (
      rw (split, named, behind, hash) refl,
      rw split
          (drop_add 256 33 (c.file_path ++ (c.hash_code ++ rest)) ∙ ap (drop 33) behind ∙ gone),
    )

-- The check_file_infos of a request, each with what is read from it.
abbrev pub AreChecks : List CheckInfo → List (List ℕ × List ℕ) → Type 0
AreChecks [] reads = reads ≡ []
AreChecks (c ∷ cs) [] = ⊥
AreChecks (c ∷ cs) (r ∷ reads) = ((ok : IsCheck c) × (read_of c ok ≡ r)) × AreChecks cs reads

-- The rounds of msg_file_check_handle for a list of names with hash codes.
abbrev pub check_all :
    (e : Engine) → Calls e → List (List ℕ × List ℕ) → Checked e → Run (Checked e × ℕ)
check_all e c [] k = ret (k, 0)
check_all e c (r ∷ reads) k = do
  (k', code) ← check_round e c r.0 r.1 k
  let rest = check_all e c reads k'
  if code == 0 then rest else ret (k', code)

check_loop-put_checks :
    (e : Engine) (c : Calls e) (cs : List CheckInfo) (reads : List (List ℕ × List ℕ))
    (k : Checked e)
    → AreChecks cs reads
    → check_loop e c (length cs) (put_checks cs) k ≡ check_all e c reads k
unfolding check_loop put_checks
check_loop-put_checks e c [] reads k h = rw h refl
check_loop-put_checks e c (x ∷ cs) [] k h = elim h [ ]
check_loop-put_checks e c (x ∷ cs) (r ∷ reads) k ((ok, same), h) =
    let (this, next) = get_check-put_check x (put_checks cs) ok in
    let read : get_check (put_check x ++ put_checks cs) ≡ ret r = this ∙ ap ret same in
    elim (Run-cases (check_round e c r.0 r.1 k)) [
      | inl ((k', code), f) ↦ rw (read, f, next, check_loop-put_checks e c cs reads k' h) refl
      | inr (x', f) ↦ rw (read, f) refl
    ]

pub length-put_checks :
    (cs : List CheckInfo) (reads : List (List ℕ × List ℕ))
    → AreChecks cs reads
    → length (put_checks cs) ≡ 289 * length cs
unfolding put_checks put_check
length-put_checks [] reads e = refl
length-put_checks (c ∷ cs) [] h = elim h [ ]
length-put_checks (c ∷ cs) (r ∷ reads) ((ok, e), h) = omega (
  arith,
  length-append (put_check c) (put_checks cs),
  length-append c.file_path c.hash_code,
  ok.path_fits,
  ok.hash_fits,
  length-put_checks cs reads h,
)

-- A record of a table, its strings without zeros and within their arrays.
pub record IsRow (r : VnodeHashCode) : Type 0 where
  pub no_zero : All (λ x. x ≢ 0) r.file_path
  pub path_fits : length r.file_path < 256
  pub hash_fits : length r.hash_code < 33

-- What the other node reads of a record: the hash code filled up with zeros.
abbrev pub read_row : VnodeHashCode → List ℕ × List ℕ
read_row r = (r.file_path, padded_hash r.hash_code)

data_check-IsCheck :
    (r : VnodeHashCode)
    → IsRow r
    → (ok : IsCheck (data_check r)) × (read_of (data_check r) ok ≡ read_row r)
unfolding data_check
data_check-IsCheck r ok = (
  record {
    name = r.file_path;
    pad = replicate (256 - length r.file_path - 1) 0;
    field =
        ap (λ (xs : List ℕ). r.file_path ++ xs)
          (zeros_cons (256 - length r.file_path) (omega (arith, ok.path_fits)));
    no_zero = ok.no_zero;
    path_fits = omega (
      arith,
      length-append r.file_path (replicate (256 - length r.file_path) 0),
      length-replicate {A = ℕ} (256 - length r.file_path) 0,
      ok.path_fits,
    );
    hash_fits = omega (
      arith,
      length-append r.hash_code (replicate (33 - length r.hash_code) 0),
      length-replicate {A = ℕ} (33 - length r.hash_code) 0,
      ok.hash_fits,
    );
  },
  refl,
)

AreChecks-rows :
    (rows : List VnodeHashCode) (dbs : List CheckInfo) (reads : List (List ℕ × List ℕ))
    → All IsRow rows
    → AreChecks dbs reads
    → AreChecks (map data_check rows ++ dbs) (map read_row rows ++ reads)
AreChecks-rows [] dbs reads h k = k
AreChecks-rows (r ∷ rows) dbs reads (ok, h) k =
    (data_check-IsCheck r ok, AreChecks-rows rows dbs reads h k)

pub check_bytes-len :
    (msg : Message) (n : ℕ)
    → msg.pkg_len ≡ 12 + 289 * n + 2
    → n < 2 ^ 31
    → low_bits (body_len msg + 2 ^ 64 - vnode_info_size) 64 ≡ 289 * n
unfolding body_len
check_bytes-len msg n e h = omega (arith, e)

check_count-len :
    (msg : Message) (n : ℕ) → msg.pkg_len ≡ 12 + 289 * n + 2 → n < 2 ^ 31 → check_count msg ≡ n
unfolding check_count
check_count-len msg n e h =
    let low : low_bits (289 * n / 289) 32 ≡ n = omega arith in
    rw (check_bytes-len msg n e h, low) (ground arith)

pub check_request-read :
    (id version : ℕ) (cs : List CheckInfo) (reads : List (List ℕ × List ℕ))
    → IsU32 id
    → IsU64 version
    → AreChecks cs reads
    → length cs < 2 ^ 31
    → (let body = int2buff id ++ long2buff version ++ put_checks cs in
        (low_bits (body_len (message body) + 2 ^ 64 - vnode_info_size) 64 % check_info_size ≡ 0)
        × (check_count (message body) ≡ length cs)
        × (buff2int32 body ≡ some id)
        × (buff2int64 (drop 4 body) ≡ some version)
        × (drop vnode_info_size body ≡ put_checks cs))
unfolding int2buff long2buff
check_request-read id version cs reads u32 u64 ok few =
    let n = length cs in
    let msg = message (int2buff id ++ long2buff version ++ put_checks cs) in
    let len : msg.pkg_len ≡ 12 + 289 * n + 2 = omega (arith, length-put_checks cs reads ok) in
    let whole : 289 * n % 289 ≡ 0 = omega arith in
    (
      rw (check_bytes-len msg n len few) whole,
      check_count-len msg n len few,
      buff2int32-int2buff id (long2buff version ++ put_checks cs) u32,
      buff2int64-long2buff version (put_checks cs) u64,
      refl,
    )

-- The request that a storage node makes for a vnode in its container, where the rows of its table fit
-- the arrays and its databases have been hashed, fewer than 2^31 files in all, passes the test of
-- the handler, which finds the id and the version of the vnode. Its loop, on any node, has the rounds
-- for the names and hash codes of all files, rows first, in their order, and no other.
pub check_body-read :
    (e : Engine) (c : Calls e) (d : Disk e) (stale : ℕ → List ℕ) (id : ℕ) (v : StorageVnode)
    (rows : List VnodeHashCode) (dbs : List CheckInfo) (reads : List (List ℕ × List ℕ))
    (e' : Engine) (c' : Calls e') (k : Checked e')
    → IsU32 id
    → IsU64 v.vnode_version
    → c.has_table (hash_db_path c.root (vnode_dir id)) ≡ true
    → query_all_hashcode e (d.dbs (hash_db_path c.root (vnode_dir id))) ≡ ret (rows, 0)
    → get_vnode d.vnodes id ≡ some v
    → db_checks e c d.files stale 0 new_md5 (db_names id) ≡ ret (dbs, 0)
    → All IsRow rows
    → AreChecks dbs reads
    → length (map data_check rows ++ dbs) < 2 ^ 31
    → (body : List ℕ) × (check_body e c d stale id ≡ ret (body, 0))
      × (low_bits (body_len (message body) + 2 ^ 64 - vnode_info_size) 64 % check_info_size ≡ 0)
      × (buff2int32 body ≡ some id)
      × (buff2int64 (drop 4 body) ≡ some v.vnode_version)
      × (check_loop e' c' (check_count (message body)) (drop vnode_info_size body) k
          ≡ check_all e' c' (map read_row rows ++ reads) k)
unfolding check_body data_check int2buff long2buff put_checks
check_body-read e c d stale id v rows dbs reads e' c' k u32 u64 table queried found hashed ok oks
      few =
    let cs = map data_check rows ++ dbs in
    let are = AreChecks-rows rows dbs reads ok oks in
    let (whole, count, id_back, version_back, behind) =
      check_request-read id v.vnode_version cs (map read_row rows ++ reads) u32 u64 are few in
    (
      int2buff id ++ long2buff v.vnode_version ++ put_checks cs,
      rw (table, queried, found, hashed) refl,
      whole,
      id_back,
      version_back,
      rw (count, behind) (check_loop-put_checks e' c' cs (map read_row rows ++ reads) k are),
    )
