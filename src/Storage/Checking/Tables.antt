-- ===== src/Storage/Checking/Tables.antt =====
-- What a check of files does to the table of hash codes: do_data_file_check of
-- src/storagenode/storage_msg_parser.cpp on CTbHashCode of src/sqlite/tb_hashcode.cpp.
use kunlun.Prelude.Run.{ret}
use kunlun.Proxy.{same_bytes}
use kunlun.Handler.{read_string, read_string_lem}
use kunlun.Storage.Files.{Files}
use kunlun.Storage.Files.Streams.{same_bytes_refl}
use kunlun.Storage.HashCode.{VnodeHashCode, insert, select_path, Engine, insert_record}
use kunlun.Storage.HashCode.Engines.{
  with_path, with_path-append, IsSql, IsPrintable, Fits, query-none, query-one, insert_record-rows,
}
use kunlun.Storage.Checking.{
  first_dir, hash_db_path, padded_hash, Disk, Calls, set_db, do_data_file_check,
}
use kunlun.Prelude.{
  ℕ, zeros_cons, ◌-◌, ◌<◌, ◌≡◌, ◌≢◌, ap, refl, List, [], ◌∷◌, ◌++◌, true, false, not, some, length,
  replicate, All, ltb, arith,
}

-- The parts of a path and a hash code in a request that the check relies on.
pub record IsEntry (path text : List ℕ) : Type 0 where
  pub dir : List ℕ
  pub has_dir : first_dir path ≡ some dir
  pub dir_fits : length dir < 256
  pub no_zero : All (λ x. x ≢ 0) text
  pub not_empty : 0 < length text
  pub path_fits : length path < 256
  pub hash_fits : length text < 33
  pub selectable : IsPrintable (select_path path)
  pub insertable : IsPrintable (insert (record { file_path = path; hash_code = text }))

empty_differs :
    (text : List ℕ)
    → All (λ x. x ≢ 0) text
    → 0 < length text
    → same_bytes (padded_hash []) (padded_hash text) ≡ false
unfolding same_bytes
empty_differs [] h lt = absurd (omega arith)
empty_differs (c ∷ cs) (ne, h) lt = ground arith

module _ (e : Engine) (sql : IsSql e) (c : Calls e) (d : Disk e) (path text : List ℕ)
    (ok : IsEntry path text) where
  -- A file that the table does not have is put into it with the hash code of the request, and wanted.
  do_data_file_check-new :
      c.has_table (hash_db_path c.root ok.dir) ≡ true
      → with_path path (sql.rows (d.dbs (hash_db_path c.root ok.dir))) ≡ []
      → (db' : e.Db) × (do_data_file_check e c d path (padded_hash text)
          ≡ ret (set_db e d (hash_db_path c.root ok.dir) db', 0, true))
        × (sql.rows db'
            ≡ sql.rows (d.dbs (hash_db_path c.root ok.dir))
              ++ record { file_path = path; hash_code = text } ∷ [])
  unfolding do_data_file_check
  do_data_file_check-new table absent =
      let db_path = hash_db_path c.root ok.dir in
      let row : VnodeHashCode = record { file_path = path; hash_code = text } in
      let db' = (insert_record e row (d.dbs db_path)).0 in
      let room : ltb (length ok.dir) 256 ≡ true = ground (arith, ok.dir_fits) in
      let queried = query-none e sql path (d.dbs db_path) ok.selectable absent in
      let hash : read_string (padded_hash text) ≡ ret text =
        rw (zeros_cons (33 - length text) (omega (arith, ok.hash_fits)))
          (read_string_lem text (replicate (33 - length text - 1) 0) ok.no_zero) in
      let short : ltb (length path) 256 ≡ true = ground (arith, ok.path_fits) in
      let differs = empty_differs text ok.no_zero ok.not_empty in
      (
        db',
        rw (ok.has_dir, room, table, queried, short, hash, differs) refl,
        insert_record-rows e sql row (d.dbs db_path) ok.insertable absent,
      )

  -- A file that the table has is wanted when its hash code is another one; nothing else is done.
  do_data_file_check-known :
      (r : VnodeHashCode)
      → c.has_table (hash_db_path c.root ok.dir) ≡ true
      → with_path path (sql.rows (d.dbs (hash_db_path c.root ok.dir))) ≡ r ∷ []
      → Fits r
      → do_data_file_check e c d path (padded_hash text)
        ≡ ret (d, 0, not (same_bytes (padded_hash r.hash_code) (padded_hash text)))
  unfolding do_data_file_check
  do_data_file_check-known r table found fits =
      let room : ltb (length ok.dir) 256 ≡ true = ground (arith, ok.dir_fits) in
      let queried =
        query-one e sql path (d.dbs (hash_db_path c.root ok.dir)) ok.selectable r found fits in
      rw (ok.has_dir, room, table, queried) refl

-- A data file that the table does not have is put into it at once and wanted, and no later check of the
-- same hash code wants it, whatever has become of the files since.
pub do_data_file_check-once :
    (e : Engine) (sql : IsSql e) (c : Calls e) (d : Disk e) (path text : List ℕ)
    (ok : IsEntry path text) (later : Files)
    → c.has_table (hash_db_path c.root ok.dir) ≡ true
    → with_path path (sql.rows (d.dbs (hash_db_path c.root ok.dir))) ≡ []
    → (d' : Disk e) × (do_data_file_check e c d path (padded_hash text) ≡ ret (d', 0, true))
      × (do_data_file_check e c (record d' { files = later }) path (padded_hash text)
          ≡ ret (record d' { files = later }, 0, false))
do_data_file_check-once e sql c d path text ok later table absent =
    let db_path = hash_db_path c.root ok.dir in
    let row : VnodeHashCode = record { file_path = path; hash_code = text } in
    let (db', first, rows) = do_data_file_check-new e sql c d path text ok table absent in
    let d' = set_db e d db_path db' in
    let found : with_path path (sql.rows (d'.dbs db_path)) ≡ row ∷ [] =
      rw (same_bytes_refl db_path, rows)
        (with_path-append path (sql.rows (d.dbs db_path)) row absent (same_bytes_refl path)) in
    let fits : Fits row = record { path_fits = ok.path_fits; hash_fits = ok.hash_fits } in
    let again =
      do_data_file_check-known e sql c (record d' { files = later }) path text ok row table found
        fits in
    (d', first, rw (← ap not (same_bytes_refl (padded_hash text))) again)

-- A data file that the table has with another hash code is wanted, and the table keeps the old hash
-- code, so that every later check of the new one wants the file again, whatever has become of the
-- files.
pub do_data_file_check-again :
    (e : Engine) (sql : IsSql e) (c : Calls e) (d : Disk e) (path text : List ℕ)
    (ok : IsEntry path text) (r : VnodeHashCode) (later : Files)
    → c.has_table (hash_db_path c.root ok.dir) ≡ true
    → with_path path (sql.rows (d.dbs (hash_db_path c.root ok.dir))) ≡ r ∷ []
    → Fits r
    → same_bytes (padded_hash r.hash_code) (padded_hash text) ≡ false
    → (do_data_file_check e c d path (padded_hash text) ≡ ret (d, 0, true))
      × (do_data_file_check e c (record d { files = later }) path (padded_hash text)
          ≡ ret (record d { files = later }, 0, true))
do_data_file_check-again e sql c d path text ok r later table found fits differs =
    let now = do_data_file_check-known e sql c d path text ok r table found fits in
    let d' = record d { files = later } in
    let again = do_data_file_check-known e sql c d' path text ok r table found fits in
    (rw differs at now, rw differs at again)
