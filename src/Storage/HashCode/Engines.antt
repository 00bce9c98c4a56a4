-- ===== src/Storage/HashCode/Engines.antt =====
-- What the users of CTbHashCode, src/sqlite/tb_hashcode.cpp, rely on in SQLite, and an engine that has
-- it.
use kunlun.Prelude.Run.{ret}
use kunlun.Proxy.{same_bytes}
use kunlun.Storage.HashCode.{
  VnodeHashCode, Sql, create_table, select_all, insert, update, select_path, delete_path, text,
  is_quotable, Statement, meant, other, printed, Engine, callback, insert_record,
  query_hashcode_by_filepath, minus_two,
}
use kunlun.Prelude.{
  ℕ, Bool-cases, inl, inr, ◌<◌, ◌≡◌, refl, map, List, [], ◌∷◌, ◌++◌, true, length, if◌then◌else◌,
  arith,
}

-- The rows of a path, and the others.
unfoldable pub with_path : List ℕ → List VnodeHashCode → List VnodeHashCode
with_path path [] = []
with_path path (r ∷ rs) =
    let rest = with_path path rs in if same_bytes r.file_path path then r ∷ rest else rest

pub with_path-append :
    (path : List ℕ) (rs : List VnodeHashCode) (r : VnodeHashCode)
    → with_path path rs ≡ []
    → same_bytes r.file_path path ≡ true
    → with_path path (rs ++ r ∷ []) ≡ r ∷ []
unfolding with_path
with_path-append path [] r absent same = rw same refl
with_path-append path (x ∷ rs) r absent same = elim (Bool-cases (same_bytes x.file_path path)) [
  | inl t ↦ cc (rw t at absent)
  | inr t ↦ rw t (with_path-append path rs r (rw t at absent) same)
]

pub without_path : List ℕ → List VnodeHashCode → List VnodeHashCode
without_path path [] = []
without_path path (r ∷ rs) =
    let rest = without_path path rs in if same_bytes r.file_path path then rest else r ∷ rest

-- An engine that does what the statements of SQL say. A path is a primary key, so that a second row of
-- it is not inserted.
pub record IsSql (e : Engine) : Type 0 where
  pub rows : e.Db → List VnodeHashCode
  pub selects :
      (path : List ℕ) (db : e.Db)
      → e.exec (meant (select_path path)) db ≡ (db, 0, with_path path (rows db))
  pub inserts :
      (r : VnodeHashCode) (db : e.Db)
      → with_path r.file_path (rows db) ≡ []
      → rows (e.exec (meant (insert r)) db).0 ≡ rows db ++ r ∷ []
  pub deletes :
      (path : List ℕ) (db : e.Db)
      → rows (e.exec (meant (delete_path path)) db).0 ≡ without_path path (rows db)

-- A statement that fits sql_str and whose strings have no quote.
pub record IsPrintable (s : Sql) : Type 0 where
  pub fits : length (text s) < 256
  pub quotable : is_quotable s ≡ true

pub printed_lem : (s : Sql) → IsPrintable s → printed s ≡ meant s
unfolding printed
printed_lem s ok = rw ok.quotable (ground (arith, ok.fits))

-- A row that fits the arrays of a CVnodeHashCode.
pub record Fits (r : VnodeHashCode) : Type 0 where
  pub path_fits : length r.file_path < 256
  pub hash_fits : length r.hash_code < 33

callback_one : (r : VnodeHashCode) → Fits r → callback (r ∷ []) ≡ ret (r ∷ [])
unfolding callback
callback_one r ok = ground (arith, ok.path_fits, ok.hash_fits)

module _ (e : Engine) (sql : IsSql e) (path : List ℕ) (db : e.Db)
    (printable : IsPrintable (select_path path)) where
  pub query-none :
      with_path path (sql.rows db) ≡ [] → query_hashcode_by_filepath e path db ≡ ret ([], minus_two)
  unfolding query_hashcode_by_filepath callback
  query-none absent =
      rw (printed_lem (select_path path) printable, sql.selects path db, absent) refl

  pub query-one :
      (r : VnodeHashCode)
      → with_path path (sql.rows db) ≡ r ∷ []
      → Fits r
      → query_hashcode_by_filepath e path db ≡ ret (r.hash_code, 0)
  unfolding query_hashcode_by_filepath
  query-one r found ok =
      rw (printed_lem (select_path path) printable, sql.selects path db, found, callback_one r ok)
        (ground (arith, ok.hash_fits))

pub insert_record-rows :
    (e : Engine) (sql : IsSql e) (r : VnodeHashCode) (db : e.Db)
    → IsPrintable (insert r)
    → with_path r.file_path (sql.rows db) ≡ []
    → sql.rows (insert_record e r db).0 ≡ sql.rows db ++ r ∷ []
unfolding insert_record
insert_record-rows e sql r db printable absent =
    rw (printed_lem (insert r) printable) (sql.inserts r db absent)

-- A table as the list of its rows.
abbrev run_on_list : Statement → List VnodeHashCode → List VnodeHashCode × ℕ × List VnodeHashCode
run_on_list (meant create_table) db = (db, 0, [])
run_on_list (meant select_all) db = (db, 0, db)
run_on_list (meant (insert r)) db = elim (with_path r.file_path db) [
  | [] ↦ (db ++ r ∷ [], 0, [])
  | s ∷ ss ↦ (db, 19, [])
]
run_on_list (meant (update r)) db =
    (map (λ s. if same_bytes s.file_path r.file_path then r else s) db, 0, [])
run_on_list (meant (select_path path)) db = (db, 0, with_path path db)
run_on_list (meant (delete_path path)) db = (without_path path db, 0, [])
run_on_list (other t) db = (db, 1, [])

abbrev pub list_engine : Engine
list_engine = record { Db = List VnodeHashCode; exec = run_on_list }

unfoldable pub list_engine-IsSql : IsSql list_engine
list_engine-IsSql = record {
  rows = λ db. db;
  selects = λ path db. refl;
  inserts = λ r db absent. rw (absent, run_on_list) refl;
  deletes = λ path db. refl;
}
