-- ===== src/Storage/HashCode.antt =====
-- CTbHashCode of src/sqlite/tb_hashcode.cpp: the table of the hash codes of the files of a vnode.
-- SQLite is a parameter, an engine that runs statements on databases.
pub mod Engines
use kunlun.Prelude.Run.{Run, ret, fault, out_of_bounds, ◌>>=◌}
use kunlun.Prelude.Text.{codes}
use kunlun.Balancer.{minus_one}
use kunlun.Prelude.{
  ℕ, ◌+◌, ◌-◌, ◌^◌, List, [], ◌∷◌, ◌++◌, Bool, true, false, not, ◌&&◌, length, take, ltb, ◌==◌,
  if◌then◌else◌,
}

-- CVnodeHashCode, as the strings in its arrays.
pub record VnodeHashCode : Type 0 where
  pub file_path : List ℕ
  pub hash_code : List ℕ

-- The statements that the methods print, with the strings that they put in.
pub data Sql : Type 0 where
  create_table select_all : Sql
  insert update : VnodeHashCode → Sql
  select_path delete_path : List ℕ → Sql

unfoldable pub text : Sql → List ℕ
text create_table =
    codes
      "create table if not exists tb_hashcode(file_path varchar(256) PRIMARY KEY, hash_code varchar(33));"
text select_all = codes "select * from tb_hashcode;"
text (insert r) =
    codes "insert into tb_hashcode values('"
    ++ (r.file_path ++ (codes "', '" ++ (r.hash_code ++ codes "');")))
text (update r) =
    codes "update tb_hashcode set hash_code = '"
    ++ (r.hash_code ++ (codes "' where file_path = '" ++ (r.file_path ++ codes "';")))
text (select_path path) =
    codes "select * from tb_hashcode where file_path = '" ++ (path ++ codes "';")
text (delete_path path) =
    codes "delete from tb_hashcode where file_path = '" ++ (path ++ codes "';")

-- No quote ends the string too early.
unfoldable pub has_no_quote : List ℕ → Bool
has_no_quote [] = true
has_no_quote (c ∷ cs) = not (c == 39) && has_no_quote cs

unfoldable pub is_quotable : Sql → Bool
is_quotable create_table = true
is_quotable select_all = true
is_quotable (insert r) = has_no_quote r.file_path && has_no_quote r.hash_code
is_quotable (update r) = has_no_quote r.file_path && has_no_quote r.hash_code
is_quotable (select_path path) = has_no_quote path
is_quotable (delete_path path) = has_no_quote path

-- What reaches the engine: the statement that is meant, or another text.
pub data Statement : Type 0 where
  meant : Sql → Statement
  other : List ℕ → Statement

-- snprintf into the 256 characters of sql_str.
unfoldable pub printed : Sql → Statement
printed s =
    if ltb (length (text s)) 256 && is_quotable s then meant s else other (take 255 (text s))

-- sqlite_tb_exec: the database afterwards, the code, and the rows handed to the callback.
pub record Engine : Type 1 where
  pub Db : Type 0
  pub exec : Statement → Db → Db × ℕ × List VnodeHashCode

-- strcpy of the columns of the rows in select_callback.
unfoldable pub callback : List VnodeHashCode → Run (List VnodeHashCode)
callback [] = ret []
callback (r ∷ rs) = do
  rest ← callback rs
  if ltb (length r.file_path) 256 && ltb (length r.hash_code) 33
      then ret (r ∷ rest)
      else fault out_of_bounds

-- -2, record not exist
abbrev pub minus_two : ℕ
minus_two = 2 ^ 32 - 2

module _ (e : Engine) where
  open e use {Db, exec}

  unfoldable pub insert_record : VnodeHashCode → Db → Db × ℕ
  insert_record r db = let (db', code, rows) = exec (printed (insert r)) db in (db', code)

  pub update_hash_code : VnodeHashCode → Db → Db × ℕ
  update_hash_code r db = let (db', code, rows) = exec (printed (update r)) db in (db', code)

  unfoldable pub delete_record : List ℕ → Db → Db × ℕ
  delete_record path db =
      let (db', code, rows) = exec (printed (delete_path path)) db in (db', code)

  -- The rows that are pushed to the list, and the code.
  unfoldable pub query_all_hashcode : Db → Run (List VnodeHashCode × ℕ)
  query_all_hashcode db = do
    let (db', code, rows) = exec (printed select_all) db
    list ← callback rows
    ret (list, code)

  -- The string in the buffer of 33 characters, which is empty at first, and the code.
  unfoldable pub query_hashcode_by_filepath : List ℕ → Db → Run (List ℕ × ℕ)
  query_hashcode_by_filepath path db = do
    let (db', code, rows) = exec (printed (select_path path)) db
    list ← callback rows
    ret (
        if not (code == 0) then ([], code) else elim list [
          | [] ↦ ([], minus_two)
          | r ∷ [] ↦ if ltb 33 (length r.hash_code + 1) then ([], minus_one) else (r.hash_code, 0)
          | r ∷ r' ∷ rs ↦ ([], minus_one)
        ])
