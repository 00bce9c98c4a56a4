-- ===== src/Storage.antt =====
-- The state of a storage node: src/storagenode/vnode_info.h and vnode_info.cpp. The directories and
-- databases of a vnode are not modelled: what the calls that make them do is an argument.
pub mod Container
pub mod BeatHeart
pub mod Files
pub mod Objects
pub mod Copying
pub mod HashCode
pub mod Checking
pub mod Comparing
pub mod Parser
mod Tests
use kunlun.Prelude.{
  ℕ, ◌-◌, ◌^◌, List, [], ◌∷◌, ◌++◌, ◌||◌, Option, none, some, length, get_elem?, leb, ◌==◌,
  if◌then◌else◌,
}

-- An int or an int64_t is its bit pattern.
pub record StorageVnode : Type 0 where
  pub vnode_id : ℕ
  pub vnode_status : ℕ
  pub vnode_version : ℕ

-- CStorageVnodeContainer::at; the comparison with size() is unsigned.
unfoldable pub at : List StorageVnode → ℕ → Option StorageVnode
at vs index = if leb (length vs) index || leb (2 ^ 31) index then none else get_elem? vs index

unfoldable pub get_vnode : List StorageVnode → ℕ → Option StorageVnode
get_vnode [] id = none
get_vnode (v ∷ vs) id = let rest = get_vnode vs id in if v.vnode_id == id then some v else rest

-- A write through the pointer that get_vnode returns.
unfoldable pub set_vnode_status : List StorageVnode → ℕ → ℕ → List StorageVnode
set_vnode_status [] id status = []
set_vnode_status (v ∷ vs) id status =
    let rest = set_vnode_status vs id status in
    if v.vnode_id == id then record v { vnode_status = status } ∷ vs else v ∷ rest

-- What add_vnode makes for a vnode, in this order.
pub data Part : Type 0 where
  object_dir hash_code_db delete_file_db account_dir account_db container_dir container_db : Part

-- What a call of make_dir or a constructor of a database does: it succeeds, it returns an error or
-- throws it, or it throws a message.
pub data Outcome : Type 0 where
  done thrown_message : Outcome
  failed thrown : ℕ → Outcome

abbrev pub enomem : ℕ
enomem = 12

-- The result of add_vnode when a part fails. A directory's error is returned as it is.
pub failure : Outcome → ℕ
failure done = 0
failure thrown_message = enomem
failure (failed code) = code
failure (thrown code) = if code == 0 then enomem else code

abbrev pub parts : List Part
parts =
    object_dir ∷ hash_code_db ∷ delete_file_db ∷ account_dir ∷ account_db ∷ container_dir
    ∷ container_db ∷ []

-- The parts are made until one fails; make_dir fails when it does not return 0.
unfoldable pub make_parts : (Part → Outcome) → List Part → ℕ
make_parts disk [] = 0
make_parts disk (part ∷ rest) =
    let others = make_parts disk rest in
    elim (disk part) [
      | done ↦ others
      | thrown_message ↦ enomem
      | failed code ↦ if code == 0 then others else code
      | thrown code ↦ failure (thrown code)
    ]

-- add_vnode; NULL is refused with -1.
unfoldable pub add_vnode :
    (Part → Outcome) → List StorageVnode → Option StorageVnode → List StorageVnode × ℕ
add_vnode disk vs none = (vs, 2 ^ 32 - 1)
add_vnode disk vs (some v) = (vs ++ v ∷ [], make_parts disk parts)

-- The loop of delete_vnode: the first vnode of that id goes.
pub delete_vnode : List StorageVnode → ℕ → List StorageVnode
delete_vnode [] id = []
delete_vnode (v ∷ vs) id =
    let rest = delete_vnode vs id in if v.vnode_id == id then vs else v ∷ rest

unfoldable pub get_vnode_count : List StorageVnode → ℕ
get_vnode_count vs = length vs
