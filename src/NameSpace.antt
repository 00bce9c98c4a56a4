-- ===== src/NameSpace.antt =====
-- CNameSpaceHash of src/common/hash.cpp: which vnode a path belongs to.
pub mod Bounds
mod Tests
use kunlun.Prelude.Run.{Run, ret, fault, div_by_zero, bad_shift}
use kunlun.Hex.{bin2hex}
use kunlun.Md5.{Md5, reset, update, digest}
use kunlun.Prelude.{
  ltb, not, ℕ, ◌+◌, ◌-◌, ◌*◌, ◌/◌, ◌%◌, ◌^◌, List, [], ◌∷◌, Option, none, some, false, replicate,
  take, ◌==◌, if◌then◌else◌,
}

-- bkdr_hash on a buffer, from an intermediate hash on. The body of the loop and its head both move
-- the pointer.
pub bkdr_loop : List ℕ → ℕ → ℕ
bkdr_loop [] hash = hash
bkdr_loop (c ∷ []) hash = (hash * 131 + c) % 2 ^ 64
bkdr_loop (c ∷ passed ∷ str) hash = bkdr_loop str ((hash * 131 + c) % 2 ^ 64)

pub bkdr_hash : List ℕ → ℕ
unfolding bkdr_loop
bkdr_hash str = bkdr_loop str 0

-- The string in a buffer: the bytes before the first zero byte.
pub c_string : List ℕ → List ℕ
c_string [] = []
c_string (c ∷ cs) = if c == 0 then [] else c ∷ c_string cs

pub str_hash : List ℕ → ℕ
unfolding bkdr_hash c_string
str_hash buffer = bkdr_hash (c_string buffer)

-- An MD5 object. Its constructor leaves the buffer and the digest as they lie in memory, here zero.
pub new_md5 : Md5
new_md5 = reset (record {
  state = record { a = 0; b = 0; c = 0; d = 0 };
  count0 = 0;
  count1 = 0;
  buffer = replicate 64 0;
  finished = false;
  digest_bytes = replicate 16 0;
})

-- KL_COMMON_MD5_HASH_LEN
abbrev pub md5_hash_len : ℕ
md5_hash_len = 33

-- MD5::to_string after reset and update, in the buffer md5_hash.
pub md5_string : List ℕ → Option (List ℕ)
unfolding new_md5
md5_string path = bin2hex md5_hash_len (take 16 (digest (update (reset new_md5) path)).digest_bytes)

pub record NameSpace : Type 0 where
  pub name_power : ℕ
  pub vnode_count : ℕ

-- The last three statements of get_vnode_id, from the hash of the digest on. A uint64_t is shifted by
-- m_nname_power, an int.
pub vnode_of_hash : NameSpace → ℕ → Run ℕ
vnode_of_hash ns hash =
    if not (ltb ns.name_power 64)
    then fault bad_shift
    else (if ns.vnode_count == 0
        then fault div_by_zero
        else (let key_hash = hash % 2 ^ ns.name_power in
            let key_partition = 2 ^ ns.name_power / ns.vnode_count in
            if key_partition == 0
            then fault div_by_zero
            else ret ((key_hash / key_partition + 1) % ns.vnode_count)))

-- EINVAL
abbrev pub einval : ℕ
einval = 22

-- get_vnode_id of a path; the result is a bit pattern, -EINVAL included.
pub get_vnode_id : NameSpace → List ℕ → Run ℕ
get_vnode_id ns path = elim (md5_string path) [
  | none ↦ ret (2 ^ 32 - einval)
  | some md5_hash ↦ vnode_of_hash ns (str_hash md5_hash)
]
