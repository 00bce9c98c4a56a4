-- ===== src/NameSpace/Bounds.antt =====
-- The results of CNameSpaceHash in src/common/hash.cpp.
use kunlun.Prelude.Run.{fault, div_by_zero}
use kunlun.Hex.RoundTrip.{bin2hex_room}
use kunlun.Md5.{reset, update, digest}
use kunlun.NameSpace.{
  NameSpace, bkdr_loop, bkdr_hash, vnode_of_hash, get_vnode_id, md5_string, md5_hash_len, new_md5,
  str_hash,
}
use mathlib.Core.List.{foldl}
use kunlun.Prelude.{
  ℕ, ◌+◌, ◌*◌, ◌/◌, ◌%◌, ◌^◌, ◌<◌, ◌≡◌, List, [], ◌∷◌, some, refl, arith, ◌∙◌, length-take-le, take,
}

md5_string-some : (path : List ℕ) → (md5_hash : List ℕ) × (md5_string path ≡ some md5_hash)
unfolding md5_string
md5_string-some path =
    let bytes = (digest (update (reset new_md5) path)).digest_bytes in
    (_, bin2hex_room md5_hash_len (take 16 bytes) (omega (arith, length-take-le 16 bytes)))

-- The digest always fits its buffer, so the hash of a path is taken.
get_vnode_id-vnode_of_hash :
    (ns : NameSpace) (path : List ℕ) → (hash : ℕ) × (get_vnode_id ns path ≡ vnode_of_hash ns hash)
unfolding get_vnode_id
get_vnode_id-vnode_of_hash ns path =
    let (md5_hash, e) = md5_string-some path in (str_hash md5_hash, rw (e, get_vnode_id))

-- With more vnodes than 2 ^ name_power, name_power below 64, get_vnode_id divides by zero on every path.
pub get_vnode_id_fault :
    (ns : NameSpace) (path : List ℕ)
    → 2 ^ ns.name_power < ns.vnode_count
    → ns.name_power < 64
    → get_vnode_id ns path ≡ fault div_by_zero
unfolding vnode_of_hash
get_vnode_id_fault ns path many low =
    let (hash, e) = get_vnode_id-vnode_of_hash ns path in e ∙ ground (arith, small)
  where
    small : 2 ^ ns.name_power / ns.vnode_count ≡ 0
    small = grind arith

-- The bytes at even places.
pub even_places : List ℕ → List ℕ
even_places [] = []
even_places (c ∷ []) = c ∷ []
even_places (c ∷ passed ∷ str) = c ∷ even_places str

bkdr_loop-even_places :
    (str : List ℕ) (hash : ℕ)
    → bkdr_loop str hash ≡ foldl (λ h c. (h * 131 + c) % 2 ^ 64) hash (even_places str)
unfolding bkdr_loop even_places
bkdr_loop-even_places [] hash = refl
bkdr_loop-even_places (c ∷ []) hash = refl
bkdr_loop-even_places (c ∷ passed ∷ str) hash =
    bkdr_loop-even_places str ((hash * 131 + c) % 2 ^ 64)

-- bkdr_hash is the BKDR hash of the bytes at even places; the bytes between them do not count.
pub bkdr_hash-even_places :
    (str : List ℕ) → bkdr_hash str ≡ foldl (λ h c. (h * 131 + c) % 2 ^ 64) 0 (even_places str)
unfolding bkdr_hash
bkdr_hash-even_places str = bkdr_loop-even_places str 0
