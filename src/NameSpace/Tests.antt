-- ===== src/NameSpace/Tests.antt =====
-- CNameSpaceHash of src/common/hash.cpp on concrete paths and name spaces.
use kunlun.Prelude.Run.{fault, div_by_zero}
use kunlun.Prelude.{ℕ, ◌≡◌, ◌+◌, ◌*◌, ◌%◌, ◌^◌, refl, List, [], ◌∷◌, arith}
use kunlun.NameSpace.{NameSpace, bkdr_hash, bkdr_loop, get_vnode_id}
use kunlun.NameSpace.Bounds.{get_vnode_id_fault, bkdr_hash-even_places, even_places}
use mathlib.Core.List.{foldl}

abbrev space : ℕ → NameSpace
space count = record { name_power = 4; vnode_count = count }

-- "/a/b"
abbrev path : List ℕ
path = 47 ∷ 97 ∷ 47 ∷ 98 ∷ []

get_vnode_id_fault_test : get_vnode_id (space 17) path ≡ fault div_by_zero
get_vnode_id_fault_test = get_vnode_id_fault (space 17) path (omega arith) (omega arith)

-- Paths that differ at odd places only collide.
collision : bkdr_hash path ≡ bkdr_hash (47 ∷ 1 ∷ 47 ∷ 2 ∷ [])
unfolding bkdr_hash bkdr_loop
collision = refl

bkdr_hash-even_places_example :
    bkdr_hash path ≡ foldl (λ h c. (h * 131 + c) % 2 ^ 64) 0 (even_places path)
bkdr_hash-even_places_example = bkdr_hash-even_places path
