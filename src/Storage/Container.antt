-- ===== src/Storage/Container.antt =====
-- The vnodes of CStorageVnodeContainer, src/storagenode/vnode_info.cpp, found by their ids.
use mathlib.Core.Path.{subst}
use mathlib.Core.Option.{some-injective}
use kunlun.Storage.{StorageVnode, get_vnode, set_vnode_status, delete_vnode}
use kunlun.Prelude.{
  ℕ, ◌≡◌, ◌≢◌, ap, inl, inr, refl, List, [], ◌∷◌, ◌++◌, none, some, ◌==◌, Bool-cases, All,
  All-append, sym, arith,
}

-- The ids of the vnodes are distinct.
abbrev pub IsDistinct : List StorageVnode → Type 0
IsDistinct [] = Unit {0}
IsDistinct (v ∷ vs) = All (λ w. w.vnode_id ≢ v.vnode_id) vs × IsDistinct vs

module _ (id : ℕ) where
  get_vnode-All : (vs : List StorageVnode) → All (λ w. w.vnode_id ≢ id) vs → get_vnode vs id ≡ none
  unfolding get_vnode
  get_vnode-All [] h = refl
  get_vnode-All (v ∷ vs) (ne, h) = ground (arith, get_vnode-All vs h)

  pub All-get_vnode :
      (vs : List StorageVnode) → get_vnode vs id ≡ none → All (λ w. w.vnode_id ≢ id) vs
  unfolding get_vnode
  All-get_vnode [] h = tt
  All-get_vnode (v ∷ vs) h = elim (Bool-cases (v.vnode_id == id)) [
    | inl t ↦ cc (rw t at h)
    | inr t ↦ ((λ e. ground arith), All-get_vnode vs (rw t at h))
  ]

  All-set_vnode_status :
      (k status : ℕ) (vs : List StorageVnode)
      → All (λ w. w.vnode_id ≢ k) vs
      → All (λ w. w.vnode_id ≢ k) (set_vnode_status vs id status)
  unfolding set_vnode_status
  All-set_vnode_status k status [] h = tt
  All-set_vnode_status k status (v ∷ vs) (ne, h) = elim (Bool-cases (v.vnode_id == id)) [
    | inl t ↦ rw (t, set_vnode_status) (ne, h)
    | inr t ↦ rw (t, set_vnode_status) (ne, All-set_vnode_status k status vs h)
  ]

  All-delete_vnode :
      (k : ℕ) (vs : List StorageVnode)
      → All (λ w. w.vnode_id ≢ k) vs
      → All (λ w. w.vnode_id ≢ k) (delete_vnode vs id)
  unfolding delete_vnode
  All-delete_vnode k [] h = tt
  All-delete_vnode k (v ∷ vs) (ne, h) = elim (Bool-cases (v.vnode_id == id)) [
    | inl t ↦ rw (t, delete_vnode) h
    | inr t ↦ rw (t, delete_vnode) (ne, All-delete_vnode k vs h)
  ]

  All-append_vnode :
      (k : ℕ) (vs : List StorageVnode) (v : StorageVnode)
      → All (λ w. w.vnode_id ≢ k) vs
      → v.vnode_id ≢ k
      → All (λ w. w.vnode_id ≢ k) (vs ++ v ∷ [])
  All-append_vnode k vs v h ne = All-append _ vs (v ∷ []) h (ne, tt)

  pub IsDistinct-set :
      (status : ℕ) (vs : List StorageVnode)
      → IsDistinct vs
      → IsDistinct (set_vnode_status vs id status)
  unfolding set_vnode_status
  IsDistinct-set status [] h = tt
  IsDistinct-set status (v ∷ vs) (ne, h) = elim (Bool-cases (v.vnode_id == id)) [
    | inl t ↦ rw (t, set_vnode_status) (ne, h)
    | inr t ↦
        rw (t, set_vnode_status)
          (All-set_vnode_status v.vnode_id status vs ne, IsDistinct-set status vs h)
  ]

  pub IsDistinct-delete : (vs : List StorageVnode) → IsDistinct vs → IsDistinct (delete_vnode vs id)
  unfolding delete_vnode
  IsDistinct-delete [] h = tt
  IsDistinct-delete (v ∷ vs) (ne, h) = elim (Bool-cases (v.vnode_id == id)) [
    | inl t ↦ rw (t, delete_vnode) h
    | inr t ↦ rw (t, delete_vnode) (All-delete_vnode v.vnode_id vs ne, IsDistinct-delete vs h)
  ]

  pub IsDistinct-append :
      (vs : List StorageVnode) (v : StorageVnode)
      → All (λ w. w.vnode_id ≢ v.vnode_id) vs
      → IsDistinct vs
      → IsDistinct (vs ++ v ∷ [])
  IsDistinct-append [] v ne h = (tt, tt)
  IsDistinct-append (w ∷ vs) v (other, ne) (nw, h) =
      (All-append_vnode w.vnode_id vs v nw (λ e. other (sym e)), IsDistinct-append vs v ne h)

  pub get_vnode-delete_self :
      (vs : List StorageVnode) → IsDistinct vs → get_vnode (delete_vnode vs id) id ≡ none
  unfolding get_vnode delete_vnode
  get_vnode-delete_self [] h = refl
  get_vnode-delete_self (v ∷ vs) (ne, h) = elim (Bool-cases (v.vnode_id == id)) [
    | inl t ↦
        rw (t, delete_vnode)
          (get_vnode-All vs (subst (λ (k : ℕ). All (λ w. w.vnode_id ≢ k) vs) (ground arith) ne))
    | inr t ↦ rw (t, delete_vnode) (rw t (get_vnode-delete_self vs h))
  ]

  pub get_vnode-delete_ne :
      (k : ℕ) (vs : List StorageVnode) → k ≢ id → get_vnode (delete_vnode vs id) k ≡ get_vnode vs k
  unfolding get_vnode delete_vnode
  get_vnode-delete_ne k [] ne = refl
  get_vnode-delete_ne k (v ∷ vs) ne = ground (arith, get_vnode-delete_ne k vs ne)

  pub get_vnode-set_self :
      (status : ℕ) (vs : List StorageVnode) (v : StorageVnode)
      → get_vnode vs id ≡ some v
      → get_vnode (set_vnode_status vs id status) id ≡ some (record v { vnode_status = status })
  unfolding get_vnode set_vnode_status
  get_vnode-set_self status [] v e = cc
  get_vnode-set_self status (w ∷ vs) v e = elim (Bool-cases (w.vnode_id == id)) [
    | inl t ↦
        rw (t, set_vnode_status)
          (rw t (
            ap (λ (x : StorageVnode). some (record x { vnode_status = status }))
              (some-injective _ _ (rw t at e))))
    | inr t ↦ rw (t, set_vnode_status) (rw t (get_vnode-set_self status vs v (rw t at e)))
  ]

  pub get_vnode-set_ne :
      (k status : ℕ) (vs : List StorageVnode)
      → k ≢ id
      → get_vnode (set_vnode_status vs id status) k ≡ get_vnode vs k
  unfolding get_vnode set_vnode_status
  get_vnode-set_ne k status [] ne = refl
  get_vnode-set_ne k status (v ∷ vs) ne = ground (arith, get_vnode-set_ne k status vs ne)

pub get_vnode-append_self :
    (vs : List StorageVnode) (v : StorageVnode)
    → get_vnode vs v.vnode_id ≡ none
    → get_vnode (vs ++ v ∷ []) v.vnode_id ≡ some v
unfolding get_vnode
get_vnode-append_self [] v e = ground arith
get_vnode-append_self (w ∷ vs) v e = elim (Bool-cases (w.vnode_id == v.vnode_id)) [
  | inl t ↦ cc (rw t at e)
  | inr t ↦ rw (t, get_vnode) (get_vnode-append_self vs v (rw t at e))
]

pub get_vnode-append_ne :
    (k : ℕ) (vs : List StorageVnode) (v : StorageVnode)
    → k ≢ v.vnode_id
    → get_vnode (vs ++ v ∷ []) k ≡ get_vnode vs k
unfolding get_vnode
get_vnode-append_ne k [] v ne = ground arith
get_vnode-append_ne k (w ∷ vs) v ne = ground (arith, get_vnode-append_ne k vs v ne)
