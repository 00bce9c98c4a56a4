-- ===== src/Storage/BeatHeart/Following.antt =====
-- What merge_vnode_status of src/storagenode/thread_beat_heart.cpp does to the vnodes of a storage
-- node.
use kunlun.Storage.Container.{
  IsDistinct, All-get_vnode, IsDistinct-set, IsDistinct-delete, IsDistinct-append,
  get_vnode-delete_self, get_vnode-delete_ne, get_vnode-set_self, get_vnode-set_ne,
  get_vnode-append_self, get_vnode-append_ne,
}
use kunlun.Node.Status
use kunlun.Storage.{StorageVnode, Part, Outcome, get_vnode, set_vnode_status, add_vnode}
use kunlun.Storage.BeatHeart.{merge_vnode_status}
use kunlun.Prelude.{
  ℕ, ◌≡◌, ◌≢◌, ◌⊎◌, inl, inr, refl, List, false, none, some, ◌==◌, Bool-cases, Option-cases, arith,
}

-- The vnodes vs' follow an answer about vnode `id` given the vnodes vs: the vnode is gone where its
-- replica is OFFLINE, and has the status of the answer where it is not; no other vnode has changed.
abbrev pub Follows : ℕ → ℕ → List StorageVnode → List StorageVnode → Type 0
Follows id status vs vs' =
    (((status ≡ Status.offline) × (get_vnode vs' id ≡ none))
      ⊎ ((status ≢ Status.offline)
          × (v : StorageVnode) × (get_vnode vs' id ≡ some v)
          × (v.vnode_status ≡ status)))
    × ((k : ℕ) → k ≢ id → get_vnode vs' k ≡ get_vnode vs k)
    × IsDistinct vs'

-- An answer of the proxy about a vnode is followed, if the ids of the vnodes are distinct, which they
-- stay; this holds also where the directories or databases of a new vnode cannot be made.
pub merge_vnode_status-Follows :
    (disk : Part → Outcome) (id status : ℕ) (vs : List StorageVnode)
    → IsDistinct vs
    → Follows id status vs (merge_vnode_status disk id status vs).0
unfolding merge_vnode_status add_vnode
merge_vnode_status-Follows disk id status vs h = elim (Bool-cases (status == Status.offline)) [
  | inl t ↦
      rw (t, merge_vnode_status)
        (
          inl (ground arith, get_vnode-delete_self id vs h),
          (λ k ne. get_vnode-delete_ne id k vs ne),
          IsDistinct-delete id vs h,
        )
  | inr t ↦
      let stays : status ≢ Status.offline = ground arith in
      elim (Option-cases (get_vnode vs id)) [
        | inl e ↦
            let v : StorageVnode = record {
              vnode_id = id;
              vnode_status = status;
              vnode_version = 0;
            } in
            rw (t, merge_vnode_status, e)
              (
                inr (stays, v, get_vnode-append_self vs v e, refl),
                (λ k ne. get_vnode-append_ne k vs v ne),
                IsDistinct-append id vs v (All-get_vnode id vs e) h,
              )
        | inr (v, e) ↦
            rw (t, merge_vnode_status, e)
              (
                inr (stays, _, get_vnode-set_self id status vs v e, refl),
                (λ k ne. get_vnode-set_ne id k status vs ne),
                IsDistinct-set id status vs h,
              )
      ]
]

merge_found :
    (disk : Part → Outcome) (id status : ℕ) (vs : List StorageVnode) (v : StorageVnode)
    → status ≢ Status.offline
    → get_vnode vs id ≡ some v
    → merge_vnode_status disk id status vs ≡ (set_vnode_status vs id status, 0)
unfolding merge_vnode_status
merge_found disk id status vs v stays e =
    let t : (status == Status.offline) ≡ false = ground arith in rw (t, merge_vnode_status, e) refl

merge_kept :
    (disk : Part → Outcome) (id status : ℕ) (vs : List StorageVnode)
    → status ≢ Status.offline
    → (v : StorageVnode) × (get_vnode (merge_vnode_status disk id status vs).0 id ≡ some v)
unfolding merge_vnode_status add_vnode
merge_kept disk id status vs stays =
    let t : (status == Status.offline) ≡ false = ground arith in
    elim (Option-cases (get_vnode vs id)) [
      | inl e ↦
          let v : StorageVnode = record {
            vnode_id = id;
            vnode_status = status;
            vnode_version = 0;
          } in
          rw (t, merge_vnode_status, e) (v, get_vnode-append_self vs v e)
      | inr (v, e) ↦ rw (t, merge_vnode_status, e) (_, get_vnode-set_self id status vs v e)
    ]

-- A vnode that an answer names with a status that is not OFFLINE stays in the container even if its
-- directories or databases could not be made: an answer that names it again, not as OFFLINE, makes
-- nothing and succeeds, whatever the disk does.
pub merge_vnode_status-again :
    (disk disk' : Part → Outcome) (id status status' : ℕ) (vs : List StorageVnode)
    → status ≢ Status.offline
    → status' ≢ Status.offline
    → (v : StorageVnode) × (get_vnode (merge_vnode_status disk id status vs).0 id ≡ some v)
      × (merge_vnode_status disk' id status' (merge_vnode_status disk id status vs).0
          ≡ (set_vnode_status (merge_vnode_status disk id status vs).0 id status', 0))
merge_vnode_status-again disk disk' id status status' vs stays stays' =
    let (v, e) = merge_kept disk id status vs stays in
    (v, e, merge_found disk' id status' _ v stays' e)
