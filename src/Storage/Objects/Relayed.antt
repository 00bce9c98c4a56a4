-- ===== src/Storage/Objects/Relayed.antt =====
-- What the first storage node of an upload sends to a second one, and what the second one makes of
-- it: src/storagenode/storage_msg_parser.cpp against src/common/stream_msg_packetizer.cpp.
use kunlun.Prelude.Run.{ret}
use kunlun.Serializer.{buff2int32, buff2int64}
use kunlun.NameSpace.{einval}
use kunlun.Packetizer.{idle, receive_all}
use kunlun.Packetizer.Sending.{Sent, package_of, IsSendable, header}
use kunlun.Packetizer.Pieces.{receive_all-Cuts, Cut, Cuts, between}
use kunlun.Storage.{get_vnode}
use kunlun.Storage.Files.{Files}
use kunlun.Storage.Files.Streams.{Delivers, stream_readout_lem}
use kunlun.Storage.Objects.{
  System, Store, Peer, get_upload, body_len, vnode_error, failed_with, take_object,
  msg_ctrl_stream_handle,
}
use kunlun.Storage.Objects.Relaying.{Second, relay_header, relay}
use kunlun.Prelude.{
  ℕ, suc, ◌≤◌, ◌≡◌, refl, List, [], ◌∷◌, ◌++◌, some, none, length, take, drop, length-take,
  length-drop, append_nil, low_bits, false, arith, ◌==◌,
}

-- A second node that takes everything.
pub record IsWilling (node : Second) (n : ℕ) : Type 0 where
  pub connects : node.connect_error ≡ 0
  pub takes_header : node.header_sent ≡ 0
  pub takes_file : Delivers node.file n
  pub has_size : node.stat_error ≡ 0
  pub answers : node.answer_error ≡ 0

pub relay_lem :
    (files : Files) (path object : List ℕ) (node : Second)
    → files path ≡ some object
    → IsWilling node (length object)
    → relay files path node ≡ ret (relay_header ++ object, node.answer_status == 0)
unfolding relay
relay_lem files path object node found w =
    let out =
      stream_readout_lem files node.file node.stat_error path object found w.has_size
        w.takes_file in
    simp (w.connects, w.takes_header) (rw out (simp (w.answers)))

-- The message of a body of the first 268 bytes.
abbrev misread : List ℕ → Sent
misread object = record { cmd = 13; status = 0; body = take 268 object }

package_of_object :
    (object : List ℕ)
    → 268 ≤ length object
    → receive_all idle ((relay_header ++ take 268 object) ∷ [])
      ≡ ret (idle, package_of (misread object) ∷ [])
package_of_object object enough =
    let m = misread object in
    let len : length m.body ≡ 268 = length-take 268 object enough in
    let fits : IsSendable m = record {
      not_empty = omega (arith, len);
      bounded = omega (arith, len);
    } in
    let cut : Cut between (header m ++ (m.body ++ [])) (m ∷ []) between =
      Cut.whole m [] [] between fits Cut.done in
    let cuts : Cuts between ((header m ++ (m.body ++ [])) ∷ []) ((m ∷ []) ++ []) between =
      Cuts.next between between between _ [] (m ∷ []) [] cut (Cuts.no_more between between refl) in
    let same : header m ++ (m.body ++ []) ≡ relay_header ++ take 268 object =
      rw (append_nil (take 268 object), len) refl in
    rw (← same) (receive_all-Cuts cuts)

buff2int32-take :
    (xs : List ℕ) (n id : ℕ) → 4 ≤ n → buff2int32 xs ≡ some id → buff2int32 (take n xs) ≡ some id
unfolding buff2int32
buff2int32-take (a ∷ b ∷ c ∷ d ∷ xs) (suc (suc (suc (suc n)))) id h e = e
buff2int32-take xs n id h e = ground arith

buff2int64-some : (xs : List ℕ) → 8 ≤ length xs → (n : ℕ) × (buff2int64 xs ≡ some n)
unfolding buff2int64
buff2int64-some (a ∷ b ∷ c ∷ d ∷ e ∷ f ∷ g ∷ h ∷ xs) le = (_, refl)
buff2int64-some xs le = absurd (omega arith)

msg_ctrl_stream_handle-absent :
    (sys : System) (s : Store) (peer : Peer) (body : List ℕ) (id n : ℕ)
    → peer.open_error ≡ 0
    → buff2int32 body ≡ some id
    → buff2int64 (drop 260 body) ≡ some n
    → get_vnode s.vnodes id ≡ none
    → msg_ctrl_stream_handle sys s peer (record { pkg_len = 270; body = body })
      ≡ ret (failed_with s einval)
unfolding msg_ctrl_stream_handle body_len get_upload take_object vnode_error
msg_ctrl_stream_handle-absent sys s peer body id n opened id_back len_back absent =
    rw (opened, id_back, len_back) (rw (absent, vnode_error) refl)

-- Where a second node takes an object of at least 268 bytes, whose first four spell a number that is no
-- vnode of it, it is sent the bytes of the object behind the header, but no upload_file_info. Its
-- packetizer cuts the first 268 of them off as that body, it refuses them with EINVAL, and with that
-- answer it does not count for the upload.
pub relay_refused :
    (files : Files) (path object : List ℕ) (node : Second) (sys : System) (s : Store) (peer : Peer)
    (id : ℕ)
    → files path ≡ some object
    → IsWilling node (length object)
    → 268 ≤ length object
    → buff2int32 object ≡ some id
    → get_vnode s.vnodes id ≡ none
    → peer.open_error ≡ 0
    → (relay files path (record node { answer_status = low_bits einval 8 })
        ≡ ret (relay_header ++ object, false))
      × (receive_all idle ((relay_header ++ take 268 object) ∷ [])
          ≡ ret (idle, record { pkg_len = 270; bytes = 13 ∷ 0 ∷ take 268 object } ∷ []))
      × (msg_ctrl_stream_handle sys s peer (record { pkg_len = 270; body = take 268 object })
          ≡ ret (failed_with s einval))
relay_refused files path object node sys s peer id found w enough spells absent opened =
    let len = length-take 268 object enough in
    let id_back = buff2int32-take object 268 id (omega arith) spells in
    let behind : 8 ≤ length (drop 260 (take 268 object)) =
      omega (arith, length-drop 260 (take 268 object), len) in
    let (n, len_back) = buff2int64-some (drop 260 (take 268 object)) behind in
    (
      relay_lem files path object _ found (record {
        connects = w.connects;
        takes_header = w.takes_header;
        takes_file = w.takes_file;
        has_size = w.has_size;
        answers = w.answers;
      }),
      rw (package_of_object object enough, len) refl,
      msg_ctrl_stream_handle-absent sys s peer (take 268 object) id n opened id_back len_back
          absent,
    )
