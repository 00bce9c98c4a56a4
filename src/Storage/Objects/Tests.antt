-- ===== src/Storage/Objects/Tests.antt =====
-- An object of a small storage node of src/storagenode.
use kunlun.Prelude.Run.{ret}
use kunlun.Prelude.Text.{codes, decimal}
use kunlun.Serializer.{buff2int32}
use kunlun.NameSpace.{einval}
use kunlun.Packetizer.{idle, receive_all}
use kunlun.Node.Status
use kunlun.Storage.{StorageVnode, get_vnode}
use kunlun.Storage.Files.{Files, FileCalls, moved, object_path, parent_dir}
use kunlun.Storage.Objects.{System, Store, Peer, vnode_error, failed_with, msg_ctrl_stream_handle}
use kunlun.Storage.Objects.Relaying.{Second, relay, relay_all, relay_header, msg_upload_file_handle}
use kunlun.Storage.Objects.Stored.{
  IsField, CanStore, upload_body, message, place, opened_store, counted_store,
}
use kunlun.Storage.Objects.Uploading.{msg_upload_file_handle_lem}
use kunlun.Storage.Objects.Relayed.{IsWilling, relay_refused}
use kunlun.Prelude.{
  ℕ, ◌<◌, ◌^◌, ◌≡◌, refl, List, [], ◌∷◌, ◌++◌, false, none, some, take, replicate, arith, low_bits,
}

abbrev vnode : StorageVnode
vnode = record { vnode_id = 3; vnode_status = Status.active; vnode_version = 7 }

abbrev no_files : Files
no_files path = none

abbrev node : Store
node = record { vnodes = vnode ∷ []; files = no_files }

-- A disk whose files take five bytes, in two pieces.
abbrev in_two : FileCalls
in_two = record { open_error = 0; calls = moved 2 ∷ moved 3 ∷ []; refusal = 22 }

abbrev system : System
system = record { root = codes "/d"; make_dir = λ dir. 0; file = λ path. in_two; stat_error = 0 }

abbrev name : List ℕ
name = codes "a.txt"

abbrev pad : List ℕ
pad = replicate 250 0

name-IsField : IsField name pad
name-IsField = record { no_zero = omega arith; fits = refl }

abbrev peer : Peer
peer = record { open_error = 0; header_sent = 0; body_sent = 0 }

vnode-active : vnode_error (vnode ∷ []) 3 ≡ 0
unfolding vnode_error get_vnode
vnode-active = refl

-- The file of the object holds these bytes before the upload.
abbrev old_bytes : List ℕ
old_bytes = 1 ∷ 2 ∷ 3 ∷ 4 ∷ 5 ∷ []

abbrev old_node : Store
old_node = record { vnodes = vnode ∷ []; files = λ path. some old_bytes }

can_store : (n : ℕ) → n < 2 ^ 63 → CanStore system (object_path (codes "/d") 3 name) n
unfolding object_path parent_dir decimal
can_store n low = record {
  dir = codes "/d/storage_vnode3/object";
  has_dir = refl;
  made = refl;
  opened = refl;
  signed = low;
}

abbrev nobody : ℕ → Second
nobody i = record {
  connect_error = 111;
  header_sent = 0;
  file = in_two;
  stat_error = 0;
  answer_error = 0;
  answer_status = 0;
}

no_infos :
    relay_all (opened_store system node 3 name).files (place system 3 name) nobody 0 0 []
    ≡ ret ([], 0)
unfolding relay_all
no_infos = refl

msg_upload_file_handle_lem_example :
    msg_upload_file_handle system nobody node peer (message (upload_body 3 name pad 5 []))
    ≡ ret (record { served = failed_with (opened_store system node 3 name) 22; relayed = [] })
msg_upload_file_handle_lem_example =
    msg_upload_file_handle_lem system nobody node 3 name pad 5 [] 0 peer [] 0 (omega arith)
      name-IsField refl (omega arith) vnode-active (can_store 5 (omega arith)) refl no_infos

-- An upload of no bytes counts the version up, although it has no second node.
upload_of_no_bytes :
    msg_upload_file_handle system nobody node peer (message (upload_body 3 name pad 0 []))
    ≡ ret (record { served = failed_with (counted_store system node 3 name) einval; relayed = [] })
upload_of_no_bytes =
    msg_upload_file_handle_lem system nobody node 3 name pad 0 [] 0 peer [] 0 (omega arith)
      name-IsField refl (omega arith) vnode-active (can_store 0 (omega arith)) refl no_infos

-- A text of 300 letters, whose first four spell the number 0x61616161.
abbrev letters : List ℕ
letters = replicate 300 97

abbrev willing : Second
willing = record {
  connect_error = 0;
  header_sent = 0;
  file = record { open_error = 0; calls = moved 300 ∷ []; refusal = 22 };
  stat_error = 0;
  answer_error = 0;
  answer_status = 0;
}

abbrev one_file : Files
one_file path = some letters

willing-IsWilling : IsWilling willing 300
willing-IsWilling = record {
  connects = refl;
  takes_header = refl;
  takes_file = (refl, omega arith, omega arith);
  has_size = refl;
  answers = refl;
}

letters-id : buff2int32 letters ≡ some 1633771873
unfolding buff2int32
letters-id = refl

letters-absent : get_vnode (vnode ∷ []) 1633771873 ≡ none
unfolding get_vnode
letters-absent = refl

relay_refused_example :
    (relay one_file [] (record willing { answer_status = low_bits einval 8 })
      ≡ ret (relay_header ++ letters, false))
    × (receive_all idle ((relay_header ++ take 268 letters) ∷ [])
        ≡ ret (idle, record { pkg_len = 270; bytes = 13 ∷ 0 ∷ take 268 letters } ∷ []))
    × (msg_ctrl_stream_handle system node peer (record { pkg_len = 270; body = take 268 letters })
        ≡ ret (failed_with node einval))
relay_refused_example =
    relay_refused one_file [] letters willing system node peer 1633771873 refl willing-IsWilling
      (omega arith) letters-id letters-absent refl
