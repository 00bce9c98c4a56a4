-- ===== src/Storage/Tests.antt =====
-- A small storage node of src/storagenode.
use kunlun.Prelude.Run.{ret, ◌>>=◌}
use kunlun.Prelude.Text.{codes}
use kunlun.Serializer.{buff2int32}
use kunlun.Node.Status
use kunlun.Protocol.{VnodeResp, storage_info_size}
use kunlun.Protocol.RoundTrip.{IsResp}
use kunlun.Proxy.Sample.{proxy}
use kunlun.Handler.{Message, Stream}
use kunlun.Proxy.{get_node_by_addr, same_bytes}
use kunlun.Handler.Join.{join_body}
use kunlun.Handler.Report.{merge_device, msg_device_report_handle}
use kunlun.Handler.Merge.{Merge, merge_reports}
use kunlun.Handler.SyncDown.{sync_vnodes, sync_bytes, sync_count}
use kunlun.Storage.{StorageVnode, Part, Outcome, done, failed, get_vnode, set_vnode_status}
use kunlun.Storage.BeatHeart.{
  Globals, Node, Sends, join_request, report_unit, report_body, down_body, beat, merge_vnode_status,
}
use kunlun.Storage.BeatHeart.Following.{
  Follows, merge_vnode_status-Follows, merge_vnode_status-again,
}
use kunlun.Storage.BeatHeart.Wire.{
  merge_all, IsGlobals, IsNamed, IsVnode, join_body-join_request, report_body-read,
}
use kunlun.Storage.BeatHeart.Answered.{
  follow_all, answer_of, sync_all, report_of, followed, beat-follow_all, down_body-read,
}
use kunlun.Prelude.{
  ℕ, ◌+◌, ◌%◌, ◌≡◌, refl, false, List, [], ◌∷◌, ◌++◌, none, some, map, length, take, drop,
  replicate, arith,
}

abbrev globals : Globals
globals = record { bind_ip = replicate 16 49; bind_port = 80; zone_id = 2; weight = 1 }

globals-IsGlobals : IsGlobals globals
globals-IsGlobals = record {
  ip_fits = refl;
  port_fits = omega arith;
  zone_fits = omega arith;
  weight_fits = omega arith;
}

abbrev vnode : ℕ → StorageVnode
vnode id = record { vnode_id = id; vnode_status = Status.active; vnode_version = 7 }

abbrev two : List StorageVnode
two = vnode 3 ∷ vnode 4 ∷ []

vnode_3-IsVnode : IsVnode (vnode 3)
unfolding report_unit
vnode_3-IsVnode = record { id_fits = omega arith; version_fits = omega arith }

vnode_4-IsVnode : IsVnode (vnode 4)
unfolding report_unit
vnode_4-IsVnode = record { id_fits = omega arith; version_fits = omega arith }

abbrev works : Part → Outcome
works part = done

abbrev full : Part → Outcome
full part = failed 28

abbrev resp : VnodeResp
resp = record {
  vnode_id = 4;
  vnode_status = Status.copy_src;
  sync_dest_ip = replicate 16 50;
  sync_dest_port = 81;
}

resp-IsResp : IsResp resp
resp-IsResp = record { id_fits = omega arith; port_fits = omega arith; ip_fits = refl }

abbrev node : Node
node = record { vnodes = two; sync_msgs = []; sync_down = 4 ∷ [] }

join_body-join_request_test :
    (join_body (join_request globals) ≡ ret (record { bind_port = 80; zone_id = 2; weight = 1 }))
    × (take 16 (join_request globals) ≡ replicate 16 49)
    × (length (join_request globals) ≡ 28)
join_body-join_request_test = join_body-join_request globals globals-IsGlobals

-- The ip "10.0.0.7".
abbrev named : Globals
named = record globals { bind_ip = codes "10.0.0.7" ++ replicate 8 0 }

named-IsGlobals : IsGlobals named
named-IsGlobals = record {
  ip_fits = refl;
  port_fits = omega arith;
  zone_fits = omega arith;
  weight_fits = omega arith;
}

named-IsNamed : IsNamed named
unfolding same_bytes
named-IsNamed = record {
  ip = codes "10.0.0.7";
  pad = replicate 7 0;
  field = refl;
  no_zero = omega arith;
  start = codes "10.0.0.7";
  behind = replicate 8 0;
  split = refl;
  start_fits = refl;
  own = refl;
}

abbrev stream : Stream
stream = record { open_error = 0; header_sent = 0; body_sent = 0 }

abbrev merge : Merge
merge = record { proxy = proxy; resp = resp; answers = []; left = [] }

report_body-read_example :
    (body : List ℕ) × (report_body named two ≡ ret body)
    × (msg_device_report_handle 1000 resp none proxy stream
          (record { pkg_len = length body + 2; body = body })
        ≡ (do
          found ← get_node_by_addr proxy (codes "10.0.0.7") 80
          merge_device 1000 resp proxy stream body 2 found))
    × (merge_reports 2 0 (drop storage_info_size body) merge
        ≡ merge_all 0 (map report_unit two) merge)
unfolding named-IsNamed
report_body-read_example =
    report_body-read named two named-IsNamed proxy stream 1000 resp none 0 merge named-IsGlobals
      (vnode_3-IsVnode, (vnode_4-IsVnode, tt)) (omega arith) refl

merge_vnode_status-Follows_example :
    Follows 4 Status.offline two (merge_vnode_status works 4 Status.offline two).0
merge_vnode_status-Follows_example =
    merge_vnode_status-Follows works 4 Status.offline two (((λ e. cc e), tt), (tt, tt))

merge_vnode_status-again_test :
    (v : StorageVnode) × (get_vnode (merge_vnode_status full 5 1 two).0 5 ≡ some v)
    × (merge_vnode_status full 5 2 (merge_vnode_status full 5 1 two).0
        ≡ (set_vnode_status (merge_vnode_status full 5 1 two).0 5 2, 0))
merge_vnode_status-again_test = merge_vnode_status-again full full 5 1 2 two (λ e. cc e) (λ e. cc e)

abbrev all_sent : Sends
all_sent = record { header_sent = 0; body_sent = 0 }

beat-follow_all_example :
    beat (λ id. works) globals false all_sent (answer_of (resp ∷ [])) all_sent (answer_of []) node
    ≡ ret (followed (report_of globals two) (follow_all (λ id. works) (resp ∷ []) node))
beat-follow_all_example =
    beat-follow_all (λ id. works) globals all_sent (answer_of []) node (resp ∷ []) (omega arith)
      (resp-IsResp, tt) (omega arith)

abbrev down : List ℕ
down = down_body globals (1 ∷ [])

down_body-read_example :
    (let msg : Message = record { pkg_len = length down + 2; body = down } in
      (sync_bytes msg % 4 ≡ 0)
      × (buff2int32 (drop 16 down) ≡ some 80)
      × (sync_vnodes (sync_count msg) 0 (drop storage_info_size down) proxy
          ≡ sync_all 0 (1 ∷ []) proxy))
down_body-read_example =
    down_body-read globals (1 ∷ []) 0 proxy globals-IsGlobals (omega arith, tt) (omega arith)
