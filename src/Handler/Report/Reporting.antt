-- ===== src/Handler/Report/Reporting.antt =====
-- What a report of a storage node does to a master: msg_device_report_handle of
-- src/proxynode/proxy_msg_parser.cpp.
use kunlun.Prelude.Run.{
  Fault, ret, fault, out_of_bounds, Keeps, Keeps->>=, Keeps-ret, Keeps-cases, Keeps-if, or_fault,
}
use kunlun.Serializer.{buff2int32}
use kunlun.Protocol.{VnodeResp, storage_info_size, vnode_report_size}
use kunlun.Proxy.{Proxy, deref, get_node_by_addr}
use kunlun.Proxy.Zones.{Inv, put_device-Inv}
use kunlun.Proxy.Container.{deref-ret}
use kunlun.Handler.{Message, Stream, read_string}
use kunlun.Handler.Address.{Reply}
use kunlun.Handler.Merge.Answering.{SoundReply, master_do_device_merge-Inv}
use kunlun.Handler.Report.{
  merge_device, named_body, plain_reply, report_bytes, report_count, msg_device_report_handle,
}
use kunlun.Prelude.{
  ℕ, ◌≡◌, refl, ◌⊎◌, inl, inr, List, Option, none, some, true, Option-cases, drop, ◌==◌, ◌%◌, not,
}

merge_device-Inv :
    (now : ℕ) (stale : VnodeResp) (p : Proxy) (s : Stream) (body : List ℕ) (count : ℕ)
    (found : Option ℕ)
    → p.is_master ≡ true
    → Inv p
    → Keeps SoundReply (merge_device now stale p s body count found)
unfolding merge_device plain_reply
merge_device-Inv now stale p s body count none master inv = Keeps-ret SoundReply _ inv
merge_device-Inv now stale p s body count (some a) master inv =
    Keeps->>= SoundReply (deref p.devices a) (λ d ed. rw master (
      master_do_device_merge-Inv stale a (drop storage_info_size body) count _ s
        (put_device-Inv p a d _ inv (deref-ret p.devices a d ed) refl)))

pub handled-Inv :
    (now : ℕ) (stale : VnodeResp) (peer : Option (List ℕ)) (p : Proxy) (s : Stream) (msg : Message)
    → p.is_master ≡ true
    → Inv p
    → Keeps SoundReply (msg_device_report_handle now stale peer p s msg)
unfolding msg_device_report_handle
handled-Inv now stale peer p s msg master inv =
    Keeps-if SoundReply (not (report_bytes msg % vnode_report_size == 0))
      (λ t. Keeps-ret SoundReply _ inv)
      (λ t.
        Keeps-if SoundReply (not (s.open_error == 0)) (λ u. Keeps-ret SoundReply _ inv)
          (λ u. elim (Option-cases (named_body peer msg.body)) [
            | inl e ↦ rw e (Keeps-ret SoundReply _ inv)
            | inr (body, e) ↦ rw e (
                Keeps->>= SoundReply (read_string body) (λ ip ei.
                  Keeps->>= SoundReply (or_fault (buff2int32 (drop 16 body)) out_of_bounds)
                    (λ port ep. Keeps->>= SoundReply (get_node_by_addr p ip port) (λ found ef.
                      merge_device-Inv now stale p s body (report_count msg) found master inv))))
          ]))

-- A report that a master handles keeps its vnodes sound, whatever the storage node says: the handler
-- returns with sound vnodes, or it runs into a fault.
pub msg_device_report_handle-Inv :
    (now : ℕ) (stale : VnodeResp) (peer : Option (List ℕ)) (p : Proxy) (s : Stream) (msg : Message)
    → p.is_master ≡ true
    → Inv p
    → ((r : Reply) × (msg_device_report_handle now stale peer p s msg ≡ ret r) × Inv r.after)
      ⊎ ((x : Fault) × (msg_device_report_handle now stale peer p s msg ≡ fault x))
msg_device_report_handle-Inv now stale peer p s msg master inv =
    Keeps-cases SoundReply (msg_device_report_handle now stale peer p s msg)
      (handled-Inv now stale peer p s msg master inv)
