-- ===== src/Handler/Report/Tests.antt =====
-- msg_device_report_handle of src/proxynode/proxy_msg_parser.cpp on a small proxy.
use kunlun.Prelude.Run.{Fault, ret, fault, null_deref}
use kunlun.Protocol.{VnodeReport}
use kunlun.Node.{Device, remove_replica, find_replica}
use kunlun.Proxy.{Proxy}
use kunlun.Proxy.Zones.{Inv}
use kunlun.Proxy.Sample.{device, first, proxy, proxy-Inv}
use kunlun.Handler.{Message, Stream}
use kunlun.Handler.Address.{Reply}
use kunlun.Handler.Join.{put_device}
use kunlun.Handler.Merge.{zero_resp}
use kunlun.Handler.Report.{msg_device_report_handle, slaver_do_device_merge, slave_report}
use kunlun.Handler.Report.Reporting.{msg_device_report_handle-Inv}
use kunlun.Handler.Report.Forgotten.{slaver_do_device_merge-forgotten}
use kunlun.Prelude.{◌≡◌, ◌⊎◌, refl, [], ◌∷◌, ◌++◌, none, some, replicate}

abbrev stream : Stream
stream = record { open_error = 0; header_sent = 0; body_sent = 0 }

-- The address and the port of the device, and a report of vnode 0 at version 1.
abbrev message : Message
message = record {
  pkg_len = 35;
  body = replicate 16 0 ++ 0 ∷ 0 ∷ 0 ∷ 80 ∷ (replicate 11 0 ++ 1 ∷ 5 ∷ []);
}

msg_device_report_handle-Inv_example :
    ((r : Reply) × (msg_device_report_handle 9 zero_resp none proxy stream message ≡ ret r)
      × Inv r.after)
    ⊎ ((x : Fault) × (msg_device_report_handle 9 zero_resp none proxy stream message ≡ fault x))
msg_device_report_handle-Inv_example =
    msg_device_report_handle-Inv 9 zero_resp none proxy stream message refl proxy-Inv

abbrev holder : Device
holder = record (device 1) { vnode_list = 0 ∷ [] }

abbrev reported : Proxy
reported = put_device proxy 0 (some holder)

abbrev unit : VnodeReport
unit = record { vnode_id = 0; vnode_version = 1; vnode_status = 5 }

slaver_do_device_merge-forgotten_example :
    (q : Proxy) × (slaver_do_device_merge 0 [] 0 reported ≡ ret q)
    × (q.devices 0 ≡ some holder)
    × (slave_report 0 unit (q, 0 ∷ []) ≡ fault null_deref)
unfolding find_replica remove_replica
slaver_do_device_merge-forgotten_example =
    slaver_do_device_merge-forgotten 0 0 [] reported holder first unit refl refl refl refl refl refl
