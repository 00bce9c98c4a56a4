-- ===== src/Handler/Parser.antt =====
-- CProxyMsgParser::parse_msg of src/proxynode/proxy_msg_parser.cpp, with the names that
-- proxy_msg_parser.h gives to the handler of addresses.
pub mod Serving
mod Tests
use kunlun.Prelude.Run.{Run, ret}
use kunlun.Protocol.{VnodeResp}
use kunlun.NameSpace.{NameSpace}
use kunlun.Proxy.{Proxy}
use kunlun.Balancer.{minus_one}
use kunlun.Handler.{Message, Stream}
use kunlun.Handler.Address.{Reply, silent, msg_get_vnode_addr_handle}
use kunlun.Handler.Join.{msg_device_join_handle}
use kunlun.Handler.SyncDown.{msg_sync_down_handle}
use kunlun.Handler.Report.{msg_device_report_handle}
use kunlun.Prelude.{ℕ, List, Bool, true, false, ◌||◌, Option, none, some, ◌==◌, if◌then◌else◌}

-- What a handler needs besides the proxy and the message: the calls of rand(), the clock, the address
-- of a new device, the memory of resp_vnode, and the field that getpeeraddr and getipaddress leave.
pub record Outside : Type 0 where
  pub rand : ℕ → ℕ
  pub now : ℕ
  pub new_address : ℕ
  pub stale : VnodeResp
  pub peer : Option (List ℕ)
  pub peer_text : List ℕ

-- The commands KL_PROXY_CMD_READ_ACCOUNT, _READ_CONTAINER and _READ_FILE, and those for writing.
pub reads : ℕ → Bool
reads cmd = cmd == 6 || cmd == 7 || cmd == 8

pub writes : ℕ → Bool
writes cmd = cmd == 9 || cmd == 10 || cmd == 11

-- `none` is a message without a package.
pub parse_msg : NameSpace → Outside → Proxy → Stream → Option ℕ → Message → Run Reply
parse_msg ns o p s none msg = ret (silent p minus_one)
parse_msg ns o p s (some cmd) msg =
    if cmd == 1
    then msg_device_join_handle o.rand o.now o.new_address o.peer p s msg
    else (if cmd == 2
        then msg_device_report_handle o.now o.stale o.peer p s msg
        else (if cmd == 5
            then msg_sync_down_handle o.peer_text p s msg
            else (if reads cmd
                then msg_get_vnode_addr_handle ns p s msg true
                else (if writes cmd
                    then msg_get_vnode_addr_handle ns p s msg false
                    else ret (silent p minus_one)))))
