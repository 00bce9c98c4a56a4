-- ===== src/Storage/Parser.antt =====
-- CStorageMsgParser::parse_msg of src/storagenode/storage_msg_parser.cpp.
pub mod Distinct
mod Commands
mod Tests
use kunlun.Prelude.Run.{Run, ret, ◌>>=◌}
use kunlun.NameSpace.{einval}
use kunlun.Balancer.{minus_one}
use kunlun.Handler.{Message}
use kunlun.Storage.Objects.{Store, Peer, System, Served, msg_ctrl_stream_handle}
use kunlun.Storage.Objects.Relaying.{Second, msg_upload_file_handle}
use kunlun.Storage.Copying.{msg_file_sync_handle}
use kunlun.Storage.HashCode.{Engine}
use kunlun.Storage.Checking.{Disk, Calls}
use kunlun.Storage.Checking.Answering.{Answered, msg_file_check_handle}
use kunlun.Prelude.{ℕ, List, [], Option, none, some, ◌==◌, if◌then◌else◌}

module _ (e : Engine) where
  -- What the handlers take from outside: the system below the disk, the calls on files and databases,
  -- the memory of new blocks, and the second nodes of an upload.
  pub record Outside : Type 0 where
    pub system : System
    pub calls : Calls e
    pub heap : ℕ → List ℕ
    pub nodes : ℕ → Second

  -- The part of the disk that the handlers of objects have, and the disk behind one of them.
  abbrev pub store_of : Disk e → Store
  store_of d = record { vnodes = d.vnodes; files = d.files }

  abbrev pub on_disk : Disk e → Served → Answered e
  on_disk d r = record {
    after = record d { vnodes = r.after.vnodes; files = r.after.files };
    sent = r.sent;
    code = r.code;
  }

  abbrev pub unanswered : Disk e → ℕ → Answered e
  unanswered d code = record { after = d; sent = []; code = code }

  -- `none` is a message without a package.
  pub parse_msg : Outside → Disk e → Peer → Option ℕ → Message → Run (Answered e)
  parse_msg o d peer none msg = ret (unanswered d minus_one)
  parse_msg o d peer (some cmd) msg =
      if cmd == 1
      then msg_file_check_handle e o.calls o.heap d peer msg
      else (if cmd == 2
          then (do r ← msg_file_sync_handle o.system (store_of d) peer msg; ret (on_disk d r))
          else (if cmd == 7
              then (do
                u ← msg_upload_file_handle o.system o.nodes (store_of d) peer msg
                ret (on_disk d u.served))
              else (if cmd == 13
                  then (do
                    r ← msg_ctrl_stream_handle o.system (store_of d) peer msg
                    ret (on_disk d r))
                  else ret (unanswered d einval))))
