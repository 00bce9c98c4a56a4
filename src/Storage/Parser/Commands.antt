-- ===== src/Storage/Parser/Commands.antt =====
-- The commands of src/storagenode/storage_protocol.h that CStorageMsgParser::parse_msg serves.
use kunlun.Prelude.Run.{ret}
use kunlun.NameSpace.{einval}
use kunlun.Handler.{Message}
use kunlun.Storage.Objects.{Peer}
use kunlun.Storage.HashCode.{Engine}
use kunlun.Storage.Checking.{Disk}
use kunlun.Storage.Parser.{Outside, unanswered, parse_msg}
use kunlun.Prelude.{ℕ, ◌≡◌, ◌≢◌, some, arith}

-- A download, KL_STORAGE_CMD_DOWNLOAD_FILE, and every other command but those of a check, a copy, an
-- upload and its relay is refused with EINVAL, with nothing sent and the disk unchanged.
parse_msg-other :
    (e : Engine) (o : Outside e) (d : Disk e) (peer : Peer) (cmd : ℕ) (msg : Message)
    → cmd ≢ 1
    → cmd ≢ 2
    → cmd ≢ 7
    → cmd ≢ 13
    → parse_msg e o d peer (some cmd) msg ≡ ret (unanswered e d einval)
unfolding parse_msg
parse_msg-other e o d peer cmd msg a b c f = ground arith
