-- ===== src/Storage/Parser/Distinct.antt =====
-- The messages that CStorageMsgParser of src/storagenode/storage_msg_parser.cpp handles keep the ids of
-- the vnodes distinct.
use kunlun.Prelude.Run.{Run, ret, Keeps, Keeps-ret, Keeps-if, Keeps->>=, ◌>>=◌}
use kunlun.NameSpace.{einval}
use kunlun.Balancer.{minus_one}
use kunlun.Handler.{Message}
use kunlun.Storage.Container.{IsDistinct}
use kunlun.Storage.Objects.{Peer, msg_ctrl_stream_handle}
use kunlun.Storage.Objects.Relaying.{msg_upload_file_handle}
use kunlun.Storage.Objects.Keeping.{
  msg_ctrl_stream_handle-IsDistinct, msg_upload_file_handle-IsDistinct,
}
use kunlun.Storage.Copying.{msg_file_sync_handle}
use kunlun.Storage.Copying.Keeping.{msg_file_sync_handle-vnodes}
use kunlun.Storage.HashCode.{Engine}
use kunlun.Storage.Checking.{Disk}
use kunlun.Storage.Checking.Answering.{Answered}
use kunlun.Storage.Checking.Keeping.{msg_file_check_handle-IsDistinct}
use kunlun.Storage.Parser.{Outside, store_of, on_disk, unanswered, parse_msg}
use kunlun.Prelude.{ℕ, ◌≡◌, List, [], ◌∷◌, Option, none, some, ◌==◌}

parse_msg-IsDistinct :
    (e : Engine) (o : Outside e) (d : Disk e) (peer : Peer) (cmd : Option ℕ) (msg : Message)
    → IsDistinct d.vnodes
    → Keeps (λ r. IsDistinct r.after.vnodes) (parse_msg e o d peer cmd msg)
unfolding parse_msg
parse_msg-IsDistinct e o d peer none msg distinct =
    Keeps-ret (λ r. IsDistinct r.after.vnodes) (unanswered e d minus_one) distinct
parse_msg-IsDistinct e o d peer (some cmd) msg distinct =
    let P : Answered e → Type 0 = λ r. IsDistinct r.after.vnodes in
    let s = store_of e d in
    Keeps-if P (cmd == 1)
      (λ t. msg_file_check_handle-IsDistinct e o.calls o.heap d peer msg distinct)
      (λ t.
        Keeps-if P (cmd == 2)
          (λ u. Keeps->>= P (msg_file_sync_handle o.system s peer msg) λ r er.
            Keeps-ret P (on_disk e d r)
              (rw (msg_file_sync_handle-vnodes o.system s peer msg r er) distinct))
          (λ u.
            Keeps-if P (cmd == 7)
              (λ v. Keeps->>= P (msg_upload_file_handle o.system o.nodes s peer msg) λ r er.
                Keeps-ret P (on_disk e d r.served)
                  (msg_upload_file_handle-IsDistinct o.system s peer distinct o.nodes msg r er))
              (λ v.
                Keeps-if P (cmd == 13)
                  (λ w. Keeps->>= P (msg_ctrl_stream_handle o.system s peer msg) λ r er.
                    Keeps-ret P (on_disk e d r)
                      (msg_ctrl_stream_handle-IsDistinct o.system s peer distinct msg r er))
                  (λ w. Keeps-ret P (unanswered e d einval) distinct))))

-- A message with what it meets.
pub record Arrival (e : Engine) : Type 0 where
  pub outside : Outside e
  pub peer : Peer
  pub cmd : Option ℕ
  pub msg : Message

-- The messages that a storage node handles one after the other.
unfoldable pub parse_all : (e : Engine) → Disk e → List (Arrival e) → Run (Disk e)
parse_all e d [] = ret d
parse_all e d (a ∷ later) = do
  r ← parse_msg e a.outside d a.peer a.cmd a.msg
  parse_all e r.after later

ran-IsDistinct :
    (e : Engine) (d : Disk e) (arrivals : List (Arrival e))
    → IsDistinct d.vnodes
    → Keeps (λ (d' : Disk e). IsDistinct d'.vnodes) (parse_all e d arrivals)
unfolding parse_all
ran-IsDistinct e d [] distinct = Keeps-ret (λ (d' : Disk e). IsDistinct d'.vnodes) d distinct
ran-IsDistinct e d (a ∷ arrivals) distinct =
    Keeps->>= (λ (d' : Disk e). IsDistinct d'.vnodes) (parse_msg e a.outside d a.peer a.cmd a.msg)
      λ r er.
        ran-IsDistinct e r.after arrivals
          (parse_msg-IsDistinct e a.outside d a.peer a.cmd a.msg distinct r er)

-- Whatever messages a storage node handles, in whatever order, an id never stands for two vnodes of its
-- container: from distinct ids, every run that comes to its end leaves distinct ids.
pub parse_all-IsDistinct :
    (e : Engine) (d d' : Disk e) (arrivals : List (Arrival e))
    → IsDistinct d.vnodes
    → parse_all e d arrivals ≡ ret d'
    → IsDistinct d'.vnodes
parse_all-IsDistinct e d d' arrivals distinct ends = ran-IsDistinct e d arrivals distinct d' ends
