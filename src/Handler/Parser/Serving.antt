-- ===== src/Handler/Parser/Serving.antt =====
-- A master that serves messages, CProxyMsgParser::parse_msg of src/proxynode/proxy_msg_parser.cpp.
use kunlun.Prelude.Run.{ret, fault, Fault, Keeps, Keeps-ret, Keeps-if, Keeps-cases, ret-injective}
use kunlun.NameSpace.{NameSpace}
use kunlun.Proxy.{Proxy}
use kunlun.Proxy.Zones.{Inv}
use kunlun.Handler.{Message, Stream}
use kunlun.Handler.Address.{Reply}
use kunlun.Handler.Address.Keeping.{msg_get_vnode_addr_handle-Inv}
use kunlun.Handler.Merge.Answering.{SoundReply}
use kunlun.Handler.Report.Reporting.{handled-Inv}
use kunlun.Handler.SyncDown.{msg_sync_down_handle}
use kunlun.Handler.SyncDown.Ending.{msg_sync_down_handle-Inv}
use kunlun.Handler.Parser.{Outside, reads, writes, parse_msg}
use kunlun.Prelude.{
  ℕ, ◌≡◌, ◌≢◌, ◌∙◌, sym, ◌⊎◌, inl, inr, true, false, Option, none, some, ◌==◌, arith,
}
use mathlib.Core.Path.{subst}

sync_down-Keeps :
    (peer : _) (p : Proxy) (s : Stream) (msg : Message)
    → Inv p
    → Keeps SoundReply (msg_sync_down_handle peer p s msg)
sync_down-Keeps peer p s msg inv r e = elim (msg_sync_down_handle-Inv peer p s msg inv) [
  | inl (r', e', kept) ↦ subst SoundReply (ret-injective r' r (sym e' ∙ e)) kept
  | inr (x, e') ↦ cc (sym e' ∙ e)
]

-- Whatever message a master gets, other than the join of a device, its vnodes stay sound: it handles
-- the message and its vnodes are sound, or it runs into a fault.
pub parse_msg-Inv :
    (ns : NameSpace) (o : Outside) (p : Proxy) (s : Stream) (cmd : Option ℕ) (msg : Message)
    → p.is_master ≡ true
    → cmd ≢ some 1
    → Inv p
    → ((r : Reply) × (parse_msg ns o p s cmd msg ≡ ret r) × Inv r.after)
      ⊎ ((x : Fault) × (parse_msg ns o p s cmd msg ≡ fault x))
unfolding parse_msg
parse_msg-Inv ns o p s cmd msg master other inv =
    Keeps-cases SoundReply (parse_msg ns o p s cmd msg) (kept cmd other)
  where
    kept : (c : Option ℕ) → c ≢ some 1 → Keeps SoundReply (parse_msg ns o p s c msg)
    kept none h = Keeps-ret SoundReply _ inv
    kept (some c) h =
        Keeps-if SoundReply (c == 1) (λ t. absurd (h (ground arith)))
          (λ t.
            Keeps-if SoundReply (c == 2) (λ u. handled-Inv o.now o.stale o.peer p s msg master inv)
              (λ u.
                Keeps-if SoundReply (c == 5) (λ x. sync_down-Keeps o.peer_text p s msg inv)
                  (λ x.
                    Keeps-if SoundReply (reads c)
                      (λ y. msg_get_vnode_addr_handle-Inv ns p s msg true inv)
                      (λ y.
                        Keeps-if SoundReply (writes c)
                          (λ z. msg_get_vnode_addr_handle-Inv ns p s msg false inv)
                          (λ z. Keeps-ret SoundReply _ inv)))))
