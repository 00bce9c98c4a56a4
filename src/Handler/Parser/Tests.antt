-- ===== src/Handler/Parser/Tests.antt =====
-- CProxyMsgParser::parse_msg of src/proxynode/proxy_msg_parser.cpp on a small proxy.
use kunlun.Prelude.Run.{Fault, ret, fault}
use kunlun.NameSpace.{NameSpace}
use kunlun.Proxy.Zones.{Inv}
use kunlun.Proxy.Sample.{proxy, proxy-Inv}
use kunlun.Handler.{Message, Stream}
use kunlun.Handler.Address.{Reply}
use kunlun.Handler.Merge.{zero_resp}
use kunlun.Handler.Parser.{Outside, parse_msg}
use kunlun.Handler.Parser.Serving.{parse_msg-Inv}
use kunlun.Prelude.{◌≡◌, ◌⊎◌, refl, [], ◌∷◌, ◌++◌, none, some, replicate}

abbrev stream : Stream
stream = record { open_error = 0; header_sent = 0; body_sent = 0 }

-- The address and the port of a device, and a report of vnode 0 at version 1.
abbrev message : Message
message = record {
  pkg_len = 35;
  body = replicate 16 0 ++ 0 ∷ 0 ∷ 0 ∷ 80 ∷ (replicate 11 0 ++ 1 ∷ 5 ∷ []);
}

abbrev outside : Outside
outside = record {
  rand = λ k. 7;
  now = 9;
  new_address = 5;
  stale = zero_resp;
  peer = none;
  peer_text = [];
}

abbrev names : NameSpace
names = record { vnode_count = 2; name_power = 32 }

parse_msg-Inv_example :
    ((r : Reply) × (parse_msg names outside proxy stream (some 2) message ≡ ret r) × Inv r.after)
    ⊎ ((x : Fault) × (parse_msg names outside proxy stream (some 2) message ≡ fault x))
parse_msg-Inv_example =
    parse_msg-Inv names outside proxy stream (some 2) message refl (λ e. cc e) proxy-Inv
