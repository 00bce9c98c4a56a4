-- ===== src/Storage/BeatHeart/Answered.antt =====
-- The answers of the proxy, and the reports of ended synchronisations, read by the other side:
-- src/storagenode/thread_beat_heart.cpp against src/proxynode/proxy_msg_parser.cpp.
use kunlun.Prelude.Run.{Run, ret, ◌>>=◌}
use kunlun.Serializer.{int2buff, buff2int32}
use kunlun.Serializer.RoundTrip.{buff2int32-int2buff}
use kunlun.Protocol.{VnodeResp, put_resps, put_reports, vnode_resp_size, storage_info_size}
use kunlun.Protocol.RoundTrip.{IsResp, get_resp-put_resp}
use kunlun.Proxy.{Proxy}
use kunlun.Handler.{Message}
use kunlun.Handler.SyncDown.{sync_vnode, sync_vnodes, sync_bytes, sync_count}
use kunlun.Storage.{StorageVnode, Part, Outcome, get_vnode_count}
use kunlun.Storage.BeatHeart.{
  beat, report_vnode_info, report_body, report_unit, request_header, Passed, Globals, Node, Sends,
  Answer, own_info, down_units, down_body, follow_unit, follow_units, answer_count, end_pass,
}
use kunlun.Storage.BeatHeart.Wire.{report_units-drop, IsGlobals, own_info_lem}
use mathlib.Core.Path.{fun_ext}
use kunlun.Prelude.{
  ℕ, ◌+◌, ◌*◌, ◌/◌, ◌%◌, ◌^◌, ◌<◌, ◌≡◌, ap, refl, List, [], ◌∷◌, ◌++◌, false, if◌then◌else◌, some,
  map, length, drop, All, IsU32, arith, ◌==◌, low_bits, Bool-cases, inl, inr,
}

-- The answers followed one after the other, until one fails.
abbrev pub follow_all : (ℕ → Part → Outcome) → List VnodeResp → Node → Node × ℕ
follow_all disk [] node = (node, 0)
follow_all disk (r ∷ rs) node =
    let (node', code) = follow_unit disk r node in
    let rest = follow_all disk rs node' in if code == 0 then rest else (node', code)

follow_units-put_resps :
    (disk : ℕ → Part → Outcome) (rs : List VnodeResp) (node : Node)
    → All IsResp rs
    → follow_units disk (length rs) (put_resps rs) node ≡ ret (follow_all disk rs node)
unfolding follow_units put_resps
follow_units-put_resps disk [] node ok = refl
follow_units-put_resps disk (r ∷ rs) node (ok, oks) =
    let (this, next) = get_resp-put_resp r (put_resps rs) ok in
    let rest = follow_units-put_resps disk rs (follow_unit disk r node).0 oks in
    elim (Bool-cases ((follow_unit disk r node).1 == 0)) [
      | inl t ↦ rw (this, next, t) rest
      | inr t ↦ rw (this, next, t) refl
    ]

answer_count-len : (n : ℕ) → n < 2 ^ 31 → answer_count (vnode_resp_size * n) ≡ n
unfolding answer_count
answer_count-len n h =
    let low : low_bits (25 * n / 25) 32 ≡ n = omega arith in rw low (ground arith)

-- What a storage node receives when the proxy sends answers without an error.
abbrev pub answer_of : List VnodeResp → Answer
answer_of rs = record {
  header_error = 0;
  len = vnode_resp_size * length rs;
  cmd = 3;
  status = 0;
  body_error = 0;
  body = put_resps rs;
}

-- What a pass that ends with follow_all leaves.
abbrev pub followed : List (List ℕ) → Node × ℕ → Passed
followed sent x = record { after = x.0; sent = sent; code = x.1 }

-- The report of a storage node: its header, and a unit for each of its vnodes behind its address.
abbrev pub report_of : Globals → List StorageVnode → List (List ℕ)
report_of g vs =
    let body = own_info g ++ put_reports (map report_unit vs) in
    request_header 2 (length body) ∷ body ∷ []

end_pass-false :
    (g : Globals) (s : Sends) (r : Answer) (header body : List ℕ) (x : Node × ℕ)
    → (if x.1 == 0
        then (do
          e ← end_pass g false s r x.0
          ret (record e { sent = (header ∷ body ∷ []) ++ e.sent }))
        else ret (record { after = x.0; sent = header ∷ body ∷ []; code = x.1 }))
      ≡ ret (followed (header ∷ body ∷ []) x)
unfolding end_pass
end_pass-false g s r header body (node, code) = ground arith

-- A pass of a thread of a storage node that is not the first one, whose report is sent and which
-- gets the answers of a master, sends its address and a unit for each of its vnodes, in their order,
-- and nothing else, and follows exactly the answers that the proxy has written, in their order, until
-- one fails; vnodes and answers are fewer than 2^31.
pub beat-follow_all :
    (disk : ℕ → Part → Outcome) (g : Globals) (s : Sends) (r : Answer) (node : Node)
    (rs : List VnodeResp)
    → length node.vnodes < 2 ^ 31
    → All IsResp rs
    → length rs < 2 ^ 31
    → beat disk g false (record { header_sent = 0; body_sent = 0 }) (answer_of rs) s r node
      ≡ ret (followed (report_of g node.vnodes) (follow_all disk rs node))
unfolding beat report_vnode_info report_body get_vnode_count
beat-follow_all disk g s r node [] many ok few =
    rw (report_units-drop node.vnodes node.vnodes 0 many refl) refl
beat-follow_all disk g s r node (u ∷ us) many ok few =
    let rs = u ∷ us in
    let units = follow_units-put_resps disk rs node ok in
    let whole : vnode_resp_size * length rs % vnode_resp_size ≡ 0 = omega arith in
    let some_bytes : (vnode_resp_size * length rs == 0) ≡ false = ground arith in
    let body = own_info g ++ put_reports (map report_unit node.vnodes) in
    rw
      (
        report_units-drop node.vnodes node.vnodes 0 many refl,
        some_bytes,
        whole,
        answer_count-len (length rs) few,
        units,
      )
      (end_pass-false g s r (request_header 2 (length body)) body (follow_all disk rs node))

-- The rounds of the proxy for a list of vnode ids.
abbrev pub sync_all : ℕ → List ℕ → Proxy → Run Proxy
sync_all a [] p = ret p
sync_all a (id ∷ ids) p = do p' ← sync_vnode a id p; sync_all a ids p'

sync_vnodes-down_units :
    (a : ℕ) (ids : List ℕ) (p : Proxy)
    → All IsU32 ids
    → sync_vnodes (length ids) a (down_units ids) p ≡ sync_all a ids p
unfolding sync_vnodes down_units int2buff
sync_vnodes-down_units a [] p ok = refl
sync_vnodes-down_units a (id ∷ ids) p (ok, oks) =
    let this = buff2int32-int2buff id (down_units ids) ok in
    rw this (
      ap (λ (f : Proxy → Run Proxy). sync_vnode a id p >>= f)
        (fun_ext (λ q. sync_vnodes-down_units a ids q oks)))

length-down_units : (ids : List ℕ) → length (down_units ids) ≡ 4 * length ids
unfolding down_units int2buff
length-down_units [] = refl
length-down_units (id ∷ ids) = omega (arith, length-down_units ids)

-- A report of fewer than 2^31 ended synchronisations, where the ip, the port and every id fit their
-- places in the body, passes the proxy's test of its length, has the node's port, and the proxy
-- handles exactly the vnodes of the report, in their order.
pub down_body-read :
    (g : Globals) (ids : List ℕ) (a : ℕ) (p : Proxy)
    → IsGlobals g
    → All IsU32 ids
    → length ids < 2 ^ 31
    → (let body = down_body g ids in
        let msg : Message = record { pkg_len = length body + 2; body = body } in
        (sync_bytes msg % 4 ≡ 0)
        × (buff2int32 (drop 16 body) ≡ some g.bind_port)
        × (sync_vnodes (sync_count msg) a (drop storage_info_size body) p ≡ sync_all a ids p))
unfolding down_body sync_bytes sync_count
down_body-read g ids a p fits ok few =
    let (port, rest, ip, len) = own_info_lem g fits (down_units ids) in
    let body = own_info g ++ down_units ids in
    let msg : Message = record { pkg_len = length body + 2; body = body } in
    let long : length body + 2 ≡ 20 + 4 * length ids + 2 =
      omega (arith, len, length-down_units ids) in
    let bytes = sync_bytes-len msg (length ids) long few in
    (
      rw bytes (omega arith),
      port,
      rw (sync_count-len msg (length ids) long few, rest) (sync_vnodes-down_units a ids p ok),
    )
  where
    sync_bytes-len :
        (msg : Message) (n : ℕ) → msg.pkg_len ≡ 20 + 4 * n + 2 → n < 2 ^ 31 → sync_bytes msg ≡ 4 * n
    sync_bytes-len msg n e h = omega (arith, e)

    sync_count-len :
        (msg : Message) (n : ℕ) → msg.pkg_len ≡ 20 + 4 * n + 2 → n < 2 ^ 31 → sync_count msg ≡ n
    sync_count-len msg n e h =
        let low : low_bits (4 * n / 4) 32 ≡ n = omega arith in
        rw (sync_bytes-len msg n e h, low) (ground arith)
