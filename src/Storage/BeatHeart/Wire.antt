-- ===== src/Storage/BeatHeart/Wire.antt =====
-- What a storage node sends in src/storagenode/thread_beat_heart.cpp is what the handlers of
-- src/proxynode/proxy_msg_parser.cpp read, and the answers of the proxy are what the node follows.
use kunlun.Prelude.Run.{Run, ret, Run-cases, ◌>>=◌}
use kunlun.Serializer.{int2buff, long2buff, buff2int32}
use kunlun.Serializer.RoundTrip.{buff2int32-int2buff}
use kunlun.Protocol.{
  VnodeReport, VnodeResp, put_report, put_reports, vnode_report_size, storage_info_size,
}
use kunlun.Protocol.RoundTrip.{IsReport, get_report-put_report}
use kunlun.Handler.{Message, Stream, read_string, read_string_lem}
use kunlun.Proxy.{Proxy, get_node_by_addr, same_bytes}
use kunlun.Handler.Merge.{Merge, merge_report, merge_reports}
use kunlun.Handler.Join.{join_body, any_ip}
use kunlun.Handler.Report.{
  report_bytes, report_count, named_body, merge_device, msg_device_report_handle,
}
use kunlun.Storage.{StorageVnode, at, get_vnode_count}
use kunlun.Storage.BeatHeart.{
  Globals, join_request, report_unit, report_units, own_info, report_body,
}
use kunlun.Prelude.{
  ℕ, zero, suc, Option, inl, inr, ◌≢◌, false, ◌+◌, ◌*◌, ◌/◌, ◌%◌, ◌^◌, ◌<◌, ◌≡◌, ◌∙◌, ap, refl,
  List, [], ◌∷◌, ◌++◌, some, map, length, take, drop, length-append, length-map, take-append,
  drop-append, drop_add, append_assoc, low_bits, drop-get_elem?, lt_of_get_elem?, All, IsU32, arith,
}

-- Globals that fit their places in the bodies.
pub record IsGlobals (g : Globals) : Type 0 where
  pub ip_fits : length g.bind_ip ≡ 16
  pub port_fits : IsU32 g.bind_port
  pub zone_fits : IsU32 g.zone_id
  pub weight_fits : IsU32 g.weight

module _ (g : Globals) (fits : IsGlobals g) where
  -- The proxy reads the port, the zone and the weight that a storage node joins with, behind its ip,
  -- when all of them fit their places in the body.
  pub join_body-join_request :
      (join_body (join_request g)
        ≡ ret (record { bind_port = g.bind_port; zone_id = g.zone_id; weight = g.weight }))
      × (take 16 (join_request g) ≡ g.bind_ip)
      × (length (join_request g) ≡ 28)
  unfolding join_body join_request int2buff
  join_body-join_request =
      let ints = int2buff g.bind_port ++ (int2buff g.zone_id ++ int2buff g.weight) in
      let whole : drop 16 (g.bind_ip ++ ints) ≡ ints = drop-append 16 g.bind_ip ints fits.ip_fits in
      let zone = drop_add 16 4 (g.bind_ip ++ ints) in
      let weight = drop_add 16 8 (g.bind_ip ++ ints) in
      let e1 =
        buff2int32-int2buff g.bind_port (int2buff g.zone_id ++ int2buff g.weight) fits.port_fits in
      let e2 = buff2int32-int2buff g.zone_id (int2buff g.weight) fits.zone_fits in
      let e3 = buff2int32-int2buff g.weight [] fits.weight_fits in
      (
        rw (zone, weight, whole, e1, e2, e3) refl,
        take-append 16 g.bind_ip ints fits.ip_fits,
        omega (arith, length-append g.bind_ip ints, fits.ip_fits),
      )

  -- The storage_info at the head of a body, and what follows it.
  pub own_info_lem :
      (rest : List ℕ)
      → (buff2int32 (drop 16 (own_info g ++ rest)) ≡ some g.bind_port)
        × (drop 20 (own_info g ++ rest) ≡ rest)
        × (take 16 (own_info g ++ rest) ≡ g.bind_ip)
        × (length (own_info g ++ rest) ≡ 20 + length rest)
  unfolding own_info int2buff
  own_info_lem rest =
      let port = int2buff g.bind_port ++ rest in
      let split = append_assoc g.bind_ip (int2buff g.bind_port) rest in
      let whole : drop 16 (g.bind_ip ++ port) ≡ port = drop-append 16 g.bind_ip port fits.ip_fits in
      (
        rw (split, whole) (buff2int32-int2buff g.bind_port rest fits.port_fits),
        rw split (drop_add 16 4 (g.bind_ip ++ port) ∙ ap (drop 4) whole),
        rw split (take-append 16 g.bind_ip port fits.ip_fits),
        rw split (omega (arith, length-append g.bind_ip port, fits.ip_fits)),
      )

-- The vnodes of a storage node that fit their places in a report.
abbrev pub IsVnode : StorageVnode → Type 0
IsVnode v = IsReport (report_unit v)

pub report_units-drop :
    (ws vs : List StorageVnode) (curr : ℕ)
    → length vs < 2 ^ 31
    → drop curr vs ≡ ws
    → report_units (length ws) curr vs ≡ ret (put_reports (map report_unit ws))
unfolding report_units put_reports at
report_units-drop [] vs curr h e = refl
report_units-drop (w ∷ ws) vs curr h e =
    let (here, next) = drop-get_elem? vs curr w ws e in
    let low : curr < length vs = lt_of_get_elem? vs curr w here in
    let found : at vs curr ≡ some w = ground arith in
    let step : curr + 1 ≡ suc curr = omega arith in
    rw (found, step, report_units-drop ws vs (suc curr) h next) refl

All-map-report_unit : (vs : List StorageVnode) → All IsVnode vs → All IsReport (map report_unit vs)
All-map-report_unit [] h = tt
All-map-report_unit (v ∷ vs) (h, hs) = (h, All-map-report_unit vs hs)

length-put_reports :
    (rs : List VnodeReport) → length (put_reports rs) ≡ vnode_report_size * length rs
unfolding put_reports put_report int2buff long2buff
length-put_reports [] = refl
length-put_reports (r ∷ rs) = omega (arith, length-put_reports rs)

report_bytes-len :
    (msg : Message) (n : ℕ) → msg.pkg_len ≡ 20 + 13 * n + 2 → n < 2 ^ 31 → report_bytes msg ≡ 13 * n
unfolding report_bytes
report_bytes-len msg n e h = omega (arith, e)

whole_units : (n : ℕ) → 13 * n % 13 ≡ 0
whole_units n = omega arith

low_units : (n : ℕ) → n < 2 ^ 31 → low_bits (13 * n / 13) 32 ≡ n
low_units n h = omega arith

report_count-len :
    (msg : Message) (n : ℕ) → msg.pkg_len ≡ 20 + 13 * n + 2 → n < 2 ^ 31 → report_count msg ≡ n
unfolding report_count
report_count-len msg n e h = rw (report_bytes-len msg n e h, low_units n h) (ground arith)

-- The rounds of master_do_device_merge for a list of reports.
abbrev pub merge_all : ℕ → List VnodeReport → Merge → Run (Merge × ℕ)
merge_all a [] m = ret (m, 0)
merge_all a (r ∷ rs) m = do
  (m', code) ← merge_report a r m
  elim code [ zero ↦ merge_all a rs m' | suc c ↦ ret (m', suc c) ]

merge_reports-put_reports :
    (a : ℕ) (rs : List VnodeReport) (m : Merge)
    → All IsReport rs
    → merge_reports (length rs) a (put_reports rs) m ≡ merge_all a rs m
unfolding merge_reports put_reports put_report int2buff long2buff
merge_reports-put_reports a [] m ok = refl
merge_reports-put_reports a (r ∷ rs) m (ok, oks) =
    let this = get_report-put_report r (put_reports rs) ok in
    elim (Run-cases (merge_report a r m)) [
      | inl ((m', zero), e) ↦ rw (this, e) (merge_reports-put_reports a rs m' oks)
      | inl ((m', suc c), e) ↦ rw (this, e) refl
      | inr (x, e) ↦ rw (this, e) refl
    ]

-- An address in g_storage_bind_ip: a string with its zero, which is not "0.0.0.0".
pub record IsNamed (g : Globals) : Type 0 where
  pub ip : List ℕ
  pub pad : List ℕ
  pub field : g.bind_ip ≡ ip ++ 0 ∷ pad
  pub no_zero : All (λ c. c ≢ 0) ip
  pub start : List ℕ
  pub behind : List ℕ
  pub split : g.bind_ip ≡ start ++ behind
  pub start_fits : length start ≡ 8
  pub own : same_bytes start any_ip ≡ false

named_body-own :
    (g : Globals) (named : IsNamed g) (peer : Option (List ℕ)) (rest : List ℕ)
    → named_body peer (own_info g ++ rest) ≡ some (own_info g ++ rest)
unfolding named_body own_info
named_body-own g named peer rest =
    let tail = int2buff g.bind_port ++ rest in
    let whole =
      append_assoc g.bind_ip (int2buff g.bind_port) rest
      ∙ ap (λ (xs : List ℕ). xs ++ tail) named.split
      ∙ append_assoc named.start named.behind tail in
    let head : take 8 (own_info g ++ rest) ≡ named.start =
      ap (take 8) whole ∙ take-append 8 named.start (named.behind ++ tail) named.start_fits in
    rw (head, named.own) refl

read_string-own :
    (g : Globals) (named : IsNamed g) (rest : List ℕ)
    → read_string (own_info g ++ rest) ≡ ret named.ip
unfolding own_info
read_string-own g named rest =
    let tail = int2buff g.bind_port ++ rest in
    let whole =
      append_assoc g.bind_ip (int2buff g.bind_port) rest
      ∙ ap (λ (xs : List ℕ). xs ++ tail) named.field
      ∙ append_assoc named.ip (0 ∷ named.pad) tail in
    ap read_string whole ∙ read_string_lem named.ip (named.pad ++ tail) named.no_zero

-- A storage node with fewer than 2^31 vnodes, whose address is a string other than "0.0.0.0", and
-- where the ip, the port and the fields of every vnode fit their places in the body, sends a report
-- for which the handler of the proxy, if its stream opens, looks up the device of that address and
-- port and goes on with as many units as the node has vnodes; the loop of the master over these units
-- merges the vnodes of the node, all of them and in their order.
pub report_body-read :
    (g : Globals) (vs : List StorageVnode) (named : IsNamed g) (p : Proxy) (s : Stream) (now : ℕ)
    (stale : VnodeResp) (peer : Option (List ℕ)) (a : ℕ) (m : Merge)
    → IsGlobals g
    → All IsVnode vs
    → length vs < 2 ^ 31
    → s.open_error ≡ 0
    → (body : List ℕ) × (report_body g vs ≡ ret body)
      × (msg_device_report_handle now stale peer p s
            (record { pkg_len = length body + 2; body = body })
          ≡ (do
            found ← get_node_by_addr p named.ip g.bind_port
            merge_device now stale p s body (length vs) found))
      × (merge_reports (length vs) a (drop storage_info_size body) m
          ≡ merge_all a (map report_unit vs) m)
unfolding report_body get_vnode_count msg_device_report_handle
report_body-read g vs named p s now stale peer a m fits all few opened =
    let rs = map report_unit vs in
    let (port, rest, ip, len) = own_info_lem g fits (put_reports rs) in
    let size : length (put_reports rs) ≡ 13 * length vs =
      length-put_reports rs ∙ ap (λ (n : ℕ). 13 * n) (length-map report_unit vs) in
    let body = own_info g ++ put_reports rs in
    let msg : Message = record { pkg_len = length body + 2; body = body } in
    let long : length body + 2 ≡ 20 + 13 * length vs + 2 = omega (arith, len, size) in
    let units = merge_reports-put_reports a rs m (All-map-report_unit vs all) in
    let bytes = report_bytes-len msg (length vs) long few in
    let count = report_count-len msg (length vs) long few in
    let own = named_body-own g named peer (put_reports rs) in
    let name = read_string-own g named (put_reports rs) in
    (
      body,
      rw (report_units-drop vs vs 0 few refl) refl,
      rw (bytes, whole_units (length vs)) (simp opened (rw (own, name, port, count) refl)),
      rw (rest, ← length-map report_unit vs) units,
    )
