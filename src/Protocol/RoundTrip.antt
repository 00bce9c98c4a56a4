-- ===== src/Protocol/RoundTrip.antt =====
-- What the one side writes is what the other side reads.
use kunlun.Serializer.{int2buff, long2buff}
use kunlun.Serializer.RoundTrip.{buff2int32-int2buff, buff2int64-long2buff}
use kunlun.Protocol.{
  VnodeReport, VnodeResp, put_report, get_report, put_resp, get_resp, put_resps, vnode_resp_size,
}
use kunlun.Prelude.{
  ℕ, ◌*◌, ◌≡◌, refl, List, [], ◌∷◌, ◌++◌, some, All, length, drop, length-append, arith, IsU32,
  IsU64, take-append, drop-append, append_assoc,
}

-- Fields that fit their places in the package.
pub record IsReport (r : VnodeReport) : Type 0 where
  pub id_fits : IsU32 r.vnode_id
  pub version_fits : IsU64 r.vnode_version

pub record IsResp (r : VnodeResp) : Type 0 where
  pub id_fits : IsU32 r.vnode_id
  pub port_fits : IsU32 r.sync_dest_port
  pub ip_fits : length r.sync_dest_ip ≡ 16

-- A unit of a report is read back, whatever follows.
pub get_report-put_report :
    (r : VnodeReport) (rest : List ℕ) → IsReport r → get_report (put_report r ++ rest) ≡ some r
unfolding get_report put_report int2buff long2buff
get_report-put_report r rest ok =
    let id_back =
      buff2int32-int2buff r.vnode_id (long2buff r.vnode_version ++ r.vnode_status ∷ rest)
        ok.id_fits in
    let version_back =
      buff2int64-long2buff r.vnode_version (r.vnode_status ∷ rest) ok.version_fits in
    rw (id_back, version_back) refl

-- A unit of an answer is read back, whatever follows, with the place of the next one.
pub get_resp-put_resp :
    (r : VnodeResp) (rest : List ℕ)
    → IsResp r
    → (get_resp (put_resp r ++ rest) ≡ some r) × (drop vnode_resp_size (put_resp r ++ rest) ≡ rest)
unfolding get_resp put_resp int2buff
get_resp-put_resp r rest ok =
    let split = append_assoc r.sync_dest_ip (int2buff r.sync_dest_port) rest in
    let tail = int2buff r.sync_dest_port ++ rest in
    let id_back =
      buff2int32-int2buff r.vnode_id (r.vnode_status ∷ r.sync_dest_ip ++ tail) ok.id_fits in
    let ip_back = take-append 16 r.sync_dest_ip tail ok.ip_fits in
    let ip_gone = drop-append 16 r.sync_dest_ip tail ok.ip_fits in
    let port_back = buff2int32-int2buff r.sync_dest_port rest ok.port_fits in
    let whole : length (r.sync_dest_ip ++ int2buff r.sync_dest_port) ≡ 20 =
      omega (arith, length-append r.sync_dest_ip (int2buff r.sync_dest_port), ok.ip_fits) in
    (
      rw (split, id_back, ip_back, ip_gone, port_back) refl,
      drop-append 20 (r.sync_dest_ip ++ int2buff r.sync_dest_port) rest whole,
    )

-- What the units of an answer take up in the package.
pub length-put_resps :
    (rs : List VnodeResp) → All IsResp rs → length (put_resps rs) ≡ vnode_resp_size * length rs
unfolding put_resps put_resp int2buff
length-put_resps [] ok = refl
length-put_resps (r ∷ rs) (ok, oks) = omega (
  arith,
  length-append (put_resp r) (put_resps rs),
  length-put_resps rs oks,
  length-append r.sync_dest_ip (int2buff r.sync_dest_port),
  ok.ip_fits,
)
