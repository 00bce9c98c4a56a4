-- ===== src/Protocol.antt =====
-- The bodies of src/proxynode/proxy_protocol.h that storage nodes and proxy nodes send each other,
-- as the one side writes them and the other side reads them.
pub mod RoundTrip
use kunlun.Serializer.{int2buff, long2buff, buff2int32, buff2int64}
use kunlun.Prelude.{
  ℕ, zero, suc, List, [], ◌∷◌, ◌++◌, Option, none, some, take, drop, get_elem?, ◌>>=◌,
}

-- sizeof(storage_info), sizeof(vnode_report_info) and sizeof(vnode_resp_info)
abbrev pub storage_info_size : ℕ
storage_info_size = 20

abbrev pub vnode_report_size : ℕ
vnode_report_size = 13

abbrev pub vnode_resp_size : ℕ
vnode_resp_size = 25

-- vnode_report_info; the numbers are the patterns that its fields hold.
pub record VnodeReport : Type 0 where
  pub vnode_id : ℕ
  pub vnode_version : ℕ
  pub vnode_status : ℕ

-- vnode_resp_info
pub record VnodeResp : Type 0 where
  pub vnode_id : ℕ
  pub vnode_status : ℕ
  pub sync_dest_ip : List ℕ
  pub sync_dest_port : ℕ

unfoldable pub put_report : VnodeReport → List ℕ
put_report r = int2buff r.vnode_id ++ long2buff r.vnode_version ++ r.vnode_status ∷ []

pub get_report : List ℕ → Option VnodeReport
get_report unit = do
  id ← buff2int32 unit
  version ← buff2int64 (drop 4 unit)
  status ← get_elem? unit 12
  some (record { vnode_id = id; vnode_version = version; vnode_status = status })

pub put_resp : VnodeResp → List ℕ
put_resp r = int2buff r.vnode_id ++ r.vnode_status ∷ r.sync_dest_ip ++ int2buff r.sync_dest_port

pub get_resp : List ℕ → Option VnodeResp
get_resp unit = do
  id ← buff2int32 unit
  status ← get_elem? unit 4
  port ← buff2int32 (drop 21 unit)
  some (record {
    vnode_id = id;
    vnode_status = status;
    sync_dest_ip = take 16 (drop 5 unit);
    sync_dest_port = port;
  })

-- A body of units, one behind the other.
unfoldable pub put_reports : List VnodeReport → List ℕ
put_reports [] = []
put_reports (r ∷ rs) = put_report r ++ put_reports rs

unfoldable pub put_resps : List VnodeResp → List ℕ
put_resps [] = []
put_resps (r ∷ rs) = put_resp r ++ put_resps rs
