-- ===== src/Handler/Join.antt =====
-- msg_device_join_handle of src/proxynode/proxy_msg_parser.cpp: a storage node asks to join.
pub mod Joining
mod Tests
use kunlun.Prelude.Run.{Run, ret, out_of_bounds, uncaught, fault, ◌>>=◌, or_fault}
use kunlun.Serializer.{buff2int32}
use kunlun.NameSpace.{einval}
use kunlun.Node.{Device}
use kunlun.Proxy.{Proxy, update, deref, same_bytes, ip_addr_len, destroy_replicas}
use kunlun.Balancer.{minus_one, master_do_copy_vnode, slaver_do_device_join}
use kunlun.Mover.{master_do_move_vnode}
use kunlun.Handler.{Message, Stream, response_header}
use kunlun.Handler.Address.{Reply, silent}
use kunlun.Prelude.{
  ℕ, ◌-◌, List, [], ◌∷◌, Option, none, some, true, false, not, take, drop, ltb, ◌==◌, if◌then◌else◌,
}

-- sizeof(device_join_body)
abbrev pub join_body_size : ℕ
join_body_size = 28

-- The numbers of a device_join_body.
pub record JoinBody : Type 0 where
  pub bind_port : ℕ
  pub zone_id : ℕ
  pub weight : ℕ

unfoldable pub join_body : List ℕ → Run JoinBody
join_body body = do
  port ← or_fault (buff2int32 (drop 16 body)) out_of_bounds
  zone ← or_fault (buff2int32 (drop 20 body)) out_of_bounds
  weight ← or_fault (buff2int32 (drop 24 body)) out_of_bounds
  ret (record { bind_port = port; zone_id = zone; weight = weight })

-- "0.0.0.0" and its zero byte: strcmp returns 0 on the buffers that begin with them.
abbrev pub any_ip : List ℕ
any_ip = 48 ∷ 46 ∷ 48 ∷ 46 ∷ 48 ∷ 46 ∷ 48 ∷ 0 ∷ []

-- The bytes of pdevice_bind_ip that are copied. `peer` is what getpeeraddr and getipaddress leave
-- in that field, or `none` where getpeeraddr fails; `none` is the return of -1.
pub join_ip : Option (List ℕ) → Stream → List ℕ → Run (Option (List ℕ))
join_ip peer s body =
    if same_bytes (take 8 body) any_ip
    then (if s.open_error == 0 then ret peer else fault uncaught)
    else ret (some (take ip_addr_len body))

-- The new device_info.
pub new_device : List ℕ → JoinBody → Device
new_device ip body = record {
  device_id = 0;
  zone_id = body.zone_id;
  weight = body.weight;
  bind_ip = ip;
  nbind_port = body.bind_port;
  last_update_time = 0;
  vnode_list = [];
  sync_list = [];
  syncing_list = [];
}

abbrev pub put_device : Proxy → ℕ → Option Device → Proxy
put_device p a d = record p { devices = update p.devices a d }

abbrev rev_onto : List ℕ → List ℕ → List ℕ
rev_onto [] ys = ys
rev_onto (x ∷ xs) ys = rev_onto xs (x ∷ ys)

-- if(ret != 0): the replicas on the device are destroyed, then the device.
pub settle : ℕ → Proxy → ℕ → Run Proxy
settle a p code = if code == 0 then ret p else (do
  d ← deref p.devices a
  vs ← destroy_replicas a (rev_onto d.vnode_list []) p.vnodes
  ret (put_device (record p { vnodes = vs }) a none))

-- The response on a new CTimedStream.
pub join_reply : Stream → ℕ → Proxy → Reply
join_reply s code p =
    if s.open_error == 0
    then record { after = p; sent = response_header p.is_master 0 code ∷ []; code = s.header_sent }
    else silent p s.open_error

-- The calls of rand() since srand().
module _ (rand : ℕ → ℕ) where
  pub balance : ℕ → ℕ → Proxy → Run (Proxy × ℕ)
  balance now a p =
      if not p.is_master
      then slaver_do_device_join now a p
      else (if ltb p.container.node_count p.replica_count
          then master_do_copy_vnode now a p
          else master_do_move_vnode rand now a p)

  -- The handler; `a` is the address of the new device_info.
  pub msg_device_join_handle : ℕ → ℕ → Option (List ℕ) → Proxy → Stream → Message → Run Reply
  msg_device_join_handle now a peer p s msg =
      if not (join_body_size == msg.pkg_len - 2) then ret (silent p einval) else (do
        found ← join_ip peer s msg.body
        elim found [
          | none ↦ ret (silent p minus_one)
          | some ip ↦ (do
            body ← join_body msg.body
            (p', code) ← balance now a (put_device p a (some (new_device ip body)))
            p'' ← settle a p' code
            ret (join_reply s code p''))
        ])
