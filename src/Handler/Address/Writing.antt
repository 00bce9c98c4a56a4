-- ===== src/Handler/Address/Writing.antt =====
-- msg_get_vnode_addr_handle of src/proxynode/proxy_msg_parser.cpp, asked for addresses to write to.
use kunlun.Prelude.Run.{Run, ret, fault, Fault, Run-cases}
use kunlun.Node.{Vnode}
use kunlun.Node.Write.{get_write_replica_repeats}
use kunlun.Proxy.{Proxy}
use kunlun.Handler.{Stream, response_header, eacces}
use kunlun.Handler.Address.{
  Reply, Gathered, gather, same_start, start_of, write_reply, count, error_reply, address_reply,
  vnode_at,
}
use kunlun.Prelude.{
  ℕ, zero, suc, ◌<◌, ◌≡◌, ◌⊎◌, inl, inr, refl, List, [], ◌∷◌, false, none, some, arith,
  Option-cases,
}

-- What the loop can end with: a jump to do_err_resp, or fewer than two addresses.
abbrev Few : Run Gathered → Type 0
Few r =
    (g : Gathered) → r ≡ ret g → (infos : List (List ℕ)) → g.infos ≡ some infos → count infos < 2

gather-Few : (n : ℕ) (p : Proxy) (v : Vnode) → Few (gather n p none [] v)
unfolding gather same_start start_of
gather-Few zero p v g e infos ei = ground arith
gather-Few (suc zero) p v g e infos ei = ground arith
gather-Few (suc (suc m)) p v g e infos ei = ground (arith, get_write_replica_repeats v)

-- The answer that refuses a client: a header with status EACCES, and EACCES as the result.
abbrev pub Refused : Proxy → Reply → Type 0
Refused p r = (r.code ≡ eacces) × (r.sent ≡ response_header p.is_master 0 eacces ∷ [])

write_reply-Refused :
    (p : Proxy) (s : Stream) (id : ℕ) (g : Gathered)
    → ((infos : List (List ℕ)) → g.infos ≡ some infos → count infos < 2)
    → Refused p (write_reply p s id g)
unfolding write_reply error_reply
write_reply-Refused p s id g few = elim (Option-cases g.infos) [
  | inl e ↦ rw (e, write_reply) (refl, refl)
  | inr (infos, e) ↦ ground (arith, few infos e)
]

-- A client that asks where to write never gets an address: for every state of the proxy and every
-- vnode, the handler behind get_vnode_id is refused with EACCES, or it runs into a fault.
pub write_address-Refused :
    (p : Proxy) (s : Stream) (id : ℕ)
    → ((r : Reply) × (address_reply p s false id ≡ ret r) × Refused p r)
      ⊎ ((x : Fault) × (address_reply p s false id ≡ fault x))
unfolding address_reply
write_address-Refused p s id = elim (Run-cases (vnode_at p id)) [
  | inr (x, e) ↦ inr (x, rw (e, address_reply))
  | inl (v, e) ↦ elim (Run-cases (gather p.replica_count p none [] v)) [
    | inr (x, f) ↦ inr (x, rw (e, address_reply, f))
    | inl (g, f) ↦ inl (
      write_reply p s id g,
      rw (e, address_reply, f),
      write_reply-Refused p s id g (gather-Few p.replica_count p v g f),
    )
  ]
]
