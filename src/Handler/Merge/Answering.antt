-- ===== src/Handler/Merge/Answering.antt =====
-- The loops of master_do_device_merge of src/proxynode/proxy_msg_parser.cpp, and the whole function,
-- keep the replicas of every vnode in different zones.
use kunlun.Handler.Merge.Soundness.{Sound, SoundBoth, answer_events-Inv, merge_report-Inv}
use kunlun.Protocol.{vnode_resp_size}
use kunlun.Prelude.Run.{ret, out_of_bounds, Keeps, ◌>>=◌, Keeps->>=, Keeps-ret, Keeps-if, or_fault}
use kunlun.Protocol.{VnodeResp, get_report, vnode_report_size}
use kunlun.Proxy.{Proxy, deref}
use kunlun.Proxy.Zones.{Inv}
use kunlun.Handler.{Stream}
use kunlun.Handler.Address.{Reply, silent, vnode_at}
use kunlun.Handler.Merge.{
  Merge, own_replica, answer_events, is_source, merge_report, merge_reports, answer_missing,
  answer_all_missing, merge_reply, master_do_device_merge,
}
use kunlun.Prelude.{ℕ, zero, suc, inl, inr, List, [], ◌∷◌, ◌==◌, drop, Bool-cases, length, ◌*◌}

merge_reports-Inv :
    (n a : ℕ) (bytes : List ℕ) (m : Merge) → Sound m → Keeps SoundBoth (merge_reports n a bytes m)
unfolding merge_reports
merge_reports-Inv zero a bytes m inv = Keeps-ret SoundBoth _ inv
merge_reports-Inv (suc n) a bytes m inv =
    Keeps->>= SoundBoth (or_fault (get_report bytes) out_of_bounds) (λ unit eu.
      Keeps->>= SoundBoth (merge_report a unit m) (λ (m', code) e.
        next m' code (merge_report-Inv a unit m inv (m', code) e)
          (merge_reports-Inv n a (drop vnode_report_size bytes))))
  where
    next :
        (m' : Merge) (code : ℕ)
        → Sound m'
        → ((k : Merge)
            → Sound k
            → Keeps SoundBoth (merge_reports n a (drop vnode_report_size bytes) k))
        → Keeps SoundBoth (elim code [
          | zero ↦ merge_reports n a (drop vnode_report_size bytes) m'
          | suc c ↦ ret (m', suc c)
        ])
    next m' zero sound others = others m' sound
    next m' (suc c) sound others = Keeps-ret SoundBoth _ sound

answer_missing-Inv : (a id : ℕ) (m : Merge) → Sound m → Keeps Sound (answer_missing a id m)
unfolding answer_missing
answer_missing-Inv a id m inv = Keeps->>= Sound (vnode_at m.proxy id) (λ v ev.
    Keeps->>= Sound (own_replica v a) (λ (i, own) eo.
      Keeps-if Sound (is_source own.replica_status) (λ t. Keeps-ret Sound _ inv)
        (λ t. Keeps-ret Sound _ inv)))

answer_all_missing-Inv :
    (a : ℕ) (ids : List ℕ) (m : Merge) → Sound m → Keeps Sound (answer_all_missing a ids m)
unfolding answer_all_missing
answer_all_missing-Inv a [] m inv = Keeps-ret Sound m inv
answer_all_missing-Inv a (id ∷ ids) m inv =
    Keeps->>= Sound (answer_missing a id m)
      (λ m' e. answer_all_missing-Inv a ids m' (answer_missing-Inv a id m inv m' e))

-- The proxy that a reply leaves is sound.
abbrev pub SoundReply : Reply → Type 0
SoundReply r = Inv r.after

merge_reply-Inv : (s : Stream) (m : Merge) → Sound m → SoundReply (merge_reply s m)
unfolding merge_reply
merge_reply-Inv s m inv = elim (Bool-cases (s.header_sent == 0)) [
  | inr t ↦ rw (t, merge_reply) inv
  | inl t ↦ elim (Bool-cases (vnode_resp_size * length m.answers == 0)) [
    | inl u ↦ rw (t, u, merge_reply) inv
    | inr u ↦ rw (t, u, merge_reply) inv
  ]
]

pub master_do_device_merge-Inv :
    (stale : VnodeResp) (a : ℕ) (bytes : List ℕ) (count : ℕ) (p : Proxy) (s : Stream)
    → Inv p
    → Keeps SoundReply (master_do_device_merge stale a bytes count p s)
unfolding master_do_device_merge
master_do_device_merge-Inv stale a bytes count p s inv =
    Keeps->>= SoundReply (deref p.devices a) (λ d ed.
      Keeps->>= SoundReply (answer_events a d.sync_list _) (λ m1 e1.
        Keeps->>= SoundReply (merge_reports count a bytes m1) (λ (m2, code) e2. last m2 code (
          merge_reports-Inv count a bytes m1 (answer_events-Inv a d.sync_list _ inv m1 e1)
            (m2, code) e2))))
  where
    last :
        (m : Merge) (code : ℕ)
        → Sound m
        → Keeps SoundReply (elim code [
          | zero ↦ answer_all_missing a m.left m >>= (λ m3. ret (merge_reply s m3))
          | suc c ↦ ret (silent m.proxy (suc c))
        ])
    last m zero sound = Keeps->>= SoundReply (answer_all_missing a m.left m) (λ m3 e.
        Keeps-ret SoundReply _
          (merge_reply-Inv s m3 (answer_all_missing-Inv a m.left m sound m3 e)))
    last m (suc c) sound = Keeps-ret SoundReply _ sound
