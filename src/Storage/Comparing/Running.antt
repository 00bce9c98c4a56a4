-- ===== src/Storage/Comparing/Running.antt =====
-- The loop of CThreadSyncData::run of src/storagenode/thread_sync_data.cpp, which copies vnodes one
-- after the other.
use kunlun.Prelude.Run.{Run, ret, ◌>>=◌}
use kunlun.Storage.BeatHeart.{Node, SyncMessage}
use kunlun.Storage.Objects.{System}
use kunlun.Storage.HashCode.{Engine}
use kunlun.Storage.Checking.{Disk, Calls}
use kunlun.Storage.Comparing.{Meeting, do_sync_event}
use kunlun.Prelude.{
  ℕ, suc, ◌+◌, ◌≡◌, refl, List, [], ◌∷◌, ◌++◌, Option, none, some, length, map, append_assoc,
  append_nil, arith, ◌==◌, if◌then◌else◌,
}

module _ (e : Engine) where
  -- What a call of do_sync_event meets: the node as it is then, and the results of its calls.
  pub record Turn : Type 0 where
    pub calls : Calls e
    pub system : System
    pub disk : Disk e
    pub meeting : Meeting
    pub thrown : ℕ
    pub connected : ℕ
    pub errno : ℕ

  -- do_sync_event for an event, in a turn.
  abbrev pub do_event : Turn → SyncMessage → Run (List (List ℕ) × ℕ)
  do_event t m =
      do_sync_event e t.calls t.system t.disk t.meeting t.thrown t.connected t.errno m.vnode_id

  -- The loop of run from its i-th round on, over the events of the queue: what is pushed to
  -- g_sync_down_queue, the events that are left in the queue, and the result; `none` where get_msg
  -- waits for the next event.
  pub run_sync : (ℕ → Turn) → ℕ → List SyncMessage → Node → Run (Node × Option ℕ)
  run_sync turns i [] node = ret (record node { sync_msgs = [] }, none)
  run_sync turns i (m ∷ ms) node = do
    (sent, code) ← do_event (turns i) m
    let rest =
        run_sync turns (i + 1) ms (record node { sync_down = node.sync_down ++ m.vnode_id ∷ [] })
    if code == 0 then rest else ret (record node { sync_msgs = ms }, some code)

  -- Every one of these events is served with the result 0.
  abbrev pub Succeed : (ℕ → Turn) → ℕ → List SyncMessage → Type 0
  Succeed turns i [] = Unit {0}
  Succeed turns i (m ∷ ms) =
      ((sent : List (List ℕ)) × (do_event (turns i) m ≡ ret (sent, 0))) × Succeed turns (i + 1) ms

abbrev pub ids : List SyncMessage → List ℕ
ids ms = map (λ (m : SyncMessage). m.vnode_id) ms

-- Where the first events of the queue are served with the result 0, the thread reports their vnodes as
-- ended, in the order of the queue. With no event behind them it then waits for the next one, the
-- queue empty. With one, it goes on if that one is served with 0 as well; if that one fails, the
-- thread ends with its error, reports no other vnode, and all events behind it stay in the queue.
pub run_sync_lem :
    (e : Engine) (turns : ℕ → Turn e) (i : ℕ) (before : List SyncMessage) (m : SyncMessage)
    (behind : List SyncMessage) (node : Node)
    → Succeed e turns i before
    → (let ended = node.sync_down ++ ids before in
        (run_sync e turns i before node
          ≡ ret (record node { sync_msgs = []; sync_down = ended }, none))
        × (run_sync e turns i (before ++ m ∷ behind) node ≡ (do
          (sent, code) ← do_event e (turns (i + length before)) m
          let rest =
              run_sync e turns
                (i + length before + 1)
                behind
                (record node { sync_down = ended ++ m.vnode_id ∷ [] })
          if code == 0
              then rest
              else ret (record node { sync_msgs = behind; sync_down = ended }, some code))))
unfolding run_sync
run_sync_lem e turns i [] m behind node h =
    let same = append_nil node.sync_down in
    let here : i + 0 ≡ i = omega arith in (rw same refl, rw (same, here) refl)
run_sync_lem e turns i (x ∷ before) m behind node ((sent, served), h) =
    let after = record node { sync_down = node.sync_down ++ x.vnode_id ∷ [] } in
    let (whole, part) = run_sync_lem e turns (i + 1) before m behind after h in
    let same = append_assoc node.sync_down (x.vnode_id ∷ []) (ids before) in
    let later : i + suc (length before) ≡ i + 1 + length before = omega arith in
    (rw (served, whole, same) refl, rw (served, part, same, later) refl)
