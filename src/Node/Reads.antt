-- ===== src/Node/Reads.antt =====
-- Sequences of calls of get_read_replica of src/proxynode/node_info.cpp.
use kunlun.Node.Read.{
  ActiveAt, IdleAt, turn, turn_lt, turn_reaches, wrap-turn, wrap-lt, after_read,
  get_read_replica_lem,
}
use kunlun.Prelude.{
  ℕ, zero, suc, ◌+◌, ◌-◌, ◌%◌, ◌<◌, ◌≡◌, ◌≢◌, ◌⊎◌, inl, inr, refl, ap, ◌∙◌, List, [], ◌∷◌, length,
  arith,
}
use native.Mathlib.Nat.{mod-add-mod}
use kunlun.Node.{Replica, Vnode, Pick, picked, wrap, get_read_replica}

-- What m calls of get_read_replica return, one after the other.
unfoldable pub reads : ℕ → Vnode → List Pick
reads zero v = []
reads (suc m) v = let (v', pick) = get_read_replica v in pick ∷ reads m v'

abbrev pub Served : Pick → List Pick → Type 0
Served p [] = ⊥
Served p (q ∷ qs) = (q ≡ p) ⊎ Served p qs

turn-turn : (n s a b : ℕ) → turn n (turn n s a) b ≡ turn n s (a + b)
turn-turn n s a b = mod-add-mod (s + a) n b ∙ ap (λ (t : ℕ). t % n) (omega arith)

turn_on : (n s k d : ℕ) → k < d → turn n (turn n (turn n s k) 1) (d - suc k) ≡ turn n s d
turn_on n s k d h =
    turn-turn n (turn n s k) 1 (d - suc k)
    ∙ turn-turn n s k (1 + (d - suc k))
    ∙ ap (turn n s) (omega arith)

order : (a b : ℕ) → (a < b) ⊎ ((a ≡ b) ⊎ (b < a))
order a b = grind arith

not_idle : (rs : List Replica) (i : ℕ) → ActiveAt rs i → ¬ IdleAt rs i
not_idle rs i (r, er, a) idle = idle r er a

ne_nil : (rs : List Replica) (i : ℕ) → i < length rs → rs ≢ []
ne_nil rs i h e = let z : length rs ≡ 0 = ap length e in absurd (omega arith)

serve_within :
    (m : ℕ) (v : Vnode) (s i d : ℕ)
    → d < m
    → wrap v.replica_list v.rd_req_robin ≡ s
    → s < length v.replica_list
    → d < length v.replica_list
    → turn (length v.replica_list) s d ≡ i
    → ActiveAt v.replica_list i
    → Served (picked i) (reads m v)
unfolding reads
serve_within zero v s i d dm w sl dl t a = elim dm [ ]
serve_within (suc m) v s i d dm w sl dl t a =
    let rs = v.replica_list in
    let n = length rs in
    elim (rw w at (get_read_replica_lem v (ne_nil rs s sl))) [
      | inl (k, hk, e, ak, before) ↦
          rw (e, reads)
            (elim (order k d) [
              | inl lt ↦ inr (
                  serve_within m (after_read v (turn n s k + 1)) (turn n (turn n s k) 1) i
                    (d - suc k) (omega arith) (wrap-turn rs (turn n s k) (turn_lt n s k sl))
                    (turn_lt n _ 1 (turn_lt n s k sl)) (omega arith) (turn_on n s k d lt ∙ t) a)
              | inr (inl eq) ↦ inl (ap picked (ap (turn n s) eq ∙ t))
              | inr (inr gt) ↦ absurd (not_idle rs i a (rw t at (before d gt)))
            ])
      | inr (robin, e, idle) ↦ absurd (not_idle rs i a (idle i (rw (← t) (turn_lt n s d sl))))
    ]

-- While a vnode's replicas stay as they are, as many reads as it has replicas return each active
-- replica at least once.
pub reads-Served :
    (v : Vnode) (i : ℕ)
    → ActiveAt v.replica_list i
    → i < length v.replica_list
    → Served (picked i) (reads (length v.replica_list) v)
reads-Served v i a h =
    let rs = v.replica_list in
    let start = wrap-lt rs v.rd_req_robin (ne_nil rs i h) in
    let (k, hk, e) = turn_reaches (length rs) _ i start h in
    serve_within (length rs) v _ i k hk refl start hk e a
