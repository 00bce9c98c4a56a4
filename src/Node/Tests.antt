-- ===== src/Node/Tests.antt =====
-- src/proxynode/node_info.cpp on concrete vnodes.
use kunlun.Prelude.{ℕ, ◌≡◌, ◌≢◌, refl, List, length, ap, [], ◌∷◌, none, some, arith}
use kunlun.Node.Status
use kunlun.Node.{
  Replica, Vnode, picked, wild, wrap, read_loop, write_loop, get_read_replica, get_write_replica,
  remove_replica, destroy_replica_info, find_replica, get_replica_info,
}
use kunlun.Node.Read.{ReadsFrom, get_read_replica_lem}
use kunlun.Node.Reads.{Served, reads, reads-Served}
use kunlun.Node.Write.{
  read_place_choice, get_write_replica_lem, get_write_replica_repeats,
  get_write_replica-get_read_replica,
}

abbrev on : ℕ → ℕ → Replica
on device status = record { replica_status = status; preplica = device }

-- Three replicas, of which the first and the last are active.
abbrev three : List Replica
three = on 7 Status.active ∷ on 8 Status.wait_sync ∷ on 9 Status.active ∷ []

abbrev vnode : ℕ → Vnode
vnode robin = record {
  vnode_id = 4;
  version = 1;
  wr_req_robin = 0;
  rd_req_robin = robin;
  replica_list = three;
}

-- Reads alternate between the two active replicas.
reads_alternate : reads 4 (vnode 0) ≡ picked 0 ∷ picked 2 ∷ picked 0 ∷ picked 2 ∷ []
unfolding reads get_read_replica read_loop wrap
reads_alternate = refl

-- Writes take the place where the next read begins.
write_follows_read : (get_write_replica (vnode 2)).1 ≡ picked 2
unfolding get_write_replica write_loop wrap
write_follows_read = refl

found : get_replica_info (vnode 0) 9 ≡ some 2
unfolding get_replica_info find_replica
found = refl

gone : get_replica_info (destroy_replica_info (vnode 0) 9) 9 ≡ none
unfolding get_replica_info find_replica destroy_replica_info remove_replica
gone = refl

not_empty : three ≢ []
not_empty e = absurd (omega (arith, ap (λ (rs : List Replica). length rs) e))

get_read_replica_lem_example : ReadsFrom (vnode 1) (wrap three 1)
get_read_replica_lem_example = get_read_replica_lem (vnode 1) not_empty

reads-Served_example : Served (picked 2) (reads 3 (vnode 1))
reads-Served_example = reads-Served (vnode 1) 2 (on 9 Status.active, refl, refl) (omega arith)

get_write_replica_lem_example : get_write_replica (vnode 1) ≡ (
  record (vnode 1) { wr_req_robin = (get_write_replica (vnode 1)).0.wr_req_robin },
  read_place_choice three 1,
)
get_write_replica_lem_example = get_write_replica_lem (vnode 1) not_empty

get_write_replica_repeats_test :
    (get_write_replica (get_write_replica (vnode 2)).0).1 ≡ (get_write_replica (vnode 2)).1
get_write_replica_repeats_test = get_write_replica_repeats (vnode 2)

last_read : (get_read_replica (vnode 1)).1 ≡ picked 2
unfolding get_read_replica read_loop wrap
last_read = refl

get_write_replica-get_read_replica_example :
    (get_write_replica (get_read_replica (vnode 1)).0).1 ≡ wild
get_write_replica-get_read_replica_example =
    get_write_replica-get_read_replica (vnode 1) 2 last_read refl
