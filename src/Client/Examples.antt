-- ===== src/Client/Examples.antt =====
-- A write to three servers: the first does not lead, the third does.

use fir_etcd.Prelude.{
  ◌==◌, if◌then◌else◌, pos, minus_one, ℕ, ◌≡◌, refl, true, false, none, some, [], ◌∷◌, arith,
}
use fir_etcd.Kv.Requests.{err_ok, err_wrong_leader}
use fir_etcd.Client.{Client, answered, Attempt, WriteResult, write_request}
use fir_etcd.Client.Read.{read_faild, read_request}
use fir_etcd.Client.Bounds.{IsSound}
use fir_etcd.Client.Bounds.Returns.{FromCluster, write_request-Returns}
use fir_etcd.Raft.Recovery.{initial}
use fir_etcd.Store.Bolt.Laws.{bolt_db}
use fir_etcd.Store.Memory.{memory}
use fir_etcd.Kv.{get_t, new_kv_server}
use fir_etcd.Client.Refused.{Peer, answered_by, reads_fail}

abbrev three : Client
three = record {
  servers = 3;
  next_send_local_id = 0;
  latest_offset = pos 1;
  s_to_c = minus_one ∷ minus_one ∷ pos 2 ∷ [];
}

-- 17 turns are left after the first turn.
abbrev attempts : ℕ → Attempt
attempts i = record {
  valid = λ n. true;
  granted = none;
  answer =
      if i == 17
      then answered err_wrong_leader (pos 2) (pos 0)
      else answered err_ok (pos 2) (pos 2);
}

three-IsSound : IsSound three
three-IsSound = record { next = omega arith; size = refl; local = (tt, (tt, (omega arith, tt))) }

attempts-FromCluster : (i : ℕ) → FromCluster 3 (attempts i).answer
attempts-FromCluster i = ground arith

write_request-Returns_example :
    (ck' : Client) × (r : WriteResult) × (write_request false attempts three ≡ some (ck', r))
    × IsSound ck'
write_request-Returns_example =
    write_request-Returns false attempts three three-IsSound attempts-FromCluster

abbrev a_peer : Peer (bolt_db memory)
unfolding initial new_kv_server
a_peer = record {
  rf = initial 0 3 (record { seq = 1; linked = true; records = []; snapshots = [] });
  kv =
      new_kv_server (bolt_db memory)
        (record { leases = []; next_lease_id = pos 1; min_lease_ttl = pos 10 });
  me = pos 0;
}

reads_fail_example :
    (ck' : Client) × (read_request
        (answered_by
          (bolt_db memory)
          (λ p. p.0)
          (λ op. op.key)
          (λ i n. true)
          (λ i. a_peer)
          (record {
            key = 7 ∷ [];
            with_prefix = false;
            page_size = pos 0;
            page_index = pos 0;
            op = get_t;
          }))
        three
      ≡ some (ck', read_faild))
unfolding initial a_peer
reads_fail_example =
    reads_fail (bolt_db memory) (λ p. p.0) (λ op. op.key) (λ i n. true) (λ i. a_peer)
      (record {
        key = 7 ∷ [];
        with_prefix = false;
        page_size = pos 0;
        page_index = pos 0;
        op = get_t;
      })
      three three-IsSound (λ i. omega arith)
