-- ===== src/Kv/Revoke.antt =====
-- The revocation of a lease: proposeLeaseRevoke of kvraft/server.go.

use fir_etcd.Prelude.{
  if◌then◌else◌, ℤ, pos, Bytes, ◌≡◌, refl, sym, ap, ◌∙◌, not, ◌||◌, Option, some, List, [], ◌∷◌,
  map, arith,
}
use fir_etcd.Raft.State.{Raft, get_state}
use fir_etcd.Raft.Leader.{start}
use fir_etcd.Store.{Db}
use fir_etcd.Lease.{LeaseManager, revoke_lease, expired_leases, get_lease_keys}
use fir_etcd.Kv.{del_t, Op, KvServer, new_kv_server}
use fir_etcd.Kv.Apply.{handle_applych_command, apply_all}
use fir_etcd.Kv.Spec.Refines.{abs, abs_server, apply_all-Refines}
use fir_etcd.Kv.Once.{steps_grow}

-- The delete that is proposed for a key of the lease.
unfoldable pub revoke_op : ℤ → Bytes → Op
revoke_op lease_id k = record {
  client_id = pos 0;
  offset = pos 0;
  op_type = del_t;
  key = k;
  ori_value = [];
  entry = record { value = []; dead_time = pos 0 };
  lease_id = lease_id;
}

unfoldable pub propose_all : (Op → Bytes) → Raft → List Op → Raft
propose_all marshal rf [] = rf
propose_all marshal rf (op ∷ ops) = propose_all marshal (start rf (marshal op)).0 ops

unfoldable pub revoke_ops : LeaseManager → ℤ → List Op
unfolding revoke_op
revoke_ops lm lease_id = map (revoke_op lease_id) (get_lease_keys lm lease_id)

-- The proposals, and the lease dropped once the loop of the manager has taken its id.
unfoldable pub propose_lease_revoke : (Op → Bytes) → Raft → LeaseManager → ℤ → Raft × LeaseManager
unfolding propose_all revoke_ops
propose_lease_revoke marshal rf lm lease_id =
    (propose_all marshal rf (revoke_ops lm lease_id), revoke_lease lm lease_id)

abbrev pub revoke_leases : (Op → Bytes) → Raft → LeaseManager → List ℤ → Raft × LeaseManager
revoke_leases marshal rf lm [] = (rf, lm)
revoke_leases marshal rf lm (id ∷ ids) =
    let revoked = propose_lease_revoke marshal rf lm id in
    revoke_leases marshal revoked.0 revoked.1 ids

-- A tick of the loop that StartKVServer starts: only a leader that has recovered revokes.
unfoldable pub revoke_tick : (Op → Bytes) → Raft → LeaseManager → ℤ → Raft × LeaseManager
unfolding propose_lease_revoke expired_leases get_state
revoke_tick marshal rf lm now =
    if not (get_state rf).1 || not rf.iis_back
    then (rf, lm)
    else revoke_leases marshal rf lm (expired_leases lm now)

module _ (db : Db) (decode_ops : Bytes → Option (List Op)) (lm : LeaseManager) where
  handle-revoke_op :
      (log : List Op) (kv : KvServer db) (lease_id : ℤ) (k : Bytes)
      → apply_all db decode_ops (new_kv_server db lm) log ≡ some kv
      → handle_applych_command db decode_ops kv (revoke_op lease_id k) ≡ some (kv, [])
  unfolding handle_applych_command revoke_op new_kv_server
  handle-revoke_op log kv lease_id k h =
      let begin : KvServer db = new_kv_server db lm in
      ground (
        arith,
        steps_grow db.accepts decode_ops (abs db decode_ops begin) (abs db decode_ops kv) log
            (pos 0)
            (sym (apply_all-Refines db decode_ops begin log) ∙ ap (abs_server db decode_ops) h),
      )

  apply_all-revoke_all :
      (log : List Op) (kv : KvServer db) (lease_id : ℤ) (ks : List Bytes)
      → apply_all db decode_ops (new_kv_server db lm) log ≡ some kv
      → apply_all db decode_ops kv (map (revoke_op lease_id) ks) ≡ some kv
  unfolding apply_all
  apply_all-revoke_all log kv lease_id [] h = refl
  apply_all-revoke_all log kv lease_id (k ∷ ks) h =
      rw (handle-revoke_op log kv lease_id k h) (apply_all-revoke_all log kv lease_id ks h)

  -- Whatever a server has applied, the operations that a revocation proposes change nothing on it: the
  -- keys of a revoked lease stay in the store.
  pub apply_all-revoke_ops :
      (log : List Op) (kv : KvServer db) (manager : LeaseManager) (lease_id : ℤ)
      → apply_all db decode_ops (new_kv_server db lm) log ≡ some kv
      → apply_all db decode_ops kv (revoke_ops manager lease_id) ≡ some kv
  unfolding revoke_ops
  apply_all-revoke_ops log kv manager lease_id h =
      apply_all-revoke_all log kv lease_id (get_lease_keys manager lease_id) h
