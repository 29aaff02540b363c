-- ===== src/Kv/Examples.antt =====
-- A server on a store in memory.

use fir_etcd.Raft.Recovery.{initial}
use fir_etcd.Raft.State.{Bytes, leader, Raft}
use fir_etcd.Kv.Requests.{err_ok, err_cas_failed, PutAppendArgs, op_of, replied, put_append, poll}
use fir_etcd.Kv.Requests.Answers.{poll-handle_command, put_append-reused}
use fir_etcd.Kv.Loop.Snapshots.{Restores, apply_all-installed}
use fir_etcd.Kv.Loop.{
  SnapshotCodec, handle_applych_snapshot, check_if_need_snapshot, handle_command,
}
use fir_etcd.Kv.Revoke.{revoke_ops, apply_all-revoke_ops}
use fir_etcd.Kv.Once.{apply_all-once}
use fir_etcd.Prelude.{
  ℤ, pos, offset, ◌≡◌, refl, sym, ap, true, false, Option, some, List, [], ◌∷◌, arith,
}
use fir_etcd.Store.{Db}
use fir_etcd.Store.Bolt.Laws.{bolt_db}
use fir_etcd.Store.Bolt.{seek, while_prefix, delete_all, del_with_prefix}
use fir_etcd.Store.Memory.{memory}
use fir_etcd.Lease.{LeaseManager, update_lease, attach_key, detach_key}
use fir_etcd.Kv.{
  OpType, put_t, append_t, del_with_prefix_t, batch_t, cas_t, Op, KvServer, new_kv_server,
}
use fir_etcd.Kv.Apply.{
  Applied, attach_op, detach_op, is_empty, apply_put, apply_cas, apply_in_batch, apply_batch,
  apply_decoded, apply_op, handle_applych_command, apply_all,
}
use fir_etcd.Kv.Spec.{steps}
use fir_etcd.Kv.Spec.Refines.{abs, abs_server, apply_all-Refines}

abbrev db : Db
db = bolt_db memory

abbrev an_op : ℤ → OpType → Bytes → Bytes → Op
an_op offset op_type key value = record {
  client_id = pos 4;
  offset = offset;
  op_type = op_type;
  key = key;
  ori_value = [];
  entry = record { value = value; dead_time = pos 0 };
  lease_id = pos 1;
}

-- Every value decodes to a batch that deletes the keys that begin with 1.
abbrev decode_ops : Bytes → Option (List Op)
decode_ops b = some (an_op (pos 0) del_with_prefix_t (1 ∷ []) [] ∷ [])

abbrev first_op : Op
first_op = an_op (pos 1) put_t (1 ∷ 2 ∷ []) (7 ∷ [])

abbrev later : List Op
later =
    an_op (pos 2) append_t (1 ∷ 2 ∷ []) (8 ∷ [])
    ∷ an_op (pos 2) append_t (1 ∷ 2 ∷ []) (8 ∷ [])
    ∷ an_op (pos 3) cas_t (3 ∷ []) (9 ∷ [])
    ∷ an_op (pos 4) batch_t [] []
    ∷ []

abbrev log : List Op
log = first_op ∷ later

abbrev manager : LeaseManager
manager = record { leases = []; next_lease_id = pos 1; min_lease_ttl = pos 10 }

abbrev fresh : KvServer db
unfolding new_kv_server
fresh = new_kv_server db manager

apply_all-Refines_example :
    abs_server db decode_ops (apply_all db decode_ops (new_kv_server db manager) log)
    ≡ steps db.accepts decode_ops (abs db decode_ops (new_kv_server db manager)) log
apply_all-Refines_example = apply_all-Refines db decode_ops (new_kv_server db manager) log

-- The server after the log.
abbrev after : KvServer db
after = record {
  last_applied_index = pos 0;
  store = (3 ∷ [], record { value = 9 ∷ []; dead_time = pos 0 }) ∷ [];
  duplicate_map = (pos 4, record { offset = pos 4; cas_result = false }) ∷ [];
  lease_mgr = manager;
}

reached_after : apply_all db decode_ops (new_kv_server db manager) log ≡ some after
unfolding apply_all handle_applych_command apply_op apply_put apply_cas apply_decoded apply_batch
    apply_in_batch attach_op detach_op attach_key detach_key update_lease new_kv_server
    del_with_prefix delete_all while_prefix seek
reached_after = refl

apply_all-once_example : handle_applych_command db decode_ops after first_op ≡ some (after, [])
apply_all-once_example =
    apply_all-once db decode_ops (new_kv_server db manager) after first_op later reached_after

apply_all-revoke_ops_example :
    apply_all db decode_ops after (revoke_ops manager (pos 1)) ≡ some after
apply_all-revoke_ops_example =
    apply_all-revoke_ops db decode_ops manager log after manager (pos 1) reached_after

-- An encoding that is good for this server.
abbrev codec : SnapshotCodec db
codec = record {
  encode = λ m copy. some (1 ∷ copy);
  decode = λ bytes. some (after.duplicate_map, []);
  snapshot_data = λ store. some [];
  install = λ copy. after.store;
}

none_copied : (copy : Bytes) → some [] ≡ some copy → copy ≡ []
none_copied copy e = cc

one_byte : (copy bytes : Bytes) → some (1 ∷ copy) ≡ some bytes → is_empty bytes ≡ false
one_byte copy [] e = cc
one_byte copy (b ∷ bytes) e = refl

codec-Restores : Restores codec after
codec-Restores = record {
  decodes = λ copy bytes e d.
      (ap (λ x. some (after.duplicate_map, x)) (sym (none_copied copy e)), one_byte copy bytes d);
  installs = λ copy e. refl;
}

taken_after :
    check_if_need_snapshot db codec after (pos 100) (pos 200) (pos 5) ≡ some (some (pos 5, 1 ∷ []))
unfolding check_if_need_snapshot
taken_after = refl

apply_all-installed_example :
    (kv' : KvServer db) × (handle_applych_snapshot db codec
        (new_kv_server db manager)
        (1 ∷ [])
        (pos 5)
      ≡ some kv')
    × (abs_server db decode_ops (apply_all db decode_ops kv' log)
        ≡ abs_server db decode_ops (apply_all db decode_ops after log))
unfolding new_kv_server
apply_all-installed_example =
    apply_all-installed db codec decode_ops after (new_kv_server db manager) (pos 100) (pos 200)
      (pos 5) (pos 5) (1 ∷ []) log codec-Restores taken_after (omega arith)

abbrev request : PutAppendArgs
request = record {
  key = 3 ∷ [];
  value = 1 ∷ [];
  dead_time = pos 0;
  ori_value = 8 ∷ [];
  op = cas_t;
  client_id = pos 4;
  latest_offset = pos 5;
  lease_id = pos 0;
}

-- The store holds 9 under the key, not 8: the swap fails.
abbrev refused : Applied db
refused = (
  record after {
    last_applied_index = pos 6;
    duplicate_map = (pos 4, record { offset = pos 5; cas_result = false }) ∷ [];
  },
  [],
)

abbrev peer : Raft
unfolding initial
peer = initial 0 3 (record { seq = 1; linked = true; records = []; snapshots = [] })

poll-handle_command_example : poll db peer refused.0 request (pos 6) (pos 2) ≡ some err_cas_failed
unfolding handle_command handle_applych_command apply_op apply_cas op_of
poll-handle_command_example =
    poll-handle_command db decode_ops peer after request (pos 6) (pos 2) refused refl (omega arith)
      refl (omega arith)

abbrev boss : Raft
boss = record peer { state = leader }

put_append-reused_example :
    put_append db
      (λ op. op.key)
      boss
      refused.0
      (record request { op = put_t; key = 6 ∷ []; value = 5 ∷ [] })
    ≡ (boss, replied err_ok)
unfolding handle_command handle_applych_command apply_op apply_cas op_of
put_append-reused_example =
    put_append-reused db decode_ops (λ op. op.key) boss after request
      (record request { op = put_t; key = 6 ∷ []; value = 5 ∷ [] }) (pos 6) refused refl
      (omega arith) refl (omega arith) refl refl refl refl
