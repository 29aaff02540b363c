-- ===== src/Kv/Reads.antt =====
-- The handler Get of kvraft/server.go.
use fir_etcd.Prelude.{
  if◌then◌else◌, ◌>>=◌, ℤ, pos, leb_ℤ, Bytes, Bool, true, not, ◌&&◌, Option, none, some, List, [],
  ◌∷◌, map,
}
use fir_etcd.Raft.State.{is_leader, Raft, get_commit_index}
use fir_etcd.Raft.Leader.{start}
use fir_etcd.Store.{Entry, Pair, Db}
use fir_etcd.Kv.{OpType, get_t, empty_t, get_keys, get_kvs, Op, KvServer}
use fir_etcd.Kv.Requests.{Err, err_ok, err_no_key, err_wrong_leader, err_wait_for_recover}

pub record GetArgs : Type 0 where
  pub key : Bytes
  pub with_prefix : Bool
  pub page_size : ℤ
  pub page_index : ℤ
  pub op : OpType

pub record GetReply : Type 0 where
  pub err : Err
  pub leader_id : ℤ
  pub server_id : ℤ
  pub value : List Bytes

-- CheckIfDepose of raft/raft.go.
unfoldable pub check_if_depose : Raft → Bool
check_if_depose rf = true

-- The operation that a leader proposes to find out what is committed.
unfoldable pub empty_op : Op
empty_op = record {
  client_id = pos 0;
  offset = pos 0;
  op_type = empty_t;
  key = [];
  ori_value = [];
  entry = record { value = []; dead_time = pos 0 };
  lease_id = pos 0;
}

abbrev value_of_entry : Option Entry → List Bytes
value_of_entry none = []
value_of_entry (some e) = e.value ∷ []

-- `encode` is the gob encoding of a pair, `marshal` that of an operation.
module _ (db : Db) (encode : Pair → Bytes) (marshal : Op → Bytes) where
  -- The switch over the kind of read; `none` is an error of the database, which ends the process.
  unfoldable pub read_values_of : db.Store → GetArgs → Option (List Bytes)
  read_values_of s args = elim args.op [
    | get_t ↦ some (
        if args.with_prefix
        then map (λ (e : Entry). e.value) (db.get_entry_with_prefix s args.key)
        else value_of_entry (db.get_entry s args.key))
    | get_keys ↦ (db.keys s args.page_size args.page_index >>= λ ps. some (map encode ps))
    | get_kvs ↦ (db.kvs s args.page_size args.page_index >>= λ ps. some (map encode ps))
    | _ ↦ some []
  ]

  abbrev no_key_if_empty : GetReply → List Bytes → GetReply
  no_key_if_empty reply [] = record reply { err = err_no_key }
  no_key_if_empty reply (v ∷ vs) = record reply { err = err_ok; value = v ∷ vs }

  -- The part behind the check for deposition, with no other step between its parts.
  unfoldable pub read_applied : Raft → KvServer db → GetArgs → GetReply → Option GetReply
  unfolding read_values_of get_commit_index
  read_applied rf kv args reply =
      if leb_ℤ (get_commit_index rf) kv.last_applied_index && is_leader rf.state
      then (read_values_of kv.store args >>= λ vs. some (no_key_if_empty reply vs))
      else some (record reply { err = err_wait_for_recover })

  unfoldable pub get : Raft → KvServer db → (me : ℤ) → GetArgs → Option (Raft × GetReply)
  unfolding check_if_depose read_applied empty_op
  get rf kv me args =
      let reply : GetReply = record {
        err = err_wrong_leader;
        leader_id = rf.leader_id;
        server_id = me;
        value = [];
      } in
      if not (is_leader rf.state)
      then some (rf, reply)
      else if not rf.iis_back
      then some ((start rf (marshal empty_op)).0, record reply { err = err_wait_for_recover })
      else if check_if_depose rf
      then some (rf, reply)
      else (read_applied rf kv args reply >>= λ r. some (rf, r))
