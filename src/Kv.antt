-- ===== src/Kv.antt =====
-- The key-value server, kvraft/server.go: its state and the operations of raft/common.go.
pub mod Apply
pub mod Spec
pub mod Once
pub mod Loop
pub mod Revoke
pub mod Requests
pub mod Reads
pub mod Stream
pub mod Watch
mod Examples
use fir_etcd.Prelude.{
  ℤ, pos, offset, Bytes, int_key, bytes_key, Map, lookup, Bool, false, none, some, [],
}
use fir_etcd.Store.{Entry, Db}
use fir_etcd.Lease.{LeaseManager}

-- pb.OpType; `unknown` is any other code.
pub data OpType : Type 0 where
  get_t : OpType
  put_t : OpType
  append_t : OpType
  del_t : OpType
  del_with_prefix_t : OpType
  batch_t : OpType
  cas_t : OpType
  empty_t : OpType
  get_keys : OpType
  get_kvs : OpType
  unknown : ℤ → OpType

pub record Op : Type 0 where
  pub client_id : ℤ
  pub offset : ℤ
  pub op_type : OpType
  pub key : Bytes
  pub ori_value : Bytes
  pub entry : Entry
  pub lease_id : ℤ

pub record DuplicateType : Type 0 where
  pub offset : ℤ
  pub cas_result : Bool

-- What Go's map gives for a missing client.
abbrev pub no_duplicate : DuplicateType
no_duplicate = record { offset = pos 0; cas_result = false }

pub data WatchEventType : Type 0 where
  put_event : WatchEventType
  delete_event : WatchEventType

pub record WatchEvent : Type 0 where
  pub event_type : WatchEventType
  pub key : Bytes
  pub value : Bytes

-- The part of the server that committed operations change.
pub record KvServer (db : Db) : Type 0 where
  pub last_applied_index : ℤ
  pub store : db.Store
  pub duplicate_map : Map ℤ DuplicateType
  pub lease_mgr : LeaseManager

-- kv.duplicateMap[clientId]
abbrev pub duplicate_of : Map ℤ DuplicateType → ℤ → DuplicateType
duplicate_of m client = elim (lookup m client) [ none ↦ no_duplicate | some d ↦ d ]

unfoldable pub new_kv_server : (db : Db) → LeaseManager → KvServer db
new_kv_server db lease_mgr = record {
  last_applied_index = pos 0;
  store = db.new_db;
  duplicate_map = [];
  lease_mgr = lease_mgr;
}
