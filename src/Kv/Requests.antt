-- ===== src/Kv/Requests.antt =====
-- The handler PutAppend of kvraft/server.go.
pub mod Answers
use fir_etcd.Prelude.{
  if◌then◌else◌, ℤ, ltb_ℤ, leb_ℤ, ◌==ℤ◌, offset, Bytes, Map, Bool, true, false, not, ◌&&◌, Option,
  none, some,
}
use fir_etcd.Raft.State.{is_leader, Raft}
use fir_etcd.Raft.Leader.{start}
use fir_etcd.Store.{Db}
use fir_etcd.Kv.{OpType, cas_t, Op, DuplicateType, KvServer, duplicate_of}

-- The error codes of kvraft/common.go.
pub data Err : Type 0 where
  err_ok : Err
  err_no_key : Err
  err_cas_failed : Err
  err_wrong_leader : Err
  err_wait_for_recover : Err

pub record PutAppendArgs : Type 0 where
  pub key : Bytes
  pub value : Bytes
  pub dead_time : ℤ
  pub ori_value : Bytes
  pub op : OpType
  pub client_id : ℤ
  pub latest_offset : ℤ
  pub lease_id : ℤ

unfoldable pub op_of : PutAppendArgs → Op
op_of args = record {
  client_id = args.client_id;
  offset = args.latest_offset;
  op_type = args.op;
  key = args.key;
  ori_value = args.ori_value;
  entry = record { value = args.value; dead_time = args.dead_time };
  lease_id = args.lease_id;
}

abbrev pub is_cas : OpType → Bool
is_cas cas_t = true
is_cas _ = false

-- The answer to a request that the server has applied before.
unfoldable pub answer_again : OpType → DuplicateType → Err
answer_again op d = if is_cas op then if d.cas_result then err_ok else err_cas_failed else err_ok

-- The test on the table of requests; `none` goes on.
unfoldable pub check_duplicate : Map ℤ DuplicateType → PutAppendArgs → Option Err
unfolding answer_again
check_duplicate m args =
    let d = duplicate_of m args.client_id in
    if ltb_ℤ args.latest_offset d.offset
    then some err_wrong_leader
    else if args.latest_offset ==ℤ d.offset
    then some (answer_again args.op d)
    else none

pub data Started : Type 0 where
  replied : Err → Started
  waiting : (index term : ℤ) → Started

module _ (db : Db) (marshal : Op → Bytes) where
  -- The handler up to its wait, with no other step between its parts. The calls that it starts to the
  -- other peers are left out.
  unfoldable pub put_append : Raft → KvServer db → PutAppendArgs → Raft × Started
  unfolding op_of check_duplicate
  put_append rf kv args =
      if not (is_leader rf.state)
      then (rf, replied err_wrong_leader)
      else elim (check_duplicate kv.duplicate_map args) [
        | some e ↦ (rf, replied e)
        | none ↦
            let (rf', started) = start rf (marshal (op_of args)) in
            (rf', if started.2 then waiting started.0 started.1 else replied err_wrong_leader)
      ]

-- A turn of the wait, once the applied index is looked at; `none` waits on.
unfoldable pub poll : (db : Db) → Raft → KvServer db → PutAppendArgs → (index term : ℤ) → Option Err
unfolding check_duplicate
poll db rf kv args index term =
    if leb_ℤ index kv.last_applied_index
    then elim (check_duplicate kv.duplicate_map args) [
      | some e ↦ some e
      | none ↦
          some
            (if (term ==ℤ rf.current_term) && is_leader rf.state then err_ok else err_wrong_leader)
    ]
    else none
