-- ===== src/Client/Pipe.antt =====
-- Pipes, client/pipe.go: operations that are gathered and sent as one batch.
pub mod Batch
pub mod Leases
mod Examples
use fir_etcd.Prelude.{
  ltb, if◌then◌else◌, length, ◌+ℤ◌, ℤ, pos, ◌==ℤ◌, offset, Bytes, ℕ, ◌+◌, Bool, not, Option, none,
  some, List, [], ◌∷◌, ◌++◌,
}
use fir_etcd.Kv.{OpType, put_t, append_t, del_t, del_with_prefix_t, batch_t, Op}
use fir_etcd.Kv.Requests.{PutAppendArgs}
use fir_etcd.Client.{WriteResult}
use fir_etcd.Client.Lock.{write_args}

pub record Pipe : Type 0 where
  pub ops : List Op
  pub size : ℕ

abbrev pub pipe_limit : ℕ
pipe_limit = 4096000

-- Op.Size of raft/common.go; unsafe.Sizeof gives 96 for an Op and 32 for an Entry on a 64-bit machine.
unfoldable pub op_size : Op → ℕ
op_size op = 96 + length op.key + 32 + length op.entry.value

-- The Boolean is false for the error "too many pipeline data". The operation stays in the pipe.
unfoldable pub append_op : Pipe → Op → Pipe × Bool
unfolding op_size
append_op p op =
    let size = p.size + op_size op in
    (record { ops = p.ops ++ op ∷ []; size = size }, not (ltb pipe_limit size))

abbrev pub pipe_op : OpType → Bytes → Bytes → ℤ → Op
pipe_op op_type key value dead_time = record {
  client_id = pos 0;
  offset = pos 0;
  op_type = op_type;
  key = key;
  ori_value = [];
  entry = record { value = value; dead_time = dead_time };
  lease_id = pos 0;
}

-- The calls that add to a pipe. `ttl` and `now` are milliseconds.
pub data PipeCall : Type 0 where
  pipe_delete : Bytes → PipeCall
  pipe_delete_with_prefix : Bytes → PipeCall
  pipe_put : Bytes → Bytes → (ttl now : ℤ) → PipeCall
  pipe_append : Bytes → Bytes → (ttl now : ℤ) → PipeCall

-- Delete, DeleteWithPrefix, Put and Append; an Append always has an end.
unfoldable pub op_of_call : PipeCall → Op
op_of_call (pipe_delete key) = pipe_op del_t key [] (pos 0)
op_of_call (pipe_delete_with_prefix prefix) = pipe_op del_with_prefix_t prefix [] (pos 0)
op_of_call (pipe_put key value ttl now) =
    pipe_op put_t key value (if ttl ==ℤ pos 0 then pos 0 else now +ℤ ttl)
op_of_call (pipe_append key value ttl now) = pipe_op append_t key value (now +ℤ ttl)

unfoldable pub call_all : Pipe → List PipeCall → Pipe
unfolding append_op op_of_call
call_all p [] = p
call_all p (c ∷ cs) = call_all (append_op p (op_of_call c)).0 cs

abbrev pub new_pipe : Pipe
new_pipe = record { ops = []; size = 0 }

-- The request of BatchWrite, once leases are asked for; `marshal` is the gob encoding of the operations.
unfoldable pub batch_args : (client_id latest_offset : ℤ) → (List Op → Bytes) → Pipe → PutAppendArgs
unfolding write_args
batch_args client_id latest_offset marshal p =
    write_args client_id latest_offset [] (marshal p.ops) [] (pos 0) (pos 0) batch_t

-- Exec: an empty pipe is not sent. `none` is the nil that it returns.
unfoldable pub exec : (Pipe → WriteResult) → Pipe → Option WriteResult
exec batch_write p = elim p.ops [ [] ↦ none | op ∷ ops ↦ some (batch_write p) ]
