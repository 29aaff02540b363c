-- ===== src/Client/Pipe/Examples.antt =====
-- A pipe with a put, an append and a delete, on a server without keys.
use fir_etcd.Prelude.{
  ◌+ℤ◌, pos, Bytes, ◌≡◌, refl, Bool, true, false, Option, none, some, List, [], ◌∷◌, map,
}
use fir_etcd.Store.{Entry}
use fir_etcd.Kv.{Op}
use fir_etcd.Kv.Spec.{Abstract, set_key, unset_key, op_step, step, steps}
use fir_etcd.Kv.Requests.{op_of}
use fir_etcd.Client.Pipe.{
  append_op, PipeCall, pipe_delete, pipe_put, pipe_append, op_of_call, call_all, new_pipe,
  batch_args,
}
use fir_etcd.Client.Lock.{write_args}
use fir_etcd.Client.Pipe.Batch.{single_args, batch-singles}

abbrev calls : List PipeCall
calls =
    pipe_put (1 ∷ []) (7 ∷ []) (pos 0) (pos 0)
    ∷ pipe_append (1 ∷ []) (8 ∷ []) (pos 5) (pos 100)
    ∷ pipe_delete (2 ∷ [])
    ∷ []

abbrev all_pairs : Bytes → Entry → Bool
all_pairs k e = true

-- The pipe with a lease for each of its operations.
abbrev leased_ops : List Op
leased_ops = map (λ (op : Op). record op { lease_id = pos 4 }) (call_all new_pipe calls).ops

abbrev decode_calls : Bytes → Option (List Op)
decode_calls b = some leased_ops

abbrev before : Abstract
before = record { entries = λ k. none; duplicates = [] }

abbrev after_singles : Abstract
after_singles = record {
  entries =
      unset_key
        (set_key (set_key (λ k. none) (1 ∷ []) (record { value = 7 ∷ []; dead_time = pos 0 }))
          (1 ∷ []) (record { value = 7 ∷ 8 ∷ []; dead_time = pos 105 }))
        (2 ∷ []);
  duplicates = (pos 3, record { offset = pos 3; cas_result = false }) ∷ [];
}

batch-singles_example :
    (c : Abstract) × (step all_pairs decode_calls before (
        op_of (
          batch_args
            (pos 3)
            (pos 1)
            (λ ops. [])
            (record (call_all new_pipe calls) { ops = leased_ops })))
      ≡ some c)
    × (c.entries ≡ after_singles.entries)
unfolding call_all append_op op_of_call steps step op_step ◌+ℤ◌ single_args op_of write_args
batch-singles_example =
    batch-singles all_pairs decode_calls calls (λ ops. []) leased_ops (λ n. n) before after_singles
      (pos 3) (pos 1) (refl, tt) refl (refl, (refl, (refl, tt))) refl refl
