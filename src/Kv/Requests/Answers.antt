-- ===== src/Kv/Requests/Answers.antt =====
-- What a client is told of its request.
use fir_etcd.Kv.Spec.Refines.{abs, abs_result, abs-apply_op_of}
use fir_etcd.Prelude.{
  if◌then◌else◌, Option-cases, ℤ, ◌<ℤ◌, leb_ℤ, ==ℤ_refl, offset, Bytes, bytes_equal, int_key,
  bytes_key, insert, ◌≡◌, refl, sym, ap, ◌∙◌, inl, inr, Bool, true, false, not, ◌&&◌, Option, some,
  List, arith,
}
use fir_etcd.Raft.State.{is_leader, Raft}
use fir_etcd.Store.{Entry, Db}
use fir_etcd.Kv.{Op, DuplicateType, KvServer, duplicate_of}
use fir_etcd.Kv.Apply.{Applied, is_empty_op, value_at, apply_op, marked, handle_applych_command}
use fir_etcd.Kv.Spec.{Abstract, value_of, decoded_step, op_step}
use fir_etcd.Kv.Loop.{handle_command}
use fir_etcd.Kv.Requests.{
  err_ok, err_cas_failed, PutAppendArgs, op_of, is_cas, answer_again, check_duplicate, replied,
  put_append, poll,
}

-- The operation finds the value that it expects.
abbrev pub finds_value : (db : Db) → KvServer db → Op → Bool
finds_value db kv op = bytes_equal (value_at db kv.store op.key) op.ori_value

module _ (accepts : Bytes → Entry → Bool) (decode_ops : Bytes → Option (List Op)) where
  op_step_result :
      (a b : Abstract) (op : Op)
      → op_step accepts decode_ops a op ≡ some b
      → b.duplicates ≡ (
          if is_cas op.op_type && bytes_equal (value_of a.entries op.key) op.ori_value
          then insert a.duplicates op.client_id (record { offset = op.offset; cas_result = true })
          else a.duplicates)
  unfolding op_step decoded_step
  op_step_result a b op h = ground arith

module _ (db : Db) (decode_ops : Bytes → Option (List Op)) where
  applied_duplicate :
      (kv : KvServer db) (op : Op) (r : Applied db)
      → handle_applych_command db decode_ops kv op ≡ some r
      → is_empty_op op.op_type ≡ false
      → (duplicate_of kv.duplicate_map op.client_id).offset <ℤ op.offset
      → duplicate_of r.0.duplicate_map op.client_id
        ≡ record { offset = op.offset; cas_result = is_cas op.op_type && finds_value db kv op }
  unfolding handle_applych_command
  applied_duplicate kv op r h busy fresh =
      let late : leb_ℤ op.offset (duplicate_of kv.duplicate_map op.client_id).offset ≡ false =
        ground arith in
      let cut : apply_op db decode_ops (marked db decode_ops kv op) op ≡ some r =
        rw (busy, late) at h in
      let result : r.0.duplicate_map ≡ (
          if is_cas op.op_type && finds_value db kv op
          then insert (marked db decode_ops kv op).duplicate_map op.client_id
              (record { offset = op.offset; cas_result = true })
          else (marked db decode_ops kv op).duplicate_map) =
        op_step_result db.accepts decode_ops (abs db decode_ops (marked db decode_ops kv op))
          (abs db decode_ops r.0) op
          (sym (abs-apply_op_of db decode_ops op.op_type (marked db decode_ops kv op) op refl)
            ∙ ap (abs_result db decode_ops) cut) in
      ground (arith, result, ==ℤ_refl op.client_id)

  handle_command_new :
      (kv : KvServer db) (op : Op) (index : ℤ) (r : Applied db)
      → handle_command db decode_ops kv op index ≡ some r
      → kv.last_applied_index <ℤ index
      → (q : Applied db) × (handle_applych_command db decode_ops kv op ≡ some q)
        × (r.0.duplicate_map ≡ q.0.duplicate_map)
        × (r.0.last_applied_index ≡ index)
  unfolding handle_command
  handle_command_new kv op index r h new =
      elim (Option-cases (handle_applych_command db decode_ops kv op)) [
        | inl a ↦ absurd (ground (arith, a))
        | inr (q, a) ↦ (q, a, ground (arith, a), ground (arith, a))
      ]

  -- Once the command of a request with a new offset has been applied at its index, the wait ends
  -- with an answer: ok, or the failure of a compare-and-swap exactly when the store held another
  -- value than expected. The empty operation is left out.
  pub poll-handle_command :
      (rf : Raft) (kv : KvServer db) (args : PutAppendArgs) (index term : ℤ) (r : Applied db)
      → handle_command db decode_ops kv (op_of args) index ≡ some r
      → kv.last_applied_index <ℤ index
      → is_empty_op args.op ≡ false
      → (duplicate_of kv.duplicate_map args.client_id).offset <ℤ args.latest_offset
      → poll db rf r.0 args index term
        ≡ some (
            if is_cas args.op && not (finds_value db kv (op_of args))
            then err_cas_failed
            else err_ok)
  unfolding poll check_duplicate answer_again op_of
  poll-handle_command rf kv args index term r h new busy fresh =
      let (q, a, d, i) = handle_command_new kv (op_of args) index r h new in
      ground (arith, applied_duplicate kv (op_of args) q a busy fresh, d, i)

  -- A leader that has applied a request with a new offset answers any other write of the same
  -- client with the same offset with ok, a compare-and-swap excepted, and does not put it into its
  -- log. The empty operation is left out.
  pub put_append-reused :
      (marshal : Op → Bytes) (rf : Raft) (kv : KvServer db) (args other : PutAppendArgs) (index : ℤ)
      (r : Applied db)
      → handle_command db decode_ops kv (op_of args) index ≡ some r
      → kv.last_applied_index <ℤ index
      → is_empty_op args.op ≡ false
      → (duplicate_of kv.duplicate_map args.client_id).offset <ℤ args.latest_offset
      → is_leader rf.state ≡ true
      → other.client_id ≡ args.client_id
      → other.latest_offset ≡ args.latest_offset
      → is_cas other.op ≡ false
      → put_append db marshal rf r.0 other ≡ (rf, replied err_ok)
  unfolding put_append check_duplicate answer_again op_of
  put_append-reused marshal rf kv args other index r h new busy fresh led client offset plain =
      let (q, a, d, i) = handle_command_new kv (op_of args) index r h new in
      let same : (duplicate_of r.0.duplicate_map other.client_id).offset ≡ other.latest_offset =
        ap (λ c. (duplicate_of r.0.duplicate_map c).offset) client
        ∙ ap (λ m. (duplicate_of m args.client_id).offset) d
        ∙ ap (λ (x : DuplicateType). x.offset) (applied_duplicate kv (op_of args) q a busy fresh)
        ∙ sym offset in
      ground (arith, same)
