-- ===== src/Kv/Spec/Refines.antt =====
-- The server of kvraft/server.go seen as the map of Kv.Spec.
use fir_etcd.Prelude.{
  Bool-cases, Option-cases, leb_ℤ, Bytes, bytes_equal, is_some, ◌≡◌, refl, sym, ap, ap₂, ◌∙◌,
  fun_ext, ◌⊎◌, inl, inr, true, false, Option, none, some, List, [], ◌∷◌, arith,
}
use fir_etcd.Store.{Entry, Db}
use fir_etcd.Kv.{
  OpType, get_t, put_t, append_t, del_t, del_with_prefix_t, batch_t, cas_t, empty_t, get_keys,
  get_kvs, unknown, Op, KvServer, duplicate_of,
}
use fir_etcd.Kv.Apply.{
  Applied, is_empty, is_empty_op, value_at, appended, put_or_keep, apply_put, apply_del,
  apply_del_with_prefix, apply_cas, apply_in_batch, apply_batch, apply_decoded, apply_op, marked,
  handle_applych_command, apply_all,
}
use fir_etcd.Kv.Spec.{
  Entries, Abstract, set_key, unset_key, unset_prefix, try_set, batch_step, batch_steps, put_step,
  cas_step, decoded_step, op_step, step, steps,
}

module _ (db : Db) (decode_ops : Bytes → Option (List Op)) where
  abbrev pub view : db.Store → Entries
  view s = λ k. db.get_entry s k

  abbrev pub abs : KvServer db → Abstract
  abs kv = record { entries = view kv.store; duplicates = kv.duplicate_map }

  view-put :
      (s s' : db.Store) (k : Bytes) (e : Entry)
      → db.put_entry s k e ≡ some s'
      → view s' ≡ set_key (view s) k e
  view-put s s' k e h = fun_ext (λ j. db.get-put s s' k j e h)

  view-del : (s : db.Store) (k : Bytes) → view (db.del s k) ≡ unset_key (view s) k
  view-del s k = fun_ext (db.get-del s k)

  view-del_with_prefix :
      (s : db.Store) (p : Bytes) → view (db.del_with_prefix s p) ≡ unset_prefix (view s) p
  view-del_with_prefix s p = fun_ext (db.get-del_with_prefix s p)

  put_cases :
      (s : db.Store) (k : Bytes) (e : Entry)
      → ((db.put_entry s k e ≡ none) × (db.accepts k e ≡ false))
        ⊎ ((s' : db.Store) × (db.put_entry s k e ≡ some s') × (db.accepts k e ≡ true))
  put_cases s k e = elim (Option-cases (db.put_entry s k e)) [
    | inl a ↦ inl (a, sym (db.accepts-put s k e) ∙ ap is_some a)
    | inr (s', a) ↦ inr (s', a, sym (db.accepts-put s k e) ∙ ap is_some a)
  ]

  view-put_or_keep :
      (s : db.Store) (k : Bytes) (e : Entry)
      → view (put_or_keep db s k e) ≡ try_set db.accepts decode_ops (view s) k e
  view-put_or_keep s k e = elim (put_cases s k e) [
    | inl (a, b) ↦ rw (a, b, try_set, put_or_keep) refl
    | inr (s', a, b) ↦ rw (a, b, try_set, put_or_keep) (view-put s s' k e a)
  ]

  view-in_batch_of :
      (t : OpType) (kv : KvServer db) (op : Op)
      → op.op_type ≡ t
      → view (apply_in_batch db kv op).0.store ≡ batch_step db.accepts decode_ops (view kv.store) op
  unfolding apply_in_batch batch_step
  view-in_batch_of put_t kv op e = rw e (view-put_or_keep kv.store op.key op.entry)
  view-in_batch_of append_t kv op e =
      rw e (view-put_or_keep kv.store op.key (appended db kv.store op))
  view-in_batch_of del_t kv op e = rw e (view-del kv.store op.key)
  view-in_batch_of del_with_prefix_t kv op e = rw e (view-del_with_prefix kv.store op.key)
  view-in_batch_of get_t kv op e = rw e refl
  view-in_batch_of batch_t kv op e = rw e refl
  view-in_batch_of cas_t kv op e = rw e refl
  view-in_batch_of empty_t kv op e = rw e refl
  view-in_batch_of get_keys kv op e = rw e refl
  view-in_batch_of get_kvs kv op e = rw e refl
  view-in_batch_of (unknown n) kv op e = rw e refl

  duplicates_in_batch :
      (kv : KvServer db) (op : Op) → (apply_in_batch db kv op).0.duplicate_map ≡ kv.duplicate_map
  unfolding apply_in_batch
  duplicates_in_batch kv op = ground arith

  view-apply_batch :
      (kv : KvServer db) (ops : List Op)
      → view (apply_batch db kv ops).0.store ≡ batch_steps db.accepts decode_ops (view kv.store) ops
  unfolding apply_batch batch_steps
  view-apply_batch kv [] = refl
  view-apply_batch kv (op ∷ ops) =
      view-apply_batch (apply_in_batch db kv op).0 ops
      ∙ ap (λ m. batch_steps db.accepts decode_ops m ops) (view-in_batch_of op.op_type kv op refl)

  duplicates_batch :
      (kv : KvServer db) (ops : List Op)
      → (apply_batch db kv ops).0.duplicate_map ≡ kv.duplicate_map
  unfolding apply_batch
  duplicates_batch kv [] = refl
  duplicates_batch kv (op ∷ ops) =
      duplicates_batch (apply_in_batch db kv op).0 ops ∙ duplicates_in_batch kv op

  -- The server behind the result of an operation.
  abbrev pub abs_result : Option (Applied db) → Option Abstract
  abs_result none = none
  abs_result (some r) = some (abs r.0)

  pub abs_eq : (a b : Abstract) → a.entries ≡ b.entries → a.duplicates ≡ b.duplicates → a ≡ b
  abs_eq a b e f = ap₂ (λ m d. record { entries = m; duplicates = d }) e f

  abs-apply_put :
      (kv : KvServer db) (op : Op) (e : Entry)
      → abs_result (apply_put db kv op e) ≡ put_step db.accepts decode_ops (abs kv) op.key e
  unfolding apply_put
  abs-apply_put kv op e = elim (put_cases kv.store op.key e) [
    | inl (a, b) ↦ rw (a, b, put_step, apply_put) refl
    | inr (s, a, b) ↦
        rw (a, b, put_step, apply_put) (ap some (abs_eq _ _ (view-put kv.store s op.key e a) refl))
  ]

  abs-apply_cas :
      (kv : KvServer db) (op : Op)
      → abs (apply_cas db kv op).0 ≡ cas_step db.accepts decode_ops (abs kv) op
  unfolding apply_cas
  abs-apply_cas kv op = elim (Bool-cases (bytes_equal (value_at db kv.store op.key) op.ori_value)) [
    | inl a ↦ elim (Bool-cases (is_empty op.entry.value)) [
      | inl b ↦ rw (a, b) (abs_eq _ _ (view-del kv.store op.key) refl)
      | inr b ↦ rw (a, b) (abs_eq _ _ (view-put_or_keep kv.store op.key op.entry) refl)
    ]
    | inr a ↦ rw a refl
  ]

  abs-apply_decoded :
      (kv : KvServer db) (o : Option (List Op))
      → abs_result (apply_decoded db kv o) ≡ decoded_step db.accepts decode_ops (abs kv) o
  unfolding apply_decoded decoded_step
  abs-apply_decoded kv none = refl
  abs-apply_decoded kv (some ops) =
      ap some (abs_eq _ _ (view-apply_batch kv ops) (duplicates_batch kv ops))

  pub abs-apply_op_of :
      (t : OpType) (kv : KvServer db) (op : Op)
      → op.op_type ≡ t
      → abs_result (apply_op db decode_ops kv op) ≡ op_step db.accepts decode_ops (abs kv) op
  unfolding apply_op op_step apply_del apply_del_with_prefix
  abs-apply_op_of put_t kv op e = rw e (abs-apply_put kv op op.entry)
  abs-apply_op_of append_t kv op e = rw e (abs-apply_put kv op (appended db kv.store op))
  abs-apply_op_of del_t kv op e = rw e (ap some (abs_eq _ _ (view-del kv.store op.key) refl))
  abs-apply_op_of del_with_prefix_t kv op e =
      rw e (ap some (abs_eq _ _ (view-del_with_prefix kv.store op.key) refl))
  abs-apply_op_of cas_t kv op e = rw e (ap some (abs-apply_cas kv op))
  abs-apply_op_of batch_t kv op e = rw e (abs-apply_decoded kv (decode_ops op.entry.value))
  abs-apply_op_of get_t kv op e = rw e refl
  abs-apply_op_of empty_t kv op e = rw e refl
  abs-apply_op_of get_keys kv op e = rw e refl
  abs-apply_op_of get_kvs kv op e = rw e refl
  abs-apply_op_of (unknown n) kv op e = rw e refl

  abs-handle :
      (kv : KvServer db) (op : Op)
      → abs_result (handle_applych_command db decode_ops kv op)
        ≡ step db.accepts decode_ops (abs kv) op
  unfolding handle_applych_command step
  abs-handle kv op = elim (Bool-cases (is_empty_op op.op_type)) [
    | inl a ↦ rw a refl
    | inr a ↦
        elim (Bool-cases (leb_ℤ op.offset (duplicate_of kv.duplicate_map op.client_id).offset)) [
          | inl b ↦ rw (a, b) refl
          | inr b ↦ rw (a, b) (abs-apply_op_of op.op_type (marked db decode_ops kv op) op refl)
        ]
  ]

  abbrev pub abs_server : Option (KvServer db) → Option Abstract
  abs_server none = none
  abs_server (some kv) = some (abs kv)

  -- Applying the operations of a log to the server gives the map that the specification gives, or
  -- exits where the specification does: deletions by prefix, compare-and-swaps, batches and repeated
  -- requests included.
  pub apply_all-Refines :
      (kv : KvServer db) (ops : List Op)
      → abs_server (apply_all db decode_ops kv ops) ≡ steps db.accepts decode_ops (abs kv) ops
  unfolding apply_all steps
  apply_all-Refines kv [] = refl
  apply_all-Refines kv (op ∷ ops) =
      elim (Option-cases (handle_applych_command db decode_ops kv op)) [
        | inl a ↦ rw (a, sym (abs-handle kv op) ∙ ap abs_result a) refl
        | inr (r, a) ↦ rw (a, sym (abs-handle kv op) ∙ ap abs_result a) (apply_all-Refines r.0 ops)
      ]
