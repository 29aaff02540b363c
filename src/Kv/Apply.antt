-- ===== src/Kv/Apply.antt =====
-- HandleApplychCommand of kvraft/server.go: what a committed operation does. `none` is an exit of the
-- process in Fatalf. The operation stands decoded.
use fir_etcd.Prelude.{
  if◌then◌else◌, ◌>>=◌, pos, leb_ℤ, ◌==ℤ◌, Bytes, bytes_equal, int_key, bytes_key, is_some, insert,
  Bool, true, false, Option, none, some, List, [], ◌∷◌, ◌++◌,
}
use fir_etcd.Store.{Entry, Db}
use fir_etcd.Lease.{LeaseManager, attach_key, detach_key}
use fir_etcd.Kv.{
  OpType, put_t, append_t, del_t, del_with_prefix_t, batch_t, cas_t, empty_t, Op, put_event,
  delete_event, WatchEvent, KvServer, duplicate_of,
}

abbrev pub Applied : Db → Type 0
Applied db = KvServer db × List WatchEvent

abbrev pub put_event_of : Bytes → Bytes → WatchEvent
put_event_of key value = record { event_type = put_event; key = key; value = value }

abbrev pub delete_event_of : Bytes → WatchEvent
delete_event_of key = record { event_type = delete_event; key = key; value = [] }

unfoldable pub attach_op : LeaseManager → Op → LeaseManager
attach_op lm op = if op.lease_id ==ℤ pos 0 then lm else attach_key lm op.lease_id op.key

unfoldable pub detach_op : LeaseManager → Op → LeaseManager
detach_op lm op = if op.lease_id ==ℤ pos 0 then lm else detach_key lm op.lease_id op.key

abbrev pub is_empty : Bytes → Bool
is_empty [] = true
is_empty (x ∷ xs) = false

abbrev pub is_empty_op : OpType → Bool
is_empty_op empty_t = true
is_empty_op _ = false

module _ (db : Db) where
  -- A missing key reads as an empty entry.
  abbrev pub value_at : db.Store → Bytes → Bytes
  value_at s k = elim (db.get_entry s k) [ none ↦ [] | some e ↦ e.value ]

  abbrev pub appended : db.Store → Op → Entry
  appended s op = record {
    value = value_at s op.key ++ op.entry.value;
    dead_time = op.entry.dead_time;
  }

  -- A write whose error is not looked at.
  abbrev pub put_or_keep : db.Store → Bytes → Entry → db.Store
  put_or_keep s k e = elim (db.put_entry s k e) [ none ↦ s | some s' ↦ s' ]

  unfoldable pub apply_put : KvServer db → Op → Entry → Option (Applied db)
  unfolding attach_op
  apply_put kv op e = elim (db.put_entry kv.store op.key e) [
    | none ↦ none
    | some s ↦ some (
      record kv { store = s; lease_mgr = attach_op kv.lease_mgr op },
      put_event_of op.key e.value ∷ [],
    )
  ]

  unfoldable pub apply_del : KvServer db → Op → Applied db
  unfolding detach_op
  apply_del kv op = (
    record kv { store = db.del kv.store op.key; lease_mgr = detach_op kv.lease_mgr op },
    if is_some (db.get_entry kv.store op.key) then delete_event_of op.key ∷ [] else [],
  )

  unfoldable pub apply_del_with_prefix : KvServer db → Op → Applied db
  apply_del_with_prefix kv op =
      (record kv { store = db.del_with_prefix kv.store op.key }, delete_event_of op.key ∷ [])

  -- The compare-and-swap: an empty new value deletes.
  unfoldable pub apply_cas : KvServer db → Op → Applied db
  unfolding attach_op detach_op
  apply_cas kv op =
      let swapped =
        insert kv.duplicate_map op.client_id (record { offset = op.offset; cas_result = true }) in
      if bytes_equal (value_at kv.store op.key) op.ori_value
      then if is_empty op.entry.value
        then (
          record kv {
            store = db.del kv.store op.key;
            duplicate_map = swapped;
            lease_mgr = detach_op kv.lease_mgr op;
          },
          delete_event_of op.key ∷ [],
        )
        else (
          record kv {
            store = put_or_keep kv.store op.key op.entry;
            duplicate_map = swapped;
            lease_mgr = attach_op kv.lease_mgr op;
          },
          put_event_of op.key op.entry.value ∷ [],
        )
      else (kv, [])

  -- One operation of a batch. Other types are passed over.
  unfoldable pub apply_in_batch : KvServer db → Op → Applied db
  unfolding attach_op detach_op
  apply_in_batch kv op = elim op.op_type [
    | put_t ↦ (
      record kv {
        store = put_or_keep kv.store op.key op.entry;
        lease_mgr = attach_op kv.lease_mgr op;
      },
      put_event_of op.key op.entry.value ∷ [],
    )
    | append_t ↦ (
      record kv {
        store = put_or_keep kv.store op.key (appended kv.store op);
        lease_mgr = attach_op kv.lease_mgr op;
      },
      put_event_of op.key (appended kv.store op).value ∷ [],
    )
    | del_t ↦ (
      record kv { store = db.del kv.store op.key; lease_mgr = detach_op kv.lease_mgr op },
      delete_event_of op.key ∷ [],
    )
    | del_with_prefix_t ↦
        (record kv { store = db.del_with_prefix kv.store op.key }, delete_event_of op.key ∷ [])
    | _ ↦ (kv, [])
  ]

  unfoldable pub apply_batch : KvServer db → List Op → Applied db
  unfolding apply_in_batch
  apply_batch kv [] = (kv, [])
  apply_batch kv (op ∷ ops) =
      let (kv', events) = apply_in_batch kv op in
      let (kv'', more) = apply_batch kv' ops in (kv'', events ++ more)

  -- A batch whose value does not decode ends the process.
  unfoldable pub apply_decoded : KvServer db → Option (List Op) → Option (Applied db)
  unfolding apply_batch
  apply_decoded kv none = none
  apply_decoded kv (some ops) = some (apply_batch kv ops)

  module _ (decode_ops : Bytes → Option (List Op)) where
    -- The switch over the type of the operation.
    unfoldable pub apply_op : KvServer db → Op → Option (Applied db)
    unfolding apply_put apply_del apply_del_with_prefix apply_cas apply_decoded
    apply_op kv op = elim op.op_type [
      | put_t ↦ apply_put kv op op.entry
      | append_t ↦ apply_put kv op (appended kv.store op)
      | del_t ↦ some (apply_del kv op)
      | del_with_prefix_t ↦ some (apply_del_with_prefix kv op)
      | cas_t ↦ some (apply_cas kv op)
      | batch_t ↦ apply_decoded kv (decode_ops op.entry.value)
      | _ ↦ none
    ]

    abbrev pub marked : KvServer db → Op → KvServer db
    marked kv op = record kv {
      duplicate_map =
          insert kv.duplicate_map op.client_id (record { offset = op.offset; cas_result = false });
    }

    unfoldable pub handle_applych_command : KvServer db → Op → Option (Applied db)
    unfolding apply_op
    handle_applych_command kv op =
        if is_empty_op op.op_type
        then some (kv, [])
        else if leb_ℤ op.offset (duplicate_of kv.duplicate_map op.client_id).offset
        then some (kv, [])
        else apply_op (marked kv op) op

    -- The operations of a log, one after the other.
    unfoldable pub apply_all : KvServer db → List Op → Option (KvServer db)
    unfolding handle_applych_command
    apply_all kv [] = some kv
    apply_all kv (op ∷ ops) = handle_applych_command kv op >>= λ r. apply_all r.0 ops
