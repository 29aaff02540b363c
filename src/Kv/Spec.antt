-- ===== src/Kv/Spec.antt =====
-- The server as a map from keys to entries with the last request of each client.
pub mod Refines
use fir_etcd.Prelude.{
  if◌then◌else◌, ◌>>=◌, ℤ, leb_ℤ, offset, Bytes, bytes_equal, has_prefix, int_key, bytes_key, Map,
  insert, Bool, true, false, Option, none, some, List, [], ◌∷◌, ◌++◌,
}
use fir_etcd.Store.{Entry}
use fir_etcd.Kv.{
  put_t, append_t, del_t, del_with_prefix_t, batch_t, cas_t, Op, DuplicateType, duplicate_of,
}
use fir_etcd.Kv.Apply.{is_empty, is_empty_op}

abbrev pub Entries : Type 0
Entries = Bytes → Option Entry

pub record Abstract : Type 0 where
  pub entries : Entries
  pub duplicates : Map ℤ DuplicateType

abbrev pub set_key : Entries → Bytes → Entry → Entries
set_key m k e j = if bytes_equal k j then some e else m j

abbrev pub unset_key : Entries → Bytes → Entries
unset_key m k j = if bytes_equal k j then none else m j

abbrev pub unset_prefix : Entries → Bytes → Entries
unset_prefix m p j = if has_prefix j p then none else m j

abbrev pub value_of : Entries → Bytes → Bytes
value_of m k = elim (m k) [ none ↦ [] | some e ↦ e.value ]

abbrev pub appended_to : Entries → Op → Entry
appended_to m op = record {
  value = value_of m op.key ++ op.entry.value;
  dead_time = op.entry.dead_time;
}

-- `accepts` tells the pairs that the database takes.
module _ (accepts : Bytes → Entry → Bool) (decode_ops : Bytes → Option (List Op)) where
  abbrev pub try_set : Entries → Bytes → Entry → Entries
  try_set m k e = if accepts k e then set_key m k e else m

  unfoldable pub batch_step : Entries → Op → Entries
  batch_step m op = elim op.op_type [
    | put_t ↦ try_set m op.key op.entry
    | append_t ↦ try_set m op.key (appended_to m op)
    | del_t ↦ unset_key m op.key
    | del_with_prefix_t ↦ unset_prefix m op.key
    | _ ↦ m
  ]

  unfoldable pub batch_steps : Entries → List Op → Entries
  unfolding batch_step
  batch_steps m [] = m
  batch_steps m (op ∷ ops) = batch_steps (batch_step m op) ops

  abbrev pub put_step : Abstract → Bytes → Entry → Option Abstract
  put_step a k e = if accepts k e then some (record a { entries = set_key a.entries k e }) else none

  abbrev pub cas_step : Abstract → Op → Abstract
  cas_step a op =
      if bytes_equal (value_of a.entries op.key) op.ori_value
      then record {
        entries =
            if is_empty op.entry.value
            then unset_key a.entries op.key
            else try_set a.entries op.key op.entry;
        duplicates =
            insert a.duplicates op.client_id (record { offset = op.offset; cas_result = true });
      }
      else a

  unfoldable pub decoded_step : Abstract → Option (List Op) → Option Abstract
  unfolding batch_steps
  decoded_step a none = none
  decoded_step a (some ops) = some (record a { entries = batch_steps a.entries ops })

  unfoldable pub op_step : Abstract → Op → Option Abstract
  unfolding decoded_step
  op_step a op = elim op.op_type [
    | put_t ↦ put_step a op.key op.entry
    | append_t ↦ put_step a op.key (appended_to a.entries op)
    | del_t ↦ some (record a { entries = unset_key a.entries op.key })
    | del_with_prefix_t ↦ some (record a { entries = unset_prefix a.entries op.key })
    | cas_t ↦ some (cas_step a op)
    | batch_t ↦ decoded_step a (decode_ops op.entry.value)
    | _ ↦ none
  ]

  -- An operation counts once: those with an offset that the client has reached change nothing.
  unfoldable pub step : Abstract → Op → Option Abstract
  unfolding op_step
  step a op =
      if is_empty_op op.op_type
      then some a
      else if leb_ℤ op.offset (duplicate_of a.duplicates op.client_id).offset
      then some a
      else op_step
          (record a {
            duplicates =
                insert a.duplicates op.client_id
                  (record { offset = op.offset; cas_result = false });
          })
          op

  unfoldable pub steps : Abstract → List Op → Option Abstract
  unfolding step
  steps a [] = some a
  steps a (op ∷ ops) = step a op >>= λ b. steps b ops
