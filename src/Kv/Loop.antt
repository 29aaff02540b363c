-- ===== src/Kv/Loop.antt =====
-- The loop HandleApplych of kvraft/server.go, with its snapshots.
pub mod Snapshots
use fir_etcd.Prelude.{
  if◌then◌else◌, ◌>>=◌, ◌>>◌, ℤ, ltb_ℤ, ◌==ℤ◌, minus_one, Bytes, Map, Option, none, some, List, [],
  ◌∷◌,
}
use fir_etcd.Store.{Db}
use fir_etcd.Kv.{Op, DuplicateType, WatchEvent, KvServer}
use fir_etcd.Kv.Apply.{Applied, handle_applych_command}

-- What the bytes of a snapshot are made of: `encode` writes the table of requests and the data of the
-- database with gob (`none` is the Fatalf of an error), `decode` reads them (`none` as well),
-- `snapshot_data` is SnapshotData of the database, and `install` is what a new database holds after
-- InstallSnapshotData, whose error is passed over.
pub record SnapshotCodec (db : Db) : Type 0 where
  pub encode : Map ℤ DuplicateType → Bytes → Option Bytes
  pub decode : Bytes → Option (Map ℤ DuplicateType × Bytes)
  pub snapshot_data : db.Store → Option Bytes
  pub install : Bytes → db.Store

-- A raft.ApplyMsg with its command decoded, or the bytes of its snapshot.
pub data Message : Type 0 where
  command : Op → ℤ → Message
  snapshot : Bytes → ℤ → Message
  neither : Message

-- One turn: the server, the events for the watchers, and the snapshot handed to raft.Snapshot.
pub record Turn (db : Db) : Type 0 where
  pub server : KvServer db
  pub events : List WatchEvent
  pub taken : Option (ℤ × Bytes)

module _ (db : Db) (codec : SnapshotCodec db) where
  unfoldable pub read_persist : KvServer db → Bytes → Option (KvServer db)
  read_persist kv [] = some kv
  read_persist kv (b ∷ bytes) = do
    r ← codec.decode (b ∷ bytes)
    some (record kv { store = codec.install r.1; duplicate_map = r.0 })

  unfoldable pub handle_applych_snapshot : KvServer db → Bytes → ℤ → Option (KvServer db)
  unfolding read_persist
  handle_applych_snapshot kv bytes index =
      let installed =
        read_persist kv bytes >>= λ kv'. some (record kv' { last_applied_index = index }) in
      if ltb_ℤ index kv.last_applied_index then some kv else installed

  -- `size` is GetRaftStateSize, the size of the log file. The outer `none` is an exit.
  unfoldable pub check_if_need_snapshot :
      KvServer db → (max_raft_state size index : ℤ) → Option (Option (ℤ × Bytes))
  check_if_need_snapshot kv max_raft_state size index =
      let taken = codec.snapshot_data kv.store >>= λ copy.
      codec.encode kv.duplicate_map copy >>= λ bytes. some (some (index, bytes)) in
      if max_raft_state ==ℤ minus_one
      then some none
      else if ltb_ℤ size max_raft_state
      then some none
      else taken

module _ (db : Db) (decode_ops : Bytes → Option (List Op)) where
  -- A command that was applied before is passed over.
  unfoldable pub handle_command : KvServer db → Op → ℤ → Option (Applied db)
  handle_command kv op index =
      if ltb_ℤ kv.last_applied_index index
      then (do
        r ← handle_applych_command db decode_ops kv op
        some (record r.0 { last_applied_index = index }, r.1))
      else some (kv, [])

  unfoldable pub handle_applych :
      SnapshotCodec db → (max_raft_state size : ℤ) → KvServer db → Message → Option (Turn db)
  unfolding handle_command check_if_need_snapshot handle_applych_snapshot
  handle_applych codec max_raft_state size kv (command op index) = do
    r ← handle_command kv op index
    taken ← check_if_need_snapshot db codec r.0 max_raft_state size index
    some (record { server = r.0; events = r.1; taken = taken })
  handle_applych codec max_raft_state size kv (snapshot bytes index) = do
    kv' ← handle_applych_snapshot db codec kv bytes index
    some (record { server = kv'; events = []; taken = none })
  handle_applych codec max_raft_state size kv neither = none
