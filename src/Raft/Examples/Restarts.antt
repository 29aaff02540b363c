-- ===== src/Raft/Examples/Restarts.antt =====
-- What a restart finds.
use fir_etcd.Prelude.{
  ◌+ℤ◌, ◌-ℤ◌, ℤ, pos, minus_one, ◌≡◌, refl, none, some, List, [], ◌∷◌, ◌++◌, map, arith,
}
use fir_etcd.Raft.State.{
  LogType, state_record, entry_record, Raft, last_index, index2_log_pos, write, truncate,
  persist_entry, write_snapshot,
}
use fir_etcd.Raft.Vote.{request_vote}
use fir_etcd.Raft.Vote.Laws.{request_vote-Recovers}
use fir_etcd.Raft.Recovery.{
  initial, load_record, load_from_wal, make, blank, restart, recovered, Recovers,
}
use fir_etcd.Raft.Append.{copy_entry, copy_entries}
use fir_etcd.Raft.Append.Merge.{conflict}
use fir_etcd.Raft.Append.Replay.{copy_entries-Recovers, copy_entries-loses}
use fir_etcd.Raft.Snapshot.{save_snapshot, snapshot}
use fir_etcd.Raft.Snapshot.Laws.{SameAbove, snapshot-SameAbove, recovered-snapshot}
use fir_etcd.Raft.Examples.Peers.{entry, empty_wal, peer, call, request}

-- The peer of the examples with a log file that holds its state.
abbrev stored : Raft
stored = record peer {
  wal = record empty_wal {
    records =
        map entry_record peer.log
        ++ state_record (record { term = pos 2; voted_for = minus_one }) ∷ [];
  };
}

stored-Recovers : Recovers stored
unfolding restart make load_from_wal load_record initial
stored-Recovers = record { linked = refl; same = refl }

request_vote-Recovers_example : Recovers (request_vote stored request 5).0
request_vote-Recovers_example = request_vote-Recovers stored request 5 stored-Recovers

abbrev copied : ℤ → List LogType → Raft
copied prev es = elim (copy_entries stored (prev +ℤ pos 1) es) [ none ↦ stored | some rf ↦ rf ]

abbrev agreeing : List LogType
agreeing = entry (pos 2) 9 ∷ entry (pos 2) 5 ∷ []

copy_entries-Recovers_example : Recovers (copied (pos 1) agreeing)
unfolding copy_entries copy_entry persist_entry write last_index index2_log_pos conflict ◌+ℤ◌ ◌-ℤ◌
copy_entries-Recovers_example =
    copy_entries-Recovers stored (copied (pos 1) agreeing) (pos 1) agreeing (omega arith)
      (omega arith) stored-Recovers refl refl

copy_entries-loses_example : ¬ Recovers (copied (pos 1) call.entries)
unfolding copy_entries copy_entry persist_entry write last_index index2_log_pos conflict ◌+ℤ◌ ◌-ℤ◌
copy_entries-loses_example =
    copy_entries-loses stored (copied (pos 1) call.entries) (pos 1) call.entries (omega arith)
      (omega arith) stored-Recovers refl refl

abbrev shortened : Raft
shortened = elim (snapshot stored (pos 2) (5 ∷ [])) [ none ↦ stored | some rf ↦ rf ]

snapshot-SameAbove_example : SameAbove stored shortened
unfolding snapshot save_snapshot write_snapshot write truncate index2_log_pos ◌+ℤ◌ ◌-ℤ◌
snapshot-SameAbove_example = snapshot-SameAbove stored shortened (pos 2) (5 ∷ []) refl

recovered-snapshot_example : recovered shortened ≡ some blank
unfolding snapshot save_snapshot write_snapshot write truncate index2_log_pos ◌+ℤ◌ ◌-ℤ◌
recovered-snapshot_example =
    recovered-snapshot stored shortened (pos 2) (5 ∷ []) refl (omega arith) (omega arith)
