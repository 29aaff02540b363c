-- ===== src/Raft/Snapshot.antt =====
-- Snapshot and SnapshotInstall of raft/raft.go.
pub mod Laws
use fir_etcd.Prelude.{
  if◌then◌else◌, ◌>>=◌, drop, ◌-ℤ◌, ℤ, pos, pos_part, ltb_ℤ, leb_ℤ, minus_one, at, ℕ, Option, some,
  [], ◌∷◌, ◌++◌,
}
use fir_etcd.Raft.State.{
  follower, Bytes, SnapshotPath, snapshot_record, Raft, index2_log_pos, write, truncate,
  persist_state, write_snapshot,
}
use fir_etcd.Raft.Recovery.{snapshot_msg}
use fir_etcd.Raft.Leader.{SnapshotInstallArgs}

-- The snapshot file, its record in the log file, and the removal of old log files.
unfoldable pub save_snapshot : Raft → ℤ → ℤ → Bytes → Raft
save_snapshot rf index term content =
    let path : SnapshotPath = record { index = index; term = term } in
    let saved = write_snapshot rf.wal path content in
    let written = write saved (
      snapshot_record
        (record { last_included_index = index; last_included_term = term; path = path })) in
    record rf { wal = truncate written index }

-- Snapshot, on the index that the service counts from one. `none` is an index out of range.
unfoldable pub snapshot : Raft → ℤ → Bytes → Option Raft
unfolding save_snapshot
snapshot rf service_index content =
    let index = service_index -ℤ pos 1 in
    if leb_ℤ index rf.last_include_index
    then some rf
    else (at rf.log (index2_log_pos rf index) >>= λ e.
        let saved = save_snapshot rf index e.term content in
        some (record saved {
          log = drop (pos_part (index -ℤ rf.last_include_index)) rf.log;
          last_include_index = index;
          last_include_term = e.term;
        }))

-- The part of SnapshotInstall that looks at the term.
unfoldable pub hear_snapshot : Raft → SnapshotInstallArgs → ℕ → Raft
hear_snapshot rf args now =
    let later =
      if ltb_ℤ rf.current_term args.term
      then persist_state
          (record rf { current_term = args.term; state = follower; voted_for = minus_one })
      else rf in
    record later { leader_id = args.leader_id; last_hear_beat_time = now }

-- The part that replaces the log by the snapshot and sends it to the state machine.
unfoldable pub install : Raft → SnapshotInstallArgs → Raft
unfolding save_snapshot
install rf args =
    let index = args.last_include_index in
    let saved = save_snapshot rf index args.last_include_term args.content in
    record saved {
      last_include_index = index;
      last_include_term = args.last_include_term;
      log = [];
      last_applied = if ltb_ℤ rf.last_applied index then index else rf.last_applied;
      commit_index = if ltb_ℤ rf.commit_index index then index else rf.commit_index;
      apply_ch_term =
          rf.apply_ch_term ++ snapshot_msg index args.last_include_term args.content ∷ [];
    }

-- SnapshotInstall, with the term of the reply.
unfoldable pub snapshot_install : Raft → SnapshotInstallArgs → ℕ → Raft × ℤ
unfolding hear_snapshot install
snapshot_install rf args now =
    let heard = hear_snapshot rf args now in
    if ltb_ℤ args.term rf.current_term
    then (rf, rf.current_term)
    else if leb_ℤ args.last_include_index heard.last_include_index
    then (heard, rf.current_term)
    else (install heard args, rf.current_term)
