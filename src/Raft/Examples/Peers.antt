-- ===== src/Raft/Examples/Peers.antt =====
-- Concrete peers of a cluster of three.
use fir_etcd.Prelude.{ℤ, pos, minus_one, ℕ, true, false, some, [], ◌∷◌}
use fir_etcd.Raft.State.{follower, candidate, leader, LogType, Journal, Raft}
use fir_etcd.Raft.Vote.{RequestVoteArgs}
use fir_etcd.Raft.Append.{AppendEntriesArgs}

abbrev pub entry : ℤ → ℕ → LogType
entry t v = record { term = t; value = v ∷ [] }

abbrev pub empty_wal : Journal
empty_wal = record { seq = 1; linked = true; records = []; snapshots = [] }

-- A follower of term 2 whose log holds entries of the terms 1, 1 and 2 above the empty snapshot.
abbrev pub peer : Raft
peer = record {
  me = 0;
  peers = 3;
  state = follower;
  current_term = pos 2;
  voted_for = minus_one;
  log = entry (pos 1) 7 ∷ entry (pos 1) 8 ∷ entry (pos 2) 9 ∷ [];
  last_include_index = minus_one;
  last_include_term = minus_one;
  commit_index = pos 0;
  last_applied = pos 0;
  next_index = pos 3 ∷ pos 3 ∷ pos 3 ∷ [];
  match_index = minus_one ∷ pos 2 ∷ pos 1 ∷ [];
  last_hear_beat_time = 0;
  last_send_heartbeat_time = 0;
  leader_id = pos 1;
  apply_ch = some [];
  apply_ch_term = [];
  iis_back = false;
  iis_back_index = pos 0;
  wal = empty_wal;
}

abbrev pub chief : Raft
chief = record peer { state = leader; voted_for = pos 0 }

abbrev pub hopeful : Raft
hopeful = record peer { state = candidate; voted_for = pos 0 }

abbrev pub call : AppendEntriesArgs
call = record {
  term = pos 3;
  leader_id = pos 2;
  prev_log_index = pos 1;
  prev_log_term = pos 1;
  entries = entry (pos 3) 4 ∷ entry (pos 3) 5 ∷ [];
  leader_commit = pos 2;
}

abbrev pub request : RequestVoteArgs
request = record {
  term = pos 3;
  candidate_id = pos 2;
  last_log_index = pos 2;
  last_log_term = pos 2;
}
