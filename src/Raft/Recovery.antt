-- ===== src/Raft/Recovery.antt =====
-- Make and loadFromWAL of raft/raft.go, as far as they build the peer's state.
pub mod Laws
use mathlib.Core.Option
use fir_etcd.Prelude.{
  ◌>>=◌, ◌>>◌, replicate, ◌+ℤ◌, ℤ, pos, minus_one, ℕ, ◌≡◌, true, false, Option, none, some, List,
  [], ◌∷◌, ◌++◌, map,
}
use fir_etcd.Raft.State.{
  follower, Bytes, LogType, ApplyMsg, WalRecord, state_record, entry_record, snapshot_record,
  Journal, Raft, read_snapshot,
}

-- The fields that Make sets before it reads the log.
unfoldable pub initial : ℕ → ℕ → Journal → Raft
initial me peers w = record {
  me = me;
  peers = peers;
  state = follower;
  current_term = pos 0;
  voted_for = minus_one;
  log = [];
  last_include_index = minus_one;
  last_include_term = minus_one;
  commit_index = minus_one;
  last_applied = minus_one;
  next_index = [];
  match_index = [];
  last_hear_beat_time = 0;
  last_send_heartbeat_time = 0;
  leader_id = minus_one;
  apply_ch = none;
  apply_ch_term = [];
  iis_back = false;
  iis_back_index = pos 0;
  wal = w;
}

unfoldable pub snapshot_msg : ℤ → ℤ → Bytes → ApplyMsg
snapshot_msg index term content = record {
  command_valid = false;
  command = [];
  command_index = pos 0;
  snapshot_valid = true;
  snapshot = content;
  snapshot_term = term;
  snapshot_index = index +ℤ pos 1;
}

-- A send on `applyCh`: on the nil channel it blocks for ever.
unfoldable pub send_apply_ch : Raft → ApplyMsg → Option Raft
send_apply_ch rf msg = elim rf.apply_ch [
  | none ↦ none
  | some sent ↦ some (record rf { apply_ch = some (sent ++ msg ∷ []) })
]

-- One record of the log. `none` is a panic (a snapshot file that is missing) or a send that blocks.
unfoldable pub load_record : Raft → WalRecord → Option Raft
unfolding snapshot_msg send_apply_ch
load_record rf (state_record s) =
    some (record rf { current_term = s.term; voted_for = s.voted_for })
load_record rf (entry_record e) = some (record rf { log = rf.log ++ e ∷ [] })
load_record rf (snapshot_record s) = do
  let base = record rf {
    last_include_index = s.last_included_index;
    last_include_term = s.last_included_term;
    log = [];
  }
  content ← read_snapshot base.wal.snapshots s.path
  sent ← send_apply_ch base (snapshot_msg base.last_include_index base.last_include_term content)
  some (record sent { last_applied = s.last_included_index; commit_index = s.last_included_index })

unfoldable pub load_from_wal : Raft → List WalRecord → Option Raft
load_from_wal rf [] = some rf
load_from_wal rf (r ∷ rs) = load_record rf r >>= λ rf'. load_from_wal rf' rs

-- Make: `peers` is still empty where the loop over it sets the leader's indices, so they stay zero.
unfoldable pub make : ℕ → ℕ → Journal → ℕ → Option Raft
unfolding initial
make me peers w now = do
  rf ← load_from_wal (initial me peers w) w.records
  some (record rf {
    next_index = replicate peers (pos 0);
    match_index = replicate peers (pos 0);
    last_hear_beat_time = now;
    last_send_heartbeat_time = now;
    apply_ch = some [];
  })

-- What has to survive a crash.
pub record Durable : Type 0 where
  pub current_term : ℤ
  pub voted_for : ℤ
  pub log : List LogType
  pub last_include_index : ℤ
  pub last_include_term : ℤ

abbrev pub durable : Raft → Durable
durable rf = record {
  current_term = rf.current_term;
  voted_for = rf.voted_for;
  log = rf.log;
  last_include_index = rf.last_include_index;
  last_include_term = rf.last_include_term;
}

-- The state of a peer that has never run.
abbrev pub blank : Durable
blank = record {
  current_term = pos 0;
  voted_for = minus_one;
  log = [];
  last_include_index = minus_one;
  last_include_term = minus_one;
}

-- A restart of the peer from its directory.
unfoldable pub restart : Raft → Option Raft
restart rf = make rf.me rf.peers rf.wal 0

abbrev pub recovered : Raft → Option Durable
recovered rf = Option.map durable (restart rf)

-- A restart finds the durable state that the peer has in memory.
pub record Recovers (rf : Raft) : Type 0 where
  pub linked : rf.wal.linked ≡ true
  pub same : recovered rf ≡ some (durable rf)
