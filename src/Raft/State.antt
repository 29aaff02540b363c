-- ===== src/Raft/State.antt =====
-- The state of one Raft peer: the types of raft/raft.go and of the messages that it handles.
pub use fir_etcd.Prelude.{Bytes}
use fir_etcd.Prelude.{
  if◌then◌else◌, length, get_elem?_lt, ◌+ℤ◌, ◌-ℤ◌, ℤ, pos, pos_part, neg_part, ◌≤ℤ◌, ◌<ℤ◌, leb_ℤ,
  ◌==ℤ◌, at, +ℤ_parts, int_laws, ℕ, suc, ◌+◌, ◌-◌, ◌≤◌, ◌≡◌, refl, ap, ◌∙◌, ◌⊎◌, inl, inr, Bool,
  true, false, ◌&&◌, Option, none, some, List, [], ◌∷◌, ◌++◌,
}

-- follower, candidate, leader
pub data Role : Type 0 where
  follower candidate leader : Role

abbrev pub is_leader : Role → Bool
is_leader leader = true
is_leader _ = false

abbrev pub is_candidate : Role → Bool
is_candidate candidate = true
is_candidate _ = false

abbrev pub is_follower : Role → Bool
is_follower follower = true
is_follower _ = false

-- pb.LogType
pub record LogType : Type 0 where
  pub term : ℤ
  pub value : Bytes

pub record ApplyMsg : Type 0 where
  pub command_valid : Bool
  pub command : Bytes
  pub command_index : ℤ
  pub snapshot_valid : Bool
  pub snapshot : Bytes
  pub snapshot_term : ℤ
  pub snapshot_index : ℤ

pub record RaftStateRecord : Type 0 where
  pub term : ℤ
  pub voted_for : ℤ

-- The name `snapshot-%d-%d.dat`: its index and its term.
pub record SnapshotPath : Type 0 where
  pub index : ℤ
  pub term : ℤ

pub record SnapshotRecord : Type 0 where
  pub last_included_index : ℤ
  pub last_included_term : ℤ
  pub path : SnapshotPath

-- A record of the write-ahead log, decoded: the type byte chooses the constructor.
pub data WalRecord : Type 0 where
  state_record : RaftStateRecord → WalRecord
  entry_record : LogType → WalRecord
  snapshot_record : SnapshotRecord → WalRecord

-- The directory of the write-ahead log as the peer sees it, with its snapshot files. The open file has the number `seq`; once `Truncate` has
-- removed that file, what is written goes to a file that no directory lists any more.
pub record Journal : Type 0 where
  pub seq : ℕ
  pub linked : Bool
  pub records : List WalRecord
  pub snapshots : List (SnapshotPath × Bytes)

-- `apply_ch` is `none` while the field holds the nil channel, on which a send never returns; a
-- channel is the list of what was sent on it.
pub record Raft : Type 0 where
  pub me : ℕ
  pub peers : ℕ
  pub state : Role
  pub current_term : ℤ
  pub voted_for : ℤ
  pub log : List LogType
  pub last_include_index : ℤ
  pub last_include_term : ℤ
  pub commit_index : ℤ
  pub last_applied : ℤ
  pub next_index : List ℤ
  pub match_index : List ℤ
  pub last_hear_beat_time : ℕ
  pub last_send_heartbeat_time : ℕ
  pub leader_id : ℤ
  pub apply_ch : Option (List ApplyMsg)
  pub apply_ch_term : List ApplyMsg
  pub iis_back : Bool
  pub iis_back_index : ℤ
  pub wal : Journal

unfoldable pub last_index : Raft → ℤ
last_index rf = rf.last_include_index +ℤ pos (length rf.log)

-- The last element of a slice, with the value for an empty one.
unfoldable pub last_term_of : ℤ → List LogType → ℤ
last_term_of t [] = t
last_term_of t (e ∷ es) = last_term_of e.term es

unfoldable pub last_term : Raft → ℤ
unfolding last_term_of
last_term rf = last_term_of rf.last_include_term rf.log

unfoldable pub index2_log_pos : Raft → ℤ → ℤ
index2_log_pos rf index = index -ℤ rf.last_include_index -ℤ pos 1

unfoldable pub get_state : Raft → ℤ × Bool
get_state rf = (rf.current_term, is_leader rf.state)

unfoldable pub get_commit_index : Raft → ℤ
get_commit_index rf = rf.commit_index +ℤ pos 1

-- wal.Write: the open file keeps the record, and the directory shows it while the file is linked.
unfoldable pub write : Journal → WalRecord → Journal
write w r = if w.linked then record w { records = w.records ++ r ∷ [] } else w

-- wal.Truncate: the only file is the open one, of number `seq`.
unfoldable pub truncate : Journal → ℤ → Journal
truncate w last_index =
    if leb_ℤ (pos w.seq) last_index then record w { linked = false; records = [] } else w

unfoldable pub persist_state : Raft → Raft
unfolding write
persist_state rf = record rf {
  wal = write rf.wal (state_record (record { term = rf.current_term; voted_for = rf.voted_for }));
}

unfoldable pub persist_entry : Raft → LogType → Raft
unfolding write
persist_entry rf entry = record rf { wal = write rf.wal (entry_record entry) }

-- os.WriteFile of a snapshot: an older file of that name is hidden.
unfoldable pub write_snapshot : Journal → SnapshotPath → Bytes → Journal
write_snapshot w path content = record w { snapshots = (path, content) ∷ w.snapshots }

path_eq : SnapshotPath → SnapshotPath → Bool
path_eq p q = (p.index ==ℤ q.index) && (p.term ==ℤ q.term)

-- os.ReadFile of a snapshot; `none` is the error of a missing file.
unfoldable pub read_snapshot : List (SnapshotPath × Bytes) → SnapshotPath → Option Bytes
unfolding path_eq
read_snapshot [] path = none
read_snapshot ((p, content) ∷ files) path =
    if path_eq p path then some content else read_snapshot files path

-- The position of an index above the snapshot.
pub index2_log_pos_above :
    (rf : Raft) (index : ℤ) (k : ℕ)
    → index ≡ rf.last_include_index +ℤ pos (suc k)
    → index2_log_pos rf index ≡ pos k
unfolding index2_log_pos
index2_log_pos_above rf index k here = omega (int_laws, ap pos_part here, ap neg_part here)

-- An index above the snapshot and up to the last one can be read.
pub read_log :
    (rf : Raft) (index : ℤ)
    → rf.last_include_index <ℤ index
    → index ≤ℤ last_index rf
    → (k : ℕ) × (e : LogType) × (index ≡ rf.last_include_index +ℤ pos (suc k))
      × (suc k ≤ length rf.log)
      × (at rf.log (index2_log_pos rf index) ≡ some e)
unfolding last_index
read_log rf index lo hi =
    let k : ℕ =
      pos_part index
      + neg_part rf.last_include_index
      - (pos_part rf.last_include_index + neg_part index)
      - 1 in
    let here : index ≡ rf.last_include_index +ℤ pos (suc k) = omega int_laws in
    let within : suc k ≤ length rf.log =
      omega (int_laws, +ℤ_parts rf.last_include_index (pos (length rf.log))) in
    let (e, read) = get_elem?_lt rf.log k within in
    (k, e, here, within, rw (index2_log_pos_above rf index k here) read)

-- The term and the vote stay.
pub record KeepsVote (rf rf' : Raft) : Type 0 where
  pub term : rf'.current_term ≡ rf.current_term
  pub vote : rf'.voted_for ≡ rf.voted_for

-- They stay, or the term grows.
abbrev pub Advances : Raft → Raft → Type 0
Advances rf rf' = KeepsVote rf rf' ⊎ (rf.current_term <ℤ rf'.current_term)

pub KeepsVote-refl : (rf : Raft) → KeepsVote rf rf
KeepsVote-refl rf = record { term = refl; vote = refl }

pub KeepsVote-trans : {a b c : Raft} → KeepsVote a b → KeepsVote b c → KeepsVote a c
KeepsVote-trans h k = record { term = k.term ∙ h.term; vote = k.vote ∙ h.vote }

pub Advances-KeepsVote : {a b c : Raft} → Advances a b → KeepsVote b c → Advances a c
Advances-KeepsVote (inl h) k = inl (KeepsVote-trans h k)
Advances-KeepsVote (inr h) k = inr (rw k.term h)
