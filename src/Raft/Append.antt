-- ===== src/Raft/Append.antt =====
-- AppendEntries, CopyEntries and undateLastApplied of raft/raft.go.
pub mod Frame
pub mod Replay
pub mod Sound
pub mod Apply
pub mod Merge
use fir_etcd.Prelude.{
  if◌then◌else◌, ◌>>=◌, ◌>>◌, take, ◌+ℤ◌, ◌-ℤ◌, ℤ, pos, pos_part, neg_part, ltb_ℤ, ◌==ℤ◌, minus_one,
  at, ℕ, zero, suc, ◌+◌, ◌-◌, Bool, true, false, not, ◌&&◌, Option, none, some, List, [], ◌∷◌, ◌++◌,
}
use fir_etcd.Raft.State.{
  follower, is_candidate, LogType, ApplyMsg, Raft, last_index, index2_log_pos, persist_state,
  persist_entry,
}

pub record AppendEntriesArgs : Type 0 where
  pub term : ℤ
  pub leader_id : ℤ
  pub prev_log_index : ℤ
  pub prev_log_term : ℤ
  pub entries : List LogType
  pub leader_commit : ℤ

pub record AppendEntriesReply : Type 0 where
  pub term : ℤ
  pub success : Bool
  pub conflict_index : ℤ
  pub conflict_term : ℤ

unfoldable pub command_msg : LogType → ℤ → ApplyMsg
command_msg entry last_applied = record {
  command_valid = true;
  command = entry.value;
  command_index = last_applied +ℤ pos 1;
  snapshot_valid = false;
  snapshot = [];
  snapshot_term = pos 0;
  snapshot_index = pos 0;
}

-- One round of the loop of undateLastApplied, once the entry is found.
unfoldable pub apply_entry : Raft → LogType → Raft
unfolding command_msg
apply_entry rf entry =
    let applied = rf.last_applied +ℤ pos 1 in
    record rf {
      last_applied = applied;
      apply_ch_term = rf.apply_ch_term ++ command_msg entry applied ∷ [];
      iis_back = if rf.iis_back_index ==ℤ applied then true else rf.iis_back;
    }

-- The loop `for rf.lastApplied < rf.commitIndex`, on the rounds left. An index outside the log ends it.
unfoldable pub undate_rounds : ℕ → Raft → Raft
undate_rounds zero rf = rf
undate_rounds (suc rounds) rf = elim (at rf.log (index2_log_pos rf (rf.last_applied +ℤ pos 1))) [
  | none ↦ record rf { last_applied = rf.last_include_index }
  | some entry ↦ undate_rounds rounds (apply_entry rf entry)
]

-- How far the commit index is ahead.
abbrev pub behind : Raft → ℕ
behind rf =
    pos_part rf.commit_index
    + neg_part rf.last_applied
    - (pos_part rf.last_applied + neg_part rf.commit_index)

unfoldable pub undate_last_applied : Raft → Raft
unfolding undate_rounds
undate_last_applied rf = undate_rounds (behind rf) rf

-- One entry of an AppendEntries call, at its index. `none` is an index out of range.
unfoldable pub copy_entry : Raft → ℤ → LogType → Option Raft
copy_entry rf index entry =
    if ltb_ℤ (last_index rf) index
    then some (persist_entry (record rf { log = rf.log ++ entry ∷ [] }) entry)
    else do
      old ← at rf.log (index2_log_pos rf index)
      if not (old.term ==ℤ entry.term)
          then some (
              persist_entry
                (record rf { log = take (pos_part (index2_log_pos rf index)) rf.log ++ entry ∷ [] })
                entry)
          else some rf

unfoldable pub copy_entries : Raft → ℤ → List LogType → Option Raft
copy_entries rf index [] = some rf
copy_entries rf index (entry ∷ entries) =
    copy_entry rf index entry >>= λ rf'. copy_entries rf' (index +ℤ pos 1) entries

-- The end of CopyEntries: the commit index follows the leader's, as far as the log reaches.
unfoldable pub follow_commit : Raft → ℤ → Raft
follow_commit rf leader_commit =
    let limit = if ltb_ℤ (last_index rf) leader_commit then last_index rf else leader_commit in
    if ltb_ℤ rf.commit_index limit
    then undate_last_applied (record rf { commit_index = limit })
    else rf

-- The index of the first entry of the run of entries of the term `t` that ends at `index`.
-- `rounds` counts the entries above the snapshot.
unfoldable pub first_of_term : ℕ → Raft → ℤ → ℤ → ℤ → Option ℤ
first_of_term zero rf t index found = some found
first_of_term (suc rounds) rf t index found = elim (at rf.log (index2_log_pos rf index)) [
  | none ↦ none
  | some e ↦ elim (e.term ==ℤ t) [
    | true ↦ first_of_term rounds rf t (index -ℤ pos 1) index
    | false ↦ some found
  ]
]

unfoldable pub refuse : ℤ → ℤ → ℤ → AppendEntriesReply
refuse term conflict_index conflict_term = record {
  term = term;
  success = false;
  conflict_index = conflict_index;
  conflict_term = conflict_term;
}

unfoldable pub accept : ℤ → AppendEntriesReply
accept term = record {
  term = term;
  success = true;
  conflict_index = minus_one;
  conflict_term = minus_one;
}

-- What a call of the current or a later term does before it looks at the log.
unfoldable pub hear_leader : Raft → AppendEntriesArgs → ℕ → Raft
hear_leader rf args now =
    let later =
      if ltb_ℤ rf.current_term args.term
      then persist_state
          (record rf { current_term = args.term; state = follower; voted_for = minus_one })
      else rf in
    let heard =
      if (later.current_term ==ℤ args.term) && is_candidate later.state
      then persist_state (record later { state = follower; voted_for = minus_one })
      else later in
    record heard { last_hear_beat_time = now; leader_id = args.leader_id }

-- CopyEntries, and the reply of success.
unfoldable pub copy_and_commit : Raft → AppendEntriesArgs → ℤ → Option (Raft × AppendEntriesReply)
unfolding accept
copy_and_commit rf args reply_term = do
  rf' ← copy_entries rf (args.prev_log_index +ℤ pos 1) args.entries
  some (follow_commit rf' args.leader_commit, accept reply_term)

-- The entry before the new ones has another term: the reply names the first entry of that term.
unfoldable pub report_conflict : Raft → ℤ → ℤ → ℤ → Option (Raft × AppendEntriesReply)
unfolding refuse
report_conflict rf index t reply_term = do
  first ← first_of_term (pos_part (index2_log_pos rf index) + 1) rf t index minus_one
  some (rf, refuse reply_term first t)

-- The consistency check and the copy, with the term of the reply.
unfoldable pub match_and_copy : Raft → AppendEntriesArgs → ℤ → Option (Raft × AppendEntriesReply)
unfolding refuse
match_and_copy rf args reply_term =
    if ltb_ℤ args.prev_log_index rf.last_include_index
    then some (rf, refuse reply_term (rf.last_include_index +ℤ pos 1) minus_one)
    else if ltb_ℤ (last_index rf) args.prev_log_index
    then some (rf, refuse reply_term (last_index rf +ℤ pos 1) minus_one)
    else if ltb_ℤ rf.last_include_index args.prev_log_index
    then (do
      e ← at rf.log (index2_log_pos rf args.prev_log_index)
      if not (e.term ==ℤ args.prev_log_term)
          then report_conflict rf args.prev_log_index e.term reply_term
          else copy_and_commit rf args reply_term)
    else copy_and_commit rf args reply_term

unfoldable pub append_entries : Raft → AppendEntriesArgs → ℕ → Option (Raft × AppendEntriesReply)
unfolding refuse
append_entries rf args now =
    if ltb_ℤ args.term rf.current_term
    then some (rf, refuse rf.current_term minus_one minus_one)
    else match_and_copy (hear_leader rf args now) args rf.current_term
