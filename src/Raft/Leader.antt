-- ===== src/Raft/Leader.antt =====
-- The leader's calls of raft/raft.go: Start, SendAppendEntriesToPeerId, sendInstallSnapshotToPeerId
-- and SendAppendEntriesToAll.
pub mod Laws
use fir_etcd.Prelude.{
  ltb, leb, if◌then◌else◌, ◌>>=◌, ◌>>◌, length, get_elem?, set, drop, ◌+ℤ◌, ◌-ℤ◌, ℤ, pos, negsuc,
  pos_part, ltb_ℤ, leb_ℤ, ◌==ℤ◌, minus_one, at, Bytes, ℕ, zero, suc, Bool, true, false, not, ◌&&◌,
  Option, none, some, List, [], ◌∷◌, ◌++◌,
}
use fir_etcd.Raft.State.{
  follower, is_leader, LogType, SnapshotPath, Raft, last_index, index2_log_pos, persist_state,
  persist_entry, read_snapshot,
}
use fir_etcd.Raft.Append.{AppendEntriesArgs, AppendEntriesReply}
use fir_etcd.Raft.Commit.{update_commit_index}

-- Start: the index and the term of the new entry, and whether this peer leads.
unfoldable pub start : Raft → Bytes → Raft × (ℤ × ℤ × Bool)
start rf command =
    let result : ℤ × ℤ × Bool = (last_index rf +ℤ pos 1, rf.current_term, is_leader rf.state) in
    let entry : LogType = record { term = rf.current_term; value = command } in
    if is_leader rf.state
    then (persist_entry (record rf { log = rf.log ++ entry ∷ [] }) entry, result)
    else (rf, result)

pub data AeResult : Type 0 where
  ae_accept ae_reject ae_stop_sending ae_ignore ae_lost : AeResult

-- The term of the entry before the new ones. Below the snapshot the field keeps its zero value.
unfoldable pub prev_term : Raft → ℤ → Option ℤ
prev_term rf prev =
    if leb_ℤ rf.last_include_index prev
    then if prev ==ℤ rf.last_include_index
      then some rf.last_include_term
      else (at rf.log (index2_log_pos rf prev) >>= λ e. some e.term)
    else some (pos 0)

-- `rf.log[pos:]`, out of range below zero and above the length.
unfoldable pub slice_from : List LogType → ℤ → Option (List LogType)
slice_from log (pos n) = if leb n (length log) then some (drop n log) else none
slice_from log (negsuc n) = none

unfoldable pub entries_for : Raft → ℤ → ℤ → Option (List LogType)
unfolding slice_from
entries_for rf prev next =
    if leb_ℤ rf.last_include_index prev then slice_from rf.log (index2_log_pos rf next) else some []

-- The call that SendAppendEntriesToPeerId makes while it holds the lock; no call if this peer does
-- not lead. The outer option is a panic.
unfoldable pub prepare_append : Raft → ℕ → Option (Option AppendEntriesArgs)
unfolding prev_term entries_for
prepare_append rf server =
    if is_leader rf.state
    then (do
      next ← get_elem? rf.next_index server
      let prev = next -ℤ pos 1
      t ← prev_term rf prev
      entries ← entries_for rf prev next
      some (
          some (record {
            term = rf.current_term;
            leader_id = pos rf.me;
            prev_log_index = prev;
            prev_log_term = t;
            entries = entries;
            leader_commit = rf.commit_index;
          })))
    else some none

-- A reply of a later term ends the leadership.
unfoldable pub depose : Raft → ℤ → Raft
depose rf term = persist_state (record rf {
  voted_for = minus_one;
  state = follower;
  current_term = term;
  leader_id = minus_one;
})

-- The loop over the leader's own entries, down from `index`, that looks for the first one of the
-- follower's term; `found` is the result so far.
unfoldable pub search_term : ℕ → Raft → ℤ → ℤ → ℤ → Option ℤ
search_term zero rf t index found = some found
search_term (suc rounds) rf t index found = elim (at rf.log (index2_log_pos rf index)) [
  | none ↦ none
  | some e ↦ elim (e.term ==ℤ t) [
    | true ↦ search_term rounds rf t (index -ℤ pos 1) index
    | false ↦ some found
  ]
]

-- The next index after a refusal.
unfoldable pub next_after_conflict : Raft → AppendEntriesArgs → AppendEntriesReply → Option ℤ
unfolding search_term
next_after_conflict rf args reply =
    let searched =
      search_term (pos_part (args.prev_log_index -ℤ rf.last_include_index)) rf reply.conflict_term
        args.prev_log_index minus_one
      >>= λ i. some (if i ==ℤ minus_one then reply.conflict_index else i) in
    if reply.conflict_term ==ℤ minus_one then some reply.conflict_index else searched

unfoldable pub at_least_one : ℤ → ℤ
at_least_one next = if next ==ℤ pos 0 then pos 1 else next

-- The answer to a call, `none` for a call that failed.
-- `none` is an index out of range, also of nextIndex and matchIndex.
unfoldable pub handle_append_reply :
    Raft → ℕ → AppendEntriesArgs → Option AppendEntriesReply → Option (Raft × AeResult)
handle_append_reply rf server args none = some (rf, ae_lost)
handle_append_reply rf server args (some reply) =
    let next = args.prev_log_index +ℤ pos (length args.entries) +ℤ pos 1 in
    let accepted =
      update_commit_index (record rf {
        next_index = set rf.next_index server next;
        match_index = set rf.match_index server (next -ℤ pos 1);
      })
      >>= λ rf'. some (rf', ae_accept) in
    let rejected = next_after_conflict rf args reply >>= λ i.
    some (record rf { next_index = set rf.next_index server (at_least_one i) }, ae_reject) in
    let has_next = ltb server (length rf.next_index) in
    let has_match = ltb server (length rf.match_index) in
    if not (args.term ==ℤ rf.current_term)
    then some (rf, ae_ignore)
    else if ltb_ℤ rf.current_term reply.term
    then some (depose rf reply.term, ae_stop_sending)
    else if reply.success
    then if has_next && has_match then accepted else none
    else if has_next
    then rejected
    else none

pub record SnapshotInstallArgs : Type 0 where
  pub term : ℤ
  pub leader_id : ℤ
  pub last_include_index : ℤ
  pub last_include_term : ℤ
  pub content : Bytes

-- sendInstallSnapshotToPeerId: no call if this peer does not lead, or if its snapshot file is gone.
unfoldable pub prepare_snapshot : Raft → Option SnapshotInstallArgs
prepare_snapshot rf =
    let path : SnapshotPath = record {
      index = rf.last_include_index;
      term = rf.last_include_term;
    } in
    if is_leader rf.state
    then (do
      content ← read_snapshot rf.wal.snapshots path
      some (record {
        term = rf.current_term;
        leader_id = pos rf.me;
        last_include_index = rf.last_include_index;
        last_include_term = rf.last_include_term;
        content = content;
      }))
    else none

unfoldable pub handle_snapshot_reply : Raft → ℕ → SnapshotInstallArgs → Option ℤ → Option Raft
handle_snapshot_reply rf server args none = some rf
handle_snapshot_reply rf server args (some reply_term) =
    if not (rf.current_term ==ℤ args.term)
    then some rf
    else if ltb_ℤ rf.current_term reply_term
    then some (depose rf reply_term)
    else let noted = update_commit_index (record rf {
      next_index = set rf.next_index server (args.last_include_index +ℤ pos 1);
      match_index = set rf.match_index server args.last_include_index;
    }) in
      if ltb server (length rf.next_index) && ltb server (length rf.match_index)
      then noted
      else none
