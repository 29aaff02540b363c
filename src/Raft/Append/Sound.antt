-- ===== src/Raft/Append/Sound.antt =====
-- The reads of AppendEntries in the log, and the order of the indices of the peer.

use fir_etcd.Raft.Append.Merge.{merge, with_log, length-merge, upto, copy_entries-merge}
use fir_etcd.Raft.Append.Apply.{undate_last_applied-Applies}
use fir_etcd.Prelude.{
  if◌then◌else◌, Bool-cases, length, take, drop, length-append, get_elem?_lt, ◌+ℤ◌, ◌-ℤ◌, ℤ, pos,
  pos_part, neg_part, ◌≤ℤ◌, ◌<ℤ◌, ltb_ℤ, ◌==ℤ◌, minus_one, at, int_laws, offset-take, ℕ, zero, suc,
  ◌+◌, ◌≤◌, ◌≡◌, refl, ap, inl, inr, Option, none, some, List, ◌++◌, arith,
}
use fir_etcd.Raft.State.{
  LogType, Journal, Raft, last_index, index2_log_pos, persist_state, index2_log_pos_above, read_log,
}
use fir_etcd.Raft.Append.{
  AppendEntriesArgs, AppendEntriesReply, undate_last_applied, follow_commit, first_of_term,
  hear_leader, copy_and_commit, report_conflict, match_and_copy, append_entries,
}

-- snapshot ≤ applied ≤ committed ≤ last
pub record IsSound (rf : Raft) : Type 0 where
  pub start : minus_one ≤ℤ rf.last_include_index
  pub snapshotted : rf.last_include_index ≤ℤ rf.last_applied
  pub applied : rf.last_applied ≤ℤ rf.commit_index
  pub committed : rf.commit_index ≤ℤ last_index rf

-- The call returns a peer with its indices in order.
abbrev pub Returns : Option (Raft × AppendEntriesReply) → Type 0
Returns none = ⊥
Returns (some (rf, reply)) = IsSound rf

Returns-eq :
    (o : Option (Raft × AppendEntriesReply)) (rf : Raft) (reply : AppendEntriesReply)
    → o ≡ some (rf, reply)
    → IsSound rf
    → Returns o
Returns-eq o rf reply e h = rw e h

hear_leader-IsSound :
    (rf : Raft) (args : AppendEntriesArgs) (now : ℕ)
    → IsSound rf
    → IsSound (hear_leader rf args now)
unfolding hear_leader persist_state last_index
hear_leader-IsSound rf args now h = ground arith

-- Catching up with a commit index that the log reaches.
pub undate_last_applied-IsSound :
    (rf : Raft)
    → minus_one ≤ℤ rf.last_include_index
    → rf.last_include_index ≤ℤ rf.last_applied
    → rf.last_applied ≤ℤ rf.commit_index
    → rf.commit_index ≤ℤ last_index rf
    → IsSound (undate_last_applied rf)
unfolding last_index
undate_last_applied-IsSound rf start lo mid hi =
    let (a, end) = undate_last_applied-Applies rf lo mid hi in
    record {
      start = rw a.base start;
      snapshotted = rw (a.base, end) (omega int_laws);
      applied = rw (a.commit, end) (omega int_laws);
      committed = rw (a.commit, last_index, a.base, a.log) hi;
    }

limit_le :
    (rf : Raft) (c : ℤ) → (if ltb_ℤ (last_index rf) c then last_index rf else c) ≤ℤ last_index rf
limit_le rf c = ground arith

follow_commit-IsSound :
    (rf : Raft) (leader_commit : ℤ) → IsSound rf → IsSound (follow_commit rf leader_commit)
unfolding follow_commit
follow_commit-IsSound rf leader_commit h =
    let limit : ℤ = if ltb_ℤ (last_index rf) leader_commit then last_index rf else leader_commit in
    elim (Bool-cases (ltb_ℤ rf.commit_index limit)) [
      | inl e ↦ rw e (
          undate_last_applied-IsSound (record rf { commit_index = limit }) h.start h.snapshotted
            (ground (arith, h.applied)) (unfold last_index in limit_le rf leader_commit))
      | inr e ↦ rw e h
    ]

first_of_term-total :
    (k : ℕ) (rf : Raft) (t index found : ℤ)
    → index ≡ rf.last_include_index +ℤ pos k
    → k ≤ length rf.log
    → (i : ℤ) × (first_of_term k rf t index found ≡ some i)
unfolding first_of_term
first_of_term-total zero rf t index found here h = (found, refl)
first_of_term-total (suc k) rf t index found here h =
    let (e, read) = get_elem?_lt rf.log k (omega arith) in
    let q : at rf.log (index2_log_pos rf index) ≡ some e =
      rw (index2_log_pos_above rf index k here) read in
    let (i, rest) =
      first_of_term-total k rf t (index -ℤ pos 1) index
        (omega (int_laws, ap pos_part here, ap neg_part here)) (omega arith) in
    elim (Bool-cases (e.term ==ℤ t)) [
      | inl same ↦ (i, rw (q, first_of_term) (rw (same, first_of_term) rest))
      | inr differ ↦ (found, rw (q, first_of_term) (rw (differ, first_of_term)))
    ]

report_conflict-Returns :
    (rf : Raft) (index t reply_term : ℤ)
    → rf.last_include_index <ℤ index
    → index ≤ℤ last_index rf
    → IsSound rf
    → Returns (report_conflict rf index t reply_term)
unfolding report_conflict
report_conflict-Returns rf index t reply_term lo hi h =
    let (k, e, here, within, read) = read_log rf index lo hi in
    let (i, q) = first_of_term-total (suc k) rf t index minus_one here within in
    let rounds : pos_part (index2_log_pos rf index) + 1 ≡ suc k =
      rw (index2_log_pos_above rf index k here) (omega arith) in
    rw (rounds, q) h

-- The leader's log reaches the entries that the peer has committed.
abbrev pub CoversCommit : Raft → AppendEntriesArgs → Type 0
CoversCommit rf args = rf.commit_index ≤ℤ args.prev_log_index +ℤ pos (length args.entries)

merged-reaches :
    (rf : Raft) (prev : ℤ) (es : List LogType)
    → rf.last_include_index ≤ℤ prev
    → prev ≤ℤ rf.last_include_index +ℤ pos (length rf.log)
    → prev +ℤ pos (length es)
      ≤ℤ rf.last_include_index
        +ℤ pos (length (take (upto rf prev) rf.log ++ merge (drop (upto rf prev) rf.log) es))
merged-reaches rf prev es lo hi =
    let p : prev ≡ rf.last_include_index +ℤ pos (length (take (upto rf prev) rf.log)) =
      offset-take rf.log rf.last_include_index prev lo hi in
    rw length-append
      (omega (int_laws, ap pos_part p, ap neg_part p, length-merge (drop (upto rf prev) rf.log) es))

merged-IsSound :
    (rf : Raft) (prev : ℤ) (es : List LogType) (w : Journal)
    → rf.last_include_index ≤ℤ prev
    → prev ≤ℤ last_index rf
    → rf.commit_index ≤ℤ prev +ℤ pos (length es)
    → IsSound rf
    → IsSound (with_log rf (take (upto rf prev) rf.log ++ merge (drop (upto rf prev) rf.log) es) w)
unfolding last_index
merged-IsSound rf prev es w lo hi cover h = record {
  start = h.start;
  snapshotted = h.snapshotted;
  applied = h.applied;
  committed = omega (int_laws, merged-reaches rf prev es lo hi);
}

copy_and_commit-Returns :
    (rf : Raft) (args : AppendEntriesArgs) (reply_term : ℤ)
    → rf.last_include_index ≤ℤ args.prev_log_index
    → args.prev_log_index ≤ℤ last_index rf
    → CoversCommit rf args
    → IsSound rf
    → Returns (copy_and_commit rf args reply_term)
unfolding copy_and_commit
copy_and_commit-Returns rf args reply_term lo hi cover h =
    rw (copy_entries-merge rf args.prev_log_index args.entries lo hi) (
      follow_commit-IsSound _ args.leader_commit
        (merged-IsSound rf args.prev_log_index args.entries _ lo hi cover h))

match_and_copy-Returns :
    (rf : Raft) (args : AppendEntriesArgs) (reply_term : ℤ)
    → CoversCommit rf args
    → IsSound rf
    → Returns (match_and_copy rf args reply_term)
unfolding match_and_copy
match_and_copy-Returns rf args reply_term cover h =
    elim (Bool-cases (ltb_ℤ args.prev_log_index rf.last_include_index)) [
      | inl a ↦ rw a h
      | inr a ↦ rw a (elim (Bool-cases (ltb_ℤ (last_index rf) args.prev_log_index)) [
        | inl b ↦ rw b h
        | inr b ↦ rw b (elim (Bool-cases (ltb_ℤ rf.last_include_index args.prev_log_index)) [
          | inl c ↦
              let (k, e, here, within, read) =
                read_log rf args.prev_log_index (ground arith) (ground arith) in
              rw (c, read)
                (elim (Bool-cases (e.term ==ℤ args.prev_log_term)) [
                  | inl d ↦ rw d (
                      copy_and_commit-Returns rf args reply_term (ground arith) (ground arith) cover
                        h)
                  | inr d ↦ rw d (
                      report_conflict-Returns rf args.prev_log_index e.term reply_term
                        (ground arith) (ground arith) h)
                ])
          | inr c ↦
              rw c
                (copy_and_commit-Returns rf args reply_term (ground arith) (ground arith) cover h)
        ])
      ])
    ]

commit-hear_leader :
    (rf : Raft) (args : AppendEntriesArgs) (now : ℕ)
    → (hear_leader rf args now).commit_index ≡ rf.commit_index
unfolding hear_leader persist_state
commit-hear_leader rf args now = ground arith

-- For a peer with snapshot, applied, committed and last index in order, and a call that reaches
-- its commit index, AppendEntries returns on every branch: it reads no index outside the log, and
-- the peer it leaves has these indices in order.
pub append_entries-Returns :
    (rf : Raft) (args : AppendEntriesArgs) (now : ℕ)
    → CoversCommit rf args
    → IsSound rf
    → Returns (append_entries rf args now)
unfolding append_entries
append_entries-Returns rf args now cover h = elim (Bool-cases (ltb_ℤ args.term rf.current_term)) [
  | inl e ↦ rw e h
  | inr e ↦ rw e (
      match_and_copy-Returns (hear_leader rf args now) args rf.current_term
        (rw (commit-hear_leader rf args now) cover) (hear_leader-IsSound rf args now h))
]
