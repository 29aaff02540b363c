-- ===== src/Raft/Examples/Calls.antt =====
-- Votes, calls of a leader and commits.

use fir_etcd.Raft.Ballots.Twice.{candidate_votes_again}
use fir_etcd.Raft.Ballots.Once.{Consistent, History-Consistent}
use fir_etcd.Raft.Election.Laws.{grants, NoneAbove, leader-majority}
use fir_etcd.Raft.Election.{first_count, count_one, count_votes, become_leader, finish_election}
use fir_etcd.Raft.Commit.Quorum.{OwnTerm, update_commit_index-quorum, two_peers_commit_alone}
use fir_etcd.Raft.Commit.Sorted.{count_reaching}
use fir_etcd.Raft.Commit.{insert_int, sort_ints, other_matches, commit_at, update_commit_index}
use fir_etcd.Raft.Append.Apply.{Applies, undate_last_applied-Applies, commit-undate_last_applied}
use fir_etcd.Prelude.{
  length, take, drop, ◌+ℤ◌, ◌-ℤ◌, ℤ, pos, pos_part, ◌<ℤ◌, minus_one, ◌+◌, ◌*◌, ◌%◌, ◌≤◌, ◌<◌, ◌≡◌,
  refl, ◌↔◌, inr, true, false, Option, none, some, List, [], ◌∷◌, ◌++◌, arith,
}
use fir_etcd.Raft.State.{
  Raft, last_index, last_term_of, last_term, index2_log_pos, write, persist_state, persist_entry,
}
use fir_etcd.Raft.Vote.{RequestVoteReply, request_vote}
use fir_etcd.Raft.Vote.Laws.{UpToDate, IsFree, vote_granted_iff}
use fir_etcd.Raft.Append.{
  AppendEntriesArgs, AppendEntriesReply, command_msg, apply_entry, undate_rounds, behind,
  undate_last_applied, copy_entries, follow_commit, accept, hear_leader, copy_and_commit,
  match_and_copy, append_entries,
}
use fir_etcd.Raft.Append.Merge.{merge, fresh, write_all, with_log, upto, copy_entries-merge}
use fir_etcd.Raft.Append.Sound.{IsSound, Returns, append_entries-Returns}
use fir_etcd.Raft.Leader.{start}
use fir_etcd.Raft.Ballots.{Ballot, ballot_of_request, requested, History, here, next}
use fir_etcd.Raft.Examples.Peers.{entry, peer, chief, hopeful, call, request}

vote_granted_iff_example :
    ((request_vote peer request 5).1.vote_granted ≡ true)
    ↔ (IsFree peer request × UpToDate peer request)
vote_granted_iff_example = vote_granted_iff peer request 5

copy_entries-merge_example :
    copy_entries peer (pos 1 +ℤ pos 1) call.entries
    ≡ some (
        with_log peer
          (take (upto peer (pos 1)) peer.log
            ++ merge (drop (upto peer (pos 1)) peer.log) call.entries)
          (write_all peer.wal (fresh (drop (upto peer (pos 1)) peer.log) call.entries)))
unfolding last_index ◌+ℤ◌
copy_entries-merge_example =
    copy_entries-merge peer (pos 1) call.entries (omega arith) (omega arith)

peer-IsSound : IsSound peer
unfolding last_index ◌+ℤ◌
peer-IsSound = record {
  start = omega arith;
  snapshotted = omega arith;
  applied = omega arith;
  committed = omega arith;
}

append_entries-Returns_example : Returns (append_entries peer call 5)
unfolding ◌+ℤ◌
append_entries-Returns_example = append_entries-Returns peer call 5 (omega arith) peer-IsSound

abbrev committing : Raft
committing = record peer { commit_index = pos 2 }

undate_last_applied-Applies_example :
    Applies committing
      (undate_last_applied committing)
      (behind committing)
      (drop (pos_part (committing.last_applied -ℤ committing.last_include_index)) committing.log)
    × ((undate_last_applied committing).last_applied ≡ committing.commit_index)
unfolding last_index ◌+ℤ◌
undate_last_applied-Applies_example =
    undate_last_applied-Applies committing (omega arith) (omega arith) (omega arith)

abbrev committed : Raft
committed = undate_last_applied (record chief { commit_index = pos 2 })

chief_commits : update_commit_index chief ≡ some committed
unfolding update_commit_index other_matches sort_ints insert_int commit_at last_index index2_log_pos
    ◌+ℤ◌ ◌-ℤ◌
chief_commits = refl

chief_moves : chief.commit_index <ℤ committed.commit_index
chief_moves = rw (commit-undate_last_applied (record chief { commit_index = pos 2 })) (omega arith)

update_commit_index-quorum_example :
    (others : List ℤ) × (other_matches chief.peers 0 chief ≡ some others)
    × (length (last_index chief ∷ others) + length (last_index chief ∷ others) % 2
        ≤ 2 * count_reaching committed.commit_index (last_index chief ∷ others))
    × OwnTerm chief committed.commit_index
update_commit_index-quorum_example =
    update_commit_index-quorum chief committed chief_commits chief_moves

abbrev couple : Raft
couple = record chief { peers = 2; match_index = minus_one ∷ minus_one ∷ [] }

two_peers_commit_alone_example :
    (rf' : Raft) × (update_commit_index couple ≡ some rf') × (rf'.commit_index ≡ last_index couple)
unfolding last_index index2_log_pos ◌+ℤ◌ ◌-ℤ◌
two_peers_commit_alone_example =
    two_peers_commit_alone couple minus_one (entry (pos 2) 9) refl refl refl refl (omega arith)
      (omega arith) refl refl (omega arith)

-- The second answer comes after the majority.
abbrev answers : List (Option RequestVoteReply)
answers =
    some (record { term = pos 2; vote_granted = true })
    ∷ some (record { term = pos 9; vote_granted = false })
    ∷ []

abbrev elected : Option Raft
elected = finish_election hopeful (count_votes 3 first_count answers) 9 (1 ∷ [])

abbrev winner : Raft
winner = elim elected [ none ↦ hopeful | some rf ↦ rf ]

leader-majority_example :
    (taken : List (Option RequestVoteReply)) × (rest : List (Option RequestVoteReply)) × (answers
      ≡ taken ++ rest)
    × (3 < 2 * (1 + grants taken))
    × NoneAbove (pos 2) taken
unfolding finish_election become_leader count_votes first_count count_one update_commit_index
    other_matches sort_ints insert_int commit_at last_index start persist_entry index2_log_pos write
    ◌+ℤ◌ ◌-ℤ◌
leader-majority_example = leader-majority hopeful winner answers 9 (1 ∷ []) refl refl refl

abbrev after_request : Raft
after_request = (request_vote peer request 5).0

abbrev first_ballots : List Ballot
first_ballots = ballot_of_request request (request_vote peer request 5).1

abbrev second_ballots : List Ballot
second_ballots = ballot_of_request request (request_vote after_request request 6).1

two_requests :
    History peer (request_vote after_request request 6).0 (second_ballots ++ (first_ballots ++ []))
two_requests =
    next (next here (requested peer request 5 (omega arith)) refl)
      (requested after_request request 6 (omega arith)) refl

History-Consistent_example : Consistent (second_ballots ++ (first_ballots ++ []))
History-Consistent_example =
    History-Consistent peer (request_vote after_request request 6).0
      (second_ballots ++ (first_ballots ++ [])) two_requests

abbrev heartbeat : AppendEntriesArgs
heartbeat = record call {
  term = pos 2;
  entries = [];
  prev_log_index = pos 2;
  prev_log_term = pos 2;
}

abbrev heard : Option (Raft × AppendEntriesReply)
heard = append_entries hopeful heartbeat 5

abbrev calmed : Raft × AppendEntriesReply
calmed = elim heard [ none ↦ (hopeful, accept (pos 0)) | some r ↦ r ]

candidate_votes_again_example :
    (request_vote calmed.0 (record request { term = pos 2 }) 6).1.vote_granted ≡ true
unfolding append_entries match_and_copy copy_and_commit copy_entries hear_leader follow_commit
    undate_last_applied undate_rounds apply_entry command_msg last_index last_term last_term_of
    index2_log_pos persist_state write accept ◌+ℤ◌ ◌-ℤ◌
candidate_votes_again_example =
    candidate_votes_again hopeful calmed.0 heartbeat calmed.1 (record request { term = pos 2 }) 5 6
      refl refl refl refl (inr (refl, omega arith))
