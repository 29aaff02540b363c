-- ===== src/Raft/Ballots/Twice.antt =====
-- A candidate that hears a leader of its own term, raft/raft.go:261.
use fir_etcd.Prelude.{ℕ, ◌≡◌, sym, ◌∙◌, inl, inr, true, some}
use fir_etcd.Raft.State.{candidate, Raft}
use fir_etcd.Raft.Vote.{RequestVoteArgs, request_vote}
use fir_etcd.Raft.Vote.Laws.{UpToDate, vote_granted_iff}
use fir_etcd.Raft.Append.{AppendEntriesArgs, AppendEntriesReply, append_entries}
use fir_etcd.Raft.Append.Frame.{append_entries_candidate}

-- A candidate that has answered a leader of its own term grants its vote in that term to any other
-- candidate whose log is up to date, though it has already voted for itself.
pub candidate_votes_again :
    (rf rf' : Raft) (args : AppendEntriesArgs) (reply : AppendEntriesReply)
    (request : RequestVoteArgs) (now later : ℕ)
    → rf.state ≡ candidate
    → args.term ≡ rf.current_term
    → append_entries rf args now ≡ some (rf', reply)
    → request.term ≡ rf.current_term
    → UpToDate rf' request
    → (request_vote rf' request later).1.vote_granted ≡ true
candidate_votes_again rf rf' args reply request now later stands same h term fresh =
    let (t, v) = append_entries_candidate rf rf' args now reply stands same h in
    (vote_granted_iff rf' request later).1 (inr (t ∙ sym term, inl v), fresh)
