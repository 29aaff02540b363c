-- ===== src/Raft/Vote.antt =====
-- RequestVote of raft/raft.go.
pub mod Laws
use fir_etcd.Prelude.{
  if◌then◌else◌, ℤ, ltb_ℤ, leb_ℤ, ◌==ℤ◌, minus_one, ℕ, Bool, true, false, ◌&&◌, ◌||◌,
}
use fir_etcd.Raft.State.{follower, Raft, last_index, last_term, persist_state}

pub record RequestVoteArgs : Type 0 where
  pub term : ℤ
  pub candidate_id : ℤ
  pub last_log_index : ℤ
  pub last_log_term : ℤ

pub record RequestVoteReply : Type 0 where
  pub term : ℤ
  pub vote_granted : Bool

-- A later term makes the peer a follower that has not voted.
unfoldable pub enter_term : Raft → ℤ → Raft
unfolding persist_state
enter_term rf term =
    if ltb_ℤ rf.current_term term
    then persist_state (record rf {
      current_term = term;
      state = follower;
      voted_for = minus_one;
      leader_id = minus_one;
    })
    else rf

-- The candidate's log is at least as up to date as the peer's.
unfoldable pub up_to_date : Raft → RequestVoteArgs → Bool
up_to_date rf args =
    ltb_ℤ (last_term rf) args.last_log_term
    || ((args.last_log_term ==ℤ last_term rf) && leb_ℤ (last_index rf) args.last_log_index)

unfoldable pub free_to_vote : Raft → ℤ → Bool
free_to_vote rf candidate_id = (rf.voted_for ==ℤ minus_one) || (rf.voted_for ==ℤ candidate_id)

unfoldable pub grant : Raft → RequestVoteArgs → ℕ → Raft
unfolding persist_state
grant rf args now =
    persist_state (record rf { voted_for = args.candidate_id; last_hear_beat_time = now })

unfoldable pub vote : Raft → RequestVoteArgs → ℕ → Raft × Bool
unfolding grant free_to_vote
vote rf args now =
    if free_to_vote rf args.candidate_id && up_to_date rf args
    then (grant rf args now, true)
    else (rf, false)

-- The reply carries the term before the request was looked at.
unfoldable pub request_vote : Raft → RequestVoteArgs → ℕ → Raft × RequestVoteReply
unfolding enter_term vote
request_vote rf args now =
    if ltb_ℤ args.term rf.current_term
    then (rf, record { term = rf.current_term; vote_granted = false })
    else let (rf', granted) = vote (enter_term rf args.term) args now in
      (rf', record { term = rf.current_term; vote_granted = granted })
