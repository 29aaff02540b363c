-- ===== src/Raft/Election.antt =====
-- electionLoop of raft/raft.go: the timer, the count of the votes and the end of an election.
pub mod Laws
use fir_etcd.Prelude.{
  ltb, leb, ◌==◌, if◌then◌else◌, ◌>>=◌, ◌>>◌, replicate, ◌+ℤ◌, ℤ, pos, ltb_ℤ, minus_one, ℕ, ◌+◌,
  ◌-◌, ◌/◌, false, not, ◌&&◌, ◌||◌, Option, none, some, List, [], ◌∷◌,
}
use fir_etcd.Raft.State.{
  follower, candidate, leader, is_leader, is_candidate, Bytes, Raft, last_index, last_term,
  persist_state,
}
use fir_etcd.Raft.Vote.{RequestVoteArgs, RequestVoteReply}
use fir_etcd.Raft.Commit.{update_commit_index}
use fir_etcd.Raft.Leader.{start}

-- The new term of a candidate, its vote for itself and the call that it sends.
unfoldable pub stand : Raft → ℕ → Raft
stand rf now = persist_state (record rf {
  state = candidate;
  last_hear_beat_time = now;
  leader_id = minus_one;
  current_term = rf.current_term +ℤ pos 1;
  voted_for = pos rf.me;
})

unfoldable pub vote_request : Raft → RequestVoteArgs
vote_request rf = record {
  term = rf.current_term;
  candidate_id = pos rf.me;
  last_log_index = last_index rf;
  last_log_term = last_term rf;
}

-- One round of the loop at the time `now`, with the random timeout `ms`: the call for votes, if
-- there is an election.
unfoldable pub election_tick : Raft → ℕ → ℕ → Raft × Option RequestVoteArgs
unfolding stand vote_request
election_tick rf now ms =
    let late = leb ms (now - rf.last_hear_beat_time) in
    if not (is_leader rf.state) && late
    then (stand rf now, some (vote_request (stand rf now)))
    else (rf, none)

pub record Count : Type 0 where
  pub vote_count : ℕ
  pub finish_count : ℕ
  pub max_term : ℤ

unfoldable pub first_count : Count
first_count = record { vote_count = 1; finish_count = 1; max_term = pos 0 }

-- One answer; `none` is a call that failed.
unfoldable pub count_one : Count → Option RequestVoteReply → Count
count_one c none = record c { finish_count = c.finish_count + 1 }
count_one c (some reply) = record {
  vote_count = if reply.vote_granted then c.vote_count + 1 else c.vote_count;
  finish_count = c.finish_count + 1;
  max_term = if ltb_ℤ c.max_term reply.term then reply.term else c.max_term;
}

-- The loop over the answers as they arrive. It ends early once all have answered or a majority
-- has voted; the end of the list is the timeout.
unfoldable pub count_votes : ℕ → Count → List (Option RequestVoteReply) → Count
unfolding count_one
count_votes peers c [] = c
count_votes peers c (r ∷ rs) =
    let c' = count_one c r in
    let rest = count_votes peers c' rs in
    if c'.finish_count == peers || ltb (peers / 2) c'.vote_count then c' else rest

-- A leader's indices, and a first pass over the commit index.
unfoldable pub become_leader : Raft → ℕ → Option Raft
become_leader rf now = do
  led ← update_commit_index (record rf {
    iis_back = false;
    state = leader;
    leader_id = pos rf.me;
    next_index = replicate rf.peers (last_index rf +ℤ pos 1);
    match_index = replicate rf.peers minus_one;
  })
  some (record led { last_send_heartbeat_time = now - 200 })

-- The end of an election, once the lock is held again; `noop` is the encoded empty operation. The
-- state may have changed while the votes came in.
unfoldable pub finish_election : Raft → Count → ℕ → Bytes → Option Raft
unfolding become_leader
finish_election rf c now noop =
    let won = become_leader rf now >>= λ led. some (start led noop).0 in
    let behind = persist_state (record rf {
      state = follower;
      leader_id = minus_one;
      current_term = c.max_term;
      voted_for = minus_one;
    }) in
    if not (is_candidate rf.state)
    then some rf
    else if ltb_ℤ rf.current_term c.max_term
    then some behind
    else if ltb (rf.peers / 2) c.vote_count
    then won
    else some rf
