-- ===== src/Raft/Vote/Laws.antt =====
-- Who gets the vote of a peer, and what a vote leaves behind.
use fir_etcd.Raft.Recovery.{Recovers}
use fir_etcd.Raft.Recovery.Laws.{persist_state-Recovers}
use fir_etcd.Prelude.{
  if◌then◌else◌, Bool-cases, ℤ, ◌≤ℤ◌, ◌<ℤ◌, ltb_ℤ, minus_one, eq_of_parts, ℕ, ◌≡◌, refl, ◌↔◌, ◌⊎◌,
  inl, inr, Bool, true, not, ◌&&◌, ◌||◌, arith,
}
use fir_etcd.Raft.State.{Raft, last_index, last_term}
use fir_etcd.Raft.Vote.{RequestVoteArgs, enter_term, up_to_date, free_to_vote, vote, request_vote}

-- The rule of the Raft paper, 5.4.1: the later last term wins, and at one term the longer log.
abbrev pub UpToDate : Raft → RequestVoteArgs → Type 0
UpToDate rf args =
    (last_term rf <ℤ args.last_log_term)
    ⊎ ((args.last_log_term ≡ last_term rf) × (last_index rf ≤ℤ args.last_log_index))

-- The peer has no vote in the term of the request, or gave it to the same candidate.
abbrev pub IsFree : Raft → RequestVoteArgs → Type 0
IsFree rf args =
    (rf.current_term <ℤ args.term)
    ⊎ ((rf.current_term ≡ args.term)
        × ((rf.voted_for ≡ minus_one) ⊎ (rf.voted_for ≡ args.candidate_id)))

up_to_date_iff :
    (rf : Raft) (args : RequestVoteArgs) → (up_to_date rf args ≡ true) ↔ UpToDate rf args
unfolding up_to_date
up_to_date_iff rf args = ground (arith, eq_of_parts args.last_log_term (last_term rf))

up_to_date-enter_term :
    (rf : Raft) (term : ℤ) (args : RequestVoteArgs)
    → up_to_date (enter_term rf term) args ≡ up_to_date rf args
unfolding up_to_date enter_term last_term last_index
up_to_date-enter_term rf term args = ground arith

pub granted : Raft → RequestVoteArgs → Bool
granted rf args =
    not (ltb_ℤ args.term rf.current_term)
    && ((ltb_ℤ rf.current_term args.term || free_to_vote rf args.candidate_id)
        && up_to_date rf args)

pub granted-eq :
    (rf : Raft) (args : RequestVoteArgs) (now : ℕ)
    → (request_vote rf args now).1.vote_granted ≡ granted rf args
unfolding request_vote granted free_to_vote enter_term
granted-eq rf args now = ground (arith, up_to_date-enter_term rf args.term args)

pub granted_iff :
    (rf : Raft) (args : RequestVoteArgs)
    → (granted rf args ≡ true) ↔ (IsFree rf args × UpToDate rf args)
unfolding granted free_to_vote
granted_iff rf args = ground (
  arith,
  up_to_date_iff rf args,
  eq_of_parts rf.current_term args.term,
  eq_of_parts rf.voted_for minus_one,
  eq_of_parts rf.voted_for args.candidate_id,
)

-- A vote is granted exactly to an up-to-date candidate in whose term the peer has no other vote.
pub vote_granted_iff :
    (rf : Raft) (args : RequestVoteArgs) (now : ℕ)
    → ((request_vote rf args now).1.vote_granted ≡ true) ↔ (IsFree rf args × UpToDate rf args)
vote_granted_iff rf args now = rw (granted-eq rf args now) (granted_iff rf args)

-- What a request does to the term, and to the vote.
pub request_vote_term :
    (rf : Raft) (args : RequestVoteArgs) (now : ℕ)
    → (request_vote rf args now).0.current_term
      ≡ (if ltb_ℤ rf.current_term args.term then args.term else rf.current_term)
unfolding request_vote enter_term vote
request_vote_term rf args now = ground arith

pub request_vote_voted :
    (rf : Raft) (args : RequestVoteArgs) (now : ℕ)
    → (request_vote rf args now).0.voted_for ≡ (
        if granted rf args
        then args.candidate_id
        else if ltb_ℤ rf.current_term args.term
        then minus_one
        else rf.voted_for)
unfolding request_vote granted free_to_vote enter_term
request_vote_voted rf args now = ground (arith, up_to_date-enter_term rf args.term args)

-- The record that `vote` and `enter_term` write makes the new term and vote survive a restart.
enter_term-Recovers : (rf : Raft) (term : ℤ) → Recovers rf → Recovers (enter_term rf term)
unfolding enter_term
enter_term-Recovers rf term h = elim (Bool-cases (ltb_ℤ rf.current_term term)) [
  | inl e ↦ rw e (persist_state-Recovers rf _ h refl refl refl refl refl refl)
  | inr e ↦ rw e h
]

vote-Recovers :
    (rf : Raft) (args : RequestVoteArgs) (now : ℕ) → Recovers rf → Recovers (vote rf args now).0
unfolding vote
vote-Recovers rf args now h =
    elim (Bool-cases (free_to_vote rf args.candidate_id && up_to_date rf args)) [
      | inl e ↦ rw e (persist_state-Recovers rf _ h refl refl refl refl refl refl)
      | inr e ↦ rw e h
    ]

-- If a restart finds the state in memory, term and vote included, it does so after a request for a
-- vote too.
pub request_vote-Recovers :
    (rf : Raft) (args : RequestVoteArgs) (now : ℕ)
    → Recovers rf
    → Recovers (request_vote rf args now).0
unfolding request_vote
request_vote-Recovers rf args now h = elim (Bool-cases (ltb_ℤ args.term rf.current_term)) [
  | inl e ↦ rw e h
  | inr e ↦
      rw e (vote-Recovers (enter_term rf args.term) args now (enter_term-Recovers rf args.term h))
]
