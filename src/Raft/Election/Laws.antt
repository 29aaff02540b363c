-- ===== src/Raft/Election/Laws.antt =====
-- How many votes make a leader, and what an election leaves behind.

use fir_etcd.Raft.Leader.{start}
use fir_etcd.Raft.Commit.{update_commit_index}
use fir_etcd.Raft.Commit.Quorum.{update_commit_index-KeepsVote}
use fir_etcd.Raft.Leader.Laws.{start-KeepsVote}
use fir_etcd.Prelude.{
  ltb, leb, ◌==◌, if◌then◌else◌, Bool-cases, Option-cases, ◌>>=◌, replicate, ◌+ℤ◌, ℤ, pos, ◌≤ℤ◌,
  ltb_ℤ, minus_one, Bytes, ℕ, ◌+◌, ◌-◌, ◌*◌, ◌/◌, ◌<◌, ◌≡◌, refl, ap, ◌∙◌, subst, ◌⊎◌, inl, inr,
  true, false, not, ◌&&◌, ◌||◌, Option, none, some, List, [], ◌∷◌, ◌++◌, arith,
}
use fir_etcd.Raft.State.{
  candidate, leader, is_leader, is_candidate, Raft, last_index, persist_state, Advances,
  KeepsVote-refl, KeepsVote-trans,
}
use fir_etcd.Raft.Recovery.{Recovers}
use fir_etcd.Raft.Recovery.Laws.{persist_state-Recovers}
use fir_etcd.Raft.Vote.{RequestVoteReply}
use fir_etcd.Raft.Election.{
  stand, vote_request, election_tick, Count, first_count, count_one, count_votes, become_leader,
  finish_election,
}

-- The votes among the answers.
unfoldable pub grants : List (Option RequestVoteReply) → ℕ
grants [] = 0
grants (none ∷ rs) = grants rs
grants (some reply ∷ rs) = (if reply.vote_granted then 1 else 0) + grants rs

-- No answer has a term above `t`.
abbrev pub NoneAbove : ℤ → List (Option RequestVoteReply) → Type 0
NoneAbove t [] = Unit {0}
NoneAbove t (none ∷ rs) = NoneAbove t rs
NoneAbove t (some reply ∷ rs) = (reply.term ≤ℤ t) × NoneAbove t rs

abbrev Heard : ℤ → Count → Count → List (Option RequestVoteReply) → Type 0
Heard t c d rs =
    (taken : List (Option RequestVoteReply)) × (rest : List (Option RequestVoteReply)) × (rs
      ≡ taken ++ rest)
    × (d.vote_count ≡ c.vote_count + grants taken)
    × (c.max_term ≤ℤ t)
    × NoneAbove t taken

count_one-votes :
    (c : Count) (r : Option RequestVoteReply) (rs : List (Option RequestVoteReply))
    → (count_one c r).vote_count + grants rs ≡ c.vote_count + grants (r ∷ rs)
unfolding count_one grants
count_one-votes c none rs = refl
count_one-votes c (some reply) rs = ground arith

count_one-NoneAbove :
    (c : Count) (r : Option RequestVoteReply) (rs : List (Option RequestVoteReply)) (t : ℤ)
    → (count_one c r).max_term ≤ℤ t
    → NoneAbove t rs
    → (c.max_term ≤ℤ t) × NoneAbove t (r ∷ rs)
unfolding count_one
count_one-NoneAbove c none rs t h a = (h, a)
count_one-NoneAbove c (some reply) rs t h a = elim (Bool-cases (ltb_ℤ c.max_term reply.term)) [
  | inl e ↦ (ground (arith, e, h), (ground (arith, e, h), a))
  | inr e ↦ (ground (arith, e, h), (ground (arith, e, h), a))
]

Heard-one :
    (t : ℤ) (c d : Count) (r : Option RequestVoteReply) (rs : List (Option RequestVoteReply))
    → Heard t (count_one c r) d rs
    → Heard t c d (r ∷ rs)
Heard-one t c d r rs (taken, rest, split, votes, h, above) =
    let (low, all) = count_one-NoneAbove c r taken t h above in
    (r ∷ taken, rest, ap (λ x. r ∷ x) split, votes ∙ count_one-votes c r taken, low, all)

ended :
    (peers : ℕ) (c : Count) (r : Option RequestVoteReply) (rs : List (Option RequestVoteReply))
    → ((count_one c r).finish_count == peers || ltb (peers / 2) (count_one c r).vote_count) ≡ true
    → count_votes peers c (r ∷ rs) ≡ count_one c r
unfolding count_votes
ended peers c r rs e = rw e refl

goes_on :
    (peers : ℕ) (c : Count) (r : Option RequestVoteReply) (rs : List (Option RequestVoteReply))
    → ((count_one c r).finish_count == peers || ltb (peers / 2) (count_one c r).vote_count) ≡ false
    → count_votes peers c (r ∷ rs) ≡ count_votes peers (count_one c r) rs
unfolding count_votes
goes_on peers c r rs e = rw e refl

-- What the count has taken is the beginning of the answers.
count_votes-Heard :
    (peers : ℕ) (c : Count) (rs : List (Option RequestVoteReply)) (t : ℤ)
    → (count_votes peers c rs).max_term ≤ℤ t
    → Heard t c (count_votes peers c rs) rs
unfolding count_votes grants
count_votes-Heard peers c [] t h = ([], [], refl, omega arith, h, tt)
count_votes-Heard peers c (r ∷ rs) t h =
    elim (Bool-cases
      ((count_one c r).finish_count == peers || ltb (peers / 2) (count_one c r).vote_count)) [
        | inl e ↦
            let same = ended peers c r rs e in
            let low : (count_one c r).max_term ≤ℤ t = subst (λ d. d.max_term ≤ℤ t) same h in
            rw same (Heard-one t c (count_one c r) r rs ([], rs, refl, omega arith, low, tt))
        | inr e ↦
            let same = goes_on peers c r rs e in
            let low = subst (λ (d : Count). d.max_term ≤ℤ t) same h in
            rw same (
              Heard-one t c (count_votes peers (count_one c r) rs) r rs
                (count_votes-Heard peers (count_one c r) rs t low))
      ]

finish_cases :
    (rf rf' : Raft) (c : Count) (now : ℕ) (noop : Bytes)
    → rf.state ≡ candidate
    → finish_election rf c now noop ≡ some rf'
    → rf'.state ≡ leader
    → (c.max_term ≤ℤ rf.current_term) × (rf.peers / 2 < c.vote_count)
unfolding finish_election persist_state
finish_cases rf rf' c now noop standing h leads =
    let stands : is_candidate rf.state ≡ true = rw standing in
    elim (Bool-cases (ltb_ℤ rf.current_term c.max_term)) [
      | inl a ↦ cc (rw (stands, a, finish_election) at h, leads)
      | inr a ↦ elim (Bool-cases (ltb (rf.peers / 2) c.vote_count)) [
        | inl b ↦ (ground arith, ground arith)
        | inr b ↦ cc (rw (stands, a, b, finish_election) at h, leads, standing)
      ]
    ]

half :
    (peers votes more : ℕ)
    → votes ≡ first_count.vote_count + more
    → peers / 2 < votes
    → peers < 2 * (1 + more)
unfolding first_count
half peers votes more e h = omega arith

-- A candidate becomes leader only if the answers have a beginning with the votes of more than half of
-- the cluster, its own included, and without a term above its own: answers that come after the
-- majority are not looked at.
pub leader-majority :
    (rf rf' : Raft) (rs : List (Option RequestVoteReply)) (now : ℕ) (noop : Bytes)
    → rf.state ≡ candidate
    → finish_election rf (count_votes rf.peers first_count rs) now noop ≡ some rf'
    → rf'.state ≡ leader
    → (taken : List (Option RequestVoteReply)) × (rest : List (Option RequestVoteReply)) × (rs
        ≡ taken ++ rest)
      × (rf.peers < 2 * (1 + grants taken))
      × NoneAbove rf.current_term taken
leader-majority rf rf' rs now noop standing h leads =
    let (terms, votes) = finish_cases rf rf' _ now noop standing h leads in
    let (taken, rest, split, count, low, above) =
      count_votes-Heard rf.peers first_count rs rf.current_term terms in
    (taken, rest, split, half rf.peers _ (grants taken) count votes, above)

-- If a restart finds the state in memory, it does so after a tick of the election timer too, the
-- new term and the vote of a candidate for itself included.
pub election_tick-Recovers :
    (rf : Raft) (now ms : ℕ) → Recovers rf → Recovers (election_tick rf now ms).0
unfolding election_tick
election_tick-Recovers rf now ms h =
    elim (Bool-cases (not (is_leader rf.state) && leb ms (now - rf.last_hear_beat_time))) [
      | inl e ↦ rw e (persist_state-Recovers rf _ h refl refl refl refl refl refl)
      | inr e ↦ rw e h
    ]

abbrev GoesTo : Raft → Option Raft → Type 0
GoesTo rf none = Unit
GoesTo rf (some rf') = Advances rf rf'

become_leader-GoesTo :
    (rf : Raft) (now : ℕ) (noop : Bytes)
    → GoesTo rf (become_leader rf now >>= λ led. some (start led noop).0)
unfolding become_leader
become_leader-GoesTo rf now noop =
    let led : Raft = record rf {
      iis_back = false;
      state = leader;
      leader_id = pos rf.me;
      next_index = replicate rf.peers (last_index rf +ℤ pos 1);
      match_index = replicate rf.peers minus_one;
    } in
    elim (Option-cases (update_commit_index led)) [
      | inl e ↦ rw e tt
      | inr (x, e) ↦ rw e (
          inl (
            KeepsVote-trans
              (KeepsVote-trans
                (KeepsVote-trans (record { term = refl; vote = refl })
                  (update_commit_index-KeepsVote led x e))
                (record { term = refl; vote = refl }))
              (start-KeepsVote (record x { last_send_heartbeat_time = now - 200 }) noop)))
    ]

finish-GoesTo :
    (rf : Raft) (c : Count) (now : ℕ) (noop : Bytes) → GoesTo rf (finish_election rf c now noop)
unfolding finish_election persist_state
finish-GoesTo rf c now noop = elim (Bool-cases (is_candidate rf.state)) [
  | inr a ↦ rw a (inl (KeepsVote-refl rf))
  | inl a ↦ elim (Bool-cases (ltb_ℤ rf.current_term c.max_term)) [
    | inl b ↦ rw (a, b) (inr (ground arith))
    | inr b ↦ elim (Bool-cases (ltb (rf.peers / 2) c.vote_count)) [
      | inl d ↦ rw (a, b, d) (become_leader-GoesTo rf now noop)
      | inr d ↦ rw (a, b, d) (inl (KeepsVote-refl rf))
    ]
  ]
]

pub finish_election-Advances :
    (rf rf' : Raft) (c : Count) (now : ℕ) (noop : Bytes)
    → finish_election rf c now noop ≡ some rf'
    → Advances rf rf'
finish_election-Advances rf rf' c now noop h = subst (GoesTo rf) h (finish-GoesTo rf c now noop)

-- A round of the loop stands for election or does nothing.
pub election_tick_cases :
    (rf : Raft) (now ms : ℕ)
    → ((election_tick rf now ms).0 ≡ stand rf now)
        × ((election_tick rf now ms).1 ≡ some (vote_request (stand rf now)))
      ⊎ ((election_tick rf now ms).0 ≡ rf) × ((election_tick rf now ms).1 ≡ none)
unfolding election_tick
election_tick_cases rf now ms =
    elim (Bool-cases (not (is_leader rf.state) && leb ms (now - rf.last_hear_beat_time))) [
      | inl e ↦ inl (rw e, rw e)
      | inr e ↦ inr (rw e, rw e)
    ]

pub stand_vote :
    (rf : Raft) (now : ℕ)
    → ((stand rf now).current_term ≡ rf.current_term +ℤ pos 1)
      × ((stand rf now).voted_for ≡ pos rf.me)
      × ((stand rf now).me ≡ rf.me)
unfolding stand persist_state
stand_vote rf now = (refl, refl, refl)

pub vote_request_ballot :
    (rf : Raft)
    → ((vote_request rf).term ≡ rf.current_term) × ((vote_request rf).candidate_id ≡ pos rf.me)
unfolding vote_request
vote_request_ballot rf = (refl, refl)
