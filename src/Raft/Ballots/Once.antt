-- ===== src/Raft/Ballots/Once.antt =====
-- The votes of one peer in one term.

use fir_etcd.Raft.Election.Laws.{
  finish_election-Advances, election_tick_cases, stand_vote, vote_request_ballot,
}
use fir_etcd.Raft.Election.{stand, election_tick}
use fir_etcd.Raft.Snapshot.Laws.{snapshot_install-Advances, snapshot-KeepsVote}
use fir_etcd.Raft.Leader.Laws.{
  start-KeepsVote, handle_append_reply-Advances, handle_snapshot_reply-Advances,
}
use fir_etcd.Raft.Append.Frame.{append_entries-Advances}
use fir_etcd.Raft.Vote.Laws.{
  IsFree, granted, granted-eq, granted_iff, request_vote_term, request_vote_voted,
}
use fir_etcd.Raft.Vote.{RequestVoteArgs, request_vote}
use fir_etcd.Prelude.{
  if◌then◌else◌, Bool-cases, ℤ, pos, pos_part, neg_part, ◌≤ℤ◌, ◌<ℤ◌, ltb_ℤ, minus_one, int_laws,
  ltb_ℤ→lt, ℕ, ◌≡◌, refl, sym, ap, ◌∙◌, ◌⊎◌, inl, inr, List, [], ◌∷◌, ◌++◌, arith,
}
use fir_etcd.Raft.State.{Raft, Advances, KeepsVote-refl}
use fir_etcd.Raft.Ballots.{
  Ballot, ballot_of_request, ballot_of_tick, Step, requested, ticked, finished, appended, answered,
  installed, sent_snapshot, snapshotted, started, History, here, next,
}

-- The vote stands in the peer, or belongs to an earlier term.
abbrev Cast : Raft → Ballot → Type 0
Cast rf b =
    (pos 0 ≤ℤ b.candidate_id)
    × ((b.term <ℤ rf.current_term) ⊎ ((rf.current_term ≡ b.term) × (rf.voted_for ≡ b.candidate_id)))

abbrev AllCast : Raft → List Ballot → Type 0
AllCast rf [] = Unit
AllCast rf (b ∷ bs) = Cast rf b × AllCast rf bs

-- No vote of the list is for another candidate in the term of `b`.
abbrev pub Agrees : Ballot → List Ballot → Type 0
Agrees b [] = Unit
Agrees b (c ∷ cs) = (b.term ≡ c.term → b.candidate_id ≡ c.candidate_id) × Agrees b cs

abbrev pub Consistent : List Ballot → Type 0
Consistent [] = Unit
Consistent (b ∷ bs) = Agrees b bs × Consistent bs

Cast-Advances : (rf rf' : Raft) (b : Ballot) → Advances rf rf' → Cast rf b → Cast rf' b
Cast-Advances rf rf' b (inl k) (p, inl h) = (p, inl (rw k.term h))
Cast-Advances rf rf' b (inl k) (p, inr (t, v)) = (p, inr (k.term ∙ t, k.vote ∙ v))
Cast-Advances rf rf' b (inr g) (p, inl h) = (p, inl (omega arith))
Cast-Advances rf rf' b (inr g) (p, inr (t, v)) = (p, inl (rw t at g))

AllCast-Advances :
    (rf rf' : Raft) (bs : List Ballot) → Advances rf rf' → AllCast rf bs → AllCast rf' bs
AllCast-Advances rf rf' [] a h = tt
AllCast-Advances rf rf' (b ∷ bs) a (p, h) =
    (Cast-Advances rf rf' b a p, AllCast-Advances rf rf' bs a h)

-- A step that votes: the new vote is in the peer, and it was free to give it.
abbrev Votes : Raft → Raft → Ballot → Type 0
Votes rf rf' b =
    (pos 0 ≤ℤ b.candidate_id)
    × (rf'.current_term ≡ b.term)
    × (rf'.voted_for ≡ b.candidate_id)
    × ((rf.current_term <ℤ b.term)
        ⊎ ((rf.current_term ≡ b.term)
            × ((rf.voted_for ≡ minus_one) ⊎ (rf.voted_for ≡ b.candidate_id))))

lt_irrefl : {a b c : ℤ} → a ≡ b → b ≡ c → a <ℤ c → ⊥
lt_irrefl {a} {b} {c} p q h =
    omega (arith, ap pos_part p, ap neg_part p, ap pos_part q, ap neg_part q)

lt_asymm : (a b : ℤ) → a <ℤ b → b <ℤ a → ⊥
lt_asymm a b h k = omega arith

not_minus_one : {a b : ℤ} → pos 0 ≤ℤ b → a ≡ minus_one → a ≡ b → ⊥
not_minus_one {a} {b} h p q =
    omega (arith, ap neg_part p, ap pos_part p, ap neg_part q, ap pos_part q)

same_candidate :
    (rf rf' : Raft) (b c : Ballot)
    → Votes rf rf' b
    → Cast rf c
    → b.term ≡ c.term
    → b.candidate_id ≡ c.candidate_id
same_candidate rf rf' b c (_, _, _, inl later) (_, inl old) same =
    absurd (lt_asymm rf.current_term b.term later (rw (← same) at old))
same_candidate rf rf' b c (_, _, _, inl later) (_, inr (t, _)) same =
    absurd (lt_irrefl t (sym same) later)
same_candidate rf rf' b c (_, _, _, inr (t, _)) (_, inl old) same =
    absurd (lt_irrefl (sym same) (sym t) old)
same_candidate rf rf' b c (_, _, _, inr (_, inl free)) (p, inr (_, v)) same =
    absurd (not_minus_one p free v)
same_candidate rf rf' b c (_, _, _, inr (_, inr w)) (_, inr (_, v)) same = sym w ∙ v

Agrees-Cast :
    (rf rf' : Raft) (b : Ballot) (bs : List Ballot) → Votes rf rf' b → AllCast rf bs → Agrees b bs
Agrees-Cast rf rf' b [] v h = tt
Agrees-Cast rf rf' b (c ∷ cs) v (p, h) =
    (same_candidate rf rf' b c v p, Agrees-Cast rf rf' b cs v h)

Cast-Votes : (rf rf' : Raft) (b c : Ballot) → Votes rf rf' b → Cast rf c → Cast rf' c
Cast-Votes rf rf' b c (q, t', v', inl later) (p, inl old) = (p, inl (rw t' (omega arith)))
Cast-Votes rf rf' b c (q, t', v', inl later) (p, inr (t, v)) = (p, inl (rw (← t, t') later))
Cast-Votes rf rf' b c (q, t', v', inr (t, free)) (p, inl old) = (p, inl (rw (t', ← t) old))
Cast-Votes rf rf' b c (q, t', v', inr (t, free)) (p, inr (u, v)) =
    let same : b.term ≡ c.term = sym t ∙ u in
    (
      p,
      inr (
        t' ∙ same,
        v' ∙ same_candidate rf rf' b c (q, t', v', inr (t, free)) (p, inr (u, v)) same,
      ),
    )

AllCast-Votes :
    (rf rf' : Raft) (b : Ballot) (bs : List Ballot)
    → Votes rf rf' b
    → AllCast rf bs
    → AllCast rf' bs
AllCast-Votes rf rf' b [] v h = tt
AllCast-Votes rf rf' b (c ∷ cs) v (p, h) =
    (Cast-Votes rf rf' b c v p, AllCast-Votes rf rf' b cs v h)

-- A step keeps the term and the vote, or raises the term, or gives one vote.
data Effect (rf rf' : Raft) (bs : List Ballot) : Type 0 where
  silent : bs ≡ [] → Advances rf rf' → Effect rf rf' bs
  votes : (b : Ballot) → bs ≡ b ∷ [] → Votes rf rf' b → Effect rf rf' bs

free_term :
    (rf : Raft) (args : RequestVoteArgs)
    → IsFree rf args
    → (if ltb_ℤ rf.current_term args.term then args.term else rf.current_term) ≡ args.term
free_term rf args (inl later) = ground arith
free_term rf args (inr (same, _)) = ground arith

requested-Effect :
    (rf : Raft) (args : RequestVoteArgs) (now : ℕ)
    → pos 0 ≤ℤ args.candidate_id
    → Effect rf (request_vote rf args now).0 (ballot_of_request args (request_vote rf args now).1)
unfolding ballot_of_request
requested-Effect rf args now known = elim (Bool-cases (granted rf args)) [
  | inl g ↦
      let free : IsFree rf args = ((granted_iff rf args).0 g).0 in
      votes (record { term = args.term; candidate_id = args.candidate_id })
        (rw (granted-eq rf args now, g))
        (
          known,
          request_vote_term rf args now ∙ free_term rf args free,
          request_vote_voted rf args now ∙ (rw g refl),
          free,
        )
  | inr g ↦
      silent (rw (granted-eq rf args now, g)) (elim (Bool-cases (ltb_ℤ rf.current_term args.term)) [
        | inl later ↦
            inr
              (rw (request_vote_term rf args now, later) (ltb_ℤ→lt rf.current_term args.term later))
        | inr same ↦ inl (record {
          term = request_vote_term rf args now ∙ (rw same refl);
          vote = request_vote_voted rf args now ∙ (rw (g, same) refl);
        })
      ])
]

ticked-Effect :
    (rf : Raft) (now ms : ℕ)
    → Effect rf (election_tick rf now ms).0 (ballot_of_tick (election_tick rf now ms).1)
unfolding ballot_of_tick
ticked-Effect rf now ms = elim (election_tick_cases rf now ms) [
  | inr (same, quiet) ↦ rw (same, quiet) (silent refl (inl (KeepsVote-refl rf)))
  | inl (stands, call) ↦
      let (t, v, m) = stand_vote rf now in
      let (bt, bv) = vote_request_ballot (stand rf now) in
      rw (stands, call)
        (votes _ refl (
          rw bv (omega arith),
          sym bt,
          v ∙ ap pos (sym m) ∙ sym bv,
          inl (rw (bt, t) (omega int_laws)),
        ))
]

Step-Effect : {rf rf' : Raft} {bs : List Ballot} → Step rf rf' bs → Effect rf rf' bs
Step-Effect (requested rf args now known) = requested-Effect rf args now known
Step-Effect (ticked rf now ms) = ticked-Effect rf now ms
Step-Effect (finished rf rf' c now noop h) =
    silent refl (finish_election-Advances rf rf' c now noop h)
Step-Effect (appended rf rf' args now reply calm h) =
    silent refl (append_entries-Advances rf rf' args now reply calm h)
Step-Effect (answered rf rf' server args answer r h) =
    silent refl (handle_append_reply-Advances rf rf' server args answer r h)
Step-Effect (installed rf args now) = silent refl (snapshot_install-Advances rf args now)
Step-Effect (sent_snapshot rf rf' server args answer h) =
    silent refl (handle_snapshot_reply-Advances rf rf' server args answer h)
Step-Effect (snapshotted rf rf' index content h) =
    silent refl (inl (snapshot-KeepsVote rf rf' index content h))
Step-Effect (started rf command) = silent refl (inl (start-KeepsVote rf command))

extend :
    (rf rf' : Raft) (bs new all : List Ballot)
    → Effect rf rf' new
    → all ≡ new ++ bs
    → AllCast rf bs × Consistent bs
    → AllCast rf' all × Consistent all
extend rf rf' bs new all (silent none_new a) e (h, c) =
    rw (e, none_new) (AllCast-Advances rf rf' bs a h, c)
extend rf rf' bs new all (votes b one v) e (h, c) =
    rw (e, one)
      (
        (let (q, t, w, _) = v in (q, inr (t, w)), AllCast-Votes rf rf' b bs v h),
        (Agrees-Cast rf rf' b bs v h, c),
      )

History-Cast :
    {rf rf' : Raft} {bs : List Ballot} → History rf rf' bs → AllCast rf' bs × Consistent bs
History-Cast here = (tt, tt)
History-Cast (next {s} {u} {bs} {new} {all} r st e) =
    extend s u bs new all (Step-Effect st) e (History-Cast r)

-- Over any sequence of the calls that a peer makes and answers, except for the calls of a leader
-- that it hears while it is a candidate, it votes for at most one candidate in each term.
pub History-Consistent : (rf rf' : Raft) (bs : List Ballot) → History rf rf' bs → Consistent bs
History-Consistent rf rf' bs h = (History-Cast h).1
