-- ===== src/Raft/Ballots.antt =====
-- The votes of one peer over any sequence of the calls that raft/raft.go handles.
pub mod Once
pub mod Twice
use fir_etcd.Prelude.{
  if◌then◌else◌, ℤ, pos, ◌≤ℤ◌, ℕ, ◌≡◌, false, Option, none, some, List, [], ◌∷◌, ◌++◌,
}
use fir_etcd.Raft.State.{is_candidate, Bytes, Raft}
use fir_etcd.Raft.Vote.{RequestVoteArgs, RequestVoteReply, request_vote}
use fir_etcd.Raft.Append.{AppendEntriesArgs, AppendEntriesReply, append_entries}
use fir_etcd.Raft.Leader.{
  start, AeResult, handle_append_reply, SnapshotInstallArgs, handle_snapshot_reply,
}
use fir_etcd.Raft.Snapshot.{snapshot, snapshot_install}
use fir_etcd.Raft.Election.{election_tick, Count, finish_election}

-- A vote: its term and the candidate that has it.
pub record Ballot : Type 0 where
  pub term : ℤ
  pub candidate_id : ℤ

unfoldable pub ballot_of_request : RequestVoteArgs → RequestVoteReply → List Ballot
ballot_of_request args reply =
    if reply.vote_granted
    then record { term = args.term; candidate_id = args.candidate_id } ∷ []
    else []

unfoldable pub ballot_of_tick : Option RequestVoteArgs → List Ballot
ballot_of_tick none = []
ballot_of_tick (some args) = record { term = args.term; candidate_id = args.candidate_id } ∷ []

-- One call, with the votes that the peer gives in it. A candidate that hears
-- AppendEntries is left out: it drops its vote in the same term.
pub data Step : Raft → Raft → List Ballot → Type 0 where
  requested :
      (rf : Raft) (args : RequestVoteArgs) (now : ℕ)
      → pos 0 ≤ℤ args.candidate_id
      → Step rf (request_vote rf args now).0 (ballot_of_request args (request_vote rf args now).1)
  ticked :
      (rf : Raft) (now ms : ℕ)
      → Step rf (election_tick rf now ms).0 (ballot_of_tick (election_tick rf now ms).1)
  finished :
      (rf rf' : Raft) (c : Count) (now : ℕ) (noop : Bytes)
      → finish_election rf c now noop ≡ some rf'
      → Step rf rf' []
  appended :
      (rf rf' : Raft) (args : AppendEntriesArgs) (now : ℕ) (reply : AppendEntriesReply)
      → is_candidate rf.state ≡ false
      → append_entries rf args now ≡ some (rf', reply)
      → Step rf rf' []
  answered :
      (rf rf' : Raft) (server : ℕ) (args : AppendEntriesArgs) (answer : Option AppendEntriesReply)
      (r : AeResult)
      → handle_append_reply rf server args answer ≡ some (rf', r)
      → Step rf rf' []
  installed :
      (rf : Raft) (args : SnapshotInstallArgs) (now : ℕ)
      → Step rf (snapshot_install rf args now).0 []
  sent_snapshot :
      (rf rf' : Raft) (server : ℕ) (args : SnapshotInstallArgs) (answer : Option ℤ)
      → handle_snapshot_reply rf server args answer ≡ some rf'
      → Step rf rf' []
  snapshotted :
      (rf rf' : Raft) (index : ℤ) (content : Bytes)
      → snapshot rf index content ≡ some rf'
      → Step rf rf' []
  started : (rf : Raft) (command : Bytes) → Step rf (start rf command).0 []

-- Any number of calls, the latest votes first.
pub data History (rf : Raft) : Raft → List Ballot → Type 0 where
  here : History rf rf []
  next :
      {s u : Raft} {bs new all : List Ballot}
      → History rf s bs
      → Step s u new
      → all ≡ new ++ bs
      → History rf u all
