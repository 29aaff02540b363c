-- ===== src/Raft/Leader/Laws.antt =====
-- What a leader sends, and what the answers do to it.

use fir_etcd.Raft.Commit.Quorum.{update_commit_index-KeepsVote}
use fir_etcd.Raft.Commit.{update_commit_index}
use fir_etcd.Prelude.{
  ltb, leb, Bool-cases, Option-cases, length, get_elem?, set, drop, length-drop, ◌+ℤ◌, ◌-ℤ◌, ℤ, pos,
  pos_part, neg_part, ◌≤ℤ◌, ◌<ℤ◌, ltb_ℤ, leb_ℤ, ◌==ℤ◌, -ℤ_parts, int_laws, Bytes, ℕ, suc, ◌+◌, ◌-◌,
  ◌≤◌, ◌≡◌, refl, ap, subst, inl, inr, true, ◌&&◌, Option, none, some, List, arith,
}
use fir_etcd.Raft.State.{
  leader, is_leader, LogType, Raft, last_index, persist_state, persist_entry, index2_log_pos_above,
  read_log, KeepsVote, Advances, KeepsVote-refl, KeepsVote-trans,
}
use fir_etcd.Raft.Append.{AppendEntriesArgs, AppendEntriesReply}
use fir_etcd.Raft.Append.Sound.{IsSound}
use fir_etcd.Raft.Recovery.{Recovers}
use fir_etcd.Raft.Recovery.Laws.{persist_entry-Recovers}
use fir_etcd.Raft.Leader.{
  start, AeResult, prev_term, slice_from, entries_for, prepare_append, depose, next_after_conflict,
  handle_append_reply, SnapshotInstallArgs, handle_snapshot_reply,
}

pub start-KeepsVote : (rf : Raft) (command : Bytes) → KeepsVote rf (start rf command).0
unfolding start persist_entry
start-KeepsVote rf command = record { term = ground arith; vote = ground arith }

-- If a restart finds the state in memory, it does so after Start too, the new entry of a leader
-- included.
pub start-Recovers : (rf : Raft) (command : Bytes) → Recovers rf → Recovers (start rf command).0
unfolding start
start-Recovers rf command h = elim (Bool-cases (is_leader rf.state)) [
  | inl e ↦ rw e (persist_entry-Recovers rf _ _ h refl refl refl refl)
  | inr e ↦ rw e h
]

prev_term-total :
    (rf : Raft) (prev : ℤ)
    → rf.last_include_index ≤ℤ prev
    → prev ≤ℤ last_index rf
    → (t : ℤ) × (prev_term rf prev ≡ some t)
unfolding prev_term
prev_term-total rf prev lo hi =
    let a : leb_ℤ rf.last_include_index prev ≡ true = ground arith in
    elim (Bool-cases (prev ==ℤ rf.last_include_index)) [
      | inl b ↦ (rf.last_include_term, rw (a, b))
      | inr b ↦
          let (k, e, here, within, read) = read_log rf prev (ground arith) hi in
          (e.term, rw (a, b, read))
    ]

entries_for-reach :
    (rf : Raft) (next : ℤ)
    → rf.last_include_index <ℤ next
    → next ≤ℤ last_index rf +ℤ pos 1
    → (entries : List LogType) × (entries_for rf (next -ℤ pos 1) next ≡ some entries)
      × ((next -ℤ pos 1) +ℤ pos (length entries) ≡ last_index rf)
unfolding entries_for slice_from last_index
entries_for-reach rf next lo hi =
    let k : ℕ =
      pos_part next
      + neg_part rf.last_include_index
      - (pos_part rf.last_include_index + neg_part next)
      - 1 in
    let here : next ≡ rf.last_include_index +ℤ pos (suc k) = omega int_laws in
    let within : k ≤ length rf.log = omega int_laws in
    let a : leb_ℤ rf.last_include_index (next -ℤ pos 1) ≡ true =
      ground (arith, -ℤ_parts next (pos 1)) in
    let b : leb k (length rf.log) ≡ true = ground arith in
    (
      drop k rf.log,
      rw (a, index2_log_pos_above rf next k here, b),
      omega (int_laws, length-drop k rf.log, ap pos_part here, ap neg_part here),
    )

-- A leader with its indices in order, for a peer whose next index is above the snapshot and at
-- most one above the log: the call that it makes reaches exactly to the end of its log, and so to
-- its commit index.
pub prepare_append-reaches :
    (rf : Raft) (server : ℕ) (next : ℤ)
    → IsSound rf
    → rf.state ≡ leader
    → get_elem? rf.next_index server ≡ some next
    → rf.last_include_index <ℤ next
    → next ≤ℤ last_index rf +ℤ pos 1
    → (args : AppendEntriesArgs) × (prepare_append rf server ≡ some (some args))
      × (args.prev_log_index +ℤ pos (length args.entries) ≡ last_index rf)
      × (args.leader_commit ≤ℤ args.prev_log_index +ℤ pos (length args.entries))
unfolding prepare_append
prepare_append-reaches rf server next h leads read lo hi =
    let lead : is_leader rf.state ≡ true = rw leads in
    let (t, q) = prev_term-total rf (next -ℤ pos 1) (omega int_laws) (omega int_laws) in
    let (entries, r, reach) = entries_for-reach rf next lo hi in
    (
      record {
        term = rf.current_term;
        leader_id = pos rf.me;
        prev_log_index = next -ℤ pos 1;
        prev_log_term = t;
        entries = entries;
        leader_commit = rf.commit_index;
      },
      rw (lead, read, q, r),
      reach,
      rw reach h.committed,
    )

depose-Advances : (rf : Raft) (t : ℤ) → rf.current_term <ℤ t → Advances rf (depose rf t)
unfolding depose persist_state
depose-Advances rf t h = inr h

abbrev Goes : Raft → Option (Raft × AeResult) → Type 0
Goes rf none = Unit
Goes rf (some (rf', r)) = Advances rf rf'

-- The leader's indices after an accepted call.
abbrev noted : Raft → ℕ → ℤ → ℤ → Raft
noted rf server next match = record rf {
  next_index = set rf.next_index server next;
  match_index = set rf.match_index server match;
}

noted-KeepsVote :
    (rf rf' : Raft) (server : ℕ) (next match : ℤ)
    → update_commit_index (noted rf server next match) ≡ some rf'
    → KeepsVote rf rf'
noted-KeepsVote rf rf' server next match h =
    KeepsVote-trans (record { term = refl; vote = refl })
      (update_commit_index-KeepsVote (noted rf server next match) rf' h)

reply-Goes :
    (rf : Raft) (server : ℕ) (args : AppendEntriesArgs) (reply : AppendEntriesReply)
    → Goes rf (handle_append_reply rf server args (some reply))
unfolding handle_append_reply
reply-Goes rf server args reply = elim (Bool-cases (args.term ==ℤ rf.current_term)) [
  | inr a ↦ rw a (inl (KeepsVote-refl rf))
  | inl a ↦ elim (Bool-cases (ltb_ℤ rf.current_term reply.term)) [
    | inl b ↦ rw (a, b) (depose-Advances rf reply.term (ground arith))
    | inr b ↦ elim (Bool-cases reply.success) [
      | inl c ↦
          let next : ℤ = args.prev_log_index +ℤ pos (length args.entries) +ℤ pos 1 in
          elim (Bool-cases
            (ltb server (length rf.next_index) && ltb server (length rf.match_index))) [
              | inl i ↦
                  elim (Option-cases (update_commit_index (noted rf server next (next -ℤ pos 1)))) [
                    | inl d ↦ rw (a, b, c, i, d) tt
                    | inr (x, d) ↦
                        rw (a, b, c, i, d)
                          (inl (noted-KeepsVote rf x server next (next -ℤ pos 1) d))
                  ]
              | inr i ↦ rw (a, b, c, i) tt
            ]
      | inr c ↦ elim (Bool-cases (ltb server (length rf.next_index))) [
        | inl i ↦ elim (Option-cases (next_after_conflict rf args reply)) [
          | inl d ↦ rw (a, b, i, d, c) tt
          | inr (x, d) ↦ rw (a, b, i, d, c) (inl (record { term = refl; vote = refl }))
        ]
        | inr i ↦ rw (a, b, i, c) tt
      ]
    ]
  ]
]

-- The answer to a call never changes the vote within a term.
pub handle_append_reply-Advances :
    (rf rf' : Raft) (server : ℕ) (args : AppendEntriesArgs) (answer : Option AppendEntriesReply)
    (r : AeResult)
    → handle_append_reply rf server args answer ≡ some (rf', r)
    → Advances rf rf'
unfolding handle_append_reply
handle_append_reply-Advances rf rf' server args none r h =
    inl (subst (KeepsVote rf) (ap got h) (KeepsVote-refl rf))
  where
    got : Option (Raft × AeResult) → Raft
    got none = rf
    got (some (x, _)) = x
handle_append_reply-Advances rf rf' server args (some reply) r h =
    subst (Goes rf) h (reply-Goes rf server args reply)

abbrev GoesTo : Raft → Option Raft → Type 0
GoesTo rf none = Unit
GoesTo rf (some rf') = Advances rf rf'

snapshot_reply-GoesTo :
    (rf : Raft) (server : ℕ) (args : SnapshotInstallArgs) (t : ℤ)
    → GoesTo rf (handle_snapshot_reply rf server args (some t))
unfolding handle_snapshot_reply
snapshot_reply-GoesTo rf server args t = elim (Bool-cases (rf.current_term ==ℤ args.term)) [
  | inr a ↦ rw a (inl (KeepsVote-refl rf))
  | inl a ↦ elim (Bool-cases (ltb_ℤ rf.current_term t)) [
    | inl b ↦ rw (a, b) (depose-Advances rf t (ground arith))
    | inr b ↦
        let index : ℤ = args.last_include_index in
        elim (Bool-cases
          (ltb server (length rf.next_index) && ltb server (length rf.match_index))) [
            | inl i ↦
                elim (Option-cases (update_commit_index (noted rf server (index +ℤ pos 1) index))) [
                  | inl d ↦ rw (a, b, i, d) tt
                  | inr (x, d) ↦
                      rw (a, b, i, d) (inl (noted-KeepsVote rf x server (index +ℤ pos 1) index d))
                ]
            | inr i ↦ rw (a, b, i) tt
          ]
  ]
]

pub handle_snapshot_reply-Advances :
    (rf rf' : Raft) (server : ℕ) (args : SnapshotInstallArgs) (answer : Option ℤ)
    → handle_snapshot_reply rf server args answer ≡ some rf'
    → Advances rf rf'
unfolding handle_snapshot_reply
handle_snapshot_reply-Advances rf rf' server args none h =
    subst (GoesTo rf) h (inl (KeepsVote-refl rf))
handle_snapshot_reply-Advances rf rf' server args (some t) h =
    subst (GoesTo rf) h (snapshot_reply-GoesTo rf server args t)
