-- ===== src/Raft/Append/Frame.antt =====
-- What AppendEntries does to the term and the vote of the peer.
use fir_etcd.Prelude.{
  if◌then◌else◌, Bool-cases, Option-cases, ◌>>=◌, ◌+ℤ◌, ℤ, pos, pos_part, neg_part, ltb_ℤ, ◌==ℤ◌,
  minus_one, at, ℕ, zero, suc, ◌+◌, ◌≡◌, refl, ap, ◌∙◌, subst, inl, inr, true, false, Option, none,
  some, List, [], ◌∷◌, arith,
}
use fir_etcd.Raft.State.{
  candidate, is_candidate, LogType, Raft, last_index, index2_log_pos, persist_state, persist_entry,
  KeepsVote, Advances, KeepsVote-refl, KeepsVote-trans, Advances-KeepsVote,
}
use fir_etcd.Raft.Append.{
  AppendEntriesArgs, AppendEntriesReply, apply_entry, undate_rounds, behind, undate_last_applied,
  copy_entry, copy_entries, follow_commit, first_of_term, accept, hear_leader, copy_and_commit,
  report_conflict, match_and_copy, append_entries,
}

apply_entry-KeepsVote : (rf : Raft) (e : LogType) → KeepsVote rf (apply_entry rf e)
unfolding apply_entry
apply_entry-KeepsVote rf e = record { term = refl; vote = refl }

undate_rounds-KeepsVote : (n : ℕ) (rf : Raft) → KeepsVote rf (undate_rounds n rf)
unfolding undate_rounds
undate_rounds-KeepsVote zero rf = KeepsVote-refl rf
undate_rounds-KeepsVote (suc n) rf =
    elim (Option-cases (at rf.log (index2_log_pos rf (rf.last_applied +ℤ pos 1)))) [
      | inl e ↦ rw (e, undate_rounds) (record { term = refl; vote = refl })
      | inr (x, e) ↦
          rw (e, undate_rounds)
            (KeepsVote-trans (apply_entry-KeepsVote rf x)
              (undate_rounds-KeepsVote n (apply_entry rf x)))
    ]

pub undate_last_applied-KeepsVote : (rf : Raft) → KeepsVote rf (undate_last_applied rf)
unfolding undate_last_applied
undate_last_applied-KeepsVote rf = undate_rounds-KeepsVote (behind rf) rf

-- A result, if there is one, keeps the vote.
abbrev KeepsIn : Raft → Option Raft → Type 0
KeepsIn rf none = Unit
KeepsIn rf (some rf') = KeepsVote rf rf'

copy_entry-KeepsIn : (rf : Raft) (i : ℤ) (e : LogType) → KeepsIn rf (copy_entry rf i e)
unfolding copy_entry persist_entry
copy_entry-KeepsIn rf i e = elim (Bool-cases (ltb_ℤ (last_index rf) i)) [
  | inl a ↦ rw a (record { term = refl; vote = refl })
  | inr a ↦ elim (Option-cases (at rf.log (index2_log_pos rf i))) [
    | inl b ↦ rw (a, b) tt
    | inr (x, b) ↦ elim (Bool-cases (x.term ==ℤ e.term)) [
      | inl c ↦ rw (a, b, c) (record { term = refl; vote = refl })
      | inr c ↦ rw (a, b, c) (record { term = refl; vote = refl })
    ]
  ]
]

KeepsIn-trans : (a b : Raft) (o : Option Raft) → KeepsVote a b → KeepsIn b o → KeepsIn a o
KeepsIn-trans a b none h k = tt
KeepsIn-trans a b (some c) h k = KeepsVote-trans h k

KeepsIn-bind :
    (rf : Raft) (o : Option Raft) (f : Raft → Option Raft)
    → KeepsIn rf o
    → ((s : Raft) → KeepsIn s (f s))
    → KeepsIn rf (o >>= f)
KeepsIn-bind rf none f h k = tt
KeepsIn-bind rf (some s) f h k = KeepsIn-trans rf s (f s) h (k s)

copy_entries-KeepsIn : (es : List LogType) (rf : Raft) (i : ℤ) → KeepsIn rf (copy_entries rf i es)
unfolding copy_entries
copy_entries-KeepsIn [] rf i = KeepsVote-refl rf
copy_entries-KeepsIn (e ∷ es) rf i =
    KeepsIn-bind rf (copy_entry rf i e) (λ s. copy_entries s (i +ℤ pos 1) es)
      (copy_entry-KeepsIn rf i e) (λ s. copy_entries-KeepsIn es s (i +ℤ pos 1))

follow_commit-KeepsVote : (rf : Raft) (c : ℤ) → KeepsVote rf (follow_commit rf c)
unfolding follow_commit
follow_commit-KeepsVote rf c =
    let limit : ℤ = if ltb_ℤ (last_index rf) c then last_index rf else c in
    elim (Bool-cases (ltb_ℤ rf.commit_index limit)) [
      | inl e ↦ rw e (
          KeepsVote-trans (record { term = refl; vote = refl })
            (undate_last_applied-KeepsVote (record rf { commit_index = limit })))
      | inr e ↦ rw e (KeepsVote-refl rf)
    ]

abbrev KeepsReply : Raft → Option (Raft × AppendEntriesReply) → Type 0
KeepsReply rf none = Unit
KeepsReply rf (some (rf', reply)) = KeepsVote rf rf'

copy_and_commit-KeepsReply :
    (rf : Raft) (args : AppendEntriesArgs) (t : ℤ) → KeepsReply rf (copy_and_commit rf args t)
unfolding copy_and_commit
copy_and_commit-KeepsReply rf args t =
    go (copy_entries rf (args.prev_log_index +ℤ pos 1) args.entries)
      (copy_entries-KeepsIn args.entries rf (args.prev_log_index +ℤ pos 1))
  where
    go :
        (o : Option Raft)
        → KeepsIn rf o
        → KeepsReply rf (o >>= λ rf'. some (follow_commit rf' args.leader_commit, accept t))
    go none h = tt
    go (some s) h = KeepsVote-trans h (follow_commit-KeepsVote s args.leader_commit)

report_conflict-KeepsReply : (rf : Raft) (i t r : ℤ) → KeepsReply rf (report_conflict rf i t r)
unfolding report_conflict
report_conflict-KeepsReply rf i t r =
    elim (Option-cases (first_of_term (pos_part (index2_log_pos rf i) + 1) rf t i minus_one)) [
      | inl e ↦ rw e tt
      | inr (x, e) ↦ rw e (KeepsVote-refl rf)
    ]

match_and_copy-KeepsReply :
    (rf : Raft) (args : AppendEntriesArgs) (t : ℤ) → KeepsReply rf (match_and_copy rf args t)
unfolding match_and_copy
match_and_copy-KeepsReply rf args t =
    elim (Bool-cases (ltb_ℤ args.prev_log_index rf.last_include_index)) [
      | inl a ↦ rw a (KeepsVote-refl rf)
      | inr a ↦ elim (Bool-cases (ltb_ℤ (last_index rf) args.prev_log_index)) [
        | inl b ↦ rw (a, b) (KeepsVote-refl rf)
        | inr b ↦ elim (Bool-cases (ltb_ℤ rf.last_include_index args.prev_log_index)) [
          | inr c ↦ rw (a, b, c) (copy_and_commit-KeepsReply rf args t)
          | inl c ↦ elim (Option-cases (at rf.log (index2_log_pos rf args.prev_log_index))) [
            | inl d ↦ rw (a, b, c, d) tt
            | inr (e, d) ↦ elim (Bool-cases (e.term ==ℤ args.prev_log_term)) [
              | inl f ↦ rw (a, b, c, d, f) (copy_and_commit-KeepsReply rf args t)
              | inr f ↦
                  rw (a, b, c, d, f) (report_conflict-KeepsReply rf args.prev_log_index e.term t)
            ]
          ]
        ]
      ]
    ]

-- A peer that is no candidate keeps its vote, or its term grows.
hear_leader-Advances :
    (rf : Raft) (args : AppendEntriesArgs) (now : ℕ)
    → is_candidate rf.state ≡ false
    → Advances rf (hear_leader rf args now)
unfolding hear_leader persist_state
hear_leader-Advances rf args now calm = elim (Bool-cases (ltb_ℤ rf.current_term args.term)) [
  | inl e ↦ inr (ground arith)
  | inr e ↦ inl (record { term = ground arith; vote = ground arith })
]

pub append_entries-Advances :
    (rf rf' : Raft) (args : AppendEntriesArgs) (now : ℕ) (reply : AppendEntriesReply)
    → is_candidate rf.state ≡ false
    → append_entries rf args now ≡ some (rf', reply)
    → Advances rf rf'
unfolding append_entries
append_entries-Advances rf rf' args now reply calm h =
    elim (Bool-cases (ltb_ℤ args.term rf.current_term)) [
      | inl e ↦ inl (subst (KeepsReply rf) (rw (e, append_entries) at h) (KeepsVote-refl rf))
      | inr e ↦
          let heard : Raft = hear_leader rf args now in
          Advances-KeepsVote (hear_leader-Advances rf args now calm) (
            subst (KeepsReply heard) (rw (e, append_entries) at h)
              (match_and_copy-KeepsReply heard args rf.current_term))
    ]

-- A candidate that hears a leader of its own term gives up its vote in that term.
hear_leader_candidate :
    (rf : Raft) (args : AppendEntriesArgs) (now : ℕ)
    → rf.state ≡ candidate
    → args.term ≡ rf.current_term
    → ((hear_leader rf args now).current_term ≡ rf.current_term)
      × ((hear_leader rf args now).voted_for ≡ minus_one)
unfolding hear_leader persist_state
hear_leader_candidate rf args now stands same =
    let c : is_candidate rf.state ≡ true = rw stands in
    ground (arith, ap pos_part same, ap neg_part same)

pub append_entries_candidate :
    (rf rf' : Raft) (args : AppendEntriesArgs) (now : ℕ) (reply : AppendEntriesReply)
    → rf.state ≡ candidate
    → args.term ≡ rf.current_term
    → append_entries rf args now ≡ some (rf', reply)
    → (rf'.current_term ≡ rf.current_term) × (rf'.voted_for ≡ minus_one)
unfolding append_entries
append_entries_candidate rf rf' args now reply stands same h =
    let e : ltb_ℤ args.term rf.current_term ≡ false = rw same (ground arith) in
    let heard : Raft = hear_leader rf args now in
    let (t, v) = hear_leader_candidate rf args now stands same in
    let k : KeepsVote heard rf' =
      subst (KeepsReply heard) (rw (e, append_entries) at h)
        (match_and_copy-KeepsReply heard args rf.current_term) in
    (k.term ∙ t, k.vote ∙ v)
