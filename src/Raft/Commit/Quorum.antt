-- ===== src/Raft/Commit/Quorum.antt =====
-- Which entries a leader commits.
use fir_etcd.Raft.Append.Frame.{undate_last_applied-KeepsVote}
use fir_etcd.Raft.Append.Apply.{commit-undate_last_applied}
use fir_etcd.Raft.Commit.Sorted.{
  count_reaching, sort_ints-IsAscending, count-sort_ints, length-sort_ints, count-at,
}
use fir_etcd.Prelude.{
  Bool-cases, Option-cases, length, get_elem?, ℤ, pos_part, neg_part, ◌≤ℤ◌, ◌<ℤ◌, ltb_ℤ, leb_ℤ,
  ◌==ℤ◌, at, eq_of_parts, ==ℤ→eq, ==ℤ_refl, ltb_ℤ→lt, ◌+◌, ◌*◌, ◌/◌, ◌%◌, ◌≤◌, ◌≡◌, refl, ap, ◌∙◌,
  ◌⊎◌, inl, inr, true, false, some, List, [], ◌∷◌, arith,
}
use fir_etcd.Raft.State.{
  leader, is_leader, LogType, Raft, last_index, index2_log_pos, KeepsVote, KeepsVote-refl,
  KeepsVote-trans,
}
use fir_etcd.Raft.Append.{undate_last_applied}
use fir_etcd.Raft.Commit.{insert_int, sort_ints, other_matches, commit_at, update_commit_index}

-- The entry at the index is covered by the snapshot, or is of the leader's own term.
abbrev pub OwnTerm : Raft → ℤ → Type 0
OwnTerm rf n =
    (n ≤ℤ rf.last_include_index)
    ⊎ ((e : LogType) × (at rf.log (index2_log_pos rf n) ≡ some e) × (rf.current_term ≡ e.term))

pub commit_at_cases :
    (rf rf' : Raft) (n : ℤ)
    → commit_at rf n ≡ some rf'
    → (rf' ≡ rf)
      ⊎ ((rf' ≡ undate_last_applied (record rf { commit_index = n }))
          × (rf.commit_index <ℤ n)
          × OwnTerm rf n)
unfolding commit_at
commit_at_cases rf rf' n h = elim (Bool-cases (ltb_ℤ rf.commit_index n)) [
  | inr a ↦ inl (cc (rw (a, commit_at) at h))
  | inl a ↦ elim (Bool-cases (leb_ℤ n rf.last_include_index)) [
    | inl b ↦ inr (ground arith, ground arith, inl (ground arith))
    | inr b ↦ elim (Option-cases (at rf.log (index2_log_pos rf n))) [
      | inl c ↦ ground arith
      | inr (e, c) ↦ elim (Bool-cases (rf.current_term ==ℤ e.term)) [
        | inl d ↦ inr (
          cc (rw (a, b, c, d, commit_at) at h),
          ltb_ℤ→lt rf.commit_index n a,
          inr (e, c, ==ℤ→eq rf.current_term e.term d),
        )
        | inr d ↦ inl (cc (rw (a, b, c, d, commit_at) at h))
      ]
    ]
  ]
]

-- The index in the middle of the sorted match indices.
abbrev pub Middle : Raft → List ℤ → ℤ → Type 0
Middle rf others n =
    get_elem? (sort_ints (last_index rf ∷ others)) (length (sort_ints (last_index rf ∷ others)) / 2)
    ≡ some n

pub update_cases :
    (rf rf' : Raft)
    → update_commit_index rf ≡ some rf'
    → (rf' ≡ rf)
      ⊎ ((others : List ℤ) × (n : ℤ) × (other_matches rf.peers 0 rf ≡ some others)
          × Middle rf others n
          × (commit_at rf n ≡ some rf'))
unfolding update_commit_index
update_cases rf rf' h = elim (Bool-cases (is_leader rf.state)) [
  | inr a ↦ inl (cc (rw (a, update_commit_index) at h))
  | inl a ↦ elim (Option-cases (other_matches rf.peers 0 rf)) [
    | inl b ↦ cc (rw (a, b, update_commit_index) at h)
    | inr (others, b) ↦
        let sorted : List ℤ = sort_ints (last_index rf ∷ others) in
        elim (Option-cases (get_elem? sorted (length sorted / 2))) [
          | inl c ↦ cc (rw (a, b, c, update_commit_index) at h)
          | inr (n, c) ↦ inr (others, n, b, c, rw (a, b, c, update_commit_index) at h)
        ]
  ]
]

Middle-reached :
    (rf : Raft) (others : List ℤ) (n : ℤ)
    → Middle rf others n
    → length (last_index rf ∷ others) + length (last_index rf ∷ others) % 2
      ≤ 2 * count_reaching n (last_index rf ∷ others)
Middle-reached rf others n m =
    let all : List ℤ = last_index rf ∷ others in
    omega (
      arith,
      count-at n (length (sort_ints all) / 2) (sort_ints all) (sort_ints-IsAscending all) m,
      count-sort_ints n all,
      length-sort_ints all,
    )

-- A leader moves its commit index only to an index that at least half of the cluster has, and more
-- than half of a cluster of odd size, and only to an entry of its own term or one in its snapshot.
pub update_commit_index-quorum :
    (rf rf' : Raft)
    → update_commit_index rf ≡ some rf'
    → rf.commit_index <ℤ rf'.commit_index
    → (others : List ℤ) × (other_matches rf.peers 0 rf ≡ some others)
      × (length (last_index rf ∷ others) + length (last_index rf ∷ others) % 2
          ≤ 2 * count_reaching rf'.commit_index (last_index rf ∷ others))
      × OwnTerm rf rf'.commit_index
unfolding update_commit_index
update_commit_index-quorum rf rf' h moved = elim (update_cases rf rf' h) [
  | inl same ↦ absurd (
      omega (
        arith,
        ap (λ (x : Raft). pos_part x.commit_index) same,
        ap (λ (x : Raft). neg_part x.commit_index) same,
      ))
  | inr (others, n, a, m, c) ↦ elim (commit_at_cases rf rf' n c) [
    | inl same ↦ absurd (
        omega (
          arith,
          ap (λ (x : Raft). pos_part x.commit_index) same,
          ap (λ (x : Raft). neg_part x.commit_index) same,
        ))
    | inr (e, _, own) ↦
        let at_n : rf'.commit_index ≡ n =
          ap (λ (x : Raft). x.commit_index) e
          ∙ commit-undate_last_applied (record rf { commit_index = n }) in
        (others, a, rw at_n (Middle-reached rf others n m), rw at_n own)
  ]
]

only_other :
    (rf : Raft) (m : ℤ)
    → rf.peers ≡ 2
    → rf.me ≡ 0
    → get_elem? rf.match_index 1 ≡ some m
    → other_matches rf.peers 0 rf ≡ some (m ∷ [])
unfolding other_matches
only_other rf m two first other =
    rw (two, other_matches) (rw (first, other_matches) (rw (other, other_matches)))

Middle-of_two : (rf : Raft) (m : ℤ) → m ≤ℤ last_index rf → Middle rf (m ∷ []) (last_index rf)
unfolding sort_ints
Middle-of_two rf m h = elim (Bool-cases (leb_ℤ (last_index rf) m)) [
  | inl a ↦ rw (a, insert_int) (ap some (eq_of_parts m (last_index rf) (ground arith)))
  | inr a ↦ rw (a, insert_int)
]

commit_last :
    (rf : Raft) (e : LogType)
    → rf.last_include_index <ℤ last_index rf
    → at rf.log (index2_log_pos rf (last_index rf)) ≡ some e
    → e.term ≡ rf.current_term
    → rf.commit_index <ℤ last_index rf
    → commit_at rf (last_index rf)
      ≡ some (undate_last_applied (record rf { commit_index = last_index rf }))
unfolding commit_at
commit_last rf e above read own ahead =
    let a : ltb_ℤ rf.commit_index (last_index rf) ≡ true = ground arith in
    let b : leb_ℤ (last_index rf) rf.last_include_index ≡ false = ground arith in
    let c : (rf.current_term ==ℤ e.term) ≡ true = rw own (==ℤ_refl rf.current_term) in
    rw (a, b, read, c, commit_at)

-- A leader of two peers, the first of them, commits its last entry whatever the other peer has of
-- its log, if that entry is of its own term, above its snapshot and above its commit index.
pub two_peers_commit_alone :
    (rf : Raft) (m : ℤ) (e : LogType)
    → rf.state ≡ leader
    → rf.peers ≡ 2
    → rf.me ≡ 0
    → get_elem? rf.match_index 1 ≡ some m
    → m ≤ℤ last_index rf
    → rf.last_include_index <ℤ last_index rf
    → at rf.log (index2_log_pos rf (last_index rf)) ≡ some e
    → e.term ≡ rf.current_term
    → rf.commit_index <ℤ last_index rf
    → (rf' : Raft) × (update_commit_index rf ≡ some rf') × (rf'.commit_index ≡ last_index rf)
unfolding update_commit_index
two_peers_commit_alone rf m e leads two first other behind_it above read own ahead =
    let lead : is_leader rf.state ≡ true = rw leads in
    (
      undate_last_applied (record rf { commit_index = last_index rf }),
      rw (lead, only_other rf m two first other, Middle-of_two rf m behind_it, update_commit_index)
          (commit_last rf e above read own ahead),
      commit-undate_last_applied (record rf { commit_index = last_index rf }),
    )

pub update_commit_index-KeepsVote :
    (rf rf' : Raft) → update_commit_index rf ≡ some rf' → KeepsVote rf rf'
update_commit_index-KeepsVote rf rf' h = elim (update_cases rf rf' h) [
  | inl same ↦ rw same (KeepsVote-refl rf)
  | inr (others, n, _, _, c) ↦ elim (commit_at_cases rf rf' n c) [
    | inl same ↦ rw same (KeepsVote-refl rf)
    | inr (same, _, _) ↦ rw same (
        KeepsVote-trans (record { term = refl; vote = refl })
          (undate_last_applied-KeepsVote (record rf { commit_index = n })))
  ]
]
