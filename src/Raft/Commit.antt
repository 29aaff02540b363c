-- ===== src/Raft/Commit.antt =====
-- updateCommitIndex of raft/raft.go, with the sort.Ints that it uses.
pub mod Sorted
pub mod Quorum
use fir_etcd.Prelude.{
  ◌==◌, if◌then◌else◌, ◌>>=◌, ◌>>◌, length, get_elem?, ℤ, ltb_ℤ, leb_ℤ, ◌==ℤ◌, at, ℕ, zero, suc,
  ◌+◌, ◌/◌, Option, some, List, [], ◌∷◌,
}
use fir_etcd.Raft.State.{is_leader, Raft, last_index, index2_log_pos}
use fir_etcd.Raft.Append.{undate_last_applied}

unfoldable pub insert_int : ℤ → List ℤ → List ℤ
insert_int a [] = a ∷ []
insert_int a (x ∷ xs) = if leb_ℤ a x then a ∷ x ∷ xs else x ∷ insert_int a xs

-- sort.Ints
unfoldable pub sort_ints : List ℤ → List ℤ
unfolding insert_int
sort_ints [] = []
sort_ints (x ∷ xs) = insert_int x (sort_ints xs)

-- The loop over the peers that collects the match indices of the others; `rounds` peers are left.
unfoldable pub other_matches : ℕ → ℕ → Raft → Option (List ℤ)
other_matches zero i rf = some []
other_matches (suc rounds) i rf =
    let rest = other_matches rounds (i + 1) rf in
    if i == rf.me then rest else get_elem? rf.match_index i >>= λ m. rest >>= λ ms. some (m ∷ ms)

-- The test on the term of the entry at the new index, and the commit.
unfoldable pub commit_at : Raft → ℤ → Option Raft
commit_at rf n =
    let commit = undate_last_applied (record rf { commit_index = n }) in
    if ltb_ℤ rf.commit_index n
    then if leb_ℤ n rf.last_include_index
      then some commit
      else (at rf.log (index2_log_pos rf n) >>= λ e.
          if rf.current_term ==ℤ e.term then some commit else some rf)
    else some rf

unfoldable pub update_commit_index : Raft → Option Raft
update_commit_index rf =
    if is_leader rf.state
    then (do
      others ← other_matches rf.peers 0 rf
      let match_index = sort_ints (last_index rf ∷ others)
      n ← get_elem? match_index (length match_index / 2)
      commit_at rf n)
    else some rf
