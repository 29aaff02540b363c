-- ===== src/Raft/Append/Merge.antt =====
-- CopyEntries against an independent description of the log that it makes.
use fir_etcd.Prelude.{
  if◌then◌else◌, Bool-cases, length, take, drop, length-append, take-append-drop, length-take,
  get_elem?-append_length, take-append_length, ◌+ℤ◌, ◌-ℤ◌, ℤ, pos, pos_part, neg_part, ◌≤ℤ◌, ltb_ℤ,
  ◌==ℤ◌, +ℤ_parts, -ℤ_parts, int_laws, neg_part-sub, ℕ, suc, ◌≤◌, ◌<◌, ◌≡◌, refl, sym, ap, inl, inr,
  Bool, true, false, some, List, [], ◌∷◌, ◌++◌, append-nil, append_assoc, arith,
}
use fir_etcd.Raft.State.{
  LogType, entry_record, Journal, Raft, last_index, index2_log_pos, write, persist_entry,
}
use fir_etcd.Raft.Append.{copy_entry, copy_entries}

-- The entries after the common point: what agrees by term stays, and from the first entry that
-- differs, or that is new, the leader's entries follow.
unfoldable pub merge : List LogType → List LogType → List LogType
merge xs [] = xs
merge [] (e ∷ es) = e ∷ es
merge (x ∷ xs) (e ∷ es) = if x.term ==ℤ e.term then x ∷ merge xs es else e ∷ es

-- The entries that are new in the log.
unfoldable pub fresh : List LogType → List LogType → List LogType
fresh xs [] = []
fresh [] (e ∷ es) = e ∷ es
fresh (x ∷ xs) (e ∷ es) = if x.term ==ℤ e.term then fresh xs es else e ∷ es

unfoldable pub write_all : Journal → List LogType → Journal
write_all w [] = w
write_all w (e ∷ es) = write_all (write w (entry_record e)) es

-- The peer with another log, and new records in its write-ahead log.
abbrev pub with_log : Raft → List LogType → Journal → Raft
with_log rf l w = record rf { log = l; wal = w }

module _ (rf : Raft) (pre : List LogType) (w : Journal) (index : ℤ) (e : LogType)
    (here : index ≡ rf.last_include_index +ℤ pos (suc (length pre))) where
  log_pos : index -ℤ rf.last_include_index -ℤ pos 1 ≡ pos (length pre)
  log_pos = omega (int_laws, ap pos_part here, ap neg_part here)

  past : ltb_ℤ (rf.last_include_index +ℤ pos (length pre)) index ≡ true
  past = rw here (
      ground (
        arith,
        +ℤ_parts rf.last_include_index (pos (length pre)),
        +ℤ_parts rf.last_include_index (pos (suc (length pre))),
      ))

  inside : (n : ℕ) → length pre < n → ltb_ℤ (rf.last_include_index +ℤ pos n) index ≡ false
  inside n h = rw here (
      ground (
        arith,
        +ℤ_parts rf.last_include_index (pos n),
        +ℤ_parts rf.last_include_index (pos (suc (length pre))),
      ))

  copy_entry-end :
      copy_entry (with_log rf (pre ++ []) w) index e
      ≡ some (with_log rf (pre ++ e ∷ []) (write w (entry_record e)))
  unfolding copy_entry last_index persist_entry
  copy_entry-end = rw (append-nil pre, past)

  copy_entry-at :
      (x : LogType) (xs : List LogType)
      → copy_entry (with_log rf (pre ++ x ∷ xs) w) index e ≡ (
          if x.term ==ℤ e.term
          then some (with_log rf (pre ++ x ∷ xs) w)
          else some (with_log rf (pre ++ e ∷ []) (write w (entry_record e))))
  unfolding copy_entry last_index persist_entry index2_log_pos
  copy_entry-at x xs =
      rw
        (
          inside (length (pre ++ x ∷ xs)) (omega (arith, length-append pre (x ∷ xs))),
          log_pos,
          get_elem?-append_length pre x xs,
          take-append_length pre (x ∷ xs),
        )
        (ground arith)

  next_index :
      (x : LogType) → index +ℤ pos 1 ≡ rf.last_include_index +ℤ pos (suc (length (pre ++ x ∷ [])))
  next_index x = omega (int_laws, ap pos_part here, ap neg_part here, length-append pre (x ∷ []))

merge-nil : (es : List LogType) → merge [] es ≡ es
unfolding merge
merge-nil [] = refl
merge-nil (e ∷ es) = refl

fresh-nil : (es : List LogType) → fresh [] es ≡ es
unfolding fresh
fresh-nil [] = refl
fresh-nil (e ∷ es) = refl

pub length-merge : (xs es : List LogType) → length es ≤ length (merge xs es)
unfolding merge
length-merge xs [] = omega arith
length-merge [] (e ∷ es) = omega arith
length-merge (x ∷ xs) (e ∷ es) = ground (arith, length-merge xs es)

-- Some entry of the peer has another term than the leader's at its place.
unfoldable pub conflict : List LogType → List LogType → Bool
conflict xs [] = false
conflict [] (e ∷ es) = false
conflict (x ∷ xs) (e ∷ es) = if x.term ==ℤ e.term then conflict xs es else true

pub merge-fresh : (xs es : List LogType) → conflict xs es ≡ false → merge xs es ≡ xs ++ fresh xs es
unfolding merge fresh conflict
merge-fresh xs [] h = sym (append-nil xs)
merge-fresh [] (e ∷ es) h = refl
merge-fresh (x ∷ xs) (e ∷ es) h = ground (arith, merge-fresh xs es)

pub length-merge-conflict :
    (xs es : List LogType)
    → conflict xs es ≡ true
    → length (merge xs es) < length (xs ++ fresh xs es)
unfolding merge fresh conflict
length-merge-conflict xs [] h = cc
length-merge-conflict [] (e ∷ es) h = cc
length-merge-conflict (x ∷ xs) (e ∷ es) h =
    ground (arith, length-merge-conflict xs es, length-append xs (e ∷ es))

-- The log of the peer in two parts, and the index of the first entry of the second.
abbrev Copies : Raft → List LogType → List LogType → Journal → ℤ → List LogType → Type 0
Copies rf pre rest w index es =
    copy_entries (with_log rf (pre ++ rest) w) index es
    ≡ some (with_log rf (pre ++ merge rest es) (write_all w (fresh rest es)))

Copies-new :
    (rf : Raft) (pre : List LogType) (w : Journal) (index : ℤ) (e : LogType) (es : List LogType)
    → Copies rf (pre ++ e ∷ []) [] w index es
    → copy_entries (with_log rf (pre ++ e ∷ []) w) index es
      ≡ some (with_log rf (pre ++ e ∷ es) (write_all w es))
Copies-new rf pre w index e es h =
    rw (append-nil (pre ++ e ∷ []), merge-nil es, fresh-nil es, append_assoc pre (e ∷ []) es) at h

Copies-kept :
    (rf : Raft) (pre : List LogType) (x : LogType) (xs : List LogType) (w : Journal) (index : ℤ)
    (es : List LogType)
    → Copies rf (pre ++ x ∷ []) xs w index es
    → copy_entries (with_log rf (pre ++ x ∷ xs) w) index es
      ≡ some (with_log rf (pre ++ x ∷ merge xs es) (write_all w (fresh xs es)))
Copies-kept rf pre x xs w index es h =
    rw (append_assoc pre (x ∷ []) xs, append_assoc pre (x ∷ []) (merge xs es)) at h

copy_entries_from :
    (rf : Raft) (pre rest : List LogType) (w : Journal) (index : ℤ) (es : List LogType)
    → index ≡ rf.last_include_index +ℤ pos (suc (length pre))
    → Copies rf pre rest w index es
unfolding copy_entries merge fresh write_all
copy_entries_from rf pre rest w index [] here = refl
copy_entries_from rf pre [] w index (e ∷ es) here = rw (copy_entry-end rf pre w index e here) (
    Copies-new rf pre _ (index +ℤ pos 1) e es (
      copy_entries_from rf (pre ++ e ∷ []) [] (write w (entry_record e)) (index +ℤ pos 1) es
        (next_index rf pre w index e here e)))
copy_entries_from rf pre (x ∷ xs) w index (e ∷ es) here =
    rw (copy_entry-at rf pre w index e here x xs) (elim (Bool-cases (x.term ==ℤ e.term)) [
      | inl same ↦ rw same (
          Copies-kept rf pre x xs w (index +ℤ pos 1) es (
            copy_entries_from rf (pre ++ x ∷ []) xs w (index +ℤ pos 1) es
              (next_index rf pre w index e here x)))
      | inr differ ↦ rw differ (
          Copies-new rf pre _ (index +ℤ pos 1) e es (
            copy_entries_from rf (pre ++ e ∷ []) [] (write w (entry_record e)) (index +ℤ pos 1) es
              (next_index rf pre w index e here e)))
    ])

-- The number of entries of the peer's log up to the index `prev`.
abbrev pub upto : Raft → ℤ → ℕ
upto rf prev = pos_part (prev -ℤ rf.last_include_index)

after_prev :
    (rf : Raft) (prev : ℤ)
    → rf.last_include_index ≤ℤ prev
    → prev ≤ℤ last_index rf
    → prev +ℤ pos 1 ≡ rf.last_include_index +ℤ pos (suc (length (take (upto rf prev) rf.log)))
unfolding last_index
after_prev rf prev lo hi = rw length-take (
    omega (
      int_laws,
      neg_part-sub prev rf.last_include_index lo,
      -ℤ_parts prev rf.last_include_index,
      +ℤ_parts rf.last_include_index (pos (length rf.log)),
    ))

-- CopyEntries never panics from an index that the log reaches: it leaves the entries up to there,
-- merges the others with the leader's, and persists exactly the entries that are new.
pub copy_entries-merge :
    (rf : Raft) (prev : ℤ) (es : List LogType)
    → rf.last_include_index ≤ℤ prev
    → prev ≤ℤ last_index rf
    → copy_entries rf (prev +ℤ pos 1) es
      ≡ some (
          with_log rf
            (take (upto rf prev) rf.log ++ merge (drop (upto rf prev) rf.log) es)
            (write_all rf.wal (fresh (drop (upto rf prev) rf.log) es)))
copy_entries-merge rf prev es lo hi =
    let n : ℕ = upto rf prev in
    let h : Copies rf (take n rf.log) (drop n rf.log) rf.wal (prev +ℤ pos 1) es =
      copy_entries_from rf (take n rf.log) (drop n rf.log) rf.wal (prev +ℤ pos 1) es
        (after_prev rf prev lo hi) in
    rw (take-append-drop n rf.log) at h
