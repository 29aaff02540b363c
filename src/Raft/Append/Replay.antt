-- ===== src/Raft/Append/Replay.antt =====
-- What a restart finds after CopyEntries.
use fir_etcd.Prelude.{
  length, take, drop, length-append, take-append-drop, ◌+ℤ◌, ℤ, pos, ◌≤ℤ◌, ℕ, ◌<◌, ◌≡◌, sym, ap,
  ◌∙◌, true, false, Option, none, some, List, [], ◌∷◌, ◌++◌, append-nil, append_assoc, arith,
}
use fir_etcd.Raft.State.{LogType, entry_record, Journal, Raft, last_index, write}
use fir_etcd.Raft.Recovery.{Durable, durable, recovered, Recovers}
use fir_etcd.Raft.Recovery.Laws.{
  replays, recovered-eq-replays, plain_entry, replays-write, linked-write,
}
use fir_etcd.Raft.Append.{copy_entries}
use fir_etcd.Raft.Append.Merge.{
  merge, fresh, write_all, with_log, conflict, merge-fresh, length-merge-conflict, upto,
  copy_entries-merge,
}

-- The peer writes the entries of a list, one after the other, to its log file.
abbrev with_entries : Durable → List LogType → Durable
with_entries d es = record d { log = d.log ++ es }

replays-write_all :
    (me peers : ℕ) (w : Journal) (d : Durable) (es : List LogType)
    → w.linked ≡ true
    → replays me peers w ≡ some d
    → replays me peers (write_all w es) ≡ some (with_entries d es)
unfolding write_all
replays-write_all me peers w d [] linked h =
    h ∙ ap (λ l. some (record d { log = l })) (sym (append-nil d.log))
replays-write_all me peers w d (e ∷ es) linked h =
    replays-write_all me peers (write w (entry_record e)) (with_entries d (e ∷ [])) es
      (linked-write w (entry_record e) linked)
      (replays-write me peers w d (entry_record e) linked (plain_entry e) h)
    ∙ ap (λ l. some (record d { log = l })) (append_assoc d.log (e ∷ []) es)

linked-write_all :
    (w : Journal) (es : List LogType) → w.linked ≡ true → (write_all w es).linked ≡ true
unfolding write_all
linked-write_all w [] h = h
linked-write_all w (e ∷ es) h =
    linked-write_all (write w (entry_record e)) es (linked-write w (entry_record e) h)

-- The log that CopyEntries leaves, and the one that a restart would find.
abbrev pub copied_log : Raft → ℤ → List LogType → List LogType
copied_log rf prev es = take (upto rf prev) rf.log ++ merge (drop (upto rf prev) rf.log) es

abbrev pub replayed_log : Raft → ℤ → List LogType → List LogType
replayed_log rf prev es = rf.log ++ fresh (drop (upto rf prev) rf.log) es

agree_log :
    (rf : Raft) (prev : ℤ) (es : List LogType)
    → conflict (drop (upto rf prev) rf.log) es ≡ false
    → copied_log rf prev es ≡ replayed_log rf prev es
agree_log rf prev es agree =
    ap (λ l. take (upto rf prev) rf.log ++ l) (merge-fresh (drop (upto rf prev) rf.log) es agree)
    ∙ sym (append_assoc (take (upto rf prev) rf.log) _ _)
    ∙ ap (λ l. l ++ fresh (drop (upto rf prev) rf.log) es) (take-append-drop (upto rf prev) rf.log)

cut_log :
    (rf : Raft) (prev : ℤ) (es : List LogType)
    → conflict (drop (upto rf prev) rf.log) es ≡ true
    → length (copied_log rf prev es) < length (replayed_log rf prev es)
cut_log rf prev es cut =
    let n : ℕ = upto rf prev in
    omega (
      arith,
      length-merge-conflict (drop n rf.log) es cut,
      length-append (take n rf.log) (merge (drop n rf.log) es),
      length-append (drop n rf.log) (fresh (drop n rf.log) es),
      length-append rf.log (fresh (drop n rf.log) es),
      length-append (take n rf.log) (drop n rf.log),
      ap length (take-append-drop n rf.log),
    )

logged : Option Durable → List LogType
logged none = []
logged (some d) = d.log

module _ (rf rf' : Raft) (prev : ℤ) (es : List LogType) (lo : rf.last_include_index ≤ℤ prev)
    (hi : prev ≤ℤ last_index rf) (h : Recovers rf)
    (copied : copy_entries rf (prev +ℤ pos 1) es ≡ some rf') where
  new : List LogType
  new = fresh (drop (upto rf prev) rf.log) es

  result : rf' ≡ with_log rf (copied_log rf prev es) (write_all rf.wal new)
  unfolding new
  result = cc (copied, copy_entries-merge rf prev es lo hi)

  -- After CopyEntries a restart finds the whole old log with the new entries behind it.
  pub recovered-copy_entries :
      recovered rf' ≡ some (record (durable rf) { log = replayed_log rf prev es })
  unfolding new
  recovered-copy_entries = rw result (
      recovered-eq-replays (with_log rf (copied_log rf prev es) (write_all rf.wal new))
      ∙ replays-write_all rf.me rf.peers rf.wal (durable rf) new h.linked
          (sym (recovered-eq-replays rf) ∙ h.same))

  -- For a peer whose state in memory a restart finds, and a call from an index between its
  -- snapshot and the end of its log: when no entry of the call has another term than the log has
  -- at its index, a restart finds the state in memory after CopyEntries too.
  pub copy_entries-Recovers : conflict (drop (upto rf prev) rf.log) es ≡ false → Recovers rf'
  unfolding new
  copy_entries-Recovers agree = record {
    linked = rw result (linked-write_all rf.wal new h.linked);
    same =
        recovered-copy_entries
        ∙ rw result
            (ap (λ l. some (record (durable rf) { log = l })) (sym (agree_log rf prev es agree)));
  }

  -- For a peer whose state in memory a restart finds, and a call from an index between its
  -- snapshot and the end of its log: when an entry of the call has another term than the log has
  -- at its index, a restart after CopyEntries does not find the state in memory.
  pub copy_entries-loses : conflict (drop (upto rf prev) rf.log) es ≡ true → ¬ Recovers rf'
  unfolding new logged
  copy_entries-loses cut r =
      let same : replayed_log rf prev es ≡ copied_log rf prev es =
        ap logged (sym recovered-copy_entries ∙ r.same) ∙ ap (λ (x : Raft). x.log) result in
      absurd (omega (arith, ap length same, cut_log rf prev es cut))
