-- ===== src/Raft/Snapshot/Laws.antt =====
-- What a snapshot keeps of the log, and what it leaves for a restart.

use fir_etcd.Raft.Leader.{SnapshotInstallArgs}
use fir_etcd.Raft.Recovery.Laws.{recovered-eq-replays, replays-empty}
use fir_etcd.Raft.Recovery.{blank, recovered}
use fir_etcd.Prelude.{
  Bool-cases, Option-cases, get_elem?, drop, length-drop, get_elem?-drop, lt-length_of_get, ◌+ℤ◌,
  ◌-ℤ◌, ℤ, pos, pos_part, neg_part, ◌≤ℤ◌, ◌<ℤ◌, ltb_ℤ, leb_ℤ, at, int_laws, neg_part-sub, leb_ℤ→lt,
  leb_ℤ→le, ℕ, zero, suc, ◌+◌, ◌-◌, ◌≡◌, refl, sym, ap, ◌∙◌, ◌⊎◌, inl, inr, true, Option, some,
  List, [], ◌∷◌, arith,
}
use fir_etcd.Raft.State.{
  Bytes, LogType, WalRecord, Journal, Raft, last_index, last_term_of, last_term, index2_log_pos,
  write, truncate, persist_state, write_snapshot, index2_log_pos_above, KeepsVote, Advances,
  KeepsVote-refl, Advances-KeepsVote,
}
use fir_etcd.Raft.Snapshot.{save_snapshot, snapshot, hear_snapshot, install, snapshot_install}

last_term_of-read :
    (t : ℤ) (l : List LogType) (d : ℕ) (e : LogType)
    → get_elem? l d ≡ some e
    → last_term_of t l ≡ last_term_of e.term (drop (suc d) l)
unfolding last_term_of
last_term_of-read t [] d e h = cc
last_term_of-read t (x ∷ l) zero e h = ground arith
last_term_of-read t (x ∷ l) (suc d) e h = last_term_of-read x.term l d e h

-- The entry that the peer has at an index.
abbrev pub entry_at : Raft → ℤ → Option LogType
entry_at rf index = at rf.log (index2_log_pos rf index)

-- The peer with its log compacted up to `index`, whose entry has the term `t`.
abbrev compacted : Raft → ℤ → ℤ → Bytes → Raft
compacted rf index t content = record (save_snapshot rf index t content) {
  log = drop (pos_part (index -ℤ rf.last_include_index)) rf.log;
  last_include_index = index;
  last_include_term = t;
}

snapshot_cases :
    (rf rf' : Raft) (index : ℤ) (content : Bytes)
    → snapshot rf index content ≡ some rf'
    → ((rf' ≡ rf) × (index -ℤ pos 1 ≤ℤ rf.last_include_index))
      ⊎ ((e : LogType) × (rf.last_include_index <ℤ index -ℤ pos 1)
          × (entry_at rf (index -ℤ pos 1) ≡ some e)
          × (rf' ≡ compacted rf (index -ℤ pos 1) e.term content))
unfolding snapshot
snapshot_cases rf rf' index content h =
    elim (Bool-cases (leb_ℤ (index -ℤ pos 1) rf.last_include_index)) [
      | inl a ↦ inl (cc (rw (a, snapshot) at h), leb_ℤ→le (index -ℤ pos 1) rf.last_include_index a)
      | inr a ↦ elim (Option-cases (entry_at rf (index -ℤ pos 1))) [
        | inl b ↦ cc (rw (a, b, snapshot) at h)
        | inr (e, b) ↦
            inr (
              e,
              leb_ℤ→lt (index -ℤ pos 1) rf.last_include_index a,
              b,
              cc (rw (a, b, snapshot) at h),
            )
      ]
    ]

module _ (rf : Raft) (index : ℤ) (e : LogType) (above : rf.last_include_index <ℤ index)
    (read : entry_at rf index ≡ some e) where
  -- how many entries go
  gone : (d : ℕ) × (index ≡ rf.last_include_index +ℤ pos (suc d)) × (get_elem? rf.log d ≡ some e)
  gone =
      let d : ℕ =
        pos_part index
        + neg_part rf.last_include_index
        - (pos_part rf.last_include_index + neg_part index)
        - 1 in
      let here : index ≡ rf.last_include_index +ℤ pos (suc d) = omega int_laws in
      (d, here, rw (index2_log_pos_above rf index d here) at read)

  dropped :
      (content : Bytes)
      → (d : ℕ) × (index ≡ rf.last_include_index +ℤ pos (suc d))
        × (get_elem? rf.log d ≡ some e)
        × ((compacted rf index e.term content).log ≡ drop (suc d) rf.log)
  unfolding save_snapshot
  dropped content =
      let (d, here, at_d) = gone in
      let p : pos_part (index -ℤ rf.last_include_index) ≡ suc d = omega (
        int_laws,
        neg_part-sub index rf.last_include_index (omega arith),
        ap pos_part here,
        ap neg_part here,
      ) in
      (d, here, at_d, ap (λ n. drop n rf.log) p)

  last_index-compacted :
      (content : Bytes) → last_index (compacted rf index e.term content) ≡ last_index rf
  unfolding last_index save_snapshot
  last_index-compacted content =
      let (d, here, at_d, same) = dropped content in
      rw (same) (
        omega (
          int_laws,
          length-drop (suc d) rf.log,
          lt-length_of_get rf.log d e at_d,
          ap pos_part here,
          ap neg_part here,
        ))

  last_term-compacted :
      (content : Bytes) → last_term (compacted rf index e.term content) ≡ last_term rf
  unfolding last_term save_snapshot
  last_term-compacted content =
      let (d, here, at_d, same) = dropped content in
      rw same (sym (last_term_of-read rf.last_include_term rf.log d e at_d))

  entry_at-compacted :
      (content : Bytes) (k : ℤ)
      → index <ℤ k
      → entry_at (compacted rf index e.term content) k ≡ entry_at rf k
  unfolding save_snapshot
  entry_at-compacted content k h =
      let (d, here, at_d, same) = dropped content in
      let j : ℕ = pos_part k + neg_part index - (pos_part index + neg_part k) - 1 in
      let there : k ≡ index +ℤ pos (suc j) = omega int_laws in
      let before : k ≡ rf.last_include_index +ℤ pos (suc (suc d + j)) =
        omega
          (int_laws, ap pos_part here, ap neg_part here, ap pos_part there, ap neg_part there) in
      rw
        (
          index2_log_pos_above (compacted rf index e.term content) k j there,
          index2_log_pos_above rf k (suc d + j) before,
          same,
        )
        (get_elem?-drop (suc d) j rf.log)

-- What the service and the other peers see of a log: its end, and the entries above an index.
pub record SameAbove (rf rf' : Raft) : Type 0 where
  pub last : last_index rf' ≡ last_index rf
  pub term : last_term rf' ≡ last_term rf
  pub entries : (k : ℤ) → rf'.last_include_index <ℤ k → entry_at rf' k ≡ entry_at rf k

-- A snapshot changes neither the last index and term of the log nor any entry above it.
pub snapshot-SameAbove :
    (rf rf' : Raft) (index : ℤ) (content : Bytes)
    → snapshot rf index content ≡ some rf'
    → SameAbove rf rf'
snapshot-SameAbove rf rf' index content h = elim (snapshot_cases rf rf' index content h) [
  | inl (same, _) ↦ rw same (record { last = refl; term = refl; entries = λ k _. refl })
  | inr (e, above, read, same) ↦ rw same (record {
    last = last_index-compacted rf (index -ℤ pos 1) e above read content;
    term = last_term-compacted rf (index -ℤ pos 1) e above read content;
    entries = λ k h. entry_at-compacted rf (index -ℤ pos 1) e above read content k h;
  })
]

records-truncate : (w : Journal) (i : ℤ) → pos w.seq ≤ℤ i → (truncate w i).records ≡ []
unfolding truncate
records-truncate w i h = let e : leb_ℤ (pos w.seq) i ≡ true = ground arith in rw e

seq-write : (w : Journal) (r : WalRecord) → (write w r).seq ≡ w.seq
unfolding write
seq-write w r = ground arith

forgotten :
    (rf : Raft) (index t : ℤ) (content : Bytes)
    → pos rf.wal.seq ≤ℤ index
    → recovered (compacted rf index t content) ≡ some blank
unfolding save_snapshot write_snapshot
forgotten rf index t content number =
    recovered-eq-replays (compacted rf index t content)
    ∙ replays-empty rf.me rf.peers _ (records-truncate _ index (rw seq-write number))

-- A snapshot above the last one, at or above the number of the log file, removes the file: a
-- restart finds a peer that has never run, without its term, its vote, its entries and the
-- snapshot itself.
pub recovered-snapshot :
    (rf rf' : Raft) (index : ℤ) (content : Bytes)
    → snapshot rf index content ≡ some rf'
    → rf.last_include_index <ℤ index -ℤ pos 1
    → pos rf.wal.seq ≤ℤ index -ℤ pos 1
    → recovered rf' ≡ some blank
recovered-snapshot rf rf' index content h above number =
    elim (snapshot_cases rf rf' index content h) [
      | inl (_, low) ↦ absurd (omega arith)
      | inr (e, _, _, same) ↦ rw same (forgotten rf (index -ℤ pos 1) e.term content number)
    ]

hear_snapshot-Advances :
    (rf : Raft) (args : SnapshotInstallArgs) (now : ℕ) → Advances rf (hear_snapshot rf args now)
unfolding hear_snapshot persist_state
hear_snapshot-Advances rf args now = elim (Bool-cases (ltb_ℤ rf.current_term args.term)) [
  | inl e ↦ inr (ground arith)
  | inr e ↦ inl (record { term = ground arith; vote = ground arith })
]

install-KeepsVote : (rf : Raft) (args : SnapshotInstallArgs) → KeepsVote rf (install rf args)
unfolding install save_snapshot
install-KeepsVote rf args = record { term = refl; vote = refl }

pub snapshot_install-Advances :
    (rf : Raft) (args : SnapshotInstallArgs) (now : ℕ)
    → Advances rf (snapshot_install rf args now).0
unfolding snapshot_install
snapshot_install-Advances rf args now = elim (Bool-cases (ltb_ℤ args.term rf.current_term)) [
  | inl a ↦ rw a (inl (KeepsVote-refl rf))
  | inr a ↦
      let heard : Raft = hear_snapshot rf args now in
      elim (Bool-cases (leb_ℤ args.last_include_index heard.last_include_index)) [
        | inl b ↦ rw (a, b) (hear_snapshot-Advances rf args now)
        | inr b ↦
            rw (a, b)
              (Advances-KeepsVote (hear_snapshot-Advances rf args now)
                (install-KeepsVote heard args))
      ]
]

pub snapshot-KeepsVote :
    (rf rf' : Raft) (index : ℤ) (content : Bytes)
    → snapshot rf index content ≡ some rf'
    → KeepsVote rf rf'
unfolding save_snapshot
snapshot-KeepsVote rf rf' index content h = elim (snapshot_cases rf rf' index content h) [
  | inl (same, _) ↦ rw same (KeepsVote-refl rf)
  | inr (e, _, _, same) ↦ rw same (record { term = refl; vote = refl })
]
