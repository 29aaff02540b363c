-- ===== src/Raft/Recovery/Laws.antt =====
-- Replaying a longer log, and what a record adds to the state that a restart finds.
use mathlib.Core.Option
use fir_etcd.Prelude.{
  Option-cases, ◌>>=◌, ℕ, ◌≡◌, refl, sym, ap, ◌∙◌, inl, inr, true, Option, some, List, [], ◌∷◌,
  ◌++◌, arith,
}
use fir_etcd.Raft.State.{
  LogType, RaftStateRecord, WalRecord, state_record, entry_record, snapshot_record, Journal, Raft,
  write, persist_state, persist_entry,
}
use fir_etcd.Raft.Recovery.{
  initial, load_record, load_from_wal, make, Durable, durable, blank, restart, recovered, Recovers,
}

pub load_from_wal-append :
    (rf : Raft) (rs : List WalRecord) (r : WalRecord)
    → load_from_wal rf (rs ++ r ∷ []) ≡ (load_from_wal rf rs >>= λ s. load_record s r)
unfolding load_from_wal
load_from_wal-append rf [] r = elim (Option-cases (load_record rf r)) [
  | inl e ↦ rw e
  | inr (s, e) ↦ rw e
]
load_from_wal-append rf (x ∷ rs) r = elim (Option-cases (load_record rf x)) [
  | inl e ↦ rw e
  | inr (s, e) ↦ rw e (load_from_wal-append s rs r)
]

-- What the log of the peer `me` of `peers` replays to.
abbrev pub replays : ℕ → ℕ → Journal → Option Durable
replays me peers w = Option.map durable (load_from_wal (initial me peers w) w.records)

pub recovered-eq-replays : (rf : Raft) → recovered rf ≡ replays rf.me rf.peers rf.wal
unfolding restart make
recovered-eq-replays rf =
    elim (Option-cases (load_from_wal (initial rf.me rf.peers rf.wal) rf.wal.records)) [
      | inl e ↦ rw (e, make)
      | inr (s, e) ↦ rw (e, make)
    ]

abbrev set_wal : Journal → Raft → Raft
set_wal w s = record s { wal = w }

load_record-wal : (s t : Raft) (r : WalRecord) → load_record s r ≡ some t → t.wal ≡ s.wal
unfolding load_record
load_record-wal s t (state_record x) h = ground arith
load_record-wal s t (entry_record x) h = ground arith
load_record-wal s t (snapshot_record x) h = ground arith

load_record-set_wal :
    (w : Journal) (s : Raft) (r : WalRecord)
    → w.snapshots ≡ s.wal.snapshots
    → load_record (set_wal w s) r ≡ Option.map (set_wal w) (load_record s r)
unfolding load_record
load_record-set_wal w s (state_record x) h = refl
load_record-set_wal w s (entry_record x) h = refl
load_record-set_wal w s (snapshot_record x) h = ground arith

load_from_wal-set_wal :
    (w : Journal) (s : Raft) (rs : List WalRecord)
    → w.snapshots ≡ s.wal.snapshots
    → load_from_wal (set_wal w s) rs ≡ Option.map (set_wal w) (load_from_wal s rs)
unfolding load_from_wal
load_from_wal-set_wal w s [] h = refl
load_from_wal-set_wal w s (r ∷ rs) h = elim (Option-cases (load_record s r)) [
  | inl e ↦ rw (load_record-set_wal w s r h, e)
  | inr (t, e) ↦
      rw (load_record-set_wal w s r h, e)
        (load_from_wal-set_wal w t rs
          (h ∙ ap (λ (j : Journal). j.snapshots) (sym (load_record-wal s t r e))))
]

-- The state after one more record.
abbrev pub add_record : Durable → WalRecord → Durable
add_record d (state_record x) = record d { current_term = x.term; voted_for = x.voted_for }
add_record d (entry_record x) = record d { log = d.log ++ x ∷ [] }
add_record d (snapshot_record x) = d

pub data IsPlain : WalRecord → Type 0 where
  plain_state : (x : RaftStateRecord) → IsPlain (state_record x)
  plain_entry : (x : LogType) → IsPlain (entry_record x)

load_record-IsPlain :
    (s : Raft) {r : WalRecord}
    → IsPlain r
    → Option.map durable (load_record s r) ≡ some (add_record (durable s) r)
unfolding load_record
load_record-IsPlain s (plain_state x) = refl
load_record-IsPlain s (plain_entry x) = refl

add_record_at :
    (w : Journal) (s : Raft) (rs : List WalRecord) (d : Durable) (r : WalRecord)
    → w.snapshots ≡ s.wal.snapshots
    → IsPlain r
    → Option.map durable (load_from_wal s rs) ≡ some d
    → Option.map durable (load_from_wal (set_wal w s) (rs ++ r ∷ [])) ≡ some (add_record d r)
add_record_at w s rs d r same p h = elim (Option-cases (load_from_wal s rs)) [
  | inl e ↦ cc (e, h)
  | inr (t, e) ↦
      let h' : some (durable t) ≡ some d = rw e at h in
      let q : durable t ≡ d = cc h' in
      rw (load_from_wal-append (set_wal w s) rs r, load_from_wal-set_wal w s rs same, e)
        (load_record-IsPlain (set_wal w t) p ∙ ap (λ x. some (add_record x r)) q)
]

pub replays-write :
    (me peers : ℕ) (w : Journal) (d : Durable) (r : WalRecord)
    → w.linked ≡ true
    → IsPlain r
    → replays me peers w ≡ some d
    → replays me peers (write w r) ≡ some (add_record d r)
unfolding write initial
replays-write me peers w d r linked p h =
    rw (linked, write) (add_record_at _ (initial me peers w) w.records d r refl p h)

-- A peer whose restart would find `old` may change its state and write one record for the change.
pub write-Recovers :
    (old rf : Raft) (r : WalRecord)
    → Recovers old
    → IsPlain r
    → rf.me ≡ old.me
    → rf.peers ≡ old.peers
    → rf.wal ≡ write old.wal r
    → durable rf ≡ add_record (durable old) r
    → Recovers rf
unfolding write
write-Recovers old rf r h p me peers wal d = record {
  linked = ground (arith, h.linked);
  same =
      recovered-eq-replays rf
      ∙ rw (me, peers, wal, d)
          (replays-write old.me old.peers old.wal (durable old) r h.linked p
            (sym (recovered-eq-replays old) ∙ h.same));
}

-- A peer may change what is not durable and write nothing.
pub same-Recovers :
    (old rf : Raft)
    → Recovers old
    → rf.me ≡ old.me
    → rf.peers ≡ old.peers
    → rf.wal ≡ old.wal
    → durable rf ≡ durable old
    → Recovers rf
same-Recovers old rf h me peers wal d = record {
  linked = ground (arith, h.linked);
  same = recovered-eq-replays rf ∙ rw (me, peers, wal, d) (sym (recovered-eq-replays old) ∙ h.same);
}

pub persist_state-Recovers :
    (old rf : Raft)
    → Recovers old
    → rf.me ≡ old.me
    → rf.peers ≡ old.peers
    → rf.wal ≡ old.wal
    → rf.log ≡ old.log
    → rf.last_include_index ≡ old.last_include_index
    → rf.last_include_term ≡ old.last_include_term
    → Recovers (persist_state rf)
unfolding persist_state
persist_state-Recovers old rf h me peers wal log index term =
    write-Recovers old _
      (state_record (record { term = rf.current_term; voted_for = rf.voted_for })) h (plain_state _)
      me peers (rw wal) (ground arith)

pub persist_entry-Recovers :
    (old rf : Raft) (e : LogType)
    → Recovers old
    → rf.me ≡ old.me
    → rf.peers ≡ old.peers
    → rf.wal ≡ old.wal
    → durable rf ≡ add_record (durable old) (entry_record e)
    → Recovers (persist_entry rf e)
unfolding persist_entry
persist_entry-Recovers old rf e h me peers wal d =
    write-Recovers old _ (entry_record e) h (plain_entry e) me peers (rw wal) d

pub linked-write : (w : Journal) (r : WalRecord) → w.linked ≡ true → (write w r).linked ≡ true
unfolding write
linked-write w r h = ground arith

pub replays-empty : (me peers : ℕ) (w : Journal) → w.records ≡ [] → replays me peers w ≡ some blank
unfolding load_from_wal initial
replays-empty me peers w h = rw (h, load_from_wal)

pub initial-Recovers :
    (me peers : ℕ) (w : Journal) → w.linked ≡ true → w.records ≡ [] → Recovers (initial me peers w)
unfolding initial
initial-Recovers me peers w linked h = record {
  linked = linked;
  same = recovered-eq-replays (initial me peers w) ∙ replays-empty me peers w h;
}
