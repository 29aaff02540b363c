-- ===== src/Raft/Append/Apply.antt =====
-- undateLastApplied: which entries go to the state machine, and in which order.
use fir_etcd.Prelude.{
  Option-cases, length, take, drop, length-append, take-append-drop, get_elem?-append_length, ◌+ℤ◌,
  ◌-ℤ◌, ℤ, pos, pos_part, neg_part, ◌≤ℤ◌, at, int_laws, offset-take, offset-drop, add_behind, ℕ,
  zero, suc, ◌≤◌, ◌≡◌, refl, sym, ap, ◌∙◌, inl, inr, some, List, [], ◌∷◌, ◌++◌, append-nil,
  append_assoc, arith,
}
use fir_etcd.Raft.State.{LogType, ApplyMsg, Raft, last_index, index2_log_pos}
use fir_etcd.Raft.Append.{command_msg, apply_entry, undate_rounds, behind, undate_last_applied}

-- The messages for the entries that follow the index `applied`, in order.
pub msgs_after : ℤ → List LogType → List ApplyMsg
msgs_after applied [] = []
msgs_after applied (e ∷ es) = command_msg e (applied +ℤ pos 1) ∷ msgs_after (applied +ℤ pos 1) es

-- The peer after it has applied `n` entries of `rest`, which follow its last applied one.
pub record Applies (rf rf' : Raft) (n : ℕ) (rest : List LogType) : Type 0 where
  pub sent : rf'.apply_ch_term ≡ rf.apply_ch_term ++ msgs_after rf.last_applied (take n rest)
  pub counted : rf'.last_applied ≡ rf.last_applied +ℤ pos n
  pub log : rf'.log ≡ rf.log
  pub base : rf'.last_include_index ≡ rf.last_include_index
  pub durable : rf'.wal ≡ rf.wal
  pub commit : rf'.commit_index ≡ rf.commit_index

next_entry :
    (rf : Raft) (pre : List LogType) (e : LogType) (rest : List LogType)
    → rf.log ≡ pre ++ e ∷ rest
    → rf.last_applied ≡ rf.last_include_index +ℤ pos (length pre)
    → at rf.log (index2_log_pos rf (rf.last_applied +ℤ pos 1)) ≡ some e
unfolding index2_log_pos
next_entry rf pre e rest log here =
    let p : rf.last_applied +ℤ pos 1 -ℤ rf.last_include_index -ℤ pos 1 ≡ pos (length pre) =
      omega (int_laws, ap pos_part here, ap neg_part here) in
    rw (p, log) (get_elem?-append_length pre e rest)

+ℤ_zero : (a : ℤ) → a ≡ a +ℤ pos 0
+ℤ_zero a = omega int_laws

+ℤ_suc : (a : ℤ) (n : ℕ) → a +ℤ pos 1 +ℤ pos n ≡ a +ℤ pos (suc n)
+ℤ_suc a n = omega int_laws

Applies-suc :
    (rf rf' : Raft) (n : ℕ) (e : LogType) (rest : List LogType)
    → Applies (apply_entry rf e) rf' n rest
    → Applies rf rf' (suc n) (e ∷ rest)
unfolding apply_entry msgs_after
Applies-suc rf rf' n e rest ih = record {
  sent = ih.sent ∙ append_assoc rf.apply_ch_term _ _;
  counted = ih.counted ∙ +ℤ_suc rf.last_applied n;
  log = ih.log;
  base = ih.base;
  durable = ih.durable;
  commit = ih.commit;
}

advance :
    (rf : Raft) (pre : List LogType) (e : LogType)
    → rf.last_applied ≡ rf.last_include_index +ℤ pos (length pre)
    → (apply_entry rf e).last_applied
      ≡ (apply_entry rf e).last_include_index +ℤ pos (length (pre ++ e ∷ []))
unfolding apply_entry
advance rf pre e here =
    omega (int_laws, ap pos_part here, ap neg_part here, length-append pre (e ∷ []))

undate_rounds-Applies :
    (n : ℕ) (rf : Raft) (pre rest : List LogType)
    → rf.log ≡ pre ++ rest
    → rf.last_applied ≡ rf.last_include_index +ℤ pos (length pre)
    → n ≤ length rest
    → Applies rf (undate_rounds n rf) n rest
unfolding undate_rounds msgs_after
undate_rounds-Applies zero rf pre rest log here h = record {
  sent = sym (append-nil rf.apply_ch_term);
  counted = +ℤ_zero rf.last_applied;
  log = refl;
  base = refl;
  durable = refl;
  commit = refl;
}
undate_rounds-Applies (suc n) rf pre [] log here h = absurd (omega arith)
undate_rounds-Applies (suc n) rf pre (e ∷ rest) log here h =
    let ih : Applies (apply_entry rf e) (undate_rounds n (apply_entry rf e)) n rest =
      undate_rounds-Applies n (apply_entry rf e) (pre ++ e ∷ []) rest
        (unfold apply_entry in log ∙ sym (append_assoc pre (e ∷ []) rest)) (advance rf pre e here)
        (omega arith) in
    rw (next_entry rf pre e rest log here, undate_rounds) (Applies-suc rf _ n e rest ih)

-- From a state whose commit index the log reaches, undateLastApplied sends to the state machine
-- exactly the committed entries that it has not sent yet, each once and in the order of the log,
-- and it ends with the last applied index at the commit index.
pub undate_last_applied-Applies :
    (rf : Raft)
    → rf.last_include_index ≤ℤ rf.last_applied
    → rf.last_applied ≤ℤ rf.commit_index
    → rf.commit_index ≤ℤ last_index rf
    → Applies rf
        (undate_last_applied rf)
        (behind rf)
        (drop (pos_part (rf.last_applied -ℤ rf.last_include_index)) rf.log)
      × ((undate_last_applied rf).last_applied ≡ rf.commit_index)
unfolding undate_last_applied last_index
undate_last_applied-Applies rf lo mid hi =
    let k : ℕ = pos_part (rf.last_applied -ℤ rf.last_include_index) in
    let a : Applies rf (undate_rounds (behind rf) rf) (behind rf) (drop k rf.log) =
      undate_rounds-Applies (behind rf) rf (take k rf.log) (drop k rf.log)
        (sym (take-append-drop k rf.log))
        (offset-take rf.log rf.last_include_index rf.last_applied lo (omega int_laws))
        (offset-drop rf.log rf.last_include_index rf.last_applied lo rf.commit_index hi) in
    (a, a.counted ∙ add_behind rf.last_applied rf.commit_index mid)

commit-undate_rounds : (n : ℕ) (rf : Raft) → (undate_rounds n rf).commit_index ≡ rf.commit_index
unfolding undate_rounds apply_entry
commit-undate_rounds zero rf = refl
commit-undate_rounds (suc n) rf =
    elim (Option-cases (at rf.log (index2_log_pos rf (rf.last_applied +ℤ pos 1)))) [
      | inl e ↦ rw (e, undate_rounds)
      | inr (x, e) ↦ rw (e, undate_rounds) (commit-undate_rounds n (apply_entry rf x))
    ]

-- Applying entries never moves the commit index, on any branch.
pub commit-undate_last_applied :
    (rf : Raft) → (undate_last_applied rf).commit_index ≡ rf.commit_index
unfolding undate_last_applied
commit-undate_last_applied rf = commit-undate_rounds (behind rf) rf
