-- ===== src/Client/Refused.antt =====
-- The reads of a client, answered by the handler Get.

use fir_etcd.Prelude.{
  Bool-cases, ◌>>=◌, ℤ, at, Bytes, ℕ, zero, suc, ◌*◌, ◌≡◌, ap, ◌∙◌, inl, inr, Bool, Option, none,
  some, arith,
}
use fir_etcd.Raft.State.{is_leader, Raft}
use fir_etcd.Store.{Pair, Db}
use fir_etcd.Kv.{Op, KvServer}
use fir_etcd.Kv.Requests.{
  err_ok, err_no_key, err_cas_failed, err_wrong_leader, err_wait_for_recover,
}
use fir_etcd.Kv.Reads.{GetArgs, GetReply, check_if_depose, get}
use fir_etcd.Client.{
  Client, Sending, Turn, done, again, leave_server, find_valid, follow_leader, found_turn,
  after_turn, send_loop, first_sending,
}
use fir_etcd.Client.Read.{
  ReadAnswer, read_lost, read_answer, ReadAttempt, ReadResult, read_faild, take_read, ask_read,
  read_request,
}
use fir_etcd.Client.Bounds.{IsSound, InCluster}
use fir_etcd.Client.Bounds.Returns.{ReadFromCluster, read_request-Returns}

-- The server that a read reaches.
pub record Peer (db : Db) : Type 0 where
  pub rf : Raft
  pub kv : KvServer db
  pub me : ℤ

abbrev pub answer_of : Option (Raft × GetReply) → ReadAnswer
answer_of none = read_lost
answer_of (some (rf, reply)) = read_answer reply.err reply.value reply.leader_id reply.server_id

-- An answer that sends the client on.
abbrev Refuses : ReadAnswer → Type 0
Refuses read_lost = Unit {0}
Refuses (read_answer err_wrong_leader vs leader_id server_id) = Unit {0}
Refuses (read_answer err_wait_for_recover vs leader_id server_id) = Unit {0}
Refuses (read_answer _ vs leader_id server_id) = ⊥

module _ {R : Type 0} where
  abbrev GoesOn : Option (Turn R) → Type 0
  GoesOn none = Unit {0}
  GoesOn (some (done ck r)) = ⊥
  GoesOn (some (again ck s)) = Unit {0}

  after_turn-failed :
      (o : Option (Turn R)) (go_on : Client → Sending → Option (Client × R)) (ck' : Client)
      (r f : R)
      → GoesOn o
      → ((ck : Client) (s : Sending) → go_on ck s ≡ some (ck', r) → r ≡ f)
      → after_turn go_on o ≡ some (ck', r)
      → r ≡ f
  after_turn-failed none go_on ck' r f g ih h = cc
  after_turn-failed (some (done ck q)) go_on ck' r f g ih h = absurd g
  after_turn-failed (some (again ck s)) go_on ck' r f g ih h = ih ck s h

  send_loop-failed :
      (failed : R) (turn : ℕ → Client → Sending → Option (Turn R))
      → ((i : ℕ) (ck : Client) (s : Sending) → GoesOn (turn i ck s))
      → (turns : ℕ) (ck ck' : Client) (s : Sending) (r : R)
      → send_loop failed turn turns ck s ≡ some (ck', r)
      → r ≡ failed
  unfolding send_loop
  send_loop-failed failed turn g zero ck ck' s r h = ground arith
  send_loop-failed failed turn g (suc turns) ck ck' s r h =
      after_turn-failed (turn turns ck s) _ ck' r failed (g turns ck s)
        (λ c s' e. send_loop-failed failed turn g turns c ck' s' r e) h

  found-GoesOn :
      (limit : ℕ) (valid : ℕ → Bool) (ck : Client) (s : Sending)
      (ask : Client → Sending → Option (Turn R))
      → ((c : Client) (s' : Sending) → GoesOn (ask c s'))
      → GoesOn (found_turn limit valid ck s ask)
  unfolding found_turn
  found-GoesOn limit valid ck s ask g =
      let left : Client × Sending = leave_server limit ck s in
      let found : Client × Bool = find_valid ck.servers valid left.0 in
      elim (Bool-cases found.1) [ inl f ↦ rw f (g found.0 left.1) | inr f ↦ rw f tt ]

  read_at-GoesOn : (o : Option ℤ) (t : Option (Turn R)) → GoesOn t → GoesOn (o >>= λ _. t)
  read_at-GoesOn none t g = tt
  read_at-GoesOn (some i) t g = g

follow-GoesOn :
    (o : Option Client) (s : Sending) → GoesOn {R = ReadResult} (o >>= λ ck. some (again ck s))
follow-GoesOn none s = tt
follow-GoesOn (some ck) s = tt

refused_turn : (a : ReadAnswer) (ck : Client) (s : Sending) → Refuses a → GoesOn (ask_read a ck s)
unfolding ask_read take_read
refused_turn read_lost ck s g = tt
refused_turn (read_answer err_ok vs leader_id server_id) ck s g = absurd g
refused_turn (read_answer err_no_key vs leader_id server_id) ck s g = absurd g
refused_turn (read_answer err_cas_failed vs leader_id server_id) ck s g = absurd g
refused_turn (read_answer err_wrong_leader vs leader_id server_id) ck s g =
    read_at-GoesOn (at ck.s_to_c server_id) _ (follow-GoesOn (follow_leader _ leader_id) _)
refused_turn (read_answer err_wait_for_recover vs leader_id server_id) ck s g =
    read_at-GoesOn (at ck.s_to_c server_id) _ tt

module _ (db : Db) (encode : Pair → Bytes) (marshal : Op → Bytes) where
  get_refused :
      (p : Peer db) (args : GetArgs)
      → Refuses (answer_of (get db encode marshal p.rf p.kv p.me args))
  unfolding get check_if_depose
  get_refused p args = elim (Bool-cases (is_leader p.rf.state)) [
    | inl l ↦ elim (Bool-cases p.rf.iis_back) [ inl b ↦ rw (l, b) tt | inr b ↦ rw (l, b) tt ]
    | inr l ↦ rw l tt
  ]

  abbrev pub InRange : ℕ → Peer db → Type 0
  InRange n p = InCluster n p.rf.leader_id p.me

  get-FromCluster :
      (n : ℕ) (p : Peer db) (args : GetArgs)
      → InRange n p
      → ReadFromCluster n (answer_of (get db encode marshal p.rf p.kv p.me args))
  unfolding get check_if_depose
  get-FromCluster n p args h = elim (Bool-cases (is_leader p.rf.state)) [
    | inl l ↦ elim (Bool-cases p.rf.iis_back) [ inl b ↦ rw (l, b) h | inr b ↦ rw (l, b) h ]
    | inr l ↦ rw l h
  ]

  -- The reads that are answered by `peers i` when `i` turns are left.
  abbrev pub answered_by : (ℕ → ℕ → Bool) → (ℕ → Peer db) → GetArgs → ℕ → ReadAttempt
  answered_by valid peers args i = record {
    valid = valid i;
    answer = answer_of (get db encode marshal (peers i).rf (peers i).kv (peers i).me args);
  }

  -- No read of a client succeeds, whatever is stored and whichever servers answer it, in whatever
  -- state: Get refuses each request, and the client gives up after its last turn. The servers have ids
  -- below their number and name a leader with such an id or none.
  pub reads_fail :
      (valid : ℕ → ℕ → Bool) (peers : ℕ → Peer db) (args : GetArgs) (ck : Client)
      → IsSound ck
      → ((i : ℕ) → InRange ck.servers (peers i))
      → (ck' : Client) × (read_request (answered_by valid peers args) ck ≡ some (ck', read_faild))
  unfolding read_request
  reads_fail valid peers args ck h cluster =
      let (ck', r, e, kept) =
        read_request-Returns (answered_by valid peers args) ck h
          (λ i. get-FromCluster ck.servers (peers i) args (cluster i)) in
      let failed : r ≡ read_faild =
        send_loop-failed read_faild _
          (λ i c s.
            found-GoesOn 3 (valid i) c s (ask_read (answered_by valid peers args i).answer)
              (λ c' s'.
                refused_turn (answered_by valid peers args i).answer c' s'
                  (get_refused (peers i) args)))
          (2 * ck.servers * 3) ck ck' first_sending r e in
      (ck', e ∙ ap (λ q. some (ck', q)) failed)
