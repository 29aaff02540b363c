-- ===== src/Client/Bounds/Returns.antt =====
-- The requests of the client return.
use fir_etcd.Kv.Requests.{
  err_ok, err_no_key, err_cas_failed, err_wrong_leader, err_wait_for_recover,
}
use fir_etcd.Prelude.{
  Bool-cases, Option-cases, pos, ◌==ℤ◌, ℕ, ◌*◌, ◌≡◌, refl, inl, inr, Bool, ◌&&◌, some,
}
use fir_etcd.Client.{
  Client, Answer, lost, answered, Attempt, WriteResult, err_faild, Sending, take_answer,
  send_request, write_turn, first_sending, write_request,
}
use fir_etcd.Client.Read.{
  ReadAnswer, read_lost, read_answer, ReadAttempt, ReadResult, read_faild, take_read, ask_read,
  read_request,
}
use fir_etcd.Client.Bounds.{
  IsSound, InCluster, IsKept, known-IsKept, taken-IsKept, change-IsKept, Goes, follow-Goes,
  read_at-Goes, found-Goes, send_loop-Comes, Comes-Returns,
}

-- The answers of a write come from the servers of the cluster, with an error code of PutAppend.
abbrev pub FromCluster : ℕ → Answer → Type 0
FromCluster n lost = Unit {0}
FromCluster n (answered err_wait_for_recover leader_id server_id) = ⊥
FromCluster n (answered err leader_id server_id) = InCluster n leader_id server_id

-- The answers of a read come from the servers of the cluster, with an error code of Get.
abbrev pub ReadFromCluster : ℕ → ReadAnswer → Type 0
ReadFromCluster n read_lost = Unit {0}
ReadFromCluster n (read_answer err_cas_failed vs leader_id server_id) = ⊥
ReadFromCluster n (read_answer err vs leader_id server_id) = InCluster n leader_id server_id

answer-Goes :
    (n : ℕ) (a : Answer) (ck : Client) (s : Sending)
    → FromCluster n a
    → IsKept n ck
    → Goes n WriteResult (take_answer ck s a)
unfolding take_answer
answer-Goes n lost ck s f h = change-IsKept n ck h
answer-Goes n (answered err_ok leader_id server_id) ck s f h =
    read_at-Goes n _ ck server_id _ h f.0 f.1 (taken-IsKept n ck server_id _ h)
answer-Goes n (answered err_no_key leader_id server_id) ck s f h =
    read_at-Goes n _ ck server_id _ h f.0 f.1 (taken-IsKept n ck server_id _ h)
answer-Goes n (answered err_cas_failed leader_id server_id) ck s f h =
    read_at-Goes n _ ck server_id _ h f.0 f.1 (taken-IsKept n ck server_id _ h)
answer-Goes n (answered err_wrong_leader leader_id server_id) ck s f h =
    read_at-Goes n _ ck server_id _ h f.0 f.1
      (follow-Goes n _ _ s leader_id (known-IsKept n ck server_id h) f.2 f.3)
answer-Goes n (answered err_wait_for_recover leader_id server_id) ck s f h = absurd f

request-Goes :
    (n : ℕ) (has_ttl : Bool) (a : Attempt) (ck : Client) (s : Sending)
    → FromCluster n a.answer
    → IsKept n ck
    → Goes n WriteResult (send_request has_ttl a ck s)
unfolding send_request
request-Goes n has_ttl a ck s f h = elim (Bool-cases (has_ttl && (s.lease_id ==ℤ pos 0))) [
  | inl e ↦ elim (Option-cases a.granted) [
    | inl g ↦ rw (e, g) (change-IsKept n ck h)
    | inr (id, g) ↦ elim (Bool-cases (id ==ℤ pos 0)) [
      | inl z ↦ rw (e, g, z) (change-IsKept n ck h)
      | inr z ↦ rw (e, g, z) (answer-Goes n a.answer ck _ f h)
    ]
  ]
  | inr e ↦ rw e (answer-Goes n a.answer ck _ f h)
]

-- A write returns, without an index out of range, if the client's table and its next server fit its
-- servers, and each answer has an error code of PutAppend and ids from the cluster (or an unknown
-- leader). The table and the next server then fit the servers again.
pub write_request-Returns :
    (has_ttl : Bool) (attempts : ℕ → Attempt) (ck : Client)
    → IsSound ck
    → ((i : ℕ) → FromCluster ck.servers (attempts i).answer)
    → (ck' : Client) × (r : WriteResult) × (write_request has_ttl attempts ck ≡ some (ck', r))
      × IsSound ck'
unfolding write_request write_turn
write_request-Returns has_ttl attempts ck h f = Comes-Returns ck.servers _ _ (
    send_loop-Comes ck.servers _ err_faild _
      (λ i c s k.
        found-Goes ck.servers _ 5 (attempts i).valid c s (send_request has_ttl (attempts i)) k
          (λ c' s' k'. request-Goes ck.servers has_ttl (attempts i) c' s' (f i) k'))
      (2 * ck.servers * 3) ck first_sending (h, refl))

read-Goes :
    (n : ℕ) (a : ReadAnswer) (ck : Client) (s : Sending)
    → ReadFromCluster n a
    → IsKept n ck
    → Goes n ReadResult (take_read ck s a)
unfolding take_read
read-Goes n read_lost ck s f h = change-IsKept n ck h
read-Goes n (read_answer err_ok vs leader_id server_id) ck s f h =
    read_at-Goes n _ ck server_id _ h f.0 f.1 (taken-IsKept n ck server_id _ h)
read-Goes n (read_answer err_no_key vs leader_id server_id) ck s f h =
    read_at-Goes n _ ck server_id _ h f.0 f.1 (taken-IsKept n ck server_id _ h)
read-Goes n (read_answer err_cas_failed vs leader_id server_id) ck s f h = absurd f
read-Goes n (read_answer err_wrong_leader vs leader_id server_id) ck s f h =
    read_at-Goes n _ ck server_id _ h f.0 f.1
      (follow-Goes n _ _ s leader_id (known-IsKept n ck server_id h) f.2 f.3)
read-Goes n (read_answer err_wait_for_recover vs leader_id server_id) ck s f h =
    read_at-Goes n _ ck server_id _ h f.0 f.1 (known-IsKept n ck server_id h)

-- A read returns, without an index out of range, if the client's table and its next server fit its
-- servers, and each answer has an error code of Get and ids from the cluster (or an unknown leader).
-- The table and the next server then fit the servers again.
pub read_request-Returns :
    (attempts : ℕ → ReadAttempt) (ck : Client)
    → IsSound ck
    → ((i : ℕ) → ReadFromCluster ck.servers (attempts i).answer)
    → (ck' : Client) × (r : ReadResult) × (read_request attempts ck ≡ some (ck', r)) × IsSound ck'
unfolding read_request ask_read
read_request-Returns attempts ck h f = Comes-Returns ck.servers _ _ (
    send_loop-Comes ck.servers _ read_faild _
      (λ i c s k.
        found-Goes ck.servers _ 3 (attempts i).valid c s (ask_read (attempts i).answer) k
          (λ c' s' k'. read-Goes ck.servers (attempts i).answer c' _ (f i) k'))
      (2 * ck.servers * 3) ck first_sending (h, refl))
