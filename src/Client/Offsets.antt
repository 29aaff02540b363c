-- ===== src/Client/Offsets.antt =====
-- The offset of the client over a write and over a read.
use fir_etcd.Kv.Requests.{
  Err, err_ok, err_no_key, err_cas_failed, err_wrong_leader, err_wait_for_recover,
}
use fir_etcd.Prelude.{
  if◌then◌else◌, Bool-cases, Option-cases, ◌>>=◌, ◌+ℤ◌, ℤ, pos, ◌==ℤ◌, at, Bytes, ℕ, zero, suc, ◌*◌,
  ◌≡◌, refl, ◌∙◌, subst, inl, inr, Bool, true, false, ◌&&◌, Option, none, some, List, [], ◌∷◌,
  arith,
}
use fir_etcd.Client.{
  Client, Answer, lost, answered, Attempt, WriteResult, err_faild, Sending, Turn, done, again,
  change_next_send_id, leave_server, find_valid, follow_leader, take_answer, send_request,
  found_turn, write_turn, after_turn, send_loop, first_sending, write_request,
}
use fir_etcd.Client.Read.{
  ReadAnswer, read_lost, read_answer, ReadAttempt, ReadResult, read_faild, take_read, ask_read,
  read_request,
}

abbrev pub is_failed : WriteResult → Bool
is_failed err_faild = true
is_failed _ = false

abbrev pub read_failed : ReadResult → Bool
read_failed read_faild = true
read_failed _ = false

leave_server_offset :
    (limit : ℕ) (ck : Client) (s : Sending)
    → (leave_server limit ck s).0.latest_offset ≡ ck.latest_offset
unfolding leave_server change_next_send_id
leave_server_offset limit ck s = ground arith

find_valid_offset :
    (rounds : ℕ) (valid : ℕ → Bool) (ck : Client)
    → (find_valid rounds valid ck).0.latest_offset ≡ ck.latest_offset
unfolding find_valid change_next_send_id
find_valid_offset zero valid ck = refl
find_valid_offset (suc rounds) valid ck =
    ground (arith, find_valid_offset rounds valid (change_next_send_id ck))

follow_leader_offset :
    (ck ck' : Client) (leader_id : ℤ)
    → follow_leader ck leader_id ≡ some ck'
    → ck'.latest_offset ≡ ck.latest_offset
unfolding follow_leader change_next_send_id
follow_leader_offset ck ck' leader_id h = ground arith

-- A turn that ends the loop takes one offset, and a turn that goes on takes none.
module _ {R : Type 0} (gave_up : R → Bool) where
  abbrev Takes : ℤ → Turn R → Type 0
  Takes n (done ck r) = (ck.latest_offset ≡ n +ℤ pos 1) × (gave_up r ≡ false)
  Takes n (again ck s) = ck.latest_offset ≡ n

  abbrev Taken : ℤ → Option (Turn R) → Type 0
  Taken n none = Unit {0}
  Taken n (some t) = Takes n t

  -- The offset that a loop leaves.
  abbrev Leaves : ℤ → Client → R → Type 0
  Leaves n ck r = ck.latest_offset ≡ (if gave_up r then n else n +ℤ pos 1)

  took_leader :
      (ck : Client) (s : Sending) (leader_id : ℤ)
      → Taken ck.latest_offset (follow_leader ck leader_id >>= λ ck'. some (again ck' s))
  took_leader ck s leader_id = elim (Option-cases (follow_leader ck leader_id)) [
    | inl a ↦ rw a tt
    | inr (ck', a) ↦ rw a (follow_leader_offset ck ck' leader_id a)
  ]

  -- A turn of either loop: it leaves a server, finds the next and asks it.
  took_found :
      (limit : ℕ) (valid : ℕ → Bool) (ck : Client) (s : Sending)
      (ask : Client → Sending → Option (Turn R))
      → ((c : Client) (s' : Sending) → Taken c.latest_offset (ask c s'))
      → Taken ck.latest_offset (found_turn limit valid ck s ask)
  unfolding found_turn
  took_found limit valid ck s ask asked =
      let left : Client × Sending = leave_server limit ck s in
      let found : Client × Bool = find_valid ck.servers valid left.0 in
      let same : found.0.latest_offset ≡ ck.latest_offset =
        find_valid_offset ck.servers valid left.0 ∙ leave_server_offset limit ck s in
      elim (Bool-cases found.1) [
        | inl f ↦ rw f (subst (λ n. Taken n (ask found.0 left.1)) same (asked found.0 left.1))
        | inr f ↦ rw f same
      ]

  after_turn-Leaves :
      (o : Option (Turn R)) (n : ℤ) (ck' : Client) (r : R)
      (go_on : Client → Sending → Option (Client × R))
      → Taken n o
      → ((ck : Client) (s : Sending) → go_on ck s ≡ some (ck', r) → Leaves ck.latest_offset ck' r)
      → after_turn go_on o ≡ some (ck', r)
      → Leaves n ck' r
  after_turn-Leaves none n ck' r go_on t ih h = cc
  after_turn-Leaves (some (done ck q)) n ck' r go_on t ih h = ground (arith, t)
  after_turn-Leaves (some (again ck s)) n ck' r go_on t ih h =
      subst (λ m. Leaves m ck' r) t (ih ck s h)

  send_loop-Leaves :
      (failed : R) (turn : ℕ → Client → Sending → Option (Turn R))
      → gave_up failed ≡ true
      → ((i : ℕ) (ck : Client) (s : Sending) → Taken ck.latest_offset (turn i ck s))
      → (turns : ℕ) (ck ck' : Client) (s : Sending) (r : R)
      → send_loop failed turn turns ck s ≡ some (ck', r)
      → Leaves ck.latest_offset ck' r
  unfolding send_loop
  send_loop-Leaves failed turn f took zero ck ck' s r h = ground (arith, f)
  send_loop-Leaves failed turn f took (suc turns) ck ck' s r h =
      after_turn-Leaves (turn turns ck s) ck.latest_offset ck' r
        (λ c s'. send_loop failed turn turns c s') (took turns ck s)
        (λ c s' g. send_loop-Leaves failed turn f took turns c ck' s' r g) h

known_answer :
    (err : Err) (ck : Client) (s : Sending) (leader_id server_id local : ℤ)
    → at ck.s_to_c server_id ≡ some local
    → Taken is_failed ck.latest_offset (take_answer ck s (answered err leader_id server_id))
unfolding take_answer
known_answer err_ok ck s leader_id server_id local e = rw e (refl, refl)
known_answer err_no_key ck s leader_id server_id local e = rw e (refl, refl)
known_answer err_cas_failed ck s leader_id server_id local e = rw e (refl, refl)
known_answer err_wrong_leader ck s leader_id server_id local e =
    rw e (took_leader is_failed _ s leader_id)
known_answer err_wait_for_recover ck s leader_id server_id local e = rw e tt

took_answer :
    (ck : Client) (s : Sending) (a : Answer) → Taken is_failed ck.latest_offset (take_answer ck s a)
unfolding take_answer change_next_send_id
took_answer ck s lost = refl
took_answer ck s (answered err leader_id server_id) = elim (Option-cases (at ck.s_to_c server_id)) [
  | inl e ↦ rw e tt
  | inr (local, e) ↦ known_answer err ck s leader_id server_id local e
]

took_request :
    (has_ttl : Bool) (a : Attempt) (ck : Client) (s : Sending)
    → Taken is_failed ck.latest_offset (send_request has_ttl a ck s)
unfolding send_request change_next_send_id
took_request has_ttl a ck s = elim (Bool-cases (has_ttl && (s.lease_id ==ℤ pos 0))) [
  | inl e ↦ elim (Option-cases a.granted) [
    | inl g ↦ rw (e, g) refl
    | inr (id, g) ↦ elim (Bool-cases (id ==ℤ pos 0)) [
      | inl z ↦ rw (e, g, z) refl
      | inr z ↦ rw (e, g, z) (took_answer ck _ a.answer)
    ]
  ]
  | inr e ↦ rw e (took_answer ck _ a.answer)
]

-- A write that is answered takes one offset of the client, and a write that gives up after its last
-- turn takes none.
pub write_request-offset :
    (has_ttl : Bool) (attempts : ℕ → Attempt) (ck ck' : Client) (r : WriteResult)
    → write_request has_ttl attempts ck ≡ some (ck', r)
    → ck'.latest_offset ≡ (if is_failed r then ck.latest_offset else ck.latest_offset +ℤ pos 1)
unfolding write_request write_turn
write_request-offset has_ttl attempts ck ck' r h =
    send_loop-Leaves is_failed err_faild _ refl
      (λ i c s.
        took_found is_failed 5 (attempts i).valid c s (send_request has_ttl (attempts i))
          (took_request has_ttl (attempts i)))
      (2 * ck.servers * 3) ck ck' first_sending r h

known_read :
    (err : Err) (vs : List Bytes) (ck : Client) (s : Sending) (leader_id server_id local : ℤ)
    → at ck.s_to_c server_id ≡ some local
    → Taken read_failed ck.latest_offset (take_read ck s (read_answer err vs leader_id server_id))
unfolding take_read
known_read err_ok [] ck s leader_id server_id local e = rw e (refl, refl)
known_read err_ok (v ∷ vs) ck s leader_id server_id local e = rw e (refl, refl)
known_read err_no_key vs ck s leader_id server_id local e = rw e (refl, refl)
known_read err_cas_failed vs ck s leader_id server_id local e = rw e tt
known_read err_wrong_leader vs ck s leader_id server_id local e =
    rw e (took_leader read_failed _ s leader_id)
known_read err_wait_for_recover vs ck s leader_id server_id local e = rw e refl

took_read :
    (a : ReadAnswer) (ck : Client) (s : Sending)
    → Taken read_failed ck.latest_offset (ask_read a ck s)
unfolding ask_read take_read change_next_send_id
took_read read_lost ck s = refl
took_read (read_answer err vs leader_id server_id) ck s =
    elim (Option-cases (at ck.s_to_c server_id)) [
      | inl e ↦ rw e tt
      | inr (local, e) ↦ known_read err vs ck _ leader_id server_id local e
    ]

-- A read that is answered takes one offset of the client, and a read that gives up after its last turn
-- takes none.
pub read_request-offset :
    (attempts : ℕ → ReadAttempt) (ck ck' : Client) (r : ReadResult)
    → read_request attempts ck ≡ some (ck', r)
    → ck'.latest_offset ≡ (if read_failed r then ck.latest_offset else ck.latest_offset +ℤ pos 1)
unfolding read_request
read_request-offset attempts ck ck' r h =
    send_loop-Leaves read_failed read_faild _ refl
      (λ i c s.
        took_found read_failed 3 (attempts i).valid c s (ask_read (attempts i).answer)
          (took_read (attempts i).answer))
      (2 * ck.servers * 3) ck ck' first_sending r h
