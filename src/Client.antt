-- ===== src/Client.antt =====
-- The state of the client of client/client.go, and the loop `write`, which sends a request to the
-- servers until one answers.
pub mod Read
pub mod Decimal
pub mod Lock
pub mod Offsets
pub mod Bounds
pub mod Pipe
pub mod Watching
pub mod Refused
mod Examples
use fir_etcd.Prelude.{
  ltb, ◌==◌, if◌then◌else◌, ◌>>=◌, set, ◌+ℤ◌, ℤ, pos, negsuc, pos_part, ◌==ℤ◌, minus_one, at, ℕ,
  zero, suc, ◌+◌, ◌*◌, ◌%◌, Bool, true, false, ◌&&◌, Option, none, some, List,
}
use fir_etcd.Kv.Requests.{
  Err, err_ok, err_no_key, err_cas_failed, err_wrong_leader, err_wait_for_recover,
}

-- `s_to_c` gives for the id of a server its place in the list of the client, or -1.
pub record Client : Type 0 where
  pub servers : ℕ
  pub next_send_local_id : ℕ
  pub latest_offset : ℤ
  pub s_to_c : List ℤ

-- The answer of PutAppend, or a call that failed.
pub data Answer : Type 0 where
  lost : Answer
  answered : (err : Err) (leader_id server_id : ℤ) → Answer

-- What a turn of the loop meets: which servers are connected, the answer of LeaseGrant (`none` for an
-- error) and the answer of PutAppend.
pub record Attempt : Type 0 where
  pub valid : ℕ → Bool
  pub granted : Option ℤ
  pub answer : Answer

pub data WriteResult : Type 0 where
  written : WriteResult
  err_nil : WriteResult
  err_cas : WriteResult
  err_faild : WriteResult

-- The variables of the loop and the lease of the request.
pub record Sending : Type 0 where
  pub count : ℕ
  pub last_send_local_id : Option ℕ
  pub lease_id : ℤ

pub data Turn (R : Type 0) : Type 0 where
  done : Client → R → Turn R
  again : Client → Sending → Turn R

unfoldable pub change_next_send_id : Client → Client
change_next_send_id ck = record ck { next_send_local_id = (ck.next_send_local_id + 1) % ck.servers }

-- A server that was asked more than `limit` times in a row is left.
unfoldable pub leave_server : ℕ → Client → Sending → Client × Sending
unfolding change_next_send_id
leave_server limit ck s = elim s.last_send_local_id [
  | none ↦ (ck, s)
  | some last ↦
      if ck.next_send_local_id == last
      then if ltb limit (s.count + 1)
        then (change_next_send_id ck, record s { count = 0 })
        else (ck, record s { count = s.count + 1 })
      else (ck, s)
]

-- The search for a connected server; `rounds` of the servers are left. The Boolean tells whether one
-- was found.
unfoldable pub find_valid : ℕ → (ℕ → Bool) → Client → Client × Bool
unfolding change_next_send_id
find_valid zero valid ck = (ck, false)
find_valid (suc rounds) valid ck =
    let later = find_valid rounds valid (change_next_send_id ck) in
    if valid ck.next_send_local_id then (ck, true) else later

-- The next server after an answer that names the leader `leader_id`; `none` is an index out of range.
unfoldable pub follow_leader : Client → ℤ → Option Client
unfolding change_next_send_id
follow_leader ck leader_id =
    if leader_id ==ℤ minus_one
    then some (change_next_send_id ck)
    else at ck.s_to_c leader_id >>= λ local. some (elim local [
      | pos n ↦ record ck { next_send_local_id = n }
      | negsuc n ↦ change_next_send_id ck
    ])

-- The switch over the answer. An error that the client does not know ends the process.
unfoldable pub take_answer : Client → Sending → Answer → Option (Turn WriteResult)
unfolding change_next_send_id follow_leader
take_answer ck s lost = some (again (change_next_send_id ck) s)
take_answer ck s (answered err leader_id server_id) =
    let known = record ck {
      s_to_c = set ck.s_to_c (pos_part server_id) (pos ck.next_send_local_id);
    } in
    let next = record known { latest_offset = ck.latest_offset +ℤ pos 1 } in
    at ck.s_to_c server_id >>= λ _. elim err [
      | err_ok ↦ some (done next written)
      | err_no_key ↦ some (done next err_nil)
      | err_cas_failed ↦ some (done next err_cas)
      | err_wrong_leader ↦ (follow_leader known leader_id >>= λ ck'. some (again ck' s))
      | err_wait_for_recover ↦ none
    ]

-- One turn once a server is found. `has_ttl` is TTL > 0.
unfoldable pub send_request : Bool → Attempt → Client → Sending → Option (Turn WriteResult)
unfolding take_answer change_next_send_id
send_request has_ttl a ck s =
    let sent = record s { last_send_local_id = some ck.next_send_local_id } in
    if has_ttl && (s.lease_id ==ℤ pos 0)
    then elim a.granted [
      | none ↦ some (again (change_next_send_id ck) s)
      | some id ↦
          if id ==ℤ pos 0
          then some (again (change_next_send_id ck) s)
          else take_answer ck (record sent { lease_id = id }) a.answer
    ]
    else take_answer ck sent a.answer

-- What a turn does before it asks: it may leave its server, and looks for a connected one.
unfoldable pub found_turn :
    {R : Type 0}
    → ℕ
    → (ℕ → Bool)
    → Client
    → Sending
    → (Client → Sending → Option (Turn R))
    → Option (Turn R)
unfolding leave_server find_valid
found_turn limit valid ck s ask =
    let left = leave_server limit ck s in
    let found = find_valid ck.servers valid left.0 in
    if found.1 then ask found.0 left.1 else some (again found.0 left.1)

unfoldable pub write_turn : Bool → Client → Sending → Attempt → Option (Turn WriteResult)
unfolding found_turn send_request
write_turn has_ttl ck s a = found_turn 5 a.valid ck s (send_request has_ttl a)

abbrev pub after_turn :
    {R : Type 0} → (Client → Sending → Option (Client × R)) → Option (Turn R) → Option (Client × R)
after_turn go_on none = none
after_turn go_on (some (done ck r)) = some (ck, r)
after_turn go_on (some (again ck s)) = go_on ck s

-- A loop that gives up with `failed` after a number of turns; `turn i` is the turn that has `i` turns
-- left after it.
unfoldable pub send_loop :
    {R : Type 0}
    → R
    → (ℕ → Client → Sending → Option (Turn R))
    → ℕ
    → Client
    → Sending
    → Option (Client × R)
send_loop failed turn zero ck s = some (ck, failed)
send_loop failed turn (suc turns) ck s =
    after_turn (λ ck' s'. send_loop failed turn turns ck' s') (turn turns ck s)

abbrev pub first_sending : Sending
first_sending = record { count = 0; last_send_local_id = none; lease_id = pos 0 }

-- The loop, which gives up after 2 * len(servers) * 3 turns.
unfoldable pub write_request : Bool → (ℕ → Attempt) → Client → Option (Client × WriteResult)
unfolding send_loop write_turn
write_request has_ttl attempts ck =
    send_loop err_faild (λ i c s. write_turn has_ttl c s (attempts i)) (2 * ck.servers * 3) ck
      first_sending
