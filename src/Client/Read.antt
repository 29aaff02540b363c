-- ===== src/Client/Read.antt =====
-- The loop `read` of client/client.go, and Get and GetWithPrefix on top of it.
use fir_etcd.Prelude.{
  ◌>>=◌, set, ◌+ℤ◌, ℤ, pos, pos_part, at, Bytes, ℕ, ◌*◌, Bool, Option, none, some, List, [], ◌∷◌,
}
use fir_etcd.Kv.Requests.{
  Err, err_ok, err_no_key, err_cas_failed, err_wrong_leader, err_wait_for_recover,
}
use fir_etcd.Client.{
  Client, Sending, Turn, done, again, change_next_send_id, follow_leader, found_turn, send_loop,
  first_sending,
}

-- The answer of Get, or a call that failed.
pub data ReadAnswer : Type 0 where
  read_lost : ReadAnswer
  read_answer : (err : Err) (values : List Bytes) (leader_id server_id : ℤ) → ReadAnswer

pub record ReadAttempt : Type 0 where
  pub valid : ℕ → Bool
  pub answer : ReadAnswer

-- `no_value` is ErrNil.
pub data ReadResult : Type 0 where
  read_values : List Bytes → ReadResult
  no_value : ReadResult
  read_faild : ReadResult

abbrev pub values_or_nil : List Bytes → ReadResult
values_or_nil [] = no_value
values_or_nil (v ∷ vs) = read_values (v ∷ vs)

-- The switch over the answer. An error that the client does not know ends the process.
unfoldable pub take_read : Client → Sending → ReadAnswer → Option (Turn ReadResult)
unfolding change_next_send_id follow_leader
take_read ck s read_lost = some (again (change_next_send_id ck) s)
take_read ck s (read_answer err vs leader_id server_id) =
    let known = record ck {
      s_to_c = set ck.s_to_c (pos_part server_id) (pos ck.next_send_local_id);
    } in
    let next = record known { latest_offset = ck.latest_offset +ℤ pos 1 } in
    at ck.s_to_c server_id >>= λ _. elim err [
      | err_ok ↦ some (done next (values_or_nil vs))
      | err_no_key ↦ some (done next no_value)
      | err_cas_failed ↦ none
      | err_wrong_leader ↦ (follow_leader known leader_id >>= λ ck'. some (again ck' s))
      | err_wait_for_recover ↦ some (again known s)
    ]

unfoldable pub ask_read : ReadAnswer → Client → Sending → Option (Turn ReadResult)
unfolding take_read
ask_read a ck s = take_read ck (record s { last_send_local_id = some ck.next_send_local_id }) a

unfoldable pub read_request : (ℕ → ReadAttempt) → Client → Option (Client × ReadResult)
unfolding send_loop found_turn ask_read
read_request attempts ck =
    send_loop read_faild
      (λ i c s. found_turn 3 (attempts i).valid c s (ask_read (attempts i).answer))
      (2 * ck.servers * 3) ck first_sending

pub data GetResult : Type 0 where
  got_value : Bytes → GetResult
  get_nil : GetResult
  get_faild : GetResult

-- Get
unfoldable pub one_value : ReadResult → GetResult
one_value (read_values (v ∷ [])) = got_value v
one_value (read_values vs) = get_nil
one_value no_value = get_nil
one_value read_faild = get_faild
