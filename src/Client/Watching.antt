-- ===== src/Client/Watching.antt =====
-- The loop of manageWatchStream in client/client.go, with the options of Watch.
pub mod Waits
pub mod Leader
mod Examples
use fir_etcd.Prelude.{
  ltb, if◌then◌else◌, Bytes, ℕ, zero, suc, ◌+◌, ◌*◌, ◌%◌, Bool, true, false, Option, none, some,
  List, [], ◌∷◌,
}
use fir_etcd.Kv.{WatchEvent}
use fir_etcd.Kv.Stream.{WatchRequest}
use fir_etcd.Client.{Client, change_next_send_id}

-- The options of Watch.
pub data WatchOption : Type 0 where
  with_send_initial_state : Bool → WatchOption
  with_prefix : WatchOption

abbrev apply_option : WatchRequest → WatchOption → WatchRequest
apply_option req (with_send_initial_state send) = record req { send_initial_state = send }
apply_option req with_prefix = record req { is_prefix = true }

abbrev apply_options : WatchRequest → List WatchOption → WatchRequest
apply_options req [] = req
apply_options req (o ∷ os) = apply_options (apply_option req o) os

-- The request that Watch hands to the loop.
unfoldable pub watch_request : Bytes → List WatchOption → WatchRequest
watch_request key opts =
    apply_options (record { key = key; is_prefix = false; send_initial_state = true }) opts

-- In milliseconds.
abbrev pub initial_backoff : ℕ
initial_backoff = 500

abbrev pub max_backoff : ℕ
max_backoff = 30000

abbrev pub multiplier : ℕ
multiplier = 2

-- The variables of the loop; `server_idx` is none for -1.
pub record Watching : Type 0 where
  pub ck : Client
  pub server_idx : Option ℕ
  pub backoff : ℕ

-- What a server does with the request: it fails with FailedPrecondition or with another error, or it
-- streams events until a receive fails.
pub data StreamResult : Type 0 where
  not_leader : StreamResult
  stream_failed : StreamResult
  streamed : List WatchEvent → StreamResult

-- A turn: the server that it asked, the time that it waits, and the events that it hands on.
pub record WatchTurn : Type 0 where
  pub after : Watching
  pub asked : Option ℕ
  pub wait : ℕ
  pub events : List WatchEvent

abbrev pub start_of : Watching → ℕ
start_of w = elim w.server_idx [ none ↦ w.ck.next_send_local_id | some i ↦ i ]

-- The search for a connected server from `start` on; `i` servers are behind.
unfoldable pub find_server : ℕ → ℕ → (servers start : ℕ) → (ℕ → Bool) → Option ℕ
find_server zero i servers start valid = none
find_server (suc rounds) i servers start valid =
    let rest = find_server rounds (i + 1) servers start valid in
    if valid ((start + i) % servers) then some ((start + i) % servers) else rest

-- handle_error_and_retry: the wait, and the next one twice as long up to the limit.
unfoldable pub retry_later : Watching → Option ℕ → List WatchEvent → WatchTurn
retry_later w asked events = record {
  after = record w {
    backoff =
        if ltb max_backoff (w.backoff * multiplier) then max_backoff else w.backoff * multiplier;
  };
  asked = asked;
  wait = w.backoff;
  events = events;
}

-- What follows the call of the server `target`.
unfoldable pub take_stream : Watching → ℕ → StreamResult → WatchTurn
unfolding retry_later change_next_send_id
take_stream w target not_leader =
    let ck' = change_next_send_id w.ck in
    record {
      after = record {
        ck = ck';
        server_idx = some ck'.next_send_local_id;
        backoff = initial_backoff;
      };
      asked = some target;
      wait = 0;
      events = [];
    }
take_stream w target stream_failed =
    retry_later (record w { server_idx = some target }) (some target) []
take_stream w target (streamed events) =
    retry_later (record w { server_idx = some target; backoff = initial_backoff }) (some target)
      events

unfoldable pub turn_at : (ℕ → StreamResult) → Watching → Option ℕ → WatchTurn
unfolding take_stream retry_later
turn_at result w none = retry_later (record w { server_idx = some (start_of w) }) none []
turn_at result w (some target) = take_stream w target (result target)

-- One turn of the loop while its context is not done.
unfoldable pub watch_turn : (ℕ → Bool) → (ℕ → StreamResult) → Watching → WatchTurn
unfolding find_server turn_at
watch_turn valid result w =
    turn_at result w (find_server w.ck.servers 0 w.ck.servers (start_of w) valid)

abbrev pub begin_watching : Client → Watching
begin_watching ck = record { ck = ck; server_idx = none; backoff = initial_backoff }

-- The loop over a run of turns, each with the servers that are connected and their results.
unfoldable pub watch_turns : Watching → List ((ℕ → Bool) × (ℕ → StreamResult)) → List WatchTurn
unfolding watch_turn
watch_turns w [] = []
watch_turns w ((valid, result) ∷ rest) =
    let turn = watch_turn valid result w in turn ∷ watch_turns turn.after rest
