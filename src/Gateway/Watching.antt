-- ===== src/Gateway/Watching.antt =====
-- The handler watch of gateway/handlers.go, which sends the events of a watch as server-sent events.
use fir_etcd.Prelude.{
  if◌then◌else◌, Bytes, bytes_equal, Bool, true, false, not, ◌||◌, Option, none, some, List, [],
  ◌∷◌,
}
use fir_etcd.Kv.{WatchEvent}
use fir_etcd.Kv.Stream.{WatchRequest}
use fir_etcd.Client.Watching.{WatchOption, with_send_initial_state, with_prefix, watch_request}
use fir_etcd.Gateway.{
  event_stream, SseMessage, sse_data, sse_keep_alive, sse_end, event_messages, Writer, new_writer,
  set_content_type, write_header, write_error, is_blank,
}

-- The values of the query, empty when they are not there.
pub record WatchQuery : Type 0 where
  pub key : Bytes
  pub is_prefix : Bytes
  pub send_initial_state : Bytes

abbrev one_of : List Bytes → Bytes → Bool
one_of [] s = false
one_of (t ∷ ts) s = bytes_equal t s || one_of ts s

-- The value of strconv.ParseBool: 1, t, T, TRUE, true and True; an error comes with false.
unfoldable pub parse_bool : Bytes → Bool
parse_bool s =
    one_of
      ((49 ∷ [])
        ∷ (116 ∷ [])
        ∷ (84 ∷ [])
        ∷ (84 ∷ 82 ∷ 85 ∷ 69 ∷ [])
        ∷ (116 ∷ 114 ∷ 117 ∷ 101 ∷ [])
        ∷ (84 ∷ 114 ∷ 117 ∷ 101 ∷ [])
        ∷ [])
      s

unfoldable pub watch_options : WatchQuery → List WatchOption
unfolding parse_bool
watch_options q =
    with_send_initial_state (parse_bool q.send_initial_state)
    ∷ (if parse_bool q.is_prefix then with_prefix ∷ [] else [])

-- What a turn of the select meets; the Boolean tells whether the write that follows succeeds.
pub data SseTurn : Type 0 where
  client_gone : SseTurn
  channel_closed : SseTurn
  event_came : (written_out : Bool) → WatchEvent → SseTurn
  nothing_came : (written_out : Bool) → SseTurn

-- The messages of a run of turns, and whether the handler has returned.
unfoldable pub send_events : (WatchEvent → Option Bytes) → List SseTurn → List SseMessage × Bool
send_events marshal [] = ([], false)
send_events marshal (client_gone ∷ turns) = ([], true)
send_events marshal (channel_closed ∷ turns) = (sse_end ∷ [], true)
send_events marshal (event_came ok event ∷ turns) =
    let rest = send_events marshal turns in
    elim (marshal event) [
      | none ↦ rest
      | some text ↦ if ok then (sse_data text ∷ rest.0, rest.1) else ([], true)
    ]
send_events marshal (nothing_came ok ∷ turns) =
    let rest = send_events marshal turns in
    if ok then (sse_keep_alive ∷ rest.0, rest.1) else ([], true)

-- The answer, and the request that is handed to Watch of the client.
pub record WatchServed : Type 0 where
  pub writer : Writer
  pub request : Option WatchRequest

-- `can_flush`: the writer is an http.Flusher. `opened`: Watch returns no error.
unfoldable pub serve_watch :
    (WatchEvent → Option Bytes)
    → WatchQuery
    → (can_flush opened : Bool) → List SseTurn
    → WatchServed
unfolding set_content_type write_header write_error watch_options watch_request send_events
serve_watch marshal q can_flush opened turns =
    let stream : Writer = set_content_type event_stream new_writer in
    let req : WatchRequest = watch_request q.key (watch_options q) in
    if is_blank q.key
    then record { writer = write_error 400 new_writer; request = none }
    else if not can_flush
    then record { writer = write_error 500 stream; request = none }
    else if not opened
    then record { writer = write_error 500 stream; request = some req }
    else record {
      writer = record (write_header 200 stream) {
        body = some (event_messages (send_events marshal turns).0);
      };
      request = some req;
    }

-- The texts of the events that come before the handler returns, as long as writes succeed.
abbrev pub texts : (WatchEvent → Option Bytes) → List WatchEvent → List SseMessage
texts marshal [] = []
texts marshal (e ∷ es) =
    let rest = texts marshal es in
    elim (marshal e) [ none ↦ rest | some text ↦ sse_data text ∷ rest ]

abbrev pub arrivals : List WatchEvent → List SseTurn
arrivals [] = channel_closed ∷ []
arrivals (e ∷ es) = event_came true e ∷ arrivals es
