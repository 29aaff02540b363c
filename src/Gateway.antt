-- ===== src/Gateway.antt =====
-- The HTTP handlers of gateway/handlers.go, with writeJSON and writeError of gateway/tool.go.
pub mod Status
pub mod Discovery
pub mod Watching
pub mod Routes
mod Examples
use fir_etcd.Prelude.{
  if◌then◌else◌, ◌-ℤ◌, ℤ, pos, ltb_ℤ, ◌==ℤ◌, Bytes, ℕ, Bool, true, false, Option, none, some, List,
  [], ◌∷◌, map,
}
use fir_etcd.Store.{Pair}
use fir_etcd.Client.Lock.{CasResult, swapped, cas_error, cas}
use fir_etcd.Client.Pipe.{Pipe, PipeCall, pipe_put, call_all, new_pipe, exec}

pub data ContentType : Type 0 where
  json : ContentType
  event_stream : ContentType
  plain_text : ContentType

-- `Pair` of the gateway.
pub record JsonPair : Type 0 where
  pub key : Bytes
  pub value : Bytes
  pub dead_time : ℤ

-- A message of an event stream.
pub data SseMessage : Type 0 where
  sse_data : Bytes → SseMessage
  sse_keep_alive : SseMessage
  sse_end : SseMessage

-- What an answer holds. `failure` is the text of an error.
pub data Body : Type 0 where
  failure : Body
  message : Bytes → Body
  success : Bool → Body
  single_value : Bytes → Body
  many_values : List Bytes → Body
  pair_list : List JsonPair → Body
  event_messages : List SseMessage → Body

-- http.ResponseWriter: the header as it stands, and what was sent of status and header.
pub record Writer : Type 0 where
  pub content_type : Option ContentType
  pub sent : Option (ℕ × Option ContentType)
  pub body : Option Body

abbrev pub new_writer : Writer
new_writer = record { content_type = none; sent = none; body = none }

unfoldable pub set_content_type : ContentType → Writer → Writer
set_content_type t w = record w { content_type = some t }

-- A second call changes nothing, and so does a header that is set afterwards.
unfoldable pub write_header : ℕ → Writer → Writer
write_header status w = elim w.sent [
  | none ↦ record w { sent = some (status, w.content_type) }
  | some r ↦ w
]

unfoldable pub write_json : ℕ → Body → Writer → Writer
unfolding set_content_type write_header
write_json status body w = record (write_header status (set_content_type json w)) {
  body = some body;
}

unfoldable pub write_error : ℕ → Writer → Writer
unfolding write_json
write_error status w = write_json status failure w

-- What Get returns: an error, or a slice that may be nil.
pub data Returned : Type 0 where
  get_error : Returned
  get_value : Option Bytes → Returned

-- The operations of the client that the gateway calls. `none` and `false` are an error.
pub record Ck : Type 1 where
  pub S : Type 0
  pub keys : S → S × Option (List Pair)
  pub kvs : S → S × Option (List Pair)
  pub get : S → Bytes → S × Returned
  pub get_with_prefix : S → Bytes → S × Option (List Bytes)
  pub delete : S → Bytes → S × Bool
  pub delete_with_prefix : S → Bytes → S × Bool
  pub cas : S → (key ori_value value : Bytes) → (ttl : ℤ) → S × CasResult
  pub exec : S → Pipe → S × Bool

-- "ok"
abbrev pub ok_text : Bytes
ok_text = 111 ∷ 107 ∷ []

-- "ok(ignore)"
abbrev pub ignore_text : Bytes
ignore_text = 111 ∷ 107 ∷ 40 ∷ 105 ∷ 103 ∷ 110 ∷ 111 ∷ 114 ∷ 101 ∷ 41 ∷ []

abbrev key_pair : Pair → JsonPair
key_pair (k, e) = record { key = k; value = []; dead_time = e.dead_time }

abbrev full_pair : Pair → JsonPair
full_pair (k, e) = record { key = k; value = e.value; dead_time = e.dead_time }

-- The pairs whose end is not past, as puts on a pipe. All are judged at one time `now` in milliseconds.
unfoldable pub live_puts : ℤ → List JsonPair → List PipeCall
live_puts now [] = []
live_puts now (p ∷ ps) =
    let rest = live_puts now ps in
    if p.dead_time ==ℤ pos 0
    then pipe_put p.key p.value (pos 0) now ∷ rest
    else if ltb_ℤ p.dead_time now
    then rest
    else pipe_put p.key p.value (p.dead_time -ℤ now) now ∷ rest

-- The body of putCAS.
pub record PairCas : Type 0 where
  pub key : Bytes
  pub value : Bytes
  pub ori_value : Bytes
  pub dead_time : ℤ

abbrev pub is_blank : Bytes → Bool
is_blank [] = true
is_blank (c ∷ cs) = false

module _ (ck : Ck) where
  unfoldable pub serve_keys : ck.S → ck.S × Writer
  unfolding write_error write_json
  serve_keys s =
      let (s', pairs) = ck.keys s in
      elim pairs [
        | none ↦ (s', write_error 500 new_writer)
        | some ps ↦ (s', write_json 200 (pair_list (map key_pair ps)) new_writer)
      ]

  unfoldable pub serve_kvs : ck.S → ck.S × Writer
  unfolding write_error write_json
  serve_kvs s =
      let (s', pairs) = ck.kvs s in
      elim pairs [
        | none ↦ (s', write_error 500 new_writer)
        | some ps ↦ (s', write_json 200 (pair_list (map full_pair ps)) new_writer)
      ]

  -- `pairs` is the decoded body of the request, `none` if it does not decode.
  unfoldable pub serve_put : ck.S → ℤ → Option (List JsonPair) → ck.S × Writer
  unfolding write_error write_json live_puts
  serve_put s now none = (s, write_error 400 new_writer)
  serve_put s now (some pairs) =
      let (s', ok) = ck.exec s (call_all new_pipe (live_puts now pairs)) in
      if ok
      then (s', write_json 200 (message ok_text) new_writer)
      else (s', write_error 500 new_writer)

  unfoldable pub cas_reply : CasResult → Writer
  unfolding write_error write_json
  cas_reply cas_error = write_error 500 new_writer
  cas_reply (swapped ok) = write_json 200 (success ok) new_writer

  unfoldable pub swap : ck.S → PairCas → ℤ → ck.S × Writer
  unfolding cas_reply
  swap s p ttl = let (s', r) = ck.cas s p.key p.ori_value p.value ttl in (s', cas_reply r)

  unfoldable pub serve_put_cas : ck.S → ℤ → Option PairCas → ck.S × Writer
  unfolding write_error write_json swap
  serve_put_cas s now none = (s, write_error 400 new_writer)
  serve_put_cas s now (some p) =
      if p.dead_time ==ℤ pos 0
      then swap s p (pos 0)
      else if ltb_ℤ p.dead_time now
      then (s, write_json 200 (message ignore_text) new_writer)
      else swap s p (p.dead_time -ℤ now)

  unfoldable pub serve_del : ck.S → Bytes → ck.S × Writer
  unfolding write_error write_json
  serve_del s key =
      if is_blank key
      then (s, write_error 400 new_writer)
      else let (s', ok) = ck.delete s key in
        if ok
        then (s', write_json 200 (message ok_text) new_writer)
        else (s', write_error 500 new_writer)

  unfoldable pub serve_del_with_prefix : ck.S → Bytes → ck.S × Writer
  unfolding write_error write_json
  serve_del_with_prefix s prefix =
      if is_blank prefix
      then (s, write_error 400 new_writer)
      else let (s', ok) = ck.delete_with_prefix s prefix in
        if ok
        then (s', write_json 200 (message ok_text) new_writer)
        else (s', write_error 500 new_writer)

  unfoldable pub serve_get : ck.S → Bytes → ck.S × Writer
  unfolding write_error write_json
  serve_get s key =
      if is_blank key
      then (s, write_error 400 new_writer)
      else let (s', r) = ck.get s key in
        elim r [
          | get_error ↦ (s', write_error 500 new_writer)
          | get_value none ↦ (s', write_error 404 new_writer)
          | get_value (some v) ↦ (s', write_json 200 (single_value v) new_writer)
        ]

  unfoldable pub serve_get_with_prefix : ck.S → Bytes → ck.S × Writer
  unfolding write_error write_json
  serve_get_with_prefix s prefix =
      if is_blank prefix
      then (s, write_error 400 new_writer)
      else let (s', r) = ck.get_with_prefix s prefix in
        elim r [
          | none ↦ (s', write_error 500 new_writer)
          | some vs ↦ (s', write_json 200 (many_values vs) new_writer)
        ]
