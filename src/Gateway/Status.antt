-- ===== src/Gateway/Status.antt =====
-- The status of each answer of the gateway.
use fir_etcd.Prelude.{
  if◌then◌else◌, Bool-cases, ◌-ℤ◌, ℤ, pos, ltb_ℤ, ◌==ℤ◌, Bytes, ℕ, ◌≡◌, refl, sym, ◌∙◌, ◌≢◌, inl,
  inr, Bool, true, false, ◌&&◌, Option, none, some, List, arith,
}
use fir_etcd.Client.Read.{ReadResult, GetResult, got_value, get_nil, get_faild, one_value}
use fir_etcd.Client.Lock.{CasResult, swapped, cas_error}
use fir_etcd.Client.Pipe.{call_all, new_pipe}
use fir_etcd.Kv.{WatchEvent}
use fir_etcd.Gateway.Watching.{WatchQuery, SseTurn, serve_watch}
use fir_etcd.Gateway.Routes.{
  Request, get_keys_request, get_kvs_request, get_key, get_keys_with_prefix, get_watch, post_put,
  post_put_cas, delete_key, delete_keys_with_prefix, serve,
}
use fir_etcd.Gateway.{
  ContentType, json, event_stream, set_content_type, write_header, write_json, write_error,
  Returned, get_error, get_value, Ck, live_puts, PairCas, is_blank, serve_keys, serve_kvs,
  serve_put, cas_reply, swap, serve_put_cas, serve_del, serve_del_with_prefix, serve_get,
  serve_get_with_prefix,
}

-- How a request ends.
pub data Outcome : Type 0 where
  malformed : Outcome
  client_error : Outcome
  not_found : Outcome
  fine : Outcome

abbrev pub status_of : Outcome → ℕ
status_of malformed = 400
status_of client_error = 500
status_of not_found = 404
status_of fine = 200

abbrev pub of_option : {A : Type 0} → Option A → Outcome
of_option none = client_error
of_option (some a) = fine

abbrev pub of_bool : Bool → Outcome
of_bool true = fine
of_bool false = client_error

abbrev pub of_cas : CasResult → Outcome
of_cas cas_error = client_error
of_cas (swapped b) = fine

abbrev pub of_returned : Returned → Outcome
of_returned get_error = client_error
of_returned (get_value none) = not_found
of_returned (get_value (some v)) = fine

-- A swap of the past is not asked for.
abbrev pub is_past : ℤ → PairCas → Bool
is_past now p = if p.dead_time ==ℤ pos 0 then false else ltb_ℤ p.dead_time now

abbrev pub ttl_of : ℤ → PairCas → ℤ
ttl_of now p = if p.dead_time ==ℤ pos 0 then pos 0 else p.dead_time -ℤ now

-- Whether the request is well formed and what the client answers to it.
abbrev pub outcome : (ck : Ck) → ck.S → Request → Outcome
outcome ck s get_keys_request = of_option (ck.keys s).1
outcome ck s get_kvs_request = of_option (ck.kvs s).1
outcome ck s (get_key key) = if is_blank key then malformed else of_returned (ck.get s key).1
outcome ck s (get_keys_with_prefix p) =
    if is_blank p then malformed else of_option (ck.get_with_prefix s p).1
outcome ck s (get_watch q can_flush opened turns) =
    if is_blank q.key then malformed else of_bool (can_flush && opened)
outcome ck s (post_put now none) = malformed
outcome ck s (post_put now (some ps)) = of_bool (ck.exec s (call_all new_pipe (live_puts now ps))).1
outcome ck s (post_put_cas now none) = malformed
outcome ck s (post_put_cas now (some p)) =
    if is_past now p then fine else of_cas (ck.cas s p.key p.ori_value p.value (ttl_of now p)).1
outcome ck s (delete_key key) = if is_blank key then malformed else of_bool (ck.delete s key).1
outcome ck s (delete_keys_with_prefix p) =
    if is_blank p then malformed else of_bool (ck.delete_with_prefix s p).1

-- A watch that is not refused is an event stream, and everything else is JSON.
abbrev pub type_of : (ck : Ck) → ck.S → Request → ContentType
type_of ck s (get_watch q can_flush opened turns) =
    if is_blank q.key then json else if can_flush && opened then event_stream else json
type_of ck s _ = json

serve_watch-status :
    (ck : Ck) (marshal : WatchEvent → Option Bytes) (s : ck.S) (q : WatchQuery)
    (can_flush opened : Bool) (turns : List SseTurn)
    → (serve_watch marshal q can_flush opened turns).writer.sent
      ≡ some (
        status_of (outcome ck s (get_watch q can_flush opened turns)),
        some (type_of ck s (get_watch q can_flush opened turns)),
      )
unfolding serve_watch write_error write_json write_header set_content_type
serve_watch-status ck marshal s q true true turns = elim (Bool-cases (is_blank q.key)) [
  | inl e ↦ rw e refl
  | inr e ↦ rw e refl
]
serve_watch-status ck marshal s q true false turns = elim (Bool-cases (is_blank q.key)) [
  | inl e ↦ rw e refl
  | inr e ↦ rw e refl
]
serve_watch-status ck marshal s q false opened turns = elim (Bool-cases (is_blank q.key)) [
  | inl e ↦ rw e refl
  | inr e ↦ rw e refl
]

-- The gateway answers each request with status 400 if it is without its key, prefix or body, 500 if
-- the client fails or a watch cannot be streamed, 404 if the client returns no value without failing,
-- and 200 otherwise, also for a swap whose end is past. The answer is JSON, but for a watch that is
-- opened, which is an event stream.
pub serve-status :
    (ck : Ck) (marshal : WatchEvent → Option Bytes) (s : ck.S) (r : Request)
    → (serve ck marshal s r).1.sent ≡ some (status_of (outcome ck s r), some (type_of ck s r))
unfolding serve serve_keys serve_kvs serve_put serve_put_cas swap cas_reply serve_del
    serve_del_with_prefix serve_get serve_get_with_prefix write_error write_json write_header
    set_content_type
serve-status ck marshal s get_keys_request = ground arith
serve-status ck marshal s get_kvs_request = ground arith
serve-status ck marshal s (get_key key) = ground arith
serve-status ck marshal s (get_keys_with_prefix p) = ground arith
serve-status ck marshal s (get_watch q can_flush opened turns) =
    serve_watch-status ck marshal s q can_flush opened turns
serve-status ck marshal s (post_put now none) = refl
serve-status ck marshal s (post_put now (some ps)) = ground arith
serve-status ck marshal s (post_put_cas now none) = refl
serve-status ck marshal s (post_put_cas now (some p)) = ground arith
serve-status ck marshal s (delete_key key) = ground arith
serve-status ck marshal s (delete_keys_with_prefix p) = ground arith

-- What Get of client/client.go returns to the gateway.
abbrev pub returned_of : GetResult → Returned
returned_of (got_value v) = get_value (some v)
returned_of get_nil = get_error
returned_of get_faild = get_error

not_404 : (g : GetResult) → status_of (of_returned (returned_of g)) ≢ 404
not_404 (got_value v) e = absurd (omega arith)
not_404 get_nil e = absurd (omega arith)
not_404 get_faild e = absurd (omega arith)

-- The gateway never answers 404 with the client of client/client.go: a key that is missing is an
-- error of the client and gets 500, as if no server could be reached.
pub serve_get-never_404 :
    (ck : Ck) (marshal : WatchEvent → Option Bytes) (s : ck.S) (key : Bytes) (r : ReadResult)
    → (ck.get s key).1 ≡ returned_of (one_value r)
    → (serve ck marshal s (get_key key)).1.sent ≢ some (404, some json)
serve_get-never_404 ck marshal s key r h e =
    let status : some (status_of (outcome ck s (get_key key)), some json) ≡ some (404, some json) =
      sym (serve-status ck marshal s (get_key key)) ∙ e in
    let same : status_of (outcome ck s (get_key key)) ≡ 404 = cc status in
    ground (arith, h, same, not_404 (one_value r))
