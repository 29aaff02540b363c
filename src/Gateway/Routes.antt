-- ===== src/Gateway/Routes.antt =====
-- The routes of the mux in gateway/gateway.go.
use fir_etcd.Prelude.{ℤ, Bytes, Bool, Option, List}
use fir_etcd.Kv.{WatchEvent}
use fir_etcd.Gateway.{
  JsonPair, Writer, Ck, PairCas, serve_keys, serve_kvs, serve_put, serve_put_cas, serve_del,
  serve_del_with_prefix, serve_get, serve_get_with_prefix,
}
use fir_etcd.Gateway.Watching.{WatchQuery, SseTurn, serve_watch}

-- A request that the mux hands to a handler. The one to watch comes with what its handler meets.
pub data Request : Type 0 where
  get_keys_request : Request
  get_kvs_request : Request
  get_key : Bytes → Request
  get_keys_with_prefix : Bytes → Request
  get_watch : WatchQuery → (can_flush opened : Bool) → List SseTurn → Request
  post_put : ℤ → Option (List JsonPair) → Request
  post_put_cas : ℤ → Option PairCas → Request
  delete_key : Bytes → Request
  delete_keys_with_prefix : Bytes → Request

-- `marshal` is the JSON encoding of an event.
unfoldable pub serve : (ck : Ck) → (WatchEvent → Option Bytes) → ck.S → Request → ck.S × Writer
unfolding serve_keys serve_kvs serve_put serve_put_cas serve_del serve_del_with_prefix serve_get
    serve_get_with_prefix serve_watch
serve ck marshal s get_keys_request = serve_keys ck s
serve ck marshal s get_kvs_request = serve_kvs ck s
serve ck marshal s (get_key key) = serve_get ck s key
serve ck marshal s (get_keys_with_prefix prefix) = serve_get_with_prefix ck s prefix
serve ck marshal s (get_watch q can_flush opened turns) =
    (s, (serve_watch marshal q can_flush opened turns).writer)
serve ck marshal s (post_put now pairs) = serve_put ck s now pairs
serve ck marshal s (post_put_cas now p) = serve_put_cas ck s now p
serve ck marshal s (delete_key key) = serve_del ck s key
serve ck marshal s (delete_keys_with_prefix prefix) = serve_del_with_prefix ck s prefix
