-- ===== src/Gateway/Examples.antt =====
-- The handlers on clients in memory.

use fir_etcd.Prelude.{
  pos, Bytes, int_key, bytes_key, Map, lookup, remove, ℕ, ◌+◌, ◌≡◌, true, false, Option, none, some,
  [], ◌∷◌,
}
use fir_etcd.Kv.{put_event, WatchEvent}
use fir_etcd.Client.Lock.{cas_error}
use fir_etcd.Naming.{KvStore}
use fir_etcd.Naming.Services.{ServiceInfo, service_info}
use fir_etcd.Gateway.{event_stream, Returned, get_error, get_value, Ck}
use fir_etcd.Gateway.Watching.{WatchQuery, arrivals}
use fir_etcd.Gateway.Routes.{get_watch, serve}
use fir_etcd.Gateway.Status.{serve-status}
use fir_etcd.Gateway.Discovery.{RegisterServiceRequest}

abbrev returned : Option Bytes → Returned
returned none = get_error
returned (some v) = get_value (some v)

-- A client with a map; it cannot list, and its swaps fail.
abbrev a_ck : Ck
a_ck = record {
  S = Map Bytes Bytes;
  keys = λ s. (s, none);
  kvs = λ s. (s, some []);
  get = λ s k. (s, returned (lookup s k));
  get_with_prefix = λ s p. (s, none);
  delete = λ s k. (remove s k, true);
  delete_with_prefix = λ s p. (s, false);
  cas = λ s k o v ttl. (s, cas_error);
  exec = λ s p. (s, true);
}

abbrev stored : Map Bytes Bytes
stored = (1 ∷ [], 7 ∷ []) ∷ []

abbrev as_text : WatchEvent → Option Bytes
as_text e = some e.value

abbrev an_event : WatchEvent
an_event = record { event_type = put_event; key = 1 ∷ []; value = 7 ∷ [] }

abbrev a_query : WatchQuery
a_query = record { key = 1 ∷ []; is_prefix = []; send_initial_state = 49 ∷ [] }

serve-status_example :
    (serve a_ck as_text stored (get_watch a_query true true (arrivals (an_event ∷ [])))).1.sent
    ≡ some (200, some event_stream)
serve-status_example =
    serve-status a_ck as_text stored (get_watch a_query true true (arrivals (an_event ∷ [])))

abbrev a_request : RegisterServiceRequest
a_request = record {
  service_name = 97 ∷ [];
  service_id = 49 ∷ [];
  endpoint = 56 ∷ [];
  ttl = pos 2;
  metadata = [];
}

abbrev as_bytes : ServiceInfo → Option Bytes
as_bytes info = some (0 ∷ info.id)

abbrev as_info : Bytes → Option ServiceInfo
unfolding service_info
as_info [] = none
as_info (b ∷ id) = some (service_info (97 ∷ []) id (56 ∷ []) (pos 2000) (pos 1) [])

-- A store that has nothing.
abbrev blank : KvStore
blank = record {
  S = ℕ;
  put = λ s k v ttl. (s, true);
  get = λ s k. none;
  get_with_prefix = λ s p. none;
  lease_grant = λ s ttl. (s + 1, some (pos (s + 1)));
  lease_revoke = λ s id. s;
  lease_time_to_live = λ s id. none;
}
