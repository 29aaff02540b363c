-- ===== src/Kv/Stream/Examples.antt =====
-- A client that watches the keys that begin with 1, on a store in memory.
use fir_etcd.Prelude.{◌+ℤ◌, ◌≡◌, refl, true, false, some, List, [], ◌∷◌, ◌++◌, arith}
use fir_etcd.Raft.State.{leader, Raft}
use fir_etcd.Raft.Recovery.{initial}
use fir_etcd.Store.{Db}
use fir_etcd.Store.Bolt.{seek, while_prefix, get_pairs_with_prefix}
use fir_etcd.Store.Bolt.Laws.{bolt_db}
use fir_etcd.Store.Memory.{memory, some_pairs}
use fir_etcd.Kv.{put_event, delete_event, WatchEvent}
use fir_etcd.Kv.Watch.{
  new_watcher_manager, add_watcher, register, offer, offer_all, notify_exact, notify_prefix, notify,
}
use fir_etcd.Kv.Stream.{
  WatchRequest, Stream, initial_state, send_event, send_initial, open_watch, pending, send_from,
  send_next, Happening, notified, sent_next, happen_all,
}
use fir_etcd.Kv.Stream.Initial.{shown_value, initial_state-shown}
use fir_etcd.Kv.Stream.Laws.{first_stream, watch_delivers}

abbrev db : Db
db = bolt_db memory

abbrev request : WatchRequest
request = record { key = 1 ∷ []; is_prefix = true; send_initial_state = true }

initial_state-shown_example :
    shown_value (initial_state db some_pairs request) (1 ∷ 3 ∷ []) ≡ some (7 ∷ [])
initial_state-shown_example = initial_state-shown db some_pairs request (1 ∷ 3 ∷ [])

abbrev back : Raft
unfolding initial
back = record (initial 0 3 (record { seq = 1; linked = true; records = []; snapshots = [] })) {
  state = leader;
  iis_back = true;
}

abbrev event : WatchEvent
event = record { event_type = put_event; key = 1 ∷ 2 ∷ []; value = 7 ∷ [] }

abbrev other : WatchEvent
other = record { event_type = delete_event; key = 2 ∷ []; value = [] }

abbrev accepted : Stream
unfolding new_watcher_manager
accepted = record (first_stream new_watcher_manager request) {
  sent = initial_state db some_pairs request;
}

abbrev happenings : List Happening
happenings = notified event ∷ notified other ∷ sent_next ∷ notified event ∷ []

watch_delivers_example :
    (happen_all request accepted happenings).sent
      ++ pending request (happen_all request accepted happenings)
    ≡ initial_state db some_pairs request ++ event ∷ event ∷ []
unfolding open_watch initial_state send_initial send_event register add_watcher ◌+ℤ◌
    new_watcher_manager notify notify_exact notify_prefix offer_all offer happen_all send_next
    send_from initial get_pairs_with_prefix seek while_prefix
watch_delivers_example =
    watch_delivers db false back some_pairs new_watcher_manager request accepted happenings refl
      refl (omega arith, (omega arith, (omega arith, tt)))
