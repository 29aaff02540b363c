-- ===== src/Kv/Watch.antt =====
-- The WatcherManager of kvraft/server.go.
pub mod Delivery
use fir_etcd.Prelude.{
  ltb, if◌then◌else◌, length, ◌+ℤ◌, ℤ, pos, Bytes, bytes_equal, has_prefix, int_key, bytes_key, Map,
  is_some, lookup, remove, insert, Bool, none, some, List, [], ◌∷◌, ◌++◌,
}
use fir_etcd.Kv.{WatchEvent}

-- `event_chan` is what waits in the channel of the client, which holds ten events.
pub record Watcher : Type 0 where
  pub id : ℤ
  pub key : Bytes
  pub is_prefix : Bool
  pub event_chan : List WatchEvent

abbrev pub Watchers : Type 0
Watchers = Map Bytes (Map ℤ Watcher)

pub record WatcherManager : Type 0 where
  pub next_watcher_id : ℤ
  pub exact_watchers : Watchers
  pub prefix_watchers : Watchers

unfoldable pub new_watcher_manager : WatcherManager
new_watcher_manager = record { next_watcher_id = pos 1; exact_watchers = []; prefix_watchers = [] }

-- The watchers of a key; a key without any has no map.
abbrev pub watchers_of : Watchers → Bytes → Map ℤ Watcher
watchers_of ws key = elim (lookup ws key) [ none ↦ [] | some m ↦ m ]

unfoldable pub add_watcher : Watchers → Watcher → Watchers
add_watcher ws w = insert ws w.key (insert (watchers_of ws w.key) w.id w)

unfoldable pub register : WatcherManager → Bytes → Bool → WatcherManager × ℤ
unfolding add_watcher
register wm key is_prefix =
    let w : Watcher = record {
      id = wm.next_watcher_id;
      key = key;
      is_prefix = is_prefix;
      event_chan = [];
    } in
    let next = record wm { next_watcher_id = wm.next_watcher_id +ℤ pos 1 } in
    if is_prefix
    then (record next { prefix_watchers = add_watcher wm.prefix_watchers w }, w.id)
    else (record next { exact_watchers = add_watcher wm.exact_watchers w }, w.id)

-- The last watcher of a key takes the map of the key with it.
unfoldable pub drop_watcher : Watchers → Bytes → ℤ → Watchers
drop_watcher ws key watch_id =
    if is_some (lookup (watchers_of ws key) watch_id)
    then elim (remove (watchers_of ws key) watch_id) [
      | [] ↦ remove ws key
      | w ∷ m ↦ insert ws key (w ∷ m)
    ]
    else ws

unfoldable pub deregister : WatcherManager → ℤ → Bytes → Bool → WatcherManager
unfolding drop_watcher
deregister wm watch_id key is_prefix =
    if is_prefix
    then record wm { prefix_watchers = drop_watcher wm.prefix_watchers key watch_id }
    else record wm { exact_watchers = drop_watcher wm.exact_watchers key watch_id }

-- A send that does not wait: a full channel drops the event.
unfoldable pub offer : WatchEvent → Watcher → Watcher
offer event w =
    if ltb (length w.event_chan) 10 then record w { event_chan = w.event_chan ++ event ∷ [] } else w

unfoldable pub offer_all : WatchEvent → Map ℤ Watcher → Map ℤ Watcher
unfolding offer
offer_all event [] = []
offer_all event ((id, w) ∷ m) = (id, offer event w) ∷ offer_all event m

unfoldable pub notify_exact : Watchers → WatchEvent → Watchers
unfolding offer_all
notify_exact [] event = []
notify_exact ((key, m) ∷ ws) event =
    (key, if bytes_equal key event.key then offer_all event m else m) ∷ notify_exact ws event

unfoldable pub notify_prefix : Watchers → WatchEvent → Watchers
unfolding offer_all
notify_prefix [] event = []
notify_prefix ((prefix, m) ∷ ws) event =
    (prefix, if has_prefix event.key prefix then offer_all event m else m) ∷ notify_prefix ws event

unfoldable pub notify : WatcherManager → WatchEvent → WatcherManager
unfolding notify_exact notify_prefix
notify wm event = record wm {
  exact_watchers = notify_exact wm.exact_watchers event;
  prefix_watchers = notify_prefix wm.prefix_watchers event;
}
