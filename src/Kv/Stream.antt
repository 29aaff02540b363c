-- ===== src/Kv/Stream.antt =====
-- The handler Watch of kvraft/server.go.
pub mod Initial
pub mod Laws
mod Examples
use fir_etcd.Prelude.{
  if◌then◌else◌, ℤ, Bytes, Bool, true, false, not, none, some, List, [], ◌∷◌, ◌++◌, map,
}
use fir_etcd.Raft.State.{is_leader, Raft}
use fir_etcd.Store.{Pair, Db}
use fir_etcd.Kv.{put_event, WatchEvent}
use fir_etcd.Kv.Watch.{Watcher, WatcherManager, add_watcher, register, deregister, notify}
use fir_etcd.Kv.Watch.Delivery.{watcher_at}

pub record WatchRequest : Type 0 where
  pub key : Bytes
  pub is_prefix : Bool
  pub send_initial_state : Bool

-- The gRPC status of a request that is turned away.
pub data Code : Type 0 where
  unavailable : Code
  failed_precondition : Code

-- A stream is open or has ended; its manager, its watcher and what it has sent.
pub record Stream : Type 0 where
  pub manager : WatcherManager
  pub watch_id : ℤ
  pub sent : List WatchEvent
  pub is_open : Bool

pub data Opened : Type 0 where
  turned_away : Code → Opened
  streaming : Stream → Opened

abbrev pub put_of : Bytes → Bytes → WatchEvent
put_of key value = record { event_type = put_event; key = key; value = value }

module _ (db : Db) where
  -- What the handler sends first.
  unfoldable pub initial_state : db.Store → WatchRequest → List WatchEvent
  initial_state s req =
      if req.is_prefix
      then map (λ (q : Pair). put_of q.0 q.1.value) (db.get_pairs_with_prefix s req.key)
      else elim (db.get_entry s req.key) [ none ↦ [] | some e ↦ put_of req.key e.value ∷ [] ]

-- The end of the handler, which the deferred call makes on every way out.
unfoldable pub close_stream : WatchRequest → Stream → Stream
close_stream req st = record st {
  manager = deregister st.manager st.watch_id req.key req.is_prefix;
  is_open = false;
}

-- One event goes out; `ok` tells whether the send succeeds.
unfoldable pub send_event : WatchRequest → Stream → WatchEvent → Bool → Stream
unfolding close_stream
send_event req st event ok =
    if ok then record st { sent = st.sent ++ event ∷ [] } else close_stream req st

-- The events of the initial state, until a send fails; `oks` are the results of the sends.
unfoldable pub send_initial : WatchRequest → Stream → List WatchEvent → List Bool → Stream
unfolding send_event
send_initial req st [] oks = st
send_initial req st (e ∷ es) [] = st
send_initial req st (e ∷ es) (ok ∷ oks) =
    let rest = send_initial req (send_event req st e true) es oks in
    if ok then rest else send_event req st e false

-- The part of the handler before its loop, with no other step between its parts.
unfoldable pub open_watch :
    (db : Db) → Bool → Raft → db.Store → WatcherManager → WatchRequest → List Bool → Opened
unfolding initial_state send_initial
open_watch db killed rf s wm req oks =
    if killed
    then turned_away unavailable
    else if not (is_leader rf.state)
    then turned_away failed_precondition
    else if not rf.iis_back
    then turned_away unavailable
    else let (wm', id) = register wm req.key req.is_prefix in
      let st : Stream = record { manager = wm'; watch_id = id; sent = []; is_open = true } in
      if req.send_initial_state
      then streaming (send_initial req st (initial_state db s req) oks)
      else streaming st

abbrev pub with_watcher : WatcherManager → Watcher → WatcherManager
with_watcher wm w =
    if w.is_prefix
    then record wm { prefix_watchers = add_watcher wm.prefix_watchers w }
    else record wm { exact_watchers = add_watcher wm.exact_watchers w }

-- What waits in the channel of the stream.
abbrev pub pending : WatchRequest → Stream → List WatchEvent
pending req st = elim (watcher_at st.manager req.key req.is_prefix st.watch_id) [
  | none ↦ []
  | some w ↦ w.event_chan
]

-- The stream once the first of the waiting events is taken from the channel and sent.
unfoldable pub send_from : WatchRequest → Stream → Bool → List WatchEvent → Stream
unfolding send_event
send_from req st ok [] = st
send_from req st ok (event ∷ later) =
    send_event req
      (record st {
        manager = with_watcher st.manager (record {
          id = st.watch_id;
          key = req.key;
          is_prefix = req.is_prefix;
          event_chan = later;
        });
      })
      event ok

-- A turn of the loop that looks at the channel.
unfoldable pub send_next : WatchRequest → Stream → Bool → Stream
unfolding send_from
send_next req st ok = send_from req st ok (pending req st)

-- What happens around an open stream: the manager is told of an event, or the loop takes one and sends
-- it.
pub data Happening : Type 0 where
  notified : WatchEvent → Happening
  sent_next : Happening

abbrev pub happen : WatchRequest → Stream → Happening → Stream
happen req st (notified event) = record st { manager = notify st.manager event }
happen req st sent_next = send_next req st true

unfoldable pub happen_all : WatchRequest → Stream → List Happening → Stream
happen_all req st [] = st
happen_all req st (h ∷ hs) = happen_all req (happen req st h) hs
