-- ===== src/Kv/Stream/Laws.antt =====
-- What a watcher is sent.
use fir_etcd.Kv.Watch.{Watcher, WatcherManager, register, offer, notify}
use fir_etcd.Raft.State.{Bytes, Raft}
use fir_etcd.Prelude.{
  if◌then◌else◌, Bool-cases, length, replicate, ℤ, ==ℤ_refl, bytes_equal_refl, ◌<◌, ◌≡◌, refl, sym,
  ap, ◌∙◌, subst, inl, inr, Bool, true, false, some, List, [], ◌∷◌, ◌++◌, append-nil, append_assoc,
  arith,
}
use fir_etcd.Store.{Db}
use fir_etcd.Kv.{WatchEvent}
use fir_etcd.Kv.Watch.Delivery.{
  watcher_at, concerns, watcher_at-notify, add_lem, fresh_watcher, watcher_at-register,
}
use fir_etcd.Kv.Stream.{
  WatchRequest, Stream, streaming, initial_state, send_event, send_initial, open_watch,
  with_watcher, pending, send_from, send_next, Happening, notified, sent_next, happen, happen_all,
}

-- The watcher of the stream, with what waits in its channel.
abbrev pub Listens : WatchRequest → Stream → List WatchEvent → Type 0
Listens req st es =
    (w : Watcher) × (watcher_at st.manager req.key req.is_prefix st.watch_id ≡ some w)
    × (w.event_chan ≡ es)

abbrev pub with_notified : WatchRequest → WatchEvent → List WatchEvent → List WatchEvent
with_notified req event es = if concerns req.key req.is_prefix event then es ++ event ∷ [] else es

notified-Listens :
    (req : WatchRequest) (st : Stream) (event : WatchEvent) (es : List WatchEvent)
    → Listens req st es
    → length es < 10
    → Listens req (record st { manager = notify st.manager event }) (with_notified req event es)
unfolding offer
notified-Listens req st event es (w, at_id, e) room =
    elim (Bool-cases (concerns req.key req.is_prefix event)) [
      | inl c ↦ (
        offer event w,
        ground
            (arith, watcher_at-notify st.manager event req.key req.is_prefix st.watch_id, c, at_id),
        ground (arith, c, e),
      )
      | inr c ↦ (
        w,
        ground
            (arith, watcher_at-notify st.manager event req.key req.is_prefix st.watch_id, c, at_id),
        ground (arith, c, e),
      )
    ]

with_watcher-at :
    (wm : WatcherManager) (id : ℤ) (key : Bytes) (is_prefix : Bool) (es : List WatchEvent)
    → watcher_at
        (with_watcher wm (record { id = id; key = key; is_prefix = is_prefix; event_chan = es }))
        key
        is_prefix
        id
      ≡ some (record { id = id; key = key; is_prefix = is_prefix; event_chan = es })
with_watcher-at wm id key true es =
    add_lem wm.prefix_watchers (record { id = id; key = key; is_prefix = true; event_chan = es })
      key id
    ∙ ground (arith, bytes_equal_refl key, ==ℤ_refl id)
with_watcher-at wm id key false es =
    add_lem wm.exact_watchers (record { id = id; key = key; is_prefix = false; event_chan = es })
      key id
    ∙ ground (arith, bytes_equal_refl key, ==ℤ_refl id)

pending-eq :
    (req : WatchRequest) (st : Stream) (es : List WatchEvent)
    → Listens req st es
    → pending req st ≡ es
pending-eq req st es (w, at_id, e) = rw (at_id, pending) e

-- A turn of the loop moves the first event of the channel to the client.
record Moved (req : WatchRequest) (st : Stream) (es : List WatchEvent) (st' : Stream) : Type 0 where
  later : List WatchEvent
  listens : Listens req st' later
  same : st'.sent ++ later ≡ st.sent ++ es

send_from-Moved :
    (req : WatchRequest) (st : Stream) (es : List WatchEvent)
    → Listens req st es
    → Moved req st es (send_from req st true es)
unfolding send_from send_event
send_from-Moved req st [] l = record { later = []; listens = l; same = refl }
send_from-Moved req st (e ∷ es) l = record {
  later = es;
  listens = (_, with_watcher-at st.manager st.watch_id req.key req.is_prefix es, refl);
  same = append_assoc st.sent (e ∷ []) es;
}

send_next-Moved :
    (req : WatchRequest) (st : Stream) (es : List WatchEvent)
    → Listens req st es
    → Moved req st es (send_next req st true)
unfolding send_next
send_next-Moved req st es l =
    subst (λ x. Moved req st es (send_from req st true x)) (sym (pending-eq req st es l))
      (send_from-Moved req st es l)

-- The events of a run that the watcher is concerned with, in their order.
abbrev pub watched : WatchRequest → List Happening → List WatchEvent
watched req [] = []
watched req (notified event ∷ hs) =
    if concerns req.key req.is_prefix event then event ∷ watched req hs else watched req hs
watched req (sent_next ∷ hs) = watched req hs

-- No event of the run meets a full channel.
abbrev pub HasRoom : WatchRequest → Stream → List Happening → Type 0
HasRoom req st [] = Unit {0}
HasRoom req st (notified event ∷ hs) =
    (length (pending req st) < 10) × HasRoom req (happen req st (notified event)) hs
HasRoom req st (sent_next ∷ hs) = HasRoom req (happen req st sent_next) hs

with_notified-append :
    (req : WatchRequest) (event : WatchEvent) (hs : List Happening) (sent es : List WatchEvent)
    → (sent ++ with_notified req event es) ++ watched req hs
      ≡ (sent ++ es) ++ watched req (notified event ∷ hs)
with_notified-append req event hs sent es =
    elim (Bool-cases (concerns req.key req.is_prefix event)) [
      | inl c ↦
          rw (c, with_notified, watched)
            (ap (λ x. x ++ watched req hs) (sym (append_assoc sent es (event ∷ [])))
              ∙ append_assoc (sent ++ es) (event ∷ []) (watched req hs))
      | inr c ↦ ground (arith, c)
    ]

happen_all-shown :
    (req : WatchRequest) (hs : List Happening) (st : Stream) (es : List WatchEvent)
    → Listens req st es
    → HasRoom req st hs
    → (happen_all req st hs).sent ++ pending req (happen_all req st hs)
      ≡ (st.sent ++ es) ++ watched req hs
unfolding happen_all
happen_all-shown req [] st es l room =
    rw (pending-eq req st es l) (sym (append-nil (st.sent ++ es)))
happen_all-shown req (notified event ∷ hs) st es l room =
    happen_all-shown req hs (record st { manager = notify st.manager event })
      (with_notified req event es)
      (notified-Listens req st event es l
        (subst (λ x. length x < 10) (pending-eq req st es l) room.0))
      room.1
    ∙ with_notified-append req event hs st.sent es
happen_all-shown req (sent_next ∷ hs) st es l room =
    let m : Moved req st es (send_next req st true) = send_next-Moved req st es l in
    happen_all-shown req hs (send_next req st true) m.later m.listens room
    ∙ ap (λ x. x ++ watched req hs) m.same

send_initial-all :
    (req : WatchRequest) (es : List WatchEvent) (st : Stream)
    → send_initial req st es (replicate (length es) true) ≡ record st { sent = st.sent ++ es }
unfolding send_initial send_event
send_initial-all req [] st = ap (λ x. record st { sent = x }) (sym (append-nil st.sent))
send_initial-all req (e ∷ es) st =
    send_initial-all req es (record st { sent = st.sent ++ e ∷ [] })
    ∙ ap (λ x. record st { sent = x }) (append_assoc st.sent (e ∷ []) es)

-- The stream of an accepted request, before anything is sent.
abbrev pub first_stream : WatcherManager → WatchRequest → Stream
first_stream wm req = record {
  manager = (register wm req.key req.is_prefix).0;
  watch_id = (register wm req.key req.is_prefix).1;
  sent = [];
  is_open = true;
}

registered :
    (wm : WatcherManager) (key : Bytes) (is_prefix : Bool)
    → watcher_at (register wm key is_prefix).0 key is_prefix (register wm key is_prefix).1
      ≡ some (fresh_watcher wm key is_prefix)
unfolding register
registered wm key true =
    watcher_at-register wm key key true true wm.next_watcher_id
    ∙ ground (arith, bytes_equal_refl key, ==ℤ_refl wm.next_watcher_id)
registered wm key false =
    watcher_at-register wm key key false false wm.next_watcher_id
    ∙ ground (arith, bytes_equal_refl key, ==ℤ_refl wm.next_watcher_id)

first-Listens : (wm : WatcherManager) (req : WatchRequest) → Listens req (first_stream wm req) []
first-Listens wm req =
    (fresh_watcher wm req.key req.is_prefix, registered wm req.key req.is_prefix, refl)

opened :
    (db : Db) (killed : Bool) (rf : Raft) (s : db.Store) (wm : WatcherManager) (req : WatchRequest)
    (st : Stream)
    → open_watch db killed rf s wm req (replicate (length (initial_state db s req)) true)
      ≡ streaming st
    → req.send_initial_state ≡ true
    → st ≡ record (first_stream wm req) { sent = initial_state db s req }
unfolding open_watch
opened db killed rf s wm req st h i =
    ground (arith, h, i, send_initial-all req (initial_state db s req) (first_stream wm req))

-- An accepted watch whose sends succeed shows the client the state of the store at its start and then
-- each event that the manager is told of and that concerns the watched key or prefix, once and in
-- order, if no such event meets a full channel: what was sent with what still waits in the channel
-- is exactly this list.
pub watch_delivers :
    (db : Db) (killed : Bool) (rf : Raft) (s : db.Store) (wm : WatcherManager) (req : WatchRequest)
    (st : Stream) (hs : List Happening)
    → req.send_initial_state ≡ true
    → open_watch db killed rf s wm req (replicate (length (initial_state db s req)) true)
      ≡ streaming st
    → HasRoom req st hs
    → (happen_all req st hs).sent ++ pending req (happen_all req st hs)
      ≡ initial_state db s req ++ watched req hs
watch_delivers db killed rf s wm req st hs i h room =
    let e : st ≡ record (first_stream wm req) { sent = initial_state db s req } =
      opened db killed rf s wm req st h i in
    happen_all-shown req hs st [] (subst (λ x. Listens req x []) (sym e) (first-Listens wm req))
      room
    ∙ ap (λ x. x ++ watched req hs) (append-nil st.sent ∙ ap (λ (x : Stream). x.sent) e)
