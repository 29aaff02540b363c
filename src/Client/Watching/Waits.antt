-- ===== src/Client/Watching/Waits.antt =====
-- How long the loop waits.
use fir_etcd.Client.{Client}
use fir_etcd.Prelude.{ℕ, ◌≤◌, ◌≡◌, refl, ◌⊎◌, inl, Bool, Option, none, some, List, [], ◌∷◌, arith}
use fir_etcd.Kv.{WatchEvent}
use fir_etcd.Client.Watching.{
  initial_backoff, max_backoff, Watching, StreamResult, not_leader, stream_failed, streamed,
  WatchTurn, start_of, retry_later, take_stream, turn_at, watch_turn, begin_watching, watch_turns,
}

-- The next wait is between the first and the longest.
abbrev pub IsBounded : Watching → Type 0
IsBounded w = (initial_backoff ≤ w.backoff) × (w.backoff ≤ max_backoff)

-- A turn that waits does so within the limits, and leaves the next wait within them.
abbrev pub WaitsWell : WatchTurn → Type 0
WaitsWell t =
    ((t.wait ≡ 0) ⊎ ((initial_backoff ≤ t.wait) × (t.wait ≤ max_backoff))) × IsBounded t.after

retry_later-WaitsWell :
    (w : Watching) (asked : Option ℕ) (events : List WatchEvent)
    → IsBounded w
    → WaitsWell (retry_later w asked events)
unfolding retry_later
retry_later-WaitsWell w asked events h = ground (arith, h)

take_stream-WaitsWell :
    (w : Watching) (target : ℕ) (r : StreamResult)
    → IsBounded w
    → WaitsWell (take_stream w target r)
unfolding take_stream
take_stream-WaitsWell w target not_leader h = (inl refl, omega arith)
take_stream-WaitsWell w target stream_failed h =
    retry_later-WaitsWell (record w { server_idx = some target }) (some target) [] h
take_stream-WaitsWell w target (streamed events) h =
    retry_later-WaitsWell (record w { server_idx = some target; backoff = initial_backoff })
      (some target) events (omega arith)

turn_at-WaitsWell :
    (result : ℕ → StreamResult) (w : Watching) (found : Option ℕ)
    → IsBounded w
    → WaitsWell (turn_at result w found)
unfolding turn_at
turn_at-WaitsWell result w none h =
    retry_later-WaitsWell (record w { server_idx = some (start_of w) }) none [] h
turn_at-WaitsWell result w (some target) h = take_stream-WaitsWell w target (result target) h

abbrev pub AllWaitWell : List WatchTurn → Type 0
AllWaitWell [] = Unit {0}
AllWaitWell (t ∷ ts) = WaitsWell t × AllWaitWell ts

watch_turns-AllWaitWell :
    (attempts : List ((ℕ → Bool) × (ℕ → StreamResult))) (w : Watching)
    → IsBounded w
    → AllWaitWell (watch_turns w attempts)
unfolding watch_turns watch_turn
watch_turns-AllWaitWell [] w h = tt
watch_turns-AllWaitWell ((valid, result) ∷ rest) w h =
    let t : WaitsWell (watch_turn valid result w) = turn_at-WaitsWell result w _ h in
    (t, watch_turns-AllWaitWell rest (watch_turn valid result w).after t.1)

-- A watch waits at least half a second and at most 30 seconds before it tries a server again, in every
-- run of its loop, or it does not wait at all.
pub begin_watching-AllWaitWell :
    (ck : Client) (attempts : List ((ℕ → Bool) × (ℕ → StreamResult)))
    → AllWaitWell (watch_turns (begin_watching ck) attempts)
begin_watching-AllWaitWell ck attempts =
    watch_turns-AllWaitWell attempts (begin_watching ck) (omega arith)
