-- ===== src/Client/Watching/Leader.antt =====
-- How a watch finds the leader.
use fir_etcd.Prelude.{◌==◌, if◌then◌else◌, ℕ, ◌≡◌, ◌⊎◌, Bool, true, some, List, [], ◌∷◌}
use fir_etcd.Kv.{WatchEvent}
use fir_etcd.Client.{Client}
use fir_etcd.Client.Watching.{Watching, StreamResult, not_leader, streamed, WatchTurn, start_of}

-- All servers are connected, and each but one says that it does not lead.
abbrev pub all_valid : ℕ → Bool
all_valid i = true

abbrev pub led_by : ℕ → List WatchEvent → ℕ → StreamResult
led_by leader events i = if i == leader then streamed events else not_leader

-- A turn asks the leader and hands its events on.
abbrev pub Reaches : ℕ → List WatchEvent → List WatchTurn → Type 0
Reaches leader events [] = ⊥
Reaches leader events (t ∷ ts) =
    ((t.asked ≡ some leader) × (t.events ≡ events)) ⊎ Reaches leader events ts

-- The loop stands at the server `at_server`.
abbrev Stands : ℕ → ℕ → Watching → Type 0
Stands n at_server w =
    (w.ck.servers ≡ n) × (w.ck.next_send_local_id ≡ at_server) × (start_of w ≡ at_server)

abbrev AsksLeader : ℕ → List WatchEvent → WatchTurn → Type 0
AsksLeader leader events t = (t.asked ≡ some leader) × (t.events ≡ events)
