-- ===== src/Lease/Blocked.antt =====
-- What an expired lease does to the goroutine of the lease manager.
use fir_etcd.Prelude.{
  ℤ, ◌<ℤ◌, int_key, bytes_key, contains, lookup, ◌≡◌, refl, true, false, some, List, [], ◌∷◌, arith,
}
use fir_etcd.Lease.{Lease, LeaseManager, expired_leases}
use fir_etcd.Lease.Laws.{IsSound}
use fir_etcd.Lease.Expiry.{expired_leases_lem}
use fir_etcd.Lease.Loop.{
  sending, send_ids, check_expirations, Running, Goroutine, run, caller, receives, locked, RunStep,
  ticks, asks_revoke, meets, calls_manager, stops, RunSteps, here, next,
}

-- The goroutine stands at the send of an id with the lock held, and the manager is as it was.
pub record IsStuck (lm : LeaseManager) (id : ℤ) (ids : List ℤ) (s : Running) : Type 0 where
  pub stands : s.loop ≡ sending id ids
  pub same : s.manager ≡ lm

-- Nobody receives, so that no send is done; and nobody else has the lock.
nobody_receives :
    (s : Running) (id : ℤ) (ids : List ℤ) (g : Goroutine)
    → s.loop ≡ sending id ids
    → receives s g ≡ false
unfolding receives
nobody_receives s id ids run e = rw e refl
nobody_receives s id ids (caller n) e = refl

is_locked : (s : Running) (id : ℤ) (ids : List ℤ) → s.loop ≡ sending id ids → locked s ≡ true
unfolding locked
is_locked s id ids e = rw e refl

RunStep-IsStuck :
    (lm : LeaseManager) (id : ℤ) (ids : List ℤ) {s t : Running}
    → RunStep s t
    → IsStuck lm id ids s
    → IsStuck lm id ids t
RunStep-IsStuck lm id ids {s = s} (ticks now e) h = let there = h.stands in cc
RunStep-IsStuck lm id ids (asks_revoke j) h = record { stands = h.stands; same = h.same }
RunStep-IsStuck lm id ids {s = s} (meets sender receiver j e r) h =
    let none_receives = nobody_receives s id ids receiver h.stands in cc
RunStep-IsStuck lm id ids {s = s} (calls_manager c e) h =
    let held = is_locked s id ids h.stands in cc
RunStep-IsStuck lm id ids {s = s} (stops e) h = let there = h.stands in cc

RunSteps-IsStuck :
    (lm : LeaseManager) (id : ℤ) (ids : List ℤ) {s t : Running}
    → RunSteps s t
    → IsStuck lm id ids s
    → IsStuck lm id ids t
RunSteps-IsStuck lm id ids here h = h
RunSteps-IsStuck lm id ids (next r st) h =
    RunStep-IsStuck lm id ids st (RunSteps-IsStuck lm id ids r h)

-- An expired lease is listed, so that there is an id to send.
sends_one :
    (lm : LeaseManager) (now id : ℤ) (lease : Lease)
    → IsSound lm
    → lookup lm.leases id ≡ some lease
    → lease.expires_at <ℤ now
    → (j : ℤ) × (ids : List ℤ) × (check_expirations lm now ≡ sending j ids)
unfolding check_expirations send_ids
sends_one lm now id lease h a late =
    listed (expired_leases lm now) (ground (arith, expired_leases_lem lm now id h, a, late))
  where
    listed :
        (ids : List ℤ)
        → contains ids id ≡ true
        → (j : ℤ) × (rest : List ℤ) × (send_ids ids ≡ sending j rest)
    listed [] e = cc
    listed (j ∷ rest) e = (j, rest, refl)

-- Once the goroutine of a sound manager has a tick after the end of a lease, it stands at the send of
-- an id for ever, in whatever way it, the callers of Revoke and those of the other operations take
-- their steps: no goroutine receives on the channel, and the manager stays as it was at the tick.
pub run_blocks :
    (s t : Running) (id now : ℤ) (lease : Lease)
    → IsSound s.manager
    → lookup s.manager.leases id ≡ some lease
    → lease.expires_at <ℤ now
    → RunSteps (record s { loop = check_expirations s.manager now }) t
    → (j : ℤ) × (ids : List ℤ) × (t.loop ≡ sending j ids)
      × (t.manager ≡ s.manager)
      × ((g : Goroutine) → receives t g ≡ false)
run_blocks s t id now lease h a late steps =
    let (j, ids, e) = sends_one s.manager now id lease h a late in
    let stuck : IsStuck s.manager j ids t =
      RunSteps-IsStuck s.manager j ids steps (record { stands = e; same = refl }) in
    (j, ids, stuck.stands, stuck.same, λ g. nobody_receives t j ids g stuck.stands)
