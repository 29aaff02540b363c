-- ===== src/Lease/Examples.antt =====
-- A manager with two leases.

use fir_etcd.Lease.Blocked.{run_blocks}
use fir_etcd.Lease.Loop.{
  selecting, sending, check_expirations, Running, Goroutine, receives, asks_revoke, here, next,
}
use fir_etcd.Prelude.{
  ◌+ℤ◌, ℤ, pos, int_key, bytes_key, lookup, ◌≡◌, refl, false, some, List, [], ◌∷◌, arith,
}
use fir_etcd.Lease.{
  Lease, LeaseManager, new_lease_manager, granted_lease, grant_lease, update_lease, attach_key,
}
use fir_etcd.Lease.Laws.{IsSound, LeaseCall, grant, attach, call, calls, calls-IsSound}

abbrev two_grants : List LeaseCall
two_grants = grant (pos 5) (pos 100) ∷ grant (pos 30) (pos 100) ∷ attach (pos 2) (7 ∷ []) ∷ []

abbrev manager : LeaseManager
manager = calls (new_lease_manager (pos 10)) two_grants

calls-IsSound_example : IsSound (calls (new_lease_manager (pos 10)) two_grants)
calls-IsSound_example = calls-IsSound (pos 10) two_grants

manager-IsSound : IsSound manager
manager-IsSound = calls-IsSound (pos 10) two_grants

abbrev lease_one : Lease
lease_one = record { id = pos 1; ttl = pos 10; expires_at = pos 110; keys = [] }

lookup_one : lookup manager.leases (pos 1) ≡ some lease_one
unfolding calls call grant_lease granted_lease attach_key update_lease new_lease_manager ◌+ℤ◌
lookup_one = refl

abbrev at_select : Running
at_select = record { manager = manager; loop = selecting; callers = [] }

-- A call of Revoke comes after the tick.
abbrev after_tick : Running
after_tick = record at_select { loop = check_expirations manager (pos 111); callers = pos 2 ∷ [] }

run_blocks_example :
    (j : ℤ) × (ids : List ℤ) × (after_tick.loop ≡ sending j ids)
    × (after_tick.manager ≡ manager)
    × ((g : Goroutine) → receives after_tick g ≡ false)
run_blocks_example =
    run_blocks at_select after_tick (pos 1) (pos 111) lease_one manager-IsSound lookup_one
      (omega arith) (next here (asks_revoke (pos 2)))
