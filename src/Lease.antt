-- ===== src/Lease.antt =====
-- The lease manager, pkg/lease/manager.go. Times and durations are nanoseconds, and the time of a
-- call is an argument. A manager's channel revokeC and its loop are in Lease.Loop.
pub mod Loop
pub mod Blocked
pub mod Service
pub mod Laws
pub mod Keys
pub mod Expiry
mod Examples
use fir_etcd.Prelude.{
  if◌then◌else◌, ◌+ℤ◌, ℤ, pos, ltb_ℤ, Bytes, int_key, bytes_key, Map, lookup, remove, insert,
  keys_of, Bool, Option, none, some, List, [], ◌∷◌,
}

pub record Lease : Type 0 where
  pub id : ℤ
  pub ttl : ℤ
  pub expires_at : ℤ
  pub keys : Map Bytes (Unit {0})

pub record LeaseManager : Type 0 where
  pub leases : Map ℤ Lease
  pub next_lease_id : ℤ
  pub min_lease_ttl : ℤ

unfoldable pub new_lease_manager : ℤ → LeaseManager
new_lease_manager min_lease_ttl = record {
  leases = [];
  next_lease_id = pos 1;
  min_lease_ttl = min_lease_ttl;
}

unfoldable pub granted_lease : LeaseManager → ℤ → ℤ → Lease
granted_lease lm ttl now =
    let ttl' = if ltb_ℤ ttl lm.min_lease_ttl then lm.min_lease_ttl else ttl in
    record { id = lm.next_lease_id; ttl = ttl'; expires_at = now +ℤ ttl'; keys = [] }

unfoldable pub grant_lease : LeaseManager → ℤ → ℤ → LeaseManager × Lease
unfolding granted_lease
grant_lease lm ttl now =
    let lease = granted_lease lm ttl now in
    (
      record lm {
        leases = insert lm.leases lease.id lease;
        next_lease_id = lm.next_lease_id +ℤ pos 1;
      },
      lease,
    )

-- A change of the lease that the map points to; a missing lease is left alone.
unfoldable pub update_lease : LeaseManager → ℤ → (Lease → Lease) → LeaseManager
update_lease lm id f = elim (lookup lm.leases id) [
  | none ↦ lm
  | some lease ↦ record lm { leases = insert lm.leases id (f lease) }
]

unfoldable pub revoke_lease : LeaseManager → ℤ → LeaseManager
revoke_lease lm id = record lm { leases = remove lm.leases id }

unfoldable pub keep_alive : LeaseManager → ℤ → ℤ → LeaseManager × Option Lease
unfolding update_lease
keep_alive lm id now =
    let lm' = update_lease lm id (λ lease. record lease { expires_at = now +ℤ lease.ttl }) in
    (lm', lookup lm'.leases id)

unfoldable pub attach_key : LeaseManager → ℤ → Bytes → LeaseManager
unfolding update_lease
attach_key lm id k = update_lease lm id (λ lease. record lease { keys = insert lease.keys k tt })

unfoldable pub detach_key : LeaseManager → ℤ → Bytes → LeaseManager
unfolding update_lease
detach_key lm id k = update_lease lm id (λ lease. record lease { keys = remove lease.keys k })

-- now.After(l.ExpiresAt)
unfoldable pub is_expired : Lease → ℤ → Bool
is_expired lease now = ltb_ℤ lease.expires_at now

unfoldable pub expired_ids : Map ℤ Lease → ℤ → List ℤ
unfolding is_expired
expired_ids [] now = []
expired_ids ((id, lease) ∷ leases) now =
    let rest = expired_ids leases now in if is_expired lease now then id ∷ rest else rest

unfoldable pub expired_leases : LeaseManager → ℤ → List ℤ
unfolding expired_ids
expired_leases lm now = expired_ids lm.leases now

unfoldable pub get_lease : LeaseManager → ℤ → Option Lease
get_lease lm id = lookup lm.leases id

unfoldable pub get_lease_keys : LeaseManager → ℤ → List Bytes
get_lease_keys lm id = elim (lookup lm.leases id) [ none ↦ [] | some lease ↦ keys_of lease.keys ]
