-- ===== src/Lease/Expiry.antt =====
-- Which leases are expired.

use fir_etcd.Prelude.{
  if◌then◌else◌, Bool-cases, ◌+ℤ◌, ℤ, ltb_ℤ, ◌==ℤ◌, ==ℤ→eq, int_key, bytes_key, Map, contains,
  lookup, Distinct, ◌≡◌, refl, subst, inl, inr, Bool, true, false, Option, none, some, [], ◌∷◌,
  arith,
}
use fir_etcd.Lease.{
  Lease, LeaseManager, update_lease, keep_alive, is_expired, expired_ids, expired_leases,
}
use fir_etcd.Lease.Laws.{IsSound, lookup-update_lease, update_lease-IsSound}

-- A lease of the manager whose time is over.
abbrev pub expired_now : Option Lease → ℤ → Bool
expired_now none now = false
expired_now (some lease) now = ltb_ℤ lease.expires_at now

expired_ids_lem :
    (m : Map ℤ Lease) (now id : ℤ)
    → Distinct m
    → contains (expired_ids m now) id ≡ expired_now (lookup m id) now
unfolding expired_ids is_expired
expired_ids_lem [] now id d = refl
expired_ids_lem ((k, l) ∷ m) now id d =
    let gone : (k ==ℤ id) ≡ true → lookup m id ≡ none =
      λ e. subst (λ x. lookup m x ≡ none) (==ℤ→eq k id e) d.0 in
    elim (Bool-cases (k ==ℤ id)) [
      | inl e ↦ ground (arith, expired_ids_lem m now id d.1, gone e)
      | inr e ↦ ground (arith, expired_ids_lem m now id d.1)
    ]

-- On a sound manager a lease is listed as expired exactly when the manager has it and its time is
-- over.
pub expired_leases_lem :
    (lm : LeaseManager) (now id : ℤ)
    → IsSound lm
    → contains (expired_leases lm now) id ≡ expired_now (lookup lm.leases id) now
unfolding expired_leases
expired_leases_lem lm now id h = expired_ids_lem lm.leases now id h.distinct

-- On a sound manager a lease that is kept alive is expired exactly after its time to live has
-- passed again, and every other lease when it was before.
pub expired_leases-keep_alive :
    (lm : LeaseManager) (id : ℤ) (lease : Lease) (now later k : ℤ)
    → IsSound lm
    → lookup lm.leases id ≡ some lease
    → contains (expired_leases (keep_alive lm id now).0 later) k
      ≡ (if id ==ℤ k then ltb_ℤ (now +ℤ lease.ttl) later else contains (expired_leases lm later) k)
unfolding keep_alive
expired_leases-keep_alive lm id lease now later k h a =
    let f : Lease → Lease = λ l. record l { expires_at = now +ℤ l.ttl } in
    ground (
      arith,
      expired_leases_lem (update_lease lm id f) later k
          (update_lease-IsSound lm id f (λ l. refl) h),
      expired_leases_lem lm later k h,
      lookup-update_lease lm id k f,
    )
