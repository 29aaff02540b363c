-- ===== src/Lease/Keys.antt =====
-- The keys of a lease.
use fir_etcd.Prelude.{
  if◌then◌else◌, ℤ, ◌==ℤ◌, ==ℤ→eq, Bytes, bytes_equal, int_key, bytes_key, Map, is_some, contains,
  lookup, remove, insert, lookup-remove, lookup-insert, contains-keys_of, ◌≡◌, subst, Bool, true,
  false, ◌&&◌, some, arith,
}
use fir_etcd.Lease.{Lease, LeaseManager, update_lease, attach_key, detach_key, get_lease_keys}
use fir_etcd.Lease.Laws.{lookup-update_lease}

-- Whether a key is among the keys of a lease.
abbrev pub has_key : LeaseManager → ℤ → Bytes → Bool
has_key lm id k = contains (get_lease_keys lm id) k

abbrev with_keys : (Map Bytes (Unit {0}) → Map Bytes (Unit {0})) → Lease → Lease
with_keys f lease = record lease { keys = f lease.keys }

has_key-update_lease :
    (lm : LeaseManager) (id j : ℤ) (k : Bytes) (f : Map Bytes (Unit {0}) → Map Bytes (Unit {0}))
    (lease : Lease)
    → lookup lm.leases id ≡ some lease
    → has_key (update_lease lm id (with_keys f)) j k
      ≡ (if id ==ℤ j then is_some (lookup (f lease.keys) k) else has_key lm j k)
unfolding get_lease_keys
has_key-update_lease lm id j k f lease a =
    ground (arith, lookup-update_lease lm id j (with_keys f), contains-keys_of (f lease.keys) k)

has_key_present :
    (lm : LeaseManager) (id j : ℤ) (k : Bytes) (lease : Lease)
    → lookup lm.leases id ≡ some lease
    → (id ==ℤ j) ≡ true
    → has_key lm j k ≡ is_some (lookup lease.keys k)
unfolding get_lease_keys
has_key_present lm id j k lease a e =
    let b : lookup lm.leases j ≡ some lease =
      subst (λ x. lookup lm.leases x ≡ some lease) (==ℤ→eq id j e) a in
    ground (arith, contains-keys_of lease.keys k)

-- Attaching a key to a lease that exists adds this key to its keys, detaching it takes it away, and
-- neither changes another key or another lease.
pub attach-detach :
    (lm : LeaseManager) (id j : ℤ) (key k : Bytes) (lease : Lease)
    → lookup lm.leases id ≡ some lease
    → (has_key (attach_key lm id key) j k
        ≡ (if (id ==ℤ j) && bytes_equal key k then true else has_key lm j k))
      × (has_key (detach_key lm id key) j k
          ≡ (if (id ==ℤ j) && bytes_equal key k then false else has_key lm j k))
unfolding attach_key detach_key
attach-detach lm id j key k lease a = (
  ground (
    arith,
    has_key-update_lease lm id j k (λ m. insert m key tt) lease a,
    has_key_present lm id j k lease a,
    lookup-insert lease.keys key k tt,
  ),
  ground (
    arith,
    has_key-update_lease lm id j k (λ m. remove m key) lease a,
    has_key_present lm id j k lease a,
    lookup-remove lease.keys key k,
  ),
)
