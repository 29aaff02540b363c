-- ===== src/Lease/Service.antt =====
-- The lease service, kvraft/lease_service.go, whose times to live are milliseconds.
use fir_etcd.Prelude.{
  if◌then◌else◌, ◌+ℤ◌, ◌-ℤ◌, ℤ, pos, negsuc, sub_ℕ, ◌≤ℤ◌, ltb_ℤ, ==ℤ_refl, int_laws, Bytes, int_key,
  bytes_key, lookup, ℕ, ◌+◌, ◌-◌, ◌*◌, ◌/◌, ◌≤◌, ◌≡◌, refl, ap, ◌∙◌, Bool, false, none, some, List,
  [], arith,
}
use fir_etcd.Lease.{
  Lease, LeaseManager, granted_lease, grant_lease, keep_alive, get_lease, get_lease_keys,
}

-- x * time.Millisecond
unfoldable pub millis : ℤ → ℤ
millis (pos n) = pos (n * 1000000)
millis (negsuc n) = negsuc ((n + 1) * 1000000 - 1)

-- x / time.Millisecond, which rounds towards zero
unfoldable pub in_millis : ℤ → ℤ
in_millis (pos n) = pos (n / 1000000)
in_millis (negsuc n) = sub_ℕ 0 ((n + 1) / 1000000)

-- The answer is the id and the time to live.
unfoldable pub lease_grant : LeaseManager → ℤ → ℤ → LeaseManager × (ℤ × ℤ)
unfolding millis in_millis
lease_grant lm ttl_ms now =
    let (lm', lease) = grant_lease lm (millis ttl_ms) now in (lm', (lease.id, in_millis lease.ttl))

-- What is left of a lease; a lease that is over has 0 left.
unfoldable pub remaining_ms : Lease → ℤ → ℤ
unfolding in_millis
remaining_ms lease now =
    let left = lease.expires_at -ℤ now in in_millis (if ltb_ℤ left (pos 0) then pos 0 else left)

-- One request of the stream LeaseKeepAlive; a missing lease is answered with 0.
unfoldable pub lease_keep_alive : LeaseManager → ℤ → ℤ → LeaseManager × (ℤ × ℤ)
unfolding remaining_ms
lease_keep_alive lm id now = elim (lookup lm.leases id) [
  | none ↦ (lm, (id, pos 0))
  | some lease ↦ elim (keep_alive lm id now).1 [
    | none ↦ ((keep_alive lm id now).0, (id, pos 0))
    | some kept ↦ ((keep_alive lm id now).0, (kept.id, remaining_ms kept now))
  ]
]

pub record TimeToLive : Type 0 where
  pub id : ℤ
  pub ttl_ms : ℤ
  pub keys : List Bytes

unfoldable pub lease_time_to_live : LeaseManager → ℤ → Bool → ℤ → TimeToLive
unfolding remaining_ms
lease_time_to_live lm id with_keys now = elim (get_lease lm id) [
  | none ↦ record { id = id; ttl_ms = pos 0; keys = [] }
  | some lease ↦ record {
    id = lease.id;
    ttl_ms = remaining_ms lease now;
    keys = if with_keys then get_lease_keys lm lease.id else [];
  }
]

abbrev lease_of : LeaseManager → ℕ → ℕ → Lease
lease_of lm n now = record {
  id = lm.next_lease_id;
  ttl = pos (n * 1000000);
  expires_at = pos now +ℤ pos (n * 1000000);
  keys = [];
}

lookup_granted :
    (lm : LeaseManager) (n now : ℕ)
    → lm.min_lease_ttl ≤ℤ pos (n * 1000000)
    → lookup (grant_lease lm (pos (n * 1000000)) (pos now)).0.leases lm.next_lease_id
      ≡ some (lease_of lm n now)
unfolding grant_lease granted_lease
lookup_granted lm n now big = ground (arith, ==ℤ_refl lm.next_lease_id)

granted_ttl :
    (lm : LeaseManager) (n now : ℕ)
    → lm.min_lease_ttl ≤ℤ pos (n * 1000000)
    → (grant_lease lm (pos (n * 1000000)) (pos now)).1.ttl ≡ pos (n * 1000000)
unfolding grant_lease granted_lease
granted_ttl lm n now big = ground arith

granted_id : (lm : LeaseManager) (ttl now : ℤ) → (grant_lease lm ttl now).1.id ≡ lm.next_lease_id
unfolding grant_lease granted_lease
granted_id lm ttl now = refl

time_to_live_of :
    (lm : LeaseManager) (id now : ℤ) (lease : Lease)
    → lookup lm.leases id ≡ some lease
    → (lease_time_to_live lm id false now).ttl_ms ≡ remaining_ms lease now
unfolding lease_time_to_live get_lease
time_to_live_of lm id now lease h = ground (arith, h)

in_millis-millis : (n : ℕ) → in_millis (pos (n * 1000000)) ≡ pos n
unfolding in_millis
in_millis-millis n = let whole : n * 1000000 / 1000000 ≡ n = omega arith in ap pos whole

left_lem :
    (n d now : ℕ)
    → d ≤ n
    → (pos now +ℤ pos (n * 1000000)) -ℤ pos (now + d * 1000000) ≡ pos ((n - d) * 1000000)
left_lem n d now early = omega int_laws

remaining_lem :
    (lm : LeaseManager) (n d now : ℕ)
    → d ≤ n
    → remaining_ms (lease_of lm n now) (pos (now + d * 1000000)) ≡ pos (n - d)
unfolding remaining_ms
remaining_lem lm n d now early =
    let up : ltb_ℤ (pos ((n - d) * 1000000)) (pos 0) ≡ false = ground arith in
    rw (left_lem n d now early, up) (in_millis-millis (n - d))

-- A lease of `n` milliseconds, which is at least the smallest time to live, has n - d of them left `d`
-- milliseconds after it was granted.
pub time_to_live-lease_grant :
    (lm : LeaseManager) (n d now : ℕ)
    → lm.min_lease_ttl ≤ℤ pos (n * 1000000)
    → d ≤ n
    → ((lease_grant lm (pos n) (pos now)).1.1 ≡ pos n)
      × ((lease_time_to_live
            (lease_grant lm (pos n) (pos now)).0
            (lease_grant lm (pos n) (pos now)).1.0
            false
            (pos (now + d * 1000000))).ttl_ms
          ≡ pos (n - d))
unfolding lease_grant grant_lease granted_lease millis in_millis lease_time_to_live get_lease
    remaining_ms ◌+ℤ◌ ◌-ℤ◌
time_to_live-lease_grant lm n d now big early = (
  ap in_millis (granted_ttl lm n now big) ∙ in_millis-millis n,
  rw (granted_id lm (pos (n * 1000000)) (pos now)) (
      time_to_live_of (grant_lease lm (pos (n * 1000000)) (pos now)).0 lm.next_lease_id
        (pos (now + d * 1000000)) (lease_of lm n now) (lookup_granted lm n now big)
      ∙ remaining_lem lm n d now early),
)
