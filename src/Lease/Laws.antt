-- ===== src/Lease/Laws.antt =====
-- What the operations of the lease manager keep and what they show.
use fir_etcd.Prelude.{
  if◌then◌else◌, Option-cases, ◌+ℤ◌, ℤ, pos, ◌≤ℤ◌, ◌<ℤ◌, ◌==ℤ◌, +ℤ_parts, ==ℤ→eq, ==ℤ_refl,
  int_laws, Bytes, int_key, bytes_key, lookup, remove, insert, lookup-remove, lookup-insert,
  Distinct, remove-Distinct, insert-Distinct, lookup-insert_cases, ◌≡◌, refl, sym, ap, ◌∙◌, subst,
  inl, inr, false, none, some, List, [], ◌∷◌, arith,
}
use fir_etcd.Lease.{
  Lease, LeaseManager, new_lease_manager, granted_lease, grant_lease, update_lease, revoke_lease,
  keep_alive, attach_key, detach_key,
}

-- The map holds each lease once, under its id, and no id that is still to be given out.
pub record IsSound (lm : LeaseManager) : Type 0 where
  pub distinct : Distinct lm.leases
  pub ids :
      (k : ℤ) (lease : Lease)
      → lookup lm.leases k ≡ some lease
      → (lease.id ≡ k) × (k <ℤ lm.next_lease_id)

pub data LeaseCall : Type 0 where
  grant : ℤ → ℤ → LeaseCall
  renew : ℤ → ℤ → LeaseCall
  attach : ℤ → Bytes → LeaseCall
  detach : ℤ → Bytes → LeaseCall
  revoke : ℤ → LeaseCall

unfoldable pub call : LeaseManager → LeaseCall → LeaseManager
call lm (grant ttl now) = (grant_lease lm ttl now).0
call lm (renew id now) = (keep_alive lm id now).0
call lm (attach id k) = attach_key lm id k
call lm (detach id k) = detach_key lm id k
call lm (revoke id) = revoke_lease lm id

unfoldable pub calls : LeaseManager → List LeaseCall → LeaseManager
unfolding call
calls lm [] = lm
calls lm (c ∷ cs) = calls (call lm c) cs

new_lease_manager-IsSound : (ttl : ℤ) → IsSound (new_lease_manager ttl)
unfolding new_lease_manager
new_lease_manager-IsSound ttl = record { distinct = tt; ids = λ k lease h. cc }

pub lookup-update_lease :
    (lm : LeaseManager) (id k : ℤ) (f : Lease → Lease)
    → lookup (update_lease lm id f).leases k ≡ (
        if id ==ℤ k
        then elim (lookup lm.leases id) [ none ↦ none | some l ↦ some (f l) ]
        else lookup lm.leases k)
unfolding update_lease
lookup-update_lease lm id k f = elim (Option-cases (lookup lm.leases id)) [
  | inl a ↦ ground (arith, ==ℤ→eq id k)
  | inr (l, a) ↦ ground (arith, lookup-insert lm.leases id k (f l))
]

update_lease_present :
    (lm : LeaseManager) (id : ℤ) (f : Lease → Lease) (l : Lease)
    → lookup lm.leases id ≡ some l
    → update_lease lm id f ≡ record lm { leases = insert lm.leases id (f l) }
unfolding update_lease
update_lease_present lm id f l a = rw (a, update_lease) refl

update_lease_absent :
    (lm : LeaseManager) (id : ℤ) (f : Lease → Lease)
    → lookup lm.leases id ≡ none
    → update_lease lm id f ≡ lm
unfolding update_lease
update_lease_absent lm id f a = rw (a, update_lease) refl

pub update_lease-IsSound :
    (lm : LeaseManager) (id : ℤ) (f : Lease → Lease)
    → ((l : Lease) → (f l).id ≡ l.id)
    → IsSound lm
    → IsSound (update_lease lm id f)
update_lease-IsSound lm id f same h = elim (Option-cases (lookup lm.leases id)) [
  | inl a ↦ rw (update_lease_absent lm id f a) h
  | inr (l, a) ↦ rw (update_lease_present lm id f l a) (record {
    distinct = insert-Distinct lm.leases id (f l) h.distinct;
    ids = λ k lease e. elim (lookup-insert_cases lm.leases id k (f l) lease e) [
      | inl (i, j) ↦ (
        ap (λ (x : Lease). x.id) (sym j) ∙ same l ∙ (h.ids id l a).0 ∙ i,
        subst (λ x. x <ℤ lm.next_lease_id) i (h.ids id l a).1,
      )
      | inr old ↦ h.ids k lease old
    ];
  })
]

revoke_lease-IsSound : (lm : LeaseManager) (id : ℤ) → IsSound lm → IsSound (revoke_lease lm id)
unfolding revoke_lease
revoke_lease-IsSound lm id h = record {
  distinct = remove-Distinct lm.leases id h.distinct;
  ids = λ k lease e. ground (arith, h.ids k lease, lookup-remove lm.leases id k);
}

grant_lease-IsSound :
    (lm : LeaseManager) (ttl now : ℤ) → IsSound lm → IsSound (grant_lease lm ttl now).0
unfolding grant_lease granted_lease
grant_lease-IsSound lm ttl now h = record {
  distinct = insert-Distinct lm.leases lm.next_lease_id (granted_lease lm ttl now) h.distinct;
  ids = λ k lease e.
      elim (lookup-insert_cases lm.leases lm.next_lease_id k (granted_lease lm ttl now) lease e) [
        | inl (i, j) ↦ (
          ap (λ (x : Lease). x.id) (sym j) ∙ i,
          subst (λ x. x <ℤ lm.next_lease_id +ℤ pos 1) i (omega int_laws),
        )
        | inr old ↦ ((h.ids k lease old).0, omega (int_laws, (h.ids k lease old).1))
      ];
}

call-IsSound : (lm : LeaseManager) (c : LeaseCall) → IsSound lm → IsSound (call lm c)
unfolding call keep_alive attach_key detach_key
call-IsSound lm (grant ttl now) h = grant_lease-IsSound lm ttl now h
call-IsSound lm (renew id now) h =
    update_lease-IsSound lm id (λ l. record l { expires_at = now +ℤ l.ttl }) (λ l. refl) h
call-IsSound lm (attach id k) h =
    update_lease-IsSound lm id (λ l. record l { keys = insert l.keys k tt }) (λ l. refl) h
call-IsSound lm (detach id k) h =
    update_lease-IsSound lm id (λ l. record l { keys = remove l.keys k }) (λ l. refl) h
call-IsSound lm (revoke id) h = revoke_lease-IsSound lm id h

calls_keep : (lm : LeaseManager) (cs : List LeaseCall) → IsSound lm → IsSound (calls lm cs)
unfolding calls
calls_keep lm [] h = h
calls_keep lm (c ∷ cs) h = calls_keep (call lm c) cs (call-IsSound lm c h)

-- After any calls on a new manager its map holds each lease once and under its id, and no lease has
-- the next id.
pub calls-IsSound : (ttl : ℤ) (cs : List LeaseCall) → IsSound (calls (new_lease_manager ttl) cs)
calls-IsSound ttl cs = calls_keep (new_lease_manager ttl) cs (new_lease_manager-IsSound ttl)

-- On a sound manager Grant gives out an id that no lease has, for at least the smallest time to
-- live, and leaves every other lease alone.
pub grant_lease-IsFresh :
    (lm : LeaseManager) (ttl now k : ℤ)
    → IsSound lm
    → (k ==ℤ lm.next_lease_id) ≡ false
    → (lookup lm.leases (grant_lease lm ttl now).1.id ≡ none)
      × (lookup (grant_lease lm ttl now).0.leases (grant_lease lm ttl now).1.id
          ≡ some (grant_lease lm ttl now).1)
      × (now +ℤ lm.min_lease_ttl ≤ℤ (grant_lease lm ttl now).1.expires_at)
      × (lookup (grant_lease lm ttl now).0.leases k ≡ lookup lm.leases k)
unfolding grant_lease granted_lease
grant_lease-IsFresh lm ttl now k h other = (
  elim (Option-cases (lookup lm.leases lm.next_lease_id)) [
    | inl a ↦ a
    | inr (l, a) ↦ absurd (omega (arith, (h.ids lm.next_lease_id l a).1))
  ],
  ground (arith, ==ℤ_refl lm.next_lease_id),
  ground (arith, +ℤ_parts now lm.min_lease_ttl, +ℤ_parts now ttl),
  ground (arith, lookup-remove lm.leases lm.next_lease_id k),
)
