-- ===== src/Client/Pipe/Leases.antt =====
-- The leases that BatchWrite of client/client.go asks for before it sends a pipe.
use fir_etcd.Prelude.{
  if◌then◌else◌, Bool-cases, ◌-ℤ◌, ℤ, pos, ltb_ℤ, ◌==ℤ◌, ℕ, zero, suc, ◌+◌, ◌-◌, ◌*◌, ◌<◌, ◌≡◌,
  refl, ap, ◌∙◌, inl, inr, Bool, true, false, not, ◌&&◌, Option, none, some, List, [], ◌∷◌, arith,
}
use fir_etcd.Kv.{Op}
use fir_etcd.Client.{Client, change_next_send_id, find_valid}

-- What a try meets: the connected servers, and the id that LeaseGrant returns (`none` for an error).
pub record GrantAttempt : Type 0 where
  pub valid : ℕ → Bool
  pub granted : Option ℤ

abbrev pub given : Option ℤ → Option ℤ
given none = none
given (some id) = if id ==ℤ pos 0 then none else some id

-- The tries that are left, from the `i`-th on; an id of 0 is no lease.
unfoldable pub grant_tries : ℕ → ℕ → (ℕ → GrantAttempt) → Client → Client × Option ℤ
unfolding find_valid change_next_send_id
grant_tries zero i attempts ck = (ck, none)
grant_tries (suc left) i attempts ck =
    let found = find_valid ck.servers (attempts i).valid ck in
    elim found.1 [
      | false ↦ grant_tries left (i + 1) attempts found.0
      | true ↦ elim (given (attempts i).granted) [
        | none ↦ grant_tries left (i + 1) attempts (change_next_send_id found.0)
        | some id ↦ (found.0, some id)
      ]
    ]

-- An operation with an end that is not over and without a lease.
abbrev pub needs_lease : ℤ → Op → Bool
needs_lease now op =
    not (op.entry.dead_time ==ℤ pos 0)
    && (op.lease_id ==ℤ pos 0)
    && ltb_ℤ (pos 0) (op.entry.dead_time -ℤ now)

abbrev pub with_lease : Op → Option ℤ → Op
with_lease op none = op
with_lease op (some id) = record op { lease_id = id }

-- The loop over the operations of the pipe; each has its own tries.
unfoldable pub grant_leases : ℤ → (ℕ → ℕ → GrantAttempt) → ℕ → Client → List Op → Client × List Op
unfolding grant_tries
grant_leases now attempts i ck [] = (ck, [])
grant_leases now attempts i ck (op ∷ ops) = elim (needs_lease now op) [
  | false ↦ let rest = grant_leases now attempts (i + 1) ck ops in (rest.0, op ∷ rest.1)
  | true ↦
      let asked = grant_tries (2 * ck.servers) 0 (attempts i) ck in
      let rest = grant_leases now attempts (i + 1) asked.0 ops in
      (rest.0, with_lease op asked.1 ∷ rest.1)
]

-- The operations differ in their leases at most.
abbrev pub SameButLease : List Op → List Op → Type 0
SameButLease [] [] = Unit {0}
SameButLease [] (p ∷ ps) = ⊥
SameButLease (o ∷ os) [] = ⊥
SameButLease (o ∷ os) (p ∷ ps) = (record o { lease_id = p.lease_id } ≡ p) × SameButLease os ps

with_lease-eq :
    (op : Op) (id : Option ℤ)
    → record op { lease_id = (with_lease op id).lease_id } ≡ with_lease op id
with_lease-eq op none = refl
with_lease-eq op (some id) = refl

abbrev pub AllLeased : ℤ → List Op → Type 0
AllLeased now [] = Unit {0}
AllLeased now (op ∷ ops) = (needs_lease now op ≡ false) × AllLeased now ops

-- Every try meets a connected server that grants a lease.
abbrev pub AllGrant : (ℕ → ℕ → GrantAttempt) → Type 0
AllGrant attempts =
    (i j : ℕ)
    → ((n : ℕ) → (attempts i j).valid n ≡ true)
      × ((id : ℤ) × (((attempts i j).granted ≡ some id) × (id ==ℤ pos 0 ≡ false)))

find_valid_now :
    (rounds : ℕ) (valid : ℕ → Bool) (ck : Client)
    → 0 < rounds
    → valid ck.next_send_local_id ≡ true
    → find_valid rounds valid ck ≡ (ck, true)
unfolding find_valid
find_valid_now zero valid ck h v = absurd (omega arith)
find_valid_now (suc rounds) valid ck h v = rw v refl

grant_tries_now :
    (left : ℕ) (attempts : ℕ → GrantAttempt) (ck : Client) (id : ℤ)
    → 0 < ck.servers
    → ((n : ℕ) → (attempts 0).valid n ≡ true)
    → (attempts 0).granted ≡ some id
    → (id ==ℤ pos 0) ≡ false
    → grant_tries (suc left) 0 attempts ck ≡ (ck, some id)
unfolding grant_tries
grant_tries_now left attempts ck id h v g e =
    let found = find_valid_now ck.servers (attempts 0).valid ck h (v ck.next_send_local_id) in
    rw (grant_tries, found, g, e) (ap (λ p. (p.0, some id)) found)

leased :
    (now : ℤ) (op : Op) (id : ℤ)
    → (id ==ℤ pos 0) ≡ false
    → needs_lease now (with_lease op (some id)) ≡ false
leased now op id e = ground (arith, e)

asked_now :
    (now : ℤ) (attempts : ℕ → ℕ → GrantAttempt) (i : ℕ) (ck : Client) (op : Op) (ops : List Op)
    → needs_lease now op ≡ true
    → 0 < ck.servers
    → AllGrant attempts
    → (id : ℤ) × (((id ==ℤ pos 0) ≡ false)
        × ((grant_leases now attempts i ck (op ∷ ops)).1
            ≡ with_lease op (some id) ∷ (grant_leases now attempts (i + 1) ck ops).1))
unfolding grant_leases
asked_now now attempts i ck op ops e h all =
    let (valid, (id, (granted, used))) = all i 0 in
    let twice : 2 * ck.servers ≡ suc (2 * ck.servers - 1) = omega arith in
    let asked : grant_tries (2 * ck.servers) 0 (attempts i) ck ≡ (ck, some id) =
      ap (λ n. grant_tries n 0 (attempts i) ck) twice
      ∙ grant_tries_now (2 * ck.servers - 1) (attempts i) ck id h valid granted used in
    (id, (used, rw (grant_leases, e, asked) refl))

left_alone :
    (now : ℤ) (attempts : ℕ → ℕ → GrantAttempt) (i : ℕ) (ck : Client) (op : Op) (ops : List Op)
    → needs_lease now op ≡ false
    → (grant_leases now attempts i ck (op ∷ ops)).1
      ≡ op ∷ (grant_leases now attempts (i + 1) ck ops).1
unfolding grant_leases
left_alone now attempts i ck op ops e = rw (grant_leases, e) refl

-- When every try meets a connected server that grants a lease, no operation of the pipe is sent
-- without one that has an end in the future, and the operations are changed in their leases only.
pub grant_leases-AllLeased :
    (now : ℤ) (attempts : ℕ → ℕ → GrantAttempt) (i : ℕ) (ck : Client) (ops : List Op)
    → 0 < ck.servers
    → AllGrant attempts
    → AllLeased now (grant_leases now attempts i ck ops).1
      × SameButLease ops (grant_leases now attempts i ck ops).1
unfolding grant_leases
grant_leases-AllLeased now attempts i ck [] h all = (tt, tt)
grant_leases-AllLeased now attempts i ck (op ∷ ops) h all =
    let (rest, same) = grant_leases-AllLeased now attempts (i + 1) ck ops h all in
    elim (Bool-cases (needs_lease now op)) [
      | inl e ↦
          let (id, (used, asked)) = asked_now now attempts i ck op ops e h all in
          rw asked ((leased now op id used, rest), (with_lease-eq op (some id), same))
      | inr e ↦ rw (left_alone now attempts i ck op ops e) ((e, rest), (refl, same))
    ]
