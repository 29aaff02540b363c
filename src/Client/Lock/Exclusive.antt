-- ===== src/Client/Lock/Exclusive.antt =====
-- At most one client holds the lock of a key.

use fir_etcd.Prelude.{
  if◌then◌else◌, Bool-cases, length, length-append, ℤ, leb_ℤ, offset, Bytes, ◌≤◌, ◌≡◌, refl, sym,
  ap, subst, inl, inr, Bool, true, false, Option, some, List, [], ◌∷◌, ◌++◌, arith,
}
use fir_etcd.Store.{Entry}
use fir_etcd.Kv.{Op, duplicate_of}
use fir_etcd.Kv.Apply.{is_empty}
use fir_etcd.Kv.Spec.{Abstract, value_of, step}
use fir_etcd.Kv.Once.{reached}
use fir_etcd.Kv.Requests.{op_of, answer_again}
use fir_etcd.Client.Decimal.{format_int}
use fir_etcd.Client.Lock.{cas, lock, lock_args}
use fir_etcd.Client.Lock.Steps.{
  cas_answer, Locking, after_lock, lock_entry, format_int-full, LockStep, locks, unlocks, elsewhere,
  LockRun, here, next, lock_refused, lock_won,
}

module _ (accepts : Bytes → Entry → Bool) (decode_ops : Bytes → Option (List Op))
    (key : Bytes) where
  -- The one holder has its id under the key.
  abbrev Held : Abstract → List (ℤ × Bytes) → Type 0
  Held a [] = Unit {0}
  Held a ((client, id) ∷ []) = (value_of a.entries key ≡ id) × (is_empty id ≡ false)
  Held a (h ∷ i ∷ rest) = ⊥

  Held-same :
      (a b : Abstract) (holders : List (ℤ × Bytes))
      → b.entries key ≡ a.entries key
      → Held a holders
      → Held b holders
  Held-same a b [] e h = tt
  Held-same a b ((client, id) ∷ []) e h = (cc (e, h.0), h.1)
  Held-same a b (i ∷ j ∷ rest) e h = h

  Held-length : (a : Abstract) (holders : List (ℤ × Bytes)) → Held a holders → length holders ≤ 1
  Held-length a [] h = omega arith
  Held-length a (i ∷ []) h = omega arith
  Held-length a (i ∷ j ∷ rest) h = absurd h

  -- Whoever unlocks was the one holder.
  unlocked :
      (before after : List (ℤ × Bytes)) (i : ℤ × Bytes)
      → length (before ++ i ∷ after) ≤ 1
      → before ++ after ≡ []
  unlocked [] [] i h = refl
  unlocked [] (j ∷ after) i h = absurd (omega arith)
  unlocked (j ∷ before) after i h = absurd (omega (arith, length-append before (i ∷ after)))

  refused_id :
      (heard : Bool) (client lease_id : ℤ) (b : Abstract) (holders : List (ℤ × Bytes))
      → (duplicate_of b.duplicates client).cas_result ≡ false
      → after_lock heard client (lock (some lease_id) (λ _. cas_answer b client)).id holders
        ≡ holders
  unfolding lock cas answer_again
  refused_id heard client lease_id b holders h = ground (arith, h)

  won_id :
      (heard : Bool) (client lease_id : ℤ) (b : Abstract) (holders : List (ℤ × Bytes))
      → (duplicate_of b.duplicates client).cas_result ≡ true
      → after_lock heard client (lock (some lease_id) (λ _. cas_answer b client)).id holders
        ≡ (if heard then (client, format_int lease_id) ∷ holders else holders)
  unfolding lock cas answer_again
  won_id heard client lease_id b holders h = ground (arith, h, format_int-full lease_id)

  Held-full :
      (a : Abstract) (i : ℤ × Bytes) (rest : List (ℤ × Bytes))
      → Held a (i ∷ rest)
      → is_empty (value_of a.entries key) ≡ false
  Held-full a i [] h = rw h.0 h.1
  Held-full a i (j ∷ rest) h = absurd h

  new_holder :
      (heard : Bool) (b : Abstract) (client lease_id : ℤ)
      → value_of b.entries key ≡ format_int lease_id
      → Held b (if heard then (client, format_int lease_id) ∷ [] else [])
  new_holder true b client lease_id e = (e, format_int-full lease_id)
  new_holder false b client lease_id e = tt

  lock-Held :
      (a b : Abstract) (client offset lease_id : ℤ) (heard : Bool) (holders : List (ℤ × Bytes))
      → accepts key (lock_entry lease_id) ≡ true
      → leb_ℤ offset (reached a client) ≡ false
      → step accepts decode_ops a (op_of (lock_args client offset key lease_id)) ≡ some b
      → Held a holders
      → Held b
          (after_lock heard client (lock (some lease_id) (λ _. cas_answer b client)).id holders)
  lock-Held a b client offset lease_id heard (i ∷ rest) ok fresh h held =
      let r : (b.entries ≡ a.entries) × ((duplicate_of b.duplicates client).cas_result ≡ false) =
        lock_refused accepts decode_ops key a b client offset lease_id fresh
          (Held-full a i rest held) h in
      subst (Held b) (sym (refused_id heard client lease_id b (i ∷ rest) r.1))
        (Held-same a b (i ∷ rest) (ap (λ m. m key) r.0) held)
  lock-Held a b client offset lease_id heard [] ok fresh h held =
      elim (Bool-cases (is_empty (value_of a.entries key))) [
        | inl free ↦
            let r : (value_of b.entries key ≡ format_int lease_id)
                × ((duplicate_of b.duplicates client).cas_result ≡ true) =
              lock_won accepts decode_ops key a b client offset lease_id ok fresh free h in
            subst (Held b) (sym (won_id heard client lease_id b [] r.1))
              (new_holder heard b client lease_id r.0)
        | inr full ↦
            subst (Held b)
              (sym (
                refused_id heard client lease_id b []
                  (lock_refused accepts decode_ops key a b client offset lease_id fresh full h).1))
              tt
      ]

  LockStep-Held :
      {s t : Locking}
      → LockStep accepts decode_ops key s t
      → Held s.server s.holders
      → Held t.server t.holders
  LockStep-Held {s} (locks client offset lease_id heard b ok fresh h) held =
      lock-Held s.server b client offset lease_id heard s.holders ok fresh h held
  LockStep-Held {s} (unlocks client offset id before after b e h) held =
      subst (Held b)
        (sym (
          unlocked before after (client, id)
            (subst (λ l. length l ≤ 1) e (Held-length s.server s.holders held))))
        tt
  LockStep-Held {s} (elsewhere b e) held = Held-same s.server b s.holders e held

  LockRun-Held :
      {s t : Locking}
      → LockRun accepts decode_ops key s t
      → Held s.server s.holders
      → Held t.server t.holders
  LockRun-Held here held = held
  LockRun-Held (next r st) held = LockStep-Held st (LockRun-Held r held)

  holder_alone :
      (a : Abstract) (holders rest : List (ℤ × Bytes)) (client : ℤ) (id : Bytes)
      → Held a holders
      → holders ≡ (client, id) ∷ rest
      → (rest ≡ []) × (value_of a.entries key ≡ id)
  holder_alone a [] rest client id held e = cc
  holder_alone a ((c, j) ∷ []) rest client id held e = ground (arith, held.0, e)
  holder_alone a (i ∷ j ∷ more) rest client id held e = absurd held

  -- A client that holds the lock of a key is the only one, and its id stands under the key, in every
  -- run from a state where nobody holds it. The clients may miss the answers of the server and their
  -- leases may end; what is asked of them is that they lock with a new offset, that a holder alone
  -- unlocks, that nothing else writes the key, and that the database takes the ids under it.
  pub lock_excludes :
      {s t : Locking}
      → s.holders ≡ []
      → LockRun accepts decode_ops key s t
      → (client : ℤ) (id : Bytes) (rest : List (ℤ × Bytes)) → t.holders ≡ (client, id) ∷ rest
      → (rest ≡ []) × (value_of t.server.entries key ≡ id)
  lock_excludes {s} {t} free r client id rest e =
      holder_alone t.server t.holders rest client id
        (LockRun-Held r (subst (Held s.server) (sym free) tt)) e
