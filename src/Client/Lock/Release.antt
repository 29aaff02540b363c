-- ===== src/Client/Lock/Release.antt =====
use fir_etcd.Store.{Entry}
use fir_etcd.Client.Lock.Steps.{cas_answer, lock_entry, cas_applied, lock_won}
use fir_etcd.Client.Lock.{write_args, cas, lock, unlock, lock_args, unlock_args}
use fir_etcd.Client.Decimal.{format_int, max_int64, parse_int-format_int}
use fir_etcd.Kv.Requests.{op_of, answer_again}
use fir_etcd.Kv.Once.{reached}
use fir_etcd.Kv.Spec.{Abstract, value_of, step}
use fir_etcd.Kv.Apply.{is_empty}
use fir_etcd.Kv.{Op, duplicate_of}
use fir_etcd.Prelude.{
  ℤ, pos, leb_ℤ, ==ℤ_refl, offset, Bytes, bytes_equal_refl, ℕ, ◌≤◌, ◌<◌, ◌≡◌, refl, sym, ap, ◌∙◌,
  Bool, true, false, Option, none, some, List, arith,
}

-- A lock that is taken and given back.

module _ (accepts : Bytes → Entry → Bool) (decode_ops : Bytes → Option (List Op))
    (key : Bytes) where
  lock_reached :
      (a b : Abstract) (client offset lease_id : ℤ)
      → leb_ℤ offset (reached a client) ≡ false
      → step accepts decode_ops a (op_of (lock_args client offset key lease_id)) ≡ some b
      → reached b client ≡ offset
  unfolding op_of lock_args write_args
  lock_reached a b client offset lease_id fresh h = ground (
    arith,
    cas_applied accepts decode_ops key a (op_of (lock_args client offset key lease_id)) refl fresh,
    ==ℤ_refl client,
  )

  unlock_won :
      (a b : Abstract) (client offset : ℤ) (id : Bytes)
      → leb_ℤ offset (reached a client) ≡ false
      → value_of a.entries key ≡ id
      → step accepts decode_ops a (op_of (unlock_args client offset key id)) ≡ some b
      → (b.entries key ≡ none) × ((duplicate_of b.duplicates client).cas_result ≡ true)
  unfolding op_of unlock_args write_args
  unlock_won a b client offset id fresh v h = ground (
    arith,
    cas_applied accepts decode_ops key a (op_of (unlock_args client offset key id)) refl fresh,
    bytes_equal_refl key,
    bytes_equal_refl id,
    ==ℤ_refl client,
  )

  lock_returns :
      (a : Abstract) (client offset lease_id : ℤ)
      → leb_ℤ offset (reached a client) ≡ false
      → (b : Abstract) × (step accepts decode_ops a (op_of (lock_args client offset key lease_id))
          ≡ some b)
  unfolding op_of lock_args write_args
  lock_returns a client offset lease_id fresh =
      (_, cas_applied accepts decode_ops key a _ refl fresh)

  unlock_returns :
      (a : Abstract) (client offset : ℤ) (id : Bytes)
      → leb_ℤ offset (reached a client) ≡ false
      → (b : Abstract) × (step accepts decode_ops a (op_of (unlock_args client offset key id))
          ≡ some b)
  unfolding op_of unlock_args write_args
  unlock_returns a client offset id fresh = (_, cas_applied accepts decode_ops key a _ refl fresh)

  lock_id :
      (b : Abstract) (client lease_id : ℤ)
      → (duplicate_of b.duplicates client).cas_result ≡ true
      → (lock (some lease_id) (λ _. cas_answer b client)).id ≡ format_int lease_id
  unfolding lock cas answer_again
  lock_id b client lease_id h = ground (arith, h)

  unlocked_result :
      (b : Abstract) (client : ℤ) (n : ℕ)
      → 0 < n
      → n ≤ max_int64
      → (duplicate_of b.duplicates client).cas_result ≡ true
      → unlock (format_int (pos n)) (cas_answer b client)
        ≡ record { ok = true; failed = false; revoked = some (pos n) }
  unfolding unlock cas answer_again
  unlocked_result b client n lo hi h = ground (arith, h, parse_int-format_int n hi)

  -- A client that locks a free key, whose id the database takes, and then unlocks it with the id that
  -- Lock gave it, both with new offsets, finds that Unlock succeeds, removes the key and revokes
  -- the lease that was granted for the lock; a lease has an id from 1 to 2 ^ 63 - 1.
  pub unlock-lock :
      (a : Abstract) (client offset later : ℤ) (n : ℕ)
      → 0 < n
      → n ≤ max_int64
      → accepts key (lock_entry (pos n)) ≡ true
      → is_empty (value_of a.entries key) ≡ true
      → leb_ℤ offset (reached a client) ≡ false
      → leb_ℤ later offset ≡ false
      → (b : Abstract) × (c : Abstract) × (step accepts decode_ops a
            (op_of (lock_args client offset key (pos n)))
          ≡ some b)
        × (step accepts decode_ops b (
              op_of
                (unlock_args client later key (lock (some (pos n)) (λ _. cas_answer b client)).id))
            ≡ some c)
        × (c.entries key ≡ none)
        × (unlock (lock (some (pos n)) (λ _. cas_answer b client)).id (cas_answer c client)
            ≡ record { ok = true; failed = false; revoked = some (pos n) })
  unlock-lock a client offset later n lo hi ok free fresh newer =
      let (b, h) = lock_returns a client offset (pos n) fresh in
      let won : (value_of b.entries key ≡ format_int (pos n))
          × ((duplicate_of b.duplicates client).cas_result ≡ true) =
        lock_won accepts decode_ops key a b client offset (pos n) ok fresh free h in
      let given : (lock (some (pos n)) (λ _. cas_answer b client)).id ≡ format_int (pos n) =
        lock_id b client (pos n) won.1 in
      let newer' : leb_ℤ later (reached b client) ≡ false =
        rw (lock_reached a b client offset (pos n) fresh h) newer in
      let (c, k) =
        unlock_returns b client later (lock (some (pos n)) (λ _. cas_answer b client)).id newer' in
      let gone : (c.entries key ≡ none) × ((duplicate_of c.duplicates client).cas_result ≡ true) =
        unlock_won b c client later _ newer' (won.0 ∙ sym given) k in
      (
        b,
        c,
        h,
        k,
        gone.0,
        ap (λ i. unlock i (cas_answer c client)) given ∙ unlocked_result c client n lo hi gone.1,
      )
