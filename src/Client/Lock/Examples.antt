-- ===== src/Client/Lock/Examples.antt =====
-- Two clients and a server that knows no key.

use fir_etcd.Prelude.{
  ℤ, pos, Bytes, ◌≡◌, refl, Bool, true, false, Option, none, some, List, [], ◌∷◌, arith,
}
use fir_etcd.Store.{Entry}
use fir_etcd.Kv.{Op}
use fir_etcd.Kv.Spec.{Abstract, set_key, value_of, op_step, step}
use fir_etcd.Kv.Requests.{op_of, answer_again}
use fir_etcd.Client.Decimal.{digits, format_int}
use fir_etcd.Client.Lock.{write_args, cas, lock, unlock, lock_args, unlock_args}
use fir_etcd.Client.Lock.Steps.{cas_answer, Locking, locks, LockRun, here, next}
use fir_etcd.Client.Lock.Exclusive.{lock_excludes}
use fir_etcd.Client.Lock.Release.{unlock-lock}

abbrev all_pairs : Bytes → Entry → Bool
all_pairs k e = true

abbrev no_ops : Bytes → Option (List Op)
no_ops b = none

abbrev a_key : Bytes
a_key = 107 ∷ []

abbrev empty_server : Abstract
empty_server = record { entries = λ k. none; duplicates = [] }

abbrev nobody : Locking
nobody = record { server = empty_server; holders = [] }

-- Client 1 locks with the lease 42.
abbrev locked_server : Abstract
locked_server = record {
  entries = set_key (λ k. none) a_key (record { value = 52 ∷ 50 ∷ []; dead_time = pos 0 });
  duplicates = (pos 1, record { offset = pos 1; cas_result = true }) ∷ [];
}

-- Client 2 tries to lock with the lease 43.
abbrev refused_server : Abstract
refused_server = record {
  entries = locked_server.entries;
  duplicates =
      (pos 2, record { offset = pos 1; cas_result = false })
      ∷ (pos 1, record { offset = pos 1; cas_result = true })
      ∷ [];
}

abbrev one_lock : Locking
one_lock = record { server = refused_server; holders = (pos 1, 52 ∷ 50 ∷ []) ∷ [] }

two_locks : LockRun all_pairs no_ops a_key nobody one_lock
unfolding op_of lock_args write_args format_int digits step op_step lock cas answer_again
two_locks =
    next (next here (locks (pos 1) (pos 1) (pos 42) true locked_server refl refl refl))
      (locks (pos 2) (pos 1) (pos 43) true refused_server refl refl refl)

lock_excludes_example :
    (◌≡◌ {A = List (ℤ × Bytes)} [] []) × (value_of one_lock.server.entries a_key ≡ 52 ∷ 50 ∷ [])
lock_excludes_example =
    lock_excludes all_pairs no_ops a_key {s = nobody} {t = one_lock} refl two_locks (pos 1)
      (52 ∷ 50 ∷ []) [] refl

unlock-lock_example :
    (b : Abstract) × (c : Abstract) × (step all_pairs no_ops empty_server
        (op_of (lock_args (pos 1) (pos 1) a_key (pos 42)))
      ≡ some b)
    × (step all_pairs no_ops b (
          op_of (
            unlock_args
              (pos 1)
              (pos 2)
              a_key
              (lock (some (pos 42)) (λ _. cas_answer b (pos 1))).id))
        ≡ some c)
    × (c.entries a_key ≡ none)
    × (unlock (lock (some (pos 42)) (λ _. cas_answer b (pos 1))).id (cas_answer c (pos 1))
        ≡ record { ok = true; failed = false; revoked = some (pos 42) })
unlock-lock_example =
    unlock-lock all_pairs no_ops a_key empty_server (pos 1) (pos 1) (pos 2) 42 (omega arith)
      (omega arith) refl refl refl refl
