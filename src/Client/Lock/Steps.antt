-- ===== src/Client/Lock/Steps.antt =====
-- Clients that lock and unlock one key, on the server as a map, and what their swaps do.
use fir_etcd.Prelude.{
  if◌then◌else◌, Bool-cases, ℤ, pos, leb_ℤ, ==ℤ_refl, offset, Bytes, bytes_equal_refl, int_key,
  bytes_key, lookup-insert, ◌≡◌, refl, inl, inr, Bool, true, false, not, ◌&&◌, Option, some, List,
  [], ◌∷◌, ◌++◌, arith,
}
use fir_etcd.Store.{Entry}
use fir_etcd.Kv.{cas_t, Op, duplicate_of}
use fir_etcd.Kv.Apply.{is_empty}
use fir_etcd.Kv.Spec.{Abstract, value_of, cas_step, op_step, step}
use fir_etcd.Kv.Once.{reached, marked_at}
use fir_etcd.Kv.Requests.{Err, err_ok, err_cas_failed, op_of, answer_again}
use fir_etcd.Client.{WriteResult, written, err_nil, err_cas}
use fir_etcd.Client.Decimal.{format_int, format_int-ne}
use fir_etcd.Client.Lock.{write_args, CasResult, cas, lock, lock_args, unlock_args}

-- The switch of `write` over an answer that is not an error of the leader.
abbrev pub written_of : Err → WriteResult
written_of err_ok = written
written_of err_cas_failed = err_cas
written_of _ = err_nil

-- What CAS returns to the client once the server has applied its request.
abbrev pub cas_answer : Abstract → ℤ → CasResult
cas_answer a client = cas (written_of (answer_again cas_t (duplicate_of a.duplicates client)))

-- The server, and the clients that Lock gave an id and that have not called Unlock since.
pub record Locking : Type 0 where
  pub server : Abstract
  pub holders : List (ℤ × Bytes)

-- A client holds the lock if it hears the answer and the id is not empty.
abbrev pub after_lock : Bool → ℤ → Bytes → List (ℤ × Bytes) → List (ℤ × Bytes)
after_lock heard client id holders =
    if heard && not (is_empty id) then (client, id) ∷ holders else holders

abbrev pub lock_entry : ℤ → Entry
lock_entry lease_id = record { value = format_int lease_id; dead_time = pos 0 }

pub is_empty→eq : (bs : Bytes) → is_empty bs ≡ true → bs ≡ []
is_empty→eq [] h = refl
is_empty→eq (x ∷ bs) h = cc

pub format_int-full : (i : ℤ) → is_empty (format_int i) ≡ false
format_int-full i = elim (Bool-cases (is_empty (format_int i))) [
  | inl e ↦ absurd (format_int-ne i (is_empty→eq _ e))
  | inr e ↦ e
]

module _ (accepts : Bytes → Entry → Bool) (decode_ops : Bytes → Option (List Op))
    (key : Bytes) where
  -- A client locks with a new offset, and may miss the answer; a holder unlocks, whatever it hears; the
  -- server does anything else that leaves the key alone.
  pub data LockStep (s : Locking) : Locking → Type 0 where
    locks :
        (client offset lease_id : ℤ) (heard : Bool) (b : Abstract)
        → accepts key (lock_entry lease_id) ≡ true
        → leb_ℤ offset (reached s.server client) ≡ false
        → step accepts decode_ops s.server (op_of (lock_args client offset key lease_id)) ≡ some b
        → LockStep s (record {
          server = b;
          holders =
              after_lock heard client
                (lock (some lease_id) (λ _. cas_answer b client)).id
                s.holders;
        })
    unlocks :
        (client offset : ℤ) (id : Bytes) (before after : List (ℤ × Bytes)) (b : Abstract)
        → s.holders ≡ before ++ (client, id) ∷ after
        → step accepts decode_ops s.server (op_of (unlock_args client offset key id)) ≡ some b
        → LockStep s (record { server = b; holders = before ++ after })
    elsewhere :
        (b : Abstract)
        → b.entries key ≡ s.server.entries key
        → LockStep s (record { server = b; holders = s.holders })

  pub data LockRun (s : Locking) : Locking → Type 0 where
    here : LockRun s s
    next : {t u : Locking} → LockRun s t → LockStep t u → LockRun s u

  -- A swap with a new offset.
  pub cas_applied :
      (a : Abstract) (op : Op)
      → op.op_type ≡ cas_t
      → leb_ℤ op.offset (reached a op.client_id) ≡ false
      → step accepts decode_ops a op
        ≡ some (cas_step accepts decode_ops (marked_at accepts decode_ops a op) op)
  unfolding step op_step
  cas_applied a op c e = rw (c, e) refl

  pub lock_refused :
      (a b : Abstract) (client offset lease_id : ℤ)
      → leb_ℤ offset (reached a client) ≡ false
      → is_empty (value_of a.entries key) ≡ false
      → step accepts decode_ops a (op_of (lock_args client offset key lease_id)) ≡ some b
      → (b.entries ≡ a.entries) × ((duplicate_of b.duplicates client).cas_result ≡ false)
  unfolding op_of lock_args write_args
  lock_refused a b client offset lease_id fresh held h = ground (
    arith,
    cas_applied a (op_of (lock_args client offset key lease_id)) refl fresh,
    lookup-insert a.duplicates client client (record { offset = offset; cas_result = false }),
  )

  pub lock_won :
      (a b : Abstract) (client offset lease_id : ℤ)
      → accepts key (lock_entry lease_id) ≡ true
      → leb_ℤ offset (reached a client) ≡ false
      → is_empty (value_of a.entries key) ≡ true
      → step accepts decode_ops a (op_of (lock_args client offset key lease_id)) ≡ some b
      → (value_of b.entries key ≡ format_int lease_id)
        × ((duplicate_of b.duplicates client).cas_result ≡ true)
  unfolding op_of lock_args write_args
  lock_won a b client offset lease_id ok fresh free h = ground (
    arith,
    cas_applied a (op_of (lock_args client offset key lease_id)) refl fresh,
    is_empty→eq (value_of a.entries key) free,
    format_int-full lease_id,
    bytes_equal_refl key,
    ==ℤ_refl client,
  )
