-- ===== src/Client/Lock.antt =====
-- Compare-and-swap, Lock, LockWithKeepAlive and Unlock of client/client.go, and the calls of the lease
-- service that they make.
pub mod Steps
pub mod Exclusive
pub mod Release
mod Examples
use fir_etcd.Prelude.{
  if◌then◌else◌, ◌+ℤ◌, ℤ, pos, ltb_ℤ, ◌==ℤ◌, Bytes, ℕ, ◌/◌, Bool, true, false, Option, none, some,
  [],
}
use fir_etcd.Kv.{OpType, cas_t}
use fir_etcd.Kv.Requests.{PutAppendArgs}
use fir_etcd.Client.{Client, WriteResult, written, err_nil, err_cas, err_faild, find_valid}
use fir_etcd.Client.Decimal.{format_int, parse_int}

-- The request of a write. `ttl` and `now` are milliseconds.
unfoldable pub write_args :
    (client_id latest_offset : ℤ) → Bytes → Bytes → Bytes → (ttl now : ℤ) → OpType → PutAppendArgs
write_args client_id latest_offset key value ori_value ttl now op = record {
  key = key;
  value = value;
  dead_time = if ttl ==ℤ pos 0 then pos 0 else now +ℤ ttl;
  ori_value = ori_value;
  op = op;
  client_id = client_id;
  latest_offset = latest_offset;
  lease_id = pos 0;
}

-- The pair that CAS returns, (false, err) as one value.
pub data CasResult : Type 0 where
  swapped : Bool → CasResult
  cas_error : CasResult

unfoldable pub cas : WriteResult → CasResult
cas written = swapped true
cas err_cas = swapped false
cas err_nil = cas_error
cas err_faild = cas_error

-- A call of the lease service goes to the next connected server; `none` is an error, also that no
-- server is connected.
unfoldable pub lease_call : {A : Type 0} → (ℕ → Bool) → Option A → Client → Client × Option A
unfolding find_valid
lease_call valid answer ck =
    let found = find_valid ck.servers valid ck in (found.0, if found.1 then answer else none)

-- What Lock returns, with the lease that it revokes.
pub record LockResult : Type 0 where
  pub id : Bytes
  pub failed : Bool
  pub revoked : Option ℤ

-- `granted` is what LeaseGrant returns; the swap is asked for the lease.
unfoldable pub lock : Option ℤ → (ℤ → CasResult) → LockResult
unfolding format_int
lock none cas_for = record { id = []; failed = true; revoked = none }
lock (some lease_id) cas_for = elim (cas_for lease_id) [
  | swapped true ↦ record { id = format_int lease_id; failed = false; revoked = none }
  | swapped false ↦ record { id = []; failed = false; revoked = some lease_id }
  | cas_error ↦ record { id = []; failed = true; revoked = some lease_id }
]

-- The same, with the lease that is kept alive and the interval for it.
unfoldable pub lock_with_keep_alive : ℕ → Option ℤ → (ℤ → CasResult) → LockResult × Option (ℤ × ℕ)
unfolding format_int
lock_with_keep_alive ttl none cas_for = (record { id = []; failed = true; revoked = none }, none)
lock_with_keep_alive ttl (some lease_id) cas_for = elim (cas_for lease_id) [
  | swapped true ↦ (
    record { id = format_int lease_id; failed = false; revoked = none },
    some (lease_id, ttl / 3),
  )
  | swapped false ↦ (record { id = []; failed = false; revoked = some lease_id }, none)
  | cas_error ↦ (record { id = []; failed = true; revoked = some lease_id }, none)
]

pub record UnlockResult : Type 0 where
  pub ok : Bool
  pub failed : Bool
  pub revoked : Option ℤ

unfoldable pub unlock : Bytes → CasResult → UnlockResult
unfolding parse_int
unlock id cas_error = record { ok = false; failed = true; revoked = none }
unlock id (swapped false) = record { ok = false; failed = false; revoked = none }
unlock id (swapped true) = record {
  ok = true;
  failed = false;
  revoked = if ltb_ℤ (pos 0) (parse_int id) then some (parse_int id) else none;
}

-- The requests of the two swaps.
unfoldable pub lock_args : (client_id latest_offset : ℤ) → Bytes → ℤ → PutAppendArgs
unfolding write_args format_int
lock_args client_id latest_offset key lease_id =
    write_args client_id latest_offset key (format_int lease_id) [] (pos 0) (pos 0) cas_t

unfoldable pub unlock_args : (client_id latest_offset : ℤ) → Bytes → Bytes → PutAppendArgs
unfolding write_args
unlock_args client_id latest_offset key id =
    write_args client_id latest_offset key [] id (pos 0) (pos 0) cas_t
