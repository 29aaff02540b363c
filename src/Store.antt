-- ===== src/Store.antt =====
-- What the key-value server asks of its database: the interface DB of common/common.go.
pub mod Bolt
pub mod Memory
mod Examples
use fir_etcd.Prelude.{
  if◌then◌else◌, ℤ, Bytes, bytes_equal, has_prefix, int_key, bytes_key, is_some, lookup, ◌≡◌, Bool,
  false, Option, none, some, List, [], map,
}

pub record Entry : Type 0 where
  pub value : Bytes
  pub dead_time : ℤ

abbrev pub Pair : Type 0
Pair = Bytes × Entry

-- The operations that the server uses. Whether a write is refused depends on the pair alone:
-- `accepts`. `none` is an error: `ErrNotFound` of `get_entry`, a refused
-- write of `put_entry`. The laws are what a client may rely on.
pub record Db : Type 1 where
  pub Store : Type 0
  pub accepts : Bytes → Entry → Bool
  pub new_db : Store
  pub get_entry : Store → Bytes → Option Entry
  pub put_entry : Store → Bytes → Entry → Option Store
  pub del : Store → Bytes → Store
  pub del_with_prefix : Store → Bytes → Store
  pub get_pairs_with_prefix : Store → Bytes → List Pair
  pub get_entry_with_prefix : Store → Bytes → List Entry
  pub keys : Store → ℤ → ℤ → Option (List Pair)
  pub kvs : Store → ℤ → ℤ → Option (List Pair)
  pub get-new : (k : Bytes) → get_entry new_db k ≡ none
  pub get-put :
      (s s' : Store) (k j : Bytes) (e : Entry)
      → put_entry s k e ≡ some s'
      → get_entry s' j ≡ (if bytes_equal k j then some e else get_entry s j)
  pub accepts-put : (s : Store) (k : Bytes) (e : Entry) → is_some (put_entry s k e) ≡ accepts k e
  pub accepts-empty : (e : Entry) → accepts [] e ≡ false
  pub get-del :
      (s : Store) (k j : Bytes)
      → get_entry (del s k) j ≡ (if bytes_equal k j then none else get_entry s j)
  pub get-del_with_prefix :
      (s : Store) (p j : Bytes)
      → get_entry (del_with_prefix s p) j ≡ (if has_prefix j p then none else get_entry s j)
  pub lookup-get_pairs :
      (s : Store) (p k : Bytes)
      → lookup (get_pairs_with_prefix s p) k ≡ (if has_prefix k p then get_entry s k else none)
  pub get_entry_with_prefix-eq :
      (s : Store) (p : Bytes)
      → get_entry_with_prefix s p ≡ map (λ (q : Pair). q.1) (get_pairs_with_prefix s p)
