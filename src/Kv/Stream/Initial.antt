-- ===== src/Kv/Stream/Initial.antt =====
-- The state that a watcher is sent first.

use fir_etcd.Raft.State.{Bytes}
use fir_etcd.Prelude.{
  if◌then◌else◌, Bool-cases, bytes_equal, bytes_equal→eq, has_prefix, int_key, bytes_key, lookup,
  ◌≡◌, refl, ap, ◌∙◌, inl, inr, Bool, Option, none, some, List, [], ◌∷◌, map, arith,
}
use fir_etcd.Store.{Entry, Pair, Db}
use fir_etcd.Kv.{WatchEvent}
use fir_etcd.Kv.Stream.{WatchRequest, put_of, initial_state}

-- The value of a key among the events that put it.
abbrev pub shown_value : List WatchEvent → Bytes → Option Bytes
shown_value [] k = none
shown_value (e ∷ es) k = if bytes_equal e.key k then some e.value else shown_value es k

abbrev pub is_watched : WatchRequest → Bytes → Bool
is_watched req k = if req.is_prefix then has_prefix k req.key else bytes_equal req.key k

abbrev pub value_of_entry : Option Entry → Option Bytes
value_of_entry none = none
value_of_entry (some e) = some e.value

shown-pairs :
    (ps : List Pair) (k : Bytes)
    → shown_value (map (λ (q : Pair). put_of q.0 q.1.value) ps) k ≡ value_of_entry (lookup ps k)
shown-pairs [] k = refl
shown-pairs ((j, e) ∷ ps) k = ground (arith, shown-pairs ps k)

-- A watcher is first sent the value of each key that it watches and no other key: the state of the
-- store, for a key or for a prefix.
pub initial_state-shown :
    (db : Db) (s : db.Store) (req : WatchRequest) (k : Bytes)
    → shown_value (initial_state db s req) k
      ≡ (if is_watched req k then value_of_entry (db.get_entry s k) else none)
unfolding initial_state
initial_state-shown db s req k = elim (Bool-cases req.is_prefix) [
  | inl p ↦ rw p (
      shown-pairs (db.get_pairs_with_prefix s req.key) k
      ∙ ap value_of_entry (db.lookup-get_pairs s req.key k)
      ∙ ground arith)
  | inr p ↦ elim (Bool-cases (bytes_equal req.key k)) [
    | inl e ↦ ground (arith, p, e, ap (db.get_entry s) (bytes_equal→eq req.key k e))
    | inr e ↦ ground (arith, p, e)
  ]
]
