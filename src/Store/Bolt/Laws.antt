-- ===== src/Store/Bolt/Laws.antt =====
-- The database of bboltdb.go as a value of the interface Db.
use fir_etcd.Prelude.{
  if◌then◌else◌, Bytes, has_prefix, int_key, bytes_key, is_some, lookup, ◌≡◌, refl, none, List, [],
  ◌∷◌, map, arith,
}
use fir_etcd.Store.{Pair, Db}
use fir_etcd.Store.Bolt.{
  Bucket, seek, while_prefix, get_entry, put_entry, del, get_pairs_with_prefix,
  get_entry_with_prefix, delete_all, del_with_prefix, kvs, keys,
}
use fir_etcd.Store.Bolt.Prefix.{lookup-while_seek}

module _ (bolt : Bucket) where
  open bolt use {B, create, get, put, delete, pairs}

  get-delete_all :
      (b : B) (ps : List Pair) (j : Bytes)
      → get (delete_all bolt b ps) j ≡ (if is_some (lookup ps j) then none else get b j)
  unfolding delete_all
  get-delete_all b [] j = refl
  get-delete_all b ((k, e) ∷ ps) j =
      ground (arith, get-delete_all (delete b k) ps j, bolt.get-delete b k j)

  -- DelWithPrefix removes exactly the keys with the prefix.
  pub get-del_with_prefix :
      (b : B) (p j : Bytes)
      → get (del_with_prefix bolt b p) j ≡ (if has_prefix j p then none else get b j)
  unfolding del_with_prefix
  get-del_with_prefix b p j = ground (
    arith,
    get-delete_all b (while_prefix (seek (pairs b) p) p) j,
    lookup-while_seek p j (pairs b) (bolt.pairs-Ascending b),
    bolt.lookup-pairs b j,
  )

  -- GetPairsWithPrefix lists exactly the keys with the prefix, each with its entry.
  pub lookup-get_pairs :
      (b : B) (p k : Bytes)
      → lookup (get_pairs_with_prefix bolt b p) k ≡ (if has_prefix k p then get b k else none)
  unfolding get_pairs_with_prefix
  lookup-get_pairs b p k =
      ground
        (arith, lookup-while_seek p k (pairs b) (bolt.pairs-Ascending b), bolt.lookup-pairs b k)

pub entries_of_pairs :
    (bolt : Bucket) (b : bolt.B) (p : Bytes)
    → get_entry_with_prefix bolt b p ≡ map (λ (q : Pair). q.1) (get_pairs_with_prefix bolt b p)
unfolding get_entry_with_prefix
entries_of_pairs bolt b p = refl

-- The database that NewDB opens.
abbrev pub bolt_db : Bucket → Db
bolt_db bolt = record {
  Store = bolt.B;
  accepts = bolt.accepts;
  new_db = bolt.create;
  get_entry = get_entry bolt;
  put_entry = put_entry bolt;
  del = del bolt;
  del_with_prefix = del_with_prefix bolt;
  get_pairs_with_prefix = get_pairs_with_prefix bolt;
  get_entry_with_prefix = get_entry_with_prefix bolt;
  keys = keys bolt;
  kvs = kvs bolt;
  get-new = bolt.get-create;
  get-put = bolt.get-put;
  accepts-put = bolt.accepts-put;
  accepts-empty = bolt.accepts-empty;
  get-del = bolt.get-delete;
  get-del_with_prefix = get-del_with_prefix bolt;
  lookup-get_pairs = lookup-get_pairs bolt;
  get_entry_with_prefix-eq = entries_of_pairs bolt;
}
