-- ===== src/Store/Bolt.antt =====
-- The database of pkg/bboltdb/bboltdb.go, over a bucket of bbolt. The values of the bucket stand
-- decoded: gob gives back the entry that it encoded.
pub mod Prefix
pub mod Laws
pub mod Pages
use fir_etcd.Prelude.{
  ltb, ◌==◌, if◌then◌else◌, ◌>>=◌, ◌>>◌, take, ℤ, pos, negsuc, pos_part, Bytes, bytes_equal,
  has_prefix, int_key, bytes_key, is_some, lookup, ℕ, zero, suc, ◌*◌, ◌≡◌, Bool, true, false,
  Option, none, some, List, [], ◌∷◌, map,
}
use fir_etcd.Store.{Entry, Pair}

-- bytes.Compare(a, b) < 0
abbrev pub key_ltb : Bytes → Bytes → Bool
key_ltb [] [] = false
key_ltb [] (y ∷ b) = true
key_ltb (x ∷ a) [] = false
key_ltb (x ∷ a) (y ∷ b) = if ltb x y then true else if x == y then key_ltb a b else false

-- The keys rise strictly.
abbrev pub Above : Bytes → List Pair → Type 0
Above k [] = Unit {0}
Above k ((j, e) ∷ ps) = (key_ltb k j ≡ true) × Above k ps

abbrev pub Ascending : List Pair → Type 0
Ascending [] = Unit {0}
Ascending ((k, e) ∷ ps) = Above k ps × Ascending ps

-- A bucket of bbolt, v1.4.3, as its documentation describes it: `pairs` is the walk of a cursor from
-- First, which is in the order of the keys. Put refuses a pair by the sizes of its key and value, and
-- always one with an empty key.
pub record Bucket : Type 1 where
  pub B : Type 0
  pub accepts : Bytes → Entry → Bool
  pub create : B
  pub get : B → Bytes → Option Entry
  pub put : B → Bytes → Entry → Option B
  pub delete : B → Bytes → B
  pub pairs : B → List Pair
  pub get-create : (k : Bytes) → get create k ≡ none
  pub get-put :
      (b b' : B) (k j : Bytes) (e : Entry)
      → put b k e ≡ some b'
      → get b' j ≡ (if bytes_equal k j then some e else get b j)
  pub accepts-put : (b : B) (k : Bytes) (e : Entry) → is_some (put b k e) ≡ accepts k e
  pub accepts-empty : (e : Entry) → accepts [] e ≡ false
  pub get-delete :
      (b : B) (k j : Bytes) → get (delete b k) j ≡ (if bytes_equal k j then none else get b j)
  pub pairs-Ascending : (b : B) → Ascending (pairs b)
  pub lookup-pairs : (b : B) (k : Bytes) → lookup (pairs b) k ≡ get b k

-- Cursor.Seek: the walk from the first key that is not below `p`.
unfoldable pub seek : List Pair → Bytes → List Pair
seek [] p = []
seek ((k, e) ∷ ps) p = let rest = seek ps p in if key_ltb k p then rest else (k, e) ∷ ps

-- The loop `k != nil && bytes.HasPrefix(k, prefix)`: the pairs that it visits.
unfoldable pub while_prefix : List Pair → Bytes → List Pair
while_prefix [] p = []
while_prefix ((k, e) ∷ ps) p =
    let rest = while_prefix ps p in if has_prefix k p then (k, e) ∷ rest else []

-- The loop that steps a cursor past the pages before.
unfoldable pub skip_pairs : ℕ → List Pair → List Pair
skip_pairs zero ps = ps
skip_pairs (suc n) [] = []
skip_pairs (suc n) (p ∷ ps) = skip_pairs n ps

-- A page; a size below zero is a panic in `make`, and an index below zero skips nothing.
unfoldable pub page_of : List Pair → ℤ → ℤ → Option (List Pair)
unfolding skip_pairs
page_of ps (pos page_size) page_index =
    some (take page_size (skip_pairs (pos_part page_index * page_size) ps))
page_of ps (negsuc n) page_index = none

module _ (bolt : Bucket) where
  open bolt use {B, create, get, put, delete, pairs}

  abbrev pub get_entry : B → Bytes → Option Entry
  get_entry b k = get b k

  abbrev pub put_entry : B → Bytes → Entry → Option B
  put_entry b k e = put b k e

  abbrev pub del : B → Bytes → B
  del b k = delete b k

  unfoldable pub get_pairs_with_prefix : B → Bytes → List Pair
  get_pairs_with_prefix b p = while_prefix (seek (pairs b) p) p

  unfoldable pub get_entry_with_prefix : B → Bytes → List Entry
  unfolding get_pairs_with_prefix
  get_entry_with_prefix b p = map (λ (q : Pair). q.1) (get_pairs_with_prefix b p)

  unfoldable pub delete_all : B → List Pair → B
  delete_all b [] = b
  delete_all b ((k, e) ∷ ps) = delete_all (delete b k) ps

  -- The cursor deletes the pair that it stands on and goes on to the next one.
  unfoldable pub del_with_prefix : B → Bytes → B
  unfolding delete_all
  del_with_prefix b p = delete_all b (while_prefix (seek (pairs b) p) p)

  unfoldable pub kvs : B → ℤ → ℤ → Option (List Pair)
  unfolding page_of
  kvs b page_size page_index = page_of (pairs b) page_size page_index

  -- The same pairs without their values.
  unfoldable pub keys : B → ℤ → ℤ → Option (List Pair)
  unfolding page_of
  keys b page_size page_index = do
    ps ← page_of (pairs b) page_size page_index
    some (map (λ (q : Pair). (q.0, record q.1 { value = [] })) ps)
