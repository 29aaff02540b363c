-- ===== src/Store/Memory.antt =====
-- A bucket in memory, for the examples.
use fir_etcd.Prelude.{
  if◌then◌else◌, Bool-cases, pos, Bytes, bytes_equal, bytes_equal→eq, int_key, bytes_key, is_some,
  lookup, remove, lookup-remove, ℕ, ◌≡◌, refl, sym, ap, subst, inl, inr, Bool, true, false, Option,
  none, some, List, [], ◌∷◌, arith,
}
use fir_etcd.Store.{Entry, Pair}
use fir_etcd.Store.Bolt.{key_ltb, Above, Ascending, Bucket}

key_ltb_trans : (a b c : Bytes) → key_ltb a b ≡ true → key_ltb b c ≡ true → key_ltb a c ≡ true
key_ltb_trans [] b [] h k = ground arith
key_ltb_trans [] b (z ∷ c) h k = refl
key_ltb_trans (x ∷ a) [] c h k = cc
key_ltb_trans (x ∷ a) (y ∷ b) [] h k = cc
key_ltb_trans (x ∷ a) (y ∷ b) (z ∷ c) h k = ground (arith, key_ltb_trans a b c)

key_ltb_total : (a b : Bytes) → key_ltb a b ≡ false → bytes_equal a b ≡ false → key_ltb b a ≡ true
key_ltb_total [] [] h k = cc
key_ltb_total [] (y ∷ b) h k = cc
key_ltb_total (x ∷ a) [] h k = refl
key_ltb_total (x ∷ a) (y ∷ b) h k = ground (arith, key_ltb_total a b)

abbrev pub insert_sorted : Bytes → Entry → List Pair → List Pair
insert_sorted k e [] = (k, e) ∷ []
insert_sorted k e ((j, f) ∷ ps) =
    let rest = insert_sorted k e ps in
    if key_ltb k j
    then (k, e) ∷ (j, f) ∷ ps
    else if bytes_equal k j
    then (k, e) ∷ ps
    else (j, f) ∷ rest

Above-trans : (k j : Bytes) (ps : List Pair) → key_ltb k j ≡ true → Above j ps → Above k ps
Above-trans k j [] h up = tt
Above-trans k j ((i, e) ∷ ps) h up = (key_ltb_trans k j i h up.0, Above-trans k j ps h up.1)

insert_sorted-Above :
    (i k : Bytes) (e : Entry) (ps : List Pair)
    → key_ltb i k ≡ true
    → Above i ps
    → Above i (insert_sorted k e ps)
insert_sorted-Above i k e [] h up = (h, tt)
insert_sorted-Above i k e ((j, f) ∷ ps) h up = ground (arith, insert_sorted-Above i k e ps h up.1)

insert_sorted-Ascending :
    (k : Bytes) (e : Entry) (ps : List Pair) → Ascending ps → Ascending (insert_sorted k e ps)
insert_sorted-Ascending k e [] up = (tt, tt)
insert_sorted-Ascending k e ((j, f) ∷ ps) up = elim (Bool-cases (key_ltb k j)) [
  | inl a ↦ rw a ((a, Above-trans k j ps a up.0), up)
  | inr a ↦ elim (Bool-cases (bytes_equal k j)) [
    | inl b ↦ rw (a, b) (subst (λ x. Above x ps) (sym (bytes_equal→eq k j b)) up.0, up.1)
    | inr b ↦
        rw (a, b)
          (
            insert_sorted-Above j k e ps (key_ltb_total k j a b) up.0,
            insert_sorted-Ascending k e ps up.1,
          )
  ]
]

same_left : (k i j : Bytes) → bytes_equal k i ≡ true → bytes_equal k j ≡ bytes_equal i j
same_left k i j e = ap (λ x. bytes_equal x j) (bytes_equal→eq k i e)

same_right : (k i j : Bytes) → bytes_equal i j ≡ true → bytes_equal k i ≡ bytes_equal k j
same_right k i j e = ap (λ x. bytes_equal k x) (bytes_equal→eq i j e)

lookup-insert_sorted :
    (k j : Bytes) (e : Entry) (ps : List Pair)
    → lookup (insert_sorted k e ps) j ≡ (if bytes_equal k j then some e else lookup ps j)
lookup-insert_sorted k j e [] = refl
lookup-insert_sorted k j e ((i, f) ∷ ps) =
    ground (arith, lookup-insert_sorted k j e ps, same_left k i j, same_right k i j)

abbrev pub sorted : List Pair → List Pair
sorted [] = []
sorted ((k, e) ∷ m) = insert_sorted k e (sorted m)

pub sorted-Ascending : (m : List Pair) → Ascending (sorted m)
sorted-Ascending [] = tt
sorted-Ascending ((k, e) ∷ m) = insert_sorted-Ascending k e (sorted m) (sorted-Ascending m)

pub lookup-sorted : (m : List Pair) (k : Bytes) → lookup (sorted m) k ≡ lookup m k
lookup-sorted [] k = refl
lookup-sorted ((j, e) ∷ m) k =
    ground (arith, lookup-insert_sorted j k e (sorted m), lookup-sorted m k)

abbrev pub put_pair : List Pair → Bytes → Entry → Option (List Pair)
put_pair m [] e = none
put_pair m (x ∷ k) e = some ((x ∷ k, e) ∷ m)

pub get-put_pair :
    (m m' : List Pair) (k j : Bytes) (e : Entry)
    → put_pair m k e ≡ some m'
    → lookup m' j ≡ (if bytes_equal k j then some e else lookup m j)
get-put_pair m m' [] j e h = cc
get-put_pair m m' (x ∷ k) j e h =
    let new : (x ∷ k, e) ∷ m ≡ m' = cc h in
    subst (λ z. lookup z j ≡ (if bytes_equal (x ∷ k) j then some e else lookup m j)) new refl

pub get-remove :
    (m : List Pair) (k j : Bytes)
    → lookup (remove m k) j ≡ (if bytes_equal k j then none else lookup m j)
get-remove m k j = lookup-remove m k j

abbrev pub not_blank : Bytes → Entry → Bool
not_blank [] e = false
not_blank (x ∷ k) e = true

pub put_pair_accepts :
    (m : List Pair) (k : Bytes) (e : Entry) → is_some (put_pair m k e) ≡ not_blank k e
put_pair_accepts m [] e = refl
put_pair_accepts m (x ∷ k) e = refl

-- A map in memory keeps the laws of a bucket.
abbrev pub memory : Bucket
memory = record {
  B = List Pair;
  accepts = not_blank;
  create = [];
  get = λ m k. lookup m k;
  put = put_pair;
  delete = λ m k. remove m k;
  pairs = sorted;
  get-create = λ k. refl;
  get-put = get-put_pair;
  accepts-put = put_pair_accepts;
  accepts-empty = λ e. refl;
  get-delete = get-remove;
  pairs-Ascending = sorted-Ascending;
  lookup-pairs = lookup-sorted;
}

abbrev pub an_entry : ℕ → Entry
an_entry n = record { value = n ∷ []; dead_time = pos 0 }

-- Keys 1, 12, 13 and 2.
abbrev pub some_pairs : List Pair
some_pairs =
    (1 ∷ 3 ∷ [], an_entry 7)
    ∷ (2 ∷ [], an_entry 8)
    ∷ (1 ∷ [], an_entry 9)
    ∷ (1 ∷ 2 ∷ [], an_entry 5)
    ∷ []
