-- ===== src/Store/Bolt/Pages.antt =====
-- The pages of Keys and KVs.
use fir_etcd.Prelude.{
  ◌>>=◌, take, drop, pos, ℕ, zero, suc, ◌+◌, ◌*◌, ◌≡◌, refl, sym, ap, Option, some, List, [], ◌∷◌,
  ◌++◌, arith,
}
use fir_etcd.Store.{Pair}
use fir_etcd.Store.Bolt.{Bucket, skip_pairs, page_of, kvs}

skip_pairs_lem : (n : ℕ) (ps : List Pair) → skip_pairs n ps ≡ drop n ps
unfolding skip_pairs
skip_pairs_lem zero ps = refl
skip_pairs_lem (suc n) [] = refl
skip_pairs_lem (suc n) (p ∷ ps) = skip_pairs_lem n ps

take-nil : (n : ℕ) → take {A = Pair} n [] ≡ []
take-nil zero = refl
take-nil (suc n) = refl

zero_add : (n : ℕ) → 0 + n ≡ n
zero_add n = omega arith

suc_add : (n m : ℕ) → suc n + m ≡ suc (n + m)
suc_add n m = omega arith

zero_mul : (n : ℕ) → zero * n ≡ 0
zero_mul n = omega arith

suc_mul : (n m : ℕ) → suc n * m ≡ n * m + m
suc_mul n m = omega arith

take-add : (n m : ℕ) (ps : List Pair) → take (n + m) ps ≡ take n ps ++ take m (drop n ps)
take-add zero m ps = rw (zero_add m) refl
take-add (suc n) m [] = rw (suc_add n m) (sym (take-nil m))
take-add (suc n) m (p ∷ ps) = rw (suc_add n m) (ap (λ x. p ∷ x) (take-add n m ps))

-- The pages before `n`, one behind the other.
pub first_pages : (bolt : Bucket) → bolt.B → ℕ → ℕ → Option (List Pair)
first_pages bolt b size zero = some []
first_pages bolt b size (suc n) = do
  before ← first_pages bolt b size n
  page ← kvs bolt b (pos size) (pos n)
  some (before ++ page)

-- The first `n` pages of KVs are the first n * size pairs in the order of their keys: none is left
-- out and none comes twice.
pub first_pages-eq :
    (bolt : Bucket) (b : bolt.B) (size n : ℕ)
    → first_pages bolt b size n ≡ some (take (n * size) (bolt.pairs b))
unfolding first_pages kvs page_of
first_pages-eq bolt b size zero = rw (zero_mul size) refl
first_pages-eq bolt b size (suc n) = rw (first_pages-eq bolt b size n) (
    rw (skip_pairs_lem (n * size) (bolt.pairs b), suc_mul n size)
      (ap some (sym (take-add (n * size) size (bolt.pairs b)))))
