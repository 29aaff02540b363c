-- ===== src/Prelude/Maps.antt =====
-- Go's maps as association lists, over keys with a Boolean equality.
use mathlib.Core.Path.{◌≡◌, refl, ap₂}
use mathlib.Core.Logic.{◌⊎◌}
use mathlib.Core.Bool.{Bool, true, false}
use mathlib.Core.Option.{Option, none, some}
use mathlib.Core.List.{List, [], ◌∷◌}
use Prim.Native.Nat.{ℕ}
use native.Mathlib.Omega.{arith}
use fir_etcd.Prelude.Tests.{◌==◌, if◌then◌else◌}
use fir_etcd.Prelude.Int.{ℤ, ◌==ℤ◌, ==ℤ→eq, ==ℤ_refl}

-- A Go `[]byte` or `string`: its bytes.
abbrev pub Bytes : Type 0
Bytes = List ℕ

-- ==, bytes.Equal
abbrev pub bytes_equal : Bytes → Bytes → Bool
bytes_equal [] [] = true
bytes_equal [] (b ∷ ys) = false
bytes_equal (a ∷ xs) [] = false
bytes_equal (a ∷ xs) (b ∷ ys) = if a == b then bytes_equal xs ys else false

pub bytes_equal_refl : (a : Bytes) → bytes_equal a a ≡ true
bytes_equal_refl [] = refl
bytes_equal_refl (x ∷ a) = ground (arith, bytes_equal_refl a)

pub bytes_equal→eq : (a b : Bytes) → bytes_equal a b ≡ true → a ≡ b
bytes_equal→eq [] [] h = refl
bytes_equal→eq [] (y ∷ b) h = cc
bytes_equal→eq (x ∷ a) [] h = cc
bytes_equal→eq (x ∷ a) (y ∷ b) h =
    let parts : (x ≡ y) × (bytes_equal a b ≡ true) = ground arith in
    ap₂ (λ c d. c ∷ d) parts.0 (bytes_equal→eq a b parts.1)

-- strings.HasPrefix, bytes.HasPrefix
abbrev pub has_prefix : Bytes → Bytes → Bool
has_prefix bs [] = true
has_prefix [] (p ∷ ps) = false
has_prefix (b ∷ bs) (p ∷ ps) = if b == p then has_prefix bs ps else false

pub record Key (K : Type 0) : Type 0 where
  pub same : K → K → Bool
  pub same_refl : (a : K) → same a a ≡ true
  pub same→eq : (a b : K) → same a b ≡ true → a ≡ b

instance abbrev pub int_key : Key ℤ
int_key = record { same = λ a b. a ==ℤ b; same_refl = ==ℤ_refl; same→eq = ==ℤ→eq }

instance abbrev pub bytes_key : Key Bytes
bytes_key = record { same = bytes_equal; same_refl = bytes_equal_refl; same→eq = bytes_equal→eq }

abbrev pub Map : Type 0 → Type 0 → Type 0
Map K V = List (K × V)

abbrev pub is_some : {V : Type 0} → Option V → Bool
is_some none = false
is_some (some v) = true

abbrev pub contains : {K : Type 0} ⦃key : Key K⦄ → List K → K → Bool
contains ⦃key⦄ [] k = false
contains ⦃key⦄ (j ∷ js) k = if key.same j k then true else contains js k

module _ {K V : Type 0} ⦃key : Key K⦄ where
  -- m[k], as a pointer or with `ok`
  abbrev pub lookup : Map K V → K → Option V
  lookup [] k = none
  lookup ((j, v) ∷ m) k = if key.same j k then some v else lookup m k

  -- delete(m, k)
  abbrev pub remove : Map K V → K → Map K V
  remove [] k = []
  remove ((j, v) ∷ m) k = if key.same j k then remove m k else (j, v) ∷ remove m k

  -- m[k] = v
  abbrev pub insert : Map K V → K → V → Map K V
  insert m k v = (k, v) ∷ remove m k

  pub lookup-remove :
      (m : Map K V) (k j : K) → lookup (remove m k) j ≡ (if key.same k j then none else lookup m j)
  lookup-remove [] k j = ground arith
  lookup-remove ((i, v) ∷ m) k j =
      ground (
        arith,
        lookup-remove m k j,
        key.same→eq i k,
        key.same→eq i j,
        key.same→eq k j,
        key.same_refl,
      )

  pub lookup-insert :
      (m : Map K V) (k j : K) (v : V)
      → lookup (insert m k v) j ≡ (if key.same k j then some v else lookup m j)
  lookup-insert m k j v = ground (arith, lookup-remove m k j)

  -- No key stands twice.
  abbrev pub Distinct : Map K V → Type 0
  Distinct [] = Unit {0}
  Distinct ((k, v) ∷ m) = (lookup m k ≡ none) × Distinct m

  pub lookup-remove_self : (m : Map K V) (k : K) → lookup (remove m k) k ≡ none
  lookup-remove_self m k = ground (arith, lookup-remove m k k, key.same_refl k)

  pub remove-Distinct : (m : Map K V) (k : K) → Distinct m → Distinct (remove m k)
  remove-Distinct [] k d = tt
  remove-Distinct ((j, v) ∷ m) k d =
      ground (arith, remove-Distinct m k d.1, lookup-remove m k j, key.same_refl j)

  pub insert-Distinct : (m : Map K V) (k : K) (v : V) → Distinct m → Distinct (insert m k v)
  insert-Distinct m k v d = (lookup-remove_self m k, remove-Distinct m k d)

  abbrev pub keys_of : Map K V → List K
  keys_of [] = []
  keys_of ((k, v) ∷ m) = k ∷ keys_of m

  pub contains-keys_of : (m : Map K V) (k : K) → contains (keys_of m) k ≡ is_some (lookup m k)
  contains-keys_of [] k = refl
  contains-keys_of ((j, v) ∷ m) k = ground (arith, contains-keys_of m k)

  -- What stands under a key after an insertion is new or was there before.
  pub lookup-insert_cases :
      (m : Map K V) (k j : K) (v w : V)
      → lookup (insert m k v) j ≡ some w
      → ((k ≡ j) × (v ≡ w)) ⊎ (lookup m j ≡ some w)
  lookup-insert_cases m k j v w h =
      let e : (if key.same k j then some v else lookup m j) ≡ some w =
        cc (h, lookup-insert m k j v) in
      ground (arith, key.same→eq k j)
