-- ===== src/Raft/Commit/Sorted.antt =====
-- The middle of a sorted list: how many elements are at least as large.
use fir_etcd.Prelude.{
  if◌then◌else◌, Bool-cases, length, get_elem?, ℤ, ◌≤ℤ◌, leb_ℤ, ℕ, zero, suc, ◌+◌, ◌≤◌, ◌≡◌, refl,
  ◌∙◌, subst, inl, inr, some, List, [], ◌∷◌, arith,
}
use fir_etcd.Raft.Commit.{insert_int, sort_ints}

-- How many peers have the index `n`.
unfoldable pub count_reaching : ℤ → List ℤ → ℕ
count_reaching n [] = 0
count_reaching n (m ∷ ms) = (if leb_ℤ n m then 1 else 0) + count_reaching n ms

abbrev pub AtLeast : ℤ → List ℤ → Type 0
AtLeast a [] = Unit
AtLeast a (x ∷ xs) = (a ≤ℤ x) × AtLeast a xs

abbrev pub IsAscending : List ℤ → Type 0
IsAscending [] = Unit
IsAscending (x ∷ xs) = AtLeast x xs × IsAscending xs

AtLeast-mono : (a b : ℤ) (xs : List ℤ) → a ≤ℤ b → AtLeast b xs → AtLeast a xs
AtLeast-mono a b [] h k = tt
AtLeast-mono a b (x ∷ xs) h (p, k) = (omega arith, AtLeast-mono a b xs h k)

insert-AtLeast : (a b : ℤ) (xs : List ℤ) → b ≤ℤ a → AtLeast b xs → AtLeast b (insert_int a xs)
unfolding insert_int
insert-AtLeast a b [] h k = (h, tt)
insert-AtLeast a b (x ∷ xs) h (p, k) = ground (arith, insert-AtLeast a b xs h k)

insert-IsAscending : (a : ℤ) (xs : List ℤ) → IsAscending xs → IsAscending (insert_int a xs)
unfolding insert_int
insert-IsAscending a [] h = (tt, tt)
insert-IsAscending a (x ∷ xs) (p, h) = elim (Bool-cases (leb_ℤ a x)) [
  | inl e ↦ rw e ((ground arith, AtLeast-mono a x xs (ground arith) p), (p, h))
  | inr e ↦ rw e (insert-AtLeast a x xs (ground arith) p, insert-IsAscending a xs h)
]

pub sort_ints-IsAscending : (xs : List ℤ) → IsAscending (sort_ints xs)
unfolding sort_ints
sort_ints-IsAscending [] = tt
sort_ints-IsAscending (x ∷ xs) = insert-IsAscending x (sort_ints xs) (sort_ints-IsAscending xs)

count-insert :
    (n a : ℤ) (xs : List ℤ) → count_reaching n (insert_int a xs) ≡ count_reaching n (a ∷ xs)
unfolding count_reaching insert_int
count-insert n a [] = refl
count-insert n a (x ∷ xs) = ground (arith, count-insert n a xs)

pub count-sort_ints : (n : ℤ) (xs : List ℤ) → count_reaching n (sort_ints xs) ≡ count_reaching n xs
unfolding sort_ints count_reaching
count-sort_ints n [] = refl
count-sort_ints n (x ∷ xs) = count-insert n x (sort_ints xs) ∙ omega (arith, count-sort_ints n xs)

length-insert : (a : ℤ) (xs : List ℤ) → length (insert_int a xs) ≡ suc (length xs)
unfolding insert_int
length-insert a [] = refl
length-insert a (x ∷ xs) = ground (arith, length-insert a xs)

pub length-sort_ints : (xs : List ℤ) → length (sort_ints xs) ≡ length xs
unfolding sort_ints
length-sort_ints [] = refl
length-sort_ints (x ∷ xs) = omega (arith, length-insert x (sort_ints xs), length-sort_ints xs)

count-AtLeast : (n : ℤ) (xs : List ℤ) → AtLeast n xs → count_reaching n xs ≡ length xs
unfolding count_reaching
count-AtLeast n [] h = refl
count-AtLeast n (x ∷ xs) (p, h) = ground (arith, count-AtLeast n xs h)

-- From the place `k` of an ascending list on, every element is at least as large as the one there.
pub count-at :
    (n : ℤ) (k : ℕ) (xs : List ℤ)
    → IsAscending xs
    → get_elem? xs k ≡ some n
    → length xs ≤ k + count_reaching n xs
unfolding count_reaching
count-at n k [] h e = cc
count-at n zero (x ∷ xs) (p, h) e =
    let same : x ≡ n = cc e in
    ground (arith, same, count-AtLeast n xs (subst (λ y. AtLeast y xs) same p))
count-at n (suc k) (x ∷ xs) (p, h) e = ground (arith, count-at n k xs h e)
