-- ===== src/Prelude/Int.antt =====
-- Go's `int` and `int64` as unbounded signed integers over the native numbers.
use Prim.Native.Nat.{ℕ, suc, ◌+◌, ◌-◌, ◌≤◌, ◌<◌}
use mathlib.Core.Path.{◌≡◌, refl}
use mathlib.Core.Bool.{Bool, true, false}
use mathlib.Core.Option.{Option, none}
use mathlib.Core.List.{List}
use native.Mathlib.Omega.{arith}
use fir_etcd.Prelude.Tests.{ltb, leb, ◌==◌, if◌then◌else◌}
use fir_etcd.Prelude.Lists.{length, get_elem?, take, drop, length-take, length-drop}

-- `negsuc n` is -(n + 1).
pub data ℤ : Type 0 where
  pos : ℕ → ℤ
  negsuc : ℕ → ℤ

abbrev pub pos_part : ℤ → ℕ
pos_part (pos n) = n
pos_part (negsuc n) = 0

abbrev pub neg_part : ℤ → ℕ
neg_part (pos n) = 0
neg_part (negsuc n) = suc n

-- a - b, as an integer.
abbrev pub sub_ℕ : ℕ → ℕ → ℤ
sub_ℕ a b = if leb b a then pos (a - b) else negsuc (b - a - 1)

infixl 65 ◌+ℤ◌ ◌-ℤ◌
infix 50 ◌≤ℤ◌ ◌<ℤ◌
unfoldable pub ◌+ℤ◌ : ℤ → ℤ → ℤ
a +ℤ b = sub_ℕ (pos_part a + pos_part b) (neg_part a + neg_part b)

unfoldable pub ◌-ℤ◌ : ℤ → ℤ → ℤ
a -ℤ b = sub_ℕ (pos_part a + neg_part b) (neg_part a + pos_part b)

abbrev pub ◌≤ℤ◌ : ℤ → ℤ → Type 0
a ≤ℤ b = pos_part a + neg_part b ≤ pos_part b + neg_part a

abbrev pub ◌<ℤ◌ : ℤ → ℤ → Type 0
a <ℤ b = pos_part a + neg_part b < pos_part b + neg_part a

abbrev pub ltb_ℤ : ℤ → ℤ → Bool
ltb_ℤ a b = ltb (pos_part a + neg_part b) (pos_part b + neg_part a)

abbrev pub leb_ℤ : ℤ → ℤ → Bool
leb_ℤ a b = leb (pos_part a + neg_part b) (pos_part b + neg_part a)

infix 50 ◌==ℤ◌
abbrev pub ◌==ℤ◌ : ℤ → ℤ → Bool
a ==ℤ b = (pos_part a + neg_part b) == (pos_part b + neg_part a)

-- Minus one, the source's mark for "none".
abbrev pub minus_one : ℤ
minus_one = negsuc 0

-- Reading a slice at an `int`: `none` is the panic "index out of range".
abbrev pub at {ℓ} : {A : Type ℓ} → List A → ℤ → Option A
at xs (pos n) = get_elem? xs n
at xs (negsuc n) = none

-- One lemma for each operation lets the tactics work with the operations shut, at any depth.
pub +ℤ_parts :
    (a b : ℤ)
    → pos_part (a +ℤ b) + neg_part a + neg_part b ≡ neg_part (a +ℤ b) + pos_part a + pos_part b
unfolding ◌+ℤ◌
+ℤ_parts a b = ground arith

pub -ℤ_parts :
    (a b : ℤ)
    → pos_part (a -ℤ b) + neg_part a + pos_part b ≡ neg_part (a -ℤ b) + pos_part a + neg_part b
unfolding ◌-ℤ◌
-ℤ_parts a b = ground arith

pub eq_of_parts : (a b : ℤ) → pos_part a + neg_part b ≡ pos_part b + neg_part a → a ≡ b
eq_of_parts a b h = ground arith

pub ==ℤ→eq : (a b : ℤ) → (a ==ℤ b) ≡ true → a ≡ b
==ℤ→eq a b h = ground arith

pub ==ℤ_refl : (a : ℤ) → (a ==ℤ a) ≡ true
==ℤ_refl a = ground arith

pub ruleset int_laws = (arith, +ℤ_parts, -ℤ_parts, eq_of_parts)

-- A signed number that is not below zero is a count.
pub ≤ℤ_pos : (a : ℤ) → pos 0 ≤ℤ a → (n : ℕ) × (a ≡ pos n)
≤ℤ_pos (pos n) h = (n, refl)
≤ℤ_pos (negsuc n) h = absurd (omega arith)

-- The distance from `a` up to `b`.
pub distance : (a b : ℤ) → a ≤ℤ b → (n : ℕ) × (b ≡ a +ℤ pos n)
distance a b h = (pos_part b + neg_part a - (pos_part a + neg_part b), omega int_laws)

pub neg_part-sub : (a b : ℤ) → b ≤ℤ a → neg_part (a -ℤ b) ≡ 0
unfolding ◌-ℤ◌
neg_part-sub a b h = ground arith

-- How far `b` is above `a`.
abbrev pub offset : ℤ → ℤ → ℕ
offset a b = pos_part (b -ℤ a)

-- A list whose first element stands just above the index `a` and that reaches the index `b`.
module _ {ℓ} {A : Type ℓ} (xs : List A) (a b : ℤ) (lo : a ≤ℤ b) where
  pub offset-take : b ≤ℤ a +ℤ pos (length xs) → b ≡ a +ℤ pos (length (take (pos_part (b -ℤ a)) xs))
  offset-take hi = omega (
    int_laws,
    neg_part-sub b a lo,
    length-take (pos_part (b -ℤ a)) xs,
    -ℤ_parts b a,
    +ℤ_parts a (pos (length xs)),
  )

  pub offset-drop :
      (c : ℤ)
      → c ≤ℤ a +ℤ pos (length xs)
      → pos_part c + neg_part b - (pos_part b + neg_part c) ≤ length (drop (pos_part (b -ℤ a)) xs)
  offset-drop c hi = omega (
    int_laws,
    neg_part-sub b a lo,
    length-drop (pos_part (b -ℤ a)) xs,
    -ℤ_parts b a,
    +ℤ_parts a (pos (length xs)),
  )

pub add_behind :
    (a b : ℤ) → a ≤ℤ b → a +ℤ pos (pos_part b + neg_part a - (pos_part a + neg_part b)) ≡ b
add_behind a b h = omega int_laws

pub ltb_ℤ→lt : (a b : ℤ) → ltb_ℤ a b ≡ true → a <ℤ b
ltb_ℤ→lt a b h = ground arith

pub leb_ℤ→lt : (a b : ℤ) → leb_ℤ a b ≡ false → b <ℤ a
leb_ℤ→lt a b h = ground arith

pub leb_ℤ→le : (a b : ℤ) → leb_ℤ a b ≡ true → a ≤ℤ b
leb_ℤ→le a b h = ground arith
