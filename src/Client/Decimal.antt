-- ===== src/Client/Decimal.antt =====
-- strconv.FormatInt and strconv.ParseInt in base 10, which the locks of client/client.go use for the
-- ids of leases. A byte of the string is its ASCII code.
use fir_etcd.Prelude.{
  ltb, leb, ◌==◌, if◌then◌else◌, Bool-cases, ℤ, pos, negsuc, Bytes, ℕ, zero, suc, ◌+◌, ◌-◌, ◌*◌,
  ◌/◌, ◌%◌, ◌≤◌, ◌<◌, ◌≡◌, refl, ap, ◌∙◌, ◌≢◌, inl, inr, Bool, true, false, ◌&&◌, Option, none,
  some, [], ◌∷◌, ◌++◌, arith,
}

-- The digits of a number, the last one split off in each turn; it has at most as many as its value.
unfoldable pub digits : ℕ → ℕ → Bytes
digits zero n = (48 + n % 10) ∷ []
digits (suc fuel) n = elim (ltb n 10) [
  | true ↦ (48 + n) ∷ []
  | false ↦ digits fuel (n / 10) ++ (48 + n % 10) ∷ []
]

unfoldable pub format_int : ℤ → Bytes
unfolding digits
format_int (pos n) = digits n n
format_int (negsuc n) = 45 ∷ digits (suc n) (suc n)

abbrev pub max_uint64 : ℕ
max_uint64 = 18446744073709551615

abbrev pub max_int64 : ℕ
max_int64 = 9223372036854775807

abbrev pub is_digit : ℕ → Bool
is_digit c = leb 48 c && leb c 57

-- The loop of ParseUint: `none` is a syntax error, and a number that is too large is the largest one.
unfoldable pub parse_uint : ℕ → Bytes → Option ℕ
parse_uint acc [] = some acc
parse_uint acc (c ∷ cs) =
    let value = acc * 10 + (c - 48) in
    let rest = parse_uint value cs in
    if is_digit c then if ltb max_uint64 value then some max_uint64 else rest else none

abbrev pub clamp : Option ℕ → ℤ
clamp none = pos 0
clamp (some n) = if ltb max_int64 n then pos max_int64 else pos n

abbrev pub clamp_negative : Option ℕ → ℤ
clamp_negative none = pos 0
clamp_negative (some zero) = pos 0
clamp_negative (some (suc n)) = if ltb max_int64 n then negsuc max_int64 else negsuc n

abbrev pub parse_digits : Bytes → Option ℕ
parse_digits [] = none
parse_digits (c ∷ cs) = parse_uint 0 (c ∷ cs)

-- The number that ParseInt returns, beside its error.
unfoldable pub parse_int : Bytes → ℤ
unfolding parse_uint
parse_int [] = pos 0
parse_int (c ∷ cs) =
    if c == 45
    then clamp_negative (parse_digits cs)
    else if c == 43
    then clamp (parse_digits cs)
    else clamp (parse_digits (c ∷ cs))

-- The string begins with a digit.
abbrev Starts : Bytes → Type 0
Starts [] = ⊥
Starts (c ∷ cs) = 48 ≤ c

Starts-append : (xs ys : Bytes) → Starts xs → Starts (xs ++ ys)
Starts-append [] ys h = absurd h
Starts-append (x ∷ xs) ys h = h

one_digit : (fuel n : ℕ) → ltb n 10 ≡ true → digits (suc fuel) n ≡ (48 + n) ∷ []
unfolding digits
one_digit fuel n h = ground arith

more_digits :
    (fuel n : ℕ)
    → ltb n 10 ≡ false
    → digits (suc fuel) n ≡ digits fuel (n / 10) ++ (48 + n % 10) ∷ []
unfolding digits
more_digits fuel n h = ground arith

digits-Starts : (fuel n : ℕ) → Starts (digits fuel n)
unfolding digits
digits-Starts zero n = omega arith
digits-Starts (suc fuel) n = elim (Bool-cases (ltb n 10)) [
  | inl e ↦ rw (one_digit fuel n e) (omega arith)
  | inr e ↦
      rw (more_digits fuel n e)
        (Starts-append (digits fuel (n / 10)) _ (digits-Starts fuel (n / 10)))
]

-- One more digit.
parse_uint-append :
    (a m d : ℕ) (xs : Bytes)
    → parse_uint a xs ≡ some m
    → m < max_uint64
    → d < 10
    → m * 10 + d ≤ max_uint64
    → parse_uint a (xs ++ (48 + d) ∷ []) ≡ some (m * 10 + d)
unfolding parse_uint
parse_uint-append a m d [] e lt small fits = ground arith
parse_uint-append a m d (x ∷ xs) e lt small fits =
    ground (arith, parse_uint-append (a * 10 + (x - 48)) m d xs)

parse_uint-digits : (fuel n : ℕ) → n ≤ fuel → n < max_uint64 → parse_uint 0 (digits fuel n) ≡ some n
unfolding digits parse_uint
parse_uint-digits zero zero h lt = refl
parse_uint-digits zero (suc n) h lt = absurd (omega arith)
parse_uint-digits (suc fuel) n h lt = elim (Bool-cases (ltb n 10)) [
  | inl e ↦ ap (parse_uint 0) (one_digit fuel n e) ∙ ground (arith, e)
  | inr e ↦
      let whole : n / 10 * 10 + n % 10 ≡ n = omega arith in
      ap (parse_uint 0) (more_digits fuel n e)
      ∙ parse_uint-append 0 (n / 10) (n % 10) (digits fuel (n / 10))
          (parse_uint-digits fuel (n / 10) (ground (arith, e)) (omega arith)) (omega arith)
          (omega arith) (omega arith)
      ∙ ap some whole
]

parse_int-Starts : (cs : Bytes) → Starts cs → parse_int cs ≡ clamp (parse_uint 0 cs)
unfolding parse_int
parse_int-Starts [] h = absurd h
parse_int-Starts (c ∷ cs) h = ground arith

-- A count below 2 ^ 63 is read back from its digits.
pub parse_int-format_int : (n : ℕ) → n ≤ max_int64 → parse_int (format_int (pos n)) ≡ pos n
unfolding format_int
parse_int-format_int n h =
    parse_int-Starts (digits n n) (digits-Starts n n)
    ∙ ground (arith, parse_uint-digits n n (omega arith) (omega arith))

pub format_int-ne : (i : ℤ) → format_int i ≢ []
unfolding format_int
format_int-ne (pos n) e = let s : Starts (digits n n) = digits-Starts n n in rw e at s
format_int-ne (negsuc n) e = cc
