-- ===== src/Store/Bolt/Prefix.antt =====
-- The cursor of bboltdb.go that starts at a prefix and stops at the first key without it.
use fir_etcd.Prelude.{
  if◌then◌else◌, Bool-cases, Bytes, bytes_equal, bytes_equal→eq, has_prefix, int_key, bytes_key,
  lookup, ◌≡◌, refl, ap, inl, inr, true, false, none, List, [], ◌∷◌, arith,
}
use fir_etcd.Store.{Entry, Pair}
use fir_etcd.Store.Bolt.{key_ltb, Above, Ascending, seek, while_prefix}

prefix_not_below : (k p : Bytes) → has_prefix k p ≡ true → key_ltb k p ≡ false
prefix_not_below [] [] h = refl
prefix_not_below [] (y ∷ p) h = cc
prefix_not_below (x ∷ k) [] h = refl
prefix_not_below (x ∷ k) (y ∷ p) h = ground (arith, prefix_not_below k p)

-- A key above one that is past the keys with the prefix has not the prefix.
past_prefix :
    (k j p : Bytes)
    → key_ltb k p ≡ false
    → has_prefix k p ≡ false
    → key_ltb k j ≡ true
    → has_prefix j p ≡ false
past_prefix k j [] a b c = cc
past_prefix [] j (z ∷ p) a b c = cc
past_prefix (x ∷ k) [] (z ∷ p) a b c = refl
past_prefix (x ∷ k) (y ∷ j) (z ∷ p) a b c = ground (arith, past_prefix k j p)

stays_above : (k j p : Bytes) → key_ltb k p ≡ false → key_ltb k j ≡ true → key_ltb j p ≡ false
stays_above k [] [] a c = refl
stays_above k (y ∷ j) [] a c = refl
stays_above [] j (z ∷ p) a c = cc
stays_above (x ∷ k) [] (z ∷ p) a c = cc
stays_above (x ∷ k) (y ∷ j) (z ∷ p) a c = ground (arith, stays_above k j p)

same_prefix : (j k p : Bytes) → bytes_equal j k ≡ true → has_prefix j p ≡ has_prefix k p
same_prefix j k p e = ap (λ x. has_prefix x p) (bytes_equal→eq j k e)

same_below : (j k p : Bytes) → bytes_equal j k ≡ true → key_ltb j p ≡ key_ltb k p
same_below j k p e = ap (λ x. key_ltb x p) (bytes_equal→eq j k e)

none_past :
    (j k p : Bytes) (ps : List Pair)
    → key_ltb j p ≡ false
    → has_prefix j p ≡ false
    → Above j ps
    → has_prefix k p ≡ true
    → lookup ps k ≡ none
none_past j k p [] a b up h = refl
none_past j k p ((i, e) ∷ ps) a b up h = elim (Bool-cases (bytes_equal i k)) [
  | inl s ↦ cc (past_prefix j i p a b up.0, same_prefix i k p s)
  | inr s ↦ rw s (none_past j k p ps a b up.1 h)
]

lookup-while_prefix :
    (p k : Bytes) (ps : List Pair) (j : Bytes) (e : Entry)
    → Ascending ((j, e) ∷ ps)
    → key_ltb j p ≡ false
    → lookup (while_prefix ((j, e) ∷ ps) p) k
      ≡ (if has_prefix k p then lookup ((j, e) ∷ ps) k else none)
unfolding while_prefix
lookup-while_prefix p k [] j e up a = ground (arith, same_prefix j k p)
lookup-while_prefix p k ((i, f) ∷ ps) j e up a = elim (Bool-cases (has_prefix j p)) [
  | inl h ↦
      ground
        (arith, lookup-while_prefix p k ps i f up.1 (stays_above j i p a up.0.0), same_prefix j k p)
  | inr h ↦ ground (arith, same_prefix j k p, none_past j k p ((i, f) ∷ ps) a h up.0)
]

pub lookup-while_seek :
    (p k : Bytes) (ps : List Pair)
    → Ascending ps
    → lookup (while_prefix (seek ps p) p) k ≡ (if has_prefix k p then lookup ps k else none)
unfolding seek while_prefix
lookup-while_seek p k [] up = ground arith
lookup-while_seek p k ((j, e) ∷ ps) up = elim (Bool-cases (key_ltb j p)) [
  | inl b ↦ ground (arith, lookup-while_seek p k ps up.1, same_below j k p, prefix_not_below k p)
  | inr b ↦ rw b (lookup-while_prefix p k ps j e up b)
]
