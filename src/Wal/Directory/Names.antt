-- ===== src/Wal/Directory/Names.antt =====
-- The names of the log files, in the order of listLogFiles.
use fir_etcd.Prelude.{
  Bool-cases, Bytes, bytes_equal, bytes_equal_refl, bytes_equal→eq, ◌≡◌, refl, sym, ◌∙◌, subst, ◌≢◌,
  ◌⊎◌, inl, inr, true, false, not, ◌&&◌, some, List, [], ◌∷◌, ◌++◌,
}
use fir_etcd.Wal.Directory.{
  DirEntry, string_ltb, insert_string, sort_strings, suffix, has_suffix, log_names, list_log_files,
  last_name, append_to, content_of,
}

abbrev pub Off : Bytes → List Bytes → Type 0
Off n [] = Unit {0}
Off n (m ∷ ms) = (bytes_equal n m ≡ false) × Off n ms

-- No two files have the same name.
abbrev pub Apart : List Bytes → Type 0
Apart [] = Unit {0}
Apart (n ∷ ns) = Off n ns × Apart ns

bytes_equal_sym : (a b : Bytes) → bytes_equal a b ≡ bytes_equal b a
bytes_equal_sym a b = elim (Bool-cases (bytes_equal a b)) [
  | inl e ↦ rw (bytes_equal→eq a b e) refl
  | inr e ↦ elim (Bool-cases (bytes_equal b a)) [
    | inl d ↦ rw (bytes_equal→eq b a d) refl
    | inr d ↦ e ∙ sym d
  ]
]

Off-insert_string :
    (n m : Bytes) (ms : List Bytes)
    → bytes_equal n m ≡ false
    → Off n ms
    → Off n (insert_string m ms)
unfolding insert_string
Off-insert_string n m [] e h = (e, tt)
Off-insert_string n m (k ∷ ks) e (d, h) = elim (Bool-cases (string_ltb k m)) [
  | inl c ↦ rw c (d, Off-insert_string n m ks e h)
  | inr c ↦ rw c (e, (d, h))
]

Apart-insert_string :
    (m : Bytes) (ms : List Bytes) → Off m ms → Apart ms → Apart (insert_string m ms)
unfolding insert_string
Apart-insert_string m [] off h = (tt, tt)
Apart-insert_string m (k ∷ ks) (e, off) (kept, h) = elim (Bool-cases (string_ltb k m)) [
  | inl c ↦
      rw c (Off-insert_string k m ks (bytes_equal_sym k m ∙ e) kept, Apart-insert_string m ks off h)
  | inr c ↦ rw c ((e, off), (kept, h))
]

Off-sort_strings : (n : Bytes) (ns : List Bytes) → Off n ns → Off n (sort_strings ns)
unfolding sort_strings
Off-sort_strings n [] h = tt
Off-sort_strings n (m ∷ ms) (e, h) =
    Off-insert_string n m (sort_strings ms) e (Off-sort_strings n ms h)

pub Apart-sort_strings : (ns : List Bytes) → Apart ns → Apart (sort_strings ns)
unfolding sort_strings
Apart-sort_strings [] h = tt
Apart-sort_strings (n ∷ ns) (off, h) =
    Apart-insert_string n (sort_strings ns) (Off-sort_strings n ns off) (Apart-sort_strings ns h)

pub some_eq : (a b : Bytes) → some a ≡ some b → a ≡ b
some_eq a b e = cc

true_ne_false : true ≢ false
true_ne_false e = cc

Off_at : (n m k : Bytes) → bytes_equal n k ≡ false → some k ≡ some m → bytes_equal m n ≡ false
Off_at n m k d e = subst (λ x. bytes_equal x n ≡ false) (some_eq k m e) (bytes_equal_sym k n ∙ d)

at_end : (n m : Bytes) → some m ≡ some n → bytes_equal n m ≡ true
at_end n m e = subst (λ x. bytes_equal n x ≡ true) (sym (some_eq m n e)) (bytes_equal_refl n)

pub Off-last_name :
    (n m : Bytes) (ns : List Bytes) → Off n ns → last_name ns ≡ some m → bytes_equal m n ≡ false
Off-last_name n m [] h e = cc
Off-last_name n m (k ∷ []) (d, h) e = Off_at n m k d e
Off-last_name n m (k ∷ j ∷ ks) (d, h) e = Off-last_name n m (j ∷ ks) h e

append_to-log_names :
    (n bs : Bytes) (es : List DirEntry) → log_names (append_to n bs es) ≡ log_names es
unfolding log_names append_to
append_to-log_names n bs [] = refl
append_to-log_names n bs (e ∷ es) = elim (Bool-cases (bytes_equal n e.name)) [
  | inl c ↦ rw (c, append_to-log_names n bs es) refl
  | inr c ↦ rw (c, append_to-log_names n bs es) refl
]

pub append_to-list_log_files :
    (n bs : Bytes) (es : List DirEntry) → list_log_files (append_to n bs es) ≡ list_log_files es
unfolding list_log_files
append_to-list_log_files n bs es = rw (append_to-log_names n bs es) refl

pub content_of-other :
    (n m bs : Bytes) (es : List DirEntry)
    → bytes_equal n m ≡ false
    → content_of (append_to n bs es) m ≡ content_of es m
unfolding content_of append_to
content_of-other n m bs [] d = refl
content_of-other n m bs (e ∷ es) d = elim (Bool-cases (bytes_equal m e.name)) [
  | inl c ↦ rw (sym (bytes_equal→eq m e.name c), d, bytes_equal_refl m) refl
  | inr c ↦ elim (Bool-cases (bytes_equal n e.name)) [
    | inl b ↦ rw (b, c) (content_of-other n m bs es d)
    | inr b ↦ rw (b, c) (content_of-other n m bs es d)
  ]
]

abbrev pub Has : Bytes → List Bytes → Type 0
Has n [] = ⊥
Has n (m ∷ ms) = (bytes_equal n m ≡ true) ⊎ Has n ms

pub content_of-append_to :
    (n bs : Bytes) (es : List DirEntry)
    → Has n (log_names es)
    → content_of (append_to n bs es) n ≡ content_of es n ++ bs
unfolding content_of append_to log_names
content_of-append_to n bs [] h = absurd h
content_of-append_to n bs (e ∷ es) h = elim (Bool-cases (bytes_equal n e.name)) [
  | inl c ↦ rw (c, c) refl
  | inr c ↦ elim (Bool-cases (not e.is_dir && has_suffix e.name suffix)) [
    | inl b ↦ elim (rw b at h) [
      | inl same ↦ absurd (true_ne_false (sym same ∙ c))
      | inr later ↦ rw (c, c) (content_of-append_to n bs es later)
    ]
    | inr b ↦ let there = rw b at h in rw (c, c) (content_of-append_to n bs es there)
  ]
]

Has-insert_string :
    (n m : Bytes) (ms : List Bytes)
    → Has n (insert_string m ms)
    → (bytes_equal n m ≡ true) ⊎ Has n ms
unfolding insert_string
Has-insert_string n m [] h = h
Has-insert_string n m (k ∷ ks) h = elim (Bool-cases (string_ltb k m)) [
  | inl c ↦ elim (rw c at h) [
    | inl same ↦ inr (inl same)
    | inr later ↦ elim (Has-insert_string n m ks later) [
      | inl same ↦ inl same
      | inr there ↦ inr (inr there)
    ]
  ]
  | inr c ↦ rw c at h
]

pub Has-sort_strings : (n : Bytes) (ns : List Bytes) → Has n (sort_strings ns) → Has n ns
unfolding sort_strings
Has-sort_strings n [] h = h
Has-sort_strings n (m ∷ ms) h = elim (Has-insert_string n m (sort_strings ms) h) [
  | inl same ↦ inl same
  | inr later ↦ inr (Has-sort_strings n ms later)
]

pub last_name-Has : (n : Bytes) (ns : List Bytes) → last_name ns ≡ some n → Has n ns
last_name-Has n [] e = cc
last_name-Has n (m ∷ []) e = inl (at_end n m e)
last_name-Has n (m ∷ k ∷ ks) e = inr (last_name-Has n (k ∷ ks) e)
