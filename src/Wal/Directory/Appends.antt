-- ===== src/Wal/Directory/Appends.antt =====
-- A record written behind a log file that ReadAll accepts.
use fir_etcd.Wal.RoundTrip.{suc_add, read_record-encode, turn_got, turn_failed}
use fir_etcd.Prelude.{
  ltb, ◌==◌, Bool-cases, length, take, drop, length-append, Bytes, ℕ, zero, suc, ◌+◌, ◌≤◌, ◌<◌, ◌≡◌,
  refl, sym, ap, ◌∙◌, subst, ◌≢◌, inl, inr, false, List, [], ◌∷◌, ◌++◌, append-nil, arith,
}
use fir_etcd.Wal.{
  LogRecord, put_uint32, ReadError, ReadResult, eof, failed, got, FileResult, records, broken,
  no_fuel, with_record, with_records, encode, read_data, read_record, read_records, read_file,
}

-- What a turn on a file does with more bytes behind the file.
abbrev Carries : Bytes → Bytes → ReadResult → ReadResult → Type 0
Carries bs more eof o = bs ≡ []
Carries bs more (failed e) o = Unit {0}
Carries bs more (got r rest) o = o ≡ got r (rest ++ more)

take-append : (n : ℕ) (xs ys : Bytes) → n ≤ length xs → take n (xs ++ ys) ≡ take n xs
take-append zero xs ys h = refl
take-append (suc n) [] ys h = absurd (omega arith)
take-append (suc n) (x ∷ xs) ys h = ap (λ zs. x ∷ zs) (take-append n xs ys (omega arith))

drop-append : (n : ℕ) (xs ys : Bytes) → n ≤ length xs → drop n (xs ++ ys) ≡ drop n xs ++ ys
drop-append zero xs ys h = refl
drop-append (suc n) [] ys h = absurd (omega arith)
drop-append (suc n) (x ∷ xs) ys h = drop-append n xs ys (omega arith)

pub records_inj : (rs ts : List LogRecord) → records rs ≡ records ts → rs ≡ ts
records_inj rs ts e = cc

broken_ne : (e : ReadError) (rs : List LogRecord) → broken e ≢ records rs
broken_ne e rs h = cc

no_fuel_ne : (rs : List LogRecord) → no_fuel ≢ records rs
no_fuel_ne rs h = cc

pub with_record_records :
    (r : LogRecord) (f : FileResult) (rs : List LogRecord)
    → with_record r f ≡ records rs
    → (rest : List LogRecord) × ((f ≡ records rest) × (rs ≡ r ∷ rest))
with_record_records r (records rest) rs e = (rest, (refl, cc))
with_record_records r (broken b) rs e = cc
with_record_records r no_fuel rs e = cc

pub with_records_records :
    (xs : List LogRecord) (f : FileResult) (rs : List LogRecord)
    → with_records xs f ≡ records rs
    → (ys : List LogRecord) × ((f ≡ records ys) × (rs ≡ xs ++ ys))
with_records_records [] f rs h = (rs, (h, refl))
with_records_records (x ∷ xs) f rs h =
    let (ts, (e, c)) = with_record_records x (with_records xs f) rs h in
    let (ys, (d, b)) = with_records_records xs f ts e in (ys, (d, c ∙ ap (λ t. x ∷ t) b))

module _ (crc : Bytes → ℕ) (bound : (bs : Bytes) → crc bs < 4294967296) where
  read_data-Carries :
      (n t sum : ℕ) (bs rest more : Bytes)
      → Carries bs more (read_data crc n t sum rest) (read_data crc n t sum (rest ++ more))
  unfolding read_data
  read_data-Carries n t sum bs rest more = elim (Bool-cases (ltb (length rest) n)) [
    | inl short ↦ rw short tt
    | inr long ↦
        let fits : n ≤ length rest = ground (arith, long) in
        let longer : ltb (length (rest ++ more)) n ≡ false =
          ground (arith, fits, length-append rest more) in
        rw (long, longer, take-append n rest more fits, drop-append n rest more fits)
          (elim (Bool-cases (crc (t ∷ take n rest) == sum)) [
            | inl same ↦ rw same refl
            | inr other ↦ rw other tt
          ])
  ]

  read_record-Carries :
      (bs more : Bytes) → Carries bs more (read_record crc bs) (read_record crc (bs ++ more))
  unfolding read_record
  read_record-Carries [] more = refl
  read_record-Carries (a ∷ []) more = tt
  read_record-Carries (a ∷ b ∷ []) more = tt
  read_record-Carries (a ∷ b ∷ c ∷ []) more = tt
  read_record-Carries (a ∷ b ∷ c ∷ d ∷ []) more = tt
  read_record-Carries (a ∷ b ∷ c ∷ d ∷ t ∷ []) more = tt
  read_record-Carries (a ∷ b ∷ c ∷ d ∷ t ∷ e ∷ []) more = tt
  read_record-Carries (a ∷ b ∷ c ∷ d ∷ t ∷ e ∷ f ∷ []) more = tt
  read_record-Carries (a ∷ b ∷ c ∷ d ∷ t ∷ e ∷ f ∷ g ∷ []) more = tt
  read_record-Carries (a ∷ b ∷ c ∷ d ∷ t ∷ e ∷ f ∷ g ∷ h ∷ rest) more =
      read_data-Carries _ t _ _ rest more

  read_records_eof :
      (bs : Bytes) (fuel : ℕ)
      → read_record crc bs ≡ eof
      → read_records crc (suc fuel) bs ≡ records []
  unfolding read_records
  read_records_eof bs fuel h = ground (arith, h)

  eof-nil : (bs : Bytes) → read_record crc bs ≡ eof → bs ≡ []
  eof-nil bs e =
      subst (λ x. Carries bs [] x (read_record crc (bs ++ []))) e (read_record-Carries bs [])

  read_nil : read_record crc [] ≡ eof
  unfolding read_record
  read_nil = refl

  -- A turn that goes on, and one that does not.
  turn_append :
      (o : ReadResult) (fuel k : ℕ) (bs : Bytes) (rs : List LogRecord) (r : LogRecord)
      → length r.payload < 4294967291
      → read_record crc bs ≡ o
      → read_records crc (suc fuel) bs ≡ records rs
      → ((rest : Bytes) (rs' : List LogRecord)
          → read_records crc fuel rest ≡ records rs'
          → read_records crc (fuel + suc k) (rest ++ encode crc r) ≡ records (rs' ++ r ∷ []))
      → read_records crc (suc (fuel + suc k)) (bs ++ encode crc r) ≡ records (rs ++ r ∷ [])
  turn_append eof fuel k bs rs r small o h ih =
      let blank : bs ≡ [] = eof-nil bs o in
      let none_read : rs ≡ [] = records_inj rs [] (sym h ∙ read_records_eof bs fuel o) in
      let blank_rest : fuel + suc k ≡ suc (fuel + k) = omega arith in
      rw (blank, none_read)
        (turn_got crc bound (encode crc r) [] r (fuel + suc k) (
            ap (read_record crc) (sym (append-nil (encode crc r)))
            ∙ read_record-encode crc bound r [] small)
          ∙ ap (with_record r) (
              ap (λ n. read_records crc n []) blank_rest ∙ read_records_eof [] (fuel + k) read_nil))
  turn_append (failed e) fuel k bs rs r small o h ih =
      absurd (broken_ne e rs (sym (turn_failed crc bound bs e fuel o) ∙ h))
  turn_append (got r' rest) fuel k bs rs r small o h ih =
      let split =
        with_record_records r' (read_records crc fuel rest) rs
          (sym (turn_got crc bound bs rest r' fuel o) ∙ h) in
      turn_got crc bound (bs ++ encode crc r) (rest ++ encode crc r) r' (fuel + suc k) (
        subst (λ x. Carries bs (encode crc r) x (read_record crc (bs ++ encode crc r))) o
          (read_record-Carries bs (encode crc r)))
      ∙ ap (with_record r') (ih rest split.0 split.1.0)
      ∙ ap (λ x. records (x ++ r ∷ [])) (sym split.1.1)

  read_records-append :
      (fuel k : ℕ) (bs : Bytes) (rs : List LogRecord) (r : LogRecord)
      → length r.payload < 4294967291
      → read_records crc fuel bs ≡ records rs
      → read_records crc (fuel + suc k) (bs ++ encode crc r) ≡ records (rs ++ r ∷ [])
  unfolding read_records
  read_records-append zero k bs rs r small h = absurd (no_fuel_ne rs h)
  read_records-append (suc fuel) k bs rs r small h = rw (suc_add fuel (suc k)) (
      turn_append (read_record crc bs) fuel k bs rs r small refl h
        (λ rest rs'. read_records-append fuel k rest rs' r small))

  encode-length : (r : LogRecord) → length (encode crc r) ≡ 9 + length r.payload
  unfolding encode put_uint32
  encode-length r = omega arith

  pub read_file-write :
      (bs : Bytes) (rs : List LogRecord) (r : LogRecord)
      → length r.payload < 4294967291
      → read_file crc bs ≡ records rs
      → read_file crc (bs ++ encode crc r) ≡ records (rs ++ r ∷ [])
  unfolding read_file
  read_file-write bs rs r small h =
      let fuel : length (bs ++ encode crc r) + 1 ≡ length bs + 1 + suc (8 + length r.payload) =
        omega (arith, length-append bs (encode crc r), encode-length r) in
      rw fuel (read_records-append (length bs + 1) (8 + length r.payload) bs rs r small h)
