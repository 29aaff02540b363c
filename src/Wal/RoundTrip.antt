-- ===== src/Wal/RoundTrip.antt =====
-- A log file that Write has filled, under ReadAll.
use fir_etcd.Prelude.{
  ltb, ==_iff, length, take, length-append, length-take, take-append_length, drop-append_length,
  Bytes, ℕ, zero, suc, ◌+◌, ◌-◌, ◌/◌, ◌%◌, ◌≤◌, ◌<◌, ◌≡◌, refl, sym, ap, ◌∙◌, false, List, [], ◌∷◌,
  ◌++◌, append-nil, append_assoc, arith,
}
use fir_etcd.Wal.{
  LogRecord, put_uint32, uint32, ReadError, short_read, failed, got, records, broken, with_record,
  with_records, encode, read_data, read_record, read_records, read_file, encode_all,
}

uint32-put :
    (n : ℕ)
    → n < 4294967296
    → uint32 (n / 16777216 % 256) (n / 65536 % 256) (n / 256 % 256) (n % 256) ≡ n
unfolding uint32
uint32-put n h = omega arith

header_length :
    (n : ℕ)
    → n < 4294967291
    → (uint32
            ((1 + n + 4) % 4294967296 / 16777216 % 256)
            ((1 + n + 4) % 4294967296 / 65536 % 256)
            ((1 + n + 4) % 4294967296 / 256 % 256)
            ((1 + n + 4) % 4294967296 % 256)
          + 4294967291)
        % 4294967296
      ≡ n
header_length n h = omega (arith, uint32-put ((1 + n + 4) % 4294967296))

-- The data of a record fits its length field.
abbrev pub AllFit : List LogRecord → Type 0
AllFit [] = Unit {0}
AllFit (r ∷ rs) = (length r.payload < 4294967291) × AllFit rs

zero_add : (n : ℕ) → 0 + n ≡ n
zero_add n = omega arith

pub suc_add : (n m : ℕ) → suc n + m ≡ suc (n + m)
suc_add n m = omega arith

module _ (crc : Bytes → ℕ) (bound : (bs : Bytes) → crc bs < 4294967296) where
  read_data-append :
      (t : ℕ) (payload rest : Bytes)
      → read_data crc (length payload) t (crc (t ∷ payload)) (payload ++ rest)
        ≡ got (record { rec_type = t; payload = payload }) rest
  unfolding read_data
  read_data-append t payload rest =
      let long : ltb (length (payload ++ rest)) (length payload) ≡ false =
        ground (arith, length-append payload rest) in
      rw (long, take-append_length payload rest, drop-append_length payload rest)
        (rw ((==_iff (crc (t ∷ payload)) (crc (t ∷ payload))).1 refl) refl)

  pub read_record-encode :
      (r : LogRecord) (rest : Bytes)
      → length r.payload < 4294967291
      → read_record crc (encode crc r ++ rest) ≡ got r rest
  unfolding read_record encode put_uint32
  read_record-encode r rest h =
      rw (header_length (length r.payload) h, uint32-put (crc (r.rec_type ∷ r.payload)) (bound _))
        (read_data-append r.rec_type r.payload rest)

  pub turn_got :
      (bs rest : Bytes) (r : LogRecord) (fuel : ℕ)
      → read_record crc bs ≡ got r rest
      → read_records crc (suc fuel) bs ≡ with_record r (read_records crc fuel rest)
  unfolding read_records
  turn_got bs rest r fuel h = ground (arith, h)

  pub turn_failed :
      (bs : Bytes) (e : ReadError) (fuel : ℕ)
      → read_record crc bs ≡ failed e
      → read_records crc (suc fuel) bs ≡ broken e
  unfolding read_records
  turn_failed bs e fuel h = ground (arith, h)

  -- The loop over whole records and then over what stands behind them.
  read_records-encode_all :
      (rs : List LogRecord) (more : ℕ) (rest : Bytes)
      → AllFit rs
      → read_records crc (length rs + more) (encode_all crc rs ++ rest)
        ≡ with_records rs (read_records crc more rest)
  unfolding encode_all
  read_records-encode_all [] more rest fit = rw (zero_add more) refl
  read_records-encode_all (r ∷ rs) more rest fit =
      rw (suc_add (length rs) more, append_assoc (encode crc r) (encode_all crc rs) rest)
        (turn_got _ _ r (length rs + more) (read_record-encode r (encode_all crc rs ++ rest) fit.0)
          ∙ ap (with_record r) (read_records-encode_all rs more rest fit.1))

  count-encode_all : (rs : List LogRecord) → length rs ≤ length (encode_all crc rs)
  unfolding encode_all encode put_uint32
  count-encode_all [] = omega arith
  count-encode_all (r ∷ rs) =
      omega (arith, count-encode_all rs, length-append r.payload (encode_all crc rs))

  read_file-append :
      (rs : List LogRecord) (rest : Bytes)
      → AllFit rs
      → (more : ℕ) × (read_file crc (encode_all crc rs ++ rest)
          ≡ with_records rs (read_records crc (suc more) rest))
  unfolding read_file
  read_file-append rs rest fit =
      let more : ℕ = length (encode_all crc rs ++ rest) - length rs in
      let fuel : length (encode_all crc rs ++ rest) + 1 ≡ length rs + suc more =
        omega (arith, count-encode_all rs, length-append (encode_all crc rs) rest) in
      (more, rw fuel (read_records-encode_all rs (suc more) rest fit))

  with_records-nil : (rs : List LogRecord) → with_records rs (records []) ≡ records rs
  with_records-nil [] = refl
  with_records-nil (r ∷ rs) = rw (with_records-nil rs) refl

  with_records-broken :
      (rs : List LogRecord) (e : ReadError) → with_records rs (broken e) ≡ broken e
  with_records-broken [] e = refl
  with_records-broken (r ∷ rs) e = rw (with_records-broken rs e) refl

  -- ReadAll gives back exactly the records that were written to the file, in their order, if the
  -- data of each fits the length field.
  pub read_file-encode_all :
      (rs : List LogRecord) → AllFit rs → read_file crc (encode_all crc rs) ≡ records rs
  unfolding read_records read_record
  read_file-encode_all rs fit =
      ap (read_file crc) (sym (append-nil (encode_all crc rs)))
      ∙ (read_file-append rs [] fit).1
      ∙ with_records-nil rs

  torn_data :
      (k : ℕ) (payload : Bytes) (t sum : ℕ)
      → k < length payload
      → read_data crc (length payload) t sum (take k payload) ≡ failed short_read
  unfolding read_data
  torn_data k payload t sum h = ground (arith, length-take k payload)

  torn_record :
      (r : LogRecord) (k : ℕ)
      → length r.payload < 4294967291
      → 0 < k
      → k < length (encode crc r)
      → read_record crc (take k (encode crc r)) ≡ failed short_read
  unfolding read_record encode put_uint32
  torn_record r zero fit lo hi = absurd (omega arith)
  torn_record r (suc zero) fit lo hi = refl
  torn_record r (suc (suc zero)) fit lo hi = refl
  torn_record r (suc (suc (suc zero))) fit lo hi = refl
  torn_record r (suc (suc (suc (suc zero)))) fit lo hi = refl
  torn_record r (suc (suc (suc (suc (suc zero))))) fit lo hi = refl
  torn_record r (suc (suc (suc (suc (suc (suc zero)))))) fit lo hi = refl
  torn_record r (suc (suc (suc (suc (suc (suc (suc zero))))))) fit lo hi = refl
  torn_record r (suc (suc (suc (suc (suc (suc (suc (suc zero)))))))) fit lo hi = refl
  torn_record r (suc (suc (suc (suc (suc (suc (suc (suc (suc k))))))))) fit lo hi =
      rw (header_length (length r.payload) fit) (torn_data k r.payload _ _ (omega arith))

  -- A file whose last write was cut off in the middle is refused as a whole, if the data of each
  -- record fits the length field: ReadAll returns an error and none of the whole records before
  -- it.
  pub read_file-torn :
      (rs : List LogRecord) (r : LogRecord) (k : ℕ)
      → AllFit rs
      → length r.payload < 4294967291
      → 0 < k
      → k < length (encode crc r)
      → read_file crc (encode_all crc rs ++ take k (encode crc r)) ≡ broken short_read
  read_file-torn rs r k fit small lo hi =
      (read_file-append rs (take k (encode crc r)) fit).1
      ∙ ap (with_records rs)
          (turn_failed (take k (encode crc r)) short_read _ (torn_record r k small lo hi))
      ∙ with_records-broken rs short_read
