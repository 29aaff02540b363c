-- ===== src/Wal.antt =====
-- The bytes of a log file, pkg/wal/wal.go: the record that Write appends and the loop of ReadAll over
-- one file. The checksum of hash/crc32 is a parameter.
pub mod RoundTrip
pub mod Ends
pub mod Directory
mod Examples
use fir_etcd.Prelude.{
  ltb, ◌==◌, if◌then◌else◌, length, take, drop, Bytes, ℕ, zero, suc, ◌+◌, ◌*◌, ◌/◌, ◌%◌, List, [],
  ◌∷◌, ◌++◌,
}

pub record LogRecord : Type 0 where
  pub rec_type : ℕ
  pub payload : Bytes

-- binary.BigEndian.PutUint32
unfoldable pub put_uint32 : ℕ → Bytes
put_uint32 n = (n / 16777216 % 256) ∷ (n / 65536 % 256) ∷ (n / 256 % 256) ∷ (n % 256) ∷ []

-- binary.BigEndian.Uint32
unfoldable pub uint32 : ℕ → ℕ → ℕ → ℕ → ℕ
uint32 a b c d = a * 16777216 + b * 65536 + c * 256 + d

-- An error of io.ReadFull, which meets the end of the file before or within what it reads, or ErrCorrupt.
pub data ReadError : Type 0 where
  short_read : ReadError
  err_corrupt : ReadError

pub data ReadResult : Type 0 where
  eof : ReadResult
  failed : ReadError → ReadResult
  got : LogRecord → Bytes → ReadResult

pub data FileResult : Type 0 where
  records : List LogRecord → FileResult
  broken : ReadError → FileResult
  no_fuel : FileResult

abbrev pub with_record : LogRecord → FileResult → FileResult
with_record r (records rs) = records (r ∷ rs)
with_record r (broken e) = broken e
with_record r no_fuel = no_fuel

abbrev pub with_records : List LogRecord → FileResult → FileResult
with_records [] f = f
with_records (r ∷ rs) f = with_record r (with_records rs f)

module _ (crc : Bytes → ℕ) where
  -- Write: length of type, data and checksum, then type, checksum and data.
  unfoldable pub encode : LogRecord → Bytes
  unfolding put_uint32
  encode r =
      put_uint32 ((1 + length r.payload + 4) % 4294967296)
      ++ r.rec_type ∷ put_uint32 (crc (r.rec_type ∷ r.payload))
      ++ r.payload

  -- The data of a record, once the header is read; `n` is its length as an uint32.
  unfoldable pub read_data : ℕ → ℕ → ℕ → Bytes → ReadResult
  read_data n rec_type sum rest =
      if ltb (length rest) n
      then failed short_read
      else if crc (rec_type ∷ take n rest) == sum
      then got (record { rec_type = rec_type; payload = take n rest }) (drop n rest)
      else failed err_corrupt

  -- One turn of the loop: the header of nine bytes and the data.
  unfoldable pub read_record : Bytes → ReadResult
  unfolding uint32 read_data
  read_record [] = eof
  read_record (a ∷ b ∷ c ∷ d ∷ t ∷ e ∷ f ∷ g ∷ h ∷ rest) =
      read_data ((uint32 a b c d + 4294967291) % 4294967296) t (uint32 e f g h) rest
  read_record _ = failed short_read

  -- The loop. An error gives up what was read before it.
  unfoldable pub read_records : ℕ → Bytes → FileResult
  unfolding read_record
  read_records zero bs = no_fuel
  read_records (suc fuel) bs = elim (read_record bs) [
    | eof ↦ records []
    | failed e ↦ broken e
    | got r rest ↦ with_record r (read_records fuel rest)
  ]

  -- Each turn takes at least the nine bytes of a header.
  unfoldable pub read_file : Bytes → FileResult
  unfolding read_records
  read_file bs = read_records (length bs + 1) bs

  unfoldable pub encode_all : List LogRecord → Bytes
  unfolding encode
  encode_all [] = []
  encode_all (r ∷ rs) = encode r ++ encode_all rs
