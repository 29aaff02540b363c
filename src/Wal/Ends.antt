-- ===== src/Wal/Ends.antt =====
-- The loop of ReadAll over any bytes at all.
use fir_etcd.Prelude.{
  length, length-drop, Bytes, ℕ, zero, suc, ◌+◌, ◌≤◌, ◌<◌, ◌≡◌, ◌≢◌, [], ◌∷◌, arith,
}
use fir_etcd.Wal.{
  LogRecord, ReadResult, eof, failed, got, FileResult, records, broken, no_fuel, with_record,
  read_data, read_record, read_records, read_file,
}

-- What a turn leaves is shorter than what it met.
abbrev Shrinks : ℕ → ReadResult → Type 0
Shrinks n eof = Unit {0}
Shrinks n (failed e) = Unit {0}
Shrinks n (got r rest) = length rest < n

abbrev Ended : FileResult → Type 0
Ended no_fuel = ◌≡◌ {A = ℕ} 0 1
Ended _ = Unit {0}

with_record-Ended : (r : LogRecord) (f : FileResult) → Ended f → Ended (with_record r f)
with_record-Ended r (records rs) h = tt
with_record-Ended r (broken e) h = tt
with_record-Ended r no_fuel h = h

Ended→ne : (f : FileResult) → Ended f → f ≢ no_fuel
Ended→ne (records rs) h e = cc
Ended→ne (broken b) h e = cc
Ended→ne no_fuel h e = absurd (omega arith)

module _ (crc : Bytes → ℕ) where
  read_data-Shrinks :
      (n t sum : ℕ) (rest : Bytes) → Shrinks (length rest + 1) (read_data crc n t sum rest)
  unfolding read_data
  read_data-Shrinks n t sum rest = ground (arith, length-drop n rest)

  Shrinks-le : (n m : ℕ) (r : ReadResult) → n ≤ m → Shrinks n r → Shrinks m r
  Shrinks-le n m eof h s = tt
  Shrinks-le n m (failed e) h s = tt
  Shrinks-le n m (got r rest) h s = omega arith

  read_record-Shrinks : (bs : Bytes) → Shrinks (length bs) (read_record crc bs)
  unfolding read_record
  read_record-Shrinks [] = tt
  read_record-Shrinks (a ∷ []) = tt
  read_record-Shrinks (a ∷ b ∷ []) = tt
  read_record-Shrinks (a ∷ b ∷ c ∷ []) = tt
  read_record-Shrinks (a ∷ b ∷ c ∷ d ∷ []) = tt
  read_record-Shrinks (a ∷ b ∷ c ∷ d ∷ t ∷ []) = tt
  read_record-Shrinks (a ∷ b ∷ c ∷ d ∷ t ∷ e ∷ []) = tt
  read_record-Shrinks (a ∷ b ∷ c ∷ d ∷ t ∷ e ∷ f ∷ []) = tt
  read_record-Shrinks (a ∷ b ∷ c ∷ d ∷ t ∷ e ∷ f ∷ g ∷ []) = tt
  read_record-Shrinks (a ∷ b ∷ c ∷ d ∷ t ∷ e ∷ f ∷ g ∷ h ∷ rest) =
      Shrinks-le (length rest + 1) _ (read_data crc _ t _ rest) (omega arith)
        (read_data-Shrinks _ t _ rest)

  read_turn-Ended :
      (o : ReadResult) (n fuel : ℕ)
      → Shrinks n o
      → n ≤ fuel
      → ((rest : Bytes) → length rest < fuel → Ended (read_records crc fuel rest))
      → Ended (elim o [
        | eof ↦ records []
        | failed e ↦ broken e
        | got r rest ↦ with_record r (read_records crc fuel rest)
      ])
  read_turn-Ended eof n fuel s h ih = tt
  read_turn-Ended (failed e) n fuel s h ih = tt
  read_turn-Ended (got r rest) n fuel s h ih =
      with_record-Ended r (read_records crc fuel rest) (ih rest (omega arith))

  read_records-Ended : (fuel : ℕ) (bs : Bytes) → length bs < fuel → Ended (read_records crc fuel bs)
  unfolding read_records
  read_records-Ended zero bs h = absurd (omega arith)
  read_records-Ended (suc fuel) bs h =
      read_turn-Ended (read_record crc bs) (length bs) fuel (read_record-Shrinks bs) (omega arith)
        (read_records-Ended fuel)

  -- Whatever bytes a log file holds, the loop of ReadAll comes to its end: it returns records or an
  -- error.
  pub read_file_ends : (bs : Bytes) → read_file crc bs ≢ no_fuel
  unfolding read_file
  read_file_ends bs = Ended→ne _ (read_records-Ended (length bs + 1) bs (omega arith))
