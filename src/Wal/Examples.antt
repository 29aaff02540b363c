-- ===== src/Wal/Examples.antt =====
-- A log file with two records.
use fir_etcd.Prelude.{
  take, Bytes, ℕ, ◌%◌, ◌<◌, ◌≡◌, refl, ◌≢◌, true, false, some, List, [], ◌∷◌, ◌++◌, arith,
}
use fir_etcd.Wal.{
  LogRecord, put_uint32, uint32, short_read, records, broken, no_fuel, encode, read_data,
  read_record, read_records, read_file, encode_all,
}
use fir_etcd.Wal.Ends.{read_file_ends}
use fir_etcd.Wal.RoundTrip.{read_file-torn}
use fir_etcd.Wal.Directory.{
  DirEntry, LogDir, insert_string, sort_strings, suffix, has_suffix, log_names, list_log_files,
  scan_digits, scan_seq, open_wal, content_of, read_files, read_all,
}
use fir_etcd.Wal.Directory.Restart.{
  LogCall, write_call, restart_call, run_calls, read_all-run_calls,
}

abbrev sum_of : Bytes → ℕ
sum_of [] = 0
sum_of (b ∷ bs) = b % 256

sum_small : (bs : Bytes) → sum_of bs < 4294967296
sum_small [] = omega arith
sum_small (b ∷ bs) = omega arith

abbrev a_record : LogRecord
a_record = record { rec_type = 1; payload = 10 ∷ 20 ∷ [] }

abbrev two_records : List LogRecord
two_records = a_record ∷ record { rec_type = 2; payload = [] } ∷ []

read_file-torn_example :
    read_file sum_of (encode_all sum_of two_records ++ take 10 (encode sum_of a_record))
    ≡ broken short_read
unfolding encode put_uint32
read_file-torn_example =
    read_file-torn sum_of sum_small two_records a_record 10 (omega arith, (omega arith, tt))
      (omega arith) (omega arith) (omega arith)

read_file_ends_example : read_file sum_of (0 ∷ 0 ∷ 0 ∷ 5 ∷ 1 ∷ []) ≢ no_fuel
read_file_ends_example = read_file_ends sum_of (0 ∷ 0 ∷ 0 ∷ 5 ∷ 1 ∷ [])

-- A directory with a log file of one record and another file.
abbrev a_directory : List DirEntry
a_directory =
    record { name = 48 ∷ 49 ∷ suffix; is_dir = false; content = encode_all sum_of (a_record ∷ []) }
    ∷ record { name = 115 ∷ []; is_dir = false; content = 7 ∷ [] }
    ∷ []

abbrev some_calls : List LogCall
some_calls =
    write_call a_record ∷ restart_call ∷ write_call (record { rec_type = 2; payload = [] }) ∷ []

abbrev opened_log : LogDir
opened_log = record {
  file = 48 ∷ 49 ∷ suffix;
  seq = 1;
  linked = true;
  is_open = true;
  files = a_directory;
}

read_all-run_calls_example :
    (w : LogDir) × ((run_calls sum_of sum_small opened_log some_calls ≡ some w)
      × (read_all sum_of w ≡ records (a_record ∷ two_records)))
unfolding open_wal list_log_files log_names sort_strings insert_string has_suffix scan_seq
    scan_digits encode_all encode put_uint32 read_all read_files content_of read_file read_records
    read_record read_data uint32
read_all-run_calls_example =
    read_all-run_calls sum_of sum_small a_directory opened_log (a_record ∷ []) some_calls (tt, tt)
      refl refl (omega arith, (omega arith, tt))
