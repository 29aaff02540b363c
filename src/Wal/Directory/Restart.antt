-- ===== src/Wal/Directory/Restart.antt =====
-- Runs of writes and restarts on a directory of log files.

use fir_etcd.Prelude.{
  ◌>>=◌, length, Bytes, ℕ, ◌<◌, ◌≡◌, refl, sym, ap, ◌∙◌, subst, true, Option, some, List, [], ◌∷◌,
  ◌++◌, append-nil, append_assoc,
}
use fir_etcd.Wal.{LogRecord, FileResult, records, broken, no_fuel, with_records, encode, read_file}
use fir_etcd.Wal.Directory.{
  DirEntry, LogDir, log_names, list_log_files, scan_seq, last_name, open_wal, append_to, content_of,
  behind, write_record, read_files, read_all, close_wal,
}
use fir_etcd.Wal.Directory.Names.{
  Apart, some_eq, Off-last_name, append_to-list_log_files, content_of-other, Has,
  content_of-append_to, Has-sort_strings, last_name-Has,
}
use fir_etcd.Wal.Directory.Appends.{records_inj, with_records_records, read_file-write}
use fir_etcd.Wal.Directory.Ready.{IsReady, open_wal-IsReady}

-- A write, or the end of the process and an Open after it.
pub data LogCall : Type 0 where
  write_call : LogRecord → LogCall
  restart_call : LogCall

-- The data of each write fits the length field.
abbrev pub WritesFit : List LogCall → Type 0
WritesFit [] = Unit {0}
WritesFit (write_call r ∷ cs) = (length r.payload < 4294967291) × WritesFit cs
WritesFit (restart_call ∷ cs) = WritesFit cs

abbrev pub written : List LogCall → List LogRecord
written [] = []
written (write_call r ∷ cs) = r ∷ written cs
written (restart_call ∷ cs) = written cs

behind-records :
    (f g : FileResult) (rs : List LogRecord)
    → behind f g ≡ records rs
    → (xs : List LogRecord) × ((f ≡ records xs) × (with_records xs g ≡ records rs))
behind-records (records xs) g rs h = (xs, (refl, h))
behind-records (broken e) g rs h = cc
behind-records no_fuel g rs h = cc

with_records-append : (xs ys : List LogRecord) → with_records xs (records ys) ≡ records (xs ++ ys)
with_records-append [] ys = refl
with_records-append (x ∷ xs) ys = rw (with_records-append xs ys) refl

with_records-nil : (xs : List LogRecord) → with_records xs (records []) ≡ records xs
with_records-nil xs = with_records-append xs [] ∙ ap records (append-nil xs)

listed-Has : (w : LogDir) → IsReady w → Has w.file (log_names w.files)
unfolding list_log_files
listed-Has w h = Has-sort_strings w.file (log_names w.files) (last_name-Has w.file _ h.ends)

module _ (crc : Bytes → ℕ) (bound : (bs : Bytes) → crc bs < 4294967296) where
  abbrev pub call : LogDir → LogCall → Option LogDir
  call w (write_call r) = write_record crc w r
  call w restart_call = open_wal (some (close_wal w).files)

  abbrev pub run_calls : LogDir → List LogCall → Option LogDir
  run_calls w [] = some w
  run_calls w (c ∷ cs) = call w c >>= λ w'. run_calls w' cs

  read_files-write :
      (ns : List Bytes) (es : List DirEntry) (n : Bytes) (rs : List LogRecord) (r : LogRecord)
      → length r.payload < 4294967291
      → last_name ns ≡ some n
      → Apart ns
      → Has n (log_names es)
      → read_files crc ns es ≡ records rs
      → read_files crc ns (append_to n (encode crc r) es) ≡ records (rs ++ r ∷ [])
  unfolding read_files
  read_files-write [] es n rs r small last apart has h = cc
  read_files-write (m ∷ []) es n rs r small last apart has h =
      let (xs, (e, d)) = behind-records (read_file crc (content_of es m)) (records []) rs h in
      let whole : rs ≡ xs = records_inj rs xs (sym d ∙ with_records-nil xs) in
      let grown : content_of (append_to n (encode crc r) es) m ≡ content_of es m ++ encode crc r =
        subst (λ x. content_of (append_to n (encode crc r) es) x ≡ content_of es x ++ encode crc r)
          (some_eq n m (sym last)) (content_of-append_to n (encode crc r) es has) in
      rw (grown, read_file-write crc bound (content_of es m) xs r small e, whole)
        (with_records-nil (xs ++ r ∷ []))
  read_files-write (m ∷ k ∷ ks) es n rs r small last (off, apart) has h =
      let (xs, (e, d)) =
        behind-records (read_file crc (content_of es m)) (read_files crc (k ∷ ks) es) rs h in
      let (ys, (c, b)) = with_records_records xs (read_files crc (k ∷ ks) es) rs d in
      let other = Off-last_name m n (k ∷ ks) off last in
      rw (content_of-other n m (encode crc r) es other, e, b, append_assoc xs ys (r ∷ []))
        (ap (with_records xs) (read_files-write (k ∷ ks) es n ys r small last apart has c)
          ∙ with_records-append xs (ys ++ r ∷ []))

  write_record-eq :
      (w : LogDir) (r : LogRecord)
      → IsReady w
      → write_record crc w r ≡ some (record w { files = append_to w.file (encode crc r) w.files })
  unfolding write_record
  write_record-eq w r h = rw (h.opened, h.listed) refl

  write_record-IsReady :
      (w : LogDir) (r : LogRecord)
      → IsReady w
      → IsReady (record w { files = append_to w.file (encode crc r) w.files })
  write_record-IsReady w r h =
      let same = append_to-list_log_files w.file (encode crc r) w.files in
      record {
        opened = h.opened;
        listed = h.listed;
        ends = ap last_name same ∙ h.ends;
        apart = subst Apart (sym same) h.apart;
      }

  read_all-write_record :
      (w : LogDir) (rs : List LogRecord) (r : LogRecord)
      → IsReady w
      → length r.payload < 4294967291
      → read_all crc w ≡ records rs
      → read_all crc (record w { files = append_to w.file (encode crc r) w.files })
        ≡ records (rs ++ r ∷ [])
  unfolding read_all
  read_all-write_record w rs r h small e =
      rw (append_to-list_log_files w.file (encode crc r) w.files) (
        read_files-write (list_log_files w.files) w.files w.file rs r small h.ends h.apart
          (listed-Has w h) e)

  abbrev restarted : LogDir → LogDir
  restarted w = record w { seq = scan_seq w.file 0; linked = true; is_open = true }

  restart-eq : (w : LogDir) → IsReady w → open_wal (some (close_wal w).files) ≡ some (restarted w)
  unfolding open_wal close_wal
  restart-eq w h = rw (open_wal, h.ends) refl

  run_calls_all :
      (cs : List LogCall) (w : LogDir) (rs : List LogRecord)
      → IsReady w
      → WritesFit cs
      → read_all crc w ≡ records rs
      → (w' : LogDir) × ((run_calls w cs ≡ some w')
          × (read_all crc w' ≡ records (rs ++ written cs)))
  unfolding read_all
  run_calls_all [] w rs h fit e = (w, (refl, rw (append-nil rs) e))
  run_calls_all (write_call r ∷ cs) w rs h (small, fit) e =
      let (w', (ran, held)) =
        run_calls_all cs (record w { files = append_to w.file (encode crc r) w.files })
          (rs ++ r ∷ []) (write_record-IsReady w r h) fit
          (read_all-write_record w rs r h small e) in
      (
        w',
        (rw (write_record-eq w r h) ran, held ∙ ap records (append_assoc rs (r ∷ []) (written cs))),
      )
  run_calls_all (restart_call ∷ cs) w rs h fit e =
      let (w', (ran, held)) =
        run_calls_all cs (restarted w) rs
          (record { opened = refl; listed = refl; ends = h.ends; apart = h.apart }) fit e in
      (w', (rw (restart-eq w h) ran, held))

  -- After an Open of a directory whose log files ReadAll accepts, every run of writes and restarts succeeds, and ReadAll then
  -- gives what it gave before and behind it the records that were written, in their order, if no two
  -- log files have the same name and the data of each record fits the length field.
  pub read_all-run_calls :
      (es : List DirEntry) (w : LogDir) (rs : List LogRecord) (cs : List LogCall)
      → Apart (log_names es)
      → open_wal (some es) ≡ some w
      → read_all crc w ≡ records rs
      → WritesFit cs
      → (w' : LogDir) × ((run_calls w cs ≡ some w')
          × (read_all crc w' ≡ records (rs ++ written cs)))
  read_all-run_calls es w rs cs apart e h fit =
      run_calls_all cs w rs (open_wal-IsReady es w apart e) fit h
