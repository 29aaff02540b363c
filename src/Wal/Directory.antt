-- ===== src/Wal/Directory.antt =====
-- The directory of log files, pkg/wal/wal.go: Create, Open, Write, ReadAll, Truncate, Close, Size and
-- listLogFiles. The calls of the file system succeed, but for the opening of a file in a directory
-- that is not there or under the name of a directory.
pub mod Names
pub mod Appends
pub mod Ready
pub mod Restart
use fir_etcd.Prelude.{
  ltb, leb, ◌==◌, if◌then◌else◌, length, drop, Bytes, bytes_equal, ℕ, zero, suc, ◌+◌, ◌-◌, ◌*◌, ◌/◌,
  ◌%◌, Bool, true, false, not, ◌&&◌, ◌||◌, Option, none, some, List, [], ◌∷◌, ◌++◌,
}
use fir_etcd.Wal.{LogRecord, FileResult, records, broken, no_fuel, with_records, encode, read_file}

-- An entry of a directory; a directory has no content here.
pub record DirEntry : Type 0 where
  pub name : Bytes
  pub is_dir : Bool
  pub content : Bytes

-- A WAL with the directory that it is in: the name of its open file, whether that file is still in
-- the directory, and whether the writer is there.
pub record LogDir : Type 0 where
  pub file : Bytes
  pub seq : ℕ
  pub linked : Bool
  pub is_open : Bool
  pub files : List DirEntry

-- a < b on strings
unfoldable pub string_ltb : Bytes → Bytes → Bool
string_ltb [] [] = false
string_ltb [] (y ∷ b) = true
string_ltb (x ∷ a) [] = false
string_ltb (x ∷ a) (y ∷ b) = if ltb x y then true else if x == y then string_ltb a b else false

unfoldable pub insert_string : Bytes → List Bytes → List Bytes
insert_string n [] = n ∷ []
insert_string n (m ∷ ms) =
    let rest = insert_string n ms in if string_ltb m n then m ∷ rest else n ∷ m ∷ ms

-- sort.Strings
unfoldable pub sort_strings : List Bytes → List Bytes
sort_strings [] = []
sort_strings (n ∷ ns) = insert_string n (sort_strings ns)

-- ".wal"
abbrev pub suffix : Bytes
suffix = 46 ∷ 119 ∷ 97 ∷ 108 ∷ []

-- strings.HasSuffix
unfoldable pub has_suffix : Bytes → Bytes → Bool
has_suffix s t = leb (length t) (length s) && bytes_equal (drop (length s - length t) s) t

-- The log files as os.ReadDir gives them.
unfoldable pub log_names : List DirEntry → List Bytes
log_names [] = []
log_names (e ∷ es) =
    let rest = log_names es in
    if not e.is_dir && has_suffix e.name suffix then e.name ∷ rest else rest

unfoldable pub list_log_files : List DirEntry → List Bytes
list_log_files es = sort_strings (log_names es)

abbrev pub hex_digit : ℕ → ℕ
hex_digit d = if ltb d 10 then 48 + d else 87 + d

unfoldable pub hex : ℕ → ℕ → Bytes
hex zero n = []
hex (suc k) n = hex k (n / 16) ++ hex_digit (n % 16) ∷ []

-- fmt.Sprintf("%016x.wal", seq)
unfoldable pub log_name : ℕ → Bytes
log_name seq = hex 16 seq ++ suffix

abbrev pub hex_value : ℕ → Option ℕ
hex_value c =
    if leb 48 c && leb c 57
    then some (c - 48)
    else if leb 97 c && leb c 102
    then some (c - 87)
    else if leb 65 c && leb c 70
    then some (c - 55)
    else none

-- The digits at the start of a name that does not begin with a space.
unfoldable pub scan_digits : ℕ → Bytes → ℕ
scan_digits acc [] = acc
scan_digits acc (c ∷ cs) = elim (hex_value c) [
  | none ↦ acc
  | some v ↦ scan_digits (acc * 16 + v) cs
]

-- fmt.Sscanf(name, "%x.wal", &seq): `seq` keeps its value when there is no digit or the number has
-- more than 64 bits.
unfoldable pub scan_seq : Bytes → ℕ → ℕ
scan_seq [] seq = seq
scan_seq (c ∷ cs) seq = elim (hex_value c) [
  | none ↦ seq
  | some v ↦ if ltb (scan_digits v cs) 18446744073709551616 then scan_digits v cs else seq
]

abbrev pub last_name : List Bytes → Option Bytes
last_name [] = none
last_name (n ∷ []) = some n
last_name (n ∷ m ∷ ms) = last_name (m ∷ ms)

unfoldable pub has_dir : Bytes → List DirEntry → Bool
has_dir n [] = false
has_dir n (e ∷ es) = (e.is_dir && bytes_equal e.name n) || has_dir n es

-- newLogFile, which is called when there is no log file.
unfoldable pub new_log_file : List DirEntry → ℕ → Option LogDir
new_log_file es seq =
    if has_dir (log_name seq) es
    then none
    else some (record {
      file = log_name seq;
      seq = seq;
      linked = true;
      is_open = true;
      files = es ++ record { name = log_name seq; is_dir = false; content = [] } ∷ [];
    })

-- Open; the directory is none when it is not there.
unfoldable pub open_wal : Option (List DirEntry) → Option LogDir
open_wal none = none
open_wal (some es) = elim (last_name (list_log_files es)) [
  | none ↦ new_log_file es 1
  | some n ↦
      some (record { file = n; seq = scan_seq n 0; linked = true; is_open = true; files = es })
]

unfoldable pub create_wal : Option (List DirEntry) → Option LogDir
unfolding open_wal
create_wal none = open_wal (some [])
create_wal (some es) = open_wal (some es)

unfoldable pub append_to : Bytes → Bytes → List DirEntry → List DirEntry
append_to n bs [] = []
append_to n bs (e ∷ es) =
    (if bytes_equal n e.name then record e { content = e.content ++ bs } else e) ∷ append_to n bs es

unfoldable pub content_of : List DirEntry → Bytes → Bytes
content_of [] n = []
content_of (e ∷ es) n =
    let rest = content_of es n in if bytes_equal n e.name then e.content else rest

abbrev pub behind : FileResult → FileResult → FileResult
behind (records rs) f = with_records rs f
behind (broken e) f = broken e
behind no_fuel f = no_fuel

module _ (crc : Bytes → ℕ) where
  -- Write; none is ErrClosed.
  unfoldable pub write_record : LogDir → LogRecord → Option LogDir
  write_record w r =
      if w.is_open
      then some
          (if w.linked then record w { files = append_to w.file (encode crc r) w.files } else w)
      else none

  -- The loop of ReadAll over the files.
  unfoldable pub read_files : List Bytes → List DirEntry → FileResult
  read_files [] es = records []
  read_files (n ∷ ns) es = behind (read_file crc (content_of es n)) (read_files ns es)

  unfoldable pub read_all : LogDir → FileResult
  read_all w = read_files (list_log_files w.files) w.files

-- os.Remove
unfoldable pub remove_name : Bytes → List DirEntry → List DirEntry
remove_name n [] = []
remove_name n (e ∷ es) =
    let rest = remove_name n es in if bytes_equal n e.name then rest else e ∷ rest

unfoldable pub has_name : Bytes → List DirEntry → Bool
has_name n [] = false
has_name n (e ∷ es) = bytes_equal n e.name || has_name n es

-- The loop of Truncate; a name that cannot be read keeps the number of the name before.
unfoldable pub remove_up_to : ℕ → ℕ → List Bytes → List DirEntry → List DirEntry
remove_up_to seq last [] es = es
remove_up_to seq last (n ∷ ns) es =
    let s = scan_seq n seq in remove_up_to s last ns (if leb s last then remove_name n es else es)

unfoldable pub truncate_logs : LogDir → ℕ → LogDir
truncate_logs w last =
    let left = remove_up_to 0 last (list_log_files w.files) w.files in
    record w { files = left; linked = w.linked && has_name w.file left }

unfoldable pub close_wal : LogDir → LogDir
close_wal w = record w { is_open = false }

unfoldable pub size_of : List Bytes → List DirEntry → ℕ
size_of [] es = 0
size_of (n ∷ ns) es = length (content_of es n) + size_of ns es

unfoldable pub size : LogDir → ℕ
size w = size_of (list_log_files w.files) w.files
