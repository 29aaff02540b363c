-- ===== src/Wal/Directory/Ready.antt =====
-- What Open leaves.

use fir_etcd.Prelude.{
  Bool-cases, Option-cases, Bytes, ◌≡◌, refl, subst, ◌≢◌, inl, inr, true, false, not, ◌&&◌, none,
  some, List, [], ◌∷◌, ◌++◌, arith,
}
use fir_etcd.Wal.Directory.{
  DirEntry, LogDir, insert_string, sort_strings, suffix, has_suffix, log_names, list_log_files, hex,
  log_name, last_name, has_dir, new_log_file, open_wal,
}
use fir_etcd.Wal.Directory.Names.{Apart, Apart-sort_strings}

-- The log is open on the last of its files, and no two of them have the same name.
pub record IsReady (w : LogDir) : Type 0 where
  pub opened : w.is_open ≡ true
  pub listed : w.linked ≡ true
  pub ends : last_name (list_log_files w.files) ≡ some w.file
  pub apart : Apart (list_log_files w.files)

insert_string-ne : (n : Bytes) (ms : List Bytes) → insert_string n ms ≢ []
unfolding insert_string
insert_string-ne n [] e = cc
insert_string-ne n (m ∷ ms) e = ground (arith, e)

last_name-none : (ns : List Bytes) → last_name ns ≡ none → ns ≡ []
last_name-none [] e = refl
last_name-none (n ∷ []) e = cc
last_name-none (n ∷ m ∷ ms) e = let rest = last_name-none (m ∷ ms) e in cc

sort_strings_nil : (ns : List Bytes) → sort_strings ns ≡ [] → ns ≡ []
unfolding sort_strings
sort_strings_nil [] h = refl
sort_strings_nil (n ∷ ns) h = absurd (insert_string-ne n (sort_strings ns) h)

no_logs : (es : List DirEntry) → last_name (list_log_files es) ≡ none → log_names es ≡ []
unfolding list_log_files
no_logs es e = sort_strings_nil (log_names es) (last_name-none (list_log_files es) e)

log_names-append : (es ds : List DirEntry) → log_names (es ++ ds) ≡ log_names es ++ log_names ds
unfolding log_names
log_names-append [] ds = refl
log_names-append (e ∷ es) ds = elim (Bool-cases (not e.is_dir && has_suffix e.name suffix)) [
  | inl c ↦ rw (c, log_names-append es ds) refl
  | inr c ↦ rw (c, log_names-append es ds) refl
]

abbrev first_file : DirEntry
first_file = record { name = log_name 1; is_dir = false; content = [] }

with_first :
    (es : List DirEntry)
    → log_names es ≡ []
    → list_log_files (es ++ first_file ∷ []) ≡ log_name 1 ∷ []
unfolding list_log_files log_names sort_strings insert_string has_suffix log_name hex
with_first es h = rw (log_names-append es (first_file ∷ []), h) refl

list_log_files-Apart : (es : List DirEntry) → Apart (log_names es) → Apart (list_log_files es)
unfolding list_log_files
list_log_files-Apart es h = Apart-sort_strings (log_names es) h

same_log : (v w : LogDir) → some v ≡ some w → v ≡ w
same_log v w e = cc

new_log_file-IsReady :
    (es : List DirEntry) (w : LogDir) → log_names es ≡ [] → new_log_file es 1 ≡ some w → IsReady w
unfolding new_log_file
new_log_file-IsReady es w h e = elim (Bool-cases (has_dir (log_name 1) es)) [
  | inl c ↦ cc (rw c at e)
  | inr c ↦ subst IsReady (same_log _ w (rw c at e)) (record {
    opened = refl;
    listed = refl;
    ends = rw (with_first es h) refl;
    apart = rw (with_first es h) (tt, tt);
  })
]

-- An Open of a directory whose log files have different names.
pub open_wal-IsReady :
    (es : List DirEntry) (w : LogDir)
    → Apart (log_names es)
    → open_wal (some es) ≡ some w
    → IsReady w
unfolding open_wal
open_wal-IsReady es w apart e = elim (Option-cases (last_name (list_log_files es))) [
  | inl h ↦ new_log_file-IsReady es w (no_logs es h) (rw (open_wal, h) at e)
  | inr (n, h) ↦
      subst IsReady (same_log _ w (rw (open_wal, h) at e))
        (record { opened = refl; listed = refl; ends = h; apart = list_log_files-Apart es apart })
]
