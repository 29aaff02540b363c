-- ===== src/Store/Examples.antt =====
-- The operations of the database on a bucket in memory.

use fir_etcd.Prelude.{take, int_key, bytes_key, ◌*◌, ◌≡◌, some}
use fir_etcd.Store.Bolt.Pages.{first_pages, first_pages-eq}
use fir_etcd.Store.Memory.{sorted, memory, some_pairs}

first_pages-eq_example : first_pages memory some_pairs 2 1 ≡ some (take (1 * 2) (sorted some_pairs))
first_pages-eq_example = first_pages-eq memory some_pairs 2 1
