-- ===== src/Naming/Examples.antt =====
-- A service in a store that can write but not read. A service is encoded by its id.

use fir_etcd.Prelude.{ltb, pos, Bytes, ℕ, ◌+◌, Option, none, some, [], ◌∷◌}
use fir_etcd.Naming.{KvStore, Node}
use fir_etcd.Naming.Services.{ServiceInfo}

abbrev api : Bytes
api = 97 ∷ 112 ∷ 105 ∷ []

abbrev an_id : Bytes
an_id = 49 ∷ []

abbrev a_port : Bytes
a_port = 56 ∷ 48 ∷ []

-- It counts the leases that it grants, and it refuses to write once it has granted two.
abbrev write_only : KvStore
write_only = record {
  S = ℕ;
  put = λ s k v ttl. (s, ltb s 2);
  get = λ s k. none;
  get_with_prefix = λ s p. none;
  lease_grant = λ s ttl. (s + 1, some (pos (s + 1)));
  lease_revoke = λ s id. s;
  lease_time_to_live = λ s id. none;
}

abbrev by_name : Node → Bytes
by_name n = n.name

abbrev no_node : Bytes → Option Node
no_node v = none

abbrev as_bytes : ServiceInfo → Option Bytes
as_bytes info = some (0 ∷ info.id)

abbrev no_info : Bytes → Option ServiceInfo
no_info v = none
