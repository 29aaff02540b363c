-- ===== src/Naming/Services/Registered.antt =====
-- What Register of client/service_discovery.go does to any KVStore.
use fir_etcd.Prelude.{ℤ, Bytes, Map, Option, none, some}
use fir_etcd.Naming.{KvStore}
use fir_etcd.Naming.Services.{ServiceInfo, service_info}

module _ (ck : KvStore) (marshal : ServiceInfo → Option Bytes)
    (unmarshal : Bytes → Option ServiceInfo) where
  abbrev own_text : Bytes → Bytes → Bytes → ℤ → Map Bytes Bytes → Option ℤ → Option Bytes
  own_text service_name service_id endpoint ttl metadata none = none
  own_text service_name service_id endpoint ttl metadata (some id) =
      marshal (service_info service_name service_id endpoint ttl id metadata)
