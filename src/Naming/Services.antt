-- ===== src/Naming/Services.antt =====
-- ServiceRegistryV3, ServiceDiscoveryV3 and LoadBalancer of client/service_discovery.go.
pub mod Laws
pub mod Registered
use fir_etcd.Prelude.{
  if◌then◌else◌, ◌>>=◌, length, get_elem?, ℤ, pos, ltb_ℤ, Bytes, int_key, bytes_key, Map, lookup,
  insert, ℕ, ◌%◌, Bool, true, false, Option, none, some, List, [], ◌∷◌, ◌++◌,
}
use fir_etcd.Naming.{KvStore, slash}

pub record ServiceInfo : Type 0 where
  pub id : Bytes
  pub name : Bytes
  pub endpoint : Bytes
  pub version : Bytes
  pub metadata : Map Bytes Bytes
  pub ttl : ℤ
  pub lease_id : ℤ

-- "/services/"
abbrev pub services_dir : Bytes
services_dir = 47 ∷ 115 ∷ 101 ∷ 114 ∷ 118 ∷ 105 ∷ 99 ∷ 101 ∷ 115 ∷ 47 ∷ []

-- "version"
abbrev pub version_key : Bytes
version_key = 118 ∷ 101 ∷ 114 ∷ 115 ∷ 105 ∷ 111 ∷ 110 ∷ []

-- "/services/%s/"
unfoldable pub services_prefix : Bytes → Bytes
services_prefix service_name = services_dir ++ (service_name ++ slash ∷ [])

-- "/services/%s/%s"
unfoldable pub service_key : Bytes → Bytes → Bytes
service_key service_name service_id = services_dir ++ (service_name ++ slash ∷ service_id)

-- metadata["version"]
abbrev pub version_of : Map Bytes Bytes → Bytes
version_of metadata = elim (lookup metadata version_key) [ none ↦ [] | some v ↦ v ]

unfoldable pub service_info :
    Bytes → Bytes → Bytes → (ttl lease_id : ℤ) → Map Bytes Bytes → ServiceInfo
service_info service_name service_id endpoint ttl lease_id metadata = record {
  id = service_id;
  name = service_name;
  endpoint = endpoint;
  version = version_of metadata;
  metadata = metadata;
  ttl = ttl;
  lease_id = lease_id;
}

-- `marshal` and `unmarshal` are the JSON encoding; `none` is an error, also of the operations.
module _ (ck : KvStore) (marshal : ServiceInfo → Option Bytes)
    (unmarshal : Bytes → Option ServiceInfo) where
  -- The end of Register; a lease whose service is not stored is revoked.
  unfoldable pub store_service : ck.S → Bytes → ServiceInfo → ck.S × Option ℤ
  store_service s key info = elim (marshal info) [
    | none ↦ (ck.lease_revoke s info.lease_id, none)
    | some bytes ↦
        let stored = ck.put s key bytes (pos 0) in
        if stored.1
        then (stored.0, some info.lease_id)
        else (ck.lease_revoke stored.0 info.lease_id, none)
  ]

  unfoldable pub register_instance :
      ck.S → Bytes → Bytes → Bytes → ℤ → Map Bytes Bytes → ck.S × Option ℤ
  unfolding store_service service_info service_key
  register_instance s service_name service_id endpoint ttl metadata =
      elim (ck.lease_grant s ttl).1 [
        | none ↦ ((ck.lease_grant s ttl).0, none)
        | some lease_id ↦
            store_service (ck.lease_grant s ttl).0 (service_key service_name service_id)
              (service_info service_name service_id endpoint ttl lease_id metadata)
      ]

  unfoldable pub register_with_lease :
      ck.S → Bytes → Bytes → Bytes → ℤ → Map Bytes Bytes → ck.S × Bool
  unfolding service_info service_key
  register_with_lease s service_name service_id endpoint lease_id metadata =
      elim (marshal (service_info service_name service_id endpoint (pos 0) lease_id metadata)) [
        | none ↦ (s, false)
        | some bytes ↦ ck.put s (service_key service_name service_id) bytes (pos 0)
      ]

  -- The end of Deregister, once the service is read.
  unfoldable pub remove_service : ck.S → Bytes → ServiceInfo → ck.S × Bool
  remove_service s key info =
      let cleared = ck.put s key [] (pos 0) in
      if cleared.1
      then (
        if ltb_ℤ (pos 0) info.lease_id then ck.lease_revoke cleared.0 info.lease_id else cleared.0,
        true,
      )
      else (cleared.0, false)

  unfoldable pub deregister_instance : ck.S → Bytes → Bytes → ck.S × Bool
  unfolding remove_service service_key
  deregister_instance s service_name service_id =
      elim (ck.get s (service_key service_name service_id) >>= unmarshal) [
        | none ↦ (s, false)
        | some info ↦ remove_service s (service_key service_name service_id) info
      ]

  -- The time that the lease has left goes into the service.
  unfoldable pub with_ttl : ck.S → ServiceInfo → ServiceInfo
  with_ttl s info =
      if ltb_ℤ (pos 0) info.lease_id
      then elim (ck.lease_time_to_live s info.lease_id) [
        | none ↦ info
        | some ttl ↦ record info { ttl = ttl }
      ]
      else info

  abbrev pub decode_value : Bytes → Option ServiceInfo
  decode_value [] = none
  decode_value (b ∷ bytes) = unmarshal (b ∷ bytes)

  -- The loop of Get. Empty values and those that do not decode are passed over.
  unfoldable pub decode_services : ck.S → List Bytes → List ServiceInfo
  unfolding with_ttl
  decode_services s [] = []
  decode_services s (v ∷ vs) = elim (decode_value v) [
    | none ↦ decode_services s vs
    | some info ↦ with_ttl s info ∷ decode_services s vs
  ]

  unfoldable pub get_services : ck.S → Bytes → Option (List ServiceInfo)
  unfolding decode_services services_prefix
  get_services s service_name = ck.get_with_prefix s (services_prefix service_name) >>= λ datas.
      some (decode_services s datas)

  unfoldable pub is_healthy : ck.S → ServiceInfo → Bool
  is_healthy s info =
      if ltb_ℤ (pos 0) info.lease_id
      then elim (ck.lease_time_to_live s info.lease_id) [
        | none ↦ false
        | some ttl ↦ ltb_ℤ (pos 0) ttl
      ]
      else false

  -- The loop of HealthCheck, which fills a map: a later service with the same id overwrites the earlier.
  unfoldable pub health_of : ck.S → Map Bytes Bool → List ServiceInfo → Map Bytes Bool
  unfolding is_healthy
  health_of s health [] = health
  health_of s health (info ∷ infos) = health_of s (insert health info.id (is_healthy s info)) infos

  unfoldable pub health_check : ck.S → Bytes → Option (Map Bytes Bool)
  unfolding get_services health_of
  health_check s service_name =
      get_services s service_name >>= λ services. some (health_of s [] services)

  -- GetInstance at the time `now` in nanoseconds.
  unfoldable pub get_instance : ck.S → Bytes → ℕ → Option ServiceInfo
  unfolding get_services
  get_instance s service_name now =
      get_services s service_name >>= λ services. get_elem? services (now % length services)
