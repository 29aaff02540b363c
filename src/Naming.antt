-- ===== src/Naming.antt =====
-- The registry of services in client/naming.go, on the interface KVStore of client/interface.go.
pub mod Keys
pub mod Calls
pub mod Registered
pub mod Services
mod Examples
use fir_etcd.Prelude.{
  if◌then◌else◌, ◌>>=◌, ℤ, pos, Bytes, ℕ, Bool, false, Option, none, some, List, [], ◌∷◌, ◌++◌,
}

-- The operations of KVStore that the registries use, without a law: the client of the repository is one,
-- and so is any other. `put` also tells whether it succeeds, and `none` is an error. A time to live is in
-- milliseconds.
pub record KvStore : Type 1 where
  pub S : Type 0
  pub put : S → Bytes → Bytes → ℤ → S × Bool
  pub get : S → Bytes → Option Bytes
  pub get_with_prefix : S → Bytes → Option (List Bytes)
  pub lease_grant : S → ℤ → S × Option ℤ
  pub lease_revoke : S → ℤ → S
  pub lease_time_to_live : S → ℤ → Option ℤ

pub record Node : Type 0 where
  pub name : Bytes
  pub app_id : Bytes
  pub port : Bytes
  pub ips : List Bytes
  pub location : Bytes
  pub connect : ℤ
  pub weight : ℤ
  pub env : Bytes
  pub meta_date : List (Bytes × Bytes)

abbrev pub slash : ℕ
slash = 47

abbrev pub colon : ℕ
colon = 58

-- The string "/%s/%s/" of GetNode, also the first part of the keys.
unfoldable pub prefix_key : Bytes → Bytes → Bytes
prefix_key env app_name = slash ∷ (env ++ slash ∷ (app_name ++ slash ∷ []))

-- "/%s/%s/%s:%s"
unfoldable pub node_key : Node → Bytes
node_key n = slash ∷ (n.env ++ slash ∷ (n.app_id ++ slash ∷ (n.name ++ colon ∷ n.port)))

-- "default"
abbrev pub default : Bytes
default = 100 ∷ 101 ∷ 102 ∷ 97 ∷ 117 ∷ 108 ∷ 116 ∷ []

-- "localhost"
abbrev pub localhost : Bytes
localhost = 108 ∷ 111 ∷ 99 ∷ 97 ∷ 108 ∷ 104 ∷ 111 ∷ 115 ∷ 116 ∷ []

-- The node that Register stores.
unfoldable pub registered_node : Bytes → Bytes → Bytes → List (Bytes × Bytes) → Node
registered_node service_name service_id endpoint metadata = record {
  name = service_id;
  app_id = service_name;
  port = endpoint;
  ips = localhost ∷ [];
  location = default;
  connect = pos 0;
  weight = pos 1;
  env = default;
  meta_date = metadata;
}

-- The key "/%s/%s/%s" of Deregister.
unfoldable pub deregister_key : Bytes → Bytes → Bytes
deregister_key service_name service_id =
    slash ∷ (default ++ slash ∷ (service_name ++ slash ∷ service_id))

-- `marshal` and `unmarshal` are the JSON encoding of a node.
module _ (ck : KvStore) (marshal : Node → Bytes) (unmarshal : Bytes → Option Node) where
  unfoldable pub set_node : ck.S → Node → ℤ → ck.S × Bool
  unfolding node_key
  set_node s n ttl = ck.put s (node_key n) (marshal n) ttl

  -- The lease is kept alive afterwards in the background. `none` is an error.
  unfoldable pub set_node_with_lease : ck.S → Node → ℤ → ck.S × Option ℤ
  unfolding node_key
  set_node_with_lease s n ttl = elim (ck.lease_grant s ttl).1 [
    | none ↦ ((ck.lease_grant s ttl).0, none)
    | some lease_id ↦
        let stored = ck.put (ck.lease_grant s ttl).0 (node_key n) (marshal n) (pos 0) in
        if stored.1 then (stored.0, some lease_id) else (ck.lease_revoke stored.0 lease_id, none)
  ]

  -- The nodes of the values that decode.
  unfoldable pub decode_nodes : List Bytes → List Node
  decode_nodes [] = []
  decode_nodes (v ∷ vs) = elim (unmarshal v) [
    | none ↦ decode_nodes vs
    | some n ↦ n ∷ decode_nodes vs
  ]

  unfoldable pub get_node : ck.S → Bytes → Bytes → Option (List Node)
  unfolding prefix_key decode_nodes
  get_node s app_name env =
      ck.get_with_prefix s (prefix_key env app_name) >>= λ datas. some (decode_nodes datas)

  -- Register of ServiceRegistry.
  unfoldable pub register_service :
      ck.S → Bytes → Bytes → Bytes → ℤ → List (Bytes × Bytes) → ck.S × Option ℤ
  unfolding registered_node set_node_with_lease
  register_service s service_name service_id endpoint ttl metadata =
      set_node_with_lease s (registered_node service_name service_id endpoint metadata) ttl

  -- Deregister of ServiceRegistry; the Boolean tells whether it succeeds.
  unfoldable pub deregister_service : ck.S → Bytes → Bytes → ck.S × Bool
  unfolding deregister_key
  deregister_service s service_name service_id =
      elim (ck.get s (deregister_key service_name service_id)) [
        | none ↦ (s, false)
        | some v ↦ ck.put s (deregister_key service_name service_id) [] (pos 0)
      ]
