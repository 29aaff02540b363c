-- ===== src/Naming/Keys.antt =====
-- The keys of nodes and the prefixes of services.
use fir_etcd.Prelude.{
  Bytes, bytes_equal, has_prefix, ◌≡◌, refl, ap₂, ◌∙◌, ◌≢◌, true, false, List, [], ◌∷◌, ◌++◌, arith,
}
use fir_etcd.Naming.{Node, slash, colon, prefix_key, node_key, registered_node, deregister_key}

abbrev pub NoSlash : Bytes → Type 0
NoSlash [] = Unit {0}
NoSlash (c ∷ cs) = (c ≢ slash) × NoSlash cs

-- A segment up to the next slash is read in one way only.
segment :
    (a b as' bs' : Bytes)
    → NoSlash a
    → NoSlash b
    → has_prefix (a ++ slash ∷ as') (b ++ slash ∷ bs') ≡ true
    → (a ≡ b) × (has_prefix as' bs' ≡ true)
segment [] [] as' bs' na nb h = (refl, h)
segment [] (d ∷ b) as' bs' na nb h = absurd (ground (arith, nb.0))
segment (c ∷ a) [] as' bs' na nb h = absurd (ground (arith, na.0))
segment (c ∷ a) (d ∷ b) as' bs' na nb h =
    let parts : (c ≡ d) × (has_prefix (a ++ slash ∷ as') (b ++ slash ∷ bs') ≡ true) =
      ground arith in
    let rest : (a ≡ b) × (has_prefix as' bs' ≡ true) = segment a b as' bs' na.1 nb.1 parts.1 in
    (ap₂ (λ x y. x ∷ y) parts.0 rest.0, rest.1)

-- The prefix under which GetNode looks for the nodes of a service in an environment matches the key of a
-- node only if the node is of that service and environment, when none of these names holds a slash.
pub has_prefix-node_key :
    (n : Node) (env app_name : Bytes)
    → NoSlash n.env
    → NoSlash n.app_id
    → NoSlash env
    → NoSlash app_name
    → has_prefix (node_key n) (prefix_key env app_name) ≡ true
    → (n.env ≡ env) × (n.app_id ≡ app_name)
unfolding node_key prefix_key
has_prefix-node_key n env app_name ne na he ha h =
    let first : (n.env ≡ env)
        × (has_prefix (n.app_id ++ slash ∷ (n.name ++ colon ∷ n.port)) (app_name ++ slash ∷ [])
            ≡ true) =
      segment n.env env (n.app_id ++ slash ∷ (n.name ++ colon ∷ n.port)) (app_name ++ slash ∷ []) ne
        he h in
    (first.0, (segment n.app_id app_name (n.name ++ colon ∷ n.port) [] na ha first.1).0)

has_prefix-same : (a x y : Bytes) → has_prefix (a ++ x) (a ++ y) ≡ has_prefix x y
has_prefix-same [] x y = refl
has_prefix-same (c ∷ a) x y = ground (arith, has_prefix-same a x y)

node_key-own : (n : Node) → has_prefix (node_key n) (prefix_key n.env n.app_id) ≡ true
unfolding node_key prefix_key
node_key-own n =
    has_prefix-same n.env (slash ∷ (n.app_id ++ slash ∷ (n.name ++ colon ∷ n.port)))
      (slash ∷ (n.app_id ++ slash ∷ []))
    ∙ has_prefix-same n.app_id (slash ∷ (n.name ++ colon ∷ n.port)) (slash ∷ [])

bytes_equal-same : (a x y : Bytes) → bytes_equal (a ++ x) (a ++ y) ≡ bytes_equal x y
bytes_equal-same [] x y = refl
bytes_equal-same (c ∷ a) x y = ground (arith, bytes_equal-same a x y)

bytes_equal-longer : (xs ys : Bytes) → bytes_equal xs (xs ++ colon ∷ ys) ≡ false
bytes_equal-longer [] ys = refl
bytes_equal-longer (x ∷ xs) ys = ground (arith, bytes_equal-longer xs ys)

-- Deregister writes another key than Register.
pub deregister_key-other :
    (service_name service_id endpoint : Bytes) (metadata : List (Bytes × Bytes))
    → bytes_equal
        (deregister_key service_name service_id)
        (node_key (registered_node service_name service_id endpoint metadata))
      ≡ false
unfolding deregister_key node_key registered_node
deregister_key-other service_name service_id endpoint metadata =
    bytes_equal-same service_name (slash ∷ service_id) (slash ∷ (service_id ++ colon ∷ endpoint))
    ∙ bytes_equal-longer service_id endpoint
