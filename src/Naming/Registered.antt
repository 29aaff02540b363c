-- ===== src/Naming/Registered.antt =====
-- What Register and Deregister of client/naming.go do to any KVStore.
use fir_etcd.Prelude.{
  Bool-cases, Option-cases, ℤ, pos, Bytes, ◌≡◌, refl, sym, ap, subst, inl, inr, true, false, Option,
  none, some, List, [], ◌∷◌,
}
use fir_etcd.Naming.{
  KvStore, Node, node_key, registered_node, set_node_with_lease, register_service,
}
use fir_etcd.Naming.Calls.{
  KvCall, put_call, grant_call, revoke_call, logged, IsAllOrNothing, revoked_at_once,
}

module _ (ck : KvStore) (marshal : Node → Bytes) (unmarshal : Bytes → Option Node) where
  -- Register stores the node under its key and returns the lease that it leaves, or it returns an error
  -- with nothing stored and a revoke asked for each lease that it was granted, whatever the store does.
  pub register_service-IsAllOrNothing :
      (s : ck.S) (service_name service_id endpoint : Bytes) (ttl : ℤ)
      (metadata : List (Bytes × Bytes))
      → let r =
          register_service
            (logged ck)
            marshal
            unmarshal
            (s, [])
            service_name
            service_id
            endpoint
            ttl
            metadata in
        let n = registered_node service_name service_id endpoint metadata in
        IsAllOrNothing r.0.1 r.1 (node_key n) (some (marshal n))
  unfolding register_service set_node_with_lease
  register_service-IsAllOrNothing s service_name service_id endpoint ttl metadata =
      let n : Node = registered_node service_name service_id endpoint metadata in
      let P : (ck.S × List KvCall) × Option ℤ → Type 0 =
        λ r. IsAllOrNothing r.0.1 r.1 (node_key n) (some (marshal n)) in
      let t : ck.S = (ck.lease_grant s ttl).0 in
      let put = ck.put t (node_key n) (marshal n) (pos 0) in
      elim (Option-cases (ck.lease_grant s ttl).1) [
        | inl e ↦
            let refused : register_service (logged ck) marshal unmarshal (s, []) service_name
                  service_id endpoint ttl metadata
                ≡ ((t, grant_call none ∷ []), none) =
              rw (register_service, set_node_with_lease, e)
                (ap (λ x. ((t, grant_call x ∷ []), none)) e) in
            subst P (sym refused) (refl, refl)
        | inr (id, e) ↦ elim (Bool-cases put.1) [
          | inl ok ↦
              let done : register_service (logged ck) marshal unmarshal (s, []) service_name
                    service_id endpoint ttl metadata
                  ≡ (
                    (put.0, grant_call (some id) ∷ put_call (node_key n) (marshal n) true ∷ []),
                    some id,
                  ) =
                rw (register_service, set_node_with_lease, e, ok)
                  (ap
                    (λ x. (
                      (put.0, grant_call x ∷ put_call (node_key n) (marshal n) true ∷ []),
                      some id,
                    ))
                    e) in
              subst P (sym done) (marshal n, refl, refl, refl)
          | inr ok ↦
              let undone : register_service (logged ck) marshal unmarshal (s, []) service_name
                    service_id endpoint ttl metadata
                  ≡ (
                    (
                      ck.lease_revoke put.0 id,
                      grant_call (some id)
                          ∷ put_call (node_key n) (marshal n) false
                          ∷ revoke_call id
                          ∷ [],
                    ),
                    none,
                  ) =
                rw (register_service, set_node_with_lease, e, ok)
                  (ap
                    (λ x. (
                      (
                        ck.lease_revoke put.0 id,
                        grant_call x
                            ∷ put_call (node_key n) (marshal n) false
                            ∷ revoke_call id
                            ∷ [],
                      ),
                      none,
                    ))
                    e) in
              subst P (sym undone) (refl, revoked_at_once id)
        ]
      ]
