-- ===== src/Naming/Services/Laws.antt =====
-- What a client of the service discovery finds.

use fir_etcd.Prelude.{
  Option-cases, length, get_elem?, get_elem?_lt, Bytes, int_key, bytes_key, Map, lookup, insert,
  lookup-insert_cases, ℕ, zero, suc, ◌%◌, ◌<◌, ◌≡◌, sym, subst, ◌⊎◌, inl, inr, Bool, true, Option,
  some, List, [], ◌∷◌, arith,
}
use fir_etcd.Naming.{KvStore}
use fir_etcd.Naming.Services.{
  ServiceInfo, get_services, is_healthy, health_of, health_check, get_instance,
}

abbrev pub Has : {A : Type 0} → A → List A → Type 0
Has a [] = ⊥
Has a (x ∷ xs) = (x ≡ a) ⊎ Has a xs

Has-get : {A : Type 0} (xs : List A) (i : ℕ) (a : A) → get_elem? xs i ≡ some a → Has a xs
Has-get [] i a h = cc
Has-get (x ∷ xs) zero a h = inl (ground (arith, h))
Has-get (x ∷ xs) (suc i) a h = inr (Has-get xs i a h)

-- Some service with the id is alive.
abbrev pub SomeAlive : (ServiceInfo → Bool) → Bytes → List ServiceInfo → Type 0
SomeAlive healthy id [] = ⊥
SomeAlive healthy id (info ∷ infos) =
    ((info.id ≡ id) × (healthy info ≡ true)) ⊎ SomeAlive healthy id infos

module _ (ck : KvStore) (marshal : ServiceInfo → Option Bytes)
    (unmarshal : Bytes → Option ServiceInfo) where
  -- GetInstance picks one of the services that Get finds, whatever the time is, if there is one.
  pub get_instance-Has :
      (s : ck.S) (service_name : Bytes) (now : ℕ) (services : List ServiceInfo)
      → get_services ck marshal unmarshal s service_name ≡ some services
      → 0 < length services
      → (info : ServiceInfo) × (get_instance ck marshal unmarshal s service_name now ≡ some info)
        × Has info services
  unfolding get_instance
  get_instance-Has s service_name now services e lo =
      let (info, at_index) = get_elem?_lt services (now % length services) (omega arith) in
      (info, rw e at_index, Has-get services (now % length services) info at_index)

  health_of-SomeAlive :
      (s : ck.S) (infos : List ServiceInfo) (health : Map Bytes Bool) (id : Bytes)
      → lookup (health_of ck marshal unmarshal s health infos) id ≡ some true
      → SomeAlive (is_healthy ck marshal unmarshal s) id infos ⊎ (lookup health id ≡ some true)
  unfolding health_of
  health_of-SomeAlive s [] health id h = inr h
  health_of-SomeAlive s (info ∷ infos) health id h =
      elim (health_of-SomeAlive s infos
        (insert health info.id (is_healthy ck marshal unmarshal s info)) id h) [
          | inl some_alive ↦ inl (inr some_alive)
          | inr old ↦ elim (lookup-insert_cases health info.id id _ true old) [
            | inl alive ↦ inl (inl alive)
            | inr older ↦ inr older
          ]
        ]

  -- HealthCheck calls an id healthy only if Get finds a service with that id whose lease has time
  -- left.
  pub health_check-SomeAlive :
      (s : ck.S) (service_name id : Bytes) (health : Map Bytes Bool)
      → health_check ck marshal unmarshal s service_name ≡ some health
      → lookup health id ≡ some true
      → (services : List ServiceInfo) × (get_services ck marshal unmarshal s service_name
          ≡ some services)
        × SomeAlive (is_healthy ck marshal unmarshal s) id services
  unfolding health_check
  health_check-SomeAlive s service_name id health h alive =
      elim (Option-cases (get_services ck marshal unmarshal s service_name)) [
        | inl e ↦ absurd (ground (arith, e, h))
        | inr (services, e) ↦
            let same : health_of ck marshal unmarshal s [] services ≡ health =
              ground (arith, e, h) in
            (
              services,
              e,
              elim (health_of-SomeAlive s services [] id
                  (subst (λ m. lookup m id ≡ some true) (sym same) alive)) [
                    | inl some_alive ↦ some_alive
                    | inr none_before ↦ cc none_before
                  ],
            )
      ]
