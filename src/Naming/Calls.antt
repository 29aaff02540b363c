-- ===== src/Naming/Calls.antt =====
-- A KVStore with the list of the calls that change it.
use fir_etcd.Prelude.{
  if◌then◌else◌, ℤ, ◌==ℤ◌, ==ℤ_refl, Bytes, bytes_equal, ◌≡◌, refl, Bool, true, false, Option, none,
  some, List, [], ◌∷◌, ◌++◌,
}
use fir_etcd.Naming.{KvStore}

pub data KvCall : Type 0 where
  put_call : (key value : Bytes) (ok : Bool) → KvCall
  grant_call : Option ℤ → KvCall
  revoke_call : ℤ → KvCall

abbrev pub logged : KvStore → KvStore
logged ck = record {
  S = ck.S × List KvCall;
  put = λ s k v ttl. let r = ck.put s.0 k v ttl in ((r.0, s.1 ++ put_call k v r.1 ∷ []), r.1);
  get = λ s k. ck.get s.0 k;
  get_with_prefix = λ s p. ck.get_with_prefix s.0 p;
  lease_grant = λ s ttl. let r = ck.lease_grant s.0 ttl in ((r.0, s.1 ++ grant_call r.1 ∷ []), r.1);
  lease_revoke = λ s id. (ck.lease_revoke s.0 id, s.1 ++ revoke_call id ∷ []);
  lease_time_to_live = λ s id. ck.lease_time_to_live s.0 id;
}

abbrev pub without : ℤ → List ℤ → List ℤ
without id [] = []
without id (j ∷ js) = if id ==ℤ j then js else j ∷ without id js

-- The leases that were granted and not revoked, beside those of before.
abbrev pub open_leases : List ℤ → List KvCall → List ℤ
open_leases ids [] = ids
open_leases ids (put_call k v ok ∷ cs) = open_leases ids cs
open_leases ids (grant_call none ∷ cs) = open_leases ids cs
open_leases ids (grant_call (some id) ∷ cs) = open_leases (id ∷ ids) cs
open_leases ids (revoke_call id ∷ cs) = open_leases (without id ids) cs

-- The pairs that were stored.
abbrev pub stored : List KvCall → List (Bytes × Bytes)
stored [] = []
stored (put_call k v true ∷ cs) = (k, v) ∷ stored cs
stored (_ ∷ cs) = stored cs

-- One pair is stored and the returned lease stays open, or nothing is stored and no lease stays open.
abbrev pub IsAllOrNothing : List KvCall → Option ℤ → Bytes → Option Bytes → Type 0
IsAllOrNothing cs none key text = (stored cs ≡ []) × (open_leases [] cs ≡ [])
IsAllOrNothing cs (some id) key text =
    (v : Bytes) × (text ≡ some v) × (stored cs ≡ (key, v) ∷ []) × (open_leases [] cs ≡ id ∷ [])

-- Each write is to another key.
abbrev pub WritesElsewhere : Bytes → List KvCall → Type 0
WritesElsewhere key [] = Unit {0}
WritesElsewhere key (put_call k v ok ∷ cs) = (bytes_equal k key ≡ false) × WritesElsewhere key cs
WritesElsewhere key (_ ∷ cs) = WritesElsewhere key cs

pub revoked_at_once : (id : ℤ) → without id (id ∷ []) ≡ []
revoked_at_once id = rw (==ℤ_refl id) refl
