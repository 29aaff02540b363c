-- ===== src/Kv/Once.antt =====
-- Repeated requests in the log of the server, by the table duplicateMap.

use fir_etcd.Kv.Spec.Refines.{abs, abs_server, apply_all-Refines}
use fir_etcd.Kv.Apply.{is_empty_op, handle_applych_command, apply_all}
use fir_etcd.Prelude.{
  if◌then◌else◌, Bool-cases, Option-cases, ℤ, ◌≤ℤ◌, ◌<ℤ◌, leb_ℤ, ◌==ℤ◌, ==ℤ→eq, ==ℤ_refl, leb_ℤ→lt,
  leb_ℤ→le, Bytes, int_key, bytes_key, Map, insert, lookup-insert, ◌≡◌, refl, sym, ap, ◌∙◌, subst,
  ◌⊎◌, inl, inr, Bool, true, false, Option, some, List, [], ◌∷◌, arith,
}
use fir_etcd.Store.{Entry, Db}
use fir_etcd.Kv.{Op, DuplicateType, KvServer, duplicate_of}
use fir_etcd.Kv.Spec.{Abstract, decoded_step, op_step, step, steps}

-- The offset that a client has reached.
abbrev pub reached : Abstract → ℤ → ℤ
reached a client = (duplicate_of a.duplicates client).offset

module _ (accepts : Bytes → Entry → Bool) (decode_ops : Bytes → Option (List Op)) where
  op_step_duplicates :
      (a b : Abstract) (op : Op)
      → op_step accepts decode_ops a op ≡ some b
      → (b.duplicates ≡ a.duplicates)
        ⊎ (b.duplicates
            ≡ insert a.duplicates op.client_id (record { offset = op.offset; cas_result = true }))
  unfolding op_step decoded_step
  op_step_duplicates a b op h = ground arith

  reached-insert :
      (m : Map ℤ DuplicateType) (client c : ℤ) (d : DuplicateType)
      → (duplicate_of (insert m client d) c).offset
        ≡ (if client ==ℤ c then d.offset else (duplicate_of m c).offset)
  reached-insert m client c d = ground (arith, lookup-insert m client c d)

  abbrev pub marked_at : Abstract → Op → Abstract
  marked_at a op = record a {
    duplicates =
        insert a.duplicates op.client_id (record { offset = op.offset; cas_result = false });
  }

  op_step_reaches :
      (a b : Abstract) (op : Op) (c : ℤ)
      → op_step accepts decode_ops (marked_at a op) op ≡ some b
      → reached b c ≡ (if op.client_id ==ℤ c then op.offset else reached a c)
  op_step_reaches a b op c h =
      let first : DuplicateType = record { offset = op.offset; cas_result = false } in
      let later : DuplicateType = record { offset = op.offset; cas_result = true } in
      let once : reached (marked_at a op) c
          ≡ (if op.client_id ==ℤ c then op.offset else reached a c) =
        reached-insert a.duplicates op.client_id c first in
      elim (op_step_duplicates (marked_at a op) b op h) [
        | inl d ↦ ap (λ m. (duplicate_of m c).offset) d ∙ once
        | inr d ↦ ground (
          arith,
          once,
          ap (λ m. (duplicate_of m c).offset) d,
          reached-insert (marked_at a op).duplicates op.client_id c later,
        )
      ]

  -- A step either leaves the map alone or brings its client to the offset of the operation.
  step_cases :
      (a b : Abstract) (op : Op)
      → step accepts decode_ops a op ≡ some b
      → ((b ≡ a) × ((is_empty_op op.op_type ≡ true) ⊎ (op.offset ≤ℤ reached a op.client_id)))
        ⊎ ((reached a op.client_id <ℤ op.offset)
            × ((c : ℤ) → reached b c ≡ (if op.client_id ==ℤ c then op.offset else reached a c)))
  unfolding step
  step_cases a b op h = elim (Bool-cases (is_empty_op op.op_type)) [
    | inl e ↦ inl (cc (rw e at h), inl e)
    | inr e ↦ elim (Bool-cases (leb_ℤ op.offset (reached a op.client_id))) [
      | inl l ↦ inl (cc (rw (e, l) at h), inr (leb_ℤ→le op.offset (reached a op.client_id) l))
      | inr l ↦ inr (
        leb_ℤ→lt op.offset (reached a op.client_id) l,
        λ c. op_step_reaches a b op c (rw (e, l) at h),
      )
    ]
  ]

  step_grows :
      (a b : Abstract) (op : Op) (c : ℤ)
      → step accepts decode_ops a op ≡ some b
      → reached a c ≤ℤ reached b c
  step_grows a b op c h = elim (step_cases a b op h) [
    | inl (e, _) ↦ rw e (omega arith)
    | inr (l, r) ↦ ground (arith, r c, ==ℤ→eq op.client_id c)
  ]

  step_reaches :
      (a b : Abstract) (op : Op)
      → step accepts decode_ops a op ≡ some b
      → is_empty_op op.op_type ≡ false
      → op.offset ≤ℤ reached b op.client_id
  step_reaches a b op h busy = elim (step_cases a b op h) [
    | inl (e, inl n) ↦ cc (n, busy)
    | inl (e, inr l) ↦ rw e l
    | inr (l, r) ↦ ground (arith, r op.client_id, ==ℤ_refl op.client_id)
  ]

  pub steps_grow :
      (a b : Abstract) (ops : List Op) (c : ℤ)
      → steps accepts decode_ops a ops ≡ some b
      → reached a c ≤ℤ reached b c
  unfolding steps
  steps_grow a b [] c h =
      let same : a ≡ b = cc h in subst (λ x. reached a c ≤ℤ reached x c) same (omega arith)
  steps_grow a b (op ∷ ops) c h = elim (Option-cases (step accepts decode_ops a op)) [
    | inl n ↦ cc (rw n at h)
    | inr (m, n) ↦ omega (arith, step_grows a m op c n, steps_grow m b ops c (rw n at h))
  ]

  steps_reach :
      (a b : Abstract) (op : Op) (ops : List Op)
      → steps accepts decode_ops a (op ∷ ops) ≡ some b
      → is_empty_op op.op_type ≡ false
      → op.offset ≤ℤ reached b op.client_id
  unfolding steps
  steps_reach a b op ops h busy = elim (Option-cases (step accepts decode_ops a op)) [
    | inl n ↦ cc (rw n at h)
    | inr (m, n) ↦
        omega (arith, step_reaches a m op n busy, steps_grow m b ops op.client_id (rw n at h))
  ]

-- Once a log with a request has been applied, the request changes nothing, however often it comes
-- again and whatever came between.
pub apply_all-once :
    (db : Db) (decode_ops : Bytes → Option (List Op)) (kv kv' : KvServer db) (op : Op)
    (ops : List Op)
    → apply_all db decode_ops kv (op ∷ ops) ≡ some kv'
    → handle_applych_command db decode_ops kv' op ≡ some (kv', [])
unfolding handle_applych_command
apply_all-once db decode_ops kv kv' op ops h =
    let whole : steps db.accepts decode_ops (abs db decode_ops kv) (op ∷ ops)
        ≡ some (abs db decode_ops kv') =
      sym (apply_all-Refines db decode_ops kv (op ∷ ops)) ∙ ap (abs_server db decode_ops) h in
    elim (Bool-cases (is_empty_op op.op_type)) [
      | inl e ↦ rw e refl
      | inr e ↦ ground (
        arith,
        steps_reach db.accepts decode_ops (abs db decode_ops kv) (abs db decode_ops kv') op ops
            whole e,
      )
    ]
