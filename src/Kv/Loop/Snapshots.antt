-- ===== src/Kv/Loop/Snapshots.antt =====
-- What a snapshot of the server stands for.
use fir_etcd.Prelude.{
  Option-cases, ℤ, ◌≤ℤ◌, Bytes, Map, ◌≡◌, refl, sym, ap, ◌∙◌, subst, inl, inr, false, Option, some,
  List, [], ◌∷◌, arith,
}
use fir_etcd.Store.{Db}
use fir_etcd.Kv.{Op, DuplicateType, KvServer}
use fir_etcd.Kv.Apply.{Applied, is_empty, handle_applych_command, apply_all}
use fir_etcd.Kv.Spec.{steps}
use fir_etcd.Kv.Spec.Refines.{view, abs, abs_eq, abs_server, apply_all-Refines}
use fir_etcd.Kv.Loop.{
  SnapshotCodec, Message, command, snapshot, neither, Turn, read_persist, handle_applych_snapshot,
  check_if_need_snapshot, handle_command, handle_applych,
}

-- gob gives back what it encoded for this server, and the copy of its database opens as it was.
pub record Restores {db : Db} (codec : SnapshotCodec db) (kv : KvServer db) : Type 0 where
  pub decodes :
      (copy bytes : Bytes)
      → codec.snapshot_data kv.store ≡ some copy
      → codec.encode kv.duplicate_map copy ≡ some bytes
      → (codec.decode bytes ≡ some (kv.duplicate_map, copy)) × (is_empty bytes ≡ false)
  pub installs :
      (copy : Bytes) → codec.snapshot_data kv.store ≡ some copy → codec.install copy ≡ kv.store

module _ (db : Db) (codec : SnapshotCodec db) where
  taken_lem :
      (kv : KvServer db) (max size index : ℤ) (i : ℤ) (bytes : Bytes)
      → check_if_need_snapshot db codec kv max size index ≡ some (some (i, bytes))
      → (copy : Bytes) × (codec.snapshot_data kv.store ≡ some copy)
        × (codec.encode kv.duplicate_map copy ≡ some bytes)
  unfolding check_if_need_snapshot
  taken_lem kv max size index i bytes h = elim (Option-cases (codec.snapshot_data kv.store)) [
    | inl e ↦ absurd (ground (arith, e, h))
    | inr (copy, e) ↦ elim (Option-cases (codec.encode kv.duplicate_map copy)) [
      | inl d ↦ absurd (ground (arith, e, d, h))
      | inr (bs, d) ↦ (copy, e, ground (arith, e, d, h))
    ]
  ]

  read_persist-eq :
      (other : KvServer db) (bytes copy : Bytes) (m : Map ℤ DuplicateType)
      → is_empty bytes ≡ false
      → codec.decode bytes ≡ some (m, copy)
      → read_persist db codec other bytes
        ≡ some (record other { store = codec.install copy; duplicate_map = m })
  unfolding read_persist
  read_persist-eq other [] copy m full e = cc
  read_persist-eq other (b ∷ bytes) copy m full e = rw e refl

  installed_lem :
      (other kv' : KvServer db) (bytes : Bytes) (i : ℤ)
      → other.last_applied_index ≤ℤ i
      → read_persist db codec other bytes ≡ some kv'
      → handle_applych_snapshot db codec other bytes i
        ≡ some (record kv' { last_applied_index = i })
  unfolding handle_applych_snapshot
  installed_lem other kv' bytes i le e = ground (arith, e)

  module _ (decode_ops : Bytes → Option (List Op)) where
    -- A server that installs a snapshot which is not behind it goes on like the one that took it:
    -- the installation succeeds, and after the same further operations both hold the same entries and
    -- the same last requests, or both have exited. gob and the copy of the database give back what
    -- went in.
    pub apply_all-installed :
        (kv other : KvServer db) (max size index : ℤ) (i : ℤ) (bytes : Bytes) (ops : List Op)
        → Restores codec kv
        → check_if_need_snapshot db codec kv max size index ≡ some (some (i, bytes))
        → other.last_applied_index ≤ℤ i
        → (kv' : KvServer db) × (handle_applych_snapshot db codec other bytes i ≡ some kv')
          × (abs_server db decode_ops (apply_all db decode_ops kv' ops)
              ≡ abs_server db decode_ops (apply_all db decode_ops kv ops))
    apply_all-installed kv other max size index i bytes ops h taken le =
        let (copy, e, d) = taken_lem kv max size index i bytes taken in
        let (decoded, full) = h.decodes copy bytes e d in
        let kv' : KvServer db = record other {
          store = codec.install copy;
          duplicate_map = kv.duplicate_map;
          last_applied_index = i;
        } in
        let same : abs db decode_ops kv' ≡ abs db decode_ops kv =
          abs_eq db decode_ops _ _ (ap (view db decode_ops) (h.installs copy e)) refl in
        (
          kv',
          installed_lem other _ bytes i le
              (read_persist-eq other bytes copy kv.duplicate_map full decoded),
          apply_all-Refines db decode_ops kv' ops
              ∙ ap (λ a. steps db.accepts decode_ops a ops) same
              ∙ sym (apply_all-Refines db decode_ops kv ops),
        )

module _ (db : Db) (decode_ops : Bytes → Option (List Op)) where
  handle_command-Advances :
      (kv : KvServer db) (op : Op) (index : ℤ) (r : Applied db)
      → handle_command db decode_ops kv op index ≡ some r
      → kv.last_applied_index ≤ℤ r.0.last_applied_index
  unfolding handle_command
  handle_command-Advances kv op index r h =
      elim (Option-cases (handle_applych_command db decode_ops kv op)) [
        | inl a ↦ ground (arith, a)
        | inr (q, a) ↦ ground (arith, a)
      ]

  installed-Advances :
      (codec : SnapshotCodec db) (kv kv' : KvServer db) (bytes : Bytes) (index : ℤ)
      → handle_applych_snapshot db codec kv bytes index ≡ some kv'
      → kv.last_applied_index ≤ℤ kv'.last_applied_index
  unfolding handle_applych_snapshot
  installed-Advances codec kv kv' bytes index h =
      elim (Option-cases (read_persist db codec kv bytes)) [
        | inl e ↦ ground (arith, e, h)
        | inr (q, e) ↦ ground (arith, e, h)
      ]

  -- A turn of the loop never moves the last applied index back, whatever it receives.
  pub handle_applych-Advances :
      (codec : SnapshotCodec db) (max size : ℤ) (kv : KvServer db) (msg : Message) (t : Turn db)
      → handle_applych db decode_ops codec max size kv msg ≡ some t
      → kv.last_applied_index ≤ℤ t.server.last_applied_index
  unfolding handle_applych
  handle_applych-Advances codec max size kv (command op index) t h =
      elim (Option-cases (handle_command db decode_ops kv op index)) [
        | inl a ↦ cc (rw a at h)
        | inr (r, a) ↦ elim (Option-cases (check_if_need_snapshot db codec r.0 max size index)) [
          | inl b ↦ cc (rw (a, b) at h)
          | inr (taken, b) ↦
              let same : r.0 ≡ t.server = cc (rw (a, b) at h) in
              subst (λ x. kv.last_applied_index ≤ℤ x.last_applied_index) same
                (handle_command-Advances kv op index r a)
        ]
      ]
  handle_applych-Advances codec max size kv (snapshot bytes index) t h =
      elim (Option-cases (handle_applych_snapshot db codec kv bytes index)) [
        | inl a ↦ cc (rw a at h)
        | inr (kv', a) ↦
            let same : kv' ≡ t.server = cc (rw a at h) in
            subst (λ x. kv.last_applied_index ≤ℤ x.last_applied_index) same
              (installed-Advances codec kv kv' bytes index a)
      ]
  handle_applych-Advances codec max size kv neither t h = cc
