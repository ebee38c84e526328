-- ===== src/UnitOfWork/Snapshot/Keys.antt =====
-- The keys under which unitofwork/snapshot.go keeps the snapshots: `buildKey` with its `toString`.
use toolkit.Prelude.{
  ℕ, ◌≡◌, sym, ap, true, false, ◌==◌, ◌++◌, ◌∷◌, some, arith, if◌then◌else◌, bytes_eq_instance,
  bytes_eq,
}
use toolkit.Prelude.Map.{lookup, lookup-insert}
use toolkit.UnitOfWork.Entity.{Object, Time}
use toolkit.UnitOfWork.Snapshot.{
  Reflect, SnapshotManager, build_key, take_snapshot, is_dirty, new_entity_snapshot,
  snapshot_is_dirty,
}

module _ (rt : Reflect) (now : Time) (sm : SnapshotManager) (o o' : Object) where
  take_snapshot-lookup :
      build_key rt o ≡ build_key rt o'
      → lookup (build_key rt o) (take_snapshot rt now sm o') ≡ some (new_entity_snapshot rt now o')
  unfolding take_snapshot
  take_snapshot-lookup same = ground (
    arith,
    lookup-insert (build_key rt o') (build_key rt o) (new_entity_snapshot rt now o') sm,
    bytes_eq_instance.beq_iff (build_key rt o') (build_key rt o),
    sym same,
  )

  -- After a snapshot of an entity, an entity is compared with that snapshot if the two have the same
  -- key, and with its own snapshot, as before, if they have not.
  is_dirty-take_snapshot : is_dirty rt (take_snapshot rt now sm o') o ≡ (
      if bytes_eq (build_key rt o') (build_key rt o)
      then snapshot_is_dirty rt (new_entity_snapshot rt now o') o
      else is_dirty rt sm o)
  unfolding is_dirty take_snapshot
  is_dirty-take_snapshot =
      ground
        (arith, lookup-insert (build_key rt o') (build_key rt o) (new_entity_snapshot rt now o') sm)

  build_key-same :
      ((a b : ℕ) → rt.value_string a ≡ rt.value_string b)
      → o.type ≡ o'.type
      → build_key rt o ≡ build_key rt o'
  unfolding build_key
  build_key-same constant same =
      rw (same) (ap (λ s. rt.type_string o'.type ++ b'#' ∷ s) (constant o.base.id o'.base.id))

  differs-is_dirty :
      (o.base.id == o'.base.id) ≡ false
      → snapshot_is_dirty rt (new_entity_snapshot rt now o') o ≡ true
  unfolding snapshot_is_dirty new_entity_snapshot
  differs-is_dirty differ = ground (arith, differ)

  -- `String` of a `reflect.Value` that holds no string gives one text for all values of a type. With
  -- such a text for the IDs, a snapshot of an entity replaces the snapshot of every other entity of its
  -- type: each that has another ID reads as dirty from then on, whatever its fields.
  pub is_dirty-overwritten :
      ((a b : ℕ) → rt.value_string a ≡ rt.value_string b)
      → o.type ≡ o'.type
      → (o.base.id == o'.base.id) ≡ false
      → is_dirty rt (take_snapshot rt now sm o') o ≡ true
  is_dirty-overwritten constant same differ = ground (
    arith,
    is_dirty-take_snapshot,
    differs-is_dirty differ,
    bytes_eq_instance.beq_iff (build_key rt o') (build_key rt o),
    sym (build_key-same constant same),
  )
