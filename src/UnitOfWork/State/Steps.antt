-- ===== src/UnitOfWork/State/Steps.antt =====
-- The changes that `Create`, `Update` and `Delete` of unitofwork/unitofwork.go make to a unit of work,
-- seen at one entity type and ID.
use toolkit.Prelude.{
  ℕ, ◌+◌, ◌≤◌, ◌≡◌, true, false, ◌==◌, [], ◌∷◌, arith, if◌then◌else◌, count_if, count_if-append,
  nat_eq, ==_iff,
}
use toolkit.UnitOfWork.Entity.{EntityType, Ref, Heap, type_of, get_id}
use toolkit.UnitOfWork.Operation.{insert_operation, update_operation, delete_operation}
use toolkit.UnitOfWork.Snapshot.{Changes}
use toolkit.UnitOfWork.State.{
  UnitOfWork, delete_tracked, contains_entity, remove_from_entity_list, remove_operation_by_entity,
  add_operation, add_entity,
}
use toolkit.UnitOfWork.State.Identity.{
  count_at, inserts_at, updates_at, deletes_at, contains_entity-count, count_at-add_entity,
  count_at-remove, removes-contained, inserts-keep, updates-keep, deletes-keep,
}

-- What holds for one entity type and ID: the entity is new or dirty at most once, it is in one of
-- the three maps at most, and it has one operation, of the kind of the map that it is in.
pub record InStep (h : Heap) (t : EntityType) (id : ℕ) (u : UnitOfWork) : Type 0 where
  pub inserts : count_if (inserts_at h t id) u.operations ≡ count_at h t id u.new_entities
  pub updates : count_if (updates_at h t id) u.operations ≡ count_at h t id u.dirty_entities
  pub deletes :
      count_if (deletes_at h t id) u.operations
      ≡ (if count_at h t id u.removed_entities == 0 then 0 else 1)
  pub once :
      count_if (inserts_at h t id) u.operations
        + count_if (updates_at h t id) u.operations
        + count_if (deletes_at h t id) u.operations
      ≤ 1

abbrev pub IsConsistent : Heap → UnitOfWork → Type 0
IsConsistent h u = (t : EntityType) (id : ℕ) → InStep h t id u

module _ (h : Heap) (t : EntityType) (id : ℕ) (u : UnitOfWork) (s : InStep h t id u) where
  pub InStep-insert :
      (e : Ref)
      → contains_entity h u.new_entities e ≡ false
      → contains_entity h u.dirty_entities e ≡ false
      → contains_entity h u.removed_entities e ≡ false
      → InStep h t id (
          add_operation
            (insert_operation e)
            (record u { new_entities = add_entity h u.new_entities e }))
  unfolding add_operation
  InStep-insert e n d r =
      let grown = count_at-add_entity h t id u.new_entities e in
      let is = count_if-append (inserts_at h t id) u.operations (insert_operation e ∷ []) in
      let us = count_if-append (updates_at h t id) u.operations (insert_operation e ∷ []) in
      let ds = count_if-append (deletes_at h t id) u.operations (insert_operation e ∷ []) in
      record {
        inserts = ground (arith, grown, is, s.inserts);
        updates = ground (arith, us, s.updates);
        deletes = ground (arith, ds, s.deletes);
        once = ground (
          arith,
          is,
          us,
          ds,
          s,
          contains_entity-count h u.new_entities e,
          contains_entity-count h u.dirty_entities e,
          contains_entity-count h u.removed_entities e,
          ==_iff (type_of h e) t,
          ==_iff (get_id h e) id,
        );
      }

  pub InStep-update :
      (e : Ref) (c : Changes)
      → contains_entity h u.new_entities e ≡ false
      → contains_entity h u.dirty_entities e ≡ false
      → contains_entity h u.removed_entities e ≡ false
      → InStep h t id (
          add_operation
            (update_operation e c)
            (record u { dirty_entities = add_entity h u.dirty_entities e }))
  unfolding add_operation
  InStep-update e c n d r =
      let grown = count_at-add_entity h t id u.dirty_entities e in
      let is = count_if-append (inserts_at h t id) u.operations (update_operation e c ∷ []) in
      let us = count_if-append (updates_at h t id) u.operations (update_operation e c ∷ []) in
      let ds = count_if-append (deletes_at h t id) u.operations (update_operation e c ∷ []) in
      record {
        inserts = ground (arith, is, s.inserts);
        updates = ground (arith, grown, us, s.updates);
        deletes = ground (arith, ds, s.deletes);
        once = ground (
          arith,
          is,
          us,
          ds,
          s,
          contains_entity-count h u.new_entities e,
          contains_entity-count h u.dirty_entities e,
          contains_entity-count h u.removed_entities e,
          ==_iff (type_of h e) t,
          ==_iff (get_id h e) id,
        );
      }

  -- A new entity that is deleted leaves no trace.
  pub InStep-forget :
      (e : Ref)
      → (remove_from_entity_list h u.new_entities e).1 ≡ true
      → InStep h t id (record u {
        new_entities = (remove_from_entity_list h u.new_entities e).0;
        operations = remove_operation_by_entity h e u.operations;
      })
  InStep-forget e removed =
      let shrunk = count_at-remove h t id u.new_entities e in
      let was = removes-contained h t id u.new_entities e in
      let is = inserts-keep h t id e u.operations in
      let us = updates-keep h t id e u.operations in
      let ds = deletes-keep h t id e u.operations in
      record {
        inserts = ground (arith, shrunk, was, is, s);
        updates = ground (arith, shrunk, was, us, s);
        deletes = ground (arith, shrunk, was, ds, s);
        once = ground (arith, is, us, ds, s);
      }

  pub InStep-delete_tracked :
      (e : Ref)
      → (remove_from_entity_list h u.new_entities e).1 ≡ false
      → InStep h t id (delete_tracked h e u)
  unfolding delete_tracked add_operation
  InStep-delete_tracked e kept =
      let kept_ops = remove_operation_by_entity h e u.operations in
      let grown = count_at-add_entity h t id u.removed_entities e in
      let shrunk = count_at-remove h t id u.dirty_entities e in
      let was_dirty = removes-contained h t id u.dirty_entities e in
      let was_new = removes-contained h t id u.new_entities e in
      let is = inserts-keep h t id e u.operations in
      let us = updates-keep h t id e u.operations in
      let ds = deletes-keep h t id e u.operations in
      let is' = count_if-append (inserts_at h t id) kept_ops (delete_operation e ∷ []) in
      let us' = count_if-append (updates_at h t id) kept_ops (delete_operation e ∷ []) in
      let ds' = count_if-append (deletes_at h t id) kept_ops (delete_operation e ∷ []) in
      record {
        inserts = ground (arith, is, is', was_new, s.inserts);
        updates = ground (arith, us, us', shrunk, was_dirty, s);
        deletes = ground (arith, ds, ds', grown, s.deletes);
        once = ground (arith, is, us, ds, is', us', ds', s.once);
      }
