-- ===== src/UnitOfWork/Registered/InOrder.antt =====
-- The registered operations follow the entity maps, in order, under the calls of `Create`, `Update`,
-- `Delete`, `TakeSnapshot` and `Rollback` of unitofwork/unitofwork.go.
use toolkit.Prelude.{
  ◌≡◌, refl, ◌∙◌, sym, ap, ◌≤◌, true, false, not, ◌==◌, [], ◌∷◌, ◌++◌, arith, if◌then◌else◌, nat_eq,
  ==_iff, All, All-append,
}
use toolkit.UnitOfWork.Entity.{EntityType, Ref, Heap, type_of, get_id}
use toolkit.UnitOfWork.Operation.{
  insert_operation, update_operation, delete_operation, get_entities, get_entity_type,
}
use toolkit.UnitOfWork.Operation.Merge.{Family, inserting, updating, family}
use toolkit.UnitOfWork.Plan.Kinds.{IsSingle, kind_entities}
use toolkit.UnitOfWork.Registered.{
  others, others-none, entities_of-add_entity, entities_of-remove, kind_entities-snoc,
  kind_entities-remove, All-keep,
}
use toolkit.UnitOfWork.Snapshot.{Changes}
use toolkit.UnitOfWork.State.{
  UnitOfWork, EntityMap, entities_of, remove_from_entity_list, remove_operation_by_entity,
  add_operation, add_entity, delete_tracked, is_unrelated,
}
use toolkit.UnitOfWork.State.Identity.{count_at, is_at, removes-contained}
use toolkit.UnitOfWork.State.Steps.{IsConsistent}

-- Every operation is a single one, and for each type, the insertions are on the new entities and the
-- updates on the dirty ones, in order.
pub record InOrder (h : Heap) (u : UnitOfWork) : Type 0 where
  pub single : All IsSingle u.operations
  pub inserted :
      (t : EntityType) → kind_entities h inserting t u.operations ≡ entities_of t u.new_entities
  pub updated :
      (t : EntityType) → kind_entities h updating t u.operations ≡ entities_of t u.dirty_entities

module _ (h : Heap) (u : UnitOfWork) (s : InOrder h u) where
  pub InOrder-insert :
      (e : Ref)
      → InOrder h (
          add_operation
            (insert_operation e)
            (record u { new_entities = add_entity h u.new_entities e }))
  unfolding add_operation family get_entities get_entity_type
  InOrder-insert e = record {
    single = All-append IsSingle u.operations (insert_operation e ∷ []) s.single (tt, tt);
    inserted = λ t.
        kind_entities-snoc h inserting t (insert_operation e) e u.operations refl refl
        ∙ ap (λ es. if type_of h e == t then es ++ e ∷ [] else es) (s.inserted t)
        ∙ sym (entities_of-add_entity h t u.new_entities e);
    updated = λ t.
        kind_entities-snoc h updating t (insert_operation e) e u.operations refl refl ∙ s.updated t;
  }

  pub InOrder-update :
      (e : Ref) (c : Changes)
      → InOrder h (
          add_operation
            (update_operation e c)
            (record u { dirty_entities = add_entity h u.dirty_entities e }))
  unfolding add_operation family get_entities get_entity_type
  InOrder-update e c = record {
    single = All-append IsSingle u.operations (update_operation e c ∷ []) s.single (tt, tt);
    inserted = λ t.
        kind_entities-snoc h inserting t (update_operation e c) e u.operations refl refl
        ∙ s.inserted t;
    updated = λ t.
        kind_entities-snoc h updating t (update_operation e c) e u.operations refl refl
        ∙ ap (λ es. if type_of h e == t then es ++ e ∷ [] else es) (s.updated t)
        ∙ sym (entities_of-add_entity h t u.dirty_entities e);
  }

  -- Taking out an entity that is not there, or not twice.
  remove-same :
      (f : Family) (e : Ref) (m : EntityMap)
      → ((t : EntityType) → kind_entities h f t u.operations ≡ entities_of t m)
      → count_at h (type_of h e) (get_id h e) m ≤ 1
      → (t : EntityType)
      → kind_entities h f t (remove_operation_by_entity h e u.operations)
        ≡ entities_of t (remove_from_entity_list h m e).0
  remove-same f e m same once t =
      kind_entities-remove h f t e u.operations s.single
      ∙ ap (λ es. if type_of h e == t then others h (get_id h e) es else es) (same t)
      ∙ sym (entities_of-remove h t m e once)

  remove-absent :
      (f : Family) (e : Ref) (m : EntityMap)
      → ((t : EntityType) → kind_entities h f t u.operations ≡ entities_of t m)
      → count_at h (type_of h e) (get_id h e) m ≡ 0
      → (t : EntityType)
      → kind_entities h f t (remove_operation_by_entity h e u.operations) ≡ entities_of t m
  remove-absent f e m same absent t =
      kind_entities-remove h f t e u.operations s.single
      ∙ ap (λ es. if type_of h e == t then others h (get_id h e) es else es) (same t)
      ∙ ground (arith, ==_iff (type_of h e) t, others-none h (get_id h e) (entities_of t m), absent)

  IsSingle-remove : (e : Ref) → All IsSingle (remove_operation_by_entity h e u.operations)
  unfolding remove_operation_by_entity
  IsSingle-remove e = All-keep IsSingle (is_unrelated h e) u.operations s.single

  at_self : (e : Ref) → is_at h (type_of h e) (get_id h e) e ≡ true
  at_self e = ground (arith, ==_iff (type_of h e) (type_of h e), ==_iff (get_id h e) (get_id h e))

  not_there :
      (e : Ref)
      → (remove_from_entity_list h u.new_entities e).1 ≡ false
      → count_at h (type_of h e) (get_id h e) u.new_entities ≡ 0
  not_there e kept =
      ground
        (arith, kept, removes-contained h (type_of h e) (get_id h e) u.new_entities e (at_self e))

  module _ (c : IsConsistent h u) where
    -- A new entity is not dirty.
    not_dirty :
        (e : Ref)
        → (remove_from_entity_list h u.new_entities e).1 ≡ true
        → count_at h (type_of h e) (get_id h e) u.dirty_entities ≡ 0
    not_dirty e removed =
        let here = c (type_of h e) (get_id h e) in
        let new : not (count_at h (type_of h e) (get_id h e) u.new_entities == 0) ≡ true =
          sym (removes-contained h (type_of h e) (get_id h e) u.new_entities e (at_self e))
          ∙ removed in
        ground (arith, new, here.inserts, here.updates, here.once)

    pub InOrder-forget :
        (e : Ref)
        → (remove_from_entity_list h u.new_entities e).1 ≡ true
        → InOrder h (record u {
          new_entities = (remove_from_entity_list h u.new_entities e).0;
          operations = remove_operation_by_entity h e u.operations;
        })
    InOrder-forget e removed =
        let here = c (type_of h e) (get_id h e) in
        record {
          single = IsSingle-remove e;
          inserted =
              remove-same inserting e u.new_entities s.inserted
                (omega (arith, here.inserts, here.once));
          updated = remove-absent updating e u.dirty_entities s.updated (not_dirty e removed);
        }

    pub InOrder-delete_tracked :
        (e : Ref)
        → (remove_from_entity_list h u.new_entities e).1 ≡ false
        → InOrder h (delete_tracked h e u)
    unfolding delete_tracked add_operation family get_entities get_entity_type
    InOrder-delete_tracked e kept =
        let here = c (type_of h e) (get_id h e) in
        let ops = remove_operation_by_entity h e u.operations in
        record {
          single = All-append IsSingle ops (delete_operation e ∷ []) (IsSingle-remove e) (tt, tt);
          inserted = λ t.
              kind_entities-snoc h inserting t (delete_operation e) e ops refl refl
              ∙ remove-absent inserting e u.new_entities s.inserted (not_there e kept) t;
          updated = λ t.
              kind_entities-snoc h updating t (delete_operation e) e ops refl refl
              ∙ remove-same updating e u.dirty_entities s.updated
                  (omega (arith, here.updates, here.once)) t;
        }
