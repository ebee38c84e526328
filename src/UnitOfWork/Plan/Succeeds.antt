-- ===== src/UnitOfWork/Plan/Succeeds.antt =====
-- When the sorting by dependency of unitofwork/unitofwork.go succeeds.
use toolkit.Prelude.{
  ◌≡◌, refl, ℕ, ◌<◌, true, false, leb, List, [], length, elem, Bool-cases, inl, inr, Bytes,
}
use toolkit.UnitOfWork.Dependency.{DependencyManager, Ordering, Sorted}
use toolkit.UnitOfWork.Dependency.Deletion.{get_deletion_order-independent}
use toolkit.UnitOfWork.Dependency.Edges.{IsMap}
use toolkit.UnitOfWork.Dependency.Insertion.{entity_depends, get_insertion_order-acyclic}
use toolkit.UnitOfWork.Dependency.Kahn.{depends}
use toolkit.UnitOfWork.Entity.{EntityType, Ref, Heap, type_of}
use toolkit.UnitOfWork.Operation.{Operation}
use toolkit.UnitOfWork.Plan.{
  Planned, ok, entities_of_operations, operation_map, regroup, join_groups, sort_groups,
  sort_operations_by_entity_dependency, sort_operations_by_dependency,
}
use toolkit.UnitOfWork.Plan.Rearranged.{inserts, updates, deletes}
use toolkit.UnitOfWork.Snapshot.{Reflect}

-- A plan is made.
abbrev pub Succeeds : Planned → Type 0
Succeeds p = (sorted : List Operation) × (p ≡ ok sorted)

-- Each type has a higher rank than those that it depends on.
abbrev pub Ranks : DependencyManager → (EntityType → ℕ) → Type 0
Ranks dm rank = (s t : EntityType) → depends dm s t ≡ true → rank t < rank s

module _ (rt : Reflect) (ord : Ordering) (sprint_id : ℕ → Bytes) (h : Heap)
    (dm : DependencyManager) where
  -- No two of the entities are of types of which one depends on the other.
  abbrev pub AreIndependent : List Ref → Type 0
  AreIndependent es =
      (x y : Ref) → elem x es ≡ true → elem y es ≡ true → entity_depends dm h x y ≡ false

  regroup-Succeeds :
      (ops : List Operation) (r : Sorted) (order : List Ref)
      → r ≡ Sorted.ok order
      → Succeeds (regroup rt ord sprint_id h (operation_map rt ord sprint_id h ops []) r)
  unfolding regroup
  regroup-Succeeds ops r order e = rw (e) (_, refl)

  join_groups-Succeeds :
      (inserted deleted : Planned) (ops : List Operation)
      → Succeeds inserted
      → Succeeds deleted
      → Succeeds (join_groups rt ord sprint_id h inserted ops deleted)
  unfolding join_groups
  join_groups-Succeeds inserted deleted ops (xs, e) (ys, e') = rw (e, e') (_, refl)

  module _ (graph : IsMap dm.dependency_graph) (rank : EntityType → ℕ) (ranks : Ranks dm rank) where
    insertions-Succeeds :
        (ops : List Operation)
        → Succeeds (sort_operations_by_entity_dependency rt ord sprint_id h dm ops false)
    unfolding sort_operations_by_entity_dependency
    insertions-Succeeds ops = elim (Bool-cases (leb (length ops) 1)) [
      | inl few ↦ rw (few) (ops, refl)
      | inr many ↦
          let (order, e) =
            get_insertion_order-acyclic rt ord dm graph h
              (entities_of_operations rt ord sprint_id h ops) rank
              (λ x u i j edge. ranks (type_of h x) (type_of h u) edge) in
          rw (many) (regroup-Succeeds ops _ order e)
    ]

    deletions-Succeeds :
        (ops : List Operation)
        → AreIndependent (entities_of_operations rt ord sprint_id h ops)
        → Succeeds (sort_operations_by_entity_dependency rt ord sprint_id h dm ops true)
    unfolding sort_operations_by_entity_dependency
    deletions-Succeeds ops free = elim (Bool-cases (leb (length ops) 1)) [
      | inl few ↦ rw (few) (ops, refl)
      | inr many ↦
          let (order, e, same) =
            get_deletion_order-independent rt ord dm h graph
              (entities_of_operations rt ord sprint_id h ops) free in
          rw (many) (regroup-Succeeds ops _ order e)
    ]

    -- Operations whose types can be ranked by their dependencies, with deletions of types none of
    -- which depends on another, can be sorted.
    pub sort_operations_by_dependency-Succeeds :
        (ops : List Operation)
        → AreIndependent (entities_of_operations rt ord sprint_id h (deletes ops))
        → Succeeds (sort_operations_by_dependency rt ord sprint_id h dm ops)
    unfolding sort_operations_by_dependency sort_groups
    sort_operations_by_dependency-Succeeds ops free = elim (Bool-cases (leb (length ops) 1)) [
      | inl few ↦ rw (few) (ops, refl)
      | inr many ↦ rw (many) (
          join_groups-Succeeds _ _ (updates ops) (insertions-Succeeds (inserts ops))
            (deletions-Succeeds (deletes ops) free))
    ]
