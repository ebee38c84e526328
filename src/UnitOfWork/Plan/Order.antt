-- ===== src/UnitOfWork/Plan/Order.antt =====
-- The order of the plan: `sortOperationsByDependency` of unitofwork/unitofwork.go.
use toolkit.Prelude.{
  ℕ, ◌≡◌, refl, sym, subst, Bool, true, false, ◌&&◌, List, [], ◌∷◌, ◌++◌, some, arith, Bytes,
  Option-cases, inl, inr, bytes_eq_instance,
}
use toolkit.Prelude.Map.{lookup, insert}
use toolkit.UnitOfWork.Dependency.{
  DependencyManager, Ordering, Sorted, get_deletion_order, get_insertion_order,
}
use toolkit.UnitOfWork.Entity.{Ref, Heap}
use toolkit.UnitOfWork.Operation.{
  Operation, insert_operation, update_operation, delete_operation, bulk_insert_operation,
  bulk_update_operation, bulk_delete_operation, OperationType, get_operation_type, get_entity,
}
use toolkit.UnitOfWork.Plan.{
  Planned, ok, has_type, of_types, operation_key, entities_of_operations, operation_map,
  operations_for, regroup, sort_operations_by_entity_dependency, join_groups, sort_groups,
  sort_operations_by_dependency,
}
use toolkit.UnitOfWork.Snapshot.{Reflect}

-- Every operation of the list passes.
abbrev pub all : (Operation → Bool) → List Operation → Bool
all p [] = true
all p (op ∷ ops) = p op && all p ops

abbrev all_values : (Operation → Bool) → List (Bytes × Operation) → Bool
all_values p [] = true
all_values p ((k, op) ∷ m) = p op && all_values p m

of_types-all :
    (s b : OperationType) (ops : List Operation) → all (has_type s b) (of_types s b ops) ≡ true
of_types-all s b [] = refl
of_types-all s b (op ∷ ops) = ground (arith, of_types-all s b ops)

module _ (p : Operation → Bool) where
  insert-all_values :
      (k : Bytes) (op : Operation) (m : List (Bytes × Operation))
      → p op ≡ true
      → all_values p m ≡ true
      → all_values p (insert k op m) ≡ true
  unfolding insert
  insert-all_values k op [] is whole = ground (arith, is)
  insert-all_values k op ((j, o) ∷ m) is whole = ground (arith, is, whole, insert-all_values k op m)

  lookup-all_values :
      (k : Bytes) (op : Operation) (m : List (Bytes × Operation))
      → all_values p m ≡ true
      → lookup k m ≡ some op
      → p op ≡ true
  unfolding lookup
  lookup-all_values k op [] whole found = ground (arith, found)
  lookup-all_values k op ((j, o) ∷ m) whole found =
      ground (arith, whole, found, lookup-all_values k op m)

module _ (rt : Reflect) (ord : Ordering) (sprint_id : ℕ → Bytes) (h : Heap)
    (p : Operation → Bool) where
  operation_map-all :
      (ops : List Operation) (m : List (Bytes × Operation))
      → all p ops ≡ true
      → all_values p m ≡ true
      → all_values p (operation_map rt ord sprint_id h ops m) ≡ true
  unfolding operation_map
  operation_map-all [] m is whole = whole
  operation_map-all (op ∷ ops) m is whole = elim (Option-cases (get_entity op)) [
    | inl nothing ↦ rw (nothing) (operation_map-all ops m (ground (arith, is)) whole)
    | inr (e, found) ↦ rw (found) (
        operation_map-all ops _ (ground (arith, is))
          (insert-all_values p (operation_key rt sprint_id h e) op m (ground (arith, is)) whole))
  ]

  operations_for-all :
      (m : List (Bytes × Operation)) (es : List Ref)
      → all_values p m ≡ true
      → all p (operations_for rt ord sprint_id h m es) ≡ true
  unfolding operations_for
  operations_for-all m [] whole = refl
  operations_for-all m (e ∷ es) whole =
      elim (Option-cases (lookup (operation_key rt sprint_id h e) m)) [
        | inl nothing ↦ rw (nothing, operations_for) (operations_for-all m es whole)
        | inr (op, found) ↦
            rw (found, operations_for)
              (ground (
                arith,
                operations_for-all m es whole,
                lookup-all_values p (operation_key rt sprint_id h e) op m whole found,
              ))
      ]

  regroup-all :
      (m : List (Bytes × Operation)) (sorted : Sorted) (ops : List Operation)
      → all_values p m ≡ true
      → regroup rt ord sprint_id h m sorted ≡ ok ops
      → all p ops ≡ true
  unfolding regroup
  regroup-all m (Sorted.ok es) ops whole e = ground (arith, e, operations_for-all m es whole)
  regroup-all m Sorted.circular_dependency ops whole e = ground (arith, e)
  regroup-all m Sorted.out_of_fuel ops whole e = ground (arith, e)

  sort_operations_by_entity_dependency-all :
      (dm : DependencyManager) (ops sorted : List Operation) (reverse : Bool)
      → all p ops ≡ true
      → sort_operations_by_entity_dependency rt ord sprint_id h dm ops reverse ≡ ok sorted
      → all p sorted ≡ true
  unfolding sort_operations_by_entity_dependency
  sort_operations_by_entity_dependency-all dm ops sorted reverse is e =
      let m = operation_map rt ord sprint_id h ops [] in
      ground (
        arith,
        is,
        e,
        operation_map-all ops [] is refl,
        regroup-all m
            (get_deletion_order rt ord dm h (entities_of_operations rt ord sprint_id h ops)) sorted,
        regroup-all m
            (get_insertion_order rt ord dm h (entities_of_operations rt ord sprint_id h ops))
            sorted,
      )

-- The sorted operations are insertions, then the updates, then deletions; the updates are those that
-- were given, in the order in which they were given.
pub record IsInOrder (ops sorted : List Operation) : Type 0 where
  pub inserts : List Operation
  pub deletes : List Operation
  pub split :
      sorted ≡ inserts ++ (of_types OperationType.update OperationType.bulk_update ops ++ deletes)
  pub all_inserts : all (has_type OperationType.insert OperationType.bulk_insert) inserts ≡ true
  pub all_deletes : all (has_type OperationType.delete OperationType.bulk_delete) deletes ≡ true

single-IsInOrder : (op : Operation) → IsInOrder (op ∷ []) (op ∷ [])
unfolding has_type get_operation_type
single-IsInOrder (insert_operation e) = record {
  inserts = (insert_operation e) ∷ [];
  deletes = [];
  split = refl;
  all_inserts = refl;
  all_deletes = refl;
}
single-IsInOrder (update_operation e c) = record {
  inserts = [];
  deletes = [];
  split = refl;
  all_inserts = refl;
  all_deletes = refl;
}
single-IsInOrder (delete_operation e) = record {
  inserts = [];
  deletes = (delete_operation e) ∷ [];
  split = refl;
  all_inserts = refl;
  all_deletes = refl;
}
single-IsInOrder (bulk_insert_operation es t) = record {
  inserts = (bulk_insert_operation es t) ∷ [];
  deletes = [];
  split = refl;
  all_inserts = refl;
  all_deletes = refl;
}
single-IsInOrder (bulk_update_operation es t) = record {
  inserts = [];
  deletes = [];
  split = refl;
  all_inserts = refl;
  all_deletes = refl;
}
single-IsInOrder (bulk_delete_operation es t) = record {
  inserts = [];
  deletes = (bulk_delete_operation es t) ∷ [];
  split = refl;
  all_inserts = refl;
  all_deletes = refl;
}

module _ (rt : Reflect) (ord : Ordering) (sprint_id : ℕ → Bytes) (h : Heap)
    (dm : DependencyManager) where
  join_groups-IsInOrder :
      (ops sorted : List Operation) (inserts deletes : Planned)
      → ((xs : List Operation)
          → inserts ≡ ok xs
          → all (has_type OperationType.insert OperationType.bulk_insert) xs ≡ true)
      → ((xs : List Operation)
          → deletes ≡ ok xs
          → all (has_type OperationType.delete OperationType.bulk_delete) xs ≡ true)
      → join_groups rt ord sprint_id h inserts
          (of_types OperationType.update OperationType.bulk_update ops)
          deletes
        ≡ ok sorted
      → IsInOrder ops sorted
  unfolding join_groups
  join_groups-IsInOrder ops sorted Planned.circular_dependency deletes is ds e = ground (arith, e)
  join_groups-IsInOrder ops sorted Planned.out_of_fuel deletes is ds e = ground (arith, e)
  join_groups-IsInOrder ops sorted (ok xs) Planned.circular_dependency is ds e = ground (arith, e)
  join_groups-IsInOrder ops sorted (ok xs) Planned.out_of_fuel is ds e = ground (arith, e)
  join_groups-IsInOrder ops sorted (ok xs) (ok ys) is ds e = record {
    inserts = xs;
    deletes = ys;
    split = ground (arith, e);
    all_inserts = is xs refl;
    all_deletes = ds ys refl;
  }

  sort_groups-IsInOrder :
      (ops sorted : List Operation)
      → sort_groups rt ord sprint_id h dm ops ≡ ok sorted
      → IsInOrder ops sorted
  unfolding sort_groups
  sort_groups-IsInOrder ops sorted e =
      join_groups-IsInOrder ops sorted _ _
        (λ xs.
          sort_operations_by_entity_dependency-all rt ord sprint_id h
            (has_type OperationType.insert OperationType.bulk_insert) dm
            (of_types OperationType.insert OperationType.bulk_insert ops) xs false
            (of_types-all OperationType.insert OperationType.bulk_insert ops))
        (λ xs.
          sort_operations_by_entity_dependency-all rt ord sprint_id h
            (has_type OperationType.delete OperationType.bulk_delete) dm
            (of_types OperationType.delete OperationType.bulk_delete ops) xs true
            (of_types-all OperationType.delete OperationType.bulk_delete ops))
        e

  ok-sorted : (ops sorted : List Operation) → ok ops ≡ ok sorted → sorted ≡ ops
  ok-sorted ops sorted e = ground (arith, e)

  -- When the operations can be sorted by dependency, the result runs all insertions before all
  -- updates and all updates before all deletions, and the updates are the given ones in their order.
  pub sort_operations_by_dependency-IsInOrder :
      (ops sorted : List Operation)
      → sort_operations_by_dependency rt ord sprint_id h dm ops ≡ ok sorted
      → IsInOrder ops sorted
  unfolding sort_operations_by_dependency
  sort_operations_by_dependency-IsInOrder [] sorted e = record {
    inserts = [];
    deletes = [];
    split = ok-sorted [] sorted e;
    all_inserts = refl;
    all_deletes = refl;
  }
  sort_operations_by_dependency-IsInOrder (op ∷ []) sorted e =
      subst (IsInOrder (op ∷ [])) (sym (ok-sorted (op ∷ []) sorted e)) (single-IsInOrder op)
  sort_operations_by_dependency-IsInOrder (op ∷ op' ∷ ops) sorted e =
      sort_groups-IsInOrder (op ∷ op' ∷ ops) sorted (ground (arith, e))
