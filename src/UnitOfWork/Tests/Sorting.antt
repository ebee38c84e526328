-- ===== src/UnitOfWork/Tests/Sorting.antt =====
-- The plan of unitofwork/unitofwork.go at concrete entities.
use toolkit.Prelude.{
  ℕ, ◌≡◌, ◌≤◌, ◌<◌, refl, Bool, true, false, not, ◌&&◌, ◌==◌, List, [], ◌∷◌, arith, if◌then◌else◌,
  count, elem, All, ==_iff, some,
}
use toolkit.Prelude.Map.{lookup}
use toolkit.UnitOfWork.Dependency.{
  ok, circular_dependency, get_insertion_order, get_deletion_order, has_dependency,
  register_dependency, remove_dependency, new_dependency_manager,
}
use toolkit.UnitOfWork.Entity.{Ref}
use toolkit.UnitOfWork.Operation.{
  Operation, insert_operation, update_operation, delete_operation, bulk_insert_operation,
  OperationType,
}
use toolkit.UnitOfWork.Plan.{
  Planned, remove_invalid_operations, merge_operations, sort_operations_by_dependency,
}
use toolkit.UnitOfWork.Plan.{operation_key, sort_operations_by_entity_dependency}
use toolkit.UnitOfWork.Plan.Kept.{KeepsEntities, sort_operations_by_entity_dependency-KeepsEntities}
use toolkit.UnitOfWork.Plan.Cancel.{remove_invalid_operations_lem}
use toolkit.UnitOfWork.Operation.Merge.{inserting}
use toolkit.UnitOfWork.Plan.Kinds.{kind_entities, kind_count}
use toolkit.UnitOfWork.Plan.Merged.{merge_operations-entities, merge_operations-count}
use toolkit.UnitOfWork.Plan.Order.{IsInOrder, sort_operations_by_dependency-IsInOrder}
use toolkit.UnitOfWork.Tests.Data.{reflect, ordering, heap, dependencies, dependencies-IsMap}

abbrev pub registered_operations : List Operation
registered_operations =
    delete_operation 30
    ∷ insert_operation 20
    ∷ insert_operation 10
    ∷ update_operation 11 []
    ∷ insert_operation 21
    ∷ []

remove_invalid_operations_example :
    remove_invalid_operations heap (insert_operation 10 ∷ delete_operation 10 ∷ [])
    ≡ insert_operation 10 ∷ delete_operation 10 ∷ []
remove_invalid_operations_example =
    remove_invalid_operations_lem heap (insert_operation 10 ∷ delete_operation 10 ∷ [])

merge_operations-entities_example :
    kind_entities heap inserting 2 (merge_operations heap registered_operations)
    ≡ kind_entities heap inserting 2 registered_operations
merge_operations-entities_example =
    merge_operations-entities heap registered_operations (tt, (tt, (tt, (tt, (tt, tt))))) inserting
      2

merge_operations-count_example :
    (kind_count heap inserting 2 (merge_operations heap registered_operations) ≤ 1)
    × (kind_count heap inserting 2 (merge_operations heap registered_operations)
        ≤ kind_count heap inserting 2 registered_operations)
merge_operations-count_example =
    merge_operations-count heap registered_operations (tt, (tt, (tt, (tt, (tt, tt))))) inserting 2

abbrev pub planned_operations : List Operation
planned_operations =
    insert_operation 10
    ∷ insert_operation 20
    ∷ insert_operation 21
    ∷ update_operation 11 []
    ∷ delete_operation 30
    ∷ []

pub planned :
    sort_operations_by_dependency reflect ordering
      (λ n. n ∷ [])
      heap
      dependencies
      registered_operations
    ≡ Planned.ok planned_operations
unfolding sort_operations_by_dependency toolkit.UnitOfWork.Plan.sort_groups
    toolkit.UnitOfWork.Plan.sort_operations_by_entity_dependency toolkit.UnitOfWork.Plan.has_type
    toolkit.UnitOfWork.Plan.entities_of_operations toolkit.UnitOfWork.Plan.join_groups
    toolkit.UnitOfWork.Plan.operation_map toolkit.UnitOfWork.Plan.operations_for
    toolkit.UnitOfWork.Plan.regroup toolkit.UnitOfWork.Operation.get_operation_type
    toolkit.UnitOfWork.Operation.get_entity toolkit.UnitOfWork.Operation.first_entity
    get_insertion_order get_deletion_order toolkit.UnitOfWork.Dependency.topological_sort
    toolkit.UnitOfWork.Dependency.finish_sort toolkit.UnitOfWork.Dependency.sort_types
    toolkit.UnitOfWork.Dependency.visit_queue toolkit.UnitOfWork.Dependency.sort_by_weight
    toolkit.UnitOfWork.Dependency.sources toolkit.UnitOfWork.Dependency.entity_types
    toolkit.UnitOfWork.Dependency.group_by_type toolkit.UnitOfWork.Dependency.calculate_in_degree
    toolkit.UnitOfWork.Dependency.collect toolkit.UnitOfWork.Dependency.count_dependents
    toolkit.UnitOfWork.Dependency.count_edges toolkit.UnitOfWork.Dependency.dependencies_in
    toolkit.UnitOfWork.Dependency.get_entity_weight toolkit.UnitOfWork.Dependency.get_neighbors
    toolkit.UnitOfWork.Dependency.init_degrees toolkit.UnitOfWork.Dependency.sort_entities_by_id
    toolkit.UnitOfWork.Dependency.visit_neighbors toolkit.UnitOfWork.Tests.Data.sort_by
    toolkit.Prelude.Map.insert lookup toolkit.Prelude.bytes_eq toolkit.Prelude.bytes_lt
planned = refl

abbrev pub merged_operations : List Operation
merged_operations =
    delete_operation 30
    ∷ bulk_insert_operation (20 ∷ 21 ∷ []) (some 2)
    ∷ insert_operation 10
    ∷ update_operation 11 []
    ∷ []

abbrev pub planned_merged_operations : List Operation
planned_merged_operations =
    insert_operation 10
    ∷ bulk_insert_operation (20 ∷ 21 ∷ []) (some 2)
    ∷ update_operation 11 []
    ∷ delete_operation 30
    ∷ []

pub planned_merged :
    sort_operations_by_dependency reflect ordering (λ n. n ∷ []) heap dependencies merged_operations
    ≡ Planned.ok planned_merged_operations
unfolding sort_operations_by_dependency toolkit.UnitOfWork.Plan.sort_groups
    toolkit.UnitOfWork.Plan.sort_operations_by_entity_dependency toolkit.UnitOfWork.Plan.has_type
    toolkit.UnitOfWork.Plan.entities_of_operations toolkit.UnitOfWork.Plan.join_groups
    toolkit.UnitOfWork.Plan.operation_map toolkit.UnitOfWork.Plan.operations_for
    toolkit.UnitOfWork.Plan.regroup toolkit.UnitOfWork.Operation.get_operation_type
    toolkit.UnitOfWork.Operation.get_entity toolkit.UnitOfWork.Operation.first_entity
    get_insertion_order get_deletion_order toolkit.UnitOfWork.Dependency.topological_sort
    toolkit.UnitOfWork.Dependency.finish_sort toolkit.UnitOfWork.Dependency.sort_types
    toolkit.UnitOfWork.Dependency.visit_queue toolkit.UnitOfWork.Dependency.sort_by_weight
    toolkit.UnitOfWork.Dependency.sources toolkit.UnitOfWork.Dependency.entity_types
    toolkit.UnitOfWork.Dependency.group_by_type toolkit.UnitOfWork.Dependency.calculate_in_degree
    toolkit.UnitOfWork.Dependency.collect toolkit.UnitOfWork.Dependency.count_dependents
    toolkit.UnitOfWork.Dependency.count_edges toolkit.UnitOfWork.Dependency.dependencies_in
    toolkit.UnitOfWork.Dependency.get_entity_weight toolkit.UnitOfWork.Dependency.get_neighbors
    toolkit.UnitOfWork.Dependency.init_degrees toolkit.UnitOfWork.Dependency.sort_entities_by_id
    toolkit.UnitOfWork.Dependency.visit_neighbors toolkit.UnitOfWork.Tests.Data.sort_by
    toolkit.Prelude.Map.insert lookup toolkit.Prelude.bytes_eq toolkit.Prelude.bytes_lt
planned_merged = refl

sort_operations_by_dependency_example : IsInOrder registered_operations planned_operations
sort_operations_by_dependency_example =
    sort_operations_by_dependency-IsInOrder reflect ordering (λ n. n ∷ []) heap dependencies
      registered_operations planned_operations planned

abbrev two_insertions : List Operation
two_insertions = insert_operation 20 ∷ insert_operation 10 ∷ []

keys_differ :
    (a b : Ref)
    → elem a (20 ∷ 10 ∷ []) ≡ true
    → elem b (20 ∷ 10 ∷ []) ≡ true
    → operation_key reflect (λ n. n ∷ []) heap a ≡ operation_key reflect (λ n. n ∷ []) heap b
    → a ≡ b
keys_differ a b i j same = ground (arith, i, j, same)

sort_operations_by_entity_dependency_example :
    KeepsEntities reflect ordering
      (λ n. n ∷ [])
      heap
      dependencies
      dependencies-IsMap
      two_insertions
      (sort_operations_by_entity_dependency reflect ordering
        (λ n. n ∷ [])
        heap
        dependencies
        two_insertions
        false)
unfolding toolkit.UnitOfWork.Plan.entities_of_operations toolkit.UnitOfWork.Operation.get_entity
sort_operations_by_entity_dependency_example =
    sort_operations_by_entity_dependency-KeepsEntities reflect ordering (λ n. n ∷ []) heap
      dependencies dependencies-IsMap two_insertions refl keys_differ
