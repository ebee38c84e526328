-- ===== src/UnitOfWork/Tests/Planning.antt =====
-- A plan for a whole unit of work.
use toolkit.Prelude.{◌≡◌, refl, false, ◌∷◌, [], arith}
use toolkit.UnitOfWork.Config.{default_config}
use toolkit.UnitOfWork.Operation.{get_operation_type, can_merge, merge}
use toolkit.UnitOfWork.Plan.{
  Planned, plan_operations, optimize_operations, has_type, operation_key, remove_invalid_operations,
  merge_operations,
}
use toolkit.UnitOfWork.Operation.Merge.{inserting}
use toolkit.UnitOfWork.Entity.{Ref, type_of}
use toolkit.UnitOfWork.Plan.Kinds.{kind_entities}
use toolkit.UnitOfWork.Plan.Whole.{plan_operations-kind_entities}
use toolkit.UnitOfWork.State.{UnitOfWork, new_unit_of_work}
use toolkit.UnitOfWork.Tests.Data.{reflect, ordering, heap, dependencies, dependencies-IsMap}
use toolkit.UnitOfWork.Tests.Sorting.{
  registered_operations, planned_operations, planned, planned_merged_operations, planned_merged,
}

-- Three insertions, an update and a deletion, which are not merged.
abbrev unit : UnitOfWork
unit = record (new_unit_of_work []) {
  operations = registered_operations;
  dependency_manager = dependencies;
  config = record default_config { enable_operation_merge = false };
}

unit_planned :
    plan_operations reflect ordering (λ n. n ∷ []) heap unit ≡ Planned.ok planned_operations
unfolding plan_operations optimize_operations new_unit_of_work
unit_planned = planned

-- The same operations, merged.
abbrev merging_unit : UnitOfWork
merging_unit = record unit { config = default_config }

merging_unit_planned :
    plan_operations reflect ordering (λ n. n ∷ []) heap merging_unit
    ≡ Planned.ok planned_merged_operations
unfolding plan_operations optimize_operations new_unit_of_work merge_operations
    remove_invalid_operations toolkit.UnitOfWork.Plan.sort_operations_by_dependency
    get_operation_type toolkit.UnitOfWork.Plan.sort_groups can_merge
    toolkit.UnitOfWork.Plan.sort_operations_by_entity_dependency merge
merging_unit_planned = planned_merged

pub typed_keys :
    (a b : Ref)
    → operation_key reflect (λ n. n ∷ []) heap a ≡ operation_key reflect (λ n. n ∷ []) heap b
    → type_of heap a ≡ type_of heap b
typed_keys a b same = ground (arith, same)

plan_operations-kind_entities_example :
    kind_entities heap inserting 2 planned_merged_operations
    ≡ kind_entities heap inserting 2 registered_operations
unfolding new_unit_of_work merge_operations has_type get_operation_type can_merge merge
plan_operations-kind_entities_example =
    plan_operations-kind_entities reflect ordering (λ n. n ∷ []) heap merging_unit typed_keys
      dependencies-IsMap refl (tt, (tt, (tt, (tt, (tt, tt))))) planned_merged_operations
      merging_unit_planned inserting 2
