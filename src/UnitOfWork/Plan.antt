-- ===== src/UnitOfWork/Plan.antt =====
-- unitofwork/unitofwork.go: from the registered operations to the order in which `Commit` executes
-- them: cancelling, merging, and sorting by dependency.
pub mod Cancel
pub mod Kinds
pub mod Merged
pub mod Order
pub mod Kept
pub mod Distinct
pub mod Rearranged
pub mod Tagged
pub mod Apart
pub mod Whole
pub mod Succeeds
use toolkit.Prelude.{
  ℕ, zero, suc, ◌+◌, Bool, true, false, not, ◌&&◌, ◌||◌, ◌==◌, leb, List, [], ◌∷◌, ◌++◌, Option,
  none, some, Bytes, if◌then◌else◌, length, elem, bytes_eq_instance, map,
}
use toolkit.Prelude.Map.{lookup, insert}
use toolkit.UnitOfWork.Dependency as Dep
use toolkit.UnitOfWork.Dependency.{
  DependencyManager, Ordering, Sorted, get_insertion_order, get_deletion_order,
}
use toolkit.UnitOfWork.Entity.{Ref, Heap, type_of, get_id}
use toolkit.UnitOfWork.Operation.{
  Operation, OperationType, ◌=ᵒ◌, get_operation_type, get_entity, same_identity, can_merge, merge,
}
use toolkit.UnitOfWork.Snapshot.{Reflect}
use toolkit.UnitOfWork.State.{UnitOfWork}

module _ (h : Heap) where
  -- Whether two operations cancel each other.
  unfoldable pub cancels : Operation → Operation → Bool
  cancels op1 op2 =
      (get_operation_type op1 =ᵒ OperationType.insert)
      && (get_operation_type op2 =ᵒ OperationType.delete)
      && same_identity h op1 op2

  -- The inner loop: `j` is the index of the first operation of the list.
  unfoldable pub cancel_with : ℕ → Operation → ℕ → List Operation → List ℕ → List ℕ
  unfolding cancels
  cancel_with i op1 j [] canceled = canceled
  cancel_with i op1 j (op2 ∷ ops) canceled =
      let rest = cancel_with i op1 (j + 1) ops canceled in
      if leb j i || elem j canceled
      then rest
      else if cancels op1 op2
      then i ∷ j ∷ canceled
      else rest

  -- The outer loop, over the operations from index `i` on.
  unfoldable pub cancel_pairs : List Operation → ℕ → List Operation → List ℕ → List ℕ
  unfolding cancel_with
  cancel_pairs all i [] canceled = canceled
  cancel_pairs all i (op1 ∷ ops) canceled =
      cancel_pairs all (i + 1) ops
        (if elem i canceled then canceled else cancel_with i op1 0 all canceled)

  -- The operations whose index is not cancelled.
  unfoldable pub valid_operations : List ℕ → ℕ → List Operation → List Operation
  valid_operations canceled i [] = []
  valid_operations canceled i (op ∷ ops) =
      let rest = valid_operations canceled (i + 1) ops in
      if not (elem i canceled) then op ∷ rest else rest

  unfoldable pub remove_invalid_operations : List Operation → List Operation
  unfolding cancel_pairs valid_operations
  remove_invalid_operations ops = valid_operations (cancel_pairs ops 0 ops []) 0 ops

  -- The inner loop of the merge: the merged operation, and the list with the flags of `processed`.
  unfoldable pub absorb : Operation → List (Bool × Operation) → Operation × List (Bool × Operation)
  absorb current [] = (current, [])
  absorb current ((processed, op2) ∷ ops) =
      let mergeable = not processed && can_merge h current op2 in
      let (merged, rest) = absorb (if mergeable then merge h current op2 else current) ops in
      (merged, (processed || mergeable, op2) ∷ rest)

  -- The outer loop, once for each operation.
  unfoldable pub merge_rounds : ℕ → List (Bool × Operation) → List Operation
  unfolding absorb
  merge_rounds zero ops = []
  merge_rounds (suc n) [] = []
  merge_rounds (suc n) ((processed, op1) ∷ ops) = elim processed [
    | true ↦ merge_rounds n ops
    | false ↦ (let (merged, rest) = absorb op1 ops in merged ∷ merge_rounds n rest)
  ]

  unfoldable pub merge_operations : List Operation → List Operation
  unfolding merge_rounds
  merge_operations ops =
      if leb (length ops) 1 then ops else merge_rounds (length ops) (map (λ op. (false, op)) ops)

  unfoldable pub optimize_operations : UnitOfWork → List Operation
  unfolding remove_invalid_operations merge_operations
  optimize_operations u =
      if not u.config.enable_operation_merge
      then u.operations
      else merge_operations (remove_invalid_operations u.operations)

pub data Planned : Type 0 where
  ok : List Operation → Planned
  circular_dependency : Planned
  out_of_fuel : Planned

-- The operation has one of the two given types.
unfoldable pub has_type : OperationType → OperationType → Operation → Bool
has_type single bulk op = get_operation_type op =ᵒ single || get_operation_type op =ᵒ bulk

-- The operations of the two given types, in order.
abbrev pub of_types : OperationType → OperationType → List Operation → List Operation
of_types single bulk [] = []
of_types single bulk (op ∷ ops) =
    let rest = of_types single bulk ops in if has_type single bulk op then op ∷ rest else rest

-- `fmt.Sprintf("%s#%v", reflect.TypeOf(entity).String(), entity.GetID())`; `sprint_id` is `%v`.
abbrev pub operation_key : Reflect → (ℕ → Bytes) → Heap → Ref → Bytes
operation_key rt sprint_id h e = rt.type_string (type_of h e) ++ b'#' ∷ sprint_id (get_id h e)

module _ (rt : Reflect) (ord : Ordering) (sprint_id : ℕ → Bytes) (h : Heap) where
  -- `entities`, and `opMap`
  unfoldable pub entities_of_operations : List Operation → List Ref
  entities_of_operations [] = []
  entities_of_operations (op ∷ ops) = elim (get_entity op) [
    | none ↦ entities_of_operations ops
    | some e ↦ e ∷ entities_of_operations ops
  ]

  unfoldable pub operation_map :
      List Operation → List (Bytes × Operation) → List (Bytes × Operation)
  operation_map [] m = m
  operation_map (op ∷ ops) m =
      operation_map ops
        (elim (get_entity op) [ none ↦ m | some e ↦ insert (operation_key rt sprint_id h e) op m ])

  unfoldable pub operations_for : List (Bytes × Operation) → List Ref → List Operation
  operations_for m [] = []
  operations_for m (e ∷ es) = elim (lookup (operation_key rt sprint_id h e) m) [
    | none ↦ operations_for m es
    | some op ↦ op ∷ operations_for m es
  ]

  unfoldable pub regroup : List (Bytes × Operation) → Sorted → Planned
  unfolding operations_for
  regroup m (Sorted.ok entities) = ok (operations_for m entities)
  regroup m Sorted.circular_dependency = circular_dependency
  regroup m Sorted.out_of_fuel = out_of_fuel

  unfoldable pub sort_operations_by_entity_dependency :
      DependencyManager → List Operation → Bool → Planned
  unfolding entities_of_operations operation_map regroup
  sort_operations_by_entity_dependency dm ops reverse =
      if leb (length ops) 1
      then ok ops
      else regroup (operation_map ops []) (
          if reverse
          then get_deletion_order rt ord dm h (entities_of_operations ops)
          else get_insertion_order rt ord dm h (entities_of_operations ops))

  -- The three sorted groups, or the first error.
  unfoldable pub join_groups : Planned → List Operation → Planned → Planned
  join_groups circular_dependency updates deletes = circular_dependency
  join_groups out_of_fuel updates deletes = out_of_fuel
  join_groups (ok inserts) updates circular_dependency = circular_dependency
  join_groups (ok inserts) updates out_of_fuel = out_of_fuel
  join_groups (ok inserts) updates (ok deletes) = ok (inserts ++ (updates ++ deletes))

  -- The part of `sortOperationsByDependency` that groups the operations by type.
  unfoldable pub sort_groups : DependencyManager → List Operation → Planned
  unfolding join_groups
  sort_groups dm ops =
      join_groups
        (sort_operations_by_entity_dependency dm
          (of_types OperationType.insert OperationType.bulk_insert ops) false)
        (of_types OperationType.update OperationType.bulk_update ops)
        (sort_operations_by_entity_dependency dm
          (of_types OperationType.delete OperationType.bulk_delete ops) true)

  unfoldable pub sort_operations_by_dependency : DependencyManager → List Operation → Planned
  sort_operations_by_dependency dm ops = if leb (length ops) 1 then ok ops else sort_groups dm ops

  -- The operations that a commit executes, in order.
  unfoldable pub plan_operations : UnitOfWork → Planned
  plan_operations u = sort_operations_by_dependency u.dependency_manager (optimize_operations h u)
