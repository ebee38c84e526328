-- ===== src/UnitOfWork/Plan/Rearranged.antt =====
-- The operations that `sortOperationsByDependency` of unitofwork/unitofwork.go sorts, counted.
use toolkit.Prelude.{
  ◌≡◌, refl, sym, ap, ◌∙◌, ℕ, ◌+◌, Bool, true, false, leb, List, [], ◌∷◌, ◌++◌, inl, inr, arith,
  Bytes, bytes_eq_instance, Bool-cases, if◌then◌else◌, count_if, count_if-append, length,
}
use toolkit.UnitOfWork.Dependency.{
  DependencyManager, Ordering, Sorted, get_insertion_order, get_deletion_order,
}
use toolkit.UnitOfWork.Dependency.Edges.{IsMap}
use toolkit.UnitOfWork.Dependency.Outcome.{
  Rearranges, rearranges, refuses, get_insertion_order-Rearranges, get_deletion_order-Rearranges,
}
use toolkit.UnitOfWork.Entity.{Heap}
use toolkit.UnitOfWork.Operation.{
  Operation, insert_operation, update_operation, delete_operation, bulk_insert_operation,
  bulk_update_operation, bulk_delete_operation, OperationType, get_operation_type,
}
use toolkit.UnitOfWork.Plan.{
  Planned, ok, entities_of_operations, operation_map, operations_for, regroup, has_type, of_types,
  join_groups, sort_groups, sort_operations_by_entity_dependency, sort_operations_by_dependency,
  optimize_operations, merge_operations, plan_operations,
}
use toolkit.UnitOfWork.Plan.Cancel.{remove_invalid_operations_lem}
use toolkit.UnitOfWork.Plan.Distinct.{
  are_distinct, operations_for-count_if, entities-count_if, count_if-same,
}
use toolkit.UnitOfWork.Snapshot.{Reflect}
use toolkit.UnitOfWork.State.{UnitOfWork}

ok-injective : (xs ys : List Operation) → ok xs ≡ ok ys → xs ≡ ys
ok-injective xs ys e = ground (arith, e)

-- Every operation has one of the three kinds.
abbrev pub inserts : List Operation → List Operation
inserts = of_types OperationType.insert OperationType.bulk_insert

abbrev pub updates : List Operation → List Operation
updates = of_types OperationType.update OperationType.bulk_update

abbrev pub deletes : List Operation → List Operation
deletes = of_types OperationType.delete OperationType.bulk_delete

-- The kind of an operation is one of the three.
abbrev one_if : Bool → ℕ
one_if b = if b then 1 else 0

has_type-one :
    (op : Operation)
    → one_if (has_type OperationType.insert OperationType.bulk_insert op)
        + one_if (has_type OperationType.update OperationType.bulk_update op)
        + one_if (has_type OperationType.delete OperationType.bulk_delete op)
      ≡ 1
unfolding has_type get_operation_type
has_type-one (insert_operation e) = refl
has_type-one (update_operation e c) = refl
has_type-one (delete_operation e) = refl
has_type-one (bulk_insert_operation es t) = refl
has_type-one (bulk_update_operation es t) = refl
has_type-one (bulk_delete_operation es t) = refl

module _ (p : Operation → Bool) where
  of_types-count_if :
      (ops : List Operation)
      → count_if p (inserts ops) + count_if p (updates ops) + count_if p (deletes ops)
        ≡ count_if p ops
  of_types-count_if [] = refl
  of_types-count_if (op ∷ ops) = ground (arith, has_type-one op, of_types-count_if ops)

module _ (rt : Reflect) (ord : Ordering) (sprint_id : ℕ → Bytes) (h : Heap) (dm : DependencyManager)
    (graph : IsMap dm.dependency_graph) (p : Operation → Bool) where
  regroup-count_if :
      (ops sorted : List Operation) (r : Sorted)
      → Rearranges (entities_of_operations rt ord sprint_id h ops) r
      → are_distinct rt ord sprint_id h ops ≡ true
      → regroup rt ord sprint_id h (operation_map rt ord sprint_id h ops []) r ≡ ok sorted
      → count_if p sorted ≡ count_if p ops
  unfolding regroup
  regroup-count_if ops sorted r (refuses e) distinct done = ground (arith, e, done)
  regroup-count_if ops sorted r (rearranges order e same) distinct done =
      let m = operation_map rt ord sprint_id h ops [] in
      let is : operations_for rt ord sprint_id h m order ≡ sorted =
        ok-injective _ _ (ap (regroup rt ord sprint_id h m) (sym e) ∙ done) in
      ap (count_if p) (sym is)
      ∙ operations_for-count_if rt ord sprint_id h p m order
      ∙ count_if-same rt ord sprint_id h p _ order _ same
      ∙ entities-count_if rt ord sprint_id h p ops [] distinct

  order-Rearranges :
      (ops : List Operation) (reverse : Bool)
      → Rearranges (entities_of_operations rt ord sprint_id h ops) (
          if reverse
          then get_deletion_order rt ord dm h (entities_of_operations rt ord sprint_id h ops)
          else get_insertion_order rt ord dm h (entities_of_operations rt ord sprint_id h ops))
  order-Rearranges ops true = get_deletion_order-Rearranges rt ord dm h graph _
  order-Rearranges ops false = get_insertion_order-Rearranges rt ord dm h graph _

  sort_by_entity-count_if :
      (ops sorted : List Operation) (reverse : Bool)
      → are_distinct rt ord sprint_id h ops ≡ true
      → sort_operations_by_entity_dependency rt ord sprint_id h dm ops reverse ≡ ok sorted
      → count_if p sorted ≡ count_if p ops
  unfolding sort_operations_by_entity_dependency
  sort_by_entity-count_if ops sorted reverse distinct done =
      elim (Bool-cases (leb (length ops) 1)) [
        | inl few ↦ ap (count_if p) (sym (ok-injective _ _ (rw (few) at done)))
        | inr many ↦
            regroup-count_if ops sorted _ (order-Rearranges ops reverse) distinct
              (rw (many) at done)
      ]

  join_groups-count_if :
      (ops sorted : List Operation) (inserted deleted : Planned)
      → ((xs : List Operation) → inserted ≡ ok xs → count_if p xs ≡ count_if p (inserts ops))
      → ((xs : List Operation) → deleted ≡ ok xs → count_if p xs ≡ count_if p (deletes ops))
      → join_groups rt ord sprint_id h inserted (updates ops) deleted ≡ ok sorted
      → count_if p sorted ≡ count_if p ops
  unfolding join_groups
  join_groups-count_if ops sorted Planned.circular_dependency d same same' done =
      ground (arith, done)
  join_groups-count_if ops sorted Planned.out_of_fuel d same same' done = ground (arith, done)
  join_groups-count_if ops sorted (ok xs) Planned.circular_dependency same same' done =
      ground (arith, done)
  join_groups-count_if ops sorted (ok xs) Planned.out_of_fuel same same' done = ground (arith, done)
  join_groups-count_if ops sorted (ok xs) (ok ys) same same' done =
      ap (count_if p) (sym (ok-injective _ _ done))
      ∙ count_if-append p xs (updates ops ++ ys)
      ∙ omega (
        arith,
        same xs refl,
        same' ys refl,
        count_if-append p (updates ops) ys,
        of_types-count_if p ops,
      )

  sort_groups-count_if :
      (ops sorted : List Operation)
      → are_distinct rt ord sprint_id h (inserts ops) ≡ true
      → are_distinct rt ord sprint_id h (deletes ops) ≡ true
      → sort_groups rt ord sprint_id h dm ops ≡ ok sorted
      → count_if p sorted ≡ count_if p ops
  unfolding sort_groups
  sort_groups-count_if ops sorted distinct distinct' done =
      join_groups-count_if ops sorted _ _
        (λ xs. sort_by_entity-count_if (inserts ops) xs false distinct)
        (λ xs. sort_by_entity-count_if (deletes ops) xs true distinct') done

  sort_operations_by_dependency-count_if :
      (ops sorted : List Operation)
      → are_distinct rt ord sprint_id h (inserts ops) ≡ true
      → are_distinct rt ord sprint_id h (deletes ops) ≡ true
      → sort_operations_by_dependency rt ord sprint_id h dm ops ≡ ok sorted
      → count_if p sorted ≡ count_if p ops
  unfolding sort_operations_by_dependency
  sort_operations_by_dependency-count_if ops sorted distinct distinct' done =
      elim (Bool-cases (leb (length ops) 1)) [
        | inl single ↦ ap (count_if p) (sym (ok-injective _ _ (rw (single) at done)))
        | inr many ↦ sort_groups-count_if ops sorted distinct distinct' (rw (many) at done)
      ]

-- What is registered, merged if merging is on.
abbrev pub merged : Heap → UnitOfWork → List Operation
merged h u =
    if u.config.enable_operation_merge then merge_operations h u.operations else u.operations

pub optimize_operations-merged : (h : Heap) (u : UnitOfWork) → optimize_operations h u ≡ merged h u
unfolding optimize_operations
optimize_operations-merged h u = elim (Bool-cases u.config.enable_operation_merge) [
  | inl merges ↦
      rw (merges, optimize_operations)
        (ap (merge_operations h) (remove_invalid_operations_lem h u.operations))
  | inr keeps ↦ rw (keeps, optimize_operations) refl
]

-- Let the dependency graph have each type once at most as a key. Take the registered operations,
-- merged if merging is on; let each insertion among them be on an entity, no two on entities with the
-- same text of type and ID, and the same for the deletions. If `Commit` can plan the operations, it executes exactly these, in some order: whatever is asked of an operation, as many
-- of the plan satisfy it as of these.
pub plan_operations-count_if :
    (rt : Reflect) (ord : Ordering) (sprint_id : ℕ → Bytes) (h : Heap) (u : UnitOfWork)
    → IsMap u.dependency_manager.dependency_graph
    → are_distinct rt ord sprint_id h (inserts (merged h u)) ≡ true
    → are_distinct rt ord sprint_id h (deletes (merged h u)) ≡ true
    → (sorted : List Operation) → plan_operations rt ord sprint_id h u ≡ ok sorted
    → (p : Operation → Bool) → count_if p sorted ≡ count_if p (merged h u)
unfolding plan_operations
plan_operations-count_if rt ord sprint_id h u graph distinct distinct' sorted planned p =
    sort_operations_by_dependency-count_if rt ord sprint_id h u.dependency_manager graph p
      (merged h u) sorted distinct distinct'
      (ap (sort_operations_by_dependency rt ord sprint_id h u.dependency_manager)
          (sym (optimize_operations-merged h u))
        ∙ planned)
