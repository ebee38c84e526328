-- ===== src/UnitOfWork/Operation/Merge.antt =====
-- `CanMerge` and `Merge` of unitofwork/operation.go, by the family of the operations.
use toolkit.Prelude.{◌≡◌, true, ◌++◌, arith}
use toolkit.UnitOfWork.Entity.{Heap}
use toolkit.UnitOfWork.Operation.{
  Operation, insert_operation, update_operation, delete_operation, bulk_insert_operation,
  bulk_update_operation, bulk_delete_operation, can_merge, merge, get_entities, get_operation_type,
  OperationType,
}

-- insert, update or delete, single or bulk
pub data Family : Type 0 where
  inserting updating deleting : Family

abbrev pub family_of_type : OperationType → Family
family_of_type OperationType.insert = inserting
family_of_type OperationType.bulk_insert = inserting
family_of_type OperationType.update = updating
family_of_type OperationType.bulk_update = updating
family_of_type OperationType.delete = deleting
family_of_type OperationType.bulk_delete = deleting

unfoldable pub family : Operation → Family
unfolding get_operation_type
family op = family_of_type (get_operation_type op)

module _ (h : Heap) where
  -- A merge keeps the family of its first operation.
  pub family-merge : (a b : Operation) → family (merge h a b) ≡ family a
  unfolding family merge
  family-merge (insert_operation e) b = ground arith
  family-merge (update_operation e c) b = ground arith
  family-merge (delete_operation e) b = ground arith
  family-merge (bulk_insert_operation es t) b = ground arith
  family-merge (bulk_update_operation es t) b = ground arith
  family-merge (bulk_delete_operation es t) b = ground arith

  pub family_of_can_merge : (a b : Operation) → can_merge h a b ≡ true → family a ≡ family b
  unfolding family can_merge
  family_of_can_merge (insert_operation e) b c = ground arith
  family_of_can_merge (update_operation e _) b c = ground arith
  family_of_can_merge (delete_operation e) b c = ground arith
  family_of_can_merge (bulk_insert_operation es t) b c = ground arith
  family_of_can_merge (bulk_update_operation es t) b c = ground arith
  family_of_can_merge (bulk_delete_operation es t) b c = ground arith

  -- A merge appends the entities of the second operation.
  pub get_entities-merge :
      (a b : Operation)
      → can_merge h a b ≡ true
      → get_entities (merge h a b) ≡ get_entities a ++ get_entities b
  unfolding merge
  get_entities-merge (insert_operation e) b c = ground arith
  get_entities-merge (update_operation e _) b c = ground arith
  get_entities-merge (delete_operation e) b c = ground arith
  get_entities-merge (bulk_insert_operation es t) b c = ground arith
  get_entities-merge (bulk_update_operation es t) b c = ground arith
  get_entities-merge (bulk_delete_operation es t) b c = ground arith
