-- ===== src/UnitOfWork/Operation.antt =====
-- unitofwork/operation.go: the six operations, their identity and their merging.
-- `h` is the heap that the entities of the operations live on.
pub mod Merge
use toolkit.Prelude.{
  ℕ, Bool, true, false, not, ◌&&◌, ◌||◌, ◌==◌, List, [], ◌∷◌, ◌++◌, Option, none, some, Bytes,
  if◌then◌else◌,
}
use toolkit.UnitOfWork.Entity.{EntityType, Ref, Heap, type_of, get_id}
use toolkit.UnitOfWork.Snapshot.{Changes}

pub data OperationType : Type 0 where
  insert update delete bulk_insert bulk_update bulk_delete : OperationType

-- `String` of an operation type.
unfoldable pub operation_type_string : OperationType → Bytes
operation_type_string insert = b'I' ∷ b'N' ∷ b'S' ∷ b'E' ∷ b'R' ∷ b'T' ∷ []
operation_type_string update = b'U' ∷ b'P' ∷ b'D' ∷ b'A' ∷ b'T' ∷ b'E' ∷ []
operation_type_string delete = b'D' ∷ b'E' ∷ b'L' ∷ b'E' ∷ b'T' ∷ b'E' ∷ []
operation_type_string bulk_insert =
    b'B' ∷ b'U' ∷ b'L' ∷ b'K' ∷ b'_' ∷ b'I' ∷ b'N' ∷ b'S' ∷ b'E' ∷ b'R' ∷ b'T' ∷ []
operation_type_string bulk_update =
    b'B' ∷ b'U' ∷ b'L' ∷ b'K' ∷ b'_' ∷ b'U' ∷ b'P' ∷ b'D' ∷ b'A' ∷ b'T' ∷ b'E' ∷ []
operation_type_string bulk_delete =
    b'B' ∷ b'U' ∷ b'L' ∷ b'K' ∷ b'_' ∷ b'D' ∷ b'E' ∷ b'L' ∷ b'E' ∷ b'T' ∷ b'E' ∷ []

-- `==` on operation types: their numbers are compared.
abbrev pub operation_type_code : OperationType → ℕ
operation_type_code insert = 0
operation_type_code update = 1
operation_type_code delete = 2
operation_type_code bulk_insert = 3
operation_type_code bulk_update = 4
operation_type_code bulk_delete = 5

infix 50 ◌=ᵒ◌
abbrev pub ◌=ᵒ◌ : OperationType → OperationType → Bool
s =ᵒ t = operation_type_code s == operation_type_code t

-- A bulk operation keeps its `reflect.Type`, nil for no entities.
pub data Operation : Type 0 where
  insert_operation : Ref → Operation
  update_operation : Ref → Changes → Operation
  delete_operation : Ref → Operation
  bulk_insert_operation : List Ref → Option EntityType → Operation
  bulk_update_operation : List Ref → Option EntityType → Operation
  bulk_delete_operation : List Ref → Option EntityType → Operation

unfoldable pub get_operation_type : Operation → OperationType
get_operation_type (insert_operation e) = insert
get_operation_type (update_operation e c) = update
get_operation_type (delete_operation e) = delete
get_operation_type (bulk_insert_operation es t) = bulk_insert
get_operation_type (bulk_update_operation es t) = bulk_update
get_operation_type (bulk_delete_operation es t) = bulk_delete

-- The first entity of a bulk operation.
unfoldable pub first_entity : List Ref → Option Ref
first_entity [] = none
first_entity (e ∷ es) = some e

unfoldable pub get_entity : Operation → Option Ref
unfolding first_entity
get_entity (insert_operation e) = some e
get_entity (update_operation e c) = some e
get_entity (delete_operation e) = some e
get_entity (bulk_insert_operation es t) = first_entity es
get_entity (bulk_update_operation es t) = first_entity es
get_entity (bulk_delete_operation es t) = first_entity es

-- `==` on `reflect.Type` values, nil included.
abbrev pub same_type : Option EntityType → Option EntityType → Bool
same_type none none = true
same_type none (some t) = false
same_type (some s) none = false
same_type (some s) (some t) = s == t

module _ (h : Heap) where
  unfoldable pub get_entity_type : Operation → Option EntityType
  get_entity_type (insert_operation e) = some (type_of h e)
  get_entity_type (update_operation e c) = some (type_of h e)
  get_entity_type (delete_operation e) = some (type_of h e)
  get_entity_type (bulk_insert_operation es t) = t
  get_entity_type (bulk_update_operation es t) = t
  get_entity_type (bulk_delete_operation es t) = t

  -- The entity type that the constructors of the bulk operations compute.
  abbrev pub bulk_type : List Ref → Option EntityType
  bulk_type [] = none
  bulk_type (e ∷ es) = some (type_of h e)

  unfoldable pub new_bulk_insert_operation : List Ref → Operation
  new_bulk_insert_operation es = bulk_insert_operation es (bulk_type es)

  unfoldable pub new_bulk_update_operation : List Ref → Operation
  new_bulk_update_operation es = bulk_update_operation es (bulk_type es)

  unfoldable pub new_bulk_delete_operation : List Ref → Operation
  new_bulk_delete_operation es = bulk_delete_operation es (bulk_type es)

  -- The common part of the three `SameIdentity` methods of single operations.
  same_entity : OperationType → Ref → Operation → Bool
  unfolding get_operation_type get_entity
  same_entity kind e other =
      if not (get_operation_type other =ᵒ kind) then false else (elim (get_entity other) [
        | none ↦ false
        | some o ↦ (get_id h e == get_id h o) && (type_of h e == type_of h o)
      ])

  unfoldable pub same_identity : Operation → Operation → Bool
  unfolding same_entity
  same_identity (insert_operation e) other = same_entity insert e other
  same_identity (update_operation e c) other = same_entity update e other
  same_identity (delete_operation e) other = same_entity delete e other
  same_identity (bulk_insert_operation es t) other = false
  same_identity (bulk_update_operation es t) other = false
  same_identity (bulk_delete_operation es t) other = false

  unfoldable pub can_merge : Operation → Operation → Bool
  unfolding get_operation_type get_entity_type
  can_merge (insert_operation e) other =
      (get_operation_type other =ᵒ insert) && same_type (some (type_of h e)) (get_entity_type other)
  can_merge (update_operation e c) other =
      (get_operation_type other =ᵒ update) && same_type (some (type_of h e)) (get_entity_type other)
  can_merge (delete_operation e) other =
      (get_operation_type other =ᵒ delete) && same_type (some (type_of h e)) (get_entity_type other)
  can_merge (bulk_insert_operation es t) other =
      (get_operation_type other =ᵒ insert || get_operation_type other =ᵒ bulk_insert)
      && same_type t (get_entity_type other)
  can_merge (bulk_update_operation es t) other =
      (get_operation_type other =ᵒ update || get_operation_type other =ᵒ bulk_update)
      && same_type t (get_entity_type other)
  can_merge (bulk_delete_operation es t) other =
      (get_operation_type other =ᵒ delete || get_operation_type other =ᵒ bulk_delete)
      && same_type t (get_entity_type other)

-- `GetEntities` of the bulk operations, and the entity of a single one.
unfoldable pub get_entities : Operation → List Ref
get_entities (insert_operation e) = e ∷ []
get_entities (update_operation e c) = e ∷ []
get_entities (delete_operation e) = e ∷ []
get_entities (bulk_insert_operation es t) = es
get_entities (bulk_update_operation es t) = es
get_entities (bulk_delete_operation es t) = es

-- `append(es, e)`
abbrev append_entity : List Ref → Option Ref → List Ref
append_entity es none = es
append_entity es (some e) = es ++ e ∷ []

-- `append(es, other.GetEntity())` for a single operation, the entities of a bulk one of the same
-- kind, and nothing otherwise.
add_entities : OperationType → OperationType → List Ref → Operation → List Ref
unfolding get_operation_type get_entity get_entities
add_entities single bulk es other =
    if get_operation_type other =ᵒ single
    then append_entity es (get_entity other)
    else if get_operation_type other =ᵒ bulk
    then es ++ get_entities other
    else es

module _ (h : Heap) where
  unfoldable pub merge : Operation → Operation → Operation
  unfolding can_merge get_entities add_entities new_bulk_insert_operation new_bulk_update_operation
      new_bulk_delete_operation
  merge (insert_operation e) other =
      if not (can_merge h (insert_operation e) other)
      then insert_operation e
      else new_bulk_insert_operation h (append_entity (e ∷ []) (get_entity other))
  merge (update_operation e c) other =
      if not (can_merge h (update_operation e c) other)
      then update_operation e c
      else new_bulk_update_operation h (append_entity (e ∷ []) (get_entity other))
  merge (delete_operation e) other =
      if not (can_merge h (delete_operation e) other)
      then delete_operation e
      else new_bulk_delete_operation h (append_entity (e ∷ []) (get_entity other))
  merge (bulk_insert_operation es t) other =
      if not (can_merge h (bulk_insert_operation es t) other)
      then bulk_insert_operation es t
      else new_bulk_insert_operation h (add_entities insert bulk_insert es other)
  merge (bulk_update_operation es t) other =
      if not (can_merge h (bulk_update_operation es t) other)
      then bulk_update_operation es t
      else new_bulk_update_operation h (add_entities update bulk_update es other)
  merge (bulk_delete_operation es t) other =
      if not (can_merge h (bulk_delete_operation es t) other)
      then bulk_delete_operation es t
      else new_bulk_delete_operation h (add_entities delete bulk_delete es other)
