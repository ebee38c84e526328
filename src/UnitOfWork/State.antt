-- ===== src/UnitOfWork/State.antt =====
-- unitofwork/unitofwork.go: the unit of work and the registration of entities. `none` for an entity
-- is a nil interface. Each method runs under the lock of the unit of work.
pub mod Identity
pub mod Steps
pub mod Invariant
pub mod Collision
use toolkit.Prelude.{
  ℕ, ◌+◌, Bool, true, false, not, ◌&&◌, ◌||◌, ◌==◌, leb, List, [], ◌∷◌, ◌++◌, Option, none, some,
  if◌then◌else◌, length, keep, any, nat_eq,
}
use toolkit.Prelude.Int.{ℤ, pos, negsuc}
use toolkit.Prelude.Map.{lookup, insert, lookup_or}
use toolkit.UnitOfWork.Config.{Config, ConfigOption, default_config, apply_options}
use toolkit.UnitOfWork.Dependency.{DependencyManager, default_dependency_manager}
use toolkit.UnitOfWork.Entity.{EntityType, Ref, Time, Heap, type_of, get_id}
use toolkit.UnitOfWork.Operation.{
  Operation, insert_operation, update_operation, delete_operation, same_identity,
}
use toolkit.UnitOfWork.Snapshot.{
  Reflect, Changes, SnapshotManager, new_snapshot_manager, take_snapshot, is_dirty,
  get_changed_fields,
}

-- Entities by their type.
abbrev pub EntityMap : Type 0
EntityMap = List (EntityType × List Ref)

pub record UnitOfWork : Type 0 where
  pub new_entities : EntityMap
  pub dirty_entities : EntityMap
  pub removed_entities : EntityMap
  pub snapshot_manager : SnapshotManager
  pub dependency_manager : DependencyManager
  pub operations : List Operation
  pub is_committed : Bool
  pub is_rolled_back : Bool
  pub is_executing : Bool
  pub config : Config

pub data UowError : Type 0 where
  already_finished nil_entity already_dirty already_removed removed_entity limit_exceeded
        already_committed already_rolled_back :
      UowError

unfoldable pub new_unit_of_work : List ConfigOption → UnitOfWork
unfolding apply_options
new_unit_of_work options = record {
  new_entities = [];
  dirty_entities = [];
  removed_entities = [];
  snapshot_manager = new_snapshot_manager;
  dependency_manager = default_dependency_manager;
  operations = [];
  is_committed = false;
  is_rolled_back = false;
  is_executing = false;
  config = apply_options default_config options;
}

-- The entities of one type.
abbrev pub entities_of : EntityType → EntityMap → List Ref
entities_of t m = lookup_or t [] m

module _ (h : Heap) where
  unfoldable pub contains_entity : EntityMap → Ref → Bool
  contains_entity m e = any (λ r. get_id h r == get_id h e) (entities_of (type_of h e) m)

  -- Drops the first entity with the ID, if there is one.
  unfoldable pub drop_id : ℕ → List Ref → Option (List Ref)
  drop_id id [] = none
  drop_id id (r ∷ rs) =
      let rest = drop_id id rs in
      if get_id h r == id then some rs else (elim rest [ none ↦ none | some rs' ↦ some (r ∷ rs') ])

  unfoldable pub remove_from_entity_list : EntityMap → Ref → EntityMap × Bool
  unfolding drop_id
  remove_from_entity_list m e = elim (drop_id (get_id h e) (entities_of (type_of h e) m)) [
    | none ↦ (m, false)
    | some rest ↦ (insert (type_of h e) rest m, true)
  ]

  -- An operation stays if it is none of the three operations on the entity.
  unfoldable pub is_unrelated : Ref → Operation → Bool
  is_unrelated e op =
      not (same_identity h op (insert_operation e))
      && not (same_identity h op (update_operation e []))
      && not (same_identity h op (delete_operation e))

  unfoldable pub remove_operation_by_entity : Ref → List Operation → List Operation
  unfolding is_unrelated
  remove_operation_by_entity e = keep (is_unrelated e)

  -- `m[type] = append(m[type], e)`
  abbrev pub add_entity : EntityMap → Ref → EntityMap
  add_entity m e = insert (type_of h e) (entities_of (type_of h e) m ++ e ∷ []) m

-- `getEntityCountByType`
unfoldable pub get_entity_count_by_type : EntityMap → ℕ
get_entity_count_by_type [] = 0
get_entity_count_by_type ((t, es) ∷ m) = length es + get_entity_count_by_type m

unfoldable pub get_total_entity_count : UnitOfWork → ℕ
unfolding get_entity_count_by_type
get_total_entity_count u =
    get_entity_count_by_type u.new_entities
    + get_entity_count_by_type u.dirty_entities
    + get_entity_count_by_type u.removed_entities

-- `true` if another entity may be registered.
abbrev below_limit : ℤ → ℕ → Bool
below_limit (negsuc n) total = true
below_limit (pos n) total = if n == 0 then true else not (leb n total)

unfoldable pub check_memory_limit : UnitOfWork → Bool
check_memory_limit u = below_limit u.config.max_entity_count (get_total_entity_count u)

unfoldable pub add_operation : Operation → UnitOfWork → UnitOfWork
add_operation op u = record u { operations = u.operations ++ op ∷ [] }

abbrev pub Outcome : Type 0
Outcome = UnitOfWork × Option UowError

module _ (h : Heap) where
  unfoldable pub create : Option Ref → UnitOfWork → Outcome
  unfolding contains_entity check_memory_limit add_operation
  create entity u =
      if u.is_committed || u.is_rolled_back then (u, some already_finished) else (elim entity [
        | none ↦ (u, some nil_entity)
        | some e ↦
            if contains_entity h u.dirty_entities e
            then (u, some already_dirty)
            else if contains_entity h u.removed_entities e
            then (u, some already_removed)
            else if contains_entity h u.new_entities e
            then (u, none)
            else if not (check_memory_limit u)
            then (u, some limit_exceeded)
            else (
              add_operation (insert_operation e)
                  (record u { new_entities = add_entity h u.new_entities e }),
              none,
            )
      ])

  -- Registers a dirty entity with its changes.
  abbrev register_dirty : Ref → Changes → UnitOfWork → UnitOfWork
  unfolding add_operation
  register_dirty e changes u =
      add_operation (update_operation e changes)
        (record u { dirty_entities = add_entity h u.dirty_entities e })

  unfoldable pub update : Reflect → Option Ref → UnitOfWork → Outcome
  unfolding contains_entity add_operation
  update rt entity u =
      if u.is_committed || u.is_rolled_back then (u, some already_finished) else (elim entity [
        | none ↦ (u, some nil_entity)
        | some e ↦
            if contains_entity h u.new_entities e
            then (u, none)
            else if contains_entity h u.removed_entities e
            then (u, some removed_entity)
            else if contains_entity h u.dirty_entities e
            then (u, none)
            else if u.config.enable_dirty_check
            then (if not (is_dirty rt u.snapshot_manager (h e))
                then (u, none)
                else (register_dirty e (get_changed_fields rt u.snapshot_manager (h e)) u, none))
            else (register_dirty e [] u, none)
      ])

  -- `Delete` of an entity that is not new.
  unfoldable pub delete_tracked : Ref → UnitOfWork → UnitOfWork
  unfolding remove_from_entity_list remove_operation_by_entity add_operation
  delete_tracked e u =
      let (dirty, _) = remove_from_entity_list h u.dirty_entities e in
      add_operation (delete_operation e) (record u {
        dirty_entities = dirty;
        operations = remove_operation_by_entity h e u.operations;
        removed_entities = add_entity h u.removed_entities e;
      })

  unfoldable pub delete : Option Ref → UnitOfWork → Outcome
  unfolding remove_from_entity_list remove_operation_by_entity delete_tracked
  delete entity u =
      if u.is_committed || u.is_rolled_back then (u, some already_finished) else (elim entity [
        | none ↦ (u, some nil_entity)
        | some e ↦
            let (new, removed) = remove_from_entity_list h u.new_entities e in
            if removed
            then (
              record u {
                new_entities = new;
                operations = remove_operation_by_entity h e u.operations;
              },
              none,
            )
            else (delete_tracked e u, none)
      ])

unfoldable pub uow_take_snapshot : Reflect → Heap → Time → Ref → UnitOfWork → UnitOfWork
uow_take_snapshot rt h now e u = record u {
  snapshot_manager = take_snapshot rt now u.snapshot_manager (h e);
}

-- `clear`: the entities, the operations and the snapshots go.
unfoldable pub clear : UnitOfWork → UnitOfWork
clear u = record u {
  new_entities = [];
  dirty_entities = [];
  removed_entities = [];
  operations = [];
  snapshot_manager = [];
}

unfoldable pub rollback : UnitOfWork → Outcome
unfolding clear
rollback u =
    if u.is_committed
    then (u, some already_committed)
    else if u.is_rolled_back
    then (u, some already_rolled_back)
    else (clear (record u { is_rolled_back = true }), none)

pub record Stats : Type 0 where
  pub new_entities : ℕ
  pub dirty_entities : ℕ
  pub removed_entities : ℕ
  pub total_operations : ℕ
  pub is_committed : Bool
  pub is_rolled_back : Bool

unfoldable pub get_stats : UnitOfWork → Stats
unfolding get_entity_count_by_type
get_stats u = record {
  new_entities = get_entity_count_by_type u.new_entities;
  dirty_entities = get_entity_count_by_type u.dirty_entities;
  removed_entities = get_entity_count_by_type u.removed_entities;
  total_operations = length u.operations;
  is_committed = u.is_committed;
  is_rolled_back = u.is_rolled_back;
}
