-- ===== src/UnitOfWork/Plugin.antt =====
-- unitofwork/plugin.go: the callbacks that the plugin puts into gorm, around the original ones, and
-- `WithUnitOfWork`. A slice holds no nil pointer to an entity, which the code would dereference.
pub mod Options
pub mod Calls
pub mod Registers
pub mod Rows
use toolkit.Prelude.{
  ℕ, ◌+◌, Bool, true, false, not, ◌||◌, ltb, ◌==◌, List, [], ◌∷◌, ◌++◌, Option, none, some, Bytes,
  if◌then◌else◌, bytes_eq_instance,
}
use toolkit.Prelude.Map.{lookup, insert}
use toolkit.UnitOfWork.Commit.{Env, Callback, ManagerError, finish_unit}
use toolkit.UnitOfWork.Config.{Config, ConfigOption, default_config, apply_options}
use toolkit.UnitOfWork.Entity.{Ref, Time, Heap, get_id}
use toolkit.UnitOfWork.Execute.{World}
use toolkit.UnitOfWork.Plugin.Options.{PluginConfig, default_key}
use toolkit.UnitOfWork.Snapshot.{Reflect}
use toolkit.UnitOfWork.State.{
  UnitOfWork, UowError, Outcome, create, update, delete, new_unit_of_work, uow_take_snapshot,
}

-- An element of a slice, and `db.Statement.Dest`, by their kinds.
pub data Item : Type 0 where
  entity_item : Ref → Item
  other_item : Item

pub data Dest : Type 0 where
  nil_dest : Dest
  -- a struct, or a pointer to one, that is an entity, and one that is not
  entity_dest : Ref → Dest
  struct_dest : Dest
  slice_dest : List Item → Dest
  -- any other kind, with the entity if it is one
  other_dest : Option Ref → Dest

-- The units of work in a context, by their keys.
abbrev pub Context : Type 0
Context = List (Bytes × UnitOfWork)

unfoldable pub get_unit_of_work_from_context : Context → Bytes → Option UnitOfWork
get_unit_of_work_from_context ctx key = lookup key ctx

-- Also a write through the pointer in the context.
unfoldable pub set_unit_of_work_to_context : Context → UnitOfWork → Bytes → Context
set_unit_of_work_to_context ctx u key = insert key u ctx

pub data StatementError : Type 0 where
  registration_failed : UowError → StatementError
  -- an error of gorm
  gorm_failed : StatementError

-- A statement of gorm while its callbacks run.
pub record Statement (Db : Type 0) : Type 0 where
  pub dest : Dest
  pub context : Context
  pub world : World Db
  pub rows_affected : ℕ
  pub errors : List StatementError

unfoldable pub is_executing : UnitOfWork → Bool
is_executing u = u.is_executing

-- The ID of the first entity of the slice decides.
unfoldable pub check_items : Heap → List Item → Bool
check_items h [] = false
check_items h (entity_item e ∷ items) = ltb 0 (get_id h e)
check_items h (other_item ∷ items) = check_items h items

unfoldable pub check_dest : Heap → Dest → Bool
unfolding check_items
check_dest h nil_dest = false
check_dest h (entity_dest e) = ltb 0 (get_id h e)
check_dest h struct_dest = false
check_dest h (slice_dest items) = check_items h items
check_dest h (other_dest e) = false

-- What `processEntities` leaves: what the processor did, `RowsAffected`, and the error.
abbrev pub Processed : Type 0
Processed = UnitOfWork × ℕ × Option UowError

-- The loop over a slice, after `count` entities. Beside an error `RowsAffected` is still 0.
unfoldable pub process_items : (Ref → UnitOfWork → Outcome) → List Item → ℕ → UnitOfWork → Processed
process_items processor [] count u = (u, count, none)
process_items processor (other_item ∷ items) count u = process_items processor items count u
process_items processor (entity_item e ∷ items) count u =
    let (u', result) = processor e u in
    elim result [
      | some err ↦ (u', 0, some err)
      | none ↦ process_items processor items (count + 1) u'
    ]

unfoldable pub process_entity : (Ref → UnitOfWork → Outcome) → Ref → UnitOfWork → Processed
process_entity processor e u =
    let (u', result) = processor e u in
    elim result [ some err ↦ (u', 0, some err) | none ↦ (u', 1, none) ]

unfoldable pub process_entities : (Ref → UnitOfWork → Outcome) → Dest → ℕ → UnitOfWork → Processed
unfolding process_items process_entity
process_entities processor nil_dest rows u = (u, rows, none)
process_entities processor (entity_dest e) rows u = process_entity processor e u
process_entities processor struct_dest rows u = (u, 0, none)
process_entities processor (slice_dest items) rows u = process_items processor items 0 u
process_entities processor (other_dest none) rows u = (u, 0, none)
process_entities processor (other_dest (some e)) rows u = process_entity processor e u

-- A callback of gorm.
abbrev pub Hook : Type 0 → Type 0
Hook Db = Statement Db → Statement Db

-- `if p.originalCreate != nil { p.originalCreate(db) }`
unfoldable pub call_original : {Db : Type 0} → Option (Hook Db) → Hook Db
call_original none s = s
call_original (some original) s = original s

-- The log line for each entity.
abbrev log_entity : Heap → Ref → UnitOfWork → Outcome
log_entity h e u = (u, none)

-- The plugin is its configuration.
module _ {Db : Type 0} (p : PluginConfig) where
  -- The statement after `processEntities`, with the unit of work in its context.
  unfoldable pub after_processing : Option (Hook Db) → Statement Db → Processed → Statement Db
  unfolding call_original set_unit_of_work_to_context
  after_processing original s (u, rows, some err) = record s {
    context = set_unit_of_work_to_context s.context u p.context_key;
    rows_affected = rows;
    errors = s.errors ++ registration_failed err ∷ [];
  }
  after_processing original s (u, rows, none) =
      let s' = record s {
        context = set_unit_of_work_to_context s.context u p.context_key;
        rows_affected = rows;
      } in
      if rows == 0 then call_original original s' else s'

  -- The common body of the three callbacks, by the test of the destination and the processor.
  unfoldable pub register :
      (Statement Db → Bool) → (Heap → Ref → UnitOfWork → Outcome) → Option (Hook Db) → Hook Db
  unfolding call_original get_unit_of_work_from_context is_executing process_entities
      after_processing
  register accepts processor original s =
      if not p.auto_manage
      then call_original original s
      else (elim (get_unit_of_work_from_context s.context p.context_key) [
        | none ↦ call_original original s
        | some u ↦
            if is_executing u
            then call_original original s
            else if not (accepts s)
            then call_original original s
            else after_processing original s
                (process_entities (processor s.world.heap) s.dest s.rows_affected u)
      ])

  unfoldable pub unit_of_work_create : Option (Hook Db) → Hook Db
  unfolding register create
  unit_of_work_create = register (λ s. true) (λ h e. create h (some e))

  unfoldable pub unit_of_work_update : Reflect → Option (Hook Db) → Hook Db
  unfolding register check_dest update
  unit_of_work_update rt =
      register (λ s. check_dest s.world.heap s.dest) (λ h e. update h rt (some e))

  unfoldable pub unit_of_work_delete : Option (Hook Db) → Hook Db
  unfolding register check_dest delete
  unit_of_work_delete = register (λ s. check_dest s.world.heap s.dest) (λ h e. delete h (some e))

  -- Runs a processor over the entities, its errors being dropped.
  unfoldable pub visit_entities : (Ref → UnitOfWork → Outcome) → UnitOfWork → Hook Db
  unfolding process_entities set_unit_of_work_to_context
  visit_entities processor u s =
      let (u', rows, _) = process_entities processor s.dest s.rows_affected u in
      record s {
        context = set_unit_of_work_to_context s.context u' p.context_key;
        rows_affected = rows;
      }

  -- The common body of the callbacks that stand behind gorm's.
  unfoldable pub visit_after :
      (Statement Db → Bool) → Bool → (Heap → Ref → UnitOfWork → Outcome) → Hook Db
  unfolding get_unit_of_work_from_context visit_entities
  visit_after accepts visits processor s =
      if not p.auto_manage
      then s
      else (elim (get_unit_of_work_from_context s.context p.context_key) [
        | none ↦ s
        | some u ↦
            if not (accepts s)
            then s
            else if visits
            then visit_entities (processor s.world.heap) u s
            else s
      ])

  unfoldable pub after_create : Hook Db
  unfolding visit_after
  after_create = visit_after (λ s. true) p.unit_of_work_config.enable_detail_log log_entity

  unfoldable pub after_update : Hook Db
  unfolding visit_after check_dest
  after_update =
      visit_after (λ s. check_dest s.world.heap s.dest) p.unit_of_work_config.enable_detail_log
        log_entity

  unfoldable pub after_delete : Hook Db
  unfolding visit_after check_dest
  after_delete =
      visit_after (λ s. check_dest s.world.heap s.dest) p.unit_of_work_config.enable_detail_log
        log_entity

  unfoldable pub after_query : Reflect → Time → Hook Db
  unfolding visit_after check_dest uow_take_snapshot
  after_query rt now =
      visit_after (λ s. check_dest s.world.heap s.dest) true
        (λ h e u. (uow_take_snapshot rt h now e u, none))

-- `WithUnitOfWork`: `transaction` is gorm's, and `fn` has the context with the unit of work; what the
-- validation callbacks do, which run inside `fn` only, is part of `fn`.
unfoldable pub with_unit_of_work :
    {Db : Type 0}
    → Env Db
    → ((World Db → UnitOfWork × World Db × Option ManagerError)
        → World Db
        → UnitOfWork × World Db × Option ManagerError)
    → Context
    → (Context → Callback Db)
    → List ConfigOption
    → World Db
    → UnitOfWork × World Db × Option ManagerError
unfolding new_unit_of_work apply_options set_unit_of_work_to_context finish_unit
with_unit_of_work env transaction ctx fn options w =
    let u = new_unit_of_work ((λ c. apply_options default_config options) ∷ []) in
    transaction (λ w'. finish_unit env (fn (set_unit_of_work_to_context ctx u default_key) u w')) w
