-- ===== src/UnitOfWork/Execute.antt =====
-- unitofwork/operation.go: `Execute` of the operations, over a database that is a parameter.
pub mod Lock
pub mod Failure
use toolkit.Prelude.{
  ℕ, ◌+◌, Bool, true, false, not, ◌&&◌, ◌||◌, ◌==◌, List, [], ◌∷◌, Option, none, some,
  if◌then◌else◌,
}
use toolkit.Prelude.Int.{ℤ}
use toolkit.UnitOfWork.Config.{Config}
use toolkit.UnitOfWork.Entity.{
  Ref, Time, Heap, Object, store, get_id, is_new, set_revision, get_revision_next, set_created_at,
  set_updated_at, set_deleted_at,
}
use toolkit.UnitOfWork.Operation.{
  Operation, insert_operation, update_operation, delete_operation, bulk_insert_operation,
  bulk_update_operation, bulk_delete_operation,
}

-- The result of a gorm call: the database and the heap after it, the error, and `RowsAffected`.
pub record Result (Db : Type 0) : Type 0 where
  pub db : Db
  pub heap : Heap
  pub failed : Bool
  pub rows_affected : ℕ

-- What the package calls: gorm, the entities' own `Validate`, and the clock.
pub record Gorm (Db : Type 0) : Type 0 where
  pub create : Ref → Heap → Db → Result Db
  pub create_in_batches : List Ref → ℤ → Heap → Db → Result Db
  -- `Where("id = ? AND revision = ?", id, revision).Updates(entity)`
  pub updates_where : ℕ → ℕ → Ref → Heap → Db → Result Db
  pub save : Ref → Heap → Db → Result Db
  -- `Unscoped().Delete(entity)`
  pub delete_unscoped : Ref → Heap → Db → Result Db
  pub delete_all : List Ref → Heap → Db → Result Db
  -- `Validate` returns nil
  pub validate : Object → Bool
  -- `time.Now()`, where it is read for the entity
  pub now : Ref → Db → Time

pub data ExecError : Type 0 where
  validation_failed insert_failed update_failed optimistic_lock_failed delete_failed : ExecError

pub record World (Db : Type 0) : Type 0 where
  pub db : Db
  pub heap : Heap

module _ {Db : Type 0} (g : Gorm Db) where
  -- What an operation leaves behind, and its error.
  abbrev pub Executed : Type 0
  Executed = World Db × Option ExecError

  abbrev pub world_of : Result Db → World Db
  world_of r = record { db = r.db; heap = r.heap }

  -- `if result.Error != nil { return … }`
  abbrev check_error : ExecError → Result Db → Executed
  check_error e r = (world_of r, if r.failed then some e else none)

  unfoldable pub is_invalid : Heap → Ref → Bool
  is_invalid h e = (h e).is_validatable && not (g.validate (h e))

  -- The timestamps of an entity that is inserted.
  unfoldable pub stamp_new : Time → Ref → Heap → Heap
  stamp_new now e h =
      if (h e).has_timestamps && is_new (h e).base
      then store h e (set_updated_at (set_created_at (h e).base now) now)
      else h

  unfoldable pub stamp_updated : Time → Ref → Heap → Heap
  stamp_updated now e h =
      if (h e).has_timestamps then store h e (set_updated_at (h e).base now) else h

  unfoldable pub execute_insert : Ref → World Db → Executed
  unfolding is_invalid stamp_new
  execute_insert e w =
      if is_invalid w.heap e
      then (w, some validation_failed)
      else check_error insert_failed (g.create e (stamp_new (g.now e w.db) e w.heap) w.db)

  -- An error of the call, or no row with the old revision.
  abbrev pub check_revision : Result Db → Executed
  check_revision r = (
    world_of r,
    if r.failed
        then some update_failed
        else if r.rows_affected == 0
        then some optimistic_lock_failed
        else none,
  )

  -- The write of an update: under the optimistic lock, or not.
  unfoldable pub write_update : Ref → Heap → Db → Executed
  write_update e h db =
      if (h e).has_revision
      then check_revision (
          g.updates_where (get_id h e) (h e).base.revision e
            (store h e (set_revision (h e).base (get_revision_next (h e).base))) db)
      else check_error update_failed (g.save e h db)

  unfoldable pub execute_update : Ref → World Db → Executed
  unfolding is_invalid stamp_updated write_update
  execute_update e w =
      if is_invalid w.heap e
      then (w, some validation_failed)
      else write_update e (stamp_updated (g.now e w.db) e w.heap) w.db

  unfoldable pub execute_delete : Ref → World Db → Executed
  unfolding stamp_updated
  execute_delete e w =
      if (w.heap e).is_soft_delete
      then check_error delete_failed (
          g.save e
            (stamp_updated (g.now e w.db) e (
              store w.heap e
                (set_deleted_at (w.heap e).base (record { time = g.now e w.db; valid = true }))))
            w.db)
      else check_error delete_failed (g.delete_unscoped e w.heap w.db)

  -- The loop that validates and stamps the entities of a bulk insert. What was stamped stays so
  -- beside an error.
  unfoldable pub prepare_entities : Db → List Ref → Heap → Heap × Bool
  unfolding is_invalid stamp_new
  prepare_entities db [] h = (h, true)
  prepare_entities db (e ∷ es) h =
      let rest = prepare_entities db es (stamp_new (g.now e db) e h) in
      if is_invalid h e then (h, false) else rest

  unfoldable pub execute_bulk_insert : Config → List Ref → World Db → Executed
  unfolding prepare_entities
  execute_bulk_insert c [] w = (w, none)
  execute_bulk_insert c (e ∷ es) w =
      let (h, valid) = prepare_entities w.db (e ∷ es) w.heap in
      if not valid
      then (record w { heap = h }, some validation_failed)
      else check_error insert_failed (g.create_in_batches (e ∷ es) c.batch_size h w.db)

  -- One operation after another, up to the first error.
  unfoldable pub execute_each : (Ref → World Db → Executed) → List Ref → World Db → Executed
  execute_each run [] w = (w, none)
  execute_each run (e ∷ es) w =
      let (w', result) = run e w in
      elim result [ some err ↦ (w', some err) | none ↦ execute_each run es w' ]

  unfoldable pub execute_bulk_delete : List Ref → World Db → Executed
  unfolding execute_each execute_delete
  execute_bulk_delete [] w = (w, none)
  execute_bulk_delete (e ∷ es) w =
      if (w.heap e).is_soft_delete
      then execute_each execute_delete (e ∷ es) w
      else check_error delete_failed (g.delete_all (e ∷ es) w.heap w.db)

  unfoldable pub execute : Config → Operation → World Db → Executed
  unfolding execute_insert execute_update execute_delete execute_bulk_insert execute_bulk_delete
      execute_each
  execute c (insert_operation e) w = execute_insert e w
  execute c (update_operation e changes) w = execute_update e w
  execute c (delete_operation e) w = execute_delete e w
  execute c (bulk_insert_operation es t) w = execute_bulk_insert c es w
  execute c (bulk_update_operation es t) w = execute_each execute_update es w
  execute c (bulk_delete_operation es t) w = execute_bulk_delete es w
