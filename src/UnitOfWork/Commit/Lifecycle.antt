-- ===== src/UnitOfWork/Commit/Lifecycle.antt =====
-- The life of a unit of work: unitofwork/unitofwork.go (`Create`, `Update`, `Delete`, `Commit`,
-- `Rollback`).
use toolkit.Prelude.{
  ◌≡◌, refl, ◌∙◌, ap, Bool, true, false, ◌||◌, List, [], ◌∷◌, ◌++◌, Option, none, some, arith,
  if◌then◌else◌,
}
use toolkit.UnitOfWork.Commit.{Env, not_open, commit, begin_commit, finish_commit, after_guards}
use toolkit.UnitOfWork.Entity.{Ref, Heap}
use toolkit.UnitOfWork.Execute.{World}
use toolkit.UnitOfWork.Operation.{Operation, insert_operation}
use toolkit.UnitOfWork.Snapshot.{Reflect}
use toolkit.UnitOfWork.State.{
  UnitOfWork, EntityMap, already_finished, already_committed, already_rolled_back, create, update,
  delete, clear, rollback, uow_take_snapshot, contains_entity, check_memory_limit, add_operation,
  get_total_entity_count,
}
use toolkit.UnitOfWork.State.Invariant.{
  Call, create_call, update_call, delete_call, snapshot_call, rollback_call, run,
}

-- What a unit of work has registered, and how it ended.
pub record Registered : Type 0 where
  pub new_entities : EntityMap
  pub dirty_entities : EntityMap
  pub removed_entities : EntityMap
  pub operations : List Operation
  pub is_committed : Bool
  pub is_rolled_back : Bool

abbrev pub registered : UnitOfWork → Registered
registered u = record {
  new_entities = u.new_entities;
  dirty_entities = u.dirty_entities;
  removed_entities = u.removed_entities;
  operations = u.operations;
  is_committed = u.is_committed;
  is_rolled_back = u.is_rolled_back;
}

abbrev pub is_finished : UnitOfWork → Bool
is_finished u = u.is_committed || u.is_rolled_back

module _ (h : Heap) (rt : Reflect) where
  create-finished :
      (e : Option Ref) (u : UnitOfWork)
      → is_finished u ≡ true
      → create h e u ≡ (u, some already_finished)
  unfolding create
  create-finished none u f = ground (arith, f)
  create-finished (some e) u f = ground (arith, f)

  update-finished :
      (e : Option Ref) (u : UnitOfWork)
      → is_finished u ≡ true
      → update h rt e u ≡ (u, some already_finished)
  unfolding update
  update-finished none u f = ground (arith, f)
  update-finished (some e) u f = ground (arith, f)

  delete-finished :
      (e : Option Ref) (u : UnitOfWork)
      → is_finished u ≡ true
      → delete h e u ≡ (u, some already_finished)
  unfolding delete
  delete-finished none u f = ground (arith, f)
  delete-finished (some e) u f = ground (arith, f)

  rollback-finished : (u : UnitOfWork) → is_finished u ≡ true → (rollback u).0 ≡ u
  unfolding rollback
  rollback-finished u f = ground (arith, f)

  -- Once a unit of work is committed or rolled back, no calls of Create, Update, Delete,
  -- TakeSnapshot and Rollback change what it has registered or how it ended.
  pub run-finished :
      (calls : List Call) (u : UnitOfWork)
      → is_finished u ≡ true
      → registered (run h rt calls u) ≡ registered u
  unfolding run uow_take_snapshot
  run-finished [] u f = refl
  run-finished (create_call e ∷ calls) u f =
      ap (λ r. registered (run h rt calls r.0)) (create-finished e u f) ∙ run-finished calls u f
  run-finished (update_call e ∷ calls) u f =
      ap (λ r. registered (run h rt calls r.0)) (update-finished e u f) ∙ run-finished calls u f
  run-finished (delete_call e ∷ calls) u f =
      ap (λ r. registered (run h rt calls r.0)) (delete-finished e u f) ∙ run-finished calls u f
  run-finished (snapshot_call now e ∷ calls) u f =
      run-finished calls (uow_take_snapshot rt h now e u) f
  run-finished (rollback_call ∷ calls) u f =
      ap (λ v. registered (run h rt calls v)) (rollback-finished u f) ∙ run-finished calls u f

module _ {Db : Type 0} (env : Env Db) where
  begin_commit-finished :
      (u : UnitOfWork)
      → is_finished u ≡ true
      → begin_commit env u
        ≡ (u, some (not_open (if u.is_committed then already_committed else already_rolled_back)))
  unfolding begin_commit
  begin_commit-finished u f = ground (arith, f)

  -- `Commit` of a unit of work that is committed or rolled back says which, changes nothing in it
  -- and writes nothing.
  pub commit-finished_twice :
      (u : UnitOfWork) (w : World Db)
      → is_finished u ≡ true
      → commit env u w ≡ (
        u,
        w,
        some (not_open (if u.is_committed then already_committed else already_rolled_back)),
      )
  unfolding commit after_guards
  commit-finished_twice u w f = ap (after_guards env w) (begin_commit-finished u f)

  -- What becomes of an entity that is created while `Commit` executes.
  pub record IsLost (h : Heap) (e : Ref) (u : UnitOfWork) : Type 0 where
    pub reported : (create h (some e) (begin_commit env u).0).1 ≡ none
    pub registered_first :
        (create h (some e) (begin_commit env u).0).0.operations
        ≡ u.operations ++ insert_operation e ∷ []
    pub then_forgotten :
        (finish_commit env none (create h (some e) (begin_commit env u).0).0).0.operations ≡ []
    pub committed :
        (finish_commit env none (create h (some e) (begin_commit env u).0).0).0.is_committed ≡ true

  begin_commit-operations :
      (u : UnitOfWork)
      → is_finished u ≡ false
      → begin_commit env u ≡ (record u { is_executing = true }, none)
  unfolding begin_commit
  begin_commit-operations u f = ground (arith, f)

  create-fresh :
      (h : Heap) (e : Ref) (u : UnitOfWork)
      → is_finished u ≡ false
      → contains_entity h u.new_entities e ≡ false
      → contains_entity h u.dirty_entities e ≡ false
      → contains_entity h u.removed_entities e ≡ false
      → check_memory_limit u ≡ true
      → ((create h (some e) u).0.operations ≡ u.operations ++ insert_operation e ∷ [])
        × ((create h (some e) u).1 ≡ none)
  unfolding create add_operation
  create-fresh h e u f n d r l = (ground (arith, f, n, d, r, l), ground (arith, f, n, d, r, l))

  -- Let an open unit of work have released its lock in `Commit` to execute its operations. A call of
  -- `Create` of an entity that it does not hold, within the limit, then reports no error and registers
  -- its insertion; when `Commit` takes the lock again and succeeds, the unit is committed and that
  -- insertion is gone.
  pub create-IsLost :
      (h : Heap) (e : Ref) (u : UnitOfWork)
      → is_finished u ≡ false
      → contains_entity h u.new_entities e ≡ false
      → contains_entity h u.dirty_entities e ≡ false
      → contains_entity h u.removed_entities e ≡ false
      → check_memory_limit u ≡ true
      → IsLost h e u
  unfolding finish_commit clear check_memory_limit get_total_entity_count
  create-IsLost h e u f n d r l =
      let open_u = begin_commit-operations u f in
      let (ops, ok) = create-fresh h e (record u { is_executing = true }) f n d r l in
      record {
        reported = ap (λ v. (create h (some e) v.0).1) open_u ∙ ok;
        registered_first = ap (λ v. (create h (some e) v.0).0.operations) open_u ∙ ops;
        then_forgotten = refl;
        committed = refl;
      }
