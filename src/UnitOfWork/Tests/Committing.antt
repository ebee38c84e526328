-- ===== src/UnitOfWork/Tests/Committing.antt =====
-- Commits, the optimistic lock and the manager of unitofwork at a database that counts its writes.
use toolkit.Prelude.{ℕ, ◌≡◌, ◌≤◌, refl, true, false, [], ◌∷◌, none, some, ◌↔◌}
use toolkit.Prelude.Map.{lookup}
use toolkit.UnitOfWork.Commit.{commit, execute_in_unit_of_work}
use toolkit.UnitOfWork.Commit.Lifecycle.{registered, IsLost, run-finished, create-IsLost}
use toolkit.UnitOfWork.Commit.Finishes.{FinishesUnit, execute_in_unit_of_work-FinishesUnit}
use toolkit.UnitOfWork.Commit.Outcomes.{Commits, commit-Commits}
use toolkit.UnitOfWork.Commit.Recovery.{GoesOn, commit-GoesOn}
use toolkit.UnitOfWork.Config.{default_config}
use toolkit.UnitOfWork.Entity.{get_revision_next}
use toolkit.UnitOfWork.Execute.{
  World, Gorm, execute, execute_update, is_invalid, optimistic_lock_failed,
}
use toolkit.UnitOfWork.Execute.Failure.{execute-validation_failed}
use toolkit.UnitOfWork.Execute.Lock.{locked_write, execute_update-none, execute_update-stale}
use toolkit.UnitOfWork.Operation.{insert_operation, bulk_insert_operation}
use toolkit.UnitOfWork.State.{
  UnitOfWork, new_unit_of_work, create, contains_entity, check_memory_limit,
}
use toolkit.UnitOfWork.State.Invariant.{create_call, rollback_call, run}
use toolkit.UnitOfWork.Tests.Data.{reflect, heap, gorm, env, world}

abbrev opened : UnitOfWork
opened = record {
  new_entities = (1, 10 ∷ []) ∷ [];
  dirty_entities = [];
  removed_entities = [];
  snapshot_manager = [];
  dependency_manager = record { dependency_graph = []; entity_weights = [] };
  operations = insert_operation 10 ∷ [];
  is_committed = false;
  is_rolled_back = false;
  is_executing = false;
  config = default_config;
}

abbrev committed_unit : UnitOfWork
committed_unit = record opened { is_committed = true; new_entities = []; operations = [] }

commit-Commits_example : Commits env opened world (commit env opened world)
commit-Commits_example = commit-Commits env opened world refl refl

run-finished_example :
    registered (run heap reflect (create_call (some 20) ∷ rollback_call ∷ []) committed_unit)
    ≡ registered committed_unit
run-finished_example =
    run-finished heap reflect (create_call (some 20) ∷ rollback_call ∷ []) committed_unit refl

create-IsLost_example : IsLost env heap 20 opened
unfolding contains_entity check_memory_limit lookup
create-IsLost_example = create-IsLost env heap 20 opened refl refl refl refl refl

execute_in_unit_of_work_example :
    FinishesUnit env
      ((create heap (some 10) (new_unit_of_work ((λ c. default_config) ∷ []))).0, world, false)
      (execute_in_unit_of_work env
        (record { config = default_config })
        (λ u w. ((create heap (some 10) u).0, w, false))
        world)
execute_in_unit_of_work_example =
    execute_in_unit_of_work-FinishesUnit env (record { config = default_config })
      (λ u w. ((create heap (some 10) u).0, w, false)) world

execute_update-none_example :
    ((execute_update (gorm 1) 10 world).1 ≡ none)
    ↔ ((locked_write (gorm 1) 10 world).failed ≡ false)
      × (1 ≤ (locked_write (gorm 1) 10 world).rows_affected)
unfolding is_invalid
execute_update-none_example = execute_update-none (gorm 1) 10 world refl refl

execute_update-stale_example :
    ((execute_update (gorm 0) 10 world).1 ≡ some optimistic_lock_failed)
    × (((execute_update (gorm 0) 10 world).0.heap 10).base.revision
        ≡ get_revision_next (heap 10).base)
unfolding is_invalid
execute_update-stale_example = execute_update-stale (gorm 0) 10 world refl refl refl refl refl

-- The entities ask for validation, and it fails for all.
abbrev strict_world : World ℕ
strict_world = record { db = 0; heap = λ r. record (heap r) { is_validatable = true } }

abbrev strict : Gorm ℕ
strict = record (gorm 1) { validate = λ o. false }

execute-validation_failed_example :
    (execute strict default_config
      (bulk_insert_operation (10 ∷ 11 ∷ []) (some 1))
      strict_world).0.db
    ≡ 0
unfolding execute
execute-validation_failed_example =
    execute-validation_failed strict default_config (bulk_insert_operation (10 ∷ 11 ∷ []) (some 1))
      strict_world refl refl

commit-GoesOn_example : GoesOn env opened world (commit env opened world)
commit-GoesOn_example = commit-GoesOn env opened world refl
