-- ===== src/UnitOfWork/Commit.antt =====
-- unitofwork/unitofwork.go: `Commit` and `executeOperations`; unitofwork/manager.go.
pub mod Outcomes
pub mod Lifecycle
pub mod Finishes
pub mod Recovery
use toolkit.Prelude.{
  ℕ, ◌+◌, Bool, true, false, List, [], ◌∷◌, Option, none, some, Bytes, if◌then◌else◌,
}
use toolkit.UnitOfWork.Config.{Config, ConfigOption, default_config, apply_options}
use toolkit.UnitOfWork.Dependency.{Ordering}
use toolkit.UnitOfWork.Entity.{Heap}
use toolkit.UnitOfWork.Execute.{Gorm, World, ExecError, execute}
use toolkit.UnitOfWork.Operation.{Operation}
use toolkit.UnitOfWork.Plan.{Planned, plan_operations}
use toolkit.UnitOfWork.Snapshot.{Reflect}
use toolkit.UnitOfWork.State.{
  UnitOfWork, UowError, already_committed, already_rolled_back, clear, rollback, new_unit_of_work,
}

pub data CommitError : Type 0 where
  -- the guards of `Commit`
  not_open : UowError → CommitError
  -- "operation %d failed"
  operation_failed : ℕ → ExecError → CommitError
  circular_dependency : CommitError
  -- the fuel of the model ran out
  out_of_fuel : CommitError

-- The environment: `reflect`, the orders, `%v` of a uint, and gorm.
pub record Env (Db : Type 0) : Type 0 where
  pub reflect : Reflect
  pub ordering : Ordering
  pub sprint_id : ℕ → Bytes
  pub gorm : Gorm Db

pub data ManagerError : Type 0 where
  business_logic_failed : ManagerError
  commit_failed : CommitError → ManagerError

pub record Manager : Type 0 where
  pub config : Config

unfoldable pub new_manager : List ConfigOption → Manager
unfolding apply_options
new_manager options = record { config = apply_options default_config options }

-- `ExecuteInUnitOfWork`: the callback gives the unit of work and the world after it, and whether it
-- returned an error.
abbrev pub Callback : Type 0 → Type 0
Callback Db = UnitOfWork → World Db → UnitOfWork × World Db × Bool

module _ {Db : Type 0} (env : Env Db) where
  -- The loop over the sorted operations, from index `i` on.
  unfoldable pub execute_all :
      Config → ℕ → List Operation → World Db → World Db × Option CommitError
  execute_all c i [] w = (w, none)
  execute_all c i (op ∷ ops) w =
      let (w', result) = execute env.gorm c op w in
      elim result [
        | some err ↦ (w', some (operation_failed i err))
        | none ↦ execute_all c (i + 1) ops w'
      ]

  unfoldable pub execute_planned : Config → Planned → World Db → World Db × Option CommitError
  unfolding execute_all
  execute_planned c (Planned.ok ops) w = execute_all c 0 ops w
  execute_planned c Planned.circular_dependency w = (w, some circular_dependency)
  execute_planned c Planned.out_of_fuel w = (w, some out_of_fuel)

  unfoldable pub execute_operations : UnitOfWork → World Db → World Db × Option CommitError
  unfolding execute_planned
  execute_operations u w =
      execute_planned u.config (plan_operations env.reflect env.ordering env.sprint_id w.heap u) w

  -- `Commit` up to the point where it releases the lock.
  unfoldable pub begin_commit : UnitOfWork → UnitOfWork × Option CommitError
  begin_commit u =
      if u.is_committed
      then (u, some (not_open already_committed))
      else if u.is_rolled_back
      then (u, some (not_open already_rolled_back))
      else (record u { is_executing = true }, none)

  -- `Commit` from the point where it takes the lock again.
  unfoldable pub finish_commit : Option CommitError → UnitOfWork → UnitOfWork × Option CommitError
  unfolding clear
  finish_commit (some err) u = (record u { is_executing = false }, some err)
  finish_commit none u = (clear (record u { is_executing = false; is_committed = true }), none)

  abbrev Committed : Type 0
  Committed = UnitOfWork × World Db × Option CommitError

  -- `Commit` after its guards.
  unfoldable pub after_guards : World Db → UnitOfWork × Option CommitError → Committed
  unfolding finish_commit execute_operations
  after_guards w (u, some err) = (u, w, some err)
  after_guards w (u, none) =
      let (w', err) = execute_operations u w in
      let (u', result) = finish_commit err u in (u', w', result)

  unfoldable pub commit : UnitOfWork → World Db → Committed
  unfolding begin_commit after_guards
  commit u w = after_guards w (begin_commit u)

  unfoldable pub after_commit : Committed → UnitOfWork × World Db × Option ManagerError
  after_commit (u, w, some err) = (u, w, some (commit_failed err))
  after_commit (u, w, none) = (u, w, none)

  unfoldable pub finish_unit :
      UnitOfWork × World Db × Bool → UnitOfWork × World Db × Option ManagerError
  unfolding rollback after_commit
  finish_unit (u, w, true) = let (u', _) = rollback u in (u', w, some business_logic_failed)
  finish_unit (u, w, false) = after_commit (commit u w)

  unfoldable pub execute_in_unit_of_work :
      Manager → Callback Db → World Db → UnitOfWork × World Db × Option ManagerError
  unfolding new_unit_of_work finish_unit
  execute_in_unit_of_work m fn w = finish_unit (fn (new_unit_of_work ((λ c. m.config) ∷ [])) w)
