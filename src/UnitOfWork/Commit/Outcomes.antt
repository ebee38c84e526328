-- ===== src/UnitOfWork/Commit/Outcomes.antt =====
-- What `Commit` of unitofwork/unitofwork.go leaves behind, on success and on each error.
use toolkit.Prelude.{
  ℕ, ◌+◌, ◌≡◌, refl, ◌∙◌, ap, subst, true, false, List, [], ◌∷◌, ◌++◌, Option, none, some, arith,
  length, Option-cases, inl, inr,
}
use toolkit.UnitOfWork.Config.{Config}
use toolkit.UnitOfWork.Commit.{
  Env, CommitError, operation_failed, circular_dependency, out_of_fuel, commit, begin_commit,
  after_guards, finish_commit, execute_all, execute_planned, execute_operations,
}
use toolkit.UnitOfWork.Execute.{World, ExecError, execute}
use toolkit.UnitOfWork.Operation.{Operation}
use toolkit.UnitOfWork.Plan.{
  plan_operations, optimize_operations, sort_operations_by_dependency, Planned, ok,
}
use toolkit.UnitOfWork.State.{UnitOfWork, clear}

module _ {Db : Type 0} (env : Env Db) (c : Config) where
  -- The operations before one run without an error, in order, and lead to the world.
  pub data Runs : List Operation → World Db → World Db → Type 0 where
    done : (w : World Db) → Runs [] w w
    step :
        {ops : List Operation} {w' w'' : World Db} (op : Operation) (w : World Db)
        → execute env.gorm c op w ≡ (w', none)
        → Runs ops w' w''
        → Runs (op ∷ ops) w w''

  -- What the loop did: all operations ran; or those before one ran, that one failed with its index
  -- in the error, and those after it were not run.
  pub data Executes (i : ℕ) (ops : List Operation) (w : World Db)
      : World Db × Option CommitError → Type 0 where
    all : {w' : World Db} → Runs ops w w' → Executes i ops w (w', none)
    stopped :
        (before after : List Operation) (op : Operation) (w' w'' : World Db) (err : ExecError)
        → ops ≡ before ++ op ∷ after
        → Runs before w w'
        → execute env.gorm c op w' ≡ (w'', some err)
        → Executes i ops w (w'', some (operation_failed (i + length before) err))

  Executes-step :
      (i : ℕ) (op : Operation) (ops : List Operation) (w w' : World Db)
      (r : World Db × Option CommitError)
      → execute env.gorm c op w ≡ (w', none)
      → Executes (i + 1) ops w' r
      → Executes i (op ∷ ops) w r
  Executes-step i op ops w w' r e (all runs) = all (step op w e runs)
  Executes-step i op ops w w' r e (stopped before after failing v v' err split runs fails) =
      subst (λ n. Executes i (op ∷ ops) w (v', some (operation_failed n err))) (omega arith)
        (stopped (op ∷ before) after failing v v' err (ap (◌∷◌ op) split) (step op w e runs) fails)

  -- The loop over the planned operations runs them in order up to the first that fails; what they
  -- wrote stays, also when one fails.
  pub execute_all-Executes :
      (i : ℕ) (ops : List Operation) (w : World Db) → Executes i ops w (execute_all env c i ops w)
  unfolding execute_all
  execute_all-Executes i [] w = all (done w)
  execute_all-Executes i (op ∷ ops) w = elim (Option-cases (execute env.gorm c op w).1) [
    | inl fine ↦
        rw (fine, execute_all)
          (Executes-step i op ops w _ _ (ap (λ r. ((execute env.gorm c op w).0, r)) fine)
            (execute_all-Executes (i + 1) ops (execute env.gorm c op w).0))
    | inr (err, fails) ↦
        rw (fails, execute_all)
          (subst
            (λ n.
              Executes i (op ∷ ops) w ((execute env.gorm c op w).0, some (operation_failed n err)))
            (omega arith)
            (stopped [] ops op w _ err refl (done w)
              (ap (λ r. ((execute env.gorm c op w).0, r)) fails)))
  ]

module _ {Db : Type 0} (env : Env Db) (u : UnitOfWork) (w : World Db) where
  -- What `Commit` did to an open unit of work.
  pub data Commits : UnitOfWork × World Db × Option CommitError → Type 0 where
    succeeded :
        (ops : List Operation) (w' : World Db)
        → plan_operations env.reflect env.ordering env.sprint_id w.heap u ≡ Planned.ok ops
        → Runs env u.config ops w w'
        → Commits (clear (record u { is_executing = false; is_committed = true }), w', none)
    refused :
        plan_operations env.reflect env.ordering env.sprint_id w.heap u
          ≡ Planned.circular_dependency
        → Commits (record u { is_executing = false }, w, some circular_dependency)
    failed :
        (before after : List Operation) (op : Operation) (w' w'' : World Db) (err : ExecError)
        → plan_operations env.reflect env.ordering env.sprint_id w.heap u
          ≡ Planned.ok (before ++ op ∷ after)
        → Runs env u.config before w w'
        → execute env.gorm u.config op w' ≡ (w'', some err)
        → (i : ℕ) → i ≡ length before
        → Commits (record u { is_executing = false }, w'', some (operation_failed i err))
    no_fuel :
        plan_operations env.reflect env.ordering env.sprint_id w.heap u ≡ Planned.out_of_fuel
        → Commits (record u { is_executing = false }, w, some out_of_fuel)

  -- What `Commit` leaves of the result of the execution.
  abbrev finished : World Db × Option CommitError → UnitOfWork × World Db × Option CommitError
  unfolding finish_commit
  finished r =
      let (u', result) = finish_commit env r.1 (record u { is_executing = true }) in
      (u', r.0, result)

  Commits-Executes :
      (ops : List Operation) (r : World Db × Option CommitError)
      → plan_operations env.reflect env.ordering env.sprint_id w.heap u ≡ Planned.ok ops
      → Executes env u.config 0 ops w r
      → Commits (finished r)
  unfolding finish_commit
  Commits-Executes ops r e (all runs) = succeeded ops _ e runs
  Commits-Executes ops r e (stopped before after op w' w'' err split runs fails) =
      failed before after op w' w'' err (e ∙ ap Planned.ok split) runs fails _ (omega arith)

  Commits-planned :
      (p : Planned)
      → plan_operations env.reflect env.ordering env.sprint_id w.heap u ≡ p
      → Commits (finished (execute_planned env u.config p w))
  unfolding execute_planned finish_commit
  Commits-planned (ok ops) e = Commits-Executes ops _ e (execute_all-Executes env u.config 0 ops w)
  Commits-planned Planned.circular_dependency e = refused e
  Commits-planned Planned.out_of_fuel e = no_fuel e

  begin_commit-open :
      u.is_committed ≡ false
      → u.is_rolled_back ≡ false
      → begin_commit env u ≡ (record u { is_executing = true }, none)
  unfolding begin_commit
  begin_commit-open open_c open_r = ground (arith, open_c, open_r)

  commit-finished :
      u.is_committed ≡ false
      → u.is_rolled_back ≡ false
      → commit env u w
        ≡ finished (
            execute_planned env u.config
              (plan_operations env.reflect env.ordering env.sprint_id w.heap u)
              w)
  unfolding commit after_guards execute_operations finish_commit plan_operations optimize_operations
      sort_operations_by_dependency
  commit-finished open_c open_r = ap (after_guards env w) (begin_commit-open open_c open_r)

  -- `Commit` of a unit of work that is neither committed nor rolled back does one of these. It plans
  -- the operations, runs all of them, in order and without an error, and is then committed and
  -- empty. Or planning fails, and it runs nothing. Or it runs the planned operations before one that
  -- fails, reports the index of that one with its error, and runs none after it; what was written
  -- stays. Whenever it fails, it stays open and keeps all that was registered.
  pub commit-Commits : u.is_committed ≡ false → u.is_rolled_back ≡ false → Commits (commit env u w)
  commit-Commits open_c open_r =
      rw (commit-finished open_c open_r)
        (Commits-planned (plan_operations env.reflect env.ordering env.sprint_id w.heap u) refl)
