-- ===== src/UnitOfWork/Commit/Finishes.antt =====
-- `ExecuteInUnitOfWork` of unitofwork/manager.go, and how `Commit` and `Rollback` of
-- unitofwork/unitofwork.go finish a unit of work.
use toolkit.Prelude.{◌≡◌, refl, sym, ◌∙◌, ap, Bool, true, false, [], ◌∷◌, Option, none, some, arith}
use toolkit.UnitOfWork.Commit.{
  Env, CommitError, commit, begin_commit, finish_commit, after_guards, Manager, Callback,
  ManagerError, business_logic_failed, commit_failed, execute_in_unit_of_work, finish_unit,
  after_commit,
}
use toolkit.UnitOfWork.Commit.Lifecycle.{is_finished}
use toolkit.UnitOfWork.Execute.{World}
use toolkit.UnitOfWork.State.{UnitOfWork, clear, rollback, new_unit_of_work}

rollback-is_finished : (u : UnitOfWork) → is_finished (rollback u).0 ≡ true
unfolding rollback clear
rollback-is_finished u = ground arith

rollback-is_committed : (u : UnitOfWork) → (rollback u).0.is_committed ≡ u.is_committed
unfolding rollback clear
rollback-is_committed u = ground arith

module _ {Db : Type 0} (env : Env Db) where
  -- What `ExecuteInUnitOfWork` makes of what the callback left.
  pub data FinishesUnit
      : UnitOfWork × World Db × Bool → UnitOfWork × World Db × Option ManagerError → Type 0 where
    rolled_back :
        (u u' : UnitOfWork) (w : World Db)
        → is_finished u' ≡ true
        → u'.is_committed ≡ u.is_committed
        → FinishesUnit (u, w, true) (u', w, some business_logic_failed)
    committed :
        (u u' : UnitOfWork) (w w' : World Db)
        → commit env u w ≡ (u', w', none)
        → u'.is_committed ≡ true
        → FinishesUnit (u, w, false) (u', w', none)
    not_committed :
        (u u' : UnitOfWork) (w w' : World Db) (err : CommitError)
        → commit env u w ≡ (u', w', some err)
        → is_finished u' ≡ is_finished u
        → FinishesUnit (u, w, false) (u', w', some (commit_failed err))

  finish_commit-is_committed :
      (err : Option CommitError) (u : UnitOfWork)
      → (finish_commit env err u).1 ≡ none
      → (finish_commit env err u).0.is_committed ≡ true
  unfolding finish_commit clear
  finish_commit-is_committed none u fine = refl
  finish_commit-is_committed (some err) u fine = ground (arith, fine)

  after_guards-is_committed :
      (w : World Db) (b : UnitOfWork × Option CommitError)
      → (after_guards env w b).2 ≡ none
      → (after_guards env w b).0.is_committed ≡ true
  unfolding after_guards
  after_guards-is_committed w (u, some err) fine = ground (arith, fine)
  after_guards-is_committed w (u, none) fine = finish_commit-is_committed _ u fine

  commit-is_committed :
      (u : UnitOfWork) (w : World Db)
      → (commit env u w).2 ≡ none
      → (commit env u w).0.is_committed ≡ true
  unfolding commit
  commit-is_committed u w fine = after_guards-is_committed w (begin_commit env u) fine

  finish_commit-is_finished :
      (err : Option CommitError) (u : UnitOfWork) (e : CommitError)
      → (finish_commit env err u).1 ≡ some e
      → is_finished (finish_commit env err u).0 ≡ is_finished u
  unfolding finish_commit
  finish_commit-is_finished none u e fails = ground (arith, fails)
  finish_commit-is_finished (some err) u e fails = refl

  after_guards-is_finished :
      (w : World Db) (b : UnitOfWork × Option CommitError) (e : CommitError)
      → (after_guards env w b).2 ≡ some e
      → is_finished (after_guards env w b).0 ≡ is_finished b.0
  unfolding after_guards
  after_guards-is_finished w (u, some err) e fails = refl
  after_guards-is_finished w (u, none) e fails = finish_commit-is_finished _ u e fails

  begin_commit-is_finished : (u : UnitOfWork) → is_finished (begin_commit env u).0 ≡ is_finished u
  unfolding begin_commit
  begin_commit-is_finished u = ground arith

  commit-is_finished :
      (u : UnitOfWork) (w : World Db) (e : CommitError)
      → (commit env u w).2 ≡ some e
      → is_finished (commit env u w).0 ≡ is_finished u
  unfolding commit
  commit-is_finished u w e fails =
      after_guards-is_finished w (begin_commit env u) e fails ∙ begin_commit-is_finished u

  after_commit-FinishesUnit :
      (u : UnitOfWork) (w : World Db) (r : UnitOfWork × World Db × Option CommitError)
      → commit env u w ≡ r
      → FinishesUnit (u, w, false) (after_commit env r)
  unfolding after_commit
  after_commit-FinishesUnit u w (u', w', some err) e =
      not_committed u u' w w' err e
        (ap (λ r. is_finished r.0) (sym e) ∙ commit-is_finished u w err (ap (λ r. r.2) e))
  after_commit-FinishesUnit u w (u', w', none) e =
      committed u u' w w' e
        (ap (λ r. r.0.is_committed) (sym e) ∙ commit-is_committed u w (ap (λ r. r.2) e))

  finish_unit-FinishesUnit : (r : UnitOfWork × World Db × Bool) → FinishesUnit r (finish_unit env r)
  unfolding finish_unit
  finish_unit-FinishesUnit (u, w, true) =
      rolled_back u (rollback u).0 w (rollback-is_finished u) (rollback-is_committed u)
  finish_unit-FinishesUnit (u, w, false) = after_commit-FinishesUnit u w (commit env u w) refl

  -- `ExecuteInUnitOfWork` runs the callback on a new unit of work. If the callback fails, that is the
  -- error, nothing is written after it, and the unit is finished: rolled back, unless the callback
  -- had committed it. If the callback succeeds, what follows is the commit: the unit is then
  -- committed, or there is an error, that of the commit, and the unit is finished only if the callback
  -- had finished it.
  pub execute_in_unit_of_work-FinishesUnit :
      (m : Manager) (fn : Callback Db) (w : World Db)
      → FinishesUnit
          (fn (new_unit_of_work ((λ c. m.config) ∷ [])) w)
          (execute_in_unit_of_work env m fn w)
  unfolding execute_in_unit_of_work
  execute_in_unit_of_work-FinishesUnit m fn w =
      finish_unit-FinishesUnit (fn (new_unit_of_work ((λ c. m.config) ∷ [])) w)
