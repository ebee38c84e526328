-- ===== src/UnitOfWork/Commit/Recovery.antt =====
-- After `Commit` of unitofwork/unitofwork.go, whatever came of it: `Rollback` and a second `Commit`.
use toolkit.Prelude.{◌≡◌, refl, sym, subst, ap, ◌∙◌, false, true, [], Option, none, some, arith}
use toolkit.UnitOfWork.Commit.{Env, CommitError, commit, begin_commit, after_guards}
use toolkit.UnitOfWork.Commit.Lifecycle.{is_finished}
use toolkit.UnitOfWork.Commit.Outcomes.{
  Commits, succeeded, refused, failed, no_fuel, commit-Commits,
}
use toolkit.UnitOfWork.Execute.{World}
use toolkit.UnitOfWork.State.{UnitOfWork, clear, rollback}

-- A unit of work that holds no entity, no operation and no snapshot, and is not executing.
abbrev pub IsCleared : UnitOfWork → Type 0
IsCleared u =
    (u.new_entities ≡ [])
    × (u.dirty_entities ≡ [])
    × (u.removed_entities ≡ [])
    × (u.operations ≡ [])
    × (u.snapshot_manager ≡ [])
    × (u.is_executing ≡ false)

-- Rolling back is accepted, and the unit of work is then over and cleared.
pub record RollsBack (u : UnitOfWork) : Type 0 where
  pub accepted : (rollback u).1 ≡ none
  pub over : is_finished (rollback u).0 ≡ true
  pub cleared : IsCleared (rollback u).0

rollback-open :
    (u : UnitOfWork)
    → is_finished u ≡ false
    → rollback u ≡ (clear (record u { is_rolled_back = true }), none)
unfolding rollback clear
rollback-open u unfinished = ground (arith, unfinished)

idle-RollsBack : (u : UnitOfWork) → is_finished u ≡ false → u.is_executing ≡ false → RollsBack u
unfolding clear
idle-RollsBack u unfinished idle =
    let rolled = rollback-open u unfinished in
    record {
      accepted = ap (λ r. r.1) rolled;
      over = ap (λ r. is_finished r.0) rolled ∙ ground arith;
      cleared = subst (λ r. IsCleared r.0) (sym rolled) (refl, refl, refl, refl, refl, idle);
    }

module _ {Db : Type 0} (env : Env Db) (u : UnitOfWork) (w : World Db) where
  -- How a client can go on after `Commit`.
  pub data GoesOn (r : UnitOfWork × World Db × Option CommitError) : Type 0 where
    committed : r.2 ≡ none → r.0.is_committed ≡ true → IsCleared r.0 → GoesOn r
    can_retry :
        (err : CommitError)
        → r.2 ≡ some err
        → r.0 ≡ record u { is_executing = false }
        → RollsBack r.0
        → ((w' : World Db) → commit env r.0 w' ≡ commit env u w')
        → GoesOn r

  begin_commit-again :
      is_finished u ≡ false
      → begin_commit env (record u { is_executing = false }) ≡ begin_commit env u
  unfolding begin_commit
  begin_commit-again unfinished = ground (arith, unfinished)

  commit-again :
      (w' : World Db)
      → is_finished u ≡ false
      → commit env (record u { is_executing = false }) w' ≡ commit env u w'
  unfolding commit
  commit-again w' unfinished = ap (after_guards env w') (begin_commit-again unfinished)

  failed-GoesOn :
      (w' : World Db) (err : CommitError)
      → is_finished u ≡ false
      → GoesOn (record u { is_executing = false }, w', some err)
  failed-GoesOn w' err unfinished =
      can_retry err refl refl (idle-RollsBack _ unfinished refl)
        (λ w''. commit-again w'' unfinished)

  Commits-GoesOn :
      (r : UnitOfWork × World Db × Option CommitError)
      → is_finished u ≡ false
      → Commits env u w r
      → GoesOn r
  unfolding clear
  Commits-GoesOn r unfinished (succeeded ops w' plan runs) =
      committed refl refl (refl, refl, refl, refl, refl, refl)
  Commits-GoesOn r unfinished (refused plan) = failed-GoesOn w _ unfinished
  Commits-GoesOn r unfinished (failed before after op w' w'' err plan runs fails i i_eq) =
      failed-GoesOn w'' _ unfinished
  Commits-GoesOn r unfinished (no_fuel plan) = failed-GoesOn w _ unfinished

  -- Let a unit of work not be finished. If `Commit` reports no error, the unit is then committed,
  -- holds no entity, no operation and no snapshot, and is not executing. If it reports one, the unit
  -- is as before, but not executing, and the client can go on either way: rolling back is accepted,
  -- ends the unit and clears it of every entity, operation and snapshot; and another `Commit` does, on
  -- whatever database and heap there then are, what the first would have done there, so that it
  -- executes once more the operations that succeeded before the error.
  pub commit-GoesOn : is_finished u ≡ false → GoesOn (commit env u w)
  commit-GoesOn unfinished =
      Commits-GoesOn (commit env u w) unfinished
        (commit-Commits env u w (ground (arith, unfinished)) (ground (arith, unfinished)))
