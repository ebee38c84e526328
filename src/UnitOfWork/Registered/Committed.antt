-- ===== src/UnitOfWork/Registered/Committed.antt =====
-- From the calls of a client to what `Commit` of unitofwork/unitofwork.go executes.
use toolkit.Prelude.{
  ℕ, ◌≡◌, refl, ◌∙◌, sym, ap, true, ◌==◌, List, [], ◌∷◌, Option, none, arith, if◌then◌else◌, nat_eq,
  Bool-cases, inl, inr, All, count_if,
}
use toolkit.UnitOfWork.Commit.{Env, CommitError, commit}
use toolkit.UnitOfWork.Commit.Lifecycle.{is_finished, commit-finished_twice}
use toolkit.UnitOfWork.Commit.Outcomes.{
  Runs, Commits, succeeded, refused, failed, no_fuel, commit-Commits,
}
use toolkit.UnitOfWork.Config.{ConfigOption}
use toolkit.UnitOfWork.Dependency.{default_dependency_manager}
use toolkit.UnitOfWork.Dependency.Calls.{GraphCall, run_graph, run_graph-IsGraph}
use toolkit.UnitOfWork.Dependency.Edges.{IsMap}
use toolkit.UnitOfWork.Entity.{EntityType, Ref, Heap, type_of, get_id}
use toolkit.UnitOfWork.Execute.{World}
use toolkit.UnitOfWork.Operation.{
  Operation, insert_operation, update_operation, delete_operation, bulk_insert_operation,
  bulk_update_operation, bulk_delete_operation, get_entities, get_entity_type,
}
use toolkit.UnitOfWork.Operation.Merge.{inserting, updating, deleting, family}
use toolkit.UnitOfWork.Plan.{ok, operation_key, optimize_operations, plan_operations}
use toolkit.UnitOfWork.Plan.Kinds.{IsSingle, kind_entities}
use toolkit.UnitOfWork.Plan.Order.{IsInOrder, sort_operations_by_dependency-IsInOrder}
use toolkit.UnitOfWork.Plan.Whole.{plan_operations-kind_entities}
use toolkit.UnitOfWork.Registered.InOrder.{InOrder}
use toolkit.UnitOfWork.Registered.Runs.{run-InOrder, new_unit_of_work-InOrder}
use toolkit.UnitOfWork.Snapshot.{Reflect}
use toolkit.UnitOfWork.State.{UnitOfWork, entities_of, new_unit_of_work}
use toolkit.UnitOfWork.State.Identity.{count_at, deletes_at}
use toolkit.UnitOfWork.State.Invariant.{Call, run, run-new_unit_of_work}
use toolkit.UnitOfWork.State.Steps.{IsConsistent}

module _ (h : Heap) (t : EntityType) (id : ℕ) where
  -- Single deletions, counted by the ID of their entity.
  pub deletions-count :
      (ops : List Operation)
      → All IsSingle ops
      → count_if (λ r. get_id h r == id) (kind_entities h deleting t ops)
        ≡ count_if (deletes_at h t id) ops
  unfolding family get_entities get_entity_type
  deletions-count [] single = refl
  deletions-count (insert_operation e ∷ ops) single = deletions-count ops single.1
  deletions-count (update_operation e c ∷ ops) single = deletions-count ops single.1
  deletions-count (delete_operation e ∷ ops) single = ground (arith, deletions-count ops single.1)
  deletions-count (bulk_insert_operation es s ∷ ops) single = absurd single.0
  deletions-count (bulk_update_operation es s ∷ ops) single = absurd single.0
  deletions-count (bulk_delete_operation es s ∷ ops) single = absurd single.0

-- The operations are on what the unit of work holds: for each type, the insertions on the new
-- entities and the updates on the dirty ones, in the order of registration, and a deletion for each
-- ID of a removed entity; insertions come first and deletions last.
pub record Carries (h : Heap) (u : UnitOfWork) (ops : List Operation) : Type 0 where
  pub inserted : (t : EntityType) → kind_entities h inserting t ops ≡ entities_of t u.new_entities
  pub updated : (t : EntityType) → kind_entities h updating t ops ≡ entities_of t u.dirty_entities
  pub deleted :
      (t : EntityType) (id : ℕ)
      → count_if (λ r. get_id h r == id) (kind_entities h deleting t ops)
        ≡ (if count_at h t id u.removed_entities == 0 then 0 else 1)
  pub ordered : IsInOrder (optimize_operations h u) ops

module _ {Db : Type 0} (env : Env Db) (h : Heap)
    (keys : (a b : Ref)
      → operation_key env.reflect env.sprint_id h a ≡ operation_key env.reflect env.sprint_id h b
      → type_of h a ≡ type_of h b) where
  pub plan_operations-Carries :
      (u : UnitOfWork)
      → IsConsistent h u
      → InOrder h u
      → IsMap u.dependency_manager.dependency_graph
      → u.config.enable_operation_merge ≡ true
      → (ops : List Operation) → plan_operations env.reflect env.ordering env.sprint_id h u ≡ ok ops
      → Carries h u ops
  unfolding plan_operations
  plan_operations-Carries u c s graph merges ops planned =
      let same =
        plan_operations-kind_entities env.reflect env.ordering env.sprint_id h u keys graph merges
          s.single ops planned in
      record {
        inserted = λ t. same inserting t ∙ s.inserted t;
        updated = λ t. same updating t ∙ s.updated t;
        deleted = λ t id.
            ap (count_if (λ r. get_id h r == id)) (same deleting t)
            ∙ deletions-count h t id u.operations s.single
            ∙ (c t id).deletes;
        ordered =
            sort_operations_by_dependency-IsInOrder env.reflect env.ordering env.sprint_id h
              u.dependency_manager (optimize_operations h u) ops planned;
      }

-- What `Commit` that reports no error has done.
pub record Accomplishes {Db : Type 0} (env : Env Db) (u : UnitOfWork) (w w' : World Db)
    : Type 0 where
  pub operations : List Operation
  pub ran : Runs env u.config operations w w'
  pub carried : Carries w.heap u operations

module _ {Db : Type 0} (env : Env Db) (u : UnitOfWork) (w : World Db)
    (carries : (ops : List Operation)
      → plan_operations env.reflect env.ordering env.sprint_id w.heap u ≡ ok ops
      → Carries w.heap u ops) where
  Commits-Accomplishes :
      (r : UnitOfWork × World Db × Option CommitError)
      → Commits env u w r
      → r.2 ≡ none
      → Accomplishes env u w r.1
  Commits-Accomplishes r (succeeded ops w' planned runs) fine = record {
    operations = ops;
    ran = runs;
    carried = carries ops planned;
  }
  Commits-Accomplishes r (refused planned) fine = cc
  Commits-Accomplishes r (failed before after op w' w'' err planned runs fails i e) fine = cc
  Commits-Accomplishes r (no_fuel planned) fine = cc

  finished-reports : is_finished u ≡ true → ¬ ((commit env u w).2 ≡ none)
  finished-reports closed fine =
      ground (arith, sym (ap (λ r. r.2) (commit-finished_twice env u w closed)) ∙ fine)

  commit-Accomplishes : (commit env u w).2 ≡ none → Accomplishes env u w (commit env u w).1
  commit-Accomplishes fine = elim (Bool-cases (is_finished u)) [
    | inl closed ↦ absurd (finished-reports closed fine)
    | inr alive ↦
        Commits-Accomplishes (commit env u w)
          (commit-Commits env u w (ground (arith, alive)) (ground (arith, alive))) fine
  ]

-- The unit of work after the calls of a client, with the dependencies of other calls.
abbrev pub client_unit :
    Heap → Reflect → List ConfigOption → List Call → List GraphCall → UnitOfWork
client_unit h rt options calls graph_calls = record (run h rt calls (new_unit_of_work options)) {
  dependency_manager = run_graph graph_calls default_dependency_manager;
}

pub client_unit-IsConsistent :
    (h : Heap) (rt : Reflect) (options : List ConfigOption) (calls : List Call)
    (graph_calls : List GraphCall)
    → IsConsistent h (client_unit h rt options calls graph_calls)
client_unit-IsConsistent h rt options calls graph_calls t id =
    let s = run-new_unit_of_work h rt options calls t id in
    record { inserts = s.inserts; updates = s.updates; deletes = s.deletes; once = s.once }

pub client_unit-InOrder :
    (h : Heap) (rt : Reflect) (options : List ConfigOption) (calls : List Call)
    (graph_calls : List GraphCall)
    → InOrder h (client_unit h rt options calls graph_calls)
unfolding new_unit_of_work run
client_unit-InOrder h rt options calls graph_calls =
    let new = new_unit_of_work options in
    let s =
      run-InOrder h rt calls new (run-new_unit_of_work h rt options [])
        (new_unit_of_work-InOrder h options) in
    record { single = s.single; inserted = s.inserted; updated = s.updated }

-- Let a client make any calls of Create, Update, Delete, TakeSnapshot and Rollback on a new unit of
-- work, while no entity changes its type or ID, and any calls on its dependency manager, and then
-- `Commit` with merging on. Let entities have equal texts of type and ID only if their types are
-- equal. If `Commit` reports no error, it has run operations in order, each without an error, that
-- are on what the unit of work held: for each type, the insertions on just the new entities and the
-- updates on just the dirty ones, in the order of their registration, and one deletion for each ID
-- among the removed ones. The insertions ran before the updates, and these before the deletions.
pub commit-client_unit :
    {Db : Type 0} (env : Env Db) (w : World Db) (options : List ConfigOption) (calls : List Call)
    (graph_calls : List GraphCall)
    → ((a b : Ref)
        → operation_key env.reflect env.sprint_id w.heap a
          ≡ operation_key env.reflect env.sprint_id w.heap b
        → type_of w.heap a ≡ type_of w.heap b)
    → (client_unit w.heap env.reflect options calls graph_calls).config.enable_operation_merge
      ≡ true
    → (commit env (client_unit w.heap env.reflect options calls graph_calls) w).2 ≡ none
    → Accomplishes env
        (client_unit w.heap env.reflect options calls graph_calls)
        w
        (commit env (client_unit w.heap env.reflect options calls graph_calls) w).1
commit-client_unit env w options calls graph_calls keys merges fine =
    let u = client_unit w.heap env.reflect options calls graph_calls in
    commit-Accomplishes env u w
      (plan_operations-Carries env w.heap keys u
        (client_unit-IsConsistent w.heap env.reflect options calls graph_calls)
        (client_unit-InOrder w.heap env.reflect options calls graph_calls)
        (run_graph-IsGraph graph_calls).is_map merges)
      fine
