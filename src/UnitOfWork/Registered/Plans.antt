-- ===== src/UnitOfWork/Registered/Plans.antt =====
-- When `Commit` of unitofwork/unitofwork.go can plan what a client has registered.
use toolkit.Prelude.{◌≡◌, ◌∙◌, ap, ℕ, true, false, List}
use toolkit.UnitOfWork.Config.{ConfigOption}
use toolkit.UnitOfWork.Commit.{Env}
use toolkit.UnitOfWork.Dependency.Calls.{GraphCall, run_graph-IsGraph}
use toolkit.UnitOfWork.Dependency.Kahn.{depends}
use toolkit.UnitOfWork.Entity.{EntityType, Ref, Heap, type_of}
use toolkit.UnitOfWork.Operation.{Operation}
use toolkit.UnitOfWork.Plan.{
  ok, operation_key, plan_operations, sort_operations_by_dependency, merge_operations,
}
use toolkit.UnitOfWork.Plan.Rearranged.{optimize_operations-merged}
use toolkit.UnitOfWork.Plan.Succeeds.{Succeeds, Ranks, sort_operations_by_dependency-Succeeds}
use toolkit.UnitOfWork.Plan.Whole.{merged-merges}
use toolkit.UnitOfWork.Registered.Committed.{
  Carries, client_unit, client_unit-IsConsistent, client_unit-InOrder, plan_operations-Carries,
}
use toolkit.UnitOfWork.Registered.Deletions.{Removes, deletes-Removes}
use toolkit.UnitOfWork.Registered.InOrder.{InOrder}
use toolkit.UnitOfWork.State.{UnitOfWork}
use toolkit.UnitOfWork.State.Invariant.{Call}
use toolkit.UnitOfWork.State.Steps.{IsConsistent}
use toolkit.UnitOfWork.Dependency.Edges.{IsMap}

module _ {Db : Type 0} (env : Env Db) (h : Heap) (u : UnitOfWork) (c : IsConsistent h u)
    (s : InOrder h u) (graph : IsMap u.dependency_manager.dependency_graph) (rank : EntityType → ℕ)
    (ranks : Ranks u.dependency_manager rank)
    (free : (t t' : EntityType)
      → Removes u t
      → Removes u t'
      → depends u.dependency_manager t t' ≡ false) where
  plan_operations-Succeeds :
      u.config.enable_operation_merge ≡ true
      → Succeeds (plan_operations env.reflect env.ordering env.sprint_id h u)
  unfolding plan_operations
  plan_operations-Succeeds merges =
      let ops = merge_operations h u.operations in
      let (sorted, done) =
        sort_operations_by_dependency-Succeeds env.reflect env.ordering env.sprint_id h
          u.dependency_manager graph rank ranks ops
          (λ x y i j.
            free (type_of h x) (type_of h y)
              (deletes-Removes env.reflect env.ordering env.sprint_id h u c s x i)
              (deletes-Removes env.reflect env.ordering env.sprint_id h u c s y j)) in
      (
        sorted,
        ap
              (sort_operations_by_dependency env.reflect env.ordering env.sprint_id h
                u.dependency_manager)
              (optimize_operations-merged h u ∙ merged-merges h u merges)
            ∙ done,
      )

-- Let a client make any calls of Create, Update, Delete, TakeSnapshot and Rollback on a new unit of
-- work with merging on, while no entity changes its type or ID, and any calls on its dependency
-- manager. Let entities have equal texts of type and ID only if their types are equal, let the types
-- be ranked so that each has a higher rank than those that it depends on, and let no type with a
-- removed entity depend on another such type. `Commit` can then plan its operations: for each type,
-- the insertions are on just the new entities and the updates on just the dirty ones, in the order
-- of their registration, and there is one deletion for each ID among the removed ones; the insertions
-- stand before the updates, and these before the deletions.
pub plan_operations-client_unit :
    {Db : Type 0} (env : Env Db) (h : Heap) (options : List ConfigOption) (calls : List Call)
    (graph_calls : List GraphCall)
    → ((a b : Ref)
        → operation_key env.reflect env.sprint_id h a ≡ operation_key env.reflect env.sprint_id h b
        → type_of h a ≡ type_of h b)
    → (client_unit h env.reflect options calls graph_calls).config.enable_operation_merge ≡ true
    → (rank : EntityType → ℕ)
    → Ranks (client_unit h env.reflect options calls graph_calls).dependency_manager rank
    → ((t t' : EntityType)
        → Removes (client_unit h env.reflect options calls graph_calls) t
        → Removes (client_unit h env.reflect options calls graph_calls) t'
        → depends (client_unit h env.reflect options calls graph_calls).dependency_manager t t'
          ≡ false)
    → (ops : List Operation) × (plan_operations env.reflect env.ordering env.sprint_id h
          (client_unit h env.reflect options calls graph_calls)
        ≡ ok ops)
      × Carries h (client_unit h env.reflect options calls graph_calls) ops
plan_operations-client_unit env h options calls graph_calls keys merges rank ranks free =
    let u = client_unit h env.reflect options calls graph_calls in
    let c = client_unit-IsConsistent h env.reflect options calls graph_calls in
    let s = client_unit-InOrder h env.reflect options calls graph_calls in
    let graph = (run_graph-IsGraph graph_calls).is_map in
    let (ops, planned) = plan_operations-Succeeds env h u c s graph rank ranks free merges in
    (ops, planned, plan_operations-Carries env h keys u c s graph merges ops planned)
