-- ===== src/UnitOfWork/Tests/Whole.antt =====
-- A client of unitofwork from its calls to its commit.
use toolkit.Prelude.{◌≡◌, ◌⊎◌, refl, true, false, arith, List, [], ◌∷◌, none, some}
use toolkit.UnitOfWork.Commit.{commit}
use toolkit.UnitOfWork.Dependency.Calls.{GraphCall, register_call}
use toolkit.UnitOfWork.Dependency.Kahn.{depends}
use toolkit.UnitOfWork.Entity.{EntityType}
use toolkit.UnitOfWork.Operation.{Operation}
use toolkit.UnitOfWork.Plan.{ok, plan_operations}
use toolkit.UnitOfWork.Plan.Succeeds.{Ranks}
use toolkit.UnitOfWork.Registered.Committed.{Carries, client_unit, Accomplishes, commit-client_unit}
use toolkit.UnitOfWork.Registered.Deletions.{Removes}
use toolkit.UnitOfWork.Registered.Plans.{plan_operations-client_unit}
use toolkit.UnitOfWork.State.{UnitOfWork}
use toolkit.UnitOfWork.State.Invariant.{Call, create_call, update_call, delete_call}
use toolkit.UnitOfWork.Tests.Data.{ordering, reflect, heap, env, world}
use toolkit.UnitOfWork.Tests.Planning.{typed_keys}

-- Two insertions of types of which one depends on the other, an update, and two deletions.
abbrev calls : List Call
calls =
    create_call (some 20)
    ∷ create_call (some 10)
    ∷ update_call (some 11)
    ∷ delete_call (some 30)
    ∷ delete_call (some 40)
    ∷ []

abbrev graph_calls : List GraphCall
graph_calls = register_call 2 1 ∷ []

abbrev client : UnitOfWork
client = client_unit heap reflect [] calls graph_calls

client_commits : (commit env client world).2 ≡ none
unfolding toolkit.UnitOfWork.Plan.sort_operations_by_dependency toolkit.UnitOfWork.Plan.sort_groups
    toolkit.UnitOfWork.Plan.sort_operations_by_entity_dependency toolkit.UnitOfWork.Plan.has_type
    toolkit.UnitOfWork.Plan.entities_of_operations toolkit.UnitOfWork.Plan.join_groups
    toolkit.UnitOfWork.Plan.operation_map toolkit.UnitOfWork.Plan.operations_for
    toolkit.UnitOfWork.Plan.regroup toolkit.UnitOfWork.Operation.get_operation_type
    toolkit.UnitOfWork.Operation.get_entity toolkit.UnitOfWork.Operation.first_entity
    toolkit.UnitOfWork.Dependency.get_insertion_order
    toolkit.UnitOfWork.Dependency.get_deletion_order toolkit.UnitOfWork.Dependency.topological_sort
    toolkit.UnitOfWork.Dependency.finish_sort toolkit.UnitOfWork.Dependency.sort_types
    toolkit.UnitOfWork.Dependency.visit_queue toolkit.UnitOfWork.Dependency.sort_by_weight
    toolkit.UnitOfWork.Dependency.sources toolkit.UnitOfWork.Dependency.entity_types
    toolkit.UnitOfWork.Dependency.group_by_type toolkit.UnitOfWork.Dependency.calculate_in_degree
    toolkit.UnitOfWork.Dependency.collect toolkit.UnitOfWork.Dependency.count_dependents
    toolkit.UnitOfWork.Dependency.count_edges toolkit.UnitOfWork.Dependency.dependencies_in
    toolkit.UnitOfWork.Dependency.get_entity_weight toolkit.UnitOfWork.Dependency.get_neighbors
    toolkit.UnitOfWork.Dependency.init_degrees toolkit.UnitOfWork.Dependency.sort_entities_by_id
    toolkit.UnitOfWork.Dependency.visit_neighbors toolkit.UnitOfWork.Tests.Data.sort_by
    toolkit.Prelude.Map.insert toolkit.Prelude.Map.lookup toolkit.Prelude.bytes_eq
    toolkit.Prelude.bytes_lt toolkit.UnitOfWork.Plan.plan_operations
    toolkit.UnitOfWork.Plan.optimize_operations toolkit.UnitOfWork.Plan.merge_operations
    toolkit.UnitOfWork.Plan.remove_invalid_operations toolkit.UnitOfWork.Operation.can_merge
    toolkit.UnitOfWork.Operation.merge toolkit.UnitOfWork.Commit.commit
    toolkit.UnitOfWork.Commit.after_guards toolkit.UnitOfWork.Commit.begin_commit
    toolkit.UnitOfWork.Commit.finish_commit toolkit.UnitOfWork.Commit.execute_operations
    toolkit.UnitOfWork.Commit.execute_planned toolkit.UnitOfWork.Commit.execute_all
    toolkit.UnitOfWork.Execute.execute toolkit.UnitOfWork.State.Invariant.run
    toolkit.UnitOfWork.State.new_unit_of_work toolkit.UnitOfWork.State.create
    toolkit.UnitOfWork.State.update toolkit.UnitOfWork.State.delete
    toolkit.UnitOfWork.Dependency.Calls.run_graph toolkit.UnitOfWork.Dependency.register_dependency
    toolkit.UnitOfWork.Snapshot.is_dirty toolkit.UnitOfWork.Operation.same_identity
    toolkit.UnitOfWork.Entity.is_new
client_commits = refl

client_merges : client.config.enable_operation_merge ≡ true
unfolding toolkit.UnitOfWork.State.Invariant.run toolkit.UnitOfWork.State.new_unit_of_work
    toolkit.UnitOfWork.State.delete toolkit.UnitOfWork.State.update toolkit.UnitOfWork.State.create
    toolkit.Prelude.Map.lookup toolkit.Prelude.Map.insert toolkit.UnitOfWork.Snapshot.is_dirty
client_merges = refl

commit-client_unit_example : Accomplishes env client world (commit env client world).1
commit-client_unit_example =
    commit-client_unit env world [] calls graph_calls typed_keys client_merges client_commits

client-Ranks : Ranks client.dependency_manager (λ t. t)
unfolding toolkit.Prelude.Map.lookup toolkit.Prelude.Map.insert
    toolkit.UnitOfWork.Dependency.Calls.run_graph toolkit.UnitOfWork.Dependency.register_dependency
client-Ranks s t edge = ground (arith, edge)

removed_types : (t : EntityType) → Removes client t → (t ≡ 3) ⊎ (t ≡ 4)
unfolding toolkit.UnitOfWork.State.Invariant.run toolkit.UnitOfWork.State.new_unit_of_work
    toolkit.UnitOfWork.State.delete toolkit.UnitOfWork.State.update toolkit.UnitOfWork.State.create
    toolkit.Prelude.Map.lookup toolkit.Prelude.Map.insert toolkit.UnitOfWork.Snapshot.is_dirty
    toolkit.UnitOfWork.Dependency.Calls.run_graph toolkit.UnitOfWork.Dependency.register_dependency
removed_types t removed = ground (arith, removed)

client_free :
    (t t' : EntityType)
    → Removes client t
    → Removes client t'
    → depends client.dependency_manager t t' ≡ false
unfolding toolkit.Prelude.Map.lookup toolkit.Prelude.Map.insert
    toolkit.UnitOfWork.Dependency.Calls.run_graph toolkit.UnitOfWork.Dependency.register_dependency
client_free t t' r r' = ground (arith, removed_types t r, removed_types t' r')

plan_operations-client_unit_example :
    (ops : List Operation) × (plan_operations reflect ordering env.sprint_id heap client ≡ ok ops)
    × Carries heap client ops
plan_operations-client_unit_example =
    plan_operations-client_unit env heap [] calls graph_calls typed_keys client_merges (λ t. t)
      client-Ranks client_free
