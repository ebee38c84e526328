-- ===== src/UnitOfWork/Dependency/Calls.antt =====
-- What any calls of `RegisterDependency`, `RemoveDependency`, `RegisterEntityWeight` and `Clear` of
-- unitofwork/dependency.go make of a new dependency graph.
use toolkit.Prelude.{◌≡◌, refl, false, List, [], ◌∷◌, ◌++◌, arith, nat_eq, ==_iff}
use toolkit.Prelude.Int.{ℤ}
use toolkit.Prelude.Keys.{count-keys-insert}
use toolkit.Prelude.Map.{lookup, insert}
use toolkit.UnitOfWork.Entity.{EntityType}
use toolkit.UnitOfWork.Dependency.{
  DependencyManager, new_dependency_manager, dependents_of, register_dependency,
  register_entity_weight, remove_dependency, has_dependency, clear,
}
use toolkit.UnitOfWork.Dependency.Edges.{IsMap, Graph}
use toolkit.UnitOfWork.Dependency.Graph.{
  has_dependency-register_dependency, has_dependency-remove_dependency,
}

pub data GraphCall : Type 0 where
  register_call : EntityType → EntityType → GraphCall
  remove_call : EntityType → EntityType → GraphCall
  weight_call : EntityType → ℤ → GraphCall
  clear_call : GraphCall

unfoldable pub run_graph : List GraphCall → DependencyManager → DependencyManager
run_graph [] dm = dm
run_graph (register_call s t ∷ calls) dm = run_graph calls (register_dependency s t dm)
run_graph (remove_call s t ∷ calls) dm = run_graph calls (remove_dependency s t dm)
run_graph (weight_call t weight ∷ calls) dm = run_graph calls (register_entity_weight t weight dm)
run_graph (clear_call ∷ calls) dm = run_graph calls (clear dm)

-- The graph has a type at most once as a key, and no type depends on itself.
pub record IsGraph (dm : DependencyManager) : Type 0 where
  pub is_map : IsMap dm.dependency_graph
  pub irreflexive : (t : EntityType) → has_dependency t t dm ≡ false

insert-IsMap : (k : EntityType) (v : List EntityType) (g : Graph) → IsMap g → IsMap (insert k v g)
insert-IsMap k v g m u = ground (arith, count-keys-insert k u v g, m u)

register_dependency-IsMap :
    (s t : EntityType) (dm : DependencyManager)
    → IsMap dm.dependency_graph
    → IsMap (register_dependency s t dm).dependency_graph
unfolding register_dependency
register_dependency-IsMap s t dm m u =
    ground (arith, m u, insert-IsMap t (dependents_of dm t ++ s ∷ []) dm.dependency_graph m u)

register_dependency-IsGraph :
    (s t : EntityType) (dm : DependencyManager) → IsGraph dm → IsGraph (register_dependency s t dm)
register_dependency-IsGraph s t dm g = record {
  is_map = register_dependency-IsMap s t dm g.is_map;
  irreflexive = λ u. ground (
    arith,
    has_dependency-register_dependency dm s t u u,
    g.irreflexive u,
    ==_iff u s,
    ==_iff u t,
    ==_iff s t,
  );
}

remove_dependency-IsGraph :
    (s t : EntityType) (dm : DependencyManager) → IsGraph dm → IsGraph (remove_dependency s t dm)
unfolding remove_dependency
remove_dependency-IsGraph s t dm g = record {
  is_map = insert-IsMap t _ dm.dependency_graph g.is_map;
  irreflexive = λ u. ground (arith, has_dependency-remove_dependency dm s t u u, g.irreflexive u);
}

new-IsGraph : IsGraph new_dependency_manager
unfolding has_dependency lookup
new-IsGraph = record { is_map = λ u. omega arith; irreflexive = λ t. refl }

run_graph_from :
    (calls : List GraphCall) (dm : DependencyManager) → IsGraph dm → IsGraph (run_graph calls dm)
unfolding run_graph register_entity_weight clear has_dependency
run_graph_from [] dm g = g
run_graph_from (register_call s t ∷ calls) dm g =
    run_graph_from calls _ (register_dependency-IsGraph s t dm g)
run_graph_from (remove_call s t ∷ calls) dm g =
    run_graph_from calls _ (remove_dependency-IsGraph s t dm g)
run_graph_from (weight_call t weight ∷ calls) dm g =
    run_graph_from calls _ (record { is_map = g.is_map; irreflexive = g.irreflexive })
run_graph_from (clear_call ∷ calls) dm g = run_graph_from calls _ new-IsGraph

-- Whatever calls register, remove and weigh dependencies or clear them, from a new dependency manager
-- on, the graph has each type at most once as a key and no type depends on itself.
pub run_graph-IsGraph : (calls : List GraphCall) → IsGraph (run_graph calls new_dependency_manager)
run_graph-IsGraph calls = run_graph_from calls new_dependency_manager new-IsGraph
