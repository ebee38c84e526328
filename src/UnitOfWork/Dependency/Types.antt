-- ===== src/UnitOfWork/Dependency/Types.antt =====
-- `GetAllEntityTypes` of unitofwork/dependency.go.
use toolkit.Prelude.{
  ℕ, ◌≡◌, refl, ◌∙◌, Bool, true, false, ◌&&◌, ◌||◌, ◌==◌, List, [], ◌∷◌, arith, if◌then◌else◌, elem,
  count, nat_eq, ==_iff,
}
use toolkit.Prelude.Keys.{count-keys-insert}
use toolkit.Prelude.Map.{insert, keys}
use toolkit.UnitOfWork.Entity.{EntityType}
use toolkit.UnitOfWork.Dependency.{DependencyManager, Ordering}
use toolkit.UnitOfWork.Dependency.Edges.{Graph}

-- `typeSet`
abbrev pub TypeSet : Type 0
TypeSet = List (EntityType × Bool)

unfoldable pub add_types : List EntityType → TypeSet → TypeSet
add_types [] set = set
add_types (t ∷ ts) set = add_types ts (insert t true set)

unfoldable pub types_of_graph : Graph → TypeSet → TypeSet
unfolding add_types
types_of_graph [] set = set
types_of_graph ((dependency, dependents) ∷ graph) set =
    types_of_graph graph (add_types dependents (insert dependency true set))

unfoldable pub get_all_entity_types : Ordering → DependencyManager → List EntityType
unfolding types_of_graph
get_all_entity_types ord dm = ord.range_keys (keys (types_of_graph dm.dependency_graph []))

-- A type stands in the graph, as a key or among the dependents of one.
abbrev pub in_graph : EntityType → Graph → Bool
in_graph t [] = false
in_graph t ((dependency, dependents) ∷ graph) =
    dependency == t || elem t dependents || in_graph t graph

-- A set holds a type once, if at all.
abbrev once_if : Bool → ℕ → ℕ
once_if new n = if new && (n == 0) then 1 else n

count-add_types :
    (t : EntityType) (ts : List EntityType) (set : TypeSet)
    → count t (keys (add_types ts set)) ≡ once_if (elem t ts) (count t (keys set))
unfolding add_types
count-add_types t [] set = refl
count-add_types t (s ∷ ts) set =
    ground
      (arith, count-add_types t ts (insert s true set), count-keys-insert s t true set, ==_iff s t)

count-types_of_graph :
    (t : EntityType) (graph : Graph) (set : TypeSet)
    → count t (keys (types_of_graph graph set)) ≡ once_if (in_graph t graph) (count t (keys set))
unfolding types_of_graph
count-types_of_graph t [] set = refl
count-types_of_graph t ((dependency, dependents) ∷ graph) set =
    let first = insert dependency true set in
    ground (
      arith,
      count-types_of_graph t graph (add_types dependents first),
      count-add_types t dependents first,
      count-keys-insert dependency t true set,
      ==_iff dependency t,
    )

-- The types of the graph are listed once each, and nothing else is, whatever the order in which the
-- map is visited.
get_all_entity_types_lem :
    (ord : Ordering) (dm : DependencyManager) (t : EntityType)
    → count t (get_all_entity_types ord dm) ≡ (if in_graph t dm.dependency_graph then 1 else 0)
unfolding get_all_entity_types
get_all_entity_types_lem ord dm t =
    ord.count-range_keys t (keys (types_of_graph dm.dependency_graph []))
    ∙ count-types_of_graph t dm.dependency_graph []
    ∙ ground arith
