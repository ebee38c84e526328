-- ===== src/UnitOfWork/Dependency.antt =====
-- unitofwork/dependency.go: the dependency graph and the topological sort of entities by type.
pub mod Graph
pub mod Calls
pub mod Degrees
pub mod Visit
pub mod Edges
pub mod Kahn
pub mod Loop
pub mod Groups
pub mod Insertion
pub mod Outcome
pub mod Deletion
pub mod Types
use mathlib.Core.List.{reverse}
use toolkit.Prelude.{
  ℕ, zero, suc, ◌≡◌, Bool, true, false, not, ◌==◌, List, [], ◌∷◌, ◌++◌, Option, none, some,
  bytes_lt, if◌then◌else◌, length, elem, keep, count, nat_eq, any, map,
}
use toolkit.Prelude.Int.{ℤ, pos, ltb_ℤ, eq_ℤ, increment, decrement, is_zero}
use toolkit.Prelude.Map.{lookup, insert, lookup_or, keys}
use toolkit.UnitOfWork.Entity.{EntityType, Ref, Heap, type_of, get_id}
use toolkit.UnitOfWork.Snapshot.{Reflect}

-- `sort.Slice`, and the order in which `range` visits the keys of a map: both only rearrange.
pub record Ordering : Type 0 where
  pub sort_slice : (ℕ → ℕ → Bool) → List ℕ → List ℕ
  pub range_keys : List ℕ → List ℕ
  pub count-sort_slice :
      (a : ℕ) (less : ℕ → ℕ → Bool) (xs : List ℕ) → count a (sort_slice less xs) ≡ count a xs
  pub count-range_keys : (a : ℕ) (xs : List ℕ) → count a (range_keys xs) ≡ count a xs

-- `dependency_graph` maps a type to the types that depend on it.
pub record DependencyManager : Type 0 where
  pub dependency_graph : List (EntityType × List EntityType)
  pub entity_weights : List (EntityType × ℤ)

abbrev pub new_dependency_manager : DependencyManager
new_dependency_manager = record { dependency_graph = []; entity_weights = [] }

abbrev pub default_dependency_manager : DependencyManager
default_dependency_manager = new_dependency_manager

-- The types that depend on a type.
abbrev pub dependents_of : DependencyManager → EntityType → List EntityType
dependents_of dm t = lookup_or t [] dm.dependency_graph

unfoldable pub register_dependency : EntityType → EntityType → DependencyManager → DependencyManager
register_dependency dependent dependency dm =
    if dependent == dependency
    then dm
    else (let dependents = dependents_of dm dependency in
        if elem dependent dependents then dm else record dm {
          dependency_graph = insert dependency (dependents ++ dependent ∷ []) dm.dependency_graph;
        })

unfoldable pub register_entity_weight : EntityType → ℤ → DependencyManager → DependencyManager
register_entity_weight t weight dm = record dm {
  entity_weights = insert t weight dm.entity_weights;
}

unfoldable pub has_dependency : EntityType → EntityType → DependencyManager → Bool
has_dependency dependent dependency dm = elem dependent (dependents_of dm dependency)

unfoldable pub remove_dependency : EntityType → EntityType → DependencyManager → DependencyManager
remove_dependency dependent dependency dm = record dm {
  dependency_graph =
      insert dependency (keep (λ t. not (t == dependent)) (dependents_of dm dependency))
        dm.dependency_graph;
}

unfoldable pub clear : DependencyManager → DependencyManager
clear dm = new_dependency_manager

pub data Sorted : Type 0 where
  ok : List Ref → Sorted
  circular_dependency : Sorted
  out_of_fuel : Sorted

abbrev pub Groups : Type 0
Groups = List (EntityType × List Ref)

abbrev pub Degrees : Type 0
Degrees = List (EntityType × ℤ)

-- `typeToEntities`
unfoldable pub group_by_type : Heap → List Ref → Groups → Groups
group_by_type h [] groups = groups
group_by_type h (e ∷ es) groups =
    group_by_type h es (insert (type_of h e) (lookup_or (type_of h e) [] groups ++ e ∷ []) groups)

unfoldable pub init_degrees : List EntityType → Degrees → Degrees
init_degrees [] degrees = degrees
init_degrees (t ∷ ts) degrees = init_degrees ts (insert t (pos 0) degrees)

-- One more edge into each dependent that is among the types being sorted.
unfoldable pub count_dependents : List EntityType → Degrees → Degrees
count_dependents [] degrees = degrees
count_dependents (dep ∷ deps) degrees =
    count_dependents deps
      (elim (lookup dep degrees) [ none ↦ degrees | some d ↦ insert dep (increment d) degrees ])

unfoldable pub count_edges : List (EntityType × List EntityType) → Degrees → Degrees
unfolding count_dependents
count_edges [] degrees = degrees
count_edges ((dependency, dependents) ∷ graph) degrees =
    count_edges graph (elim (lookup dependency degrees) [
      | none ↦ degrees
      | some _ ↦ count_dependents dependents degrees
    ])

unfoldable pub calculate_in_degree : DependencyManager → List EntityType → Degrees
unfolding init_degrees count_edges
calculate_in_degree dm types = count_edges dm.dependency_graph (init_degrees types [])

-- The types with `t` among their dependents.
unfoldable pub dependencies_in : List (EntityType × List EntityType) → EntityType → List EntityType
dependencies_in [] t = []
dependencies_in ((dependency, dependents) ∷ graph) t =
    let rest = dependencies_in graph t in if elem t dependents then dependency ∷ rest else rest

unfoldable pub get_neighbors : DependencyManager → EntityType → Bool → List EntityType
unfolding dependencies_in
get_neighbors dm t reverse =
    if not reverse then dependents_of dm t else dependencies_in dm.dependency_graph t

unfoldable pub get_entity_weight : DependencyManager → EntityType → ℤ
get_entity_weight dm t = lookup_or t (pos 0) dm.entity_weights

-- The loop over the neighbours of a type: the degrees and the next level.
unfoldable pub visit_neighbors :
    List EntityType → Degrees → List EntityType → Degrees × List EntityType
visit_neighbors [] degrees next = (degrees, next)
visit_neighbors (n ∷ ns) degrees next = elim (lookup n degrees) [
  | none ↦ visit_neighbors ns degrees next
  | some d ↦
      visit_neighbors ns (insert n (decrement d) degrees)
        (if is_zero (decrement d) then next ++ n ∷ [] else next)
]

module _ (rt : Reflect) (ord : Ordering) where
  less_by_weight : DependencyManager → EntityType → EntityType → Bool
  unfolding get_entity_weight
  less_by_weight dm s t =
      if not (eq_ℤ (get_entity_weight dm s) (get_entity_weight dm t))
      then ltb_ℤ (get_entity_weight dm s) (get_entity_weight dm t)
      else bytes_lt (rt.type_string s) (rt.type_string t)

  unfoldable pub sort_by_weight : DependencyManager → List EntityType → List EntityType
  unfolding less_by_weight
  sort_by_weight dm = ord.sort_slice (less_by_weight dm)

  unfoldable pub sort_entities_by_id : Heap → List Ref → List Ref
  sort_entities_by_id h =
      ord.sort_slice (λ a b. bytes_lt (rt.value_string (get_id h a)) (rt.value_string (get_id h b)))

  -- The loop over the queue. `none` when the fuel runs out.
  unfoldable pub visit_queue :
      ℕ
      → DependencyManager
      → Bool
      → List EntityType
      → Degrees
      → List EntityType
      → Option (List EntityType)
  visit_queue fuel dm reverse [] degrees result = some result
  visit_queue zero dm reverse (current ∷ queue) degrees result = none
  visit_queue (suc fuel) dm reverse (current ∷ queue) degrees result =
      let (degrees', next) = visit_neighbors (get_neighbors dm current reverse) degrees [] in
      visit_queue fuel dm reverse (queue ++ sort_by_weight dm next) degrees'
        (result ++ current ∷ [])

  -- The types with in-degree 0.
  unfoldable pub sources : Degrees → List EntityType → List EntityType
  sources degrees = keep (λ t. is_zero (lookup_or t (pos 0) degrees))

  -- The entities of the sorted types, each group sorted by ID.
  unfoldable pub collect : Heap → Groups → List EntityType → List Ref
  collect h groups [] = []
  collect h groups (t ∷ ts) = sort_entities_by_id h (lookup_or t [] groups) ++ collect h groups ts

  -- The order of the types. The fuel is their number, which bounds the rounds of the loop.
  unfoldable pub sort_types : DependencyManager → Bool → List EntityType → Option (List EntityType)
  sort_types dm reverse types =
      let degrees = calculate_in_degree dm types in
      visit_queue (length types) dm reverse (sort_by_weight dm (sources degrees types)) degrees []

  -- The types of the entities, in the order in which `range` visits them.
  unfoldable pub entity_types : Heap → List Ref → List EntityType
  entity_types h entities = ord.range_keys (keys (group_by_type h entities []))

  unfoldable pub finish_sort : Heap → List Ref → Option (List EntityType) → Sorted
  finish_sort h entities none = out_of_fuel
  finish_sort h entities (some result) =
      if not (length result == length (entity_types h entities))
      then circular_dependency
      else ok (collect h (group_by_type h entities []) result)

  unfoldable pub topological_sort : DependencyManager → Heap → List Ref → Bool → Sorted
  topological_sort dm h [] reverse = ok []
  topological_sort dm h (e ∷ es) reverse =
      finish_sort h (e ∷ es) (sort_types dm reverse (entity_types h (e ∷ es)))

  unfoldable pub get_insertion_order : DependencyManager → Heap → List Ref → Sorted
  get_insertion_order dm h entities = topological_sort dm h entities false

  -- The swaps of the loop reverse the list.
  unfoldable pub get_deletion_order : DependencyManager → Heap → List Ref → Sorted
  get_deletion_order dm h entities = elim (topological_sort dm h entities true) [
    | ok result ↦ ok (reverse result)
    | circular_dependency ↦ circular_dependency
    | out_of_fuel ↦ out_of_fuel
  ]
