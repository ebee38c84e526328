-- ===== src/UnitOfWork/Dependency/Deletion.antt =====
-- `GetDeletionOrder` of unitofwork/dependency.go. It counts the in-degrees along the dependencies and
-- walks them in the other direction.
use mathlib.Core.Bool.{false≢true}
use mathlib.Core.List.{reverse, reverse-append}
use toolkit.Prelude.{
  ℕ, zero, suc, ◌≤◌, ◌≡◌, ◌≢◌, refl, ◌∙◌, sym, ap, Bool, true, false, ◌==◌, List, [], ◌∷◌, ◌++◌,
  none, some, arith, if◌then◌else◌, elem, count, count_if-append, length, count-pos-of-elem,
  elem_of_count-pos, append-nil, append_assoc, ==_iff, nat_eq,
}
use toolkit.Prelude.Counts.{length_mono, count-eq_of_length, nil_of_count}
use toolkit.Prelude.Int.{pos, is_zero}
use toolkit.Prelude.Map.{lookup, lookup_or}
use toolkit.UnitOfWork.Entity.{EntityType, Ref, Heap, type_of}
use toolkit.UnitOfWork.Snapshot.{Reflect}
use toolkit.UnitOfWork.Dependency.{
  DependencyManager, Ordering, Degrees, Sorted, ok, circular_dependency, get_deletion_order,
  topological_sort, finish_sort, sort_types, entity_types, group_by_type, collect, visit_queue,
  visit_neighbors, get_neighbors, dependencies_in, sort_by_weight, sources, calculate_in_degree,
}
use toolkit.UnitOfWork.Dependency.Degrees.{edges_from, calculate_in_degree-lookup}
use toolkit.UnitOfWork.Dependency.Edges.{
  IsMap, Graph, edges_from-pos, edges_from-le, edges_from-none,
}
use toolkit.UnitOfWork.Dependency.Kahn.{count-sort_by_weight}
use toolkit.UnitOfWork.Dependency.Loop.{count-keep}
use toolkit.UnitOfWork.Dependency.Groups.{count-entity_types, elem-entity_types, count-collect}
use toolkit.UnitOfWork.Dependency.Insertion.{entity_depends, any-witness}

-- A type with no edge from the types being sorted has none of them as a neighbour.
visit_dependencies :
    (g : Graph) (p : ℕ → Bool) (c : ℕ) (degrees : Degrees)
    → ((u : ℕ) → p u ≡ false → lookup u degrees ≡ none)
    → edges_from g p c ≡ 0
    → visit_neighbors (dependencies_in g c) degrees [] ≡ (degrees, [])
unfolding visit_neighbors dependencies_in
visit_dependencies [] p c degrees absent e = refl
visit_dependencies ((w, ds) ∷ g) p c degrees absent e =
    ground (arith, absent w, count-pos-of-elem c ds, visit_dependencies g p c degrees absent)

count-reverse : (a : ℕ) (xs : List ℕ) → count a (reverse xs) ≡ count a xs
count-reverse a [] = refl
count-reverse a (x ∷ xs) =
    ap (count a) (reverse-append (x ∷ []) xs)
    ∙ count_if-append (λ y. y == a) (reverse xs) (x ∷ [])
    ∙ ground (arith, count-reverse a xs)

module _ (rt : Reflect) (ord : Ordering) (dm : DependencyManager) (types : List EntityType) where
  abbrev degrees : Degrees
  degrees = calculate_in_degree dm types

  abbrev edges_in : EntityType → ℕ
  edges_in = edges_from dm.dependency_graph (λ u. elem u types)

  sort_nothing : sort_by_weight rt ord dm [] ≡ []
  sort_nothing = nil_of_count _ (λ v. count-sort_by_weight rt ord dm v [])

  visit_sources :
      (fuel : ℕ) (queue result : List EntityType)
      → ((c : EntityType) → elem c queue ≡ true → edges_in c ≡ 0)
      → length queue ≤ fuel
      → visit_queue rt ord fuel dm true queue degrees result ≡ some (result ++ queue)
  unfolding visit_queue get_neighbors
  visit_sources fuel [] result none_in l = ap some (sym (append-nil result))
  visit_sources zero (c ∷ queue) result none_in l = absurd (omega arith)
  visit_sources (suc fuel) (c ∷ queue) result none_in l =
      let stays =
        visit_dependencies dm.dependency_graph (λ u. elem u types) c degrees
          (λ u a. ground (arith, calculate_in_degree-lookup dm types u))
          (none_in c (ground (arith, ==_iff c c))) in
      rw (stays, visit_queue, sort_nothing, append-nil)
        (visit_sources fuel queue (result ++ c ∷ []) (λ d i. none_in d (ground arith)) (omega arith)
          ∙ ap some (append_assoc result (c ∷ []) queue))

  -- The types with in-degree 0, sorted.
  roots : List EntityType
  roots = sort_by_weight rt ord dm (sources rt ord degrees types)

  count-roots : (v : EntityType) → count v roots ≡ (if edges_in v == 0 then count v types else 0)
  unfolding roots sources
  count-roots v =
      count-sort_by_weight rt ord dm v (sources rt ord degrees types)
      ∙ count-keep (λ t. is_zero (lookup_or t (pos 0) degrees)) v types
      ∙ ground (arith, calculate_in_degree-lookup dm types v, elem_of_count-pos v types)

  sort_types-roots : sort_types rt ord dm true types ≡ some roots
  unfolding sort_types roots
  sort_types-roots =
      visit_sources (length types) roots []
        (λ c i. ground (arith, count-pos-of-elem c roots i, count-roots c))
        (length_mono roots types (λ v. ground (arith, count-roots v)))

module _ (rt : Reflect) (ord : Ordering) (dm : DependencyManager) (h : Heap)
    (entities : List Ref) where
  abbrev types : List EntityType
  types = entity_types rt ord h entities

  abbrev found : List EntityType
  found = roots rt ord dm types

  abbrev sorted : Sorted
  sorted = finish_sort rt ord h entities (sort_types rt ord dm true types)

  sorted-eq : sorted ≡ (
      if length found == length types
      then ok (collect rt ord h (group_by_type h entities []) found)
      else circular_dependency)
  unfolding finish_sort
  sorted-eq = rw sort_types-roots (ground arith)

  sorted-dependent :
      (x u : Ref)
      → elem x entities ≡ true
      → elem u entities ≡ true
      → entity_depends dm h x u ≡ true
      → sorted ≡ circular_dependency
  sorted-dependent x u i j d =
      let t = type_of h x in
      let edge =
        edges_from-pos dm.dependency_graph (λ w. elem w types) t (type_of h u)
          (elem-entity_types rt ord h entities u j) d in
      let present = count-pos-of-elem t types (elem-entity_types rt ord h entities x i) in
      let short : length found ≢ length types = λ e. ground (
        arith,
        count-eq_of_length found types (λ v. ground (arith, count-roots rt ord dm types v)) e t,
        count-roots rt ord dm types t,
        edge,
        present,
      ) in
      sorted-eq ∙ ground (arith, short)

  sorted-independent :
      IsMap dm.dependency_graph
      → ((x u : Ref)
          → elem x entities ≡ true
          → elem u entities ≡ true
          → entity_depends dm h x u ≡ false)
      → (order : List Ref) × (sorted ≡ ok order) × ((e : Ref) → count e order ≡ count e entities)
  sorted-independent m free =
      let typed = λ (t : EntityType) (i : elem t types ≡ true).
        any-witness h t entities
          (ground (arith, count-pos-of-elem t types i, count-entity_types rt ord h entities t)) in
      let no_edges = λ (v : EntityType) (i : elem v types ≡ true).
        edges_from-le dm.dependency_graph (λ u. elem u types) (λ u. false) v m
          (λ u j edge.
            let (x, ix, ex) = typed v i in
            let (y, iy, ey) = typed u j in ground (arith, free x y ix iy, ex, ey)) in
      let all : (v : EntityType) → count v found ≡ count v types = λ v. ground (
        arith,
        count-roots rt ord dm types v,
        no_edges v,
        edges_from-none dm.dependency_graph v,
        elem_of_count-pos v types,
      ) in
      let long : length found ≡ length types = omega (
        arith,
        length_mono found types (λ v. omega (arith, all v)),
        length_mono types found (λ v. omega (arith, all v)),
      ) in
      (
        collect rt ord h (group_by_type h entities []) found,
        sorted-eq ∙ ground (arith, long),
        λ e. ground (
          arith,
          count-collect rt ord h entities found e
              (λ t. ground (arith, all t, count-entity_types rt ord h entities t)),
          all (type_of h e),
          elem_of_count-pos e entities,
          elem-entity_types rt ord h entities e,
          count-pos-of-elem (type_of h e) types,
          elem_of_count-pos (type_of h e) found,
        ),
      )

module _ (rt : Reflect) (ord : Ordering) (dm : DependencyManager) (h : Heap) where
  -- As soon as the type of one of the entities depends on the type of another, the sort for deletion
  -- reports a circular dependency, whether there is a cycle or not.
  pub get_deletion_order-dependent :
      (entities : List Ref) (x u : Ref)
      → elem x entities ≡ true
      → elem u entities ≡ true
      → entity_depends dm h x u ≡ true
      → get_deletion_order rt ord dm h entities ≡ circular_dependency
  unfolding get_deletion_order topological_sort
  get_deletion_order-dependent [] x u i j d = absurd (false≢true i)
  get_deletion_order-dependent (e ∷ es) x u i j d =
      rw (sorted-dependent rt ord dm h (e ∷ es) x u i j d, get_deletion_order)

  -- Let the graph have each type once at most as a key. If none of their types depends on another, the sort for deletion returns the entities, each as
  -- often as it was given.
  pub get_deletion_order-independent :
      (m : IsMap dm.dependency_graph) (entities : List Ref)
      → ((x u : Ref)
          → elem x entities ≡ true
          → elem u entities ≡ true
          → entity_depends dm h x u ≡ false)
      → (order : List Ref) × (get_deletion_order rt ord dm h entities ≡ ok order)
        × ((e : Ref) → count e order ≡ count e entities)
  unfolding get_deletion_order topological_sort
  get_deletion_order-independent m [] free = ([], refl, λ e. refl)
  get_deletion_order-independent m (e ∷ es) free =
      let (order, e', same) = sorted-independent rt ord dm h (e ∷ es) m free in
      (reverse order, rw (e', get_deletion_order), λ a. count-reverse a order ∙ same a)
