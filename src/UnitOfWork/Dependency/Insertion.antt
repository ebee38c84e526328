-- ===== src/UnitOfWork/Dependency/Insertion.antt =====
-- `GetInsertionOrder` of unitofwork/dependency.go.
use mathlib.Core.Bool.{false≢true}
use toolkit.Prelude.{
  ℕ, ◌≤◌, ◌<◌, ◌≡◌, refl, ◌∙◌, Bool, true, false, ◌==◌, List, [], ◌∷◌, some, arith, if◌then◌else◌,
  elem, any, count, length, count-pos-of-elem, elem_of_count-pos, Bool-cases, inl, inr, ==_iff,
  ==-self,
}
use toolkit.Prelude.Counts.{length_mono}
use toolkit.UnitOfWork.Entity.{EntityType, Ref, Heap, type_of}
use toolkit.UnitOfWork.Snapshot.{Reflect}
use toolkit.UnitOfWork.Dependency.{
  DependencyManager, Ordering, Sorted, ok, circular_dependency, get_insertion_order,
  topological_sort, finish_sort, sort_types, entity_types, group_by_type, collect,
}
use toolkit.UnitOfWork.Dependency.Edges.{IsMap}
use toolkit.UnitOfWork.Dependency.Kahn.{IsOrdered, depends}
use toolkit.UnitOfWork.Dependency.Loop.{State, sort_types-State, final_complete, final-all}
use toolkit.UnitOfWork.Dependency.Groups.{
  count-entity_types, elem-entity_types, count-collect, IsOrdered-collect,
}

-- An entity depends on another if its type does.
abbrev pub entity_depends : DependencyManager → Heap → Ref → Ref → Bool
entity_depends dm h x u = depends dm (type_of h x) (type_of h u)

-- A topological order of the entities: the same entities, each after those that it depends on.
pub record IsTopological (dm : DependencyManager) (h : Heap) (entities order : List Ref)
    : Type 0 where
  pub same : (e : Ref) → count e order ≡ count e entities
  pub ordered : IsOrdered (entity_depends dm h) entities [] order

pub data Sorts (dm : DependencyManager) (h : Heap) (entities : List Ref) (r : Sorted) : Type 0 where
  sorts :
      (order : List Ref) → r ≡ ok order → IsTopological dm h entities order → Sorts dm h entities r
  fails : r ≡ circular_dependency → Sorts dm h entities r

pub any-witness :
    (h : Heap) (t : EntityType) (es : List Ref)
    → any (λ e. type_of h e == t) es ≡ true
    → (e : Ref) × (elem e es ≡ true) × (type_of h e ≡ t)
any-witness h t [] a = absurd (false≢true a)
any-witness h t (x ∷ es) a = elim (Bool-cases (type_of h x == t)) [
  | inl here ↦ (x, ground (arith, ==-self x), (==_iff _ _).0 here)
  | inr there ↦ let (e, i, p) = any-witness h t es (ground arith) in (e, ground arith, p)
]

module _ (rt : Reflect) (ord : Ordering) (dm : DependencyManager) (m : IsMap dm.dependency_graph)
    (h : Heap) (entities : List Ref) where
  abbrev types : List EntityType
  types = entity_types rt ord h entities

  types-unique : (v : EntityType) → count v types ≤ 1
  types-unique v = ground (arith, count-entity_types rt ord h entities v)

  -- The result of the sort of the types.
  type_order : List EntityType
  type_order = (sort_types-State rt ord dm types m types-unique).0

  type_order-State :
      State rt ord dm types m types-unique []
        ((sort_types-State rt ord dm types m types-unique).1)
        type_order
  unfolding type_order
  type_order-State = (sort_types-State rt ord dm types m types-unique).3

  sort_types-type_order : sort_types rt ord dm false types ≡ some type_order
  unfolding type_order
  sort_types-type_order = (sort_types-State rt ord dm types m types-unique).2

  collected : List Ref
  collected = collect rt ord h (group_by_type h entities []) type_order

  -- The sort fails exactly if a type is left out.
  insertion_cases :
      finish_sort rt ord h entities (sort_types rt ord dm false types)
      ≡ (if length type_order == length types then ok collected else circular_dependency)
  unfolding finish_sort collected
  insertion_cases = rw sort_types-type_order (ground arith)

  module _ (all : (v : EntityType) → count v type_order ≡ count v types) where
    collected-count : (e : Ref) → count e collected ≡ count e entities
    unfolding collected
    collected-count e = ground (
      arith,
      count-collect rt ord h entities type_order e (λ t. ground (arith, all t, types-unique t)),
      all (type_of h e),
      elem_of_count-pos e entities,
      elem-entity_types rt ord h entities e,
      count-pos-of-elem (type_of h e) types,
      elem_of_count-pos (type_of h e) type_order,
      elem_of_count-pos e entities,
    )

  collected-IsOrdered : IsOrdered (entity_depends dm h) entities [] collected
  unfolding collected
  collected-IsOrdered =
      IsOrdered-collect rt ord h entities (depends dm) type_order [] [] type_order-State.ordered
        (λ u i j. j)

  finish-Sorts :
      Sorts dm h entities (finish_sort rt ord h entities (sort_types rt ord dm false types))
  finish-Sorts = elim (Bool-cases (length type_order == length types)) [
    | inl e ↦
        let all = final-all rt ord dm types m types-unique type_order-State ((==_iff _ _).0 e) in
        sorts collected (insertion_cases ∙ rw e)
          (record { same = collected-count all; ordered = collected-IsOrdered })
    | inr e ↦ fails (insertion_cases ∙ rw e)
  ]

  typed_entity :
      (t : EntityType)
      → elem t types ≡ true
      → (e : Ref) × (elem e entities ≡ true) × (type_of h e ≡ t)
  typed_entity t i =
      any-witness h t entities
        (ground (arith, count-pos-of-elem t types i, count-entity_types rt ord h entities t))

  finish-acyclic :
      (rank : EntityType → ℕ)
      → ((x u : Ref)
          → elem x entities ≡ true
          → elem u entities ≡ true
          → entity_depends dm h x u ≡ true
          → rank (type_of h u) < rank (type_of h x))
      → finish_sort rt ord h entities (sort_types rt ord dm false types) ≡ ok collected
  finish-acyclic rank grows =
      let all = final_complete rt ord dm types m types-unique type_order-State rank (λ s t i j d.
        let (x, ix, ex) = typed_entity s i in
        let (u, iu, eu) = typed_entity t j in rw (← ex, ← eu) (grows x u ix iu (rw (ex, eu) d))) in
      let long : length type_order ≡ length types = omega (
        arith,
        length_mono type_order types (λ v. omega (arith, all v)),
        length_mono types type_order (λ v. omega (arith, all v)),
      ) in
      insertion_cases ∙ ground (arith, long)

module _ (rt : Reflect) (ord : Ordering) (dm : DependencyManager) (m : IsMap dm.dependency_graph)
    (h : Heap) where
  -- Let the graph have each type once at most as a key. The sort for insertion always ends. It returns the entities, each as often as it was given, in an
  -- order in which each comes after all those whose type its type depends on; or it reports a
  -- circular dependency.
  pub get_insertion_order-Sorts :
      (entities : List Ref) → Sorts dm h entities (get_insertion_order rt ord dm h entities)
  unfolding get_insertion_order topological_sort
  get_insertion_order-Sorts [] = sorts [] refl (record { same = λ e. refl; ordered = tt })
  get_insertion_order-Sorts (x ∷ xs) = finish-Sorts rt ord dm m h (x ∷ xs)

  -- Let the graph have each type once at most as a key. If the types can be ranked so that a type has a higher rank than the types that it depends on,
  -- that is, if there is no cycle among the types of the entities, the sort for insertion succeeds.
  pub get_insertion_order-acyclic :
      (entities : List Ref) (rank : EntityType → ℕ)
      → ((x u : Ref)
          → elem x entities ≡ true
          → elem u entities ≡ true
          → entity_depends dm h x u ≡ true
          → rank (type_of h u) < rank (type_of h x))
      → (order : List Ref) × (get_insertion_order rt ord dm h entities ≡ ok order)
  unfolding get_insertion_order topological_sort
  get_insertion_order-acyclic [] rank grows = ([], refl)
  get_insertion_order-acyclic (x ∷ xs) rank grows =
      (collected rt ord dm m h (x ∷ xs), finish-acyclic rt ord dm m h (x ∷ xs) rank grows)
