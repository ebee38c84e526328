-- ===== src/UnitOfWork/Tests/Graphs.antt =====
-- The graph and the sorts of unitofwork/dependency.go at concrete entities.
use toolkit.Prelude.{◌≡◌, ◌<◌, refl, true, false, List, [], ◌∷◌, arith, count, elem}
use toolkit.Prelude.Map.{lookup}
use toolkit.UnitOfWork.Dependency.{ok, circular_dependency, get_insertion_order, get_deletion_order}
use toolkit.UnitOfWork.Dependency.Insertion.{
  Sorts, entity_depends, get_insertion_order-Sorts, get_insertion_order-acyclic,
}
use toolkit.UnitOfWork.Dependency.Deletion.{
  get_deletion_order-dependent, get_deletion_order-independent,
}
use toolkit.UnitOfWork.Entity.{Ref, type_of}
use toolkit.UnitOfWork.Tests.Data.{reflect, ordering, heap, dependencies, dependencies-IsMap}

get_insertion_order-Sorts_example :
    Sorts dependencies heap
      (20 ∷ 10 ∷ [])
      (get_insertion_order reflect ordering dependencies heap (20 ∷ 10 ∷ []))
get_insertion_order-Sorts_example =
    get_insertion_order-Sorts reflect ordering dependencies dependencies-IsMap heap (20 ∷ 10 ∷ [])

ranked :
    (x u : Ref)
    → elem x (20 ∷ 10 ∷ []) ≡ true
    → elem u (20 ∷ 10 ∷ []) ≡ true
    → entity_depends dependencies heap x u ≡ true
    → type_of heap u < type_of heap x
unfolding lookup
ranked x u i j d = ground (arith, i, j, d)

get_insertion_order-acyclic_example :
    (order : List Ref) × (get_insertion_order reflect ordering dependencies heap (20 ∷ 10 ∷ [])
      ≡ ok order)
get_insertion_order-acyclic_example =
    get_insertion_order-acyclic reflect ordering dependencies dependencies-IsMap heap (20 ∷ 10 ∷ [])
      (λ t. t) ranked

get_deletion_order-dependent_example :
    get_deletion_order reflect ordering dependencies heap (20 ∷ 10 ∷ []) ≡ circular_dependency
unfolding lookup
get_deletion_order-dependent_example =
    get_deletion_order-dependent reflect ordering dependencies heap (20 ∷ 10 ∷ []) 20 10 refl refl
      refl

unrelated :
    (x u : Ref)
    → elem x (10 ∷ 11 ∷ []) ≡ true
    → elem u (10 ∷ 11 ∷ []) ≡ true
    → entity_depends dependencies heap x u ≡ false
unfolding lookup
unrelated x u i j = ground (arith, i, j)

get_deletion_order-independent_example :
    (order : List Ref) × (get_deletion_order reflect ordering dependencies heap (10 ∷ 11 ∷ [])
      ≡ ok order)
    × ((e : Ref) → count e order ≡ count e (10 ∷ 11 ∷ []))
get_deletion_order-independent_example =
    get_deletion_order-independent reflect ordering dependencies heap dependencies-IsMap
      (10 ∷ 11 ∷ []) unrelated
