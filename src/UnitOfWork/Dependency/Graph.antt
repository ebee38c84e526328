-- ===== src/UnitOfWork/Dependency/Graph.antt =====
-- Registration of dependencies (unitofwork/dependency.go): what `HasDependency` reads afterwards.
use toolkit.Prelude.{
  ℕ, ◌≡◌, true, false, not, ◌&&◌, ◌==◌, List, [], ◌∷◌, ◌++◌, arith, if◌then◌else◌, elem, any-append,
  keep, nat_eq,
}
use toolkit.Prelude.Map.{lookup-insert}
use toolkit.UnitOfWork.Entity.{EntityType}
use toolkit.UnitOfWork.Dependency.{
  DependencyManager, dependents_of, register_dependency, remove_dependency, has_dependency,
}

elem-keep :
    (a b : ℕ) (xs : List ℕ) → elem a (keep (λ t. not (t == b)) xs) ≡ (not (a == b) && elem a xs)
elem-keep a b [] = ground arith
elem-keep a b (x ∷ xs) = ground (arith, elem-keep a b xs)

module _ (dm : DependencyManager) (dependent dependency s t : EntityType) where
  -- After a registration there are the dependencies that there were, and the new one unless it is of
  -- a type on itself.
  pub has_dependency-register_dependency :
      has_dependency s t (register_dependency dependent dependency dm) ≡ (
        if (s == dependent) && (t == dependency) && not (dependent == dependency)
        then true
        else has_dependency s t dm)
  unfolding has_dependency register_dependency
  has_dependency-register_dependency =
      let old = dependents_of dm dependency in
      ground (
        arith,
        lookup-insert dependency t (old ++ dependent ∷ []) dm.dependency_graph,
        any-append (λ x. x == s) old (dependent ∷ []),
      )

  -- After a removal there are the dependencies that there were, but the removed one.
  pub has_dependency-remove_dependency :
      has_dependency s t (remove_dependency dependent dependency dm)
      ≡ (if (s == dependent) && (t == dependency) then false else has_dependency s t dm)
  unfolding has_dependency remove_dependency
  has_dependency-remove_dependency =
      let old = dependents_of dm dependency in
      ground (
        arith,
        lookup-insert dependency t (keep (λ x. not (x == dependent)) old) dm.dependency_graph,
        elem-keep s dependent old,
      )
