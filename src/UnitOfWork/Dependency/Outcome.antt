-- ===== src/UnitOfWork/Dependency/Outcome.antt =====
-- What `GetInsertionOrder` and `GetDeletionOrder` of unitofwork/dependency.go return, whatever the
-- dependencies are: an order of the same entities, or the report of a circular dependency.
use mathlib.Core.Bool.{false≢true}
use toolkit.Prelude.{
  ◌≡◌, Bool, true, false, List, [], ◌∷◌, ◌==◌, arith, elem, count, any, Bool-cases, inl, inr,
  ==_iff, nat_eq,
}
use toolkit.UnitOfWork.Dependency.{
  DependencyManager, Ordering, Sorted, ok, circular_dependency, get_insertion_order,
  get_deletion_order,
}
use toolkit.UnitOfWork.Dependency.Deletion.{
  get_deletion_order-dependent, get_deletion_order-independent,
}
use toolkit.UnitOfWork.Dependency.Edges.{IsMap}
use toolkit.UnitOfWork.Dependency.Insertion.{
  Sorts, sorts, fails, get_insertion_order-Sorts, entity_depends,
}
use toolkit.UnitOfWork.Entity.{Ref, Heap}
use toolkit.UnitOfWork.Snapshot.{Reflect}

pub data Rearranges (entities : List Ref) (r : Sorted) : Type 0 where
  rearranges :
      (order : List Ref)
      → r ≡ ok order
      → ((e : Ref) → count e order ≡ count e entities)
      → Rearranges entities r
  refuses : r ≡ circular_dependency → Rearranges entities r

any-elem :
    (p : Ref → Bool) (es : List Ref)
    → any p es ≡ true
    → (e : Ref) × (elem e es ≡ true) × (p e ≡ true)
any-elem p [] some_of = absurd (false≢true some_of)
any-elem p (x ∷ es) some_of = elim (Bool-cases (p x)) [
  | inl here ↦ (x, ground (arith, ==_iff x x), here)
  | inr there ↦
      let (e, i, is) = any-elem p es (ground (arith, some_of, there)) in (e, ground (arith, i), is)
]

any-none :
    (p : Ref → Bool) (es : List Ref) → any p es ≡ false → (e : Ref) → elem e es ≡ true → p e ≡ false
any-none p [] none_of e i = absurd (false≢true i)
any-none p (x ∷ es) none_of e i = elim (Bool-cases (x == e)) [
  | inl same ↦ rw (← (==_iff x e).0 same) (ground (arith, none_of))
  | inr other ↦
      any-none p es (ground (arith, none_of)) e (ground (arith, i, other, ==_iff x e, ==_iff e x))
]

module _ (rt : Reflect) (ord : Ordering) (dm : DependencyManager) (h : Heap)
    (graph : IsMap dm.dependency_graph) (entities : List Ref) where
  Sorts-Rearranges : (r : Sorted) → Sorts dm h entities r → Rearranges entities r
  Sorts-Rearranges r (sorts order e t) = rearranges order e t.same
  Sorts-Rearranges r (fails e) = refuses e

  pub get_insertion_order-Rearranges :
      Rearranges entities (get_insertion_order rt ord dm h entities)
  get_insertion_order-Rearranges =
      Sorts-Rearranges _ (get_insertion_order-Sorts rt ord dm graph h entities)

  -- One of the entities is of a type that depends on that of another.
  abbrev some_depends : Bool
  some_depends = any (λ x. any (entity_depends dm h x) entities) entities

  pub get_deletion_order-Rearranges : Rearranges entities (get_deletion_order rt ord dm h entities)
  get_deletion_order-Rearranges = elim (Bool-cases some_depends) [
    | inl dependent ↦
        let (x, i, at_x) =
          any-elem (λ x. any (entity_depends dm h x) entities) entities dependent in
        let (u, j, edge) = any-elem (entity_depends dm h x) entities at_x in
        refuses (get_deletion_order-dependent rt ord dm h entities x u i j edge)
    | inr free ↦
        let (order, e, same) = get_deletion_order-independent rt ord dm h graph entities (λ x u i j.
          any-none (entity_depends dm h x) entities
            (any-none (λ x. any (entity_depends dm h x) entities) entities free x i) u j) in
        rearranges order e same
  ]
