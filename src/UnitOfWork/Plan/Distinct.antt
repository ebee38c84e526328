-- ===== src/UnitOfWork/Plan/Distinct.antt =====
-- The map from entities to operations of `sortOperationsByEntityDependency`
-- (unitofwork/unitofwork.go), for operations on different entities.
use toolkit.Prelude.{
  ◌≡◌, refl, ap, ◌∙◌, ℕ, Bool, true, false, not, ◌&&◌, List, [], ◌∷◌, none, some, inl, inr, arith,
  Bytes, bytes_eq, bytes_eq_instance, Option-cases, if◌then◌else◌, count, count_if,
}
use toolkit.Prelude.Counts.{count_if_mono}
use toolkit.Prelude.Map.{lookup, insert, lookup-insert}
use toolkit.UnitOfWork.Dependency.{Ordering}
use toolkit.UnitOfWork.Entity.{Ref, Heap}
use toolkit.UnitOfWork.Operation.{Operation, get_entity}
use toolkit.UnitOfWork.Plan.{operation_key, entities_of_operations, operation_map, operations_for}
use toolkit.UnitOfWork.Snapshot.{Reflect}

both_true : (a b : Bool) → (a && b) ≡ true → (a ≡ true) × (b ≡ true)
both_true a b both = (ground (arith, both), ground (arith, both))

not-true : (a : Bool) → not a ≡ true → a ≡ false
not-true a n = ground (arith, n)

lookup-same :
    (k : Bytes) (op : Operation) (m : List (Bytes × Operation)) → lookup k (insert k op m) ≡ some op
lookup-same k op m =
    lookup-insert k k op m
    ∙ ap (λ b. if b then some op else lookup k m) ((bytes_eq_instance.beq_iff k k).1 refl)

module _ (rt : Reflect) (ord : Ordering) (sprint_id : ℕ → Bytes) (h : Heap) where
  -- No operation is on an entity with the key.
  unfoldable pub is_fresh : Bytes → List Operation → Bool
  unfolding bytes_eq
  is_fresh k [] = true
  is_fresh k (op ∷ ops) = elim (get_entity op) [
    | none ↦ is_fresh k ops
    | some e ↦ not (bytes_eq (operation_key rt sprint_id h e) k) && is_fresh k ops
  ]

  -- Each operation is on an entity, and no two have the same key.
  unfoldable pub are_distinct : List Operation → Bool
  unfolding is_fresh
  are_distinct [] = true
  are_distinct (op ∷ ops) = elim (get_entity op) [
    | none ↦ false
    | some e ↦ is_fresh (operation_key rt sprint_id h e) ops && are_distinct ops
  ]

  abbrev key : Ref → Bytes
  key e = operation_key rt sprint_id h e

  operation_map-fresh :
      (k : Bytes) (ops : List Operation) (m : List (Bytes × Operation))
      → is_fresh k ops ≡ true
      → lookup k (operation_map rt ord sprint_id h ops m) ≡ lookup k m
  unfolding operation_map is_fresh
  operation_map-fresh k [] m fresh = refl
  operation_map-fresh k (op ∷ ops) m fresh = elim (Option-cases (get_entity op)) [
    | inl nothing ↦ rw (nothing) (operation_map-fresh k ops m (rw (nothing, is_fresh) at fresh))
    | inr (e, own) ↦
        let (other, rest) = both_true _ _ (rw (own, is_fresh) at fresh) in
        rw (own) (
          operation_map-fresh k ops (insert (key e) op m) rest
          ∙ lookup-insert (key e) k op m
          ∙ ap (λ b. if b then some op else lookup k m) (not-true _ other))
  ]

  module _ (p : Operation → Bool) where
    -- Whether the operation of an entity passes.
    abbrev pub passes : List (Bytes × Operation) → Ref → Bool
    passes m e = elim (lookup (operation_key rt sprint_id h e) m) [ none ↦ false | some op ↦ p op ]

    pub operations_for-count_if :
        (m : List (Bytes × Operation)) (order : List Ref)
        → count_if p (operations_for rt ord sprint_id h m order) ≡ count_if (passes m) order
    unfolding operations_for
    operations_for-count_if m [] = refl
    operations_for-count_if m (e ∷ order) =
        elim (Option-cases (lookup (operation_key rt sprint_id h e) m)) [
          | inl missing ↦ ground (arith, missing, operations_for-count_if m order)
          | inr (op, found) ↦ ground (arith, found, operations_for-count_if m order)
        ]

    pub entities-count_if :
        (ops : List Operation) (m : List (Bytes × Operation))
        → are_distinct ops ≡ true
        → count_if
            (passes (operation_map rt ord sprint_id h ops m))
            (entities_of_operations rt ord sprint_id h ops)
          ≡ count_if p ops
    unfolding operation_map entities_of_operations are_distinct
    entities-count_if [] m distinct = refl
    entities-count_if (op ∷ ops) m distinct = elim (Option-cases (get_entity op)) [
      | inl nothing ↦ ground (arith, distinct, nothing)
      | inr (e, own) ↦
          let (fresh, rest) = both_true _ _ (rw (own, are_distinct) at distinct) in
          let m' = insert (key e) op m in
          let found : lookup (key e) (operation_map rt ord sprint_id h ops m') ≡ some op =
            operation_map-fresh (key e) ops m' fresh ∙ lookup-same (key e) op m in
          rw (own, operation_map, entities_of_operations)
            (ground (arith, found, entities-count_if ops m' rest))
    ]

    pub count_if-same :
        (test : Ref → Bool) (xs ys : List Ref)
        → ((e : Ref) → count e xs ≡ count e ys)
        → count_if test xs ≡ count_if test ys
    count_if-same test xs ys same = omega (
      arith,
      count_if_mono test xs ys (λ e. omega (arith, same e)),
      count_if_mono test ys xs (λ e. omega (arith, same e)),
    )
