-- ===== src/UnitOfWork/Plan/Kept.antt =====
-- The entities of the operations that `sortOperationsByEntityDependency` of unitofwork/unitofwork.go
-- sorts for insertion.
use toolkit.Prelude.{
  ℕ, ◌≡◌, refl, ◌∙◌, sym, ap, Bool, true, false, ◌==◌, List, [], ◌∷◌, Option, none, some, arith,
  Bytes, length, leb, elem, Bool-cases, Option-cases, inl, inr, bytes_eq, bytes_eq_instance, ==_iff,
  count-pos-of-elem, elem_of_count-pos,
}
use toolkit.Prelude.Map.{lookup, insert, lookup-insert}
use toolkit.UnitOfWork.Dependency.{DependencyManager, Ordering, Sorted, get_insertion_order}
use toolkit.UnitOfWork.Dependency.Edges.{IsMap}
use toolkit.UnitOfWork.Dependency.Insertion.{
  IsTopological, Sorts, sorts, fails, get_insertion_order-Sorts,
}
use toolkit.UnitOfWork.Entity.{Ref, Heap}
use toolkit.UnitOfWork.Operation.{Operation, get_entity}
use toolkit.UnitOfWork.Plan.{
  Planned, ok, operation_key, entities_of_operations, operation_map, operations_for, regroup,
  sort_operations_by_entity_dependency,
}
use toolkit.UnitOfWork.Snapshot.{Reflect}

abbrev is_there : Option Operation → Bool
is_there none = false
is_there (some op) = true

some-injective : (a b : Operation) → some a ≡ some b → a ≡ b
some-injective a b e = ground (arith, e)

module _ (rt : Reflect) (ord : Ordering) (sprint_id : ℕ → Bytes) (h : Heap) where
  abbrev key : Ref → Bytes
  key e = operation_key rt sprint_id h e

  abbrev entities_in : List Operation → List Ref
  entities_in ops = entities_of_operations rt ord sprint_id h ops

  -- An operation in the map stands under the key of its entity, which is one of those given.
  abbrev IsKeyed : List Ref → List (Bytes × Operation) → Type 0
  IsKeyed es m =
      (k : Bytes) (op : Operation)
      → lookup k m ≡ some op
      → (e : Ref) × (get_entity op ≡ some e) × (elem e es ≡ true) × (key e ≡ k)

  insert-IsKeyed :
      (es : List Ref) (e : Ref) (op : Operation) (m : List (Bytes × Operation))
      → get_entity op ≡ some e
      → elem e es ≡ true
      → IsKeyed es m
      → IsKeyed es (insert (key e) op m)
  insert-IsKeyed es e op m own member keyed k op' found = elim (Bool-cases (bytes_eq (key e) k)) [
    | inl same ↦
        let is : op ≡ op' =
          some-injective op op' (ground (arith, same, found, lookup-insert (key e) k op m)) in
        (e, rw (← is) own, member, (bytes_eq_instance.beq_iff (key e) k).0 same)
    | inr other ↦ keyed k op' (ground (arith, other, found, lookup-insert (key e) k op m))
  ]

  operation_map-IsKeyed :
      (es : List Ref) (ops : List Operation) (m : List (Bytes × Operation))
      → ((e : Ref) → elem e (entities_in ops) ≡ true → elem e es ≡ true)
      → IsKeyed es m
      → IsKeyed es (operation_map rt ord sprint_id h ops m)
  unfolding operation_map entities_of_operations
  operation_map-IsKeyed es [] m given keyed = keyed
  operation_map-IsKeyed es (op ∷ ops) m given keyed = elim (Option-cases (get_entity op)) [
    | inl nothing ↦ rw (nothing) (
        operation_map-IsKeyed es ops m (λ e i. given e (rw (nothing, entities_of_operations) i))
          keyed)
    | inr (e, own) ↦ rw (own) (
        operation_map-IsKeyed es ops (insert (key e) op m)
          (λ a i. given a (rw (own, entities_of_operations) (ground (arith, i))))
          (insert-IsKeyed es e op m own
            (given e (rw (own, entities_of_operations) (ground (arith, ==_iff e e)))) keyed))
  ]

  operation_map-there :
      (k : Bytes) (ops : List Operation) (m : List (Bytes × Operation))
      → is_there (lookup k m) ≡ true
      → is_there (lookup k (operation_map rt ord sprint_id h ops m)) ≡ true
  unfolding operation_map
  operation_map-there k [] m there = there
  operation_map-there k (op ∷ ops) m there = elim (Option-cases (get_entity op)) [
    | inl nothing ↦ rw (nothing) (operation_map-there k ops m there)
    | inr (e, own) ↦ rw (own) (
        operation_map-there k ops (insert (key e) op m)
          (ground (arith, there, lookup-insert (key e) k op m)))
  ]

  entities-skip :
      (op : Operation) (ops : List Operation)
      → get_entity op ≡ none
      → entities_in (op ∷ ops) ≡ entities_in ops
  unfolding entities_of_operations
  entities-skip op ops nothing = rw (nothing, entities_of_operations) refl

  entities-cons :
      (op : Operation) (ops : List Operation) (e : Ref)
      → get_entity op ≡ some e
      → entities_in (op ∷ ops) ≡ e ∷ entities_in ops
  unfolding entities_of_operations
  entities-cons op ops e own = rw (own, entities_of_operations) refl

  operation_map-has :
      (e : Ref) (ops : List Operation) (m : List (Bytes × Operation))
      → elem e (entities_in ops) ≡ true
      → is_there (lookup (key e) (operation_map rt ord sprint_id h ops m)) ≡ true
  unfolding operation_map entities_of_operations
  operation_map-has e [] m i = ground (arith, i)
  operation_map-has e (op ∷ ops) m i = elim (Option-cases (get_entity op)) [
    | inl nothing ↦
        rw (nothing)
          (operation_map-has e ops m (ap (elem e) (sym (entities-skip op ops nothing)) ∙ i))
    | inr (a, own) ↦
        let i' = ap (elem e) (sym (entities-cons op ops a own)) ∙ i in
        elim (Bool-cases (a == e)) [
          | inl same ↦
              let now : is_there (lookup (key e) (insert (key a) op m)) ≡ true =
                rw (← (==_iff a e).0 same) (
                  ground (
                    arith,
                    lookup-insert (key a) (key a) op m,
                    bytes_eq_instance.beq_iff (key a) (key a),
                  )) in
              rw (own) (operation_map-there (key e) ops (insert (key a) op m) now)
          | inr other ↦ rw (own) (
              operation_map-has e ops (insert (key a) op m)
                (ground (arith, i', other, ==_iff a e, ==_iff e a)))
        ]
  ]

  -- The operations that are looked up for entities with an operation are operations on them.
  operations_for-entities :
      (es order : List Ref) (m : List (Bytes × Operation))
      → IsKeyed es m
      → ((a b : Ref) → elem a es ≡ true → elem b es ≡ true → key a ≡ key b → a ≡ b)
      → ((e : Ref)
          → elem e order ≡ true
          → (elem e es ≡ true) × (is_there (lookup (key e) m) ≡ true))
      → entities_in (operations_for rt ord sprint_id h m order) ≡ order
  unfolding operations_for entities_of_operations
  operations_for-entities es [] m keyed distinct has = refl
  operations_for-entities es (e ∷ order) m keyed distinct has =
      let rest =
        operations_for-entities es order m keyed distinct (λ a i. has a (ground (arith, i))) in
      let (member, there) = has e (ground (arith, ==_iff e e)) in
      elim (Option-cases (lookup (key e) m)) [
        | inl missing ↦ ground (arith, there, missing)
        | inr (op, found) ↦
            let (a, own, member', same) = keyed (key e) op found in
            rw (found, operations_for)
              (entities-cons op (operations_for rt ord sprint_id h m order) a own
                ∙ ap (λ es. a ∷ es) rest
                ∙ ap (λ x. x ∷ order) (distinct a e member' member same))
      ]

module _ (rt : Reflect) (ord : Ordering) (sprint_id : ℕ → Bytes) (h : Heap) (dm : DependencyManager)
    (graph : IsMap dm.dependency_graph) (ops : List Operation) where
  abbrev given : List Ref
  given = entities_of_operations rt ord sprint_id h ops

  abbrev by_key : List (Bytes × Operation)
  by_key = operation_map rt ord sprint_id h ops []

  -- What becomes of insertions that are sorted: they fail by a circular dependency, or the entities
  -- that they are on are in a topological order and are those of the given operations.
  pub data KeepsEntities : Planned → Type 0 where
    keeps :
        (sorted : List Operation)
        → IsTopological dm h given (entities_of_operations rt ord sprint_id h sorted)
        → KeepsEntities (ok sorted)
    circular : KeepsEntities Planned.circular_dependency

  regroup-KeepsEntities :
      (sorted : Sorted)
      → ((a b : Ref)
          → elem a given ≡ true
          → elem b given ≡ true
          → operation_key rt sprint_id h a ≡ operation_key rt sprint_id h b
          → a ≡ b)
      → Sorts dm h given sorted
      → KeepsEntities (regroup rt ord sprint_id h by_key sorted)
  unfolding regroup lookup
  regroup-KeepsEntities sorted distinct (fails e) = rw (e) circular
  regroup-KeepsEntities sorted distinct (sorts order e t) =
      let member = λ (a : Ref) (i : elem a order ≡ true).
        elem_of_count-pos a given (omega (arith, t.same a, count-pos-of-elem a order i)) in
      let kept =
        operations_for-entities rt ord sprint_id h given order by_key
          (operation_map-IsKeyed rt ord sprint_id h given ops [] (λ a i. i)
            (λ k op found. ground (arith, found)))
          distinct
          (λ a i. (member a i, operation_map-has rt ord sprint_id h a ops [] (member a i))) in
      rw (e) (keeps _ (rw (kept) t))

  pub sort_operations_by_entity_dependency-KeepsEntities :
      leb (length ops) 1 ≡ false
      → ((a b : Ref)
          → elem a given ≡ true
          → elem b given ≡ true
          → operation_key rt sprint_id h a ≡ operation_key rt sprint_id h b
          → a ≡ b)
      → KeepsEntities (sort_operations_by_entity_dependency rt ord sprint_id h dm ops false)
  unfolding sort_operations_by_entity_dependency
  sort_operations_by_entity_dependency-KeepsEntities many distinct = rw (many) (
      regroup-KeepsEntities (get_insertion_order rt ord dm h given) distinct
        (get_insertion_order-Sorts rt ord dm graph h given))
