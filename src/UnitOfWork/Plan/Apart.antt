-- ===== src/UnitOfWork/Plan/Apart.antt =====
-- The operations of one kind that `mergeOperations` of unitofwork/unitofwork.go leaves have different
-- keys in `sortOperationsByEntityDependency`.
use toolkit.Prelude.{
  ◌≡◌, refl, sym, ap, ◌∙◌, inl, inr, ℕ, ◌≤◌, true, false, List, [], ◌∷◌, some, arith, Bytes,
  bytes_eq, bytes_eq_instance, Bool-cases, All,
}
use toolkit.UnitOfWork.Dependency.{Ordering}
use toolkit.UnitOfWork.Entity.{EntityType, Ref, Heap, type_of}
use toolkit.UnitOfWork.Operation.{Operation, OperationType, get_entity_type}
use toolkit.UnitOfWork.Operation.Merge.{Family}
use toolkit.UnitOfWork.Plan.{has_type, of_types, operation_key}
use toolkit.UnitOfWork.Plan.Distinct.{is_fresh, are_distinct}
use toolkit.UnitOfWork.Plan.Kinds.{has_kind, kind_count}
use toolkit.UnitOfWork.Plan.Tagged.{Leads, IsGood, IsGood-Leads}
use toolkit.UnitOfWork.Snapshot.{Reflect}

false-not_true : ¬ (false ≡ true)
false-not_true e = cc

module _ (rt : Reflect) (ord : Ordering) (sprint_id : ℕ → Bytes) (h : Heap)
    (typed_keys : (a b : Ref)
      → operation_key rt sprint_id h a ≡ operation_key rt sprint_id h b
      → type_of h a ≡ type_of h b)
    (single bulk : OperationType) (f : Family)
    (of_kind : (op : Operation) (t : EntityType)
      → has_type single bulk op ≡ true
      → get_entity_type h op ≡ some t
      → has_kind h f t op ≡ true) where
  abbrev key : Ref → Bytes
  key = operation_key rt sprint_id h

  none-kind :
      (e : Ref) (op : Operation) (ops : List Operation)
      → kind_count h f (type_of h e) (op ∷ ops) ≡ 0
      → has_kind h f (type_of h e) op ≡ false
  none-kind e op ops none_of = ground (arith, none_of)

  none-rest :
      (e : Ref) (op : Operation) (ops : List Operation)
      → kind_count h f (type_of h e) (op ∷ ops) ≡ 0
      → kind_count h f (type_of h e) ops ≡ 0
  none-rest e op ops none_of = ground (arith, none_of)

  once-rest :
      (e : Ref) (op : Operation) (ops : List Operation)
      → has_kind h f (type_of h e) op ≡ true
      → kind_count h f (type_of h e) (op ∷ ops) ≤ 1
      → kind_count h f (type_of h e) ops ≡ 0
  once-rest e op ops kind once = ground (arith, kind, once)

  once-less :
      (op : Operation) (ops : List Operation) (t : EntityType)
      → kind_count h f t (op ∷ ops) ≤ 1
      → kind_count h f t ops ≤ 1
  once-less op ops t once = ground (arith, once)

  keys-differ :
      (e : Ref) (op : Operation) (lead : Leads h op)
      → has_type single bulk op ≡ true
      → has_kind h f (type_of h e) op ≡ false
      → bytes_eq (key lead.entity) (key e) ≡ false
  keys-differ e op lead is other = elim (Bool-cases (bytes_eq (key lead.entity) (key e))) [
    | inl same ↦
        let typed =
          typed_keys lead.entity e ((bytes_eq_instance.beq_iff (key lead.entity) (key e)).0 same) in
        absurd
          (false-not_true (sym other ∙ of_kind op (type_of h e) is (lead.typed ∙ ap some typed)))
    | inr differ ↦ differ
  ]

  is_fresh-of_types :
      (e : Ref) (ops : List Operation)
      → All (IsGood h) ops
      → kind_count h f (type_of h e) ops ≡ 0
      → is_fresh rt ord sprint_id h (key e) (of_types single bulk ops) ≡ true
  unfolding is_fresh
  is_fresh-of_types e [] good none_of = refl
  is_fresh-of_types e (op ∷ ops) good none_of = elim (Bool-cases (has_type single bulk op)) [
    | inl is ↦
        let lead = IsGood-Leads h op good.0 in
        rw (is, lead.own, is_fresh, keys-differ e op lead is (none-kind e op ops none_of))
          (is_fresh-of_types e ops good.1 (none-rest e op ops none_of))
    | inr other ↦ rw (other) (is_fresh-of_types e ops good.1 (none-rest e op ops none_of))
  ]

  pub are_distinct-of_types :
      (ops : List Operation)
      → All (IsGood h) ops
      → ((t : EntityType) → kind_count h f t ops ≤ 1)
      → are_distinct rt ord sprint_id h (of_types single bulk ops) ≡ true
  unfolding are_distinct
  are_distinct-of_types [] good once = refl
  are_distinct-of_types (op ∷ ops) good once = elim (Bool-cases (has_type single bulk op)) [
    | inl is ↦
        let lead = IsGood-Leads h op good.0 in
        let kind = of_kind op (type_of h lead.entity) is lead.typed in
        rw
          (
            is,
            lead.own,
            are_distinct,
            is_fresh-of_types lead.entity ops good.1
                (once-rest lead.entity op ops kind (once (type_of h lead.entity))),
          )
          (are_distinct-of_types ops good.1 (λ t. once-less op ops t (once t)))
    | inr other ↦ rw (other) (are_distinct-of_types ops good.1 (λ t. once-less op ops t (once t)))
  ]
