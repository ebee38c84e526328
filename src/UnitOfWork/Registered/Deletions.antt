-- ===== src/UnitOfWork/Registered/Deletions.antt =====
-- The entities that `sortOperationsByDependency` of unitofwork/unitofwork.go sorts for deletion are
-- among the removed ones.
use toolkit.Prelude.{
  ℕ, ◌≡◌, refl, ◌∙◌, sym, ap, ◌<◌, Bool, true, ◌==◌, List, [], ◌∷◌, ◌++◌, some, arith, nat_eq, elem,
  Bool-cases, inl, inr, All, ==_iff, Bytes, length, count_if,
}
use toolkit.UnitOfWork.Dependency.{Ordering}
use toolkit.UnitOfWork.Entity.{EntityType, Ref, Heap, type_of, get_id}
use toolkit.UnitOfWork.Operation.{
  Operation, insert_operation, update_operation, delete_operation, bulk_insert_operation,
  bulk_update_operation, bulk_delete_operation, OperationType, get_entity, get_entities,
  first_entity,
}
use toolkit.UnitOfWork.Operation.Merge.{deleting}
use toolkit.UnitOfWork.Plan.{entities_of_operations, has_type, merge_operations}
use toolkit.UnitOfWork.Plan.Kinds.{has_kind, kind_entities}
use toolkit.UnitOfWork.Plan.Merged.{merge_operations-entities}
use toolkit.UnitOfWork.Plan.Rearranged.{deletes}
use toolkit.UnitOfWork.Plan.Tagged.{
  IsGood, IsGood-Leads, deletion-has_kind, merge_operations-IsGood,
}
use toolkit.UnitOfWork.Registered.Committed.{deletions-count}
use toolkit.UnitOfWork.Registered.InOrder.{InOrder}
use toolkit.UnitOfWork.Snapshot.{Reflect}
use toolkit.UnitOfWork.State.{UnitOfWork, entities_of}
use toolkit.UnitOfWork.State.Steps.{IsConsistent}

elem-left : (x : Ref) (es fs : List Ref) → elem x es ≡ true → elem x (es ++ fs) ≡ true
elem-left x [] fs i = ground (arith, i)
elem-left x (e ∷ es) fs i = ground (arith, i, elem-left x es fs)

elem-right : (x : Ref) (es fs : List Ref) → elem x fs ≡ true → elem x (es ++ fs) ≡ true
elem-right x [] fs i = i
elem-right x (e ∷ es) fs i = ground (arith, elem-right x es fs i)

-- The entity of an operation is one of its entities.
elem-get_entity :
    (op : Operation) (x : Ref) → get_entity op ≡ some x → elem x (get_entities op) ≡ true
unfolding get_entity get_entities first_entity
elem-get_entity (insert_operation e) x own = ground (arith, own, ==_iff x x)
elem-get_entity (update_operation e c) x own = ground (arith, own, ==_iff x x)
elem-get_entity (delete_operation e) x own = ground (arith, own, ==_iff x x)
elem-get_entity (bulk_insert_operation [] t) x own = ground (arith, own)
elem-get_entity (bulk_insert_operation (e ∷ es) t) x own = ground (arith, own, ==_iff x x)
elem-get_entity (bulk_update_operation [] t) x own = ground (arith, own)
elem-get_entity (bulk_update_operation (e ∷ es) t) x own = ground (arith, own, ==_iff x x)
elem-get_entity (bulk_delete_operation [] t) x own = ground (arith, own)
elem-get_entity (bulk_delete_operation (e ∷ es) t) x own = ground (arith, own, ==_iff x x)

module _ (h : Heap) where
  kind_entities-first :
      (op : Operation) (ops : List Operation) (x : Ref)
      → has_kind h deleting (type_of h x) op ≡ true
      → elem x (get_entities op) ≡ true
      → elem x (kind_entities h deleting (type_of h x) (op ∷ ops)) ≡ true
  kind_entities-first op ops x kind i = rw (kind) (elem-left x (get_entities op) _ i)

  kind_entities-later :
      (op : Operation) (ops : List Operation) (x : Ref)
      → elem x (kind_entities h deleting (type_of h x) ops) ≡ true
      → elem x (kind_entities h deleting (type_of h x) (op ∷ ops)) ≡ true
  kind_entities-later op ops x i = elim (Bool-cases (has_kind h deleting (type_of h x) op)) [
    | inl kind ↦ rw (kind) (elem-right x (get_entities op) _ i)
    | inr other ↦ rw (other) i
  ]

module _ (rt : Reflect) (ord : Ordering) (sprint_id : ℕ → Bytes) (h : Heap) where
  -- An entity that is sorted for deletion is one of those of the deletions of its type.
  elem-deletes :
      (ops : List Operation) (x : Ref)
      → All (IsGood h) ops
      → elem x (entities_of_operations rt ord sprint_id h (deletes ops)) ≡ true
      → elem x (kind_entities h deleting (type_of h x) ops) ≡ true
  unfolding entities_of_operations
  elem-deletes [] x good i = i
  elem-deletes (op ∷ ops) x good i =
      elim (Bool-cases (has_type OperationType.delete OperationType.bulk_delete op)) [
        | inl is ↦
            let lead = IsGood-Leads h op good.0 in
            elim (Bool-cases (lead.entity == x)) [
              | inl same ↦
                  let this = (==_iff lead.entity x).0 same in
                  kind_entities-first h op ops x
                    (deletion-has_kind h op (type_of h x) is
                      (lead.typed ∙ ap (λ e. some (type_of h e)) this))
                    (elem-get_entity op x (lead.own ∙ ap some this))
              | inr other ↦ kind_entities-later h op ops x (
                  elem-deletes ops x good.1 (
                    ground (
                      arith,
                      other,
                      ==_iff lead.entity x,
                      ==_iff x lead.entity,
                      rw (is, lead.own, entities_of_operations) at i,
                    )))
            ]
        | inr other ↦
            kind_entities-later h op ops x
              (elem-deletes ops x good.1 (rw (other, entities_of_operations) at i))
      ]

count_if-pos :
    (p : Ref → Bool) (x : Ref) (es : List Ref) → elem x es ≡ true → p x ≡ true → 0 < count_if p es
count_if-pos p x [] i is = ground (arith, i)
count_if-pos p x (e ∷ es) i is = elim (Bool-cases (x == e)) [
  | inl same ↦ ground (arith, ap p (sym ((==_iff x e).0 same)) ∙ is)
  | inr other ↦
      ground (arith, count_if-pos p x es (ground (arith, i, other, ==_iff x e, ==_iff e x)) is)
]

length-pos : (p : Ref → Bool) (es : List Ref) → 0 < count_if p es → 0 < length es
length-pos p [] some_of = some_of
length-pos p (e ∷ es) some_of = omega arith

-- A type of which the unit of work holds a removed entity.
abbrev pub Removes : UnitOfWork → EntityType → Type 0
Removes u t = 0 < length (entities_of t u.removed_entities)

module _ (rt : Reflect) (ord : Ordering) (sprint_id : ℕ → Bytes) (h : Heap) (u : UnitOfWork)
    (c : IsConsistent h u) (s : InOrder h u) where
  -- The entities that are sorted for deletion are of types of removed entities.
  pub deletes-Removes :
      (x : Ref)
      → elem x
          (entities_of_operations rt ord sprint_id h (deletes (merge_operations h u.operations)))
        ≡ true
      → Removes u (type_of h x)
  deletes-Removes x i =
      let t = type_of h x in
      let same_id : Ref → Bool = λ r. get_id h r == get_id h x in
      let held : elem x (kind_entities h deleting t u.operations) ≡ true =
        ap (elem x) (sym (merge_operations-entities h u.operations s.single deleting t))
        ∙ elem-deletes rt ord sprint_id h (merge_operations h u.operations) x
            (merge_operations-IsGood h u.operations s.single) i in
      let counted =
        count_if-pos same_id x (kind_entities h deleting t u.operations) held
          ((==_iff (get_id h x) (get_id h x)).1 refl) in
      length-pos same_id (entities_of t u.removed_entities) (
        ground (
          arith,
          counted,
          deletions-count h t (get_id h x) u.operations s.single,
          (c t (get_id h x)).deletes,
        ))
