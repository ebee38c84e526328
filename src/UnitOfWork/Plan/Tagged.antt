-- ===== src/UnitOfWork/Plan/Tagged.antt =====
-- The operations that `mergeOperations` of unitofwork/unitofwork.go leaves: their entities and types.
use toolkit.Prelude.{
  ◌≡◌, refl, ap, inl, inr, ℕ, zero, suc, ◌≤◌, Bool, true, false, not, ◌&&◌, leb, List, [], ◌∷◌,
  some, arith, bytes_eq_instance, Bool-cases, length, length-append, All,
}
use toolkit.UnitOfWork.Entity.{EntityType, Ref, Heap, type_of}
use toolkit.UnitOfWork.Operation.{
  Operation, insert_operation, update_operation, delete_operation, bulk_insert_operation,
  bulk_update_operation, bulk_delete_operation, OperationType, get_entity, get_entity_type,
  get_entities, get_operation_type, first_entity, can_merge, merge,
}
use toolkit.UnitOfWork.Operation.Merge.{inserting, deleting, family, get_entities-merge}
use toolkit.UnitOfWork.Plan.{absorb, merge_rounds, merge_operations, has_type}
use toolkit.UnitOfWork.Plan.Kinds.{
  IsSingle, AllSingle, IsTagged, IsTagged-single, IsTagged-merge, has_kind,
}
use toolkit.UnitOfWork.Plan.Merged.{absorb-Absorbs, flagged, AllSingle-flagged}

module _ (h : Heap) where
  -- An operation has a first entity, whose type is its own.
  pub record Leads (op : Operation) : Type 0 where
    pub entity : Ref
    pub own : get_entity op ≡ some entity
    pub typed : get_entity_type h op ≡ some (type_of h entity)

  -- An operation has an entity, and a bulk operation records the type of its entities.
  abbrev pub IsGood : Operation → Type 0
  IsGood op = IsTagged h op × (1 ≤ length (get_entities op))

  pub IsGood-Leads : (op : Operation) → IsGood op → Leads op
  unfolding get_entity first_entity get_entity_type get_entities
  IsGood-Leads (insert_operation e) good = record { entity = e; own = refl; typed = refl }
  IsGood-Leads (update_operation e c) good = record { entity = e; own = refl; typed = refl }
  IsGood-Leads (delete_operation e) good = record { entity = e; own = refl; typed = refl }
  IsGood-Leads (bulk_insert_operation [] t) good = absurd (omega (arith, good.1))
  IsGood-Leads (bulk_insert_operation (e ∷ es) t) good = record {
    entity = e;
    own = refl;
    typed = good.0;
  }
  IsGood-Leads (bulk_update_operation [] t) good = absurd (omega (arith, good.1))
  IsGood-Leads (bulk_update_operation (e ∷ es) t) good = record {
    entity = e;
    own = refl;
    typed = good.0;
  }
  IsGood-Leads (bulk_delete_operation [] t) good = absurd (omega (arith, good.1))
  IsGood-Leads (bulk_delete_operation (e ∷ es) t) good = record {
    entity = e;
    own = refl;
    typed = good.0;
  }

  IsGood-single : (op : Operation) → IsSingle op → IsGood op
  unfolding get_entities
  IsGood-single (insert_operation e) s = (IsTagged-single h (insert_operation e) s, omega arith)
  IsGood-single (update_operation e c) s = (IsTagged-single h (update_operation e c) s, omega arith)
  IsGood-single (delete_operation e) s = (IsTagged-single h (delete_operation e) s, omega arith)
  IsGood-single (bulk_insert_operation es t) s = absurd s
  IsGood-single (bulk_update_operation es t) s = absurd s
  IsGood-single (bulk_delete_operation es t) s = absurd s

  IsGood-merge : (a b : Operation) → IsGood a → can_merge h a b ≡ true → IsGood (merge h a b)
  IsGood-merge a b good mergeable = (
    IsTagged-merge h a b good.0,
    omega (
      arith,
      good.1,
      ap length (get_entities-merge h a b mergeable),
      length-append (get_entities a) (get_entities b),
    ),
  )

  absorb-IsGood :
      (current : Operation) (ops : List (Bool × Operation))
      → IsGood current
      → IsGood (absorb h current ops).0
  unfolding absorb
  absorb-IsGood current [] good = good
  absorb-IsGood current ((processed, op) ∷ ops) good =
      elim (Bool-cases (not processed && can_merge h current op)) [
        | inl mergeable ↦
            rw (mergeable, absorb)
              (absorb-IsGood (merge h current op) ops
                (IsGood-merge current op good (ground (arith, mergeable))))
        | inr apart ↦ rw (apart, absorb) (absorb-IsGood current ops good)
      ]

  merge_rounds-IsGood :
      (n : ℕ) (ops : List (Bool × Operation)) → AllSingle ops → All IsGood (merge_rounds h n ops)
  unfolding merge_rounds
  merge_rounds-IsGood zero ops single = tt
  merge_rounds-IsGood (suc n) [] single = tt
  merge_rounds-IsGood (suc n) ((true, op) ∷ ops) single = merge_rounds-IsGood n ops single.1
  merge_rounds-IsGood (suc n) ((false, op) ∷ ops) single = (
    absorb-IsGood op ops (IsGood-single op single.0),
    merge_rounds-IsGood n (absorb h op ops).1
        (absorb-Absorbs h inserting 0 op ops (IsTagged-single h op single.0) single.1).single,
  )

  All-single : (ops : List Operation) → All IsSingle ops → All IsGood ops
  All-single [] single = tt
  All-single (op ∷ ops) single = (IsGood-single op single.0, All-single ops single.1)

  pub merge_operations-IsGood :
      (ops : List Operation) → All IsSingle ops → All IsGood (merge_operations h ops)
  unfolding merge_operations
  merge_operations-IsGood ops single = elim (Bool-cases (leb (length ops) 1)) [
    | inl few ↦ rw (few) (All-single ops single)
    | inr many ↦
        rw (many) (merge_rounds-IsGood (length ops) (flagged ops) (AllSingle-flagged ops single))
  ]

  -- An insertion of a type is of the kind of that type.
  pub insertion-has_kind :
      (op : Operation) (t : EntityType)
      → has_type OperationType.insert OperationType.bulk_insert op ≡ true
      → get_entity_type h op ≡ some t
      → has_kind h inserting t op ≡ true
  unfolding has_type family get_operation_type get_entity_type
  insertion-has_kind (insert_operation e) t is typed = ground (arith, typed)
  insertion-has_kind (update_operation e c) t is typed = ground (arith, is)
  insertion-has_kind (delete_operation e) t is typed = ground (arith, is)
  insertion-has_kind (bulk_insert_operation es u) t is typed = ground (arith, typed)
  insertion-has_kind (bulk_update_operation es u) t is typed = ground (arith, is)
  insertion-has_kind (bulk_delete_operation es u) t is typed = ground (arith, is)

  -- A deletion of a type is of the kind of that type.
  pub deletion-has_kind :
      (op : Operation) (t : EntityType)
      → has_type OperationType.delete OperationType.bulk_delete op ≡ true
      → get_entity_type h op ≡ some t
      → has_kind h deleting t op ≡ true
  unfolding has_type family get_operation_type get_entity_type
  deletion-has_kind (insert_operation e) t is typed = ground (arith, is)
  deletion-has_kind (update_operation e c) t is typed = ground (arith, is)
  deletion-has_kind (delete_operation e) t is typed = ground (arith, typed)
  deletion-has_kind (bulk_insert_operation es u) t is typed = ground (arith, is)
  deletion-has_kind (bulk_update_operation es u) t is typed = ground (arith, is)
  deletion-has_kind (bulk_delete_operation es u) t is typed = ground (arith, typed)
