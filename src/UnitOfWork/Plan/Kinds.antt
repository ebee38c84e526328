-- ===== src/UnitOfWork/Plan/Kinds.antt =====
-- The kinds of operations (insert, update or delete, and the entity type), for `mergeOperations` of
-- unitofwork/unitofwork.go: which operations `CanMerge` joins.
use toolkit.Prelude.{
  ℕ, suc, ◌<◌, ◌≡◌, refl, ◌∙◌, sym, ap, Bool, true, false, ◌&&◌, List, [], ◌∷◌, ◌++◌, Option, none,
  some, arith, if◌then◌else◌,
}
use toolkit.UnitOfWork.Entity.{EntityType, Ref, Heap, type_of}
use toolkit.UnitOfWork.Operation.{
  Operation, insert_operation, update_operation, delete_operation, bulk_insert_operation,
  bulk_update_operation, bulk_delete_operation, can_merge, merge, get_entities, get_entity_type,
  same_type, bulk_type, get_operation_type, operation_type_code,
}
use toolkit.UnitOfWork.Operation.Merge.{
  Family, inserting, updating, deleting, family, family-merge, family_of_can_merge,
  get_entities-merge,
}

abbrev pub same_family : Family → Family → Bool
same_family inserting inserting = true
same_family updating updating = true
same_family deleting deleting = true
same_family _ _ = false

-- What registration produces.
abbrev pub IsSingle : Operation → Type 0
IsSingle (insert_operation e) = Unit
IsSingle (update_operation e c) = Unit
IsSingle (delete_operation e) = Unit
IsSingle (bulk_insert_operation es t) = ⊥
IsSingle (bulk_update_operation es t) = ⊥
IsSingle (bulk_delete_operation es t) = ⊥

module _ (h : Heap) (f : Family) (t : EntityType) where
  -- Operations of the family on entities of the type.
  abbrev pub has_kind : Operation → Bool
  has_kind op = same_family (family op) f && same_type (get_entity_type h op) (some t)

  -- The entities of those operations, in order.
  abbrev pub kind_entities : List Operation → List Ref
  kind_entities [] = []
  kind_entities (op ∷ ops) =
      let rest = kind_entities ops in if has_kind op then get_entities op ++ rest else rest

  abbrev pub kind_count : List Operation → ℕ
  kind_count [] = 0
  kind_count (op ∷ ops) = let rest = kind_count ops in if has_kind op then suc rest else rest

-- The operations that are not processed.
abbrev pub live : List (Bool × Operation) → List Operation
live [] = []
live ((true, op) ∷ ops) = live ops
live ((false, op) ∷ ops) = op ∷ live ops

abbrev pub AllSingle : List (Bool × Operation) → Type 0
AllSingle [] = Unit
AllSingle ((p, op) ∷ ops) = IsSingle op × AllSingle ops

-- A bulk operation records the type of its entities.
abbrev pub IsTagged : Heap → Operation → Type 0
IsTagged h op = get_entity_type h op ≡ bulk_type h (get_entities op)

module _ (h : Heap) where
  pub IsTagged-single : (a : Operation) → IsSingle a → IsTagged h a
  unfolding get_entity_type get_entities
  IsTagged-single (insert_operation e) s = refl
  IsTagged-single (update_operation e c) s = refl
  IsTagged-single (delete_operation e) s = refl
  IsTagged-single (bulk_insert_operation es t) s = absurd s
  IsTagged-single (bulk_update_operation es t) s = absurd s
  IsTagged-single (bulk_delete_operation es t) s = absurd s

  pub IsTagged-merge : (a b : Operation) → IsTagged h a → IsTagged h (merge h a b)
  unfolding merge get_entity_type
  IsTagged-merge (insert_operation e) b g = ground arith
  IsTagged-merge (update_operation e c) b g = ground arith
  IsTagged-merge (delete_operation e) b g = ground arith
  IsTagged-merge (bulk_insert_operation es s) b g = ground arith
  IsTagged-merge (bulk_update_operation es s) b g = ground arith
  IsTagged-merge (bulk_delete_operation es s) b g = ground arith

  bulk_type-append :
      (es fs : List Ref) (t : EntityType)
      → bulk_type h es ≡ some t
      → bulk_type h (es ++ fs) ≡ some t
  bulk_type-append [] fs t e = cc
  bulk_type-append (x ∷ es) fs t e = e

  -- A single operation has a type, and is merged into an operation of its own kind alone.
  can_merge-same_type :
      (a b : Operation)
      → can_merge h a b ≡ true
      → same_type (get_entity_type h a) (get_entity_type h b) ≡ true
  unfolding can_merge
  can_merge-same_type (insert_operation e) b c = ground arith
  can_merge-same_type (update_operation e _) b c = ground arith
  can_merge-same_type (delete_operation e) b c = ground arith
  can_merge-same_type (bulk_insert_operation es t) b c = ground arith
  can_merge-same_type (bulk_update_operation es t) b c = ground arith
  can_merge-same_type (bulk_delete_operation es t) b c = ground arith

  single-type : (b : Operation) → IsSingle b → (t : EntityType) × (get_entity_type h b ≡ some t)
  unfolding get_entity_type
  single-type (insert_operation e) s = (type_of h e, refl)
  single-type (update_operation e c) s = (type_of h e, refl)
  single-type (delete_operation e) s = (type_of h e, refl)
  single-type (bulk_insert_operation es t) s = absurd s
  single-type (bulk_update_operation es t) s = absurd s
  single-type (bulk_delete_operation es t) s = absurd s

  same_type-eq : (s : Option EntityType) (t : EntityType) → same_type s (some t) ≡ true → s ≡ some t
  same_type-eq none t c = cc
  same_type-eq (some s) t c = ground arith

  get_entity_type-merge :
      (a b : Operation)
      → IsTagged h a
      → IsSingle b
      → can_merge h a b ≡ true
      → get_entity_type h (merge h a b) ≡ get_entity_type h a
  get_entity_type-merge a b g s c =
      let (t, e) = single-type b s in
      let same : get_entity_type h a ≡ some t =
        same_type-eq (get_entity_type h a) t (rw e at (can_merge-same_type a b c)) in
      IsTagged-merge a b g
      ∙ ap (bulk_type h) (get_entities-merge h a b c)
      ∙ bulk_type-append (get_entities a) (get_entities b) t (sym g ∙ same)
      ∙ sym same

  single-code : (b : Operation) → IsSingle b → operation_type_code (get_operation_type b) < 3
  unfolding get_operation_type
  single-code (insert_operation e) s = omega arith
  single-code (update_operation e c) s = omega arith
  single-code (delete_operation e) s = omega arith
  single-code (bulk_insert_operation es t) s = absurd s
  single-code (bulk_update_operation es t) s = absurd s
  single-code (bulk_delete_operation es t) s = absurd s

  -- A single operation of the same family and type is always merged.
  pub can_merge_of_kind :
      (a b : Operation) (f : Family) (t : EntityType)
      → IsSingle b
      → has_kind h f t a ≡ true
      → has_kind h f t b ≡ true
      → can_merge h a b ≡ true
  unfolding can_merge family get_operation_type get_entity_type
  can_merge_of_kind (insert_operation e) b f t s p q = ground (arith, single-code b s)
  can_merge_of_kind (update_operation e c) b f t s p q = ground (arith, single-code b s)
  can_merge_of_kind (delete_operation e) b f t s p q = ground (arith, single-code b s)
  can_merge_of_kind (bulk_insert_operation es u) b f t s p q = ground (arith, single-code b s)
  can_merge_of_kind (bulk_update_operation es u) b f t s p q = ground (arith, single-code b s)
  can_merge_of_kind (bulk_delete_operation es u) b f t s p q = ground (arith, single-code b s)

  -- What is merged has the kind of what it is merged into.
  pub has_kind-merge :
      (a b : Operation) (f : Family) (t : EntityType)
      → IsTagged h a
      → IsSingle b
      → can_merge h a b ≡ true
      → (has_kind h f t (merge h a b) ≡ has_kind h f t a) × (has_kind h f t b ≡ has_kind h f t a)
  has_kind-merge a b f t g s c = (
    rw (family-merge h a b, get_entity_type-merge a b g s c),
    (let (u, e) = single-type b s in
        let same : get_entity_type h a ≡ some u =
          same_type-eq (get_entity_type h a) u (rw e at (can_merge-same_type a b c)) in
        rw (e, same, family_of_can_merge h a b c)),
  )
