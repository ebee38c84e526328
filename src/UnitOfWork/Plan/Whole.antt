-- ===== src/UnitOfWork/Plan/Whole.antt =====
-- From the registered operations to the plan of `Commit` (unitofwork/unitofwork.go), with merging.
use toolkit.Prelude.{
  ◌≡◌, ◌⊎◌, refl, sym, ap, ◌∙◌, inl, inr, ℕ, suc, ◌≤◌, ◌<◌, Bool, true, false, ◌&&◌, List, [], ◌∷◌,
  append-nil, Bytes, bytes_eq, bytes_eq_iff, arith, if◌then◌else◌, All, count_if, Bool-cases,
}
use toolkit.UnitOfWork.Dependency.{Ordering}
use toolkit.UnitOfWork.Dependency.Edges.{IsMap}
use toolkit.UnitOfWork.Entity.{EntityType, Ref, Heap, type_of}
use toolkit.UnitOfWork.Operation.{Operation, OperationType, get_entities}
use toolkit.UnitOfWork.Operation.Merge.{Family, inserting, deleting}
use toolkit.UnitOfWork.Plan.{ok, operation_key, merge_operations, plan_operations}
use toolkit.UnitOfWork.Plan.Apart.{are_distinct-of_types}
use toolkit.UnitOfWork.Plan.Distinct.{are_distinct}
use toolkit.UnitOfWork.Plan.Kinds.{IsSingle, has_kind, kind_entities, kind_count}
use toolkit.UnitOfWork.Plan.Merged.{merge_operations-entities, merge_operations-count}
use toolkit.UnitOfWork.Plan.Rearranged.{inserts, deletes, merged, plan_operations-count_if}
use toolkit.UnitOfWork.Plan.Tagged.{merge_operations-IsGood, insertion-has_kind, deletion-has_kind}
use toolkit.UnitOfWork.Snapshot.{Reflect}
use toolkit.UnitOfWork.State.{UnitOfWork}

module _ (h : Heap) (f : Family) (t : EntityType) where
  -- An operation of the kind, on just these entities.
  abbrev is_on : List Ref → Operation → Bool
  is_on es op = has_kind h f t op && bytes_eq (get_entities op) es

  kind_count-count_if :
      (ops : List Operation) → kind_count h f t ops ≡ count_if (has_kind h f t) ops
  kind_count-count_if [] = refl
  kind_count-count_if (op ∷ ops) =
      ap (λ n. if has_kind h f t op then suc n else n) (kind_count-count_if ops)

  kind_entities-none :
      (ops : List Operation) → kind_count h f t ops ≡ 0 → kind_entities h f t ops ≡ []
  kind_entities-none [] none_of = refl
  kind_entities-none (op ∷ ops) none_of = ground (arith, none_of, kind_entities-none ops)

  is_on-none :
      (es : List Ref) (ops : List Operation)
      → kind_count h f t ops ≡ 0
      → count_if (is_on es) ops ≡ 0
  is_on-none es [] none_of = refl
  is_on-none es (op ∷ ops) none_of = ground (arith, none_of, is_on-none es ops)

  single-kind :
      (op : Operation) (ops : List Operation)
      → has_kind h f t op ≡ true
      → kind_count h f t (op ∷ ops) ≤ 1
      → kind_count h f t ops ≡ 0
  single-kind op ops kind once = ground (arith, kind, once)

  is_on-kind :
      (es : List Ref) (op : Operation) (ops : List Operation)
      → has_kind h f t op ≡ true
      → kind_count h f t ops ≡ 0
      → 0 < count_if (is_on es) (op ∷ ops)
      → bytes_eq (get_entities op) es ≡ true
  is_on-kind es op ops kind none_of found = ground (arith, kind, found, is_on-none es ops none_of)

  is_on-rest :
      (es : List Ref) (op : Operation) (ops : List Operation)
      → has_kind h f t op ≡ false
      → 0 < count_if (is_on es) (op ∷ ops)
      → 0 < count_if (is_on es) ops
  is_on-rest es op ops other found = ground (arith, other, found)

  is_on-first :
      (es : List Ref) (op : Operation) (ops : List Operation)
      → has_kind h f t op ≡ true
      → bytes_eq (get_entities op) es ≡ true
      → 0 < count_if (is_on es) (op ∷ ops)
  is_on-first es op ops kind same = ground (arith, kind, same)

  is_on-later :
      (es : List Ref) (op : Operation) (ops : List Operation)
      → has_kind h f t op ≡ false
      → 0 < count_if (is_on es) ops
      → 0 < count_if (is_on es) (op ∷ ops)
  is_on-later es op ops other found = ground (arith, other, found)

  kind_entities-single :
      (op : Operation) (ops : List Operation)
      → has_kind h f t op ≡ true
      → kind_count h f t ops ≡ 0
      → kind_entities h f t (op ∷ ops) ≡ get_entities op
  kind_entities-single op ops kind none_of =
      rw (kind, kind_entities-none ops none_of) (append-nil (get_entities op))

  kind_entities-other :
      (op : Operation) (ops : List Operation)
      → has_kind h f t op ≡ false
      → kind_entities h f t (op ∷ ops) ≡ kind_entities h f t ops
  kind_entities-other op ops other = rw (other) refl

  kind_count-other :
      (op : Operation) (ops : List Operation)
      → has_kind h f t op ≡ false
      → kind_count h f t (op ∷ ops) ≡ kind_count h f t ops
  kind_count-other op ops other = rw (other) refl

  kind_entities-one :
      (es : List Ref) (ops : List Operation)
      → kind_count h f t ops ≤ 1
      → 0 < count_if (is_on es) ops
      → kind_entities h f t ops ≡ es
  kind_entities-one es [] once found = absurd (omega (arith, found))
  kind_entities-one es (op ∷ ops) once found = elim (Bool-cases (has_kind h f t op)) [
    | inl kind ↦
        let none_of = single-kind op ops kind once in
        kind_entities-single op ops kind none_of
        ∙ (bytes_eq_iff (get_entities op) es).0 (is_on-kind es op ops kind none_of found)
    | inr other ↦
        kind_entities-other op ops other
        ∙ kind_entities-one es ops (omega (arith, once, kind_count-other op ops other))
            (is_on-rest es op ops other found)
  ]

  is_on-one :
      (es : List Ref) (ops : List Operation)
      → kind_count h f t ops ≡ 1
      → kind_entities h f t ops ≡ es
      → 0 < count_if (is_on es) ops
  is_on-one es [] once own = absurd (omega (arith, once))
  is_on-one es (op ∷ ops) once own = elim (Bool-cases (has_kind h f t op)) [
    | inl kind ↦ is_on-first es op ops kind (
        (bytes_eq_iff (get_entities op) es).1 (
          sym (kind_entities-single op ops kind (single-kind op ops kind (omega (arith, once))))
          ∙ own))
    | inr other ↦ is_on-later es op ops other (
        is_on-one es ops (sym (kind_count-other op ops other) ∙ once)
          (sym (kind_entities-other op ops other) ∙ own))
  ]

  none-or-one : (n : ℕ) → n ≤ 1 → (n ≡ 0) ⊎ (n ≡ 1)
  none-or-one n few = ground (arith, few)

  -- A list with one operation of the kind at most, rearranged.
  kind_entities-same :
      (xs ys : List Operation)
      → ((p : Operation → Bool) → count_if p xs ≡ count_if p ys)
      → kind_count h f t ys ≤ 1
      → kind_entities h f t xs ≡ kind_entities h f t ys
  kind_entities-same xs ys same few =
      let counts : kind_count h f t xs ≡ kind_count h f t ys =
        kind_count-count_if xs ∙ same (has_kind h f t) ∙ sym (kind_count-count_if ys) in
      elim (none-or-one (kind_count h f t ys) few) [
        | inl none_of ↦
            kind_entities-none xs (counts ∙ none_of) ∙ sym (kind_entities-none ys none_of)
        | inr one ↦
            let es = kind_entities h f t ys in
            kind_entities-one es xs (omega (arith, counts, few))
              (omega (arith, same (is_on es), is_on-one es ys one refl))
      ]

pub merged-merges :
    (h : Heap) (u : UnitOfWork)
    → u.config.enable_operation_merge ≡ true
    → merged h u ≡ merge_operations h u.operations
merged-merges h u merges = rw (merges) refl

-- Let merging be on, and let the registered operations be single ones, whose entities have equal
-- texts of type and ID only if their types are equal. Let the dependency graph have each type once
-- at most as a key. If `Commit` can plan the operations, then for each of insert, update and delete and each entity type, the operations that it executes
-- are on just the entities registered for it, in the order of their registration.
pub plan_operations-kind_entities :
    (rt : Reflect) (ord : Ordering) (sprint_id : ℕ → Bytes) (h : Heap) (u : UnitOfWork)
    → ((a b : Ref)
        → operation_key rt sprint_id h a ≡ operation_key rt sprint_id h b
        → type_of h a ≡ type_of h b)
    → IsMap u.dependency_manager.dependency_graph
    → u.config.enable_operation_merge ≡ true
    → All IsSingle u.operations
    → (sorted : List Operation) → plan_operations rt ord sprint_id h u ≡ ok sorted
    → (f : Family) (t : EntityType) → kind_entities h f t sorted ≡ kind_entities h f t u.operations
plan_operations-kind_entities rt ord sprint_id h u keys graph merges single sorted planned f t =
    let is = merged-merges h u merges in
    let good = merge_operations-IsGood h u.operations single in
    let once =
      λ (g : Family) (s : EntityType). (merge_operations-count h u.operations single g s).0 in
    let distinct =
      are_distinct-of_types rt ord sprint_id h keys OperationType.insert OperationType.bulk_insert
        inserting (insertion-has_kind h) (merge_operations h u.operations) good (once inserting) in
    let distinct' =
      are_distinct-of_types rt ord sprint_id h keys OperationType.delete OperationType.bulk_delete
        deleting (deletion-has_kind h) (merge_operations h u.operations) good (once deleting) in
    let same : (p : Operation → Bool)
        → count_if p sorted ≡ count_if p (merge_operations h u.operations) =
      λ p.
        plan_operations-count_if rt ord sprint_id h u graph
          (ap (λ ops. are_distinct rt ord sprint_id h (inserts ops)) is ∙ distinct)
          (ap (λ ops. are_distinct rt ord sprint_id h (deletes ops)) is ∙ distinct') sorted planned
          p
        ∙ ap (count_if p) is in
    kind_entities-same h f t sorted (merge_operations h u.operations) same
      (merge_operations-count h u.operations single f t).0
    ∙ merge_operations-entities h u.operations single f t
