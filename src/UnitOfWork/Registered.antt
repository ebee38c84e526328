-- ===== src/UnitOfWork/Registered.antt =====
-- What the helpers of unitofwork/unitofwork.go leave of the entities of each type, in order, when an
-- entity is put into a map, or taken out of it and its operations are dropped.
pub mod InOrder
pub mod Runs
pub mod Committed
pub mod Deletions
pub mod Plans
use toolkit.Prelude.{
  ℕ, ◌≤◌, ◌≡◌, refl, ◌∙◌, sym, ap, Bool, true, false, not, ◌&&◌, ◌==◌, List, [], ◌∷◌, ◌++◌, Option,
  none, some, arith, if◌then◌else◌, count_if, keep, nat_eq, ==_iff, Option-cases, Bool-cases, inl,
  inr, All, append_assoc, append-nil,
}
use toolkit.Prelude.Map.{lookup-insert}
use toolkit.UnitOfWork.Entity.{EntityType, Ref, Heap, type_of, get_id}
use toolkit.UnitOfWork.Operation.{
  Operation, insert_operation, update_operation, delete_operation, bulk_insert_operation,
  bulk_update_operation, bulk_delete_operation, get_entities, get_entity_type, same_identity,
}
use toolkit.UnitOfWork.Operation.Merge.{Family, family}
use toolkit.UnitOfWork.Plan.Kinds.{IsSingle, same_family, has_kind, kind_entities}
use toolkit.UnitOfWork.State.{
  EntityMap, entities_of, drop_id, remove_from_entity_list, remove_operation_by_entity,
  is_unrelated, add_entity,
}
use toolkit.UnitOfWork.State.Identity.{count_at}

module _ (h : Heap) (id : ℕ) where
  -- The entities with another ID.
  abbrev pub others : List Ref → List Ref
  others = keep (λ r. not (get_id h r == id))

  pub others-none : (rs : List Ref) → count_if (λ r. get_id h r == id) rs ≡ 0 → others rs ≡ rs
  others-none [] none_of = refl
  others-none (r ∷ rs) none_of = ground (arith, none_of, others-none rs)

  -- An ID that stands once at most is gone with its first entity.
  drop_id-others :
      (rs : List Ref)
      → count_if (λ r. get_id h r == id) rs ≤ 1
      → (elim (drop_id h id rs) [ none ↦ rs | some rest ↦ rest ]) ≡ others rs
  unfolding drop_id
  drop_id-others [] once = refl
  drop_id-others (r ∷ rs) once = ground (arith, once, others-none rs, drop_id-others rs)

module _ (h : Heap) (t : EntityType) where
  pub entities_of-add_entity :
      (m : EntityMap) (e : Ref)
      → entities_of t (add_entity h m e)
        ≡ (if type_of h e == t then entities_of t m ++ e ∷ [] else entities_of t m)
  entities_of-add_entity m e = ground (
    arith,
    lookup-insert (type_of h e) t (entities_of (type_of h e) m ++ e ∷ []) m,
    ==_iff (type_of h e) t,
  )

  pub entities_of-remove :
      (m : EntityMap) (e : Ref)
      → count_at h (type_of h e) (get_id h e) m ≤ 1
      → entities_of t (remove_from_entity_list h m e).0
        ≡ (if type_of h e == t then others h (get_id h e) (entities_of t m) else entities_of t m)
  unfolding remove_from_entity_list
  entities_of-remove m e once =
      elim (Option-cases (drop_id h (get_id h e) (entities_of (type_of h e) m))) [
        | inl gone ↦ ground (
          arith,
          gone,
          ==_iff (type_of h e) t,
          drop_id-others h (get_id h e) (entities_of (type_of h e) m) once,
        )
        | inr (rest, kept) ↦ ground (
          arith,
          kept,
          ==_iff (type_of h e) t,
          lookup-insert (type_of h e) t rest m,
          drop_id-others h (get_id h e) (entities_of (type_of h e) m) once,
        )
      ]

module _ (h : Heap) (e : Ref) where
  -- A single operation is on one entity, and stays if that has another ID or type.
  single_of :
      (op : Operation)
      → IsSingle op
      → (o : Ref) × (get_entities op ≡ o ∷ [])
        × (get_entity_type h op ≡ some (type_of h o))
        × (is_unrelated h e op ≡ not ((get_id h o == get_id h e) && (type_of h o == type_of h e)))
  unfolding get_entities get_entity_type is_unrelated same_identity
  single_of (insert_operation o) single = (o, refl, refl, ground arith)
  single_of (update_operation o c) single = (o, refl, refl, ground arith)
  single_of (delete_operation o) single = (o, refl, refl, ground arith)
  single_of (bulk_insert_operation es t) single = absurd single
  single_of (bulk_update_operation es t) single = absurd single
  single_of (bulk_delete_operation es t) single = absurd single

module _ (h : Heap) (f : Family) (t : EntityType) where
  kind_entities-append :
      (xs ys : List Operation)
      → kind_entities h f t (xs ++ ys) ≡ kind_entities h f t xs ++ kind_entities h f t ys
  kind_entities-append [] ys = refl
  kind_entities-append (op ∷ xs) ys = elim (Bool-cases (has_kind h f t op)) [
    | inl kind ↦ rw (kind) (
        ap (λ es. get_entities op ++ es) (kind_entities-append xs ys)
        ∙ sym (append_assoc (get_entities op) (kind_entities h f t xs) (kind_entities h f t ys)))
    | inr other ↦ rw (other) (kind_entities-append xs ys)
  ]

  kind_entities-if :
      (b : Bool) (op : Operation) (ops : List Operation)
      → kind_entities h f t (if b then op ∷ ops else ops)
        ≡ (if b then kind_entities h f t (op ∷ ops) else kind_entities h f t ops)
  kind_entities-if true op ops = refl
  kind_entities-if false op ops = refl

  kind_entities-step :
      (op : Operation) (o : Ref) (ops : List Operation)
      → get_entities op ≡ o ∷ []
      → get_entity_type h op ≡ some (type_of h o)
      → kind_entities h f t (op ∷ ops) ≡ (
          if same_family (family op) f && (type_of h o == t)
          then o ∷ kind_entities h f t ops
          else kind_entities h f t ops)
  kind_entities-step op o ops own typed = rw (own, typed) refl

  pub kind_entities-snoc :
      (op : Operation) (o : Ref) (ops : List Operation)
      → get_entities op ≡ o ∷ []
      → get_entity_type h op ≡ some (type_of h o)
      → kind_entities h f t (ops ++ op ∷ []) ≡ (
          if same_family (family op) f && (type_of h o == t)
          then kind_entities h f t ops ++ o ∷ []
          else kind_entities h f t ops)
  kind_entities-snoc op o ops own typed =
      kind_entities-append ops (op ∷ [])
      ∙ ap (λ es. kind_entities h f t ops ++ es) (kind_entities-step op o [] own typed)
      ∙ elim (Bool-cases (same_family (family op) f && (type_of h o == t))) [
        | inl kind ↦ rw (kind) refl
        | inr other ↦ rw (other) (append-nil (kind_entities h f t ops))
      ]

  keeps-other :
      (e o : Ref) (same : Bool) (es rest : List Ref)
      → rest ≡ (if type_of h e == t then others h (get_id h e) es else es)
      → (if not ((get_id h o == get_id h e) && (type_of h o == type_of h e))
          then (if same && (type_of h o == t) then o ∷ rest else rest)
          else rest)
        ≡ (if type_of h e == t
            then others h (get_id h e) (if same && (type_of h o == t) then o ∷ es else es)
            else if same && (type_of h o == t)
            then o ∷ es
            else es)
  keeps-other e o same es rest is = ground (
    arith,
    is,
    ==_iff (type_of h o) t,
    ==_iff (type_of h e) t,
    ==_iff (type_of h o) (type_of h e),
  )

  pub kind_entities-remove :
      (e : Ref) (ops : List Operation)
      → All IsSingle ops
      → kind_entities h f t (remove_operation_by_entity h e ops) ≡ (
          if type_of h e == t
          then others h (get_id h e) (kind_entities h f t ops)
          else kind_entities h f t ops)
  unfolding remove_operation_by_entity
  kind_entities-remove e [] single = ground arith
  kind_entities-remove e (op ∷ ops) single =
      let (o, own, typed, unrelated) = single_of h e op single.0 in
      let rest = kind_entities-remove e ops single.1 in
      let left = remove_operation_by_entity h e ops in
      kind_entities-if (is_unrelated h e op) op left
      ∙ ap (λ b. if b then kind_entities h f t (op ∷ left) else kind_entities h f t left) unrelated
      ∙ ap
          (λ es.
            if not ((get_id h o == get_id h e) && (type_of h o == type_of h e))
            then es
            else kind_entities h f t left)
          (kind_entities-step op o left own typed)
      ∙ keeps-other e o (same_family (family op) f) (kind_entities h f t ops)
          (kind_entities h f t left) rest
      ∙ ap (λ es. if type_of h e == t then others h (get_id h e) es else es)
          (sym (kind_entities-step op o ops own typed))

pub All-keep :
    (P : Operation → Type 0) (p : Operation → Bool) (ops : List Operation)
    → All P ops
    → All P (keep p ops)
All-keep P p [] all = tt
All-keep P p (op ∷ ops) all = elim (Bool-cases (p op)) [
  | inl stays ↦ rw (stays) (all.0, All-keep P p ops all.1)
  | inr goes ↦ rw (goes) (All-keep P p ops all.1)
]
