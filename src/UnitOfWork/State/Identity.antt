-- ===== src/UnitOfWork/State/Identity.antt =====
-- How the helpers of unitofwork/unitofwork.go change the number of entries with an identity, that
-- is, with an entity type and an ID.
use toolkit.Prelude.{
  ℕ, ◌+◌, ◌≡◌, refl, Bool, true, false, not, ◌&&◌, ◌==◌, List, [], ◌∷◌, ◌++◌, none, some, arith,
  if◌then◌else◌, count_if, count_if-append, any, nat_eq, ==_iff, Option-cases, inl, inr,
}
use toolkit.Prelude.Map.{lookup-insert}
use toolkit.UnitOfWork.Entity.{EntityType, Ref, Heap, type_of, get_id}
use toolkit.UnitOfWork.Operation.{
  Operation, insert_operation, update_operation, delete_operation, same_identity,
}
use toolkit.UnitOfWork.State.{
  EntityMap, entities_of, contains_entity, drop_id, remove_from_entity_list,
  remove_operation_by_entity, add_entity,
}

module _ (h : Heap) (t : EntityType) (id : ℕ) where
  -- The entity has the identity.
  abbrev pub is_at : Ref → Bool
  is_at e = (type_of h e == t) && (get_id h e == id)

  -- The entries with the ID under the type.
  abbrev pub count_at : EntityMap → ℕ
  count_at m = count_if (λ r. get_id h r == id) (entities_of t m)

  abbrev pub inserts_at : Operation → Bool
  inserts_at (insert_operation e) = is_at e
  inserts_at _ = false

  abbrev pub updates_at : Operation → Bool
  updates_at (update_operation e c) = is_at e
  updates_at _ = false

  abbrev pub deletes_at : Operation → Bool
  deletes_at (delete_operation e) = is_at e
  deletes_at _ = false

any-eq-count {ℓ} : {A : Type ℓ} (p : A → Bool) (xs : List A) → any p xs ≡ not (count_if p xs == 0)
any-eq-count p [] = ground arith
any-eq-count p (x ∷ xs) = ground (arith, any-eq-count p xs)

module _ (h : Heap) where
  pub contains_entity-count :
      (m : EntityMap) (e : Ref)
      → contains_entity h m e ≡ not (count_at h (type_of h e) (get_id h e) m == 0)
  unfolding contains_entity
  contains_entity-count m e = any-eq-count _ (entities_of (type_of h e) m)

  drop_id-count :
      (id k : ℕ) (rs : List Ref)
      → count_if (λ r. get_id h r == id) rs ≡ (elim (drop_id h k rs) [
        | none ↦ count_if (λ r. get_id h r == id) rs
        | some rest ↦ count_if (λ r. get_id h r == id) rest + (if k == id then 1 else 0)
      ])
  unfolding drop_id
  drop_id-count id k [] = refl
  drop_id-count id k (r ∷ rs) = ground (arith, drop_id-count id k rs)

  drop_id-none :
      (k : ℕ) (rs : List Ref) → drop_id h k rs ≡ none → count_if (λ r. get_id h r == k) rs ≡ 0
  unfolding drop_id
  drop_id-none k [] e = refl
  drop_id-none k (r ∷ rs) e = ground (arith, drop_id-none k rs)

module _ (h : Heap) (t : EntityType) (id : ℕ) where
  pub count_at-add_entity :
      (m : EntityMap) (e : Ref)
      → count_at h t id (add_entity h m e) ≡ count_at h t id m + (if is_at h t id e then 1 else 0)
  count_at-add_entity m e = ground (
    arith,
    lookup-insert (type_of h e) t (entities_of (type_of h e) m ++ e ∷ []) m,
    ==_iff (type_of h e) t,
    count_if-append (λ r. get_id h r == id) (entities_of (type_of h e) m) (e ∷ []),
  )

  -- One entry goes if there was one with the identity of the entity.
  pub count_at-remove :
      (m : EntityMap) (e : Ref)
      → count_at h t id (remove_from_entity_list h m e).0
          + (if (remove_from_entity_list h m e).1 && is_at h t id e then 1 else 0)
        ≡ count_at h t id m
  unfolding remove_from_entity_list
  count_at-remove m e = elim (Option-cases (drop_id h (get_id h e) (entities_of (type_of h e) m))) [
    | inl gone ↦ ground arith
    | inr (rest, kept) ↦ ground (
      arith,
      lookup-insert (type_of h e) t rest m,
      drop_id-count h id (get_id h e) (entities_of (type_of h e) m),
    )
  ]

  pub removes-contained :
      (m : EntityMap) (e : Ref)
      → is_at h t id e ≡ true
      → (remove_from_entity_list h m e).1 ≡ not (count_at h t id m == 0)
  unfolding remove_from_entity_list
  removes-contained m e a =
      elim (Option-cases (drop_id h (get_id h e) (entities_of (type_of h e) m))) [
        | inl gone ↦ ground (arith, drop_id-none h (get_id h e) (entities_of (type_of h e) m))
        | inr (rest, kept) ↦
            ground (arith, drop_id-count h id (get_id h e) (entities_of (type_of h e) m))
      ]

  pub inserts-keep :
      (e : Ref) (ops : List Operation)
      → count_if (inserts_at h t id) (remove_operation_by_entity h e ops)
        ≡ (if is_at h t id e then 0 else count_if (inserts_at h t id) ops)
  unfolding remove_operation_by_entity same_identity
  inserts-keep e [] = ground arith
  inserts-keep e (insert_operation o ∷ ops) = ground (arith, inserts-keep e ops)
  inserts-keep e (op ∷ ops) = ground (arith, inserts-keep e ops)

  pub updates-keep :
      (e : Ref) (ops : List Operation)
      → count_if (updates_at h t id) (remove_operation_by_entity h e ops)
        ≡ (if is_at h t id e then 0 else count_if (updates_at h t id) ops)
  unfolding remove_operation_by_entity same_identity
  updates-keep e [] = ground arith
  updates-keep e (insert_operation o ∷ ops) = ground (arith, updates-keep e ops)
  updates-keep e (op ∷ ops) = ground (arith, updates-keep e ops)

  pub deletes-keep :
      (e : Ref) (ops : List Operation)
      → count_if (deletes_at h t id) (remove_operation_by_entity h e ops)
        ≡ (if is_at h t id e then 0 else count_if (deletes_at h t id) ops)
  unfolding remove_operation_by_entity same_identity
  deletes-keep e [] = ground arith
  deletes-keep e (insert_operation o ∷ ops) = ground (arith, deletes-keep e ops)
  deletes-keep e (op ∷ ops) = ground (arith, deletes-keep e ops)
