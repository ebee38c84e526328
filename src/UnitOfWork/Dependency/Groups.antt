-- ===== src/UnitOfWork/Dependency/Groups.antt =====
-- Grouping the entities by type, and collecting the groups again (unitofwork/dependency.go).
use toolkit.Prelude.{
  ◌+◌, ◌≤◌, ◌≡◌, refl, ◌∙◌, Bool, true, ◌&&◌, ◌==◌, List, [], ◌∷◌, ◌++◌, arith, if◌then◌else◌, elem,
  any, count, count_if-append, any-append, nat_eq, ==_iff, ==-self, append_assoc, append-nil,
  count-pos-of-elem, elem_of_count-pos,
}
use toolkit.Prelude.Keys.{count-keys-insert}
use toolkit.Prelude.Map.{lookup, insert, lookup-insert, lookup_or, keys}
use toolkit.UnitOfWork.Entity.{EntityType, Ref, Heap, type_of}
use toolkit.UnitOfWork.Snapshot.{Reflect}
use toolkit.UnitOfWork.Dependency.{
  Ordering, Groups, group_by_type, sort_entities_by_id, collect, entity_types,
}
use toolkit.UnitOfWork.Dependency.Kahn.{IsOrdered}

module _ (h : Heap) where
  pub count-group :
      (es : List Ref) (g : Groups) (t : EntityType) (e : Ref)
      → count e (lookup_or t [] (group_by_type h es g))
        ≡ count e (lookup_or t [] g) + (if type_of h e == t then count e es else 0)
  unfolding group_by_type
  count-group [] g t e = ground arith
  count-group (x ∷ es) g t e =
      let old = lookup_or (type_of h x) [] g in
      ground (
        arith,
        count-group es (insert (type_of h x) (old ++ x ∷ []) g) t e,
        lookup-insert (type_of h x) t (old ++ x ∷ []) g,
        count_if-append (λ y. y == e) old (x ∷ []),
      )

  -- A type has a key if an entity is of it.
  pub count-keys-group :
      (es : List Ref) (g : Groups) (t : EntityType)
      → count t (keys (group_by_type h es g)) ≡ (
          if (count t (keys g) == 0) && any (λ e. type_of h e == t) es then 1 else count t (keys g))
  unfolding group_by_type
  count-keys-group [] g t = ground arith
  count-keys-group (x ∷ es) g t =
      let old = lookup_or (type_of h x) [] g in
      ground (
        arith,
        count-keys-group es (insert (type_of h x) (old ++ x ∷ []) g) t,
        count-keys-insert (type_of h x) t (old ++ x ∷ []) g,
      )

  any-type :
      (e : Ref) (es : List Ref) → elem e es ≡ true → any (λ x. type_of h x == type_of h e) es ≡ true
  any-type e [] i = cc
  any-type e (x ∷ es) i = ground (arith, any-type e es)

module _ (rt : Reflect) (ord : Ordering) (h : Heap) (entities : List Ref) where
  abbrev groups : Groups
  groups = group_by_type h entities []

  pub count-entity_types :
      (t : EntityType)
      → count t (entity_types rt ord h entities)
        ≡ (if any (λ e. type_of h e == t) entities then 1 else 0)
  unfolding entity_types
  count-entity_types t =
      ord.count-range_keys t (keys groups) ∙ ground (arith, count-keys-group h entities [] t)

  -- The type of each entity is among the types.
  pub elem-entity_types :
      (e : Ref)
      → elem e entities ≡ true
      → elem (type_of h e) (entity_types rt ord h entities) ≡ true
  elem-entity_types e i =
      elem_of_count-pos (type_of h e) (entity_types rt ord h entities)
        (ground (arith, count-entity_types (type_of h e), any-type h e entities i))

  abbrev sorted_group : EntityType → List Ref
  sorted_group t = sort_entities_by_id rt ord h (lookup_or t [] groups)

  count-sorted_group :
      (t : EntityType) (e : Ref)
      → count e (sorted_group t) ≡ (if type_of h e == t then count e entities else 0)
  unfolding sort_entities_by_id lookup
  count-sorted_group t e =
      ord.count-sort_slice e _ (lookup_or t [] groups)
      ∙ ground (arith, count-group h entities [] t e)

  -- The collected entities of some types.
  pub count-collect :
      (ts : List EntityType) (e : Ref)
      → ((t : EntityType) → count t ts ≤ 1)
      → count e (collect rt ord h groups ts)
        ≡ (if elem (type_of h e) ts then count e entities else 0)
  unfolding collect
  count-collect [] e u = refl
  count-collect (t ∷ ts) e u = ground (
    arith,
    count-collect ts e (λ s. ground (arith, u s)),
    u (type_of h e),
    count_if-append (λ x. x == e) (sorted_group t) (collect rt ord h groups ts),
    count-sorted_group t e,
    count-pos-of-elem (type_of h e) ts,
    ==-self t,
  )

  module _ (needs : EntityType → EntityType → Bool) where
    abbrev entity_needs : Ref → Ref → Bool
    entity_needs x u = needs (type_of h x) (type_of h u)

    -- A block of entities of one type.
    IsOrdered-block :
        (t : EntityType) (done xs rest : List Ref)
        → ((x : Ref) → elem x xs ≡ true → type_of h x ≡ t)
        → ((u : Ref) → elem u entities ≡ true → needs t (type_of h u) ≡ true → elem u done ≡ true)
        → IsOrdered entity_needs entities (done ++ xs) rest
        → IsOrdered entity_needs entities done (xs ++ rest)
    IsOrdered-block t done [] rest typed met o = rw append-nil at o
    IsOrdered-block t done (x ∷ xs) rest typed met o = (
      (λ u i n. met u i (ground (arith, typed x, ==-self x))),
      IsOrdered-block t (done ++ x ∷ []) xs rest (λ y i. typed y (ground arith))
          (λ u i n. ground (arith, met u i n, any-append (λ y. y == u) done (x ∷ [])))
          (rw append_assoc o),
    )

    -- If the types are ordered, so are the entities that are collected for them.
    pub IsOrdered-collect :
        (ts done_types : List EntityType) (done : List Ref)
        → IsOrdered needs (entity_types rt ord h entities) done_types ts
        → ((u : Ref)
            → elem u entities ≡ true
            → elem (type_of h u) done_types ≡ true
            → elem u done ≡ true)
        → IsOrdered entity_needs entities done (collect rt ord h groups ts)
    unfolding collect
    IsOrdered-collect [] done_types done o met = tt
    IsOrdered-collect (t ∷ ts) done_types done o met =
        IsOrdered-block t done (sorted_group t) (collect rt ord h groups ts)
          (λ x i. ground (
            arith,
            count-pos-of-elem x (sorted_group t) i,
            count-sorted_group t x,
            ==_iff (type_of h x) t,
          ))
          (λ u i n. met u i (o.0 (type_of h u) (elem-entity_types u i) n))
          (IsOrdered-collect ts (done_types ++ t ∷ []) (done ++ sorted_group t) o.1 (λ u i j.
            ground (
              arith,
              met u i,
              any-append (λ y. y == type_of h u) done_types (t ∷ []),
              any-append (λ y. y == u) done (sorted_group t),
              count-sorted_group t u,
              count-pos-of-elem u entities i,
              elem_of_count-pos u (sorted_group t),
            )))
