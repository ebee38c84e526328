-- ===== src/UnitOfWork/State/Collision.antt =====
-- `Create` of unitofwork/unitofwork.go for two entities with the same type and ID.
use toolkit.Prelude.{◌≡◌, refl, ◌∙◌, true, false, ◌||◌, none, some, arith, nat_eq, ==-self}
use toolkit.UnitOfWork.Entity.{Ref, Heap, type_of, get_id}
use toolkit.UnitOfWork.State.{
  UnitOfWork, EntityMap, create, contains_entity, add_entity, add_operation,
}
use toolkit.UnitOfWork.State.Identity.{contains_entity-count, count_at-add_entity}

module _ (h : Heap) (e e' : Ref) where
  contains-same :
      (m : EntityMap)
      → type_of h e ≡ type_of h e'
      → get_id h e ≡ get_id h e'
      → contains_entity h m e' ≡ contains_entity h m e
  unfolding contains_entity
  contains-same m t i = rw (t, i) refl

  contains-add_entity : (m : EntityMap) → contains_entity h (add_entity h m e) e ≡ true
  contains-add_entity m = ground (
    arith,
    contains_entity-count h (add_entity h m e) e,
    count_at-add_entity h (type_of h e) (get_id h e) m e,
    ==-self (type_of h e),
    ==-self (get_id h e),
  )

  create-contained :
      (u : UnitOfWork)
      → (create h (some e) u).1 ≡ none
      → contains_entity h (create h (some e) u).0.new_entities e ≡ true
  unfolding create add_operation
  create-contained u ok = ground (arith, ok, contains-add_entity u.new_entities)

  create-elsewhere :
      (u : UnitOfWork)
      → (create h (some e) u).1 ≡ none
      → ((create h (some e) u).0.is_committed || (create h (some e) u).0.is_rolled_back)
          || (contains_entity h (create h (some e) u).0.dirty_entities e
              || contains_entity h (create h (some e) u).0.removed_entities e)
        ≡ false
  unfolding create add_operation
  create-elsewhere u ok = ground (arith, ok)

  create-again :
      (u : UnitOfWork)
      → (u.is_committed || u.is_rolled_back)
          || (contains_entity h u.dirty_entities e' || contains_entity h u.removed_entities e')
        ≡ false
      → contains_entity h u.new_entities e' ≡ true
      → create h (some e') u ≡ (u, none)
  unfolding create
  create-again u f c = ground (arith, f, c)

  -- Let `Create` of an entity succeed. `Create` of any entity with the same type and ID then reports
  -- no error and registers nothing; two entities that have no ID yet, with ID 0, are such.
  pub create-collision :
      (u : UnitOfWork)
      → type_of h e ≡ type_of h e'
      → get_id h e ≡ get_id h e'
      → (create h (some e) u).1 ≡ none
      → create h (some e') (create h (some e) u).0 ≡ ((create h (some e) u).0, none)
  create-collision u t i ok =
      let u' = (create h (some e) u).0 in
      create-again u'
        (rw (contains-same u'.dirty_entities t i, contains-same u'.removed_entities t i)
          (create-elsewhere u ok))
        (contains-same u'.new_entities t i ∙ create-contained u ok)
