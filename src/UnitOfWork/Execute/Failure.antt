-- ===== src/UnitOfWork/Execute/Failure.antt =====
-- What the operations of unitofwork/operation.go leave behind when an entity is not valid.
use toolkit.Prelude.{
  ◌≡◌, refl, ◌∙◌, Bool, true, false, List, [], ◌∷◌, some, arith, Option-cases, inl, inr,
}
use toolkit.UnitOfWork.Config.{Config}
use toolkit.UnitOfWork.Entity.{Ref}
use toolkit.UnitOfWork.Execute.{
  Gorm, World, validation_failed, write_update, execute_insert, execute_update, execute_delete,
  execute_bulk_insert, execute_bulk_delete, execute_each, execute,
}
use toolkit.UnitOfWork.Operation.{
  Operation, insert_operation, update_operation, delete_operation, bulk_insert_operation,
  bulk_update_operation, bulk_delete_operation,
}

-- The operation is not a bulk update, which writes one entity after another.
abbrev pub writes_once : Operation → Bool
writes_once (bulk_update_operation es t) = false
writes_once _ = true

module _ {Db : Type 0} (g : Gorm Db) where
  execute_insert-invalid :
      (e : Ref) (w : World Db)
      → (execute_insert g e w).1 ≡ some validation_failed
      → (execute_insert g e w).0.db ≡ w.db
  unfolding execute_insert
  execute_insert-invalid e w fails = ground (arith, fails)

  execute_update-invalid :
      (e : Ref) (w : World Db)
      → (execute_update g e w).1 ≡ some validation_failed
      → (execute_update g e w).0.db ≡ w.db
  unfolding execute_update write_update
  execute_update-invalid e w fails = ground (arith, fails)

  execute_delete-valid :
      (e : Ref) (w : World Db) → ¬ ((execute_delete g e w).1 ≡ some validation_failed)
  unfolding execute_delete
  execute_delete-valid e w = ground arith

  execute_deletes-valid :
      (es : List Ref) (w : World Db)
      → ¬ ((execute_each g (execute_delete g) es w).1 ≡ some validation_failed)
  unfolding execute_each
  execute_deletes-valid [] w = ground arith
  execute_deletes-valid (e ∷ es) w = elim (Option-cases (execute_delete g e w).1) [
    | inl fine ↦ rw (fine, execute_each) (execute_deletes-valid es (execute_delete g e w).0)
    | inr (err, fails) ↦ rw (fails, execute_each) (λ x. execute_delete-valid e w (fails ∙ x))
  ]

  execute_bulk_insert-invalid :
      (c : Config) (es : List Ref) (w : World Db)
      → (execute_bulk_insert g c es w).1 ≡ some validation_failed
      → (execute_bulk_insert g c es w).0.db ≡ w.db
  unfolding execute_bulk_insert
  execute_bulk_insert-invalid c [] w fails = refl
  execute_bulk_insert-invalid c (e ∷ es) w fails = ground (arith, fails)

  execute_bulk_delete-valid :
      (es : List Ref) (w : World Db) → ¬ ((execute_bulk_delete g es w).1 ≡ some validation_failed)
  unfolding execute_bulk_delete
  execute_bulk_delete-valid [] w = ground arith
  execute_bulk_delete-valid (e ∷ es) w = ground (arith, execute_deletes-valid (e ∷ es) w)

  -- When an operation other than a bulk update reports that an entity is not valid, it has written
  -- nothing to the database.
  pub execute-validation_failed :
      (c : Config) (op : Operation) (w : World Db)
      → writes_once op ≡ true
      → (execute g c op w).1 ≡ some validation_failed
      → (execute g c op w).0.db ≡ w.db
  unfolding execute
  execute-validation_failed c (insert_operation e) w once fails = execute_insert-invalid e w fails
  execute-validation_failed c (update_operation e changes) w once fails =
      execute_update-invalid e w fails
  execute-validation_failed c (delete_operation e) w once fails =
      absurd (execute_delete-valid e w fails)
  execute-validation_failed c (bulk_insert_operation es t) w once fails =
      execute_bulk_insert-invalid c es w fails
  execute-validation_failed c (bulk_update_operation es t) w once fails = ground (arith, once)
  execute-validation_failed c (bulk_delete_operation es t) w once fails =
      absurd (execute_bulk_delete-valid es w fails)
