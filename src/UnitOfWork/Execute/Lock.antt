-- ===== src/UnitOfWork/Execute/Lock.antt =====
-- The optimistic lock: `UpdateOperation.Execute` of unitofwork/operation.go for an entity with a
-- revision.
use toolkit.Prelude.{
  ℕ, ◌≤◌, ◌≡◌, refl, ◌∙◌, ap, true, false, none, some, arith, ◌↔◌, ==-self, nat_eq,
}
use toolkit.UnitOfWork.Entity.{
  Ref, Heap, store, get_id, get_revision_next, set_revision, set_updated_at,
}
use toolkit.UnitOfWork.Execute.{
  Gorm, Result, World, optimistic_lock_failed, is_invalid, stamp_updated, write_update,
  execute_update, check_revision,
}

module _ {Db : Type 0} (g : Gorm Db) (e : Ref) (w : World Db) where
  -- The entity as it is written: stamped, and with the next revision.
  abbrev pub advanced : Heap
  advanced =
      let h = stamp_updated g (g.now e w.db) e w.heap in
      store h e (set_revision (h e).base (get_revision_next (h e).base))

  -- The write, with the revision that the entity had.
  abbrev pub locked_write : Result Db
  locked_write = g.updates_where (get_id w.heap e) (w.heap e).base.revision e advanced w.db

  stamped-has_revision :
      (now : ℕ) → (stamp_updated g now e w.heap e).has_revision ≡ (w.heap e).has_revision
  unfolding stamp_updated
  stamped-has_revision now = ground (arith, ==-self e)

  stamped-revision :
      (now : ℕ) → (stamp_updated g now e w.heap e).base.revision ≡ (w.heap e).base.revision
  unfolding stamp_updated set_updated_at
  stamped-revision now = ground (arith, ==-self e)

  stamped-get_id : (now : ℕ) → get_id (stamp_updated g now e w.heap) e ≡ get_id w.heap e
  unfolding stamp_updated set_updated_at
  stamped-get_id now = ground (arith, ==-self e)

  write_update-locked :
      (w.heap e).has_revision ≡ true
      → write_update g e (stamp_updated g (g.now e w.db) e w.heap) w.db
        ≡ check_revision g locked_write
  unfolding write_update
  write_update-locked has =
      let now = g.now e w.db in
      rw (stamped-has_revision now, has, stamped-revision now, stamped-get_id now) refl

  pub execute_update-locked :
      (w.heap e).has_revision ≡ true
      → is_invalid g w.heap e ≡ false
      → execute_update g e w ≡ check_revision g locked_write
  unfolding execute_update
  execute_update-locked has valid = rw (valid) (write_update-locked has)

  advanced-revision : (advanced e).base.revision ≡ get_revision_next (w.heap e).base
  unfolding set_revision get_revision_next
  advanced-revision = ground (arith, ==-self e, stamped-revision (g.now e w.db))

  -- Let a valid entity have a revision. Its update reports no error exactly if the write, which asks
  -- for the row with the ID and the revision of the entity and carries the next revision, does not
  -- fail and finds a row.
  pub execute_update-none :
      (w.heap e).has_revision ≡ true
      → is_invalid g w.heap e ≡ false
      → ((execute_update g e w).1 ≡ none)
        ↔ ((locked_write.failed ≡ false) × (1 ≤ locked_write.rows_affected))
  execute_update-none has valid =
      rw (execute_update-locked has valid)
        ((λ e. (ground arith, ground arith)), (λ e. ground arith))

  -- Let a valid entity have a revision, and let its write find no row with that revision, fail in no
  -- other way and leave the entity as it was handed over. The update reports the optimistic lock, and
  -- the entity in memory has the next revision, which no row has to have: the next update of it asks
  -- for that revision.
  pub execute_update-stale :
      (w.heap e).has_revision ≡ true
      → is_invalid g w.heap e ≡ false
      → locked_write.failed ≡ false
      → locked_write.rows_affected ≡ 0
      → locked_write.heap ≡ advanced
      → ((execute_update g e w).1 ≡ some optimistic_lock_failed)
        × (((execute_update g e w).0.heap e).base.revision ≡ get_revision_next (w.heap e).base)
  execute_update-stale has valid fine none_found kept =
      rw (execute_update-locked has valid)
        (ground arith, ap (λ h. (h e).base.revision) kept ∙ advanced-revision)
