-- ===== src/UnitOfWork/Plugin/Registers.antt =====
-- The callbacks of unitofwork/plugin.go that stand in the place of gorm's, as calls of the unit of
-- work in the context.
use toolkit.Prelude.{
  ◌≡◌, refl, sym, ◌∙◌, ap, subst, inl, inr, ℕ, ◌+◌, ◌<◌, true, not, List, [], ◌∷◌, ◌++◌, Option,
  none, some, arith, if◌then◌else◌, length, Option-cases, bytes_eq_instance,
}
use toolkit.Prelude.Map.{lookup, insert-lookup}
use toolkit.UnitOfWork.Entity.{Ref}
use toolkit.UnitOfWork.Plugin.{
  Statement, Hook, StatementError, registration_failed, call_original,
  get_unit_of_work_from_context, set_unit_of_work_to_context, is_executing, Processed,
  process_entities, after_processing, register, unit_of_work_create, unit_of_work_update,
  unit_of_work_delete,
}
use toolkit.UnitOfWork.Plugin.Calls.{
  Kind, creates, updates, deletes, processor, accepts, refs_of, run_calls, succeeds, Processes,
  all_done, stopped_at, process_entities-Processes,
}
use toolkit.UnitOfWork.Plugin.Options.{PluginConfig}
use toolkit.UnitOfWork.Snapshot.{Reflect}
use toolkit.UnitOfWork.State.{UnitOfWork, UowError}
use toolkit.UnitOfWork.State.Invariant.{run}

abbrev pub hook : {Db : Type 0} → PluginConfig → Reflect → Kind → Option (Hook Db) → Hook Db
hook p rt creates = unit_of_work_create p
hook p rt updates = unit_of_work_update p rt
hook p rt deletes = unit_of_work_delete p

module _ {Db : Type 0} (p : PluginConfig) (rt : Reflect) (k : Kind) (s : Statement Db) where
  -- The unit of work that registers the entities of the statement, if one does.
  abbrev pub registering : Option UnitOfWork
  registering =
      if not p.auto_manage
      then none
      else (elim (get_unit_of_work_from_context s.context p.context_key) [
        | none ↦ none
        | some u ↦
            if is_executing u then none else if accepts k s.world.heap s.dest then some u else none
      ])

  -- The statement with the unit of work in its context after some calls.
  abbrev pub with_unit : UnitOfWork → ℕ → List StatementError → Statement Db
  with_unit u rows errors = record s {
    context = set_unit_of_work_to_context s.context u p.context_key;
    rows_affected = rows;
    errors = errors;
  }

  -- What a callback makes of a statement.
  pub data Registers (original : Option (Hook Db)) (s' : Statement Db) : Type 0 where
    passed_through : registering ≡ none → s' ≡ call_original original s → Registers original s'
    without_entities :
        (u : UnitOfWork)
        → registering ≡ some u
        → refs_of s.dest ≡ []
        → s' ≡ call_original original s
        → Registers original s'
    registered_all :
        (u : UnitOfWork) (e : Ref) (es : List Ref)
        → registering ≡ some u
        → refs_of s.dest ≡ e ∷ es
        → succeeds s.world.heap rt k (e ∷ es) u ≡ true
        → s' ≡ with_unit (run_calls s.world.heap rt k (e ∷ es) u) (length (e ∷ es)) s.errors
        → Registers original s'
    stopped_at_error :
        (u : UnitOfWork) (done : List Ref) (e : Ref) (rest : List Ref) (err : UowError)
        → registering ≡ some u
        → refs_of s.dest ≡ done ++ (e ∷ rest)
        → succeeds s.world.heap rt k done u ≡ true
        → (processor s.world.heap rt k e (run_calls s.world.heap rt k done u)).1 ≡ some err
        → s'
          ≡ with_unit
              (run_calls s.world.heap rt k done u)
              0
              (s.errors ++ registration_failed err ∷ [])
        → Registers original s'

  after_processing-entities :
      (original : Option (Hook Db)) (u : UnitOfWork) (n : ℕ)
      → 0 < n
      → after_processing p original s (u, n, none) ≡ with_unit u n s.errors
  unfolding after_processing
  after_processing-entities original u n pos = ground (arith, pos)

  after_processing-Registers :
      (original : Option (Hook Db)) (u : UnitOfWork) (r : Processed)
      → s.rows_affected ≡ 0
      → registering ≡ some u
      → lookup p.context_key s.context ≡ some u
      → (es : List Ref) → refs_of s.dest ≡ es
      → Processes s.world.heap rt k es 0 u r
      → Registers original (after_processing p original s r)
  unfolding after_processing set_unit_of_work_to_context run
  after_processing-Registers original u r rows handled found [] es_eq (all_done all r_eq) =
      without_entities u handled es_eq (
        ap (after_processing p original s) r_eq
        ∙ ap (call_original original) (
            ap (λ c. record s { context = c; rows_affected = 0 })
              (insert-lookup p.context_key u s.context found)
            ∙ ap (λ n. record s { rows_affected = n }) (sym rows)))
  after_processing-Registers original u r rows handled found (e ∷ es) es_eq (all_done all r_eq) =
      registered_all u e es handled es_eq all (
        ap (after_processing p original s) r_eq
        ∙ after_processing-entities original _ (0 + length (e ∷ es)) (omega arith)
        ∙ ap (λ n. with_unit (run_calls s.world.heap rt k (e ∷ es) u) n s.errors) (omega arith))
  after_processing-Registers original u r rows handled found es es_eq
        (stopped_at done e rest err split all failed r_eq) =
      stopped_at_error u done e rest err handled (es_eq ∙ split) all failed
        (ap (after_processing p original s) r_eq)

  -- The common body of the callbacks.
  abbrev body : Option (Hook Db) → Hook Db
  body = register p (λ t. accepts k t.world.heap t.dest) (λ h. processor h rt k)

  body-none :
      (original : Option (Hook Db))
      → registering ≡ none
      → body original s ≡ call_original original s
  unfolding register get_unit_of_work_from_context
  body-none original unhandled = ground (arith, unhandled)

  body-some :
      (original : Option (Hook Db)) (u : UnitOfWork)
      → registering ≡ some u
      → (body original s
          ≡ after_processing p original s
              (process_entities (processor s.world.heap rt k) s.dest s.rows_affected u))
        × (lookup p.context_key s.context ≡ some u)
  unfolding register get_unit_of_work_from_context
  body-some original u handled = (ground (arith, handled), ground (arith, handled))

  body-Registers :
      (original : Option (Hook Db)) → s.rows_affected ≡ 0 → Registers original (body original s)
  body-Registers original rows = elim (Option-cases registering) [
    | inl unhandled ↦ passed_through unhandled (body-none original unhandled)
    | inr (u, handled) ↦
        let (body_eq, found) = body-some original u handled in
        subst (Registers original) (sym body_eq) (
          after_processing-Registers original u _ rows handled found (refs_of s.dest) refl (
            subst
              (λ n.
                Processes s.world.heap rt k (refs_of s.dest) 0 u
                  (process_entities (processor s.world.heap rt k) s.dest n u))
              (sym rows) (process_entities-Processes s.world.heap rt k s.dest u)))
  ]

-- A callback that stands in the place of gorm's, on a statement that reports no rows yet. It calls
-- the original one and does nothing else if it passes the statement through: with auto-management
-- off, without a unit of work in the context, while that unit executes its operations, or, for an
-- update or a deletion, without an ID; and if the statement has no entity. Otherwise the original one
-- is not called, the database and the heap stay as they are, and the unit of work in the context is
-- the one after the calls of `Create`, `Update` or `Delete` for the entities in their order: for all
-- of them, which the rows affected count, if none of the calls reports an error; and else for those
-- before the first call that reports one, with no rows affected and that error added.
pub hook-Registers :
    {Db : Type 0} (p : PluginConfig) (rt : Reflect) (k : Kind) (original : Option (Hook Db))
    (s : Statement Db)
    → s.rows_affected ≡ 0
    → Registers p rt k s original (hook p rt k original s)
unfolding unit_of_work_create unit_of_work_update unit_of_work_delete
hook-Registers p rt creates original s rows = body-Registers p rt creates s original rows
hook-Registers p rt updates original s rows = body-Registers p rt updates s original rows
hook-Registers p rt deletes original s rows = body-Registers p rt deletes s original rows
