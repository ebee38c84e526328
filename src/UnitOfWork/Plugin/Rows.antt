-- ===== src/UnitOfWork/Plugin/Rows.antt =====
-- The writes of `UpdateOperation.Execute` (unitofwork/operation.go) through the callbacks of
-- unitofwork/plugin.go.
use toolkit.Prelude.{
  ◌≡◌, ◌∙◌, ap, ℕ, Bool, true, false, ltb, ◌==◌, ==-self, nat_eq, List, [], ◌∷◌, none, some, arith,
  if◌then◌else◌, bytes_eq_instance,
}
use toolkit.Prelude.Map.{lookup}
use toolkit.UnitOfWork.Entity.{Ref, Heap, get_id, set_revision, set_updated_at}
use toolkit.UnitOfWork.Execute.{
  Gorm, Result, World, update_failed, optimistic_lock_failed, is_invalid, stamp_updated,
  execute_update, check_revision,
}
use toolkit.UnitOfWork.Execute.Lock.{advanced, locked_write, execute_update-locked}
use toolkit.UnitOfWork.Plugin.{
  Context, entity_dest, Statement, StatementError, Hook, call_original,
  get_unit_of_work_from_context, is_executing, check_dest, process_entities, process_entity,
  register, unit_of_work_update, visit_entities, visit_after, after_update,
}
use toolkit.UnitOfWork.Plugin.Options.{PluginConfig}
use toolkit.UnitOfWork.Snapshot.{Reflect}
use toolkit.UnitOfWork.State.{UnitOfWork}

-- gorm's own update keeps the destination, the context and the IDs.
pub record IsUpdateCallback {Db : Type 0} (original : Hook Db) : Type 0 where
  pub keeps_dest : (s : Statement Db) → (original s).dest ≡ s.dest
  pub keeps_context : (s : Statement Db) → (original s).context ≡ s.context
  pub keeps_ids :
      (s : Statement Db) (e : Ref) → get_id (original s).world.heap e ≡ get_id s.world.heap e

-- `db.Statement` for a call with an entity.
abbrev pub start : {Db : Type 0} → Context → Ref → Heap → Db → Statement Db
start ctx e h db = record {
  dest = entity_dest e;
  context = ctx;
  world = record { db = db; heap = h };
  rows_affected = 0;
  errors = [];
}

abbrev pub has_errors : List StatementError → Bool
has_errors [] = false
has_errors (err ∷ errs) = true

abbrev pub result_of : {Db : Type 0} → Statement Db → Result Db
result_of s = record {
  db = s.world.db;
  heap = s.world.heap;
  failed = has_errors s.errors;
  rows_affected = s.rows_affected;
}

-- gorm with the plugin, where `original id revision` is its own update of the row with that ID and
-- that revision.
abbrev pub plugged :
    {Db : Type 0} → PluginConfig → Reflect → Context → (ℕ → ℕ → Hook Db) → Gorm Db → Gorm Db
plugged p rt ctx original g = record g {
  updates_where = λ id revision e h db.
      result_of (
        after_update p (unit_of_work_update p rt (some (original id revision)) (start ctx e h db)));
}

module _ {Db : Type 0} (p : PluginConfig) (rt : Reflect) where
  update-executing :
      (original : Hook Db) (s : Statement Db) (u : UnitOfWork)
      → lookup p.context_key s.context ≡ some u
      → u.is_executing ≡ true
      → unit_of_work_update p rt (some original) s ≡ original s
  unfolding unit_of_work_update register call_original is_executing get_unit_of_work_from_context
  update-executing original s u found executing = ground (arith, found, executing)

  -- The callback behind gorm's, for one entity with an ID.
  after_update-entity :
      (s : Statement Db) (e : Ref) (u : UnitOfWork)
      → p.auto_manage ≡ true
      → lookup p.context_key s.context ≡ some u
      → s.dest ≡ entity_dest e
      → ltb 0 (get_id s.world.heap e) ≡ true
      → result_of (after_update p s) ≡ (
          if p.unit_of_work_config.enable_detail_log
          then record (result_of s) { rows_affected = 1 }
          else result_of s)
  unfolding after_update visit_after visit_entities process_entities process_entity check_dest
      get_unit_of_work_from_context
  after_update-entity s e u auto found dest has = ground (arith, auto, found, dest, has)

module _ {Db : Type 0} (p : PluginConfig) (rt : Reflect) (ctx : Context)
    (original : ℕ → ℕ → Hook Db) (g : Gorm Db) where
  -- The statement after gorm's own update, in the update of an entity.
  abbrev pub updated : Ref → World Db → Statement Db
  updated e w =
      original (get_id w.heap e) (w.heap e).base.revision
        (start ctx e (advanced (plugged p rt ctx original g) e w) w.db)

  advanced-get_id :
      (e : Ref) (w : World Db)
      → get_id (advanced (plugged p rt ctx original g) e w) e ≡ get_id w.heap e
  unfolding stamp_updated set_updated_at set_revision
  advanced-get_id e w = ground (arith, ==-self e)

  locked_write-plugged :
      (e : Ref) (w : World Db) (u : UnitOfWork)
      → ((id revision : ℕ) → IsUpdateCallback (original id revision))
      → p.auto_manage ≡ true
      → lookup p.context_key ctx ≡ some u
      → u.is_executing ≡ true
      → ltb 0 (get_id w.heap e) ≡ true
      → locked_write (plugged p rt ctx original g) e w ≡ (
          if p.unit_of_work_config.enable_detail_log
          then record (result_of (updated e w)) { rows_affected = 1 }
          else result_of (updated e w))
  locked_write-plugged e w u is_update auto found executing has =
      let keeps = is_update (get_id w.heap e) (w.heap e).base.revision in
      let s = start ctx e (advanced (plugged p rt ctx original g) e w) w.db in
      ap (λ t. result_of (after_update p t)) (update-executing p rt _ s u found executing)
      ∙ after_update-entity p rt (updated e w) e u auto
          (ap (lookup p.context_key) (keeps.keeps_context s) ∙ found) (keeps.keeps_dest s)
          (ap (ltb 0) (keeps.keeps_ids s e ∙ advanced-get_id e w) ∙ has)

  check-plugged :
      (detail_log : Bool) (r : Result Db)
      → (check_revision g (if detail_log then record r { rows_affected = 1 } else r)).1 ≡ (
          if r.failed
          then some update_failed
          else if detail_log
          then none
          else if r.rows_affected == 0
          then some optimistic_lock_failed
          else none)
  check-plugged true r = ground arith
  check-plugged false r = ground arith

  -- Let the plugin be on, and let an executing unit of work in the context update a valid entity that
  -- has a revision and an ID, where gorm's own update keeps the destination, the context and the IDs.
  -- An error of that update is the update's error. Without one, the update reports the optimistic
  -- lock exactly if the detailed log is off and no row had the ID and the revision; with the detailed
  -- log on, it reports no error even then.
  pub execute_update-plugged :
      (e : Ref) (w : World Db) (u : UnitOfWork)
      → ((id revision : ℕ) → IsUpdateCallback (original id revision))
      → p.auto_manage ≡ true
      → lookup p.context_key ctx ≡ some u
      → u.is_executing ≡ true
      → (w.heap e).has_revision ≡ true
      → is_invalid g w.heap e ≡ false
      → ltb 0 (get_id w.heap e) ≡ true
      → (execute_update (plugged p rt ctx original g) e w).1 ≡ (
          if has_errors (updated e w).errors
          then some update_failed
          else if p.unit_of_work_config.enable_detail_log
          then none
          else if (updated e w).rows_affected == 0
          then some optimistic_lock_failed
          else none)
  unfolding is_invalid
  execute_update-plugged e w u is_update auto found executing versioned valid has =
      ap (λ r. r.1) (execute_update-locked (plugged p rt ctx original g) e w versioned valid)
      ∙ ap (λ r. (check_revision g r).1)
          (locked_write-plugged e w u is_update auto found executing has)
      ∙ check-plugged p.unit_of_work_config.enable_detail_log (result_of (updated e w))
