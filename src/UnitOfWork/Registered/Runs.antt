-- ===== src/UnitOfWork/Registered/Runs.antt =====
-- The order of the registered operations under sequences of calls of `Create`, `Update`, `Delete`,
-- `TakeSnapshot` and `Rollback` of unitofwork/unitofwork.go.
use toolkit.Prelude.{
  refl, Bool, true, false, ◌||◌, List, [], ◌∷◌, Option, none, some, if◌then◌else◌, nat_eq,
  Bool-cases, inl, inr,
}
use toolkit.Prelude.Map.{lookup}
use toolkit.UnitOfWork.Config.{ConfigOption}
use toolkit.UnitOfWork.Entity.{Ref, Time, Heap}
use toolkit.UnitOfWork.Snapshot.{Reflect, get_changed_fields}
use toolkit.UnitOfWork.State.{
  Outcome, UnitOfWork, remove_from_entity_list, create, update, delete, clear, rollback,
  uow_take_snapshot, new_unit_of_work,
}
use toolkit.UnitOfWork.State.Invariant.{
  Call, create_call, update_call, delete_call, snapshot_call, rollback_call, run,
  create-IsConsistent, update-IsConsistent, delete-IsConsistent, take_snapshot-IsConsistent,
  rollback-IsConsistent,
}
use toolkit.UnitOfWork.State.Steps.{IsConsistent}
use toolkit.UnitOfWork.Registered.InOrder.{
  InOrder, InOrder-insert, InOrder-update, InOrder-forget, InOrder-delete_tracked,
}

module _ (h : Heap) where
  abbrev Leaves : Outcome → Type 0
  Leaves r = InOrder h r.0

  Leaves-if : (b : Bool) (x y : Outcome) → Leaves x → Leaves y → Leaves (if b then x else y)
  Leaves-if true x y px py = px
  Leaves-if false x y px py = py

  create-InOrder : (e : Option Ref) (u : UnitOfWork) → InOrder h u → InOrder h (create h e u).0
  unfolding create
  create-InOrder none u s = search (Leaves-if, s) depth 25
  create-InOrder (some e) u s = search (Leaves-if, s, InOrder-insert h u s e) depth 25

  update-InOrder :
      (rt : Reflect) (e : Option Ref) (u : UnitOfWork) → InOrder h u → InOrder h (update h rt e u).0
  unfolding update
  update-InOrder rt none u s = search (Leaves-if, s) depth 25
  update-InOrder rt (some e) u s =
      search
        (
          Leaves-if,
          s,
          InOrder-update h u s e [],
          InOrder-update h u s e (get_changed_fields rt u.snapshot_manager (h e)),
        )
        depth 25

  delete-InOrder :
      (e : Option Ref) (u : UnitOfWork)
      → IsConsistent h u
      → InOrder h u
      → InOrder h (delete h e u).0
  unfolding delete
  delete-InOrder none u c s = search (Leaves-if, s) depth 25
  delete-InOrder (some e) u c s =
      Leaves-if (u.is_committed || u.is_rolled_back) _ _ s
        (elim (Bool-cases (remove_from_entity_list h u.new_entities e).1) [
          | inl removed ↦ rw (removed) (InOrder-forget h u s c e removed)
          | inr kept ↦ rw (kept) (InOrder-delete_tracked h u s c e kept)
        ])

  clear-InOrder : (u : UnitOfWork) → InOrder h (clear u)
  unfolding clear lookup
  clear-InOrder u = record { single = tt; inserted = λ t. refl; updated = λ t. refl }

  rollback-InOrder : (u : UnitOfWork) → InOrder h u → InOrder h (rollback u).0
  unfolding rollback
  rollback-InOrder u s =
      search (Leaves-if, s, clear-InOrder (record u { is_rolled_back = true })) depth 25

  take_snapshot-InOrder :
      (rt : Reflect) (now : Time) (e : Ref) (u : UnitOfWork)
      → InOrder h u
      → InOrder h (uow_take_snapshot rt h now e u)
  unfolding uow_take_snapshot
  take_snapshot-InOrder rt now e u s = record {
    single = s.single;
    inserted = s.inserted;
    updated = s.updated;
  }

  pub run-InOrder :
      (rt : Reflect) (calls : List Call) (u : UnitOfWork)
      → IsConsistent h u
      → InOrder h u
      → InOrder h (run h rt calls u)
  unfolding run
  run-InOrder rt [] u c s = s
  run-InOrder rt (create_call e ∷ calls) u c s =
      run-InOrder rt calls _ (create-IsConsistent h e u c) (create-InOrder e u s)
  run-InOrder rt (update_call e ∷ calls) u c s =
      run-InOrder rt calls _ (update-IsConsistent h rt e u c) (update-InOrder rt e u s)
  run-InOrder rt (delete_call e ∷ calls) u c s =
      run-InOrder rt calls _ (delete-IsConsistent h e u c) (delete-InOrder e u c s)
  run-InOrder rt (snapshot_call now e ∷ calls) u c s =
      run-InOrder rt calls _ (take_snapshot-IsConsistent h rt now e u c)
        (take_snapshot-InOrder rt now e u s)
  run-InOrder rt (rollback_call ∷ calls) u c s =
      run-InOrder rt calls _ (rollback-IsConsistent h u c) (rollback-InOrder u s)

  pub new_unit_of_work-InOrder :
      (options : List ConfigOption) → InOrder h (new_unit_of_work options)
  unfolding new_unit_of_work lookup
  new_unit_of_work-InOrder options = record {
    single = tt;
    inserted = λ t. refl;
    updated = λ t. refl;
  }
