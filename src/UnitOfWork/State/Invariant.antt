-- ===== src/UnitOfWork/State/Invariant.antt =====
-- The three entity maps and the operations under sequences of calls of `Create`, `Update`, `Delete`,
-- `TakeSnapshot` and `Rollback` of unitofwork/unitofwork.go.
use toolkit.Prelude.{refl, true, List, [], ◌∷◌, Option, none, some, arith, nat_eq}
use toolkit.Prelude.Map.{lookup}
use toolkit.UnitOfWork.Entity.{Ref, Time, Heap}
use toolkit.UnitOfWork.Config.{ConfigOption}
use toolkit.UnitOfWork.Snapshot.{Reflect, get_changed_fields}
use toolkit.UnitOfWork.State.{
  UnitOfWork, create, update, delete, clear, rollback, uow_take_snapshot, new_unit_of_work,
}
use toolkit.UnitOfWork.State.Steps.{
  IsConsistent, InStep-insert, InStep-update, InStep-forget, InStep-delete_tracked,
}

module _ (h : Heap) where
  pub create-IsConsistent :
      (e : Option Ref) (u : UnitOfWork) → IsConsistent h u → IsConsistent h (create h e u).0
  unfolding create
  create-IsConsistent none u s t id = ground (arith, s t id)
  create-IsConsistent (some e) u s t id = ground (arith, s t id, InStep-insert h t id u (s t id) e)

  pub update-IsConsistent :
      (rt : Reflect) (e : Option Ref) (u : UnitOfWork)
      → IsConsistent h u
      → IsConsistent h (update h rt e u).0
  unfolding update
  update-IsConsistent rt none u s t id = ground (arith, s t id)
  update-IsConsistent rt (some e) u s t id = ground (
    arith,
    s t id,
    InStep-update h t id u (s t id) e [],
    InStep-update h t id u (s t id) e (get_changed_fields rt u.snapshot_manager (h e)),
  )

  pub delete-IsConsistent :
      (e : Option Ref) (u : UnitOfWork) → IsConsistent h u → IsConsistent h (delete h e u).0
  unfolding delete
  delete-IsConsistent none u s t id = ground (arith, s t id)
  delete-IsConsistent (some e) u s t id =
      ground (
        arith,
        s t id,
        InStep-forget h t id u (s t id) e,
        InStep-delete_tracked h t id u (s t id) e,
      )

  pub take_snapshot-IsConsistent :
      (rt : Reflect) (now : Time) (e : Ref) (u : UnitOfWork)
      → IsConsistent h u
      → IsConsistent h (uow_take_snapshot rt h now e u)
  unfolding uow_take_snapshot
  take_snapshot-IsConsistent rt now e u s t id =
      let r = s t id in
      record { inserts = r.inserts; updates = r.updates; deletes = r.deletes; once = r.once }

  clear-IsConsistent : (u : UnitOfWork) → IsConsistent h (clear u)
  unfolding clear lookup
  clear-IsConsistent u t id = record {
    inserts = refl;
    updates = refl;
    deletes = ground arith;
    once = omega arith;
  }

-- The calls of a client.
pub data Call : Type 0 where
  create_call : Option Ref → Call
  update_call : Option Ref → Call
  delete_call : Option Ref → Call
  snapshot_call : Time → Ref → Call
  rollback_call : Call

unfoldable pub run : Heap → Reflect → List Call → UnitOfWork → UnitOfWork
run h rt [] u = u
run h rt (create_call e ∷ calls) u = run h rt calls (create h e u).0
run h rt (update_call e ∷ calls) u = run h rt calls (update h rt e u).0
run h rt (delete_call e ∷ calls) u = run h rt calls (delete h e u).0
run h rt (snapshot_call now e ∷ calls) u = run h rt calls (uow_take_snapshot rt h now e u)
run h rt (rollback_call ∷ calls) u = run h rt calls (rollback u).0

pub rollback-IsConsistent :
    (h : Heap) (u : UnitOfWork) → IsConsistent h u → IsConsistent h (rollback u).0
unfolding rollback
rollback-IsConsistent h u s t id =
    ground (arith, s t id, clear-IsConsistent h (record u { is_rolled_back = true }) t id)

run-IsConsistent :
    (h : Heap) (rt : Reflect) (calls : List Call) (u : UnitOfWork)
    → IsConsistent h u
    → IsConsistent h (run h rt calls u)
unfolding run
run-IsConsistent h rt [] u s = s
run-IsConsistent h rt (create_call e ∷ calls) u s =
    run-IsConsistent h rt calls _ (create-IsConsistent h e u s)
run-IsConsistent h rt (update_call e ∷ calls) u s =
    run-IsConsistent h rt calls _ (update-IsConsistent h rt e u s)
run-IsConsistent h rt (delete_call e ∷ calls) u s =
    run-IsConsistent h rt calls _ (delete-IsConsistent h e u s)
run-IsConsistent h rt (snapshot_call now e ∷ calls) u s =
    run-IsConsistent h rt calls _ (take_snapshot-IsConsistent h rt now e u s)
run-IsConsistent h rt (rollback_call ∷ calls) u s =
    run-IsConsistent h rt calls _ (rollback-IsConsistent h u s)

-- Whatever calls of Create, Update, Delete, TakeSnapshot and Rollback a client makes on a new unit
-- of work, while no entity changes its type or ID, each type and ID has one operation at most; it is
-- an insertion, an update or a deletion exactly as the entity is among the new, the dirty or the
-- removed ones; and no new or dirty entity is held twice.
pub run-new_unit_of_work :
    (h : Heap) (rt : Reflect) (options : List ConfigOption) (calls : List Call)
    → IsConsistent h (run h rt calls (new_unit_of_work options))
unfolding new_unit_of_work lookup
run-new_unit_of_work h rt options calls =
    run-IsConsistent h rt calls _ (λ t id. record {
      inserts = refl;
      updates = refl;
      deletes = ground arith;
      once = omega arith;
    })
