-- ===== src/UnitOfWork/Tests/Tracking.antt =====
-- The registration and the snapshots of unitofwork at concrete entities.
use toolkit.Prelude.{
  ◌≡◌, refl, true, false, List, [], ◌∷◌, none, some, ◌↔◌, ◌==◌, if◌then◌else◌, Bytes,
  bytes_eq_instance,
}
use toolkit.Prelude.Map.{lookup}
use toolkit.UnitOfWork.Entity.{Object, Heap}
use toolkit.UnitOfWork.Snapshot.{
  take_snapshot, is_dirty, new_entity_snapshot, snapshot_is_dirty, snapshot_get_changed_fields,
  extract_field_values,
}
use toolkit.UnitOfWork.Snapshot.Changes.{change_of, snapshot_get_changed_fields-lookup}
use toolkit.UnitOfWork.Snapshot.Dirty.{snapshot_is_dirty-snapshot_get_changed_fields}
use toolkit.UnitOfWork.Snapshot.Keys.{is_dirty-overwritten}
use toolkit.UnitOfWork.State.{UnitOfWork, new_unit_of_work, create}
use toolkit.UnitOfWork.State.Collision.{create-collision}
use toolkit.UnitOfWork.State.Steps.{InStep}
use toolkit.UnitOfWork.State.Invariant.{
  Call, create_call, update_call, delete_call, snapshot_call, run, run-new_unit_of_work,
}
use toolkit.UnitOfWork.Tests.Data.{reflect, heap}

abbrev calls : List Call
calls =
    create_call (some 10)
    ∷ snapshot_call 0 20
    ∷ update_call (some 20)
    ∷ delete_call (some 30)
    ∷ delete_call (some 30)
    ∷ create_call (some 10)
    ∷ delete_call (some 10)
    ∷ []

run-new_unit_of_work_example : InStep heap 3 0 (run heap reflect calls (new_unit_of_work []))
run-new_unit_of_work_example = run-new_unit_of_work heap reflect [] calls 3 0

abbrev fresh : UnitOfWork
unfolding new_unit_of_work
fresh = new_unit_of_work []

-- The entity with another content in its field.
abbrev changed : Object
changed = record (heap 10) { fields = (heap 11).fields }

-- Two entities with the type and the ID of the first.
abbrev alike : Heap
alike r = if r == 11 then changed else heap r

create-collision_example :
    create alike (some 11) (create alike (some 10) fresh).0
    ≡ ((create alike (some 10) fresh).0, none)
unfolding create fresh lookup
create-collision_example = create-collision alike 10 11 fresh refl refl refl

snapshot_get_changed_fields_example :
    lookup
      (b'N' ∷ [])
      (snapshot_get_changed_fields reflect (new_entity_snapshot reflect 0 (heap 10)) changed)
    ≡ change_of reflect
        (b'N' ∷ [])
        (lookup (b'N' ∷ []) (extract_field_values reflect (heap 10)))
        (lookup (b'N' ∷ []) (extract_field_values reflect changed))
snapshot_get_changed_fields_example =
    snapshot_get_changed_fields-lookup reflect 0 (heap 10) changed (b'N' ∷ []) refl

snapshot_is_dirty_example :
    snapshot_is_dirty reflect (new_entity_snapshot reflect 0 (heap 10)) changed ≡ false ↔ (
      (name : Bytes)
      → lookup name
          (snapshot_get_changed_fields reflect (new_entity_snapshot reflect 0 (heap 10)) changed)
        ≡ none)
snapshot_is_dirty_example =
    snapshot_is_dirty-snapshot_get_changed_fields reflect 0 (heap 10) changed refl refl

is_dirty-overwritten_example :
    is_dirty reflect (take_snapshot reflect 0 [] (heap 11)) (heap 10) ≡ true
is_dirty-overwritten_example =
    is_dirty-overwritten reflect 0 [] (heap 10) (heap 11) (λ a b. refl) refl refl
