-- ===== src/MapUtils.antt =====
-- `Diff` of maputils/maputils.go. `deep_equal` is `reflect.DeepEqual`, and `nil` the nil interface.
pub mod Lookups
pub mod Merging
mod Tests
use toolkit.Prelude.{Bool, true, false, not, List, [], ◌∷◌, Bytes, bytes_eq_instance, if◌then◌else◌}
use toolkit.Prelude.Map.{lookup, insert, remove, lookup_or}

pub data ChangeType : Type 0 where
  added modified deleted : ChangeType

pub record Change (V : Type 0) : Type 0 where
  pub old_value : V
  pub new_value : V
  pub change_type : ChangeType

module _ {V : Type 0} (nil : V) (deep_equal : V → V → Bool) where
  abbrev pub create_add_change : V → Change V
  create_add_change new = record { old_value = nil; new_value = new; change_type = added }

  abbrev pub create_modify_change : V → V → Change V
  create_modify_change old new = record { old_value = old; new_value = new; change_type = modified }

  abbrev pub create_deleted_change : V → Change V
  create_deleted_change old = record { old_value = old; new_value = nil; change_type = deleted }

  -- `mp`, the keys of the old map
  unfoldable pub mark_keys : List (Bytes × V) → List (Bytes × Bool)
  mark_keys [] = []
  mark_keys ((k, v) ∷ old) = insert k true (mark_keys old)

  -- The change of one key of the new map, `known` being `mp[key]`.
  unfoldable pub note_new :
      List (Bytes × V) → Bytes → V → Bool → List (Bytes × Change V) → List (Bytes × Change V)
  note_new old k v false changes = insert k (create_add_change v) changes
  note_new old k v true changes =
      if not (deep_equal (lookup_or k nil old) v)
      then insert k (create_modify_change (lookup_or k nil old) v) changes
      else changes

  -- The loop over the new map.
  unfoldable pub diff_new :
      List (Bytes × V)
      → List (Bytes × V)
      → List (Bytes × Bool)
      → List (Bytes × Change V)
      → List (Bytes × Bool) × List (Bytes × Change V)
  unfolding note_new
  diff_new old [] mp changes = (mp, changes)
  diff_new old ((k, v) ∷ new) mp changes =
      diff_new old new (remove k mp) (note_new old k v (lookup_or k false mp) changes)

  -- The loop over the keys that are left.
  unfoldable pub diff_deleted :
      List (Bytes × V) → List (Bytes × Bool) → List (Bytes × Change V) → List (Bytes × Change V)
  diff_deleted old [] changes = changes
  diff_deleted old ((k, b) ∷ mp) changes =
      diff_deleted old mp (insert k (create_deleted_change (lookup_or k nil old)) changes)

  unfoldable pub diff : List (Bytes × V) → List (Bytes × V) → List (Bytes × Change V)
  unfolding mark_keys diff_new diff_deleted
  diff new old =
      let (mp, changes) = diff_new old new (mark_keys old) [] in diff_deleted old mp changes
