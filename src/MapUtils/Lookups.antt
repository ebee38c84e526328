-- ===== src/MapUtils/Lookups.antt =====
-- What `Diff` of maputils/maputils.go has for each key.
use toolkit.Prelude.{
  ◌≡◌, refl, Bool, true, false, List, [], ◌∷◌, Option, none, some, Bytes, bytes_eq,
  bytes_eq_instance, if◌then◌else◌, arith,
}
use toolkit.Prelude.Map.{lookup, insert, remove, lookup_or, lookup-insert, lookup-remove, is_unique}
use toolkit.MapUtils.{
  Change, create_add_change, create_modify_change, create_deleted_change, mark_keys, note_new,
  diff_new, diff_deleted, diff,
}

module _ {V : Type 0} (nil : V) (deep_equal : V → V → Bool) (k : Bytes) where
  -- The change of a key, by its values in the old and the new map.
  abbrev pub change_at : Option V → Option V → Option (Change V)
  change_at none none = none
  change_at none (some new) = some (create_add_change nil deep_equal new)
  change_at (some old) none = some (create_deleted_change nil deep_equal old)
  change_at (some old) (some new) =
      if deep_equal old new then none else some (create_modify_change nil deep_equal old new)

  abbrev marked : Option V → Option Bool
  marked none = none
  marked (some v) = some true

  mark_keys-lookup :
      (old : List (Bytes × V)) → lookup k (mark_keys nil deep_equal old) ≡ marked (lookup k old)
  unfolding mark_keys lookup
  mark_keys-lookup [] = refl
  mark_keys-lookup ((j, v) ∷ old) =
      ground (arith, mark_keys-lookup old, lookup-insert j k true (mark_keys nil deep_equal old))

  -- What the first loop leaves of the keys.
  abbrev left : Option V → Option Bool → Option Bool
  left none b = b
  left (some v) b = none

  diff_new-keys :
      (old new : List (Bytes × V)) (mp : List (Bytes × Bool)) (changes : List (Bytes × Change V))
      → lookup k (diff_new nil deep_equal old new mp changes).0 ≡ left (lookup k new) (lookup k mp)
  unfolding diff_new lookup
  diff_new-keys old [] mp changes = refl
  diff_new-keys old ((j, v) ∷ new) mp changes = ground (
    arith,
    diff_new-keys old new (remove j mp)
        (note_new nil deep_equal old j v (lookup_or j false mp) changes),
    lookup-remove j k mp,
  )

  diff_deleted-lookup :
      (old : List (Bytes × V)) (mp : List (Bytes × Bool)) (changes : List (Bytes × Change V))
      → lookup k (diff_deleted nil deep_equal old mp changes) ≡ (elim (lookup k mp) [
        | none ↦ lookup k changes
        | some b ↦ some (create_deleted_change nil deep_equal (lookup_or k nil old))
      ])
  unfolding diff_deleted lookup
  diff_deleted-lookup old [] changes = refl
  diff_deleted-lookup old ((j, b) ∷ mp) changes =
      let c = create_deleted_change nil deep_equal (lookup_or j nil old) in
      ground (
        arith,
        diff_deleted-lookup old mp (insert j c changes),
        lookup-insert j k c changes,
        bytes_eq_instance.beq_iff j k,
      )

  -- A change that the first loop makes of a key, by whether it is known.
  abbrev fresh_change : List (Bytes × V) → V → Bool → Option (Change V) → Option (Change V)
  fresh_change old v false before = some (create_add_change nil deep_equal v)
  fresh_change old v true before =
      if deep_equal (lookup_or k nil old) v
      then before
      else some (create_modify_change nil deep_equal (lookup_or k nil old) v)

  note_new-lookup :
      (old : List (Bytes × V)) (j : Bytes) (v : V) (b : Bool) (changes : List (Bytes × Change V))
      → lookup k (note_new nil deep_equal old j v b changes)
        ≡ (if bytes_eq j k then fresh_change old v b (lookup k changes) else lookup k changes)
  unfolding note_new
  note_new-lookup old j v false changes =
      ground (arith, lookup-insert j k (create_add_change nil deep_equal v) changes)
  note_new-lookup old j v true changes = ground (
    arith,
    bytes_eq_instance.beq_iff j k,
    lookup-insert j k (create_modify_change nil deep_equal (lookup_or j nil old) v) changes,
  )

  diff_new-lookup :
      (old new : List (Bytes × V)) (mp : List (Bytes × Bool)) (changes : List (Bytes × Change V))
      → is_unique new ≡ true
      → lookup k (diff_new nil deep_equal old new mp changes).1 ≡ (elim (lookup k new) [
        | none ↦ lookup k changes
        | some v ↦ fresh_change old v (lookup_or k false mp) (lookup k changes)
      ])
  unfolding diff_new lookup is_unique
  diff_new-lookup old [] mp changes u = refl
  diff_new-lookup old ((j, v) ∷ new) mp changes u =
      let changes' = note_new nil deep_equal old j v (lookup_or j false mp) changes in
      ground (
        arith,
        u,
        diff_new-lookup old new (remove j mp) changes',
        lookup-remove j k mp,
        note_new-lookup old j v (lookup_or j false mp) changes,
        bytes_eq_instance.beq_iff j k,
      )

  -- `Diff` of a new map, which has no key twice, and an old map has for each key the change between its values in the old and the
  -- new map: added, deleted, or modified if the values are not deeply equal, with both values; and
  -- no change for any other key.
  pub diff-lookup :
      (new old : List (Bytes × V))
      → is_unique new ≡ true
      → lookup k (diff nil deep_equal new old) ≡ change_at (lookup k old) (lookup k new)
  unfolding diff lookup
  diff-lookup new old u =
      let mp = mark_keys nil deep_equal old in
      let first = diff_new nil deep_equal old new mp [] in
      ground (
        arith,
        diff_deleted-lookup old first.0 first.1,
        diff_new-keys old new mp [],
        diff_new-lookup old new mp [] u,
        mark_keys-lookup old,
      )
