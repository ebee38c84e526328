-- ===== src/UnitOfWork/Snapshot/Changes.antt =====
-- `IsDirty` and `GetChangedFields` of unitofwork/snapshot.go, which compare an entity with its
-- snapshot.
use toolkit.Prelude.{
  ◌≡◌, refl, true, List, [], ◌∷◌, Option, none, some, Bytes, arith, if◌then◌else◌, bytes_eq,
  bytes_eq_instance, ==_iff,
}
use toolkit.Prelude.Map.{lookup, lookup-insert, is_unique, is_unique-insert}
use toolkit.UnitOfWork.Entity.{Field, Time, Object, Value, nil}
use toolkit.UnitOfWork.Snapshot.{
  Reflect, FieldValues, FieldChange, Changes, added, modified, deleted, field_change, deep_equal,
  changes_of_originals, changes_of_current, note_original, note_current,
  snapshot_get_changed_fields, extract_field_values, extract_from, field_value, new_entity_snapshot,
}

-- The change of one field, by its values in the snapshot and in the entity.
abbrev pub change_of : Reflect → Bytes → Option Value → Option Value → Option FieldChange
change_of rt name none none = none
change_of rt name none (some now) = some (field_change rt name nil now added)
change_of rt name (some original) none = some (field_change rt name original nil deleted)
change_of rt name (some original) (some now) =
    if deep_equal rt original now then none else some (field_change rt name original now modified)

-- The first of two, if there is one.
abbrev pub or_else : Option FieldChange → Option FieldChange → Option FieldChange
or_else none d = d
or_else (some c) d = some c

module _ (rt : Reflect) (name : Bytes) where
  note_original-lookup :
      (k : Bytes) (v : Value) (now : Option Value) (changes : Changes)
      → lookup name (note_original rt k v now changes) ≡ (
          if bytes_eq k name
          then or_else (change_of rt k (some v) now) (lookup name changes)
          else lookup name changes)
  unfolding note_original
  note_original-lookup k v none changes =
      ground (arith, lookup-insert k name (field_change rt k v nil deleted) changes)
  note_original-lookup k v (some now) changes =
      ground (arith, lookup-insert k name (field_change rt k v now modified) changes)

  changes_of_originals-lookup :
      (originals current : FieldValues) (changes : Changes)
      → is_unique originals ≡ true
      → lookup name (changes_of_originals rt originals current changes)
        ≡ (elim (lookup name originals) [
          | none ↦ lookup name changes
          | some original ↦
              or_else
                (change_of rt name (some original) (lookup name current))
                (lookup name changes)
        ])
  unfolding changes_of_originals lookup is_unique
  changes_of_originals-lookup [] current changes m = refl
  changes_of_originals-lookup ((k, v) ∷ rest) current changes m = ground (
    arith,
    m,
    note_original-lookup k v (lookup k current) changes,
    bytes_eq_instance.beq_iff k name,
    changes_of_originals-lookup rest current (note_original rt k v (lookup k current) changes),
  )

  note_current-lookup :
      (k : Bytes) (v : Value) (original : Option Value) (changes : Changes)
      → lookup name (note_current rt k v original changes) ≡ (
          if bytes_eq k name
          then (elim original [
            | none ↦ some (field_change rt k nil v added)
            | some o ↦ lookup name changes
          ])
          else lookup name changes)
  unfolding note_current
  note_current-lookup k v none changes =
      ground (arith, lookup-insert k name (field_change rt k nil v added) changes)
  note_current-lookup k v (some o) changes = ground arith

  changes_of_current-lookup :
      (current originals : FieldValues) (changes : Changes)
      → is_unique current ≡ true
      → lookup name (changes_of_current rt current originals changes)
        ≡ (elim (lookup name current) [
          | none ↦ lookup name changes
          | some now ↦ (elim (lookup name originals) [
            | none ↦ change_of rt name none (some now)
            | some _ ↦ lookup name changes
          ])
        ])
  unfolding changes_of_current lookup is_unique
  changes_of_current-lookup [] originals changes m = refl
  changes_of_current-lookup ((k, v) ∷ rest) originals changes m = ground (
    arith,
    m,
    note_current-lookup k v (lookup k originals) changes,
    bytes_eq_instance.beq_iff k name,
    changes_of_current-lookup rest originals (note_current rt k v (lookup k originals) changes),
  )

module _ (rt : Reflect) where
  extract_from_unique :
      (fs : List Field) (values : FieldValues)
      → is_unique values ≡ true
      → is_unique (extract_from rt fs values) ≡ true
  unfolding extract_from
  extract_from_unique [] values u = u
  extract_from_unique (f ∷ fs) values u =
      extract_from_unique fs _
        (ground (arith, u, is_unique-insert f.name (field_value rt f) values))

  pub extract_field_values_unique : (o : Object) → is_unique (extract_field_values rt o) ≡ true
  unfolding extract_field_values is_unique
  extract_field_values_unique o = extract_from_unique o.fields [] refl

  -- Between a snapshot of an entity and an entity of the same type, `GetChangedFields` has a change for
  -- a field exactly if the field is added, deleted, or not deeply equal, and it is that change, with
  -- the old and the new value.
  pub snapshot_get_changed_fields-lookup :
      (now : Time) (o o' : Object) (name : Bytes)
      → o.type ≡ o'.type
      → lookup name (snapshot_get_changed_fields rt (new_entity_snapshot rt now o) o')
        ≡ change_of rt name
            (lookup name (extract_field_values rt o))
            (lookup name (extract_field_values rt o'))
  unfolding snapshot_get_changed_fields new_entity_snapshot lookup
  snapshot_get_changed_fields-lookup now o o' name same =
      let was = extract_field_values rt o in
      let is = extract_field_values rt o' in
      let first = changes_of_originals rt was is [] in
      ground (
        arith,
        ==_iff o.type o'.type,
        same,
        changes_of_originals-lookup rt name was is [] (extract_field_values_unique o),
        changes_of_current-lookup rt name is was first (extract_field_values_unique o'),
      )
