-- ===== src/UnitOfWork/Snapshot.antt =====
-- unitofwork/snapshot.go: snapshots of the exported fields of an entity and their comparison.
pub mod Keys
pub mod Changes
pub mod Dirty
use toolkit.Prelude.{
  ℕ, Bool, true, false, not, ◌&&◌, ◌||◌, ◌==◌, List, [], ◌∷◌, ◌++◌, Option, none, some, Bytes,
  if◌then◌else◌, bytes_eq_instance,
}
use toolkit.Prelude.Map.{lookup, insert, remove}
use toolkit.UnitOfWork.Entity.{
  EntityType, Ref, Time, Value, nil, value, Field, Kind, slice_kind, map_kind, chan_kind, func_kind,
  ptr_kind, struct_kind, other_kind, Object, Heap, type_of, get_id,
}

-- What the package uses of `reflect`, and of the JSON library of `copier.DeepCopy`.
pub record Reflect : Type 0 where
  -- `reflect.DeepEqual` on values of one dynamic type
  pub deep_equal : Value → Value → Bool
  -- `MarshalToString`; `none` for its error
  pub marshal : Value → Option Bytes
  -- `Decode` into an `interface{}`, with `UseInt64`; `none` for its error
  pub decode : Bytes → Option Value
  -- `Type.String()`
  pub type_string : EntityType → Bytes
  -- `reflect.ValueOf(id).String()` of a uint
  pub value_string : ℕ → Bytes

abbrev pub FieldValues : Type 0
FieldValues = List (Bytes × Value)

pub data FieldChangeType : Type 0 where
  added modified deleted : FieldChangeType

abbrev pub change_type_string : FieldChangeType → Bytes
change_type_string added = b'A' ∷ b'D' ∷ b'D' ∷ b'E' ∷ b'D' ∷ []
change_type_string modified = b'M' ∷ b'O' ∷ b'D' ∷ b'I' ∷ b'F' ∷ b'I' ∷ b'E' ∷ b'D' ∷ []
change_type_string deleted = b'D' ∷ b'E' ∷ b'L' ∷ b'E' ∷ b'T' ∷ b'E' ∷ b'D' ∷ []

pub record FieldChange : Type 0 where
  pub field_name : Bytes
  pub old_value : Value
  pub new_value : Value
  pub change_type : FieldChangeType

abbrev pub Changes : Type 0
Changes = List (Bytes × FieldChange)

pub record EntitySnapshot : Type 0 where
  pub entity_type : EntityType
  pub entity_id : ℕ
  pub field_values : FieldValues
  pub snapshot_time : Time

-- `snapshots`, by their keys
abbrev pub SnapshotManager : Type 0
SnapshotManager = List (Bytes × EntitySnapshot)

abbrev pub new_snapshot_manager : SnapshotManager
new_snapshot_manager = []

unfoldable pub clear_snapshots : SnapshotManager → SnapshotManager
clear_snapshots sm = []

-- The kind of a type, and whether it is `time.Time`.
unfoldable pub need_deep_copy : Kind → Bool → Bool
need_deep_copy slice_kind is_time = true
need_deep_copy map_kind is_time = true
need_deep_copy chan_kind is_time = true
need_deep_copy func_kind is_time = true
need_deep_copy ptr_kind is_time = true
need_deep_copy struct_kind is_time = not is_time
need_deep_copy other_kind is_time = false

module _ (rt : Reflect) where
  -- `copier.DeepCopy` into an `interface{}`; `none` for its error
  unfoldable pub deep_copy : Value → Option Value
  deep_copy nil = some nil
  deep_copy (value t x) = elim (rt.marshal (value t x)) [ none ↦ none | some text ↦ rt.decode text ]

  unfoldable pub field_value : Field → Value
  unfolding deep_copy need_deep_copy
  field_value f =
      if need_deep_copy f.kind f.is_time
      then (elim (deep_copy f.content) [ some copied ↦ copied | none ↦ f.content ])
      else f.content

  -- The loop over the fields, `values` being the map so far.
  unfoldable pub extract_from : List Field → FieldValues → FieldValues
  extract_from [] values = values
  extract_from (f ∷ fs) values = extract_from fs (
      if not f.can_interface
      then values
      else if f.ignored
      then values
      else insert f.name (field_value f) values)

  unfoldable pub extract_field_values : Object → FieldValues
  unfolding field_value extract_from
  extract_field_values o = extract_from o.fields []

  unfoldable pub new_entity_snapshot : Time → Object → EntitySnapshot
  unfolding extract_field_values
  new_entity_snapshot now o = record {
    entity_type = o.type;
    entity_id = o.base.id;
    field_values = extract_field_values o;
    snapshot_time = now;
  }

  unfoldable pub deep_equal : Value → Value → Bool
  deep_equal nil nil = true
  deep_equal nil (value s y) = false
  deep_equal (value t x) nil = false
  deep_equal (value t x) (value s y) =
      if t == s then rt.deep_equal (value t x) (value s y) else false

  -- The first loop of `IsDirty`: a field of the snapshot is gone or differs.
  unfoldable pub any_changed : FieldValues → FieldValues → Bool
  unfolding deep_equal
  any_changed [] current = false
  any_changed ((name, original) ∷ rest) current = elim (lookup name current) [
    | none ↦ true
    | some now ↦ if not (deep_equal original now) then true else any_changed rest current
  ]

  -- The second loop: a field is new.
  unfoldable pub any_added : FieldValues → FieldValues → Bool
  any_added [] originals = false
  any_added ((name, now) ∷ rest) originals = elim (lookup name originals) [
    | none ↦ true
    | some _ ↦ any_added rest originals
  ]

  unfoldable pub snapshot_is_dirty : EntitySnapshot → Object → Bool
  unfolding any_changed any_added extract_field_values
  snapshot_is_dirty s o =
      if not (s.entity_type == o.type)
      then true
      else if not (s.entity_id == o.base.id)
      then true
      else (let current = extract_field_values o in
          if any_changed s.field_values current then true else any_added current s.field_values)

  abbrev pub field_change : Bytes → Value → Value → FieldChangeType → FieldChange
  field_change name old new t = record {
    field_name = name;
    old_value = old;
    new_value = new;
    change_type = t;
  }

  -- The body of the first loop of `GetChangedFields`, by the field in the entity.
  unfoldable pub note_original : Bytes → Value → Option Value → Changes → Changes
  unfolding deep_equal
  note_original name original none changes =
      insert name (field_change name original nil deleted) changes
  note_original name original (some now) changes =
      if not (deep_equal original now)
      then insert name (field_change name original now modified) changes
      else changes

  unfoldable pub changes_of_originals : FieldValues → FieldValues → Changes → Changes
  unfolding note_original
  changes_of_originals [] current changes = changes
  changes_of_originals ((name, original) ∷ rest) current changes =
      changes_of_originals rest current (note_original name original (lookup name current) changes)

  -- The body of the second loop, by the field in the snapshot.
  unfoldable pub note_current : Bytes → Value → Option Value → Changes → Changes
  note_current name now none changes = insert name (field_change name nil now added) changes
  note_current name now (some original) changes = changes

  unfoldable pub changes_of_current : FieldValues → FieldValues → Changes → Changes
  unfolding note_current
  changes_of_current [] originals changes = changes
  changes_of_current ((name, now) ∷ rest) originals changes =
      changes_of_current rest originals (note_current name now (lookup name originals) changes)

  unfoldable pub snapshot_get_changed_fields : EntitySnapshot → Object → Changes
  unfolding changes_of_originals changes_of_current extract_field_values
  snapshot_get_changed_fields s o =
      if not (s.entity_type == o.type)
      then []
      else (let current = extract_field_values o in
          changes_of_current current s.field_values
            (changes_of_originals s.field_values current []))

  unfoldable pub build_key : Object → Bytes
  build_key o = rt.type_string o.type ++ b'#' ∷ rt.value_string o.base.id

  unfoldable pub take_snapshot : Time → SnapshotManager → Object → SnapshotManager
  unfolding build_key new_entity_snapshot
  take_snapshot now sm o = insert (build_key o) (new_entity_snapshot now o) sm

  unfoldable pub is_dirty : SnapshotManager → Object → Bool
  unfolding build_key snapshot_is_dirty
  is_dirty sm o = elim (lookup (build_key o) sm) [
    | none ↦ false
    | some snapshot ↦ snapshot_is_dirty snapshot o
  ]

  unfoldable pub get_changed_fields : SnapshotManager → Object → Changes
  unfolding build_key snapshot_get_changed_fields
  get_changed_fields sm o = elim (lookup (build_key o) sm) [
    | none ↦ []
    | some snapshot ↦ snapshot_get_changed_fields snapshot o
  ]

  unfoldable pub remove_snapshot : SnapshotManager → Object → SnapshotManager
  unfolding build_key
  remove_snapshot sm o = remove (build_key o) sm
