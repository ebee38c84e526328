-- ===== src/UnitOfWork/Entity.antt =====
-- unitofwork/entity.go: the entity interfaces and `BaseEntity`, which entities embed. An entity is a
-- pointer into a heap of objects; an object says which of the optional interfaces it has.
use toolkit.Prelude.{ℕ, ◌+◌, ◌%◌, ◌^◌, Bool, List, [], Bytes, ◌==◌, if◌then◌else◌}

-- A `reflect.Type`, by its identity.
abbrev pub EntityType : Type 0
EntityType = ℕ

-- A pointer to an entity.
abbrev pub Ref : Type 0
Ref = ℕ

abbrev pub Time : Type 0
Time = ℕ

-- A value in an `interface{}`: nil, or a dynamic type with some content.
pub data Value : Type 0 where
  nil : Value
  value : ℕ → ℕ → Value

-- gorm.DeletedAt
pub record DeletedAt : Type 0 where
  pub time : Time
  pub valid : Bool

-- `revision` is an int64, by its bit pattern.
pub record BaseEntity : Type 0 where
  pub id : ℕ
  pub created_at : Time
  pub updated_at : Time
  pub deleted_at : DeletedAt
  pub revision : ℕ

-- `reflect.Kind`: the kinds that the package asks for.
pub data Kind : Type 0 where
  slice_kind map_kind chan_kind func_kind ptr_kind struct_kind other_kind : Kind

-- A field of the struct, as `reflect` shows it.
pub record Field : Type 0 where
  pub name : Bytes
  pub can_interface : Bool
  pub ignored : Bool
  pub kind : Kind
  pub is_time : Bool
  pub content : Value

pub record Object : Type 0 where
  pub type : EntityType
  pub base : BaseEntity
  pub fields : List Field
  pub is_validatable : Bool
  pub has_timestamps : Bool
  pub has_revision : Bool
  pub is_soft_delete : Bool

abbrev pub Heap : Type 0
Heap = Ref → Object

-- A write through a pointer.
abbrev pub store : Heap → Ref → BaseEntity → Heap
store h r b s = if s == r then record (h r) { base = b } else h s

-- reflect.TypeOf(entity)
abbrev pub type_of : Heap → Ref → EntityType
type_of h r = (h r).type

abbrev pub get_id : Heap → Ref → ℕ
get_id h r = (h r).base.id

abbrev pub get_table_name : BaseEntity → Bytes
get_table_name b = []

abbrev pub get_revision : BaseEntity → ℕ
get_revision b = b.revision

abbrev pub get_created_at : BaseEntity → Time
get_created_at b = b.created_at

abbrev pub get_updated_at : BaseEntity → Time
get_updated_at b = b.updated_at

abbrev pub get_deleted_at : BaseEntity → DeletedAt
get_deleted_at b = b.deleted_at

unfoldable pub set_id : BaseEntity → ℕ → BaseEntity
set_id b id = record b { id = id }

unfoldable pub is_new : BaseEntity → Bool
is_new b = b.id == 0

unfoldable pub set_revision : BaseEntity → ℕ → BaseEntity
set_revision b revision = record b { revision = revision }

-- int64 addition wraps.
unfoldable pub get_revision_next : BaseEntity → ℕ
get_revision_next b = (b.revision + 1) % 2 ^ 64

unfoldable pub set_created_at : BaseEntity → Time → BaseEntity
set_created_at b t = record b { created_at = t }

unfoldable pub set_updated_at : BaseEntity → Time → BaseEntity
set_updated_at b t = record b { updated_at = t }

unfoldable pub set_deleted_at : BaseEntity → DeletedAt → BaseEntity
set_deleted_at b d = record b { deleted_at = d }

unfoldable pub is_deleted : BaseEntity → Bool
is_deleted b = b.deleted_at.valid
