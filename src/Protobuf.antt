-- ===== src/Protobuf.antt =====
-- protobuf/v3/message.go: the protobuf type of a Go type, from its text. Go's `Message` is split into
-- its fields and the flags beside them.
pub mod Stores
pub mod Messages
pub mod Types
pub mod Expected
pub mod Ensures
pub mod Gives
pub mod Cases
pub mod RoundTrip
pub mod Sound
pub mod Numbered
pub mod Structs
pub mod Rpcs
mod Tests
use toolkit.AstUtils.{FieldMeta, StructMeta, EnumMeta}
use toolkit.OpenApi.{one_of, title_of, is_upper, normalize}
use toolkit.Prelude.{
  ℕ, zero, suc, ◌+◌, Bool, true, false, not, ◌&&◌, ◌||◌, List, [], ◌∷◌, ◌++◌, Option, none, some,
  Bytes, bytes_eq, bytes_eq_instance, any, if◌then◌else◌,
}
use toolkit.Prelude.Map.{lookup}
use toolkit.Prelude.Text.{codes, has_prefix, trim_prefix, contains, cut, after_first, after_last}
use toolkit.Protobuf.Messages.{
  EnumField, Enum, MessageInfo, FieldInfo, Message, message, ProtobufType, message_type, enum_type,
  Fields, no_fields, field, info, get_name, inner, named, with_name, inner_message, scalar,
  struct_message, value_message, list_value,
}
use toolkit.Protobuf.Stores.{M, ◌>>=◌, return, done, panicked, too_deep, store_message, import_file}
use toolkit.Query.{is_empty}
use toolkit.Protobuf.Types.{
  Context, builtin, struct_file, import_struct, is_map_name, is_bad_key, map_message, key_and_value,
  nested_name, repeated_message, named_type,
}

module _ (c : Context) where
  abbrev before_comma : Bytes → Bytes
  before_comma s = elim (cut b',' s) [ none ↦ s | some parts ↦ parts.0 ]

  -- The name of a field, by its tag and its name in Go.
  unfoldable pub field_name_of : FieldMeta → Bytes
  unfolding is_empty bytes_eq
  field_name_of f =
      if is_empty f.tag then c.field_naming_func f.name else (elim (c.json_tag f.tag) [
        | none ↦ c.field_naming_func f.name
        | some json ↦
            if bytes_eq (before_comma json) (codes "-")
            then c.field_naming_func f.name
            else before_comma json
      ])

  -- An inner type takes the name of the field.
  abbrev pub renamed : Bytes → ProtobufType → ProtobufType
  renamed name (message_type m) =
      message_type (if (info m).is_inner then with_name (c.capitalize name) m else m)
  renamed name (enum_type e) = enum_type e

  abbrev pub field_info : FieldMeta → ℕ → FieldInfo
  field_info f index = record {
    name = field_name_of f;
    number = index;
    comments = f.comments;
    json_name = field_name_of f;
  }

  module _ (message_of : Bytes → M ProtobufType) where
    -- `newField`, for each field of a list; `index` is the number of the first.
    unfoldable pub new_fields : ℕ → List FieldMeta → M Fields
    unfolding field_name_of
    new_fields index [] = return no_fields
    new_fields index (f ∷ fs) = do
      t ← message_of f.type
      rest ← new_fields (index + 1) fs
      return (field (field_info f index) (renamed f.name t) rest)

    unfoldable pub new_message : StructMeta → M Message
    unfolding new_fields
    new_message meta = do
      content ← new_fields 1 meta.fields
      return (
          message
            (record (named (c.capitalize meta.name)) {
              comments = meta.comments;
              is_top_level = true;
            })
            content)

    unfoldable pub anonymous_message : Bytes → StructMeta → M ProtobufType
    unfolding new_message store_message
    anonymous_message json meta = do
      m ← new_message meta
      let name = codes "Anonystruct" ++ c.short_uuid json
      λ s. done (message_type (inner_message name m)) (store_message name (inner_message name m) s)

    -- The parts are missing if there is no closing bracket: the slice of the text then panics.
    unfoldable pub map_type_of : Option (Bytes × Bytes) → M ProtobufType
    unfolding map_message import_struct
    map_type_of none = λ s. panicked
    map_type_of (some (key, value)) = do
      k ← message_of key
      let any_value = import_struct value_message
      let mapped = message_of value >>= map_message k
      if is_bad_key k then any_value else mapped

    unfoldable pub handle_default_case : Bytes → M ProtobufType
    unfolding bytes_eq has_prefix cut map_type_of repeated_message anonymous_message named_type
        title_of import_struct after_first
    handle_default_case ft =
        if bytes_eq ft (codes "map[string]interface{}")
        then import_struct struct_message
        else if bytes_eq ft (codes "[]interface{}")
        then import_struct list_value
        else if has_prefix (codes "map[") ft
        then map_type_of (key_and_value ft)
        else if has_prefix (codes "[") ft
        then (do elem ← message_of (after_first b']' ft); repeated_message c elem)
        else (elim (c.anonymous ft) [
          | none ↦ named_type c (title_of ft)
          | some (json, meta) ↦ anonymous_message json meta
        ])

  -- `MessageOf`, to a depth of nested types.
  unfoldable pub message_at : ℕ → Bytes → M ProtobufType
  unfolding builtin normalize handle_default_case
  message_at zero ft = λ s. too_deep
  message_at (suc n) ft = elim (builtin (normalize ft)) [
    | some m ↦ return (message_type m)
    | none ↦ handle_default_case (message_at n) (normalize ft)
  ]

  -- `NewEnum`; `index` is the number of the first value.
  unfoldable pub new_enum_fields : ℕ → List Bytes → List EnumField
  new_enum_fields index [] = []
  new_enum_fields index (value ∷ values) =
      record { name = c.upper_snake value; number = index } ∷ new_enum_fields (index + 1) values

  unfoldable pub new_enum : EnumMeta → Enum
  unfolding new_enum_fields
  new_enum meta = record { name = c.capitalize meta.name; fields = new_enum_fields 0 meta.values }
