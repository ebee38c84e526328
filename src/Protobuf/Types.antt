-- ===== src/Protobuf/Types.antt =====
-- protobuf/v3/message.go: the built-in types, maps, lists and named types.
use toolkit.AstUtils.{StructMeta}
use toolkit.OpenApi.{one_of, is_upper}
use toolkit.Prelude.{
  Bool, true, false, not, ◌&&◌, List, [], ◌∷◌, ◌++◌, Option, none, some, Bytes, bytes_eq,
  bytes_eq_instance, if◌then◌else◌,
}
use toolkit.Prelude.Map.{lookup}
use toolkit.Prelude.Text.{codes, has_prefix, trim_prefix, contains, cut, after_last}
use toolkit.Protobuf.Messages.{
  Enum, MessageInfo, Message, message, ProtobufType, message_type, enum_type, no_fields, field,
  get_name, named, scalar, value_message,
}
use toolkit.Protobuf.Stores.{M, return, done, store_message, import_file}
use toolkit.Query.{is_empty}

-- The generator, the global `MessageNames` and `EnumStore`, and the libraries that the package calls.
pub record Context : Type 0 where
  pub field_naming_func : Bytes → Bytes
  pub annotated_only : Bool
  pub message_names : List Bytes
  pub enum_store : List (Bytes × Enum)
  -- `flect.Capitalize`, and `strcase.ToSnake` with `strings.ToUpper`
  pub capitalize : Bytes → Bytes
  pub upper_snake : Bytes → Bytes
  -- the JSON of an anonymous struct in a text, and what `json.Unmarshal` makes of it
  pub anonymous : Bytes → Option (Bytes × StructMeta)
  -- `shortuuid.NewWithNamespace`
  pub short_uuid : Bytes → Bytes
  -- the submatch of `json:"(.*?)"` in a tag
  pub json_tag : Bytes → Option Bytes

-- The cases of `MessageOf` before its default.
unfoldable pub builtin : Bytes → Option Message
unfolding bytes_eq
builtin ft =
    if one_of
      (codes "int"
        ∷ codes "int8"
        ∷ codes "int16"
        ∷ codes "int32"
        ∷ codes "byte"
        ∷ codes "rune"
        ∷ codes "complex64"
        ∷ codes "complex128"
        ∷ [])
      ft
    then some (scalar (codes "int32"))
    else if one_of (codes "uint" ∷ codes "uint8" ∷ codes "uint16" ∷ codes "uint32" ∷ []) ft
    then some (scalar (codes "uint32"))
    else if one_of (codes "int64" ∷ []) ft
    then some (scalar (codes "int64"))
    else if one_of (codes "uint64" ∷ codes "uintptr" ∷ []) ft
    then some (scalar (codes "uint64"))
    else if one_of (codes "bool" ∷ []) ft
    then some (scalar (codes "bool"))
    else if one_of (codes "string" ∷ codes "error" ∷ codes "[]rune" ∷ codes "decimal.Decimal" ∷ [])
        ft
    then some (scalar (codes "string"))
    else if one_of (codes "[]byte" ∷ codes "v3.FileModel" ∷ codes "os.File" ∷ []) ft
    then some (scalar (codes "bytes"))
    else if one_of (codes "float32" ∷ []) ft
    then some (scalar (codes "float"))
    else if one_of (codes "float64" ∷ []) ft
    then some (scalar (codes "double"))
    else if one_of (codes "time.Time" ∷ codes "gorm.DeletedAt" ∷ codes "customtypes.Time" ∷ []) ft
    then some (scalar (codes "string"))
    else none

abbrev pub struct_file : Bytes
struct_file = codes "google/protobuf/struct.proto"

-- One of the types of that file, which is imported.
unfoldable pub import_struct : Message → M ProtobufType
unfolding import_file
import_struct m s = done (message_type m) (import_file struct_file s)

abbrev pub is_map_name : ProtobufType → Bool
is_map_name t = has_prefix (codes "map<") (get_name t)

no_text : List Bytes → Bool
no_text [] = true
no_text (comment ∷ comments) = false

-- The flags of a scalar, and no comment.
unfoldable pub is_plain_scalar : MessageInfo → Bool
unfolding no_text
is_plain_scalar i =
    no_text i.comments
    && not i.is_inner
    && i.is_scalar
    && not i.is_map
    && not i.is_repeated
    && not i.is_top_level
    && not i.is_imported

-- `reflect.DeepEqual` with one of `Float`, `Double` and `Bytes`, each of which has only its name and
-- the flag of a scalar.
abbrev pub is_bad_key : ProtobufType → Bool
is_bad_key (enum_type e) = false
is_bad_key (message_type (message i (field f t rest))) = false
is_bad_key (message_type (message i no_fields)) =
    one_of (codes "float" ∷ codes "double" ∷ codes "bytes" ∷ []) i.name && is_plain_scalar i

-- `fmt.Sprintf("map<%s, %s>", key, value)`
abbrev pub map_name : Bytes → Bytes → Bytes
map_name key value = codes "map<" ++ (key ++ (b',' ∷ 32 ∷ (value ++ b'>' ∷ [])))

-- What a map becomes of its key and its value.
unfoldable pub map_message : ProtobufType → ProtobufType → M ProtobufType
unfolding import_struct has_prefix
map_message key value =
    if is_map_name value
    then import_struct value_message
    else return (
        message_type (
          message (record (named (map_name (get_name key) (get_name value))) { is_map = true })
            no_fields))

-- The parts of a text at its first closing bracket: the key of a map without `map[`, and its value.
unfoldable pub key_and_value : Bytes → Option (Bytes × Bytes)
unfolding cut trim_prefix
key_and_value ft = elim (cut b']' ft) [
  | none ↦ none
  | some parts ↦ some (trim_prefix (codes "map[") parts.0, parts.1)
]

module _ (c : Context) where
  -- The name of the message that holds a nested list.
  unfoldable pub nested_name : Bytes → Bytes
  nested_name name = codes "Nested" ++ c.capitalize (after_last b'.' name)

  abbrev pub nested_message : ProtobufType → Message
  nested_message elem =
      let name = nested_name (get_name elem) in
      let field_name = c.field_naming_func name in
      message (record (named name) { is_inner = true })
        (field (record { name = field_name; number = 1; comments = []; json_name = field_name })
          elem no_fields)

  abbrev repeated : Bytes → ProtobufType
  repeated name =
      message_type
        (message (record (named (codes "repeated " ++ name)) { is_repeated = true }) no_fields)

  -- What a slice becomes of its element.
  unfoldable pub repeated_message : ProtobufType → M ProtobufType
  unfolding import_struct has_prefix contains store_message nested_name
  repeated_message elem =
      if is_map_name elem
      then import_struct value_message
      else if contains (codes "repeated ") (get_name elem)
      then (λ s.
          done (repeated (nested_name (get_name elem)))
            (store_message (nested_name (get_name elem)) (nested_message elem) s))
      else return (repeated (get_name elem))

  -- The end of `handleDefaultCase`.
  unfoldable pub enum_or_value : Option Enum → M ProtobufType
  unfolding import_struct
  enum_or_value none = import_struct value_message
  enum_or_value (some e) = return (enum_type e)

  unfoldable pub named_type : Bytes → M ProtobufType
  unfolding enum_or_value is_empty lookup import_struct
  named_type title =
      if is_empty title
      then import_struct value_message
      else if is_upper title && one_of c.message_names title
      then return (
          message_type
            (message (record (named (c.capitalize title)) { is_top_level = true }) no_fields))
      else enum_or_value (lookup title c.enum_store)
