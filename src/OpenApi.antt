-- ===== src/OpenApi.antt =====
-- openapi/v3/helper.go: the schema of a Go type, from its text. Anonymous structs are left out: there
-- the model has no schema.
pub mod Texts
pub mod Expected
pub mod RoundTrip
mod Tests
use toolkit.AstUtils.{is_varargs, to_slice}
use toolkit.Prelude.{
  ℕ, zero, suc, Bool, true, false, not, ◌&&◌, ◌||◌, leb, List, [], ◌∷◌, ◌++◌, Option, none, some,
  Bytes, bytes_eq, bytes_eq_instance, any, if◌then◌else◌, length,
}
use toolkit.Prelude.Map.{lookup}
use toolkit.Prelude.Text.{codes, has_prefix, trim_left, has_byte, after_first, after_last}
use toolkit.Query.{is_empty}

pub data SchemaType : Type 0 where
  integer_type string_type boolean_type number_type object_type : SchemaType

pub data Format : Type 0 where
  int32_format int64_format float_format double_format date_time_format binary_format
        decimal_format :
      Format

-- The schemas that the package builds, by their fields.
pub data Schema : Type 0 where
  -- `Type` and `Format`
  plain : SchemaType → Option Format → Schema
  -- `Ref`
  ref : Bytes → Schema
  -- a string with `Enum` and `Default`
  enum : List Bytes → Option Bytes → Schema
  -- an array with its `Items`
  array : Schema → Schema
  -- an object with `AdditionalProperties` and `XMapType`
  map_of : Schema → Bytes → Schema

abbrev pub any_schema : Schema
any_schema = plain SchemaType.object_type none

abbrev pub string_schema : Schema
string_schema = plain SchemaType.string_type none

-- The global `SchemaNames` and `Enums`, and the test for an anonymous struct, which is a regular
-- expression's.
pub record Known : Type 0 where
  pub schema_names : List Bytes
  pub enums : List (Bytes × List Bytes)
  pub is_anonymous : Bytes → Bool

abbrev pub one_of : List Bytes → Bytes → Bool
one_of names t = any (λ name. bytes_eq name t) names

-- The cases of `SchemaOf` before its default.
unfoldable pub builtin : Bytes → Option Schema
unfolding bytes_eq
builtin ft =
    if one_of
      (codes "int"
        ∷ codes "int8"
        ∷ codes "int16"
        ∷ codes "int32"
        ∷ codes "uint"
        ∷ codes "uint8"
        ∷ codes "uint16"
        ∷ codes "uint32"
        ∷ codes "byte"
        ∷ codes "rune"
        ∷ codes "complex64"
        ∷ codes "complex128"
        ∷ [])
      ft
    then some (plain SchemaType.integer_type (some Format.int32_format))
    else if one_of (codes "int64" ∷ codes "uint64" ∷ codes "uintptr" ∷ []) ft
    then some (plain SchemaType.integer_type (some Format.int64_format))
    else if one_of (codes "bool" ∷ []) ft
    then some (plain SchemaType.boolean_type none)
    else if one_of (codes "string" ∷ codes "error" ∷ codes "[]rune" ∷ codes "[]byte" ∷ []) ft
    then some string_schema
    else if one_of (codes "float32" ∷ []) ft
    then some (plain SchemaType.number_type (some Format.float_format))
    else if one_of (codes "float64" ∷ []) ft
    then some (plain SchemaType.number_type (some Format.double_format))
    else if one_of (codes "multipart.FileHeader" ∷ codes "v3.FileModel" ∷ []) ft
    then some (plain SchemaType.string_type (some Format.binary_format))
    else if one_of (codes "time.Time" ∷ codes "customtypes.Time" ∷ []) ft
    then some (plain SchemaType.string_type (some Format.date_time_format))
    else if one_of (codes "decimal.Decimal" ∷ []) ft
    then some (plain SchemaType.string_type (some Format.decimal_format))
    else none

-- The title of a named type: what stands behind the last dot.
unfoldable pub title_of : Bytes → Bytes
unfolding has_byte is_empty after_last
title_of ft =
    let title = if not (has_byte b'.' ft) then ft else [] in
    if is_empty title then after_last b'.' ft else title

-- `unicode.IsUpper(rune(title[0]))`: of a byte, and so Latin-1.
abbrev pub is_upper : Bytes → Bool
is_upper [] = false
is_upper (c ∷ s) =
    (leb b'A' c && leb c b'Z') || (leb 192 c && leb c 214) || (leb 216 c && leb c 222)

abbrev pub default_of : List Bytes → Option Bytes
default_of [] = none
default_of (value ∷ values) = some value

unfoldable pub enum_or_any : Option (List Bytes) → Schema
enum_or_any none = any_schema
enum_or_any (some values) = enum values (default_of values)

-- The end of `handleDefaultCase`.
unfoldable pub named_schema : Known → Bytes → Schema
unfolding is_empty enum_or_any lookup
named_schema k title =
    if is_empty title
    then any_schema
    else if is_upper title && one_of k.schema_names title
    then ref (codes "#/components/schemas/" ++ title)
    else enum_or_any (lookup title k.enums)

-- The text without the dots of varargs and without stars.
unfoldable pub normalize : Bytes → Bytes
unfolding is_varargs to_slice trim_left
normalize ft = trim_left b'*' (if is_varargs ft then to_slice ft else ft)

abbrev pub array_of : Option Schema → Option Schema
array_of none = none
array_of (some items) = some (array items)

abbrev pub map_to : Bytes → Option Schema → Option Schema
map_to ft none = none
map_to ft (some elem) = some (map_of elem ft)

module _ (k : Known) where
  -- `elem` is the schema of what stands behind the first bracket.
  unfoldable pub handle_default_case : Bytes → Option Schema → Option Schema
  unfolding has_prefix named_schema title_of
  handle_default_case ft elem =
      if has_prefix (codes "map[") ft
      then map_to ft elem
      else if has_prefix (codes "[") ft
      then array_of elem
      else if k.is_anonymous ft
      then none
      else some (named_schema k (title_of ft))

  -- `SchemaOf`, to a depth of nested types. `none`: the depth is used up, or there is an anonymous
  -- struct.
  unfoldable pub schema_at : ℕ → Bytes → Option Schema
  unfolding normalize builtin after_first handle_default_case
  schema_at zero ft = none
  schema_at (suc n) ft = elim (builtin (normalize ft)) [
    | some schema ↦ some schema
    | none ↦ handle_default_case (normalize ft) (schema_at n (after_first b']' (normalize ft)))
  ]

  -- Each nested type is shorter by a byte at least.
  unfoldable pub schema_of : Bytes → Option Schema
  unfolding schema_at
  schema_of ft = schema_at (suc (length ft)) ft
