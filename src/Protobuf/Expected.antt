-- ===== src/Protobuf/Expected.antt =====
-- The protobuf type that a Go type is to have, for `MessageOf` of protobuf/v3/message.go.
use toolkit.AstUtils.{
  Expr, ident, star_expr, selector_expr, interface_type, slice_type, array_type, basic_lit,
  map_type, expr_string,
}
use toolkit.OpenApi.Expected.{is_word}
use toolkit.OpenApi.{one_of, is_upper}
use toolkit.Prelude.{
  Bool, true, false, not, ◌&&◌, ◌||◌, ◌∷◌, ◌++◌, none, some, Bytes, bytes_eq, bytes_eq_instance,
  if◌then◌else◌,
}
use toolkit.Prelude.Map.{lookup}
use toolkit.Prelude.Text.{codes, has_byte, contains, has_prefix}
use toolkit.Protobuf.Messages.{
  ProtobufType, message_type, enum_type, message, no_fields, named, get_name, scalar,
  struct_message, value_message, list_value,
}
use toolkit.Protobuf.Types.{Context, builtin, is_map_name, is_bad_key, map_name, nested_name}
use toolkit.Query.{is_empty}

-- A map, but for the keys and the values that protobuf does not allow in one.
unfoldable pub map_of : ProtobufType → ProtobufType → ProtobufType
unfolding has_prefix
map_of key value =
    if is_bad_key key || is_map_name value
    then message_type value_message
    else message_type (
        message (record (named (map_name (get_name key) (get_name value))) { is_map = true })
          no_fields)

-- A map, by its text: a struct holds any values by their names.
unfoldable pub map_by_text : Bytes → ProtobufType → ProtobufType → ProtobufType
unfolding bytes_eq map_of
map_by_text text key value =
    if bytes_eq text (codes "map[string]interface{}")
    then message_type struct_message
    else map_of key value

module _ (c : Context) where
  -- A list of a list is a list of the message that holds the inner list; there is no list of maps.
  unfoldable pub list_of : ProtobufType → ProtobufType
  unfolding has_prefix contains nested_name
  list_of elem =
      if is_map_name elem
      then message_type value_message
      else message_type (
          message
            (record (named (
              codes "repeated "
              ++ (if contains (codes "repeated ") (get_name elem)
                  then nested_name c (get_name elem)
                  else get_name elem))) { is_repeated = true })
            no_fields)

  -- A type that is not built in: a message, an enum, or any value.
  unfoldable pub declared : Bytes → ProtobufType
  unfolding is_empty lookup
  declared title =
      if is_empty title
      then message_type value_message
      else if is_upper title && one_of c.message_names title
      then message_type
          (message (record (named (c.capitalize title)) { is_top_level = true }) no_fields)
      else (elim (lookup title c.enum_store) [
        | none ↦ message_type value_message
        | some e ↦ enum_type e
      ])

  abbrev pub by_name : Bytes → Bytes → ProtobufType
  by_name text title = elim (builtin text) [ some m ↦ message_type m | none ↦ declared title ]

  -- A slice, by the text of its element: bytes, runes and any values are lists of their own.
  unfoldable pub slice_of : Bytes → ProtobufType → ProtobufType
  unfolding bytes_eq list_of
  slice_of text elem =
      if bytes_eq (codes "rune") text
      then message_type (scalar (codes "string"))
      else if bytes_eq (codes "byte") text
      then message_type (scalar (codes "bytes"))
      else if bytes_eq text (codes "interface{}")
      then message_type list_value
      else list_of elem

  -- The type that a Go type is to have.
  unfoldable pub expected : Expr → ProtobufType
  unfolding expr_string builtin declared slice_of map_by_text list_of
  expected (ident name) = by_name name name
  expected (selector_expr x sel) = by_name (expr_string (selector_expr x sel)) sel
  expected (star_expr x) = expected x
  expected (slice_type elt) = slice_of (expr_string elt) (expected elt)
  expected (array_type len elt) = list_of (expected elt)
  expected (map_type key value) =
      map_by_text (expr_string (map_type key value)) (expected key) (expected value)
  expected e = message_type value_message

  abbrev pub is_named : Bytes → Bool
  is_named t = elim (c.anonymous t) [ none ↦ true | some parts ↦ false ]

  -- The types that are covered.
  unfoldable pub is_covered : Expr → Bool
  unfolding is_word has_byte expr_string lookup bytes_eq
  is_covered (ident name) = is_word name && is_named name
  is_covered (selector_expr (ident pkg) sel) =
      is_word pkg && is_word sel && is_named (pkg ++ (b'.' ∷ sel))
  is_covered (star_expr x) = is_covered x
  is_covered (slice_type elt) = is_covered elt
  is_covered (array_type (basic_lit (d ∷ digits)) elt) =
      not (has_byte b']' (d ∷ digits)) && is_covered elt
  is_covered (map_type key value) =
      is_covered key && not (has_byte b']' (expr_string key)) && is_covered value
  is_covered interface_type =
      is_named (codes "interface{}")
      && (elim (lookup (codes "interface{}") c.enum_store) [ none ↦ true | some e ↦ false ])
  is_covered e = false
