-- ===== src/Protobuf/Messages.antt =====
-- The types of protobuf/v3/message.go, and the messages that are always there.
use toolkit.Prelude.{ℕ, Bool, true, false, List, [], Bytes}
use toolkit.Prelude.Text.{codes}

pub record EnumField : Type 0 where
  pub name : Bytes
  pub number : ℕ

pub record Enum : Type 0 where
  pub name : Bytes
  pub fields : List EnumField

-- The fields of `Message` but for `Fields`.
pub record MessageInfo : Type 0 where
  pub name : Bytes
  pub comments : List Bytes
  pub is_inner : Bool
  pub is_scalar : Bool
  pub is_map : Bool
  pub is_repeated : Bool
  pub is_top_level : Bool
  pub is_imported : Bool

-- The fields of `Field` but for `Type`.
pub record FieldInfo : Type 0 where
  pub name : Bytes
  pub number : ℕ
  pub comments : List Bytes
  pub json_name : Bytes

mutual
  pub data Message : Type 0 where
    message : MessageInfo → Fields → Message

  -- The interface, by its two implementations.
  pub data ProtobufType : Type 0 where
    message_type : Message → ProtobufType
    enum_type : Enum → ProtobufType

  pub data Fields : Type 0 where
    no_fields : Fields
    field : FieldInfo → ProtobufType → Fields → Fields

abbrev pub info : Message → MessageInfo
info (message i _) = i

abbrev pub get_name : ProtobufType → Bytes
get_name (message_type m) = (info m).name
get_name (enum_type e) = e.name

abbrev pub inner : ProtobufType → Bool
inner (message_type m) = (info m).is_inner
inner (enum_type e) = false

-- A message of which nothing but the name is set.
abbrev pub named : Bytes → MessageInfo
named name = record {
  name = name;
  comments = [];
  is_inner = false;
  is_scalar = false;
  is_map = false;
  is_repeated = false;
  is_top_level = false;
  is_imported = false;
}

abbrev pub with_name : Bytes → Message → Message
with_name name (message i content) = message (record i { name = name }) content

-- An anonymous struct becomes an inner message under a name made of its JSON.
abbrev pub inner_message : Bytes → Message → Message
inner_message name (message i content) =
    message (record i { name = name; is_inner = true; is_top_level = false }) content

abbrev pub scalar : Bytes → Message
scalar name = message (record (named name) { is_scalar = true }) no_fields

abbrev pub imported : Bytes → Message
imported name = message (record (named name) { is_top_level = true; is_imported = true }) no_fields

-- `Struct`, `Value`, `ListValue` and `Empty`
abbrev pub struct_message : Message
struct_message = imported (codes "google.protobuf.Struct")

abbrev pub value_message : Message
value_message = imported (codes "google.protobuf.Value")

abbrev pub list_value : Message
list_value = imported (codes "google.protobuf.ListValue")

abbrev pub empty_message : Message
empty_message = imported (codes "google.protobuf.Empty")
