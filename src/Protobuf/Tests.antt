-- ===== src/Protobuf/Tests.antt =====
-- The protobuf types of concrete Go types, structs and methods (protobuf/v3).
use toolkit.OpenApi.{normalize}
use toolkit.AstUtils.{
  ident, slice_type, map_type, star_expr, expr_string, FieldMeta, StructMeta, MethodMeta, ellipsis,
}
use toolkit.Prelude.{◌≡◌, refl, true, false, [], ◌∷◌, none, some, arith, Bytes}
use toolkit.Prelude.Text.{codes, trim_space}
use toolkit.Protobuf.Expected.{expected, is_covered}
use toolkit.Protobuf.Gives.{Gives}
use toolkit.Protobuf.Messages.{
  ProtobufType, Message, value_message, message, message_type, no_fields, field, named,
  empty_message,
}
use toolkit.Protobuf.RoundTrip.{message_at-expr_string}
use toolkit.Protobuf.Rpcs.Available.{IsNewRpc, new_rpc-IsNewRpc}
use toolkit.Protobuf.Rpcs.{new_rpc, Rpc, StreamType}
use toolkit.Protobuf.Numbered.{IsMessageOf}
use toolkit.Protobuf.Sound.{IsSound}
use toolkit.Protobuf.Stores.{Stores, done}
use toolkit.Protobuf.Structs.{message_at-IsSound, new_message-IsMessage}
use toolkit.Protobuf.Types.{Context}
use toolkit.Protobuf.{message_at, new_message}

abbrev context : Context
context = record {
  field_naming_func = λ name. name;
  annotated_only = false;
  message_names = codes "User" ∷ [];
  enum_store = [];
  capitalize = λ name. name;
  upper_snake = λ name. name;
  anonymous = λ text. none;
  short_uuid = λ text. text;
  json_tag = λ tag. none;
}

abbrev stores : Stores
stores = record { messages = []; imports = [] }

-- `map[string][]User`
abbrev users : Bytes
users = codes "map[string][]User"

message_at-expr_string_example :
    Gives
      (message_at context 20 (
        expr_string
          (map_type (ident (codes "string")) (slice_type (star_expr (ident (codes "User")))))))
      (expected context
        (map_type (ident (codes "string")) (slice_type (star_expr (ident (codes "User"))))))
    × Gives
        (message_at context 21 (
          expr_string (
            ellipsis
              (map_type (ident (codes "string")) (slice_type (star_expr (ident (codes "User"))))))))
        (expected context (
          slice_type
            (map_type (ident (codes "string")) (slice_type (star_expr (ident (codes "User")))))))
unfolding is_covered expr_string
message_at-expr_string_example =
    message_at-expr_string context
      (map_type (ident (codes "string")) (slice_type (star_expr (ident (codes "User"))))) 20 refl
      (omega arith)

-- A list of lists repeats the message that holds the inner list; its name has a space.
abbrev inner_list : Bytes
inner_list = codes "Nestedrepeated int32"

abbrev nested_stores : Stores
nested_stores = record stores {
  messages =
      (
        inner_list,
        message (record (named inner_list) { is_inner = true })
            (field (record { name = inner_list; number = 1; comments = []; json_name = inner_list })
              (message_type (
                message (record (named (codes "repeated int32")) { is_repeated = true }) no_fields))
              no_fields),
      )
      ∷ [];
}

abbrev list_of_lists : ProtobufType
list_of_lists = message_type (
    message (record (named (codes "repeated Nestedrepeated int32")) { is_repeated = true })
      no_fields)

list_of_lists_made :
    message_at context 5 (codes "[][]int") stores ≡ done list_of_lists nested_stores
unfolding message_at
list_of_lists_made = refl

message_at-IsSound_example :
    IsSound (message_at context 4) (normalize (codes "[][]int")) stores list_of_lists nested_stores
message_at-IsSound_example =
    message_at-IsSound context 4 (codes "[][]int") stores nested_stores list_of_lists
      list_of_lists_made

-- A struct with a field of any value, and a method with a parameter of that struct's name.
abbrev any_field : FieldMeta
any_field = record {
  name = codes "Data";
  type = codes "interface{}";
  tag = [];
  comments = [];
  is_export = true;
  doc_name = [];
}

abbrev any_struct : StructMeta
any_struct = record { name = codes "Box"; fields = any_field ∷ []; comments = []; is_export = true }

abbrev imported_struct : Stores
imported_struct = record stores { imports = (codes "google/protobuf/struct.proto", tt) ∷ [] }

abbrev any_message : Message
any_message =
    message (record (named (codes "Box")) { is_top_level = true })
      (field (record { name = codes "Data"; number = 1; comments = []; json_name = codes "Data" })
        (message_type value_message) no_fields)

any_message_made :
    new_message context (message_at context 3) any_struct stores ≡ done any_message imported_struct
unfolding new_message message_at trim_space
any_message_made = refl

new_message-IsMessage_example :
    IsMessageOf context (message_at context 3) any_struct stores any_message imported_struct
new_message-IsMessage_example =
    new_message-IsMessage context 3 any_struct stores imported_struct any_message any_message_made

-- `Save(ctx context.Context, streamUsers *User) error`
abbrev save : MethodMeta
save = record {
  name = codes "Save";
  params =
      record {
        name = codes "ctx";
        type = codes "context.Context";
        tag = [];
        comments = [];
        is_export = false;
        doc_name = [];
      }
      ∷ record {
        name = codes "streamUsers";
        type = codes "*User";
        tag = [];
        comments = [];
        is_export = false;
        doc_name = [];
      }
      ∷ [];
  results =
      record {
        name = [];
        type = codes "error";
        tag = [];
        comments = [];
        is_export = false;
        doc_name = [];
      }
      ∷ [];
  comments = [];
}

abbrev save_rpc : Rpc
save_rpc = record {
  name = codes "SaveRpc";
  request = message (record (named (codes "stream User")) { is_top_level = true }) no_fields;
  response = empty_message;
  comments = [];
  stream_type = StreamType.client_stream;
}

abbrev imported_empty : Stores
imported_empty = record stores { imports = (codes "google/protobuf/empty.proto", tt) ∷ [] }

save_rpc_made :
    new_rpc context (message_at context 4) save stores ≡ done (some save_rpc) imported_empty
unfolding new_rpc message_at trim_space
save_rpc_made = refl

new_rpc-IsNewRpc_example : IsNewRpc context save stores (some save_rpc) imported_empty
new_rpc-IsNewRpc_example =
    new_rpc-IsNewRpc context 4 save stores imported_empty (some save_rpc) save_rpc_made
