-- ===== src/Protobuf/Rpcs.antt =====
-- protobuf/v3/service.go: the remote procedure of a method.
pub mod Available
use toolkit.AstUtils.{FieldMeta, MethodMeta}
use toolkit.Prelude.{
  ℕ, Bool, true, false, not, ◌&&◌, ◌||◌, List, [], ◌∷◌, ◌++◌, Option, none, some, Bytes, bytes_eq,
  bytes_eq_instance, any, if◌then◌else◌,
}
use toolkit.Prelude.Map.{lookup}
use toolkit.Prelude.Text.{codes, has_prefix, contains}
use toolkit.Protobuf.Messages.{
  Message, message, ProtobufType, message_type, enum_type, Fields, no_fields, field, info, named,
  with_name, empty_message,
}
use toolkit.Protobuf.Stores.{M, Stores, ◌>>=◌, return, done, store_message, import_file}
use toolkit.Protobuf.Types.{Context}
use toolkit.Protobuf.{new_fields}

-- `unary` is the zero value.
pub data StreamType : Type 0 where
  unary bi_stream client_stream server_stream : StreamType

pub record Rpc : Type 0 where
  pub name : Bytes
  pub request : Message
  pub response : Message
  pub comments : List Bytes
  pub stream_type : StreamType

abbrev pub empty_file : Bytes
empty_file = codes "google/protobuf/empty.proto"

abbrev pub is_stream : Message → Bool
is_stream m = has_prefix (codes "stream ") (info m).name

-- `reflect.DeepEqual` with `Empty`
abbrev no_text : List Bytes → Bool
no_text [] = true
no_text (comment ∷ comments) = false

unfoldable pub is_empty_message : Message → Bool
unfolding bytes_eq
is_empty_message (message i no_fields) =
    bytes_eq i.name (info empty_message).name
    && no_text i.comments
    && not i.is_inner
    && not i.is_scalar
    && not i.is_map
    && not i.is_repeated
    && i.is_top_level
    && i.is_imported
is_empty_message (message i (field f t rest)) = false

-- The parameters but for a context that comes first.
unfoldable pub without_context : List FieldMeta → List FieldMeta
unfolding bytes_eq
without_context [] = []
without_context (p ∷ ps) = if bytes_eq p.type (codes "context.Context") then ps else p ∷ ps

-- The results but for an error that comes last.
unfoldable pub without_error : List FieldMeta → List FieldMeta
unfolding bytes_eq
without_error [] = []
without_error (p ∷ []) = if bytes_eq p.type (codes "error") then [] else p ∷ []
without_error (p ∷ q ∷ ps) = p ∷ without_error (q ∷ ps)

-- A message on the top level stands for itself, as a stream if the name of the parameter says so.
unfoldable pub own_message : FieldMeta → ProtobufType → Option Message
unfolding has_prefix
own_message p (enum_type e) = none
own_message p (message_type m) =
    if (info m).is_top_level
    then some (
        if has_prefix (codes "stream") p.name
        then with_name (codes "stream " ++ (info m).name) m
        else m)
    else none

unfoldable pub store_new : Message → Stores → Stores
unfolding lookup store_message
store_new m s = elim (lookup (info m).name s.messages) [
  | none ↦ store_message (info m).name m s
  | some old ↦ s
]

-- Imports what the message needs, and stores it unless it is a stream, imported or there already.
unfoldable pub register_message : Message → M Message
unfolding is_empty_message import_file has_prefix store_new
register_message m s =
    let s' = if is_empty_message m then import_file empty_file s else s in
    done m (if not (is_stream m) && not (info m).is_imported then store_new m s' else s')

unfoldable pub stream_type_of : Bool → Bool → StreamType
stream_type_of true true = bi_stream
stream_type_of true false = client_stream
stream_type_of false true = server_stream
stream_type_of false false = unary

unfoldable pub is_annotated : MethodMeta → Bool
unfolding contains
is_annotated method = any (contains (codes "@grpc")) method.comments

module _ (c : Context) (message_of : Bytes → M ProtobufType) where
  -- A message with a field for each parameter.
  unfoldable pub fields_message : Bytes → List FieldMeta → M Message
  unfolding new_fields
  fields_message name ps = do
    content ← new_fields c message_of 1 ps
    return (message (record (named (c.capitalize name)) { is_top_level = true }) content)

  -- The rest of `newRequest` and `newResponse`, where the parameters that do not count are dropped.
  unfoldable pub message_of_params : Bytes → List FieldMeta → M Message
  unfolding fields_message own_message
  message_of_params name [] = return empty_message
  message_of_params name (p ∷ []) = do
    t ← message_of p.type
    elim (own_message p t) [ some m ↦ return m | none ↦ fields_message name (p ∷ []) ]
  message_of_params name (p ∷ q ∷ ps) = fields_message name (p ∷ q ∷ ps)

  unfoldable pub new_request : Bytes → List FieldMeta → M Message
  unfolding message_of_params without_context
  new_request rpc_name params =
      message_of_params (rpc_name ++ codes "Request") (without_context params)

  unfoldable pub new_response : Bytes → List FieldMeta → M Message
  unfolding message_of_params without_error
  new_response rpc_name params =
      message_of_params (rpc_name ++ codes "Response") (without_error params)

  unfoldable pub build_rpc : MethodMeta → M Rpc
  unfolding new_request new_response register_message stream_type_of has_prefix
  build_rpc method = do
    let rpc_name = c.capitalize method.name ++ codes "Rpc"
    request ← new_request rpc_name method.params >>= register_message
    response ← new_response rpc_name method.results >>= register_message
    return (record {
      name = rpc_name;
      request = request;
      response = response;
      comments = method.comments;
      stream_type = stream_type_of (is_stream request) (is_stream response);
    })

  -- `NewRpc`; `none` is nil.
  unfoldable pub new_rpc : MethodMeta → M (Option Rpc)
  unfolding is_annotated build_rpc
  new_rpc method =
      let built = build_rpc method >>= λ rpc. return (some rpc) in
      if c.annotated_only && not (is_annotated method) then return none else built
