-- ===== src/Protobuf/Rpcs/Available.antt =====
-- `NewRpc` of protobuf/v3/service.go: what it refers to is there.
use toolkit.AstUtils.{FieldMeta, MethodMeta}
use toolkit.Prelude.{
  ◌≡◌, ◌⊎◌, refl, sym, ap, ◌∙◌, inl, inr, ℕ, Bool, true, false, not, ◌&&◌, List, [], ◌∷◌, ◌++◌,
  Option, none, some, Bytes, arith, bytes_eq, bytes_eq_instance, if◌then◌else◌, Bool-cases,
  Option-cases,
}
use toolkit.Prelude.Map.{lookup}
use toolkit.Prelude.Text.{codes}
use toolkit.Protobuf.Cases.{false-not_true}
use toolkit.Protobuf.Ensures.{
  Ensures, Ensures-bind, Ensures-done, is_imported_file, is_stored, Grows, Grows-refl, Grows-trans,
  Grows-import_file, is_imported_file-import_file, Grows-store_message, is_stored-store_message,
}
use toolkit.Protobuf.Numbered.{AreFields, new_fields-AreFields}
use toolkit.Protobuf.Messages.{Message, message, ProtobufType, message_type, enum_type, info}
use toolkit.Protobuf.Rpcs.{
  Rpc, empty_file, is_stream, is_empty_message, own_message, fields_message, message_of_params,
  new_request, new_response, without_context, without_error, store_new, register_message,
  StreamType, unary, bi_stream, client_stream, server_stream, stream_type_of, is_annotated,
  build_rpc, new_rpc,
}
use toolkit.Protobuf.Sound.{flag, IsKept}
use toolkit.Protobuf.Stores.{Stores, Outcome, done, M, ◌>>=◌, return, import_file}
use toolkit.Protobuf.Structs.{message_at-IsKept}
use toolkit.Protobuf.Types.{Context, struct_file}
use toolkit.Protobuf.{new_fields, message_at}

-- A message that was made, before it is registered.
record IsMade (s : Stores) (m : Message) (s' : Stores) : Type 0 where
  grows : Grows s s'
  imports :
      (info m).is_imported ≡ true
      → (is_empty_message m ≡ true) ⊎ (is_imported_file struct_file s' ≡ true)

-- A message that an rpc may refer to: it is a stream, or stored, or from a file that is imported.
pub record IsAvailable (m : Message) (s : Stores) : Type 0 where
  pub stored : is_stream m ≡ false → (info m).is_imported ≡ false → is_stored (info m).name s ≡ true
  pub imports :
      (info m).is_imported ≡ true
      → ((is_empty_message m ≡ true) × (is_imported_file empty_file s ≡ true))
        ⊎ (is_imported_file struct_file s ≡ true)

IsAvailable-Grows : (m : Message) (s s' : Stores) → IsAvailable m s → Grows s s' → IsAvailable m s'
IsAvailable-Grows m s s' a g = record {
  stored = λ stream outer. g.messages (info m).name (a.stored stream outer);
  imports = λ is. elim (a.imports is) [
    | inl empty ↦ inl (empty.0, g.imports empty_file empty.1)
    | inr struct ↦ inr (g.imports struct_file struct)
  ];
}

own_message-imported :
    (p : FieldMeta) (t : ProtobufType) (m : Message)
    → own_message p t ≡ some m
    → (info m).is_imported ≡ flag (λ i. i.is_imported) t
unfolding own_message
own_message-imported p (enum_type e) m own = cc
own_message-imported p (message_type (message i content)) (message j rest) own = ground (arith, own)

Grows-store_new : (m : Message) (s : Stores) → Grows s (store_new m s)
unfolding store_new
Grows-store_new m s = elim (Option-cases (lookup (info m).name s.messages)) [
  | inl missing ↦ rw (missing, store_new) (Grows-store_message (info m).name m s)
  | inr (old, found) ↦ rw (found, store_new) (Grows-refl s)
]

is_stored-store_new : (m : Message) (s : Stores) → is_stored (info m).name (store_new m s) ≡ true
unfolding store_new
is_stored-store_new m s = elim (Option-cases (lookup (info m).name s.messages)) [
  | inl missing ↦ rw (missing, store_new) (is_stored-store_message (info m).name m s)
  | inr (old, found) ↦
      rw (found, store_new) (ap (λ o. elim o [ none ↦ false | some x ↦ true ]) found)
]

-- The import of empty.proto.
abbrev with_empty : Message → Stores → Stores
with_empty m s = if is_empty_message m then import_file empty_file s else s

Grows-with_empty : (m : Message) (s : Stores) → Grows s (with_empty m s)
Grows-with_empty m s = elim (Bool-cases (is_empty_message m)) [
  | inl empty ↦ rw (empty) (Grows-import_file empty_file s)
  | inr other ↦ rw (other) (Grows-refl s)
]

with_empty-imported :
    (m : Message) (s : Stores)
    → is_empty_message m ≡ true
    → is_imported_file empty_file (with_empty m s) ≡ true
with_empty-imported m s empty = rw (empty) (is_imported_file-import_file empty_file s)

with_empty-imports :
    (s : Stores) (m : Message) (s' : Stores)
    → IsMade s m s'
    → (info m).is_imported ≡ true
    → ((is_empty_message m ≡ true) × (is_imported_file empty_file (with_empty m s') ≡ true))
      ⊎ (is_imported_file struct_file (with_empty m s') ≡ true)
with_empty-imports s m s' made is = elim (made.imports is) [
  | inl empty ↦ inl (empty, with_empty-imported m s' empty)
  | inr struct ↦ inr ((Grows-with_empty m s').imports struct_file struct)
]

own-or-not : (a b : Bool) → (not a && not b) ≡ false → a ≡ false → b ≡ false → false ≡ true
own-or-not a b other no_a no_b = ground (arith, other, no_a, no_b)

own_flags : (a b : Bool) → (not a && not b) ≡ true → (a ≡ false) × (b ≡ false)
own_flags a b own = (ground (arith, own), ground (arith, own))

register_message-IsAvailable :
    (s : Stores) (m : Message) (s' : Stores)
    → IsMade s m s'
    → Ensures (λ r t. Grows s t × IsAvailable r t) (register_message m s')
unfolding register_message
register_message-IsAvailable s m s' made =
    let imported = with_empty m s' in
    let later = Grows-trans s s' imported made.grows (Grows-with_empty m s') in
    elim (Bool-cases (not (is_stream m) && not (info m).is_imported)) [
      | inl own ↦ rw (own) (
        Grows-trans s imported (store_new m imported) later (Grows-store_new m imported),
        record {
          stored = λ stream outer. is_stored-store_new m imported;
          imports = λ is. absurd (false-not_true (sym (own_flags _ _ own).1 ∙ is));
        },
      )
      | inr other ↦ rw (other) (
        later,
        record {
          stored = λ stream outer. absurd (false-not_true (own-or-not _ _ other stream outer));
          imports = with_empty-imports s m s' made;
        },
      )
    ]

-- The types of stream in which the client, or the server, sends more than one message.
abbrev pub streams_requests : StreamType → Bool
streams_requests bi_stream = true
streams_requests client_stream = true
streams_requests server_stream = false
streams_requests unary = false

abbrev pub streams_responses : StreamType → Bool
streams_responses bi_stream = true
streams_responses client_stream = false
streams_responses server_stream = true
streams_responses unary = false

streams_requests-stream_type_of : (a b : Bool) → streams_requests (stream_type_of a b) ≡ a
unfolding stream_type_of
streams_requests-stream_type_of true true = refl
streams_requests-stream_type_of true false = refl
streams_requests-stream_type_of false true = refl
streams_requests-stream_type_of false false = refl

streams_responses-stream_type_of : (a b : Bool) → streams_responses (stream_type_of a b) ≡ b
unfolding stream_type_of
streams_responses-stream_type_of true true = refl
streams_responses-stream_type_of true false = refl
streams_responses-stream_type_of false true = refl
streams_responses-stream_type_of false false = refl

-- An rpc whose messages are available, and whose stream type is theirs.
pub record IsRpc (s : Stores) (rpc : Rpc) (s' : Stores) : Type 0 where
  pub grows : Grows s s'
  pub request : IsAvailable rpc.request s'
  pub response : IsAvailable rpc.response s'
  pub client : streams_requests rpc.stream_type ≡ is_stream rpc.request
  pub server : streams_responses rpc.stream_type ≡ is_stream rpc.response

-- What `NewRpc` leaves: an rpc, or nothing where only annotated methods count.
abbrev pub IsNewRpc : Context → MethodMeta → Stores → Option Rpc → Stores → Type 0
IsNewRpc c method s none s' = (c.annotated_only ≡ true) × (is_annotated method ≡ false) × (s' ≡ s)
IsNewRpc c method s (some rpc) s' = IsRpc s rpc s'

module _ (c : Context) (message_of : Bytes → M ProtobufType)
    (sound : (ft : Bytes) (s : Stores) → Ensures (IsKept s) (message_of ft s)) where
  fields_message-IsMade :
      (name : Bytes) (ps : List FieldMeta) (s : Stores)
      → Ensures (IsMade s) (fields_message c message_of name ps s)
  unfolding fields_message
  fields_message-IsMade name ps s =
      Ensures-bind (λ content s'. Grows s s' × AreFields c message_of 1 ps content s s') (IsMade s)
        (new_fields c message_of 1 ps) _ s (new_fields-AreFields c message_of sound 1 ps s)
        (λ content s' fields. record {
          grows = fields.0;
          imports = λ is. absurd (false-not_true is);
        })

  later-IsMade :
      (s s' : Stores) (o : Outcome Message)
      → Grows s s'
      → Ensures (IsMade s') o
      → Ensures (IsMade s) o
  later-IsMade s s' (done m u) grows later = record {
    grows = Grows-trans s s' u grows later.grows;
    imports = later.imports;
  }
  later-IsMade s s' Outcome.panicked grows later = tt
  later-IsMade s s' Outcome.too_deep grows later = tt

  own-IsMade :
      (name : Bytes) (p : FieldMeta) (s : Stores) (t : ProtobufType) (s' : Stores)
      (o : Option Message)
      → own_message p t ≡ o
      → IsKept s t s'
      → Ensures (IsMade s) (
          (elim o as (λ x. M Message) [
            | some m ↦ return m
            | none ↦ fields_message c message_of name (p ∷ [])
          ])
            s')
  own-IsMade name p s t s' none own made =
      later-IsMade s s' (fields_message c message_of name (p ∷ []) s') made.grows
        (fields_message-IsMade name (p ∷ []) s')
  own-IsMade name p s t s' (some m) own made = record {
    grows = made.grows;
    imports = λ is. inr (made.imports (sym (own_message-imported p t m own) ∙ is));
  }

  message_of_params-IsMade :
      (name : Bytes) (ps : List FieldMeta) (s : Stores)
      → Ensures (IsMade s) (message_of_params c message_of name ps s)
  unfolding message_of_params is_empty_message bytes_eq
  message_of_params-IsMade name [] s = record { grows = Grows-refl s; imports = λ is. inl refl }
  message_of_params-IsMade name (p ∷ []) s =
      Ensures-bind (IsKept s) (IsMade s) (message_of p.type) _ s (sound p.type s)
        (λ t s' made. own-IsMade name p s t s' (own_message p t) refl made)
  message_of_params-IsMade name (p ∷ q ∷ ps) s = fields_message-IsMade name (p ∷ q ∷ ps) s

  -- A message that is made and registered.
  registered-IsAvailable :
      (name : Bytes) (ps : List FieldMeta) (s : Stores)
      → Ensures
          (λ r t. Grows s t × IsAvailable r t)
          ((message_of_params c message_of name ps >>= register_message) s)
  registered-IsAvailable name ps s =
      Ensures-bind (IsMade s) (λ r t. Grows s t × IsAvailable r t)
        (message_of_params c message_of name ps) register_message s
        (message_of_params-IsMade name ps s) (λ m s' made. register_message-IsAvailable s m s' made)

  build_rpc-IsRpc :
      (method : MethodMeta) (s : Stores) → Ensures (IsRpc s) (build_rpc c message_of method s)
  unfolding build_rpc new_request new_response
  build_rpc-IsRpc method s =
      let name = c.capitalize method.name ++ codes "Rpc" in
      Ensures-bind (λ r t. Grows s t × IsAvailable r t) (IsRpc s)
        (new_request c message_of name method.params >>= register_message) _ s
        (registered-IsAvailable (name ++ codes "Request") (without_context method.params) s)
        (λ request s1 asked.
          Ensures-bind (λ r t. Grows s1 t × IsAvailable r t) (IsRpc s)
            (new_response c message_of name method.results >>= register_message) _ s1
            (registered-IsAvailable (name ++ codes "Response") (without_error method.results) s1)
            (λ response s2 answered. record {
              grows = Grows-trans s s1 s2 asked.0 answered.0;
              request = IsAvailable-Grows request s1 s2 asked.1 answered.0;
              response = answered.1;
              client = streams_requests-stream_type_of (is_stream request) (is_stream response);
              server = streams_responses-stream_type_of (is_stream request) (is_stream response);
            }))

  skipped : (a b : Bool) → (a && not b) ≡ true → (a ≡ true) × (b ≡ false)
  skipped a b skip = (ground (arith, skip), ground (arith, skip))

  new_rpc-Ensures :
      (method : MethodMeta) (s : Stores)
      → Ensures (IsNewRpc c method s) (new_rpc c message_of method s)
  unfolding new_rpc
  new_rpc-Ensures method s = elim (Bool-cases (c.annotated_only && not (is_annotated method))) [
    | inl skip ↦ rw (skip) ((skipped _ _ skip).0, (skipped _ _ skip).1, refl)
    | inr build ↦ rw (build) (
        Ensures-bind (IsRpc s) (IsNewRpc c method s) (build_rpc c message_of method) _ s
          (build_rpc-IsRpc method s) (λ rpc s' made. made))
  ]

-- `NewRpc` that returns: there is no rpc only where annotated methods alone count and the method is not
-- annotated, and then the stores stay. Otherwise the request and the response of the rpc are each a
-- stream, or stored under their names, or imported: `Empty` with empty.proto, another type with
-- struct.proto. The client streams exactly if the request is a
-- stream, and the server exactly if the response is, and no import and no message is lost.
pub new_rpc-IsNewRpc :
    (c : Context) (n : ℕ) (method : MethodMeta) (s s' : Stores) (rpc : Option Rpc)
    → new_rpc c (message_at c n) method s ≡ done rpc s'
    → IsNewRpc c method s rpc s'
new_rpc-IsNewRpc c n method s s' rpc returned =
    Ensures-done (IsNewRpc c method s) (new_rpc c (message_at c n) method s) rpc s'
      (new_rpc-Ensures c (message_at c n) (message_at-IsKept c n) method s) returned
