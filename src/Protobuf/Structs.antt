-- ===== src/Protobuf/Structs.antt =====
-- `MessageOf` and `NewMessage` of protobuf/v3/message.go on any text and any struct: the types that
-- they make, and the stores.
use toolkit.AstUtils.{StructMeta}
use toolkit.OpenApi.{title_of, normalize}
use toolkit.Prelude.{
  ◌≡◌, refl, inl, inr, ℕ, zero, suc, true, false, Option, none, some, Bytes, bytes_eq,
  bytes_eq_instance, Bool-cases,
}
use toolkit.Prelude.Text.{codes, has_prefix, after_first}
use toolkit.Protobuf.Numbered.{IsMessageOf, new_message-IsMessageOf}
use toolkit.Protobuf.Ensures.{
  Ensures-map, Ensures-made, Ensures, Ensures-bind, Ensures-done, Grows, Grows-refl, Grows-trans,
  Grows-store_message,
}
use toolkit.Protobuf.Messages.{
  Message, message, ProtobufType, message_type, inner_message, struct_message, value_message,
  list_value,
}
use toolkit.Protobuf.Stores.{Stores, Outcome, done, M, ◌>>=◌, return, store_message}
use toolkit.Protobuf.Types.{
  Context, builtin, is_bad_key, map_message, repeated_message, named_type, key_and_value,
}
use toolkit.Protobuf.{new_message, anonymous_message, map_type_of, handle_default_case, message_at}
use toolkit.Protobuf.Sound.{
  IsKept, IsSound, IsSound-IsKept, is_quiet, quiet-IsSound, import_struct-IsSound,
  map_message-IsSound, quiet_if, repeated_message-IsSound, named_type-IsSound,
}

module _ (c : Context) where
  -- From here on the calls for the parts are any code that loses nothing.
  module _ (message_of : Bytes → M ProtobufType)
      (kept : (ft : Bytes) (s : Stores) → Ensures (IsKept s) (message_of ft s)) where
    made-IsKept :
        (ft : Bytes) (s : Stores)
        → Ensures (λ t s'. IsKept s t s' × (message_of ft s ≡ done t s')) (message_of ft s)
    made-IsKept ft s = Ensures-made (IsKept s) (message_of ft s) (kept ft s)

    later-IsSound :
        (ft : Bytes) (s s' : Stores) (o : Outcome ProtobufType)
        → Grows s s'
        → Ensures (IsSound message_of ft s') o
        → Ensures (IsSound message_of ft s) o
    later-IsSound ft s s' (done t u) grows later = record {
      grows = Grows-trans s s' u grows later.grows;
      imports = later.imports;
      maps = later.maps;
      lists = later.lists;
    }
    later-IsSound ft s s' Outcome.panicked grows later = tt
    later-IsSound ft s s' Outcome.too_deep grows later = tt

    map_value-IsSound :
        (ft : Bytes) (s s1 : Stores) (k : ProtobufType) (key value : Bytes)
        → key_and_value ft ≡ some (key, value)
        → message_of key s ≡ done k s1
        → is_bad_key k ≡ false
        → Ensures (IsSound message_of ft s1) ((message_of value >>= map_message k) s1)
    map_value-IsSound ft s s1 k key value parts key_made good =
        Ensures-bind (λ v s2. IsKept s1 v s2 × (message_of value s1 ≡ done v s2))
          (IsSound message_of ft s1) (message_of value) (map_message k) s1 (made-IsKept value s1)
          (λ v s2 made.
            later-IsSound ft s1 s2 (map_message k v s2) made.0.grows
              (map_message-IsSound message_of ft s s1 s2 key value k v parts key_made made.1 good))

    map_type_of-IsSound :
        (ft : Bytes) (s : Stores) (parts : Option (Bytes × Bytes))
        → key_and_value ft ≡ parts
        → Ensures (IsSound message_of ft s) (map_type_of c message_of parts s)
    unfolding map_type_of
    map_type_of-IsSound ft s none parts_eq = tt
    map_type_of-IsSound ft s (some (key, value)) parts_eq =
        Ensures-bind (λ k s1. IsKept s k s1 × (message_of key s ≡ done k s1))
          (IsSound message_of ft s) (message_of key) _ s (made-IsKept key s)
          (λ k s1 made. later-IsSound ft s s1 _ made.0.grows (elim (Bool-cases (is_bad_key k)) [
            | inl bad ↦ rw (bad) (import_struct-IsSound message_of ft s1 value_message refl refl)
            | inr good ↦ rw (good) (map_value-IsSound ft s s1 k key value parts_eq made.1 good)
          ]))

    -- The message of an anonymous struct is stored under its new name.
    stored-IsSound :
        (ft : Bytes) (meta : StructMeta) (s s' : Stores) (name : Bytes) (m : Message)
        → IsMessageOf c message_of meta s m s'
        → IsSound message_of ft s
            (message_type (inner_message name m))
            (store_message name (inner_message name m) s')
    stored-IsSound ft meta s s' name (message i content)
          (grows, named, comments, top_level, quiet, fields) =
        let kept_stores = Grows-store_message name (inner_message name (message i content)) s' in
        quiet-IsSound message_of ft s _ _ (Grows-trans s s' _ grows kept_stores) quiet

    anonymous_message-IsSound :
        (ft json : Bytes) (meta : StructMeta) (s : Stores)
        → Ensures (IsSound message_of ft s) (anonymous_message c message_of json meta s)
    unfolding anonymous_message
    anonymous_message-IsSound ft json meta s =
        Ensures-bind (IsMessageOf c message_of meta s) (IsSound message_of ft s)
          (new_message c message_of meta) _ s (new_message-IsMessageOf c message_of kept meta s)
          (λ m s' made. stored-IsSound ft meta s s' _ m made)

    bracketed-IsSound :
        (ft : Bytes) (s : Stores)
        → Ensures
            (IsSound message_of ft s)
            ((message_of (after_first b']' ft) >>= repeated_message c) s)
    bracketed-IsSound ft s =
        Ensures-bind (IsKept s) (IsSound message_of ft s) (message_of (after_first b']' ft))
          (repeated_message c) s (kept (after_first b']' ft) s)
          (λ elem s' made.
            later-IsSound ft s s' (repeated_message c elem s') made.grows
              (repeated_message-IsSound message_of ft c s' elem))

    anonymous_or_named-IsSound :
        (ft : Bytes) (s : Stores) (o : Option (Bytes × StructMeta))
        → Ensures (IsSound message_of ft s) (
            (elim o as (λ x. M ProtobufType) [
              | none ↦ named_type c (title_of ft)
              | some (json, meta) ↦ anonymous_message c message_of json meta
            ])
              s)
    anonymous_or_named-IsSound ft s none = named_type-IsSound message_of ft c s (title_of ft)
    anonymous_or_named-IsSound ft s (some (json, meta)) = anonymous_message-IsSound ft json meta s

    handle_default_case-IsSound :
        (ft : Bytes) (s : Stores)
        → Ensures (IsSound message_of ft s) (handle_default_case c message_of ft s)
    unfolding handle_default_case
    handle_default_case-IsSound ft s =
        elim (Bool-cases (bytes_eq ft (codes "map[string]interface{}"))) [
          | inl struct ↦
              rw (struct) (import_struct-IsSound message_of ft s struct_message refl refl)
          | inr no_struct ↦ elim (Bool-cases (bytes_eq ft (codes "[]interface{}"))) [
            | inl list ↦
                rw (no_struct, list) (import_struct-IsSound message_of ft s list_value refl refl)
            | inr no_list ↦ elim (Bool-cases (has_prefix (codes "map[") ft)) [
              | inl map ↦
                  rw (no_struct, no_list, map) (map_type_of-IsSound ft s (key_and_value ft) refl)
              | inr no_map ↦ elim (Bool-cases (has_prefix (codes "[") ft)) [
                | inl bracket ↦ rw (no_struct, no_list, no_map, bracket) (bracketed-IsSound ft s)
                | inr plain ↦
                    rw (no_struct, no_list, no_map, plain)
                      (anonymous_or_named-IsSound ft s (c.anonymous ft))
              ]
            ]
          ]
        ]

builtin-is_quiet :
    (ft : Bytes) → (elim (builtin ft) [ none ↦ true | some m ↦ is_quiet (message_type m) ]) ≡ true
unfolding builtin
builtin-is_quiet ft = search (quiet_if) depth 25

module _ (c : Context) where
  built-IsSound :
      (message_of : Bytes → M ProtobufType) (ft : Bytes) (s : Stores) (o : Option Message)
      (m : M ProtobufType)
      → (elim o [ none ↦ true | some x ↦ is_quiet (message_type x) ]) ≡ true
      → Ensures (IsSound message_of ft s) (m s)
      → Ensures
          (IsSound message_of ft s)
          ((elim o as (λ x. M ProtobufType) [ some x ↦ return (message_type x) | none ↦ m ]) s)
  built-IsSound message_of ft s none m quiet later = later
  built-IsSound message_of ft s (some x) m quiet later =
      quiet-IsSound message_of ft s s (message_type x) (Grows-refl s) quiet

  -- One level of `MessageOf`, from the levels below.
  level-IsSound :
      (n : ℕ) (ft : Bytes) (s : Stores)
      → ((ft' : Bytes) (s' : Stores) → Ensures (IsKept s') (message_at c n ft' s'))
      → Ensures (IsSound (message_at c n) (normalize ft) s) (message_at c (suc n) ft s)
  unfolding message_at
  level-IsSound n ft s kept =
      built-IsSound (message_at c n) (normalize ft) s (builtin (normalize ft)) _
        (builtin-is_quiet (normalize ft))
        (handle_default_case-IsSound c (message_at c n) kept (normalize ft) s)

  pub message_at-IsKept :
      (n : ℕ) (ft : Bytes) (s : Stores) → Ensures (IsKept s) (message_at c n ft s)
  unfolding message_at
  message_at-IsKept zero ft s = tt
  message_at-IsKept (suc n) ft s =
      Ensures-map (IsSound (message_at c n) (normalize ft) s) (IsKept s) (message_at c (suc n) ft s)
        (λ t s'. IsSound-IsKept (message_at c n) (normalize ft) s s' t)
        (level-IsSound n ft s (message_at-IsKept n))

  -- Whatever text `MessageOf` is given, within whatever depth, from whatever stores: if it returns, no
  -- import and no message is lost from the stores; a type that is marked as imported comes with the
  -- import of struct.proto; a map is called by the types that `MessageOf`, one level deeper, makes of
  -- the two parts of the text, the key before its first closing bracket and the value after it, and
  -- that key is neither of floating point nor bytes, and the name of that value is not that of a map;
  -- and a list is called by something whose name is not that of a map, and either has no `repeated ` in
  -- it or is the name of a stored message.
  pub message_at-IsSound :
      (n : ℕ) (ft : Bytes) (s s' : Stores) (t : ProtobufType)
      → message_at c (suc n) ft s ≡ done t s'
      → IsSound (message_at c n) (normalize ft) s t s'
  message_at-IsSound n ft s s' t returned =
      Ensures-done (IsSound (message_at c n) (normalize ft) s) (message_at c (suc n) ft s) t s'
        (level-IsSound n ft s (message_at-IsKept n)) returned

  pub new_message-IsMessage :
      (n : ℕ) (meta : StructMeta) (s s' : Stores) (m : Message)
      → new_message c (message_at c n) meta s ≡ done m s'
      → IsMessageOf c (message_at c n) meta s m s'
  new_message-IsMessage n meta s s' m returned =
      Ensures-done (IsMessageOf c (message_at c n) meta s) (new_message c (message_at c n) meta s) m
        s' (new_message-IsMessageOf c (message_at c n) (message_at-IsKept n) meta s) returned
