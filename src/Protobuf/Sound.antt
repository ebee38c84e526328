-- ===== src/Protobuf/Sound.antt =====
-- The protobuf types that `MessageOf` (protobuf/v3/message.go) makes of any text, and the stores.

use toolkit.OpenApi.{one_of, is_upper}
use toolkit.Prelude.{
  ◌≡◌, ◌⊎◌, refl, sym, ◌∙◌, inl, inr, Bool, true, false, not, ◌&&◌, ◌++◌, Option, none, some, Bytes,
  arith, bytes_eq_instance, if◌then◌else◌, Bool-cases,
}
use toolkit.Prelude.Map.{lookup}
use toolkit.Prelude.Text.{codes, has_prefix, contains}
use toolkit.Protobuf.Cases.{false-not_true}
use toolkit.Protobuf.Ensures.{
  Ensures, is_imported_file, is_stored, Grows, Grows-refl, Grows-import_file,
  is_imported_file-import_file, Grows-store_message, is_stored-store_message,
}
use toolkit.Protobuf.Messages.{
  Enum, MessageInfo, Message, ProtobufType, message_type, enum_type, info, get_name, value_message,
}
use toolkit.Protobuf.Stores.{Stores, M, done}
use toolkit.Protobuf.Types.{
  Context, struct_file, import_struct, is_map_name, is_bad_key, map_name, map_message,
  key_and_value, nested_name, nested_message, repeated_message, enum_or_value, named_type,
}
use toolkit.Query.{is_empty}

-- A flag of a type; an enum has none.
abbrev pub flag : (MessageInfo → Bool) → ProtobufType → Bool
flag f (message_type m) = f (info m)
flag f (enum_type e) = false

-- A list is of no map, and not of a list, but of a message that is stored.
abbrev pub IsListType : ProtobufType → Stores → Type 0
IsListType t s =
    (name : Bytes) × (get_name t ≡ codes "repeated " ++ name)
    × (has_prefix (codes "map<") name ≡ false)
    × ((contains (codes "repeated ") name ≡ false) ⊎ (is_stored name s ≡ true))

-- No import and no message was lost when a type was made, and its own import is there.
pub record IsKept (s : Stores) (t : ProtobufType) (s' : Stores) : Type 0 where
  pub grows : Grows s s'
  pub imports : flag (λ i. i.is_imported) t ≡ true → is_imported_file struct_file s' ≡ true

abbrev pub is_quiet : ProtobufType → Bool
is_quiet t =
    not (flag (λ i. i.is_imported) t)
    && not (flag (λ i. i.is_map) t)
    && not (flag (λ i. i.is_repeated) t)

quiet_flags :
    (a b d : Bool) → (not a && not b && not d) ≡ true → (a ≡ false) × (b ≡ false) × (d ≡ false)
quiet_flags a b d quiet = (ground (arith, quiet), ground (arith, quiet), ground (arith, quiet))

-- The cases before the default.
pub quiet_if :
    (b : Bool) (m : Message) (o : Option Message)
    → is_quiet (message_type m) ≡ true
    → (elim o [ none ↦ true | some x ↦ is_quiet (message_type x) ]) ≡ true
    → (elim (if b then some m else o) [ none ↦ true | some x ↦ is_quiet (message_type x) ]) ≡ true
quiet_if true m o quiet rest = quiet
quiet_if false m o quiet rest = rest

-- From here on `message_of` is the code for the parts of a text.
module _ (message_of : Bytes → M ProtobufType) (ft : Bytes) where
  -- A map has the text of a key and of a value. It is called by what the code makes of the two: a key
  -- that is neither of floating point nor bytes, and a value that is no map.
  abbrev pub IsMapType : ProtobufType → Type 0
  IsMapType t =
      (key_text : Bytes) × (value_text : Bytes) × (key : ProtobufType) × (value : ProtobufType)
      × (s1 : Stores) × (s2 : Stores) × (s3 : Stores) × (key_and_value ft
          ≡ some (key_text, value_text))
      × (message_of key_text s1 ≡ done key s2)
      × (message_of value_text s2 ≡ done value s3)
      × (get_name t ≡ map_name (get_name key) (get_name value))
      × (is_bad_key key ≡ false)
      × (is_map_name value ≡ false)

  -- What holds of a type that was made of a text, and of the stores before and after.
  pub record IsSound (s : Stores) (t : ProtobufType) (s' : Stores) : Type 0 where
    pub grows : Grows s s'
    pub imports : flag (λ i. i.is_imported) t ≡ true → is_imported_file struct_file s' ≡ true
    pub maps : flag (λ i. i.is_map) t ≡ true → IsMapType t
    pub lists : flag (λ i. i.is_repeated) t ≡ true → IsListType t s'

  pub IsSound-IsKept : (s s' : Stores) (t : ProtobufType) → IsSound s t s' → IsKept s t s'
  IsSound-IsKept s s' t sound = record { grows = sound.grows; imports = sound.imports }

  -- A type without these flags.
  pub quiet-IsSound :
      (s s' : Stores) (t : ProtobufType) → Grows s s' → is_quiet t ≡ true → IsSound s t s'
  quiet-IsSound s s' t grows quiet =
      let (i, m, l) = quiet_flags _ _ _ quiet in
      record {
        grows = grows;
        imports = λ is. absurd (false-not_true (sym i ∙ is));
        maps = λ is. absurd (false-not_true (sym m ∙ is));
        lists = λ is. absurd (false-not_true (sym l ∙ is));
      }

  pub import_struct-IsSound :
      (s : Stores) (m : Message)
      → (info m).is_map ≡ false
      → (info m).is_repeated ≡ false
      → Ensures (IsSound s) (import_struct m s)
  unfolding import_struct
  import_struct-IsSound s m no_map no_list = record {
    grows = Grows-import_file struct_file s;
    imports = λ is. is_imported_file-import_file struct_file s;
    maps = λ is. absurd (false-not_true (sym no_map ∙ is));
    lists = λ is. absurd (false-not_true (sym no_list ∙ is));
  }

  pub map_message-IsSound :
      (s1 s2 s : Stores) (key_text value_text : Bytes) (key value : ProtobufType)
      → key_and_value ft ≡ some (key_text, value_text)
      → message_of key_text s1 ≡ done key s2
      → message_of value_text s2 ≡ done value s
      → is_bad_key key ≡ false
      → Ensures (IsSound s) (map_message key value s)
  unfolding map_message
  map_message-IsSound s1 s2 s key_text value_text key value parts key_made value_made good =
      elim (Bool-cases (is_map_name value)) [
        | inl nested ↦ rw (nested) (import_struct-IsSound s value_message refl refl)
        | inr flat ↦ rw (flat) (record {
          grows = Grows-refl s;
          imports = λ is. absurd (false-not_true is);
          maps = λ is. (
            key_text, value_text, key, value, s1, s2, s, parts, key_made, value_made, refl, good,
            flat,
          );
          lists = λ is. absurd (false-not_true is);
        })
      ]

  module _ (c : Context) where
    pub repeated_message-IsSound :
        (s : Stores) (elem : ProtobufType) → Ensures (IsSound s) (repeated_message c elem s)
    unfolding repeated_message nested_name
    repeated_message-IsSound s elem = elim (Bool-cases (is_map_name elem)) [
      | inl map ↦ rw (map) (import_struct-IsSound s value_message refl refl)
      | inr flat ↦ elim (Bool-cases (contains (codes "repeated ") (get_name elem))) [
        | inl list ↦
            rw (flat, list)
              (record {
                grows =
                    Grows-store_message (nested_name c (get_name elem)) (nested_message c elem) s;
                imports = λ is. absurd (false-not_true is);
                maps = λ is. absurd (false-not_true is);
                lists = λ is. (
                  nested_name c (get_name elem),
                  refl,
                  refl,
                  inr (
                      is_stored-store_message (nested_name c (get_name elem))
                        (nested_message c elem) s),
                );
              })
        | inr one ↦
            rw (flat, one)
              (record {
                grows = Grows-refl s;
                imports = λ is. absurd (false-not_true is);
                maps = λ is. absurd (false-not_true is);
                lists = λ is. (get_name elem, refl, flat, inl one);
              })
      ]
    ]

    enum_or_value-IsSound :
        (s : Stores) (o : Option Enum) → Ensures (IsSound s) (enum_or_value c o s)
    unfolding enum_or_value
    enum_or_value-IsSound s none = import_struct-IsSound s value_message refl refl
    enum_or_value-IsSound s (some e) = quiet-IsSound s s (enum_type e) (Grows-refl s) refl

    pub named_type-IsSound :
        (s : Stores) (title : Bytes) → Ensures (IsSound s) (named_type c title s)
    unfolding named_type
    named_type-IsSound s title = elim (Bool-cases (is_empty title)) [
      | inl empty ↦ rw (empty) (import_struct-IsSound s value_message refl refl)
      | inr some_title ↦ elim (Bool-cases (is_upper title && one_of c.message_names title)) [
        | inl declared ↦ rw (some_title, declared) (quiet-IsSound s s _ (Grows-refl s) refl)
        | inr other ↦ rw (some_title, other) (enum_or_value-IsSound s (lookup title c.enum_store))
      ]
    ]
