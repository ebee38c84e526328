-- ===== src/Protobuf/Cases.antt =====
-- `handleDefaultCase` of protobuf/v3/message.go on plain texts, slices, arrays and maps.

use toolkit.OpenApi.Texts.{has_prefix-without}
use toolkit.OpenApi.{title_of}
use toolkit.Prelude.{
  ◌≡◌, refl, sym, ap, ◌∙◌, inl, inr, ℕ, true, false, ◌==◌, ==_iff, ◌∷◌, ◌++◌, Option, none, some,
  Bytes, arith, bytes_eq, bytes_eq_iff, bytes_eq_instance, Bool-cases, if◌then◌else◌,
}
use toolkit.Prelude.Text.{
  codes, has_prefix, drop_prefix, trim_prefix, has_byte, cut-append, after_first,
  after_first-append,
}
use toolkit.Protobuf.Expected.{map_of, list_of, declared, map_by_text, is_named}
use toolkit.Protobuf.Gives.{
  Gives, Gives-bind, Gives-import_struct, Gives-map_message, Gives-repeated_message,
  Gives-named_type,
}
use toolkit.Protobuf.Messages.{
  ProtobufType, message_type, scalar, struct_message, value_message, list_value,
}
use toolkit.Protobuf.Stores.{M}
use toolkit.Protobuf.Types.{
  Context, builtin, key_and_value, is_bad_key, map_message, repeated_message,
}
use toolkit.Protobuf.{map_type_of, handle_default_case}

pub false-not_true : ¬ (false ≡ true)
false-not_true e = cc

-- A text without a byte differs from one with it.
bytes_eq-without :
    (b : ℕ) (s t : Bytes) → has_byte b s ≡ false → has_byte b t ≡ true → bytes_eq s t ≡ false
bytes_eq-without b s t without within = elim (Bool-cases (bytes_eq s t)) [
  | inl same ↦
      absurd (false-not_true (sym without ∙ ap (has_byte b) ((bytes_eq_iff s t).0 same) ∙ within))
  | inr differ ↦ differ
]

pub builtin-slice :
    (t : Bytes)
    → builtin (b'[' ∷ b']' ∷ t) ≡ (
        if bytes_eq (codes "rune") t
        then some (scalar (codes "string"))
        else if bytes_eq (codes "byte") t
        then some (scalar (codes "bytes"))
        else none)
unfolding builtin bytes_eq
builtin-slice t = ground arith

pub builtin-array : (d : ℕ) (s : Bytes) → (d == b']') ≡ false → builtin (b'[' ∷ d ∷ s) ≡ none
unfolding builtin bytes_eq
builtin-array d s other = ground (arith, other, ==_iff d b']', ==_iff b']' d)

pub builtin-map : (t : Bytes) → builtin (b'm' ∷ b'a' ∷ b'p' ∷ b'[' ∷ t) ≡ none
unfolding builtin bytes_eq
builtin-map t = refl

map_of-bad : (k v : ProtobufType) → is_bad_key k ≡ true → map_of k v ≡ message_type value_message
unfolding map_of
map_of-bad k v bad = rw (bad) refl

key_and_value-map :
    (key value : Bytes)
    → has_byte b']' key ≡ false
    → key_and_value (b'm' ∷ b'a' ∷ b'p' ∷ b'[' ∷ (key ++ (b']' ∷ value))) ≡ some (key, value)
unfolding key_and_value trim_prefix drop_prefix has_byte
key_and_value-map key value closed =
    ap
      (λ o. elim o [
        | none ↦ none
        | some parts ↦ some (trim_prefix (codes "map[") parts.0, parts.1)
      ])
      (cut-append b']' (b'm' ∷ b'a' ∷ b'p' ∷ b'[' ∷ key) value closed)

pub is_named-none :
    {A : Type 0} → (o : Option A) → (elim o [ none ↦ true | some parts ↦ false ]) ≡ true → o ≡ none
is_named-none none named = refl
is_named-none (some parts) named = absurd (false-not_true named)

module _ (c : Context) where
  module _ (message_of : Bytes → M ProtobufType) where
    pub handle-plain :
        (t title : Bytes)
        → has_byte b'[' t ≡ false
        → is_named c t ≡ true
        → title_of t ≡ title
        → Gives (handle_default_case c message_of t) (declared c title)
    unfolding handle_default_case has_byte
    handle-plain t title bracket named title_eq =
        rw
          (
            bytes_eq-without b'[' t (codes "map[string]interface{}") bracket refl,
            bytes_eq-without b'[' t (codes "[]interface{}") bracket refl,
            has_prefix-without b'[' (codes "map[") t refl bracket,
            has_prefix-without b'[' (codes "[") t refl bracket,
            is_named-none (c.anonymous t) named,
            title_eq,
          )
          (Gives-named_type c title)

    pub handle-slice :
        (t : Bytes) (elem : ProtobufType)
        → Gives (message_of t) elem
        → Gives
            (handle_default_case c message_of (b'[' ∷ b']' ∷ t))
            (if bytes_eq t (codes "interface{}") then message_type list_value else list_of c elem)
    unfolding handle_default_case has_prefix drop_prefix bytes_eq
    handle-slice t elem gives = elim (Bool-cases (bytes_eq t (codes "interface{}"))) [
      | inl any ↦ rw (any) (Gives-import_struct list_value)
      | inr other ↦ rw (other) (
          Gives-bind (message_of t) (repeated_message c) elem (list_of c elem) gives
            (Gives-repeated_message c elem))
    ]

    pub handle-array :
        (d : ℕ) (digits t : Bytes) (elem : ProtobufType)
        → has_byte b']' (d ∷ digits) ≡ false
        → Gives (message_of t) elem
        → Gives
            (handle_default_case c message_of (b'[' ∷ d ∷ (digits ++ (b']' ∷ t))))
            (list_of c elem)
    unfolding handle_default_case has_prefix drop_prefix bytes_eq has_byte
    handle-array d digits t elem literal gives =
        let other : (d == b']') ≡ false = ground (arith, literal) in
        let after = after_first-append b']' (b'[' ∷ d ∷ digits) t literal in
        rw (other) (
          Gives-bind (message_of (after_first b']' (b'[' ∷ d ∷ (digits ++ (b']' ∷ t)))))
            (repeated_message c) elem (list_of c elem) (rw (after) gives)
            (Gives-repeated_message c elem))

    -- The code behind the key: its type decides whether the value is looked at.
    map_type_of-pair :
        (key value : Bytes) (k v : ProtobufType)
        → Gives (message_of key) k
        → Gives (message_of value) v
        → Gives (map_type_of c message_of (some (key, value))) (map_of k v)
    unfolding map_type_of
    map_type_of-pair key value k v key_gives value_gives =
        Gives-bind (message_of key) _ k (map_of k v) key_gives (elim (Bool-cases (is_bad_key k)) [
          | inl bad ↦ rw (bad, map_of-bad k v bad) (Gives-import_struct value_message)
          | inr good ↦ rw (good) (
              Gives-bind (message_of value) (map_message k) v (map_of k v) value_gives
                (Gives-map_message k v good))
        ])

    pub handle-map :
        (key value : Bytes) (k v : ProtobufType)
        → has_byte b']' key ≡ false
        → Gives (message_of key) k
        → Gives (message_of value) v
        → Gives
            (handle_default_case c message_of (b'm' ∷ b'a' ∷ b'p' ∷ b'[' ∷ (key ++ (b']' ∷ value))))
            (map_by_text (b'm' ∷ b'a' ∷ b'p' ∷ b'[' ∷ (key ++ (b']' ∷ value))) k v)
    unfolding handle_default_case map_by_text has_prefix drop_prefix
    handle-map key value k v closed key_gives value_gives =
        let text = b'm' ∷ b'a' ∷ b'p' ∷ b'[' ∷ (key ++ (b']' ∷ value)) in
        let parts = key_and_value-map key value closed in
        elim (Bool-cases (bytes_eq text (codes "map[string]interface{}"))) [
          | inl any ↦ rw (any) (Gives-import_struct struct_message)
          | inr other ↦ rw (other, parts) (map_type_of-pair key value k v key_gives value_gives)
        ]
