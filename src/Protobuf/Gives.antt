-- ===== src/Protobuf/Gives.antt =====
-- What the parts of `MessageOf` (protobuf/v3/message.go) give, whatever the stores hold.
use toolkit.OpenApi.{one_of, is_upper}
use toolkit.Prelude.{
  ◌≡◌, refl, ap, ◌∙◌, inl, inr, false, ◌&&◌, Option, none, some, Bytes, bytes_eq_instance,
  Bool-cases,
}
use toolkit.Prelude.Map.{lookup}
use toolkit.Prelude.Text.{codes, contains}
use toolkit.Protobuf.Expected.{map_of, list_of, declared}
use toolkit.Protobuf.Messages.{
  ProtobufType, message_type, enum_type, value_message, Message, get_name, Enum,
}
use toolkit.Protobuf.Stores.{M, ◌>>=◌, Stores, done, panicked, too_deep, return}
use toolkit.Protobuf.Types.{
  Context, import_struct, map_message, repeated_message, named_type, enum_or_value, is_map_name,
  is_bad_key,
}
use toolkit.Query.{is_empty}

-- The code returns the value, from all stores, neither panicking nor nesting too deep.
abbrev pub Gives : {A : Type 0} → M A → A → Type 0
Gives m a = (s : Stores) → (s' : Stores) × (m s ≡ done a s')

pub Gives-bind :
    {A B : Type 0}
    → (m : M A) (f : A → M B) (a : A) (b : B) → Gives m a
    → Gives (f a) b
    → Gives (m >>= f) b
Gives-bind m f a b first next s =
    let (s1, first_eq) = first s in
    let (s2, next_eq) = next s1 in
    (
      s2,
      ap (λ o. elim o [ done x s' ↦ f x s' | panicked ↦ panicked | too_deep ↦ too_deep ]) first_eq
          ∙ next_eq,
    )

pub Gives-import_struct : (m : Message) → Gives (import_struct m) (message_type m)
unfolding import_struct
Gives-import_struct m s = (_, refl)

pub Gives-map_message :
    (key value : ProtobufType)
    → is_bad_key key ≡ false
    → Gives (map_message key value) (map_of key value)
unfolding map_message map_of
Gives-map_message key value good s = elim (Bool-cases (is_map_name value)) [
  | inl nested ↦ rw (nested, good) (Gives-import_struct value_message s)
  | inr flat ↦ rw (flat, good) (s, refl)
]

module _ (c : Context) where
  pub Gives-repeated_message :
      (elem : ProtobufType) → Gives (repeated_message c elem) (list_of c elem)
  unfolding repeated_message list_of
  Gives-repeated_message elem s = elim (Bool-cases (is_map_name elem)) [
    | inl map ↦ rw (map) (Gives-import_struct value_message s)
    | inr flat ↦ elim (Bool-cases (contains (codes "repeated ") (get_name elem))) [
      | inl list ↦ rw (flat, list) (_, refl)
      | inr one ↦ rw (flat, one) (s, refl)
    ]
  ]

  Gives-enum_or_value :
      (o : Option Enum)
      → Gives
          (enum_or_value c o)
          (elim o [ none ↦ message_type value_message | some e ↦ enum_type e ])
  unfolding enum_or_value
  Gives-enum_or_value none s = Gives-import_struct value_message s
  Gives-enum_or_value (some e) s = (s, refl)

  pub Gives-named_type : (title : Bytes) → Gives (named_type c title) (declared c title)
  unfolding named_type declared
  Gives-named_type title s = elim (Bool-cases (is_empty title)) [
    | inl empty ↦ rw (empty) (Gives-import_struct value_message s)
    | inr some_title ↦ elim (Bool-cases (is_upper title && one_of c.message_names title)) [
      | inl declared_message ↦ rw (some_title, declared_message) (s, refl)
      | inr other ↦ rw (some_title, other) (Gives-enum_or_value (lookup title c.enum_store) s)
    ]
  ]

pub Gives-eq : {A : Type 0} → (m m' : M A) (a : A) → m ≡ m' → Gives m' a → Gives m a
Gives-eq m m' a same gives s = let (s', e) = gives s in (s', ap (λ f. f s) same ∙ e)

pub Gives-built :
    (o : Option Message) (m : M ProtobufType) (t : ProtobufType)
    → Gives m t
    → Gives
        (elim o [ some x ↦ return (message_type x) | none ↦ m ])
        (elim o [ some x ↦ message_type x | none ↦ t ])
Gives-built none m t gives = gives
Gives-built (some x) m t gives = λ s. (s, refl)
