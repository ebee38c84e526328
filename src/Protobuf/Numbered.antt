-- ===== src/Protobuf/Numbered.antt =====
-- `newField` and `NewMessage` of protobuf/v3/message.go: the fields of a message, from those of a struct.
use toolkit.AstUtils.{FieldMeta, StructMeta}
use toolkit.Prelude.{
  ◌≡◌, refl, sym, ◌∙◌, inl, inr, ℕ, ◌+◌, true, false, none, some, bytes_eq, bytes_eq_instance,
  arith, List, [], ◌∷◌, Bytes, Bool-cases,
}
use toolkit.Prelude.Text.{codes}
use toolkit.Protobuf.Cases.{false-not_true}
use toolkit.Query.{is_empty}
use toolkit.Protobuf.Ensures.{
  Ensures, Ensures-bind, Ensures-made, is_imported_file, Grows, Grows-refl, Grows-trans,
}
use toolkit.Protobuf.Messages.{
  FieldInfo, Message, message, get_name, ProtobufType, message_type, enum_type, Fields, no_fields,
  field,
}
use toolkit.Protobuf.Sound.{flag, is_quiet, IsKept}
use toolkit.Protobuf.Stores.{Stores, done, M}
use toolkit.Protobuf.Types.{Context, struct_file}
use toolkit.Protobuf.{before_comma, field_name_of, renamed, field_info, new_fields, new_message}

-- A field of a message, from that of a struct and the type that was made for it.
pub record IsField (c : Context) (f : FieldMeta) (n : ℕ) (i : FieldInfo) (made t : ProtobufType)
    : Type 0 where
  pub numbered : i.number ≡ n
  pub comments : i.comments ≡ f.comments
  pub json_name : i.json_name ≡ i.name
  pub untagged : is_empty f.tag ≡ true → i.name ≡ c.field_naming_func f.name
  pub no_json : c.json_tag f.tag ≡ none → i.name ≡ c.field_naming_func f.name
  pub skipped :
      (json : Bytes)
      → c.json_tag f.tag ≡ some json
      → before_comma c json ≡ codes "-"
      → i.name ≡ c.field_naming_func f.name
  pub tagged :
      (json : Bytes)
      → is_empty f.tag ≡ false
      → c.json_tag f.tag ≡ some json
      → bytes_eq (before_comma c json) (codes "-") ≡ false
      → i.name ≡ before_comma c json
  pub outer_type : flag (λ j. j.is_inner) made ≡ false → t ≡ made
  pub inner_type : flag (λ j. j.is_inner) made ≡ true → get_name t ≡ c.capitalize f.name

renamed-outer :
    (c : Context) (name : Bytes) (t : ProtobufType)
    → flag (λ j. j.is_inner) t ≡ false
    → renamed c name t ≡ t
renamed-outer c name (enum_type e) outer = refl
renamed-outer c name (message_type (message i content)) outer = rw (outer) refl

get_name-renamed :
    (c : Context) (name : Bytes) (t : ProtobufType)
    → flag (λ j. j.is_inner) t ≡ true
    → get_name (renamed c name t) ≡ c.capitalize name
get_name-renamed c name (enum_type e) inner = absurd (false-not_true inner)
get_name-renamed c name (message_type (message i content)) inner = rw (inner) refl

field_info-IsField :
    (c : Context) (f : FieldMeta) (n : ℕ) (t : ProtobufType)
    → IsField c f n (field_info c f n) t (renamed c f.name t)
unfolding field_name_of
field_info-IsField c f n t = record {
  numbered = refl;
  comments = refl;
  json_name = refl;
  untagged = λ untagged. rw (untagged) refl;
  no_json = λ missing. ground (arith, missing);
  skipped = λ json found skipped.
      ground
        (arith, found, (bytes_eq_instance.beq_iff (before_comma c json) (codes "-")).1 skipped);
  tagged = λ json tag found other. ground (arith, tag, found, other);
  outer_type = renamed-outer c f.name t;
  inner_type = get_name-renamed c f.name t;
}

module _ (c : Context) (message_of : Bytes → M ProtobufType) where
  -- The fields are those of the struct, numbered from `n`, each of the type that the code makes of the
  -- text of its type, from the stores that the fields before it left; and its import is there.
  abbrev pub AreFields : ℕ → List FieldMeta → Fields → Stores → Stores → Type 0
  AreFields n [] no_fields s s' = s' ≡ s
  AreFields n (f ∷ fs) (field i t rest) s s' =
      (made : ProtobufType) × (s1 : Stores) × (message_of f.type s ≡ done made s1)
      × IsField c f n i made t
      × (flag (λ i. i.is_imported) t ≡ true → is_imported_file struct_file s' ≡ true)
      × AreFields (n + 1) fs rest s1 s'
  AreFields n _ _ s s' = ⊥

  -- A struct becomes a message of its fields, under its own name and comments.
  abbrev pub IsMessageOf : StructMeta → Stores → Message → Stores → Type 0
  IsMessageOf meta s (message i content) s' =
      Grows s s'
      × (i.name ≡ c.capitalize meta.name)
      × (i.comments ≡ meta.comments)
      × (i.is_top_level ≡ true)
      × (is_quiet (message_type (message i content)) ≡ true)
      × AreFields 1 meta.fields content s s'

renamed-flag :
    (c : Context) (name : Bytes) (t : ProtobufType)
    → flag (λ i. i.is_imported) (renamed c name t) ≡ flag (λ i. i.is_imported) t
renamed-flag c name (enum_type e) = refl
renamed-flag c name (message_type (message i content)) = elim (Bool-cases i.is_inner) [
  | inl inner ↦ rw (inner) refl
  | inr outer ↦ rw (outer) refl
]

module _ (c : Context) (message_of : Bytes → M ProtobufType)
    (kept : (ft : Bytes) (s : Stores) → Ensures (IsKept s) (message_of ft s)) where
  field-AreFields :
      (s s1 s2 : Stores) (n : ℕ) (f : FieldMeta) (fs : List FieldMeta) (t : ProtobufType)
      (rest : Fields)
      → IsKept s t s1
      → message_of f.type s ≡ done t s1
      → Grows s1 s2
      → AreFields c message_of (n + 1) fs rest s1 s2
      → Grows s s2
        × AreFields c message_of n
            (f ∷ fs)
            (field (field_info c f n) (renamed c f.name t) rest)
            s
            s2
  field-AreFields s s1 s2 n f fs t rest made made_eq grows others = (
    Grows-trans s s1 s2 made.grows grows,
    (
      t,
      s1,
      made_eq,
      field_info-IsField c f n t,
      λ is. grows.imports struct_file (made.imports (sym (renamed-flag c f.name t) ∙ is)),
      others,
    ),
  )

  pub new_fields-AreFields :
      (n : ℕ) (fs : List FieldMeta) (s : Stores)
      → Ensures
          (λ content s'. Grows s s' × AreFields c message_of n fs content s s')
          (new_fields c message_of n fs s)
  unfolding new_fields
  new_fields-AreFields n [] s = (Grows-refl s, refl)
  new_fields-AreFields n (f ∷ fs) s =
      Ensures-bind (λ t s1. IsKept s t s1 × (message_of f.type s ≡ done t s1)) _ (message_of f.type)
        _ s (Ensures-made (IsKept s) (message_of f.type s) (kept f.type s))
        (λ t s1 made.
          Ensures-bind (λ content s'. Grows s1 s' × AreFields c message_of (n + 1) fs content s1 s')
            (λ content s'. Grows s s' × AreFields c message_of n (f ∷ fs) content s s')
            (new_fields c message_of (n + 1) fs) _ s1 (new_fields-AreFields (n + 1) fs s1)
            (λ rest s2 others.
              field-AreFields s s1 s2 n f fs t rest made.0 made.1 others.0 others.1))

  pub new_message-IsMessageOf :
      (meta : StructMeta) (s : Stores)
      → Ensures (IsMessageOf c message_of meta s) (new_message c message_of meta s)
  unfolding new_message
  new_message-IsMessageOf meta s =
      Ensures-bind (λ content s'. Grows s s' × AreFields c message_of 1 meta.fields content s s')
        (IsMessageOf c message_of meta s) (new_fields c message_of 1 meta.fields) _ s
        (new_fields-AreFields 1 meta.fields s)
        (λ content s' fields. (fields.0, refl, refl, refl, refl, fields.1))
