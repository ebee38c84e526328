-- ===== src/AstUtils/Flat/Promotion.antt =====
-- The fields that `DocFlatEmbed` of astutils/structcollector.go gives a struct, by their names.
use toolkit.AstUtils.{FieldMeta, StructMeta}
use toolkit.AstUtils.Flat.{
  is_there, has_name, struct_map, Flat, add_own, flat_field, flat_fields, promote,
}
use toolkit.Prelude.{
  Bool, true, not, ◌&&◌, ◌||◌, ◌≡◌, refl, ◌∙◌, sym, ap, List, [], ◌∷◌, ◌++◌, append_assoc,
  append-nil, Option, none, some, Bytes, bytes_eq, bytes_eq_instance, if◌then◌else◌, arith,
  Option-cases, inl, inr,
}
use toolkit.Prelude.Map.{lookup, keys, lookup-insert}
use toolkit.Prelude.Text.{codes, trim_prefix}
use toolkit.AstUtils.Flat.Reference.{
  or_else, named, struct_named, exported_of, is_embedded, own_fields, promoted, struct_map-lookup,
  add_embedded-lookup, last_exported-name, named-append, or_else_assoc,
}

module _ (has_json_tag : Bytes → Bool) (structs : List StructMeta) where
  -- What one field adds to the fields, and to the map of the embedded ones.
  abbrev own_of : FieldMeta → List FieldMeta
  own_of f = own_fields has_json_tag (f ∷ [])

  abbrev promoted_of : Bytes → FieldMeta → Option FieldMeta
  promoted_of n f =
      if is_embedded has_json_tag f && not (has_json_tag f.tag)
      then exported_of n (struct_named f.name structs)
      else none

  abbrev field_of : FieldMeta → Flat → Flat
  field_of = flat_field has_json_tag (struct_map structs [])

  flat_field-fields :
      (f : FieldMeta) (flat : Flat) → (field_of f flat).fields ≡ flat.fields ++ own_of f
  unfolding flat_field add_own
  flat_field-fields f flat = elim (Option-cases (lookup f.name (struct_map structs []))) [
    | inl missing ↦ ground (arith, missing, append-nil flat.fields)
    | inr (s, there) ↦ ground (arith, there, append-nil flat.fields)
  ]

  flat_field-owned :
      (f : FieldMeta) (flat : Flat) (n : Bytes)
      → is_there (lookup n (field_of f flat).field_map)
        ≡ (is_there (named n (own_of f)) || is_there (lookup n flat.field_map))
  unfolding flat_field add_own
  flat_field-owned f flat n = elim (Option-cases (lookup f.name (struct_map structs []))) [
    | inl missing ↦ ground (
      arith,
      missing,
      lookup-insert f.name n f flat.field_map,
      lookup-insert f.name n (record f { type = trim_prefix (codes "embed:") f.type })
          flat.field_map,
    )
    | inr (s, there) ↦ ground (
      arith,
      there,
      lookup-insert f.name n f flat.field_map,
      lookup-insert f.name n (record f { type = trim_prefix (codes "embed:") f.type })
          flat.field_map,
    )
  ]

  flat_field-embedded :
      (f : FieldMeta) (flat : Flat) (n : Bytes)
      → lookup n (field_of f flat).embed_field_map
        ≡ or_else (promoted_of n f) (lookup n flat.embed_field_map)
  unfolding flat_field add_own
  flat_field-embedded f flat n =
      let is = struct_map-lookup f.name structs [] in
      elim (Option-cases (lookup f.name (struct_map structs []))) [
        | inl missing ↦ ground (arith, missing, is)
        | inr (s, there) ↦
            ground (arith, there, is, add_embedded-lookup n s.fields flat.embed_field_map)
      ]

  own_fields-cons :
      (f : FieldMeta) (fs : List FieldMeta)
      → own_fields has_json_tag (f ∷ fs) ≡ own_of f ++ own_fields has_json_tag fs
  own_fields-cons f fs = ground arith

  abbrev pub fields_of : List FieldMeta → Flat → Flat
  fields_of = flat_fields has_json_tag (struct_map structs [])

  pub flat_fields-fields :
      (fs : List FieldMeta) (flat : Flat)
      → (fields_of fs flat).fields ≡ flat.fields ++ own_fields has_json_tag fs
  unfolding flat_fields
  flat_fields-fields [] flat = sym (append-nil flat.fields)
  flat_fields-fields (f ∷ fs) flat =
      flat_fields-fields fs (field_of f flat)
      ∙ ap (λ gs. gs ++ own_fields has_json_tag fs) (flat_field-fields f flat)
      ∙ append_assoc flat.fields (own_of f) (own_fields has_json_tag fs)
      ∙ ap (λ gs. flat.fields ++ gs) (sym (own_fields-cons f fs))

  pub flat_fields-owned :
      (fs : List FieldMeta) (flat : Flat) (n : Bytes)
      → is_there (lookup n (fields_of fs flat).field_map)
        ≡ (is_there (named n (own_fields has_json_tag fs)) || is_there (lookup n flat.field_map))
  unfolding flat_fields
  flat_fields-owned [] flat n = refl
  flat_fields-owned (f ∷ fs) flat n =
      flat_fields-owned fs (field_of f flat) n
      ∙ ground (
        arith,
        flat_field-owned f flat n,
        named-append n (own_of f) (own_fields has_json_tag fs),
        own_fields-cons f fs,
      )

  pub flat_fields-embedded :
      (fs : List FieldMeta) (flat : Flat) (n : Bytes)
      → lookup n (fields_of fs flat).embed_field_map
        ≡ or_else (promoted has_json_tag structs n fs) (lookup n flat.embed_field_map)
  unfolding flat_fields
  flat_fields-embedded [] flat n = refl
  flat_fields-embedded (f ∷ fs) flat n =
      flat_fields-embedded fs (field_of f flat) n
      ∙ ap (or_else (promoted has_json_tag structs n fs)) (flat_field-embedded f flat n)
      ∙ or_else_assoc (promoted has_json_tag structs n fs) (promoted_of n f)
          (lookup n flat.embed_field_map)

  exported_of-name :
      (n : Bytes) (s : Option StructMeta) (g : FieldMeta)
      → exported_of n s ≡ some g
      → bytes_eq g.name n ≡ true
  exported_of-name n none g found = ground (arith, found)
  exported_of-name n (some s) g found = last_exported-name n s.fields g found

  pub promoted-name :
      (n : Bytes) (fs : List FieldMeta) (g : FieldMeta)
      → promoted has_json_tag structs n fs ≡ some g
      → bytes_eq g.name n ≡ true
  promoted-name n [] g found = ground (arith, found)
  promoted-name n (f ∷ fs) g found = elim (Option-cases (promoted has_json_tag structs n fs)) [
    | inl missing ↦
        ground (arith, missing, found, exported_of-name n (struct_named f.name structs) g)
    | inr (g', there) ↦ promoted-name n fs g (ground (arith, there, found))
  ]

-- Each key stands for a field with its name.
abbrev pub IsKeyed : List (Bytes × FieldMeta) → Type 0
IsKeyed m = (n : Bytes) (f : FieldMeta) → lookup n m ≡ some f → bytes_eq f.name n ≡ true

pub named-promote :
    (n : Bytes) (names : List Bytes) (own embedded : List (Bytes × FieldMeta))
    → IsKeyed embedded
    → named n (promote names own embedded)
      ≡ (if has_name n names && not (is_there (lookup n own)) then lookup n embedded else none)
unfolding promote
named-promote n [] own embedded keyed = refl
named-promote n (key ∷ names) own embedded keyed =
    let rest = named-promote n names own embedded keyed in
    elim (Option-cases (lookup key embedded)) [
      | inl missing ↦ ground (arith, missing, rest, bytes_eq_instance.beq_iff key n)
      | inr (f, there) ↦ ground (
        arith,
        there,
        rest,
        keyed key f there,
        bytes_eq_instance.beq_iff key n,
        bytes_eq_instance.beq_iff f.name key,
        bytes_eq_instance.beq_iff f.name n,
      )
    ]

pub has_name-keys :
    (n : Bytes) (m : List (Bytes × FieldMeta)) → has_name n (keys m) ≡ is_there (lookup n m)
unfolding lookup
has_name-keys n [] = refl
has_name-keys n ((k, f) ∷ m) = ground (arith, has_name-keys n m)
