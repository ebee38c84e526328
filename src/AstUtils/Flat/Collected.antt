-- ===== src/AstUtils/Flat/Collected.antt =====
-- `DocFlatEmbed` of astutils/structcollector.go on all structs that are collected.
use toolkit.AstUtils.{FieldMeta, StructMeta}
use toolkit.AstUtils.Flat.{
  Range, struct_map, Flat, promote, flat_struct, flat_structs, doc_flat_embed, all_structs,
}
use toolkit.AstUtils.Flat.Promotion.{
  fields_of, flat_fields-fields, flat_fields-owned, flat_fields-embedded, promoted-name, IsKeyed,
  named-promote, has_name-keys,
}
use toolkit.AstUtils.Flat.Reference.{or_else, named, own_fields, promoted, named-append}
use toolkit.AstUtils.Structs.{StructCollector}
use toolkit.Prelude.{
  Bool, true, false, ◌≡◌, refl, ◌∙◌, ap, List, [], ◌∷◌, ◌++◌, Bytes, bytes_eq_instance,
  if◌then◌else◌, keep, arith,
}
use toolkit.Prelude.Map.{lookup, keys}

module _ (has_json_tag : Bytes → Bool) (structs : List StructMeta) where
  -- A struct and what it becomes. By a name, its fields are its own one, or else the promoted one.
  pub record IsFlat (s flat : StructMeta) : Type 0 where
    pub name : flat.name ≡ s.name
    pub comments : flat.comments ≡ s.comments
    pub added : List FieldMeta
    pub own_first : flat.fields ≡ own_fields has_json_tag s.fields ++ added
    pub by_name :
        (n : Bytes)
        → named n flat.fields
          ≡ or_else
              (named n (own_fields has_json_tag s.fields))
              (promoted has_json_tag structs n s.fields)

  -- One for each, in order.
  abbrev pub Flattens : List StructMeta → List StructMeta → Type 0
  Flattens [] [] = Unit
  Flattens [] (t ∷ ts) = ⊥
  Flattens (s ∷ ss) [] = ⊥
  Flattens (s ∷ ss) (t ∷ ts) = IsFlat s t × Flattens ss ts

  Flattens-if :
      (b : Bool) (s t : StructMeta) (ss ts : List StructMeta)
      → IsFlat s t
      → Flattens ss ts
      → Flattens (if b then s ∷ ss else ss) (if b then t ∷ ts else ts)
  Flattens-if true s t ss ts flat rest = (flat, rest)
  Flattens-if false s t ss ts flat rest = rest

  module _ (range : Range) where
    abbrev start : Flat
    start = record { fields = []; field_map = []; embed_field_map = [] }

    abbrev done : StructMeta → Flat
    done s = fields_of has_json_tag structs s.fields start

    done-IsKeyed : (s : StructMeta) → IsKeyed (done s).embed_field_map
    unfolding lookup
    done-IsKeyed s n f found =
        promoted-name has_json_tag structs n s.fields f
          (ground (arith, flat_fields-embedded has_json_tag structs s.fields start n, found))

    abbrev added_to : StructMeta → List FieldMeta
    added_to s =
        promote (range.range_keys (keys (done s).embed_field_map)) (done s).field_map
          (done s).embed_field_map

    added_to-named :
        (s : StructMeta) (n : Bytes)
        → named n (own_fields has_json_tag s.fields ++ added_to s)
          ≡ or_else
              (named n (own_fields has_json_tag s.fields))
              (promoted has_json_tag structs n s.fields)
    unfolding lookup
    added_to-named s n =
        named-append n (own_fields has_json_tag s.fields) (added_to s)
        ∙ ground (
          arith,
          named-promote n (range.range_keys (keys (done s).embed_field_map)) (done s).field_map
              (done s).embed_field_map (done-IsKeyed s),
          range.has_name-range_keys n (keys (done s).embed_field_map),
          has_name-keys n (done s).embed_field_map,
          flat_fields-owned has_json_tag structs s.fields start n,
          flat_fields-embedded has_json_tag structs s.fields start n,
        )

    flat_struct-IsFlat :
        (s : StructMeta) → IsFlat s (flat_struct range has_json_tag (struct_map structs []) s)
    unfolding flat_struct
    flat_struct-IsFlat s =
        let own = flat_fields-fields has_json_tag structs s.fields start in
        record {
          name = refl;
          comments = refl;
          added = added_to s;
          own_first = ap (λ fs. fs ++ added_to s) own;
          by_name = λ n. ap (λ fs. named n (fs ++ added_to s)) own ∙ added_to-named s n;
        }

    flat_structs-Flattens :
        (ss : List StructMeta)
        → Flattens
            (keep (λ s. s.is_export) ss)
            (flat_structs range has_json_tag (struct_map structs []) ss)
    unfolding flat_structs
    flat_structs-Flattens [] = tt
    flat_structs-Flattens (s ∷ ss) =
        Flattens-if s.is_export s _ (keep (λ s. s.is_export) ss) _ (flat_struct-IsFlat s)
          (flat_structs-Flattens ss)

-- `DocFlatEmbed` returns a struct for each exported one, in order, with its name and its comments.
-- Its fields are first those that the struct has itself: the exported ones and the embedded ones with
-- a json tag, in order. Under a name that none of these has, there is the exported field with that
-- name of the last struct that is embedded without a json tag and has one, where an embedded struct
-- is the first of those given with its name; and there is no field under any other name.
pub doc_flat_embed-Flattens :
    (range : Range) (has_json_tag : Bytes → Bool) (sc : StructCollector)
    → Flattens has_json_tag
        (all_structs sc.global_structs sc.structs)
        (keep (λ s. s.is_export) (all_structs sc.global_structs sc.structs))
        (doc_flat_embed range has_json_tag sc)
unfolding doc_flat_embed
doc_flat_embed-Flattens range has_json_tag sc =
    flat_structs-Flattens has_json_tag (all_structs sc.global_structs sc.structs) range
      (all_structs sc.global_structs sc.structs)
