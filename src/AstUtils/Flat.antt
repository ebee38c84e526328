-- ===== src/AstUtils/Flat.antt =====
-- astutils/structcollector.go, `DocFlatEmbed`: the fields of embedded structs become fields of the
-- struct. The order in which a `range` visits a map is a parameter.
pub mod Reference
pub mod Promotion
pub mod Collected
use toolkit.AstUtils.{FieldMeta, StructMeta}
use toolkit.AstUtils.Structs.{StructCollector}
use toolkit.Prelude.{
  Bool, true, false, ◌≡◌, List, [], ◌∷◌, ◌++◌, Option, none, some, Bytes, bytes_eq,
  bytes_eq_instance, if◌then◌else◌, any,
}
use toolkit.Prelude.Map.{lookup, insert, keys}
use toolkit.Prelude.Text.{codes, has_prefix, trim_prefix}

-- What a map holds for a key, if anything.
abbrev pub is_there {ℓ} : {A : Type ℓ} → Option A → Bool
is_there none = false
is_there (some a) = true

abbrev pub has_name : Bytes → List Bytes → Bool
has_name name names = any (λ other. bytes_eq other name) names

-- `range` over a map, by its keys: it visits each of them.
pub record Range : Type 0 where
  pub range_keys : List Bytes → List Bytes
  pub has_name-range_keys :
      (name : Bytes) (names : List Bytes) → has_name name (range_keys names) ≡ has_name name names

-- `structMap`: the first struct with a name.
unfoldable pub struct_map : List StructMeta → List (Bytes × StructMeta) → List (Bytes × StructMeta)
unfolding lookup insert
struct_map [] m = m
struct_map (s ∷ structs) m =
    struct_map structs (if is_there (lookup s.name m) then m else insert s.name s m)

-- `_structMeta.Fields`, `fieldMap` and `embedFieldMap`.
pub record Flat : Type 0 where
  pub fields : List FieldMeta
  pub field_map : List (Bytes × FieldMeta)
  pub embed_field_map : List (Bytes × FieldMeta)

unfoldable pub add_embedded : List FieldMeta → List (Bytes × FieldMeta) → List (Bytes × FieldMeta)
unfolding insert
add_embedded [] m = m
add_embedded (f ∷ fs) m = add_embedded fs (if f.is_export then insert f.name f m else m)

unfoldable pub add_own : FieldMeta → Flat → Flat
unfolding insert
add_own f flat = record flat {
  fields = flat.fields ++ f ∷ [];
  field_map = insert f.name f flat.field_map;
}

module _ (has_json_tag : Bytes → Bool) (structs : List (Bytes × StructMeta)) where
  unfoldable pub flat_field : FieldMeta → Flat → Flat
  unfolding has_prefix trim_prefix lookup add_own add_embedded
  flat_field f flat =
      if has_prefix (codes "embed") f.type
      then (if has_json_tag f.tag
          then add_own (record f { type = trim_prefix (codes "embed:") f.type }) flat
          else (elim (lookup f.name structs) [
            | none ↦ flat
            | some embedded ↦ record flat {
              embed_field_map = add_embedded embedded.fields flat.embed_field_map;
            }
          ]))
      else if f.is_export
      then add_own f flat
      else flat

  unfoldable pub flat_fields : List FieldMeta → Flat → Flat
  unfolding flat_field
  flat_fields [] flat = flat
  flat_fields (f ∷ fs) flat = flat_fields fs (flat_field f flat)

-- The second loop, over the keys of `embedFieldMap`.
unfoldable pub promote :
    List Bytes → List (Bytes × FieldMeta) → List (Bytes × FieldMeta) → List FieldMeta
unfolding lookup
promote [] own embedded = []
promote (key ∷ names) own embedded =
    let rest = promote names own embedded in
    if is_there (lookup key own)
    then rest
    else (elim (lookup key embedded) [ none ↦ rest | some f ↦ f ∷ rest ])

-- `GlobalStructs`, or `Structs` if there are none.
abbrev pub all_structs : List StructMeta → List StructMeta → List StructMeta
all_structs [] structs = structs
all_structs (s ∷ global) structs = s ∷ global

module _ (range : Range) (has_json_tag : Bytes → Bool) where
  unfoldable pub flat_struct : List (Bytes × StructMeta) → StructMeta → StructMeta
  unfolding flat_fields promote
  flat_struct structs s =
      let flat =
        flat_fields has_json_tag structs s.fields
          (record { fields = []; field_map = []; embed_field_map = [] }) in
      record {
        name = s.name;
        fields =
            flat.fields
            ++ promote (range.range_keys (keys flat.embed_field_map)) flat.field_map
                flat.embed_field_map;
        comments = s.comments;
        is_export = true;
      }

  unfoldable pub flat_structs : List (Bytes × StructMeta) → List StructMeta → List StructMeta
  unfolding flat_struct
  flat_structs structs [] = []
  flat_structs structs (s ∷ rest) =
      let flat = flat_structs structs rest in
      if s.is_export then flat_struct structs s ∷ flat else flat

  unfoldable pub doc_flat_embed : StructCollector → List StructMeta
  unfolding struct_map flat_structs
  doc_flat_embed sc =
      flat_structs (struct_map (all_structs sc.global_structs sc.structs) [])
        (all_structs sc.global_structs sc.structs)
