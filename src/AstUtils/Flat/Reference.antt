-- ===== src/AstUtils/Flat/Reference.antt =====
-- The fields of a struct and of the structs that it embeds, by their names, for `DocFlatEmbed` of
-- astutils/structcollector.go.
use toolkit.AstUtils.{FieldMeta, StructMeta}
use toolkit.AstUtils.Flat.{struct_map, add_embedded}
use toolkit.Prelude.{
  Bool, true, not, ◌&&◌, ◌≡◌, refl, ◌∙◌, List, [], ◌∷◌, ◌++◌, Option, none, some, Bytes, bytes_eq,
  bytes_eq_instance, if◌then◌else◌, arith, Option-cases, inl, inr,
}
use toolkit.Prelude.Map.{lookup, insert, lookup-insert}
use toolkit.Prelude.Text.{codes, has_prefix, trim_prefix}

abbrev pub or_else {ℓ} : {A : Type ℓ} → Option A → Option A → Option A
or_else none other = other
or_else (some a) other = some a

-- The first field with the name.
abbrev pub named : Bytes → List FieldMeta → Option FieldMeta
named n [] = none
named n (f ∷ fs) = if bytes_eq f.name n then some f else named n fs

-- The first struct with the name.
abbrev pub struct_named : Bytes → List StructMeta → Option StructMeta
struct_named n [] = none
struct_named n (s ∷ structs) = if bytes_eq s.name n then some s else struct_named n structs

-- The last exported field with the name.
abbrev pub last_exported : Bytes → List FieldMeta → Option FieldMeta
last_exported n [] = none
last_exported n (f ∷ fs) =
    or_else (last_exported n fs) (if f.is_export && bytes_eq f.name n then some f else none)

abbrev pub exported_of : Bytes → Option StructMeta → Option FieldMeta
exported_of n none = none
exported_of n (some s) = last_exported n s.fields

module _ (has_json_tag : Bytes → Bool) where
  abbrev pub is_embedded : FieldMeta → Bool
  is_embedded f = has_prefix (codes "embed") f.type

  -- The fields that the struct has itself: the exported ones, and the embedded ones with a json tag.
  abbrev pub own_fields : List FieldMeta → List FieldMeta
  own_fields [] = []
  own_fields (f ∷ fs) =
      let rest = own_fields fs in
      if is_embedded f
      then (if has_json_tag f.tag
          then record f { type = trim_prefix (codes "embed:") f.type } ∷ rest
          else rest)
      else if f.is_export
      then f ∷ rest
      else rest

  -- The exported field with the name of the last struct that is embedded without a json tag and has
  -- one.
  abbrev pub promoted : List StructMeta → Bytes → List FieldMeta → Option FieldMeta
  promoted structs n [] = none
  promoted structs n (f ∷ fs) = or_else (promoted structs n fs) (
      if is_embedded f && not (has_json_tag f.tag)
      then exported_of n (struct_named f.name structs)
      else none)

pub struct_map-lookup :
    (n : Bytes) (structs : List StructMeta) (m : List (Bytes × StructMeta))
    → lookup n (struct_map structs m) ≡ or_else (lookup n m) (struct_named n structs)
unfolding struct_map
struct_map-lookup n [] m = ground arith
struct_map-lookup n (s ∷ structs) m = elim (Option-cases (lookup s.name m)) [
  | inl missing ↦ rw (missing) (
      struct_map-lookup n structs (insert s.name s m)
      ∙ ground (arith, missing, lookup-insert s.name n s m, bytes_eq_instance.beq_iff s.name n))
  | inr (other, there) ↦
      rw (there)
        (struct_map-lookup n structs m ∙ ground (arith, there, bytes_eq_instance.beq_iff s.name n))
]

pub add_embedded-lookup :
    (n : Bytes) (fs : List FieldMeta) (m : List (Bytes × FieldMeta))
    → lookup n (add_embedded fs m) ≡ or_else (last_exported n fs) (lookup n m)
unfolding add_embedded
add_embedded-lookup n [] m = refl
add_embedded-lookup n (f ∷ fs) m =
    add_embedded-lookup n fs (if f.is_export then insert f.name f m else m)
    ∙ ground (arith, lookup-insert f.name n f m)

pub last_exported-name :
    (n : Bytes) (fs : List FieldMeta) (f : FieldMeta)
    → last_exported n fs ≡ some f
    → bytes_eq f.name n ≡ true
last_exported-name n [] f found = ground (arith, found)
last_exported-name n (g ∷ fs) f found = elim (Option-cases (last_exported n fs)) [
  | inl missing ↦ ground (arith, missing, found)
  | inr (g', there) ↦ last_exported-name n fs f (ground (arith, there, found))
]

pub named-append :
    (n : Bytes) (fs gs : List FieldMeta) → named n (fs ++ gs) ≡ or_else (named n fs) (named n gs)
named-append n [] gs = refl
named-append n (f ∷ fs) gs = ground (arith, named-append n fs gs)

pub or_else_assoc {ℓ} :
    {A : Type ℓ} (a b c : Option A) → or_else a (or_else b c) ≡ or_else (or_else a b) c
or_else_assoc none b c = refl
or_else_assoc (some a) b c = refl
