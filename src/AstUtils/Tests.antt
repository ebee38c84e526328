-- ===== src/AstUtils/Tests.antt =====
-- The theorems on astutils/structcollector.go and astutils/interfacecollector.go at concrete structs
-- and names.
use toolkit.AstUtils.{ident, star_expr, expr_string, StructMeta}
use toolkit.AstUtils.Flat.{Range, doc_flat_embed}
use toolkit.AstUtils.Flat.Collected.{Flattens, doc_flat_embed-Flattens}
use toolkit.AstUtils.Interfaces.{pattern_of, path_variables, join}
use toolkit.AstUtils.Interfaces.Endpoints.{
  Segment, literal, variable, name_of, endpoint_of, path_of, variables_of, pattern_of-name_of,
}
use toolkit.AstUtils.Structs.{AstField, Node, type_decl, struct_spec, StructCollector, collect}
use toolkit.Prelude.{
  ◌≡◌, refl, false, List, [], ◌∷◌, Option, none, some, Bytes, keep, bytes_eq, map,
}
use toolkit.Prelude.Text.{codes}

abbrev in_order : Range
in_order = record { range_keys = λ names. names; has_name-range_keys = λ n names. refl }

abbrev no_tag : Bytes → Option Bytes
no_tag tag = none

abbrev empty_collector : StructCollector
empty_collector = record {
  structs = [];
  methods = [];
  package_name = [];
  non_struct_type_map = [];
  expr_string = expr_string;
  global_structs = [];
}

abbrev of_type : List Bytes → Bytes → AstField
of_type names type = record { names = names; type = ident type; tag = none; doc = [] }

-- `type Base struct { ID, Name int }` and `type User struct { Base; Name string; *Pet }`
abbrev structs : Node
structs = type_decl [] (
    (codes "Base", struct_spec (of_type (codes "ID" ∷ codes "Name" ∷ []) (codes "int") ∷ []))
    ∷ (
      codes "User",
      struct_spec (
          of_type [] (codes "Base")
          ∷ of_type (codes "Name" ∷ []) (codes "string")
          ∷ record { names = []; type = star_expr (ident (codes "Base")); tag = none; doc = [] }
          ∷ []),
    )
    ∷ [])

abbrev collected : StructCollector
collected = (collect no_tag structs empty_collector).0

abbrev field_names : List StructMeta → List (List Bytes)
field_names = map (λ s. map (λ f. f.name) s.fields)

-- `User` has its own name and the ID of `Base`.
names_collected :
    field_names (doc_flat_embed in_order (λ tag. false) collected)
    ≡ (codes "ID" ∷ codes "Name" ∷ []) ∷ (codes "Name" ∷ codes "ID" ∷ []) ∷ []
unfolding doc_flat_embed collect toolkit.Prelude.Map.lookup toolkit.Prelude.Map.insert
    toolkit.Prelude.Text.drop_prefix toolkit.Prelude.Text.has_prefix bytes_eq
names_collected = refl

doc_flat_embed-Flattens_example :
    Flattens
      (λ tag. false)
      collected.structs
      (keep (λ s. s.is_export) collected.structs)
      (doc_flat_embed in_order (λ tag. false) collected)
unfolding collect
doc_flat_embed-Flattens_example = doc_flat_embed-Flattens in_order (λ tag. false) collected

-- `GetShelves_ShelfBooks_Book`
abbrev shelves : List Segment
shelves =
    literal (codes "get")
    ∷ literal (codes "shelves")
    ∷ variable (codes "shelf")
    ∷ literal (codes "books")
    ∷ variable (codes "book")
    ∷ []

shelves_name : name_of shelves ≡ codes "GetShelves_ShelfBooks_Book"
shelves_name = refl

shelves_endpoint : endpoint_of shelves ≡ some (codes "GET", codes "shelves/:shelf/books/:book")
unfolding join bytes_eq
shelves_endpoint = refl

pattern_of-name_of_example :
    (pattern_of (name_of shelves) ≡ endpoint_of shelves)
    × (path_variables (path_of shelves) ≡ variables_of shelves)
pattern_of-name_of_example = pattern_of-name_of shelves refl

-- A name without a capital makes `Pattern` panic.
unexported : pattern_of (codes "get") ≡ none
unfolding pattern_of
unexported = refl
