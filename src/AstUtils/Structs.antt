-- ===== src/AstUtils/Structs.antt =====
-- astutils/funcs.go, `NewStructMeta`, `NewMethodMeta`, and astutils/structcollector.go: the structs and
-- methods that are collected from the nodes of a file. The match of a json tag is that of a regular
-- expression, a parameter. A name is not empty, as the parser of Go gives it.
use toolkit.AstUtils.{Expr, expr_string, FieldMeta, StructMeta, MethodMeta}
use toolkit.OpenApi.{is_upper}
use toolkit.Prelude.{
  ℕ, Bool, true, false, List, [], ◌∷◌, ◌++◌, Option, none, some, Bytes, bytes_eq_instance,
  if◌then◌else◌, map,
}
use toolkit.Prelude.Map.{insert, lookup_or}
use toolkit.Prelude.Text.{codes, trim_prefix, trim_left, trim_space, cut, after_last, reverse}
use toolkit.Query.{is_empty}

-- go/ast: a field of a struct, or parameters or results of a function.
pub record AstField : Type 0 where
  pub names : List Bytes
  pub type : Expr
  pub tag : Option Bytes
  pub doc : List Bytes

pub record FuncType : Type 0 where
  pub params : List AstField
  pub results : List AstField

-- The type of a type declaration.
pub data TypeSpec : Type 0 where
  struct_spec : List AstField → TypeSpec
  other_spec : Expr → TypeSpec

-- The nodes that `Collect` tells apart.
pub data Node : Type 0 where
  package_node : Node
  file_node : Bytes → Node
  -- the type of the receiver, the name and the type
  func_decl : Option Expr → Bytes → FuncType → Node
  -- `type` with its comment
  type_decl : List Bytes → List (Bytes × TypeSpec) → Node
  other_node : Node

-- One for each name, or one without a name.
unfoldable pub metas_of : (Expr → Bytes) → AstField → List FieldMeta
metas_of text f =
    let meta : Bytes → FieldMeta = λ name. record {
      name = name;
      type = text f.type;
      tag = [];
      comments = [];
      is_export = false;
      doc_name = [];
    } in
    elim f.names [ [] ↦ meta [] ∷ [] | name ∷ names ↦ map meta (name ∷ names) ]

abbrev all_metas : (Expr → Bytes) → List AstField → List FieldMeta
all_metas text [] = []
all_metas text (f ∷ fs) = metas_of text f ++ all_metas text fs

unfoldable pub new_method_meta : (Expr → Bytes) → FuncType → MethodMeta
unfolding metas_of
new_method_meta text ft = record {
  name = [];
  params = all_metas text ft.params;
  results = all_metas text ft.results;
  comments = [];
}

unfoldable pub get_method_meta : Bytes → FuncType → MethodMeta
unfolding new_method_meta expr_string
get_method_meta name ft = record (new_method_meta expr_string ft) { name = name }

-- The text of a comment.
unfoldable pub comment_text : Bytes → Bytes
unfolding trim_prefix trim_space
comment_text s = trim_space (trim_prefix (codes "//") s)

-- `strings.Trim` of one byte.
unfoldable pub trim : ℕ → Bytes → Bytes
unfolding trim_left reverse
trim b s = reverse (trim_left b (reverse (trim_left b s)))

-- `strings.Split(s, ",")[0]`
abbrev before_comma : Bytes → Bytes
unfolding cut
before_comma s = elim (cut b',' s) [ none ↦ s | some parts ↦ parts.0 ]

module _ (json_tag : Bytes → Option Bytes) where
  unfoldable pub doc_name_of : Option Bytes → Bytes
  unfolding trim cut
  doc_name_of none = []
  doc_name_of (some value) = elim (json_tag (trim b'`' value)) [
    | none ↦ []
    | some name ↦ before_comma name
  ]

  abbrev tag_of : Option Bytes → Bytes
  unfolding trim
  tag_of none = []
  tag_of (some value) = trim b'`' value

  -- A field with a type and a name.
  unfoldable pub field_meta : AstField → Bytes → Bytes → FieldMeta
  unfolding doc_name_of is_empty comment_text
  field_meta f type name = record {
    name = name;
    type = type;
    tag = tag_of f.tag;
    comments = map comment_text f.doc;
    is_export = is_upper name;
    doc_name = if is_empty (doc_name_of f.tag) then name else doc_name_of f.tag;
  }

  unfoldable pub struct_fields : (Expr → Bytes) → AstField → List FieldMeta
  unfolding field_meta after_last
  struct_fields text f =
      let type = text f.type in
      elim f.names [
        | [] ↦ field_meta f (codes "embed:" ++ type) (after_last b'.' type) ∷ []
        | name ∷ names ↦ map (field_meta f type) (name ∷ names)
      ]

  unfoldable pub new_struct_fields : (Expr → Bytes) → List AstField → List FieldMeta
  unfolding struct_fields
  new_struct_fields text [] = []
  new_struct_fields text (f ∷ fs) = struct_fields text f ++ new_struct_fields text fs

  unfoldable pub new_struct_meta : (Expr → Bytes) → List AstField → StructMeta
  unfolding new_struct_fields
  new_struct_meta text fs = record {
    name = [];
    fields = new_struct_fields text fs;
    comments = [];
    is_export = false;
  }

pub record StructCollector : Type 0 where
  pub structs : List StructMeta
  pub methods : List (Bytes × List MethodMeta)
  pub package_name : Bytes
  pub non_struct_type_map : List (Bytes × Expr)
  pub expr_string : Expr → Bytes
  pub global_structs : List StructMeta

module _ (json_tag : Bytes → Option Bytes) where
  unfoldable pub collect_spec : List Bytes → Bytes × TypeSpec → StructCollector → StructCollector
  unfolding new_struct_meta
  collect_spec comments (name, struct_spec fields) sc =
      let meta = record (new_struct_meta json_tag sc.expr_string fields) {
        name = name;
        comments = comments;
        is_export = is_upper name;
      } in
      record sc { structs = sc.structs ++ meta ∷ [] }
  collect_spec comments (name, other_spec type) sc = record sc {
    non_struct_type_map = insert name type sc.non_struct_type_map;
  }

  unfoldable pub collect_specs :
      List Bytes → List (Bytes × TypeSpec) → StructCollector → StructCollector
  unfolding collect_spec
  collect_specs comments [] sc = sc
  collect_specs comments (spec ∷ specs) sc =
      collect_specs comments specs (collect_spec comments spec sc)

  -- `Collect`, and whether the children of the node are visited.
  unfoldable pub collect : Node → StructCollector → StructCollector × Bool
  unfolding get_method_meta collect_specs comment_text trim_prefix
  collect package_node sc = (sc, true)
  collect (file_node name) sc = (record sc { package_name = name }, true)
  collect (func_decl none name type) sc = (sc, false)
  collect (func_decl (some receiver) name type) sc =
      let key = trim_prefix (codes "*") (sc.expr_string receiver) in
      let methods = lookup_or key [] sc.methods ++ get_method_meta name type ∷ [] in
      (record sc { methods = insert key methods sc.methods }, false)
  collect (type_decl doc specs) sc = (collect_specs (map comment_text doc) specs sc, false)
  collect other_node sc = (sc, false)
