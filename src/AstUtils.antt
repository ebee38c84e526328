-- ===== src/AstUtils.antt =====
-- astutils/funcs.go, `ExprString`: the text of a Go type; astutils/helper.go: the tests of such texts.
-- Left out are type lists in brackets. A JSON text and the text of a function type are those of the
-- libraries that write them.
pub mod Structs
pub mod Flat
pub mod Interfaces
mod Tests
use toolkit.Prelude.{Bool, ◌||◌, List, [], ◌∷◌, ◌++◌, Bytes, if◌then◌else◌}
use toolkit.Prelude.Text.{codes, has_prefix, trim_prefix, has_byte, after_first}

pub data ChanDir : Type 0 where
  send recv both : ChanDir

-- go/ast, the expressions that `ExprString` knows.
pub data Expr : Type 0 where
  ident : Bytes → Expr
  star_expr : Expr → Expr
  selector_expr : Expr → Bytes → Expr
  interface_type : Expr
  slice_type : Expr → Expr
  -- the length and the element
  array_type : Expr → Expr → Expr
  basic_lit : Bytes → Expr
  map_type : Expr → Expr → Expr
  -- the JSON text of the struct
  struct_type : Bytes → Expr
  func_type : Bytes → Expr
  chan_type : ChanDir → Expr → Expr
  ellipsis : Expr → Expr
  index_expr : Expr → Expr → Expr
  unsupported : Expr

abbrev chan_prefix : ChanDir → Bytes
chan_prefix send = codes "chan<- "
chan_prefix recv = codes "<-chan "
chan_prefix both = codes "chan "

unfoldable pub expr_string : Expr → Bytes
expr_string (ident name) = name
expr_string (star_expr x) = b'*' ∷ expr_string x
expr_string (selector_expr x sel) = expr_string x ++ b'.' ∷ sel
expr_string interface_type = codes "interface{}"
expr_string (slice_type elt) = b'[' ∷ b']' ∷ expr_string elt
expr_string (array_type len elt) = b'[' ∷ (expr_string len ++ b']' ∷ expr_string elt)
expr_string (basic_lit value) = value
expr_string (map_type key value) =
    b'm' ∷ b'a' ∷ b'p' ∷ b'[' ∷ (expr_string key ++ b']' ∷ expr_string value)
expr_string (struct_type json) = codes "anonystruct" ++ (194 ∷ 171 ∷ (json ++ 194 ∷ 187 ∷ []))
expr_string (func_type text) = text
expr_string (chan_type dir value) = chan_prefix dir ++ expr_string value
expr_string (ellipsis elt) = b'.' ∷ b'.' ∷ b'.' ∷ expr_string elt
expr_string (index_expr x index) = expr_string x ++ (b'[' ∷ (expr_string index ++ b']' ∷ []))
expr_string unsupported = []

-- The metadata of fields, structs, enums and methods, as far as the packages read it.
pub record FieldMeta : Type 0 where
  pub name : Bytes
  pub type : Bytes
  pub tag : Bytes
  pub comments : List Bytes
  pub is_export : Bool
  pub doc_name : Bytes

pub record StructMeta : Type 0 where
  pub name : Bytes
  pub fields : List FieldMeta
  pub comments : List Bytes
  pub is_export : Bool

pub record EnumMeta : Type 0 where
  pub name : Bytes
  pub values : List Bytes

pub record MethodMeta : Type 0 where
  pub name : Bytes
  pub params : List FieldMeta
  pub results : List FieldMeta
  pub comments : List Bytes

-- Tests of the texts.
unfoldable pub is_varargs : Bytes → Bool
unfolding has_prefix
is_varargs t = has_prefix (codes "...") t

unfoldable pub is_slice : Bytes → Bool
unfolding has_byte has_prefix
is_slice t = has_byte b'[' t || has_prefix (codes "...") t

unfoldable pub to_slice : Bytes → Bytes
unfolding trim_prefix
to_slice t = b'[' ∷ b']' ∷ trim_prefix (codes "...") t

unfoldable pub element_type : Bytes → Bytes
unfolding is_varargs trim_prefix after_first
element_type t = if is_varargs t then trim_prefix (codes "...") t else after_first b']' t
