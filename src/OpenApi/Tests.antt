-- ===== src/OpenApi/Tests.antt =====
-- The theorem on openapi/v3/helper.go at concrete types.
use toolkit.AstUtils.{
  Expr, ident, star_expr, selector_expr, slice_type, map_type, array_type, basic_lit, ellipsis,
  expr_string,
}
use toolkit.OpenApi.{Known, schema_of, ref, array, map_of, any_schema}
use toolkit.OpenApi.Expected.{is_word, is_covered, expected}
use toolkit.OpenApi.RoundTrip.{schema_of-expr_string}
use toolkit.Prelude.{◌≡◌, refl, false, some, [], ◌∷◌, bytes_eq}
use toolkit.Prelude.Map.{lookup}
use toolkit.Prelude.Text.{
  codes, has_byte, has_prefix, drop_prefix, trim_left, after_first, after_last, cut, trim_space,
}
use toolkit.Query.{is_empty}

abbrev known : Known
known = record {
  schema_names = codes "User" ∷ [];
  enums = (codes "Color", codes "red" ∷ codes "blue" ∷ []) ∷ [];
  is_anonymous = λ t. false;
}

-- `map[string][]*vo.User`
abbrev users : Expr
users =
    map_type (ident (codes "string"))
      (slice_type (star_expr (selector_expr (ident (codes "vo")) (codes "User"))))

schema_of-expr_string_example :
    (schema_of known (expr_string users) ≡ some (expected known users))
    × (schema_of known (expr_string (ellipsis users)) ≡ some (expected known (slice_type users)))
unfolding is_covered is_word has_byte expr_string
schema_of-expr_string_example = schema_of-expr_string known users refl

users_schema :
    schema_of known (codes "map[string][]*vo.User")
    ≡ some
        (map_of (array (ref (codes "#/components/schemas/User"))) (codes "map[string][]*vo.User"))
unfolding schema_of bytes_eq has_prefix drop_prefix has_byte trim_left after_first after_last cut
    is_empty trim_space
users_schema = refl

-- A key in brackets: the value is read from the first bracket on.
abbrev bracket_key : Expr
bracket_key =
    map_type (array_type (basic_lit (codes "2")) (ident (codes "int"))) (ident (codes "int"))

bracket_key_schema :
    schema_of known (expr_string bracket_key) ≡ some (map_of any_schema (codes "map[[2]int]int"))
unfolding schema_of bytes_eq has_prefix drop_prefix has_byte trim_left after_first after_last cut
    is_empty trim_space expr_string lookup
bracket_key_schema = refl
