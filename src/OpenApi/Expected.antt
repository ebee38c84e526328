-- ===== src/OpenApi/Expected.antt =====
-- The schema that a Go type is to have, and `SchemaOf` of openapi/v3/helper.go on names and stars.
use toolkit.AstUtils.{
  Expr, ident, star_expr, selector_expr, interface_type, slice_type, array_type, basic_lit,
  map_type, expr_string, is_varargs,
}
use toolkit.OpenApi.Texts.{
  normalize-word, title_of-word, title_of-selector, has_prefix-without, has_byte-append,
}
use toolkit.OpenApi.{
  Schema, array, map_of, any_schema, string_schema, Known, builtin, title_of, named_schema,
  normalize, schema_at, handle_default_case,
}
use toolkit.Prelude.{
  ◌≡◌, refl, ap, ◌∙◌, ℕ, suc, Bool, true, false, not, ◌&&◌, ◌||◌, ==_iff, [], ◌∷◌, ◌++◌, Option,
  none, some, Bytes, bytes_eq, arith, bytes_eq_instance, if◌then◌else◌,
}
use toolkit.Prelude.Map.{lookup}
use toolkit.Prelude.Text.{codes, has_prefix, drop_prefix, has_byte, after_first}

-- A name: not empty, and without the bytes that a type is written with.
unfoldable pub is_word : Bytes → Bool
unfolding has_byte
is_word [] = false
is_word (c ∷ s) =
    not (has_byte b'*' (c ∷ s)) && not (has_byte b'.' (c ∷ s)) && not (has_byte b'[' (c ∷ s))

resolve :
    (o other : Option Schema) (schema : Schema)
    → other ≡ some schema
    → (elim o [ some s ↦ some s | none ↦ other ]) ≡ some (elim o [ some s ↦ s | none ↦ schema ])
resolve none other schema other_eq = other_eq
resolve (some s) other schema other_eq = refl

module _ (k : Known) where
  -- The schema of a built-in type, or of the type with the title.
  abbrev named : Bytes → Bytes → Schema
  named text title = elim (builtin text) [ some schema ↦ schema | none ↦ named_schema k title ]

  -- The schema that a type is to have.
  unfoldable pub expected : Expr → Schema
  unfolding expr_string bytes_eq
  expected (ident name) = named name name
  expected (selector_expr x sel) = named (expr_string (selector_expr x sel)) sel
  expected (star_expr x) = expected x
  expected (slice_type elt) =
      let items = expected elt in
      if bytes_eq (codes "rune") (expr_string elt) || bytes_eq (codes "byte") (expr_string elt)
      then string_schema
      else array items
  expected (array_type len elt) = array (expected elt)
  expected (map_type key value) = map_of (expected value) (expr_string (map_type key value))
  expected e = any_schema

  -- The types that are covered.
  unfoldable pub is_covered : Expr → Bool
  unfolding is_word has_byte expr_string lookup bytes_eq
  is_covered (ident name) = is_word name && not (k.is_anonymous name)
  is_covered (selector_expr (ident pkg) sel) =
      is_word pkg && is_word sel && not (k.is_anonymous (pkg ++ b'.' ∷ sel))
  is_covered (star_expr x) = is_covered x
  is_covered (slice_type elt) = is_covered elt
  is_covered (array_type (basic_lit (c ∷ digits)) elt) =
      not (has_byte b']' (c ∷ digits)) && is_covered elt
  is_covered (map_type key value) = not (has_byte b']' (expr_string key)) && is_covered value
  is_covered interface_type =
      not (k.is_anonymous (codes "interface{}"))
      && (elim (lookup (codes "interface{}") k.enums) [ none ↦ true | some values ↦ false ])
  is_covered e = false

  -- One step of `SchemaOf`.
  abbrev pub step : ℕ → Bytes → Option Schema
  step n ft = elim (builtin ft) [
    | some schema ↦ some schema
    | none ↦ handle_default_case k ft (schema_at k n (after_first b']' ft))
  ]

  pub schema_at-step : (n : ℕ) (t ft : Bytes) → normalize t ≡ ft → schema_at k (suc n) t ≡ step n ft
  unfolding schema_at
  schema_at-step n t ft normal = ap (step n) normal

  handle-plain :
      (t title : Bytes) (elem : Option Schema)
      → has_byte b'[' t ≡ false
      → k.is_anonymous t ≡ false
      → title_of t ≡ title
      → handle_default_case k t elem ≡ some (named_schema k title)
  unfolding handle_default_case has_byte
  handle-plain t title elem bracket anonymous title_eq =
      rw
        (
          has_prefix-without b'[' (codes "map[") t refl bracket,
          has_prefix-without b'[' (codes "[") t refl bracket,
          anonymous,
          title_eq,
        )
        refl

  -- A text that is no bracketed type.
  pub schema_at-plain :
      (n : ℕ) (t title : Bytes)
      → normalize t ≡ t
      → has_byte b'[' t ≡ false
      → k.is_anonymous t ≡ false
      → title_of t ≡ title
      → schema_at k (suc n) t ≡ some (named t title)
  schema_at-plain n t title normal bracket anonymous title_eq =
      schema_at-step n t t normal
      ∙ resolve (builtin t) _ _ (handle-plain t title _ bracket anonymous title_eq)

  pub ident-expected :
      (n : ℕ) (name : Bytes)
      → is_covered (ident name) ≡ true
      → schema_at k (suc n) name ≡ some (expected (ident name))
  unfolding is_covered is_word has_byte expected
  ident-expected n [] covered = ground (arith, covered)
  ident-expected n (c ∷ s) covered =
      schema_at-plain n (c ∷ s) (c ∷ s)
        (normalize-word c s (ground (arith, covered)) (ground (arith, covered)))
        (ground (arith, covered)) (ground (arith, covered))
        (title_of-word (c ∷ s) (ground (arith, covered)))

  pub selector-expected :
      (n : ℕ) (pkg sel : Bytes)
      → is_covered (selector_expr (ident pkg) sel) ≡ true
      → schema_at k (suc n) (pkg ++ (b'.' ∷ sel)) ≡ some (expected (selector_expr (ident pkg) sel))
  unfolding is_covered is_word has_byte expected
  selector-expected n [] sel covered = ground (arith, covered)
  selector-expected n (c ∷ s) [] covered = ground (arith, covered)
  selector-expected n (c ∷ s) (d ∷ sel) covered =
      schema_at-plain n (c ∷ (s ++ (b'.' ∷ d ∷ sel))) (d ∷ sel)
        (normalize-word c _ (ground (arith, covered)) (ground (arith, covered)))
        (ground (arith, covered, has_byte-append b'[' s (b'.' ∷ d ∷ sel))) (ground (arith, covered))
        (title_of-selector (c ∷ s) (d ∷ sel) (ground (arith, covered)))

  pub covered-is_varargs : (e : Expr) → is_covered e ≡ true → is_varargs (expr_string e) ≡ false
  unfolding is_covered is_word has_byte expr_string is_varargs has_prefix drop_prefix
  covered-is_varargs (ident []) covered = refl
  covered-is_varargs (ident (c ∷ s)) covered = ground (arith, covered, ==_iff c b'.', ==_iff b'.' c)
  covered-is_varargs (star_expr x) covered = refl
  covered-is_varargs (selector_expr (ident []) sel) covered = ground (arith, covered)
  covered-is_varargs (selector_expr (ident (c ∷ s)) sel) covered =
      ground (arith, covered, ==_iff c b'.', ==_iff b'.' c)
  covered-is_varargs interface_type covered = refl
  covered-is_varargs (slice_type elt) covered = refl
  covered-is_varargs (array_type len elt) covered = refl
  covered-is_varargs (map_type key value) covered = refl
  covered-is_varargs e covered = ground (arith, covered)
