-- ===== src/OpenApi/RoundTrip.antt =====
-- `SchemaOf` of openapi/v3/helper.go on the texts that `ExprString` of astutils/funcs.go writes.
use toolkit.AstUtils.{
  Expr, ident, star_expr, selector_expr, interface_type, slice_type, array_type, basic_lit,
  map_type, ellipsis, expr_string, is_varargs, to_slice,
}
use toolkit.OpenApi.Expected.{
  step, schema_at-step, schema_at-plain, ident-expected, selector-expected, covered-is_varargs,
  expected, is_covered,
}
use toolkit.OpenApi.Texts.{
  normalize-star, normalize-word, title_of-word, enum_or_any-none, builtin-slice, builtin-array,
  builtin-map,
}
use toolkit.OpenApi.{
  Schema, array, map_of, any_schema, string_schema, Known, builtin, named_schema, normalize,
  schema_at, schema_of, handle_default_case,
}
use toolkit.Prelude.{
  ◌≡◌, refl, sym, ap, ◌∙◌, inl, inr, ℕ, zero, suc, ◌<◌, true, false, ◌||◌, ◌∷◌, ◌++◌, none, some,
  Bytes, bytes_eq, arith, Bool-cases, bytes_eq_instance, if◌then◌else◌, length, length-append,
}
use toolkit.Prelude.Text.{
  codes, has_prefix, drop_prefix, trim_prefix, trim_left, trim_space, has_byte, after_first, cut,
  after_first-append,
}
use toolkit.Query.{is_empty}

module _ (k : Known) where
  step-some :
      (n : ℕ) (ft : Bytes) (schema : Schema) → builtin ft ≡ some schema → step k n ft ≡ some schema
  step-some n ft schema found =
      ap
        (λ o. elim o [
          | some s ↦ some s
          | none ↦ handle_default_case k ft (schema_at k n (after_first b']' ft))
        ])
        found

  -- A bracketed type: what stands behind the bracket decides.
  step-none :
      (n : ℕ) (ft t : Bytes) (elem : Schema)
      → builtin ft ≡ none
      → after_first b']' ft ≡ t
      → schema_at k n t ≡ some elem
      → step k n ft ≡ handle_default_case k ft (some elem)
  step-none n ft t elem missing after elem_eq =
      ap
        (λ o. elim o [
          | some s ↦ some s
          | none ↦ handle_default_case k ft (schema_at k n (after_first b']' ft))
        ])
        missing
      ∙ ap (handle_default_case k ft) (ap (schema_at k n) after ∙ elem_eq)

  slice-step :
      (n : ℕ) (t : Bytes) (items : Schema)
      → schema_at k n t ≡ some items
      → step k n (b'[' ∷ b']' ∷ t)
        ≡ some (
            if bytes_eq (codes "rune") t || bytes_eq (codes "byte") t
            then string_schema
            else array items)
  unfolding handle_default_case has_prefix drop_prefix after_first cut
  slice-step n t items elem =
      elim (Bool-cases (bytes_eq (codes "rune") t || bytes_eq (codes "byte") t)) [
        | inl text ↦ rw (text) (step-some n (b'[' ∷ b']' ∷ t) _ (rw (text) at (builtin-slice t)))
        | inr other ↦
            rw (other)
              (step-none n (b'[' ∷ b']' ∷ t) t items (rw (other) at (builtin-slice t)) refl elem)
      ]

  array-step :
      (n : ℕ) (c : ℕ) (digits t : Bytes) (items : Schema)
      → has_byte b']' (c ∷ digits) ≡ false
      → schema_at k n t ≡ some items
      → step k n (b'[' ∷ c ∷ (digits ++ (b']' ∷ t))) ≡ some (array items)
  unfolding handle_default_case has_prefix drop_prefix has_byte
  array-step n c digits t items literal elem =
      step-none n (b'[' ∷ c ∷ (digits ++ (b']' ∷ t))) t items
        (builtin-array c _ (ground (arith, literal)))
        (after_first-append b']' (b'[' ∷ c ∷ digits) t literal) elem

  map-step :
      (n : ℕ) (key t : Bytes) (elem : Schema)
      → has_byte b']' key ≡ false
      → schema_at k n t ≡ some elem
      → step k n (b'm' ∷ b'a' ∷ b'p' ∷ b'[' ∷ (key ++ (b']' ∷ t)))
        ≡ some (map_of elem (b'm' ∷ b'a' ∷ b'p' ∷ b'[' ∷ (key ++ (b']' ∷ t))))
  unfolding handle_default_case has_prefix drop_prefix has_byte
  map-step n key t elem missing elem_eq =
      step-none n (b'm' ∷ b'a' ∷ b'p' ∷ b'[' ∷ (key ++ (b']' ∷ t))) t elem (builtin-map _)
        (after_first-append b']' (b'm' ∷ b'a' ∷ b'p' ∷ b'[' ∷ key) t missing) elem_eq

  interface-expected :
      (n : ℕ)
      → is_covered k interface_type ≡ true
      → schema_at k (suc n) (expr_string interface_type) ≡ some any_schema
  unfolding is_covered expr_string has_byte builtin bytes_eq named_schema is_empty trim_space
  interface-expected n covered =
      schema_at-plain k n (codes "interface{}") (codes "interface{}")
        (normalize-word b'i' _ refl refl) refl (ground (arith, covered))
        (title_of-word (codes "interface{}") refl)
      ∙ ap some (enum_or_any-none _ (ground (arith, covered)))

  schema_at-expected :
      (e : Expr) (n : ℕ)
      → is_covered k e ≡ true
      → length (expr_string e) < n
      → schema_at k n (expr_string e) ≡ some (expected k e)
  unfolding is_covered expected expr_string
  schema_at-expected e zero covered fuel = absurd (omega (arith, fuel))
  schema_at-expected (ident name) (suc n) covered fuel = ident-expected k n name covered
  schema_at-expected (selector_expr (ident pkg) sel) (suc n) covered fuel =
      selector-expected k n pkg sel covered
  schema_at-expected (star_expr x) (suc n) covered fuel =
      schema_at-step k n _ _ (normalize-star (expr_string x) (covered-is_varargs k x covered))
      ∙ sym (schema_at-step k n (expr_string x) _ refl)
      ∙ schema_at-expected x (suc n) covered (omega (arith, fuel))
  schema_at-expected (slice_type elt) (suc n) covered fuel =
      schema_at-step k n _ _ (normalize-word b'[' _ refl refl)
      ∙ slice-step n (expr_string elt) (expected k elt)
          (schema_at-expected elt n covered (omega (arith, fuel)))
  schema_at-expected (array_type (basic_lit (c ∷ digits)) elt) (suc n) covered fuel =
      schema_at-step k n _ _ (normalize-word b'[' _ refl refl)
      ∙ array-step n c digits (expr_string elt) (expected k elt) (ground (arith, covered)) (
          schema_at-expected elt n (ground (arith, covered))
            (omega (arith, fuel, length-append digits (b']' ∷ expr_string elt))))
  schema_at-expected (map_type key value) (suc n) covered fuel =
      schema_at-step k n _ _ (normalize-word b'm' _ refl refl)
      ∙ map-step n (expr_string key) (expr_string value) (expected k value)
          (ground (arith, covered))
          (schema_at-expected value n (ground (arith, covered))
            (omega (arith, fuel, length-append (expr_string key) (b']' ∷ expr_string value))))
  schema_at-expected interface_type (suc n) covered fuel = interface-expected n covered
  schema_at-expected e (suc n) covered fuel = ground (arith, covered)

  -- A type is covered if it is built from names, qualified names, pointers, slices, arrays and maps,
  -- where a name is not empty and has no star, dot or opening bracket, none is taken for an anonymous
  -- struct, the length of an array is a literal that is not empty, and neither a length nor the text of
  -- a map's key has a closing bracket; or if `interface{}` stands for a name, and no enum is called so.
  -- For the text that `ExprString` writes for such a type, `SchemaOf` returns, within its depth, the
  -- schema of the type: pointers do not matter, slices and arrays are arrays but for `[]rune` and
  -- `[]byte`, a map is an object of its values, and a qualified name that is not built in is looked up
  -- without its package. The text of the same type with the dots of varargs has the schema of its slice.
  pub schema_of-expr_string :
      (e : Expr)
      → is_covered k e ≡ true
      → (schema_of k (expr_string e) ≡ some (expected k e))
        × (schema_of k (expr_string (ellipsis e)) ≡ some (expected k (slice_type e)))
  unfolding schema_of expr_string expected normalize is_varargs has_prefix drop_prefix to_slice
      trim_prefix trim_left
  schema_of-expr_string e covered = (
    schema_at-expected e (suc (length (expr_string e))) covered (omega arith),
    schema_at-step k (length (expr_string (ellipsis e))) (expr_string (ellipsis e))
          (b'[' ∷ b']' ∷ expr_string e) refl
        ∙ slice-step (length (expr_string (ellipsis e))) (expr_string e) (expected k e)
            (schema_at-expected e (length (expr_string (ellipsis e))) covered (omega arith)),
  )
