-- ===== src/Protobuf/RoundTrip.antt =====
-- `MessageOf` of protobuf/v3/message.go on the texts that `ExprString` of astutils/funcs.go writes.
use toolkit.AstUtils.{
  Expr, ident, star_expr, selector_expr, interface_type, slice_type, array_type, basic_lit,
  map_type, ellipsis, expr_string, is_varargs, to_slice,
}
use toolkit.OpenApi.Expected.{is_word}
use toolkit.OpenApi.Texts.{
  normalize-star, normalize-word, title_of-word, title_of-selector, has_byte-append,
}
use toolkit.OpenApi.{title_of, normalize}
use toolkit.Prelude.{
  ◌≡◌, refl, sym, ap, ◌∙◌, inl, inr, ℕ, zero, suc, ◌<◌, true, false, ◌==◌, ==_iff, [], ◌∷◌, ◌++◌,
  none, some, Bytes, arith, bytes_eq, bytes_eq_instance, Bool-cases, length, length-append,
}
use toolkit.Prelude.Map.{lookup}
use toolkit.Prelude.Text.{
  codes, has_prefix, drop_prefix, trim_prefix, trim_left, trim_space, has_byte,
}
use toolkit.Protobuf.Expected.{declared, slice_of, by_name, expected, is_named, is_covered}
use toolkit.Protobuf.Gives.{Gives, Gives-eq, Gives-built}
use toolkit.Protobuf.Messages.{ProtobufType, message_type, Message, value_message}
use toolkit.Protobuf.Stores.{M, return}
use toolkit.Protobuf.Types.{Context, builtin}
use toolkit.Query.{is_empty}
use toolkit.Protobuf.{handle_default_case, message_at}
use toolkit.Protobuf.Cases.{
  builtin-slice, builtin-array, builtin-map, is_named-none, false-not_true, handle-plain,
  handle-slice, handle-array, handle-map,
}

module _ (c : Context) where
  -- One step of `MessageOf`.
  abbrev step : ℕ → Bytes → M ProtobufType
  step n ft = elim (builtin ft) [
    | some m ↦ return (message_type m)
    | none ↦ handle_default_case c (message_at c n) ft
  ]

  message_at-step : (n : ℕ) (t ft : Bytes) → normalize t ≡ ft → message_at c (suc n) t ≡ step n ft
  unfolding message_at
  message_at-step n t ft normal = ap (step n) normal

  Gives-step :
      (n : ℕ) (t ft : Bytes) (result : ProtobufType)
      → normalize t ≡ ft
      → Gives (step n ft) result
      → Gives (message_at c (suc n) t) result
  Gives-step n t ft result normal gives =
      Gives-eq (message_at c (suc n) t) (step n ft) result (message_at-step n t ft normal) gives

  step-some :
      (n : ℕ) (ft : Bytes) (m : Message) → builtin ft ≡ some m → Gives (step n ft) (message_type m)
  step-some n ft m found =
      Gives-eq (step n ft) (return (message_type m)) (message_type m)
        (ap
          (λ o. elim o [
            | some x ↦ return (message_type x)
            | none ↦ handle_default_case c (message_at c n) ft
          ])
          found)
        (λ s. (s, refl))

  step-none :
      (n : ℕ) (ft : Bytes) (result : ProtobufType)
      → builtin ft ≡ none
      → Gives (handle_default_case c (message_at c n) ft) result
      → Gives (step n ft) result
  step-none n ft result missing gives =
      Gives-eq (step n ft) (handle_default_case c (message_at c n) ft) result
        (ap
          (λ o. elim o [
            | some m ↦ return (message_type m)
            | none ↦ handle_default_case c (message_at c n) ft
          ])
          missing)
        gives

  -- A text that is no bracketed type.
  plain-expected :
      (n : ℕ) (t title : Bytes)
      → normalize t ≡ t
      → has_byte b'[' t ≡ false
      → is_named c t ≡ true
      → title_of t ≡ title
      → Gives (message_at c (suc n) t) (by_name c t title)
  plain-expected n t title normal bracket named title_eq =
      Gives-step n t t (by_name c t title) normal (
        Gives-built (builtin t) (handle_default_case c (message_at c n) t) (declared c title)
          (handle-plain c (message_at c n) t title bracket named title_eq))

  ident-expected :
      (n : ℕ) (name : Bytes)
      → is_covered c (ident name) ≡ true
      → Gives (message_at c (suc n) name) (expected c (ident name))
  unfolding is_covered is_word has_byte expected
  ident-expected n [] covered = absurd (false-not_true covered)
  ident-expected n (d ∷ s) covered =
      plain-expected n (d ∷ s) (d ∷ s)
        (normalize-word d s (ground (arith, covered)) (ground (arith, covered)))
        (ground (arith, covered)) (ground (arith, covered))
        (title_of-word (d ∷ s) (ground (arith, covered)))

  selector-expected :
      (n : ℕ) (pkg sel : Bytes)
      → is_covered c (selector_expr (ident pkg) sel) ≡ true
      → Gives
          (message_at c (suc n) (pkg ++ (b'.' ∷ sel)))
          (expected c (selector_expr (ident pkg) sel))
  unfolding is_covered is_word has_byte expected
  selector-expected n [] sel covered = absurd (false-not_true covered)
  selector-expected n (d ∷ s) [] covered = ground (arith, covered)
  selector-expected n (d ∷ s) (e ∷ sel) covered =
      plain-expected n (d ∷ (s ++ (b'.' ∷ e ∷ sel))) (e ∷ sel)
        (normalize-word d _ (ground (arith, covered)) (ground (arith, covered)))
        (ground (arith, covered, has_byte-append b'[' s (b'.' ∷ e ∷ sel))) (ground (arith, covered))
        (title_of-selector (d ∷ s) (e ∷ sel) (ground (arith, covered)))

  slice-expected :
      (n : ℕ) (t : Bytes) (elem : ProtobufType)
      → Gives (message_at c n t) elem
      → Gives (step n (b'[' ∷ b']' ∷ t)) (slice_of c t elem)
  unfolding slice_of
  slice-expected n t elem gives = elim (Bool-cases (bytes_eq (codes "rune") t)) [
    | inl runes ↦ rw (runes) (step-some n (b'[' ∷ b']' ∷ t) _ (rw (runes) at (builtin-slice t)))
    | inr no_runes ↦ elim (Bool-cases (bytes_eq (codes "byte") t)) [
      | inl bytes ↦
          rw (no_runes, bytes)
            (step-some n (b'[' ∷ b']' ∷ t) _ (rw (no_runes, bytes) at (builtin-slice t)))
      | inr no_bytes ↦
          rw (no_runes, no_bytes)
            (step-none n (b'[' ∷ b']' ∷ t) _ (rw (no_runes, no_bytes) at (builtin-slice t))
              (handle-slice c (message_at c n) t elem gives))
    ]
  ]

  interface-expected :
      (n : ℕ)
      → is_covered c interface_type ≡ true
      → Gives (message_at c (suc n) (codes "interface{}")) (message_type value_message)
  unfolding is_covered builtin bytes_eq declared is_empty trim_space has_byte
  interface-expected n covered =
      let other : lookup (codes "interface{}") c.enum_store ≡ none =
        is_named-none _ (ground (arith, covered)) in
      rw (other) at (
        plain-expected n (codes "interface{}") (codes "interface{}")
          (normalize-word b'i' _ refl refl) refl (ground (arith, covered))
          (title_of-word (codes "interface{}") refl))

  covered-is_varargs : (e : Expr) → is_covered c e ≡ true → is_varargs (expr_string e) ≡ false
  unfolding is_covered is_word has_byte expr_string is_varargs has_prefix drop_prefix
  covered-is_varargs (ident []) covered = refl
  covered-is_varargs (ident (d ∷ s)) covered = ground (arith, covered, ==_iff d b'.', ==_iff b'.' d)
  covered-is_varargs (star_expr x) covered = refl
  covered-is_varargs (selector_expr (ident []) sel) covered = absurd (false-not_true covered)
  covered-is_varargs (selector_expr (ident (d ∷ s)) sel) covered =
      ground (arith, covered, ==_iff d b'.', ==_iff b'.' d)
  covered-is_varargs interface_type covered = refl
  covered-is_varargs (slice_type elt) covered = refl
  covered-is_varargs (array_type len elt) covered = refl
  covered-is_varargs (map_type key value) covered = refl
  covered-is_varargs e covered = ground (arith, covered)

  array-closed :
      (d : ℕ) (digits : Bytes) (elt : Expr)
      → is_covered c (array_type (basic_lit (d ∷ digits)) elt) ≡ true
      → (d == b']') ≡ false
  unfolding is_covered has_byte
  array-closed d digits elt covered = ground (arith, covered)

  message_at-expected :
      (e : Expr) (n : ℕ)
      → is_covered c e ≡ true
      → length (expr_string e) < n
      → Gives (message_at c n (expr_string e)) (expected c e)
  unfolding is_covered expected expr_string
  message_at-expected e zero covered fuel = absurd (omega (arith, fuel))
  message_at-expected (ident name) (suc n) covered fuel = ident-expected n name covered
  message_at-expected (selector_expr (ident pkg) sel) (suc n) covered fuel =
      selector-expected n pkg sel covered
  message_at-expected (star_expr x) (suc n) covered fuel =
      Gives-eq _ _ _
        (message_at-step n _ _ (normalize-star (expr_string x) (covered-is_varargs x covered))
          ∙ sym (message_at-step n (expr_string x) _ refl))
        (message_at-expected x (suc n) covered (omega (arith, fuel)))
  message_at-expected (slice_type elt) (suc n) covered fuel =
      Gives-step n _ _ _ (normalize-word b'[' _ refl refl) (
        slice-expected n (expr_string elt) (expected c elt)
          (message_at-expected elt n covered (omega (arith, fuel))))
  message_at-expected (array_type (basic_lit (d ∷ digits)) elt) (suc n) covered fuel =
      Gives-step n _ _ _ (normalize-word b'[' _ refl refl) (
        step-none n _ _
          (builtin-array d (digits ++ (b']' ∷ expr_string elt)) (array-closed d digits elt covered))
          (handle-array c (message_at c n) d digits (expr_string elt) (expected c elt)
            (ground (arith, covered))
            (message_at-expected elt n (ground (arith, covered))
              (omega (arith, fuel, length-append digits (b']' ∷ expr_string elt))))))
  message_at-expected (map_type key value) (suc n) covered fuel =
      Gives-step n _ _ _ (normalize-word b'm' _ refl refl) (
        step-none n _ _ (builtin-map (expr_string key ++ (b']' ∷ expr_string value))) (
          handle-map c (message_at c n) (expr_string key) (expr_string value) (expected c key)
            (expected c value) (ground (arith, covered))
            (message_at-expected key n (ground (arith, covered))
              (omega (arith, fuel, length-append (expr_string key) (b']' ∷ expr_string value))))
            (message_at-expected value n (ground (arith, covered))
              (omega (arith, fuel, length-append (expr_string key) (b']' ∷ expr_string value))))))
  message_at-expected interface_type (suc n) covered fuel = interface-expected n covered
  message_at-expected e (suc n) covered fuel = ground (arith, covered)

  -- A type is covered if it is built from names, qualified names, pointers, slices, arrays and maps,
  -- where a name is not empty and has no star, dot or opening bracket, none is taken for an anonymous
  -- struct, the length of an array is a literal that is not empty, and neither a length nor the text of
  -- a map's key has a closing bracket; or if `interface{}` stands for a name, and no enum is called so.
  -- For the text that `ExprString` writes for such a type, `MessageOf` returns, from all stores, with
  -- no panic and within a depth of the length of the text, the protobuf type of the type: pointers do
  -- not matter; a slice or an array is repeated, and a list of lists repeats the message that holds the
  -- inner list; a map is one of its key and its value; where protobuf has no such list or map, since
  -- its element or value is a map or its key is of floating point or bytes, it is any value. The text
  -- of the same type with the dots of varargs gives the type of its slice.
  pub message_at-expr_string :
      (e : Expr) (n : ℕ)
      → is_covered c e ≡ true
      → length (expr_string e) < n
      → Gives (message_at c n (expr_string e)) (expected c e)
        × Gives (message_at c (suc n) (expr_string (ellipsis e))) (expected c (slice_type e))
  unfolding expr_string expected normalize is_varargs has_prefix drop_prefix to_slice trim_prefix
      trim_left
  message_at-expr_string e n covered fuel = (
    message_at-expected e n covered fuel,
    Gives-step n (expr_string (ellipsis e)) (b'[' ∷ b']' ∷ expr_string e) _ refl
        (slice-expected n (expr_string e) (expected c e) (message_at-expected e n covered fuel)),
  )
