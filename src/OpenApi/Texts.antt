-- ===== src/OpenApi/Texts.antt =====
-- The texts of Go types, for openapi/v3/helper.go: prefixes, dots, and the cases of `SchemaOf`.

use toolkit.AstUtils.{is_varargs}
use toolkit.OpenApi.{title_of, normalize, any_schema, string_schema, builtin, enum_or_any}
use toolkit.Prelude.{
  ◌≡◌, refl, ℕ, true, false, ◌||◌, ◌==◌, ==_iff, List, [], ◌∷◌, ◌++◌, Option, none, some, Bytes,
  bytes_eq, arith, bytes_eq_instance, if◌then◌else◌,
}
use toolkit.Prelude.Text.{
  codes, has_prefix, drop_prefix, trim_left, trim_space, has_byte, after_last,
}
use toolkit.Query.{is_empty}

pub is_empty_nil : is_empty [] ≡ true
unfolding is_empty trim_space bytes_eq
is_empty_nil = refl

pub has_prefix-without :
    (b : ℕ) (p s : Bytes) → has_byte b p ≡ true → has_byte b s ≡ false → has_prefix p s ≡ false
unfolding has_prefix has_byte drop_prefix
has_prefix-without b [] s within without = ground (arith, within)
has_prefix-without b (c ∷ p) [] within without = refl
has_prefix-without b (c ∷ p) (d ∷ s) within without =
    ground (arith, within, without, has_prefix-without b p s, ==_iff c d, ==_iff c b, ==_iff d b)

pub has_byte-append : (b : ℕ) (s t : Bytes) → has_byte b (s ++ t) ≡ (has_byte b s || has_byte b t)
unfolding has_byte
has_byte-append b [] t = refl
has_byte-append b (c ∷ s) t = ground (arith, has_byte-append b s t)

pub after_last-without : (b : ℕ) (s : Bytes) → has_byte b s ≡ false → after_last b s ≡ s
unfolding after_last has_byte
after_last-without b [] missing = refl
after_last-without b (c ∷ s) missing = ground (arith, missing, after_last-without b s)

pub after_last-append :
    (b : ℕ) (s t : Bytes) → has_byte b t ≡ false → after_last b (s ++ (b ∷ t)) ≡ t
unfolding after_last has_byte
after_last-append b [] t missing = ground (arith, missing, ==_iff b b)
after_last-append b (c ∷ s) t missing =
    ground (arith, after_last-append b s t missing, has_byte-append b s (b ∷ t), ==_iff b b)

pub enum_or_any-none :
    (o : Option (List Bytes))
    → (elim o [ none ↦ true | some values ↦ false ]) ≡ true
    → enum_or_any o ≡ any_schema
unfolding enum_or_any
enum_or_any-none none missing = refl
enum_or_any-none (some values) missing = ground (arith, missing)

pub builtin-slice :
    (t : Bytes)
    → builtin (b'[' ∷ b']' ∷ t) ≡ (
        if bytes_eq (codes "rune") t || bytes_eq (codes "byte") t then some string_schema else none)
unfolding builtin bytes_eq
builtin-slice t = ground arith

pub builtin-array : (c : ℕ) (s : Bytes) → (c == b']') ≡ false → builtin (b'[' ∷ c ∷ s) ≡ none
unfolding builtin bytes_eq
builtin-array c s other = ground (arith, other, ==_iff c b']', ==_iff b']' c)

pub builtin-map : (t : Bytes) → builtin (b'm' ∷ b'a' ∷ b'p' ∷ b'[' ∷ t) ≡ none
unfolding builtin bytes_eq
builtin-map t = refl

pub normalize-word :
    (c : ℕ) (s : Bytes) → (c == b'*') ≡ false → (c == b'.') ≡ false → normalize (c ∷ s) ≡ c ∷ s
unfolding normalize is_varargs has_prefix drop_prefix trim_left
normalize-word c s star dot = ground (arith, star, dot)

pub title_of-word : (name : Bytes) → has_byte b'.' name ≡ false → title_of name ≡ name
unfolding title_of
title_of-word name dot = ground (arith, dot, after_last-without b'.' name dot)

pub title_of-selector :
    (x sel : Bytes) → has_byte b'.' sel ≡ false → title_of (x ++ (b'.' ∷ sel)) ≡ sel
unfolding title_of has_byte
title_of-selector x sel dot =
    let dotted : has_byte b'.' (x ++ (b'.' ∷ sel)) ≡ true =
      ground (arith, has_byte-append b'.' x (b'.' ∷ sel), ==_iff b'.' b'.') in
    rw (dotted, is_empty_nil, title_of) (after_last-append b'.' x sel dot)

pub normalize-star : (t : Bytes) → is_varargs t ≡ false → normalize (b'*' ∷ t) ≡ normalize t
unfolding normalize trim_left is_varargs has_prefix drop_prefix
normalize-star t plain = rw (plain, normalize) refl
