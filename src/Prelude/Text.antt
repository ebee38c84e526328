-- ===== src/Prelude/Text.antt =====
-- The functions of Go's `strings` that the models use. A string is its bytes.
use Prim.Native.Nat.{ℕ, zero, suc, ◌+◌}
use Prim.Native.Char.{code}
use Prim.Native.String.{String}
use mathlib.Core.Path.{◌≡◌, refl, ◌∙◌}
use mathlib.Core.Bool.{Bool, true, false, ◌&&◌, ◌||◌}
use mathlib.Core.Option.{Option, none, some}
use mathlib.Core.List.{List, [], ◌∷◌, ◌++◌}
use native.Mathlib.Omega.{arith}
use toolkit.Prelude.Tests.{◌==◌, ==_iff, if◌then◌else◌, Bytes, Option-cases}
use toolkit.Prelude.Lists.{count_if, count_if-append, length}
use mathlib.Core.Logic.{inl, inr}

-- The rest after a prefix.
unfoldable pub drop_prefix : Bytes → Bytes → Option Bytes
drop_prefix [] s = some s
drop_prefix (b ∷ p) [] = none
drop_prefix (b ∷ p) (c ∷ s) = let rest = drop_prefix p s in if b == c then rest else none

unfoldable pub drop_first : List Bytes → Bytes → Option Bytes
unfolding drop_prefix
drop_first [] s = none
drop_first (p ∷ ps) s = elim (drop_prefix p s) [ none ↦ drop_first ps s | some r ↦ some r ]

-- Drops prefixes as long as there are any; each is a byte long at least.
unfoldable pub drop_prefixes : ℕ → List Bytes → Bytes → Bytes
unfolding drop_first
drop_prefixes zero ps s = s
drop_prefixes (suc n) ps s = elim (drop_first ps s) [ none ↦ s | some r ↦ drop_prefixes n ps r ]

unfoldable pub reverse : Bytes → Bytes
reverse [] = []
reverse (b ∷ s) = reverse s ++ b ∷ []

unfoldable pub reverse_all : List Bytes → List Bytes
unfolding reverse
reverse_all [] = []
reverse_all (p ∷ ps) = reverse p ∷ reverse_all ps

-- The characters of `unicode.IsSpace`, in UTF-8.
abbrev pub spaces : List Bytes
spaces =
    (9 ∷ [])
    ∷ (10 ∷ [])
    ∷ (11 ∷ [])
    ∷ (12 ∷ [])
    ∷ (13 ∷ [])
    ∷ (32 ∷ [])
    ∷ (194 ∷ 133 ∷ [])
    ∷ (194 ∷ 160 ∷ [])
    ∷ (225 ∷ 154 ∷ 128 ∷ [])
    ∷ (226 ∷ 128 ∷ 128 ∷ [])
    ∷ (226 ∷ 128 ∷ 129 ∷ [])
    ∷ (226 ∷ 128 ∷ 130 ∷ [])
    ∷ (226 ∷ 128 ∷ 131 ∷ [])
    ∷ (226 ∷ 128 ∷ 132 ∷ [])
    ∷ (226 ∷ 128 ∷ 133 ∷ [])
    ∷ (226 ∷ 128 ∷ 134 ∷ [])
    ∷ (226 ∷ 128 ∷ 135 ∷ [])
    ∷ (226 ∷ 128 ∷ 136 ∷ [])
    ∷ (226 ∷ 128 ∷ 137 ∷ [])
    ∷ (226 ∷ 128 ∷ 138 ∷ [])
    ∷ (226 ∷ 128 ∷ 168 ∷ [])
    ∷ (226 ∷ 128 ∷ 169 ∷ [])
    ∷ (226 ∷ 128 ∷ 175 ∷ [])
    ∷ (226 ∷ 129 ∷ 159 ∷ [])
    ∷ (227 ∷ 128 ∷ 128 ∷ [])
    ∷ []

-- `strings.TrimSpace`
unfoldable pub trim_space : Bytes → Bytes
unfolding drop_prefixes reverse reverse_all
trim_space s =
    reverse
      (drop_prefixes (length s) (reverse_all spaces) (reverse (drop_prefixes (length s) spaces s)))

-- The parts before and after the first byte `b`: `strings.Contains` and `strings.Index`.
unfoldable pub cut : ℕ → Bytes → Option (Bytes × Bytes)
cut b [] = none
cut b (c ∷ s) =
    let rest = cut b s in
    if c == b then some ([], s) else (elim rest [ none ↦ none | some r ↦ some (c ∷ r.0, r.1) ])

module _ (q : ℕ → Bool) where
  -- No byte of the prefixes counts.
  abbrev pub none_of : List Bytes → Bool
  none_of [] = true
  none_of (p ∷ ps) = (count_if q p == 0) && none_of ps

  drop_prefix-count :
      (p s r : Bytes) → drop_prefix p s ≡ some r → count_if q s ≡ count_if q p + count_if q r
  unfolding drop_prefix
  drop_prefix-count [] s r e = ground (arith, e)
  drop_prefix-count (b ∷ p) [] r e = ground (arith, e)
  drop_prefix-count (b ∷ p) (c ∷ s) r e = ground (arith, e, drop_prefix-count p s r, ==_iff b c)

  drop_first-count :
      (ps : List Bytes) (s r : Bytes)
      → none_of ps ≡ true
      → drop_first ps s ≡ some r
      → count_if q s ≡ count_if q r
  unfolding drop_first
  drop_first-count [] s r z e = ground (arith, e)
  drop_first-count (p ∷ ps) s r z e =
      ground (arith, z, e, drop_first-count ps s r, drop_prefix-count p s r)

  drop_prefixes-count :
      (n : ℕ) (ps : List Bytes) (s : Bytes)
      → none_of ps ≡ true
      → count_if q (drop_prefixes n ps s) ≡ count_if q s
  unfolding drop_prefixes
  drop_prefixes-count zero ps s z = refl
  drop_prefixes-count (suc n) ps s z = elim (Option-cases (drop_first ps s)) [
    | inl stop ↦ ground arith
    | inr (r, e) ↦ ground (arith, drop_prefixes-count n ps r z, drop_first-count ps s r z e)
  ]

  reverse-count : (s : Bytes) → count_if q (reverse s) ≡ count_if q s
  unfolding reverse
  reverse-count [] = refl
  reverse-count (b ∷ s) = ground (arith, reverse-count s, count_if-append q (reverse s) (b ∷ []))

  reverse_all-none_of : (ps : List Bytes) → none_of ps ≡ true → none_of (reverse_all ps) ≡ true
  unfolding reverse_all
  reverse_all-none_of [] z = refl
  reverse_all-none_of (p ∷ ps) z = ground (arith, z, reverse_all-none_of ps, reverse-count p)

  -- Trimming drops no byte that no space has.
  pub trim_space-count :
      (s : Bytes) → none_of spaces ≡ true → count_if q (trim_space s) ≡ count_if q s
  unfolding trim_space
  trim_space-count s z =
      let left = drop_prefixes (length s) spaces s in
      reverse-count (drop_prefixes (length s) (reverse_all spaces) (reverse left))
      ∙ drop_prefixes-count (length s) (reverse_all spaces) (reverse left)
          (reverse_all-none_of spaces z)
      ∙ reverse-count left
      ∙ drop_prefixes-count (length s) spaces s z

-- The bytes of a text in ASCII.
abbrev pub codes : String → Bytes
codes String.[] = []
codes (String.◌∷◌ c s) = code c ∷ codes s

-- `strings.HasPrefix` and `strings.TrimPrefix`
unfoldable pub has_prefix : Bytes → Bytes → Bool
unfolding drop_prefix
has_prefix p s = elim (drop_prefix p s) [ none ↦ false | some rest ↦ true ]

unfoldable pub trim_prefix : Bytes → Bytes → Bytes
unfolding drop_prefix
trim_prefix p s = elim (drop_prefix p s) [ none ↦ s | some rest ↦ rest ]

-- `strings.TrimLeft` of one byte
unfoldable pub trim_left : ℕ → Bytes → Bytes
trim_left b [] = []
trim_left b (c ∷ s) = if c == b then trim_left b s else c ∷ s

-- `strings.Contains` of one byte
unfoldable pub has_byte : ℕ → Bytes → Bool
has_byte b [] = false
has_byte b (c ∷ s) = (c == b) || has_byte b s

-- `strings.Contains`
unfoldable pub contains : Bytes → Bytes → Bool
unfolding has_prefix
contains p [] = has_prefix p []
contains p (c ∷ s) = has_prefix p (c ∷ s) || contains p s

-- `s[strings.Index(s, b)+1:]`: all of `s` if the byte is not there.
unfoldable pub after_first : ℕ → Bytes → Bytes
unfolding cut
after_first b s = elim (cut b s) [ none ↦ s | some parts ↦ parts.1 ]

-- `s[strings.LastIndex(s, b)+1:]`
unfoldable pub after_last : ℕ → Bytes → Bytes
unfolding has_byte
after_last b [] = []
after_last b (c ∷ s) =
    let rest = after_last b s in if has_byte b s then rest else if c == b then s else c ∷ s

pub cut-append : (b : ℕ) (s t : Bytes) → has_byte b s ≡ false → cut b (s ++ (b ∷ t)) ≡ some (s, t)
unfolding cut has_byte
cut-append b [] t missing = ground arith
cut-append b (c ∷ s) t missing = ground (arith, missing, cut-append b s t)

pub after_first-append :
    (b : ℕ) (s t : Bytes) → has_byte b s ≡ false → after_first b (s ++ (b ∷ t)) ≡ t
unfolding after_first
after_first-append b s t missing = rw (cut-append b s t missing, after_first) refl
