-- ===== src/AstUtils/Interfaces/Endpoints.antt =====
-- Names that are made of the segments of a path, through `Pattern` and `pathVariables` of
-- astutils/interfacecollector.go.
use toolkit.AstUtils.Interfaces.{
  is_lower_letter, to_upper, replace_all, onto_first, split, join, tail_of, method_and_endpoint,
  pattern_of, path_variables,
}
use toolkit.AstUtils.Interfaces.Verbs.{all, is_plain, is_verb, is_http_method-to_upper}
use toolkit.Prelude.{
  ◌-◌, Bool, true, false, not, ◌&&◌, ◌==◌, ◌≡◌, refl, ◌∙◌, sym, ap, List, [], ◌∷◌, ◌++◌, append-nil,
  Option, none, some, Bytes, bytes_eq, if◌then◌else◌, keep, map, arith, ==_iff, bytes_eq_instance,
}
use toolkit.Prelude.Text.{codes, has_prefix, trim_prefix, trim_space, trim_space-count, drop_prefix}
use toolkit.Query.{is_empty}

-- A part of a path.
pub data Segment : Type 0 where
  literal : Bytes → Segment
  variable : Bytes → Segment

-- A word: a lower case letter, and then no capital, underscore or slash.
abbrev is_word : Bytes → Bool
is_word [] = false
is_word (b ∷ s) = is_lower_letter b && all is_plain s

is_word-plain : (w : Bytes) → is_word w ≡ true → all is_plain w ≡ true
is_word-plain [] word = refl
is_word-plain (b ∷ s) word = ground (arith, word)

abbrev pub word_of : Segment → Bytes
word_of (literal w) = w
word_of (variable w) = w

abbrev pub are_words : List Segment → Bool
are_words [] = true
are_words (p ∷ ps) = is_word (word_of p) && are_words ps

abbrev capital : Bytes → Bytes
capital [] = []
capital (b ∷ s) = (b - 32) ∷ s

-- `Shelves_Shelf`
abbrev pub name_of : List Segment → Bytes
name_of [] = []
name_of (literal w ∷ ps) = capital w ++ name_of ps
name_of (variable w ∷ ps) = b'_' ∷ (capital w ++ name_of ps)

-- `shelves` and `:shelf`
abbrev pub text_of : Segment → Bytes
text_of (literal w) = w
text_of (variable w) = b':' ∷ w

abbrev pub path_of : List Segment → Bytes
path_of ps = join (map text_of ps)

abbrev pub variables_of : List Segment → List Bytes
variables_of [] = []
variables_of (literal w ∷ ps) = variables_of ps
variables_of (variable w ∷ ps) = w ∷ variables_of ps

-- A first segment that is the name of one of the four methods of HTTP is the method; otherwise the method is POST.
abbrev pub endpoint_of : List Segment → Option (Bytes × Bytes)
endpoint_of [] = none
endpoint_of (literal w ∷ ps) =
    if is_verb w
    then some (to_upper w, path_of ps)
    else some (codes "POST", path_of (literal w ∷ ps))
endpoint_of (variable w ∷ ps) = some (codes "POST", path_of (variable w ∷ ps))

abbrev slashed : List Segment → Bytes
slashed [] = []
slashed (p ∷ ps) = b'/' ∷ (text_of p ++ slashed ps)

replace_all-plain :
    (w s : Bytes) → all is_plain w ≡ true → replace_all false (w ++ s) ≡ w ++ replace_all false s
unfolding replace_all
replace_all-plain [] s plain = refl
replace_all-plain (b ∷ w) s plain = ground (arith, plain, replace_all-plain w s)

replace_all-capital :
    (w s : Bytes)
    → is_word w ≡ true
    → replace_all false (capital w ++ s) ≡ b'/' ∷ (w ++ replace_all false s)
unfolding replace_all
replace_all-capital [] s word = ground (arith, word)
replace_all-capital (b ∷ w) s word = ground (arith, word, replace_all-plain w s)

replace_all-variable :
    (w s : Bytes)
    → is_word w ≡ true
    → replace_all false (b'_' ∷ (capital w ++ s)) ≡ b'/' ∷ b':' ∷ (w ++ replace_all false s)
unfolding replace_all
replace_all-variable [] s word = ground (arith, word)
replace_all-variable (b ∷ w) s word = ground (arith, word, replace_all-plain w s)

replace_all-name_of :
    (ps : List Segment) → are_words ps ≡ true → replace_all false (name_of ps) ≡ slashed ps
unfolding replace_all
replace_all-name_of [] words = refl
replace_all-name_of (literal w ∷ ps) words =
    replace_all-capital w (name_of ps) (ground (arith, words))
    ∙ ap (λ s. b'/' ∷ (w ++ s)) (replace_all-name_of ps (ground (arith, words)))
replace_all-name_of (variable w ∷ ps) words =
    replace_all-variable w (name_of ps) (ground (arith, words))
    ∙ ap (λ s. b'/' ∷ b':' ∷ (w ++ s)) (replace_all-name_of ps (ground (arith, words)))

-- A text in front of the first part.
unfoldable put : Bytes → List Bytes → List Bytes
put [] parts = parts
put (b ∷ w) parts = onto_first b (put w parts)

put-nil : (w : Bytes) (parts : List Bytes) → put w ([] ∷ parts) ≡ w ∷ parts
unfolding put
put-nil [] parts = refl
put-nil (b ∷ w) parts = ap (onto_first b) (put-nil w parts)

abbrev no_slash : Bytes → Bool
no_slash = all (λ b. not (b == b'/'))

split-append : (w s : Bytes) → no_slash w ≡ true → split (w ++ s) ≡ put w (split s)
unfolding split put
split-append [] s free = refl
split-append (b ∷ w) s free = ground (arith, free, split-append w s)

no_slash-plain : (w : Bytes) → all is_plain w ≡ true → no_slash w ≡ true
no_slash-plain [] plain = refl
no_slash-plain (b ∷ w) plain = ground (arith, plain, no_slash-plain w)

no_slash-word : (w : Bytes) → is_word w ≡ true → no_slash w ≡ true
no_slash-word [] word = ground (arith, word)
no_slash-word (b ∷ w) word = ground (arith, word, no_slash-plain w, ==_iff b b'/')

no_slash-text_of : (p : Segment) → is_word (word_of p) ≡ true → no_slash (text_of p) ≡ true
no_slash-text_of (literal w) word = no_slash-word w word
no_slash-text_of (variable w) word = ground (arith, no_slash-word w word)

split-slashed : (ps : List Segment) → are_words ps ≡ true → split (slashed ps) ≡ [] ∷ map text_of ps
unfolding split
split-slashed [] words = refl
split-slashed (p ∷ ps) words =
    ap (λ parts. [] ∷ parts)
      (split-append (text_of p) (slashed ps) (no_slash-text_of p (ground (arith, words)))
        ∙ ap (put (text_of p)) (split-slashed ps (ground (arith, words)))
        ∙ put-nil (text_of p) (map text_of ps))

split-path_of :
    (p : Segment) (ps : List Segment)
    → are_words (p ∷ ps) ≡ true
    → split (path_of (p ∷ ps)) ≡ map text_of (p ∷ ps)
unfolding split join
split-path_of p [] words =
    ap split (sym (append-nil (text_of p)))
    ∙ split-append (text_of p) [] (no_slash-text_of p (ground (arith, words)))
    ∙ put-nil (text_of p) []
split-path_of p (q ∷ ps) words =
    split-append (text_of p) (b'/' ∷ path_of (q ∷ ps)) (no_slash-text_of p (ground (arith, words)))
    ∙ put-nil (text_of p) (split (path_of (q ∷ ps)))
    ∙ ap (λ parts. text_of p ∷ parts) (split-path_of q ps (ground (arith, words)))

-- A text with a colon is not empty after its spaces are trimmed.
is_empty-colon : (w : Bytes) → is_empty (b':' ∷ w) ≡ false
unfolding is_empty
is_empty-colon w = ground (
  arith,
  trim_space-count (λ b. b == b':') (b':' ∷ w) refl,
  bytes_eq_instance.beq_iff (trim_space (b':' ∷ w)) [],
  bytes_eq_instance.beq_iff (trim_space (b':' ∷ w)) (b'<' ∷ b'n' ∷ b'i' ∷ b'l' ∷ b'>' ∷ []),
)

abbrev is_variable : Bytes → Bool
is_variable item = not (is_empty item) && has_prefix (codes ":") item

is_variable-literal : (w : Bytes) → is_word w ≡ true → is_variable w ≡ false
unfolding has_prefix drop_prefix
is_variable-literal [] word = ground (arith, word)
is_variable-literal (b ∷ w) word = ground (arith, word, ==_iff b':' b)

is_variable-variable : (w : Bytes) → is_variable (b':' ∷ w) ≡ true
unfolding has_prefix drop_prefix
is_variable-variable w = ground (arith, is_empty-colon w)

trim_prefix-colon : (w : Bytes) → trim_prefix (codes ":") (b':' ∷ w) ≡ w
unfolding trim_prefix drop_prefix
trim_prefix-colon w = refl

keep-variables :
    (ps : List Segment)
    → are_words ps ≡ true
    → map (trim_prefix (codes ":")) (keep is_variable (map text_of ps)) ≡ variables_of ps
keep-variables [] words = refl
keep-variables (literal w ∷ ps) words =
    rw (is_variable-literal w (ground (arith, words))) (keep-variables ps (ground (arith, words)))
keep-variables (variable w ∷ ps) words =
    rw (is_variable-variable w, trim_prefix-colon w)
      (ap (λ ws. w ∷ ws) (keep-variables ps (ground (arith, words))))

method_and_endpoint-text_of :
    (ps : List Segment)
    → are_words ps ≡ true
    → method_and_endpoint (map text_of ps) ≡ endpoint_of ps
unfolding method_and_endpoint
method_and_endpoint-text_of [] words = refl
method_and_endpoint-text_of (literal w ∷ ps) words =
    ap
      (λ b.
        if b then some (to_upper w, path_of ps) else some (codes "POST", path_of (literal w ∷ ps)))
      (is_http_method-to_upper w (is_word-plain w (ground (arith, words))))
method_and_endpoint-text_of (variable w ∷ ps) words = refl

path_variables-path_of :
    (ps : List Segment) → are_words ps ≡ true → path_variables (path_of ps) ≡ variables_of ps
unfolding path_variables split is_empty trim_space bytes_eq join
path_variables-path_of [] words = refl
path_variables-path_of (p ∷ ps) words =
    ap (λ parts. map (trim_prefix (codes ":")) (keep is_variable parts)) (split-path_of p ps words)
    ∙ keep-variables (p ∷ ps) words

-- A name that is made of the segments of a path, which are words: a lower case letter, and then no
-- capital, underscore or slash. In the name each word has a capital, and a variable an underscore in
-- front. `Pattern` finds the path again, behind the method of HTTP if the first segment is the
-- literal get, post, put or delete, or whole with POST; for no segments it panics. `pathVariables` of a path of such segments
-- are the variables among them, in order.
pub pattern_of-name_of :
    (ps : List Segment)
    → are_words ps ≡ true
    → (pattern_of (name_of ps) ≡ endpoint_of ps) × (path_variables (path_of ps) ≡ variables_of ps)
unfolding pattern_of
pattern_of-name_of ps words = (
  ap (λ s. method_and_endpoint (tail_of (split s))) (replace_all-name_of ps words)
      ∙ ap (λ parts. method_and_endpoint (tail_of parts)) (split-slashed ps words)
      ∙ method_and_endpoint-text_of ps words,
  path_variables-path_of ps words,
)
