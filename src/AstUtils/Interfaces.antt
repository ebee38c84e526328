-- ===== src/AstUtils/Interfaces.antt =====
-- astutils/interfacecollector.go, `Pattern` and `pathVariables`: the HTTP method and the path that the
-- name of a method stands for. Names are in ASCII.
pub mod Verbs
pub mod Endpoints
use toolkit.Prelude.{
  ℕ, ◌+◌, ◌-◌, Bool, true, false, not, ◌&&◌, leb, ◌==◌, List, [], ◌∷◌, ◌++◌, Option, none, some,
  Bytes, bytes_eq, if◌then◌else◌, any, keep, map,
}
use toolkit.Prelude.Text.{codes, has_prefix, trim_prefix}
use toolkit.Query.{is_empty}

abbrev pub is_upper_letter : ℕ → Bool
is_upper_letter b = leb b'A' b && leb b b'Z'

abbrev pub is_lower_letter : ℕ → Bool
is_lower_letter b = leb b'a' b && leb b b'z'

-- `strings.ToUpper` of a text in ASCII.
abbrev pub to_upper : Bytes → Bytes
to_upper = map (λ b. if is_lower_letter b then b - 32 else b)

-- `re1.ReplaceAllStringFunc` for "_?[A-Z]"; the flag tells of an underscore that is not written yet.
unfoldable pub replace_all : Bool → Bytes → Bytes
replace_all false [] = []
replace_all true [] = b'_' ∷ []
replace_all false (b ∷ s) =
    let plain = replace_all false s in
    let pending = replace_all true s in
    if is_upper_letter b then b'/' ∷ (b + 32) ∷ plain else if b == b'_' then pending else b ∷ plain
replace_all true (b ∷ s) =
    let plain = replace_all false s in
    let pending = replace_all true s in
    if is_upper_letter b
    then b'/' ∷ b':' ∷ (b + 32) ∷ plain
    else if b == b'_'
    then b'_' ∷ pending
    else b'_' ∷ b ∷ plain

-- `strings.Split` and `strings.Join` at "/".
abbrev pub onto_first : ℕ → List Bytes → List Bytes
onto_first b [] = (b ∷ []) ∷ []
onto_first b (part ∷ parts) = (b ∷ part) ∷ parts

unfoldable pub split : Bytes → List Bytes
split [] = [] ∷ []
split (b ∷ s) = let parts = split s in if b == b'/' then [] ∷ parts else onto_first b parts

unfoldable pub join : List Bytes → Bytes
join [] = []
join (part ∷ []) = part
join (part ∷ next ∷ parts) = part ++ b'/' ∷ join (next ∷ parts)

abbrev pub http_methods : List Bytes
http_methods = codes "GET" ∷ codes "POST" ∷ codes "PUT" ∷ codes "DELETE" ∷ []

abbrev pub is_http_method : Bytes → Bool
is_http_method head = any (λ m. bytes_eq m head) http_methods

-- The end of `Pattern`, on the parts behind the first slash. `none`: it panics.
unfoldable pub method_and_endpoint : List Bytes → Option (Bytes × Bytes)
unfolding bytes_eq
method_and_endpoint [] = none
method_and_endpoint (head ∷ rest) =
    if is_http_method (to_upper head)
    then some (to_upper head, join rest)
    else some (codes "POST", join (head ∷ rest))

abbrev pub tail_of : List Bytes → List Bytes
tail_of [] = []
tail_of (part ∷ parts) = parts

unfoldable pub pattern_of : Bytes → Option (Bytes × Bytes)
unfolding replace_all split method_and_endpoint
pattern_of method = method_and_endpoint (tail_of (split (replace_all false method)))

unfoldable pub path_variables : Bytes → List Bytes
unfolding split has_prefix trim_prefix is_empty
path_variables endpoint =
    map (trim_prefix (codes ":"))
      (keep (λ item. not (is_empty item) && has_prefix (codes ":") item) (split endpoint))
