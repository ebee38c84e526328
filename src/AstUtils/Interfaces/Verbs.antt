-- ===== src/AstUtils/Interfaces/Verbs.antt =====
-- The words that `Pattern` of astutils/interfacecollector.go takes for a method of HTTP.
use toolkit.AstUtils.Interfaces.{is_upper_letter, to_upper, is_http_method}
use toolkit.Prelude.{
  ℕ, Bool, true, not, ◌&&◌, ◌||◌, ◌==◌, ◌≡◌, refl, [], ◌∷◌, Bytes, bytes_eq, arith,
}
use toolkit.Prelude.Text.{codes}

abbrev pub all : (ℕ → Bool) → Bytes → Bool
all p [] = true
all p (b ∷ s) = p b && all p s

-- No capital, underscore or slash.
abbrev pub is_plain : ℕ → Bool
is_plain b = not (is_upper_letter b) && not (b == b'_') && not (b == b'/')

abbrev pub is_verb : Bytes → Bool
is_verb w =
    bytes_eq (codes "get") w
    || bytes_eq (codes "post") w
    || bytes_eq (codes "put") w
    || bytes_eq (codes "delete") w

to_upper-bytes_eq :
    (v w : Bytes)
    → all is_plain v ≡ true
    → all is_plain w ≡ true
    → bytes_eq (to_upper v) (to_upper w) ≡ bytes_eq v w
unfolding bytes_eq
to_upper-bytes_eq [] [] v_plain w_plain = refl
to_upper-bytes_eq [] (b ∷ w) v_plain w_plain = refl
to_upper-bytes_eq (a ∷ v) [] v_plain w_plain = refl
to_upper-bytes_eq (a ∷ v) (b ∷ w) v_plain w_plain =
    ground (arith, v_plain, w_plain, to_upper-bytes_eq v w)

pub is_http_method-to_upper :
    (w : Bytes) → all is_plain w ≡ true → is_http_method (to_upper w) ≡ is_verb w
is_http_method-to_upper w plain =
    let get : bytes_eq (codes "GET") (to_upper w) ≡ bytes_eq (codes "get") w =
      to_upper-bytes_eq (codes "get") w refl plain in
    let post : bytes_eq (codes "POST") (to_upper w) ≡ bytes_eq (codes "post") w =
      to_upper-bytes_eq (codes "post") w refl plain in
    let put : bytes_eq (codes "PUT") (to_upper w) ≡ bytes_eq (codes "put") w =
      to_upper-bytes_eq (codes "put") w refl plain in
    let delete : bytes_eq (codes "DELETE") (to_upper w) ≡ bytes_eq (codes "delete") w =
      to_upper-bytes_eq (codes "delete") w refl plain in
    ground (arith, get, post, put, delete)
