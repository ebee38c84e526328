-- ===== src/Prelude/Keys.antt =====
-- How often a key stands in a map.
use toolkit.Prelude.{ℕ, ◌≡◌, ◌&&◌, ◌==◌, List, [], ◌∷◌, arith, if◌then◌else◌, count, nat_eq, ==_iff}
use toolkit.Prelude.Map.{insert, keys}

pub count-keys-insert :
    {V : Type 0}
    → (k u : ℕ) (v : V) (m : List (ℕ × V))
    → count u (keys (insert k v m))
      ≡ (if (k == u) && (count k (keys m) == 0) then 1 else count u (keys m))
unfolding insert
count-keys-insert k u v [] = ground arith
count-keys-insert k u v ((j, w) ∷ m) =
    ground (arith, count-keys-insert k u v m, ==_iff k u, ==_iff j k, ==_iff j u)
