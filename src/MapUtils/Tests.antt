-- ===== src/MapUtils/Tests.antt =====
-- The theorem on maputils/maputils.go at concrete maps.
use toolkit.Prelude.{
  ℕ, ◌≡◌, refl, List, [], ◌∷◌, Bytes, bytes_eq, bytes_eq_instance, some, true, false, arith, ◌==◌,
}
use toolkit.Prelude.Map.{lookup, is_unique}
use toolkit.MapUtils.{diff, create_modify_change}
use toolkit.MapUtils.Lookups.{diff-lookup}
use toolkit.MapUtils.Merging.{
  Entries, empty, entry, Leaves, leaf, map_value, slice_value, item, no_items, find, merge,
  merge_at,
}
use toolkit.MapUtils.Merging.Found
use toolkit.MapUtils.Merging.Levels.{levels, merge_at-Reads}
use toolkit.MapUtils.Merging.Paths.{Reads}

abbrev new_map : List (Bytes × ℕ)
new_map = (b'a' ∷ [], 1) ∷ (b'b' ∷ [], 5) ∷ []

abbrev old_map : List (Bytes × ℕ)
old_map = (b'b' ∷ [], 2) ∷ (b'c' ∷ [], 3) ∷ []

diff-lookup_example :
    lookup (b'b' ∷ []) (diff 0 ◌==◌ new_map old_map) ≡ some (create_modify_change 0 ◌==◌ 2 5)
unfolding lookup is_unique bytes_eq
diff-lookup_example = diff-lookup 0 ◌==◌ (b'b' ∷ []) new_map old_map refl

-- Nested maps whose leaves are numbers.
abbrev numbers : Leaves ℕ
numbers = record { comparable = λ a. some true; same = ◌==◌ }

abbrev key_a : Bytes
key_a = b'a' ∷ []

abbrev key_b : Bytes
key_b = b'b' ∷ []

-- `{"a": {"a": 1}, "b": [1, 2]}` and `{"a": {"b": 2}, "b": [2, 3]}`
abbrev destination : Entries ℕ
destination =
    entry key_a (map_value (entry key_a (leaf 1) empty))
      (entry key_b (slice_value (item (leaf 1) (item (leaf 2) no_items))) empty)

abbrev source : Entries ℕ
source =
    entry key_a (map_value (entry key_b (leaf 2) empty))
      (entry key_b (slice_value (item (leaf 2) (item (leaf 3) no_items))) empty)

merge_at-Reads_example :
    (m : Entries ℕ) × (merge_at numbers false 0 destination source ≡ some m)
    × Reads numbers false
        (key_a ∷ key_b ∷ [])
        (some (map_value source))
        (some (map_value destination))
        (some (map_value m))
unfolding Found.is_unique levels find bytes_eq
merge_at-Reads_example =
    merge_at-Reads numbers (λ a. (true, refl)) false 0 destination source refl (ground arith)
      (key_a ∷ key_b ∷ [])

merge_example :
    merge numbers destination source
    ≡ some (
        entry key_a (map_value (entry key_a (leaf 1) (entry key_b (leaf 2) empty))) (
          entry key_b (slice_value (item (leaf 1) (item (leaf 2) (item (leaf 3) no_items)))) empty))
unfolding merge bytes_eq
merge_example = refl
