-- ===== src/MapUtils/Merging.antt =====
-- `Merge` and `MergeOverwriteSlice` of maputils/maputils.go, on nested maps with string keys. `none`
-- is a panic. The nil map is not modelled: a write to it panics.
pub mod Found
pub mod Unions
pub mod Paths
pub mod Levels
use toolkit.Prelude.{
  ℕ, ◌+◌, Bool, true, false, ltb, List, [], ◌∷◌, Option, none, some, Bytes, bytes_eq, any,
  if◌then◌else◌,
}

-- What a map or a slice holds: a map, a slice, or anything else.
mutual
  pub data Value (A : Type 0) : Type 0 where
    leaf : A → Value A
    map_value : Entries A → Value A
    slice_value : Items A → Value A

  -- A map, its keys in the order in which `range` visits them.
  pub data Entries (A : Type 0) : Type 0 where
    empty : Entries A
    entry : Bytes → Value A → Entries A → Entries A

  pub data Items (A : Type 0) : Type 0 where
    no_items : Items A
    item : Value A → Items A → Items A

-- The values that are neither: `reflect.ValueOf(a).Type().Comparable()`, which panics for nil, and
-- the equality of interface values.
pub record Leaves (A : Type 0) : Type 0 where
  pub comparable : A → Option Bool
  pub same : A → A → Bool

abbrev pub max_depth : ℕ
max_depth = 32

module _ {A : Type 0} where
  unfoldable pub find : Bytes → Entries A → Option (Value A)
  find k empty = none
  find k (entry j v m) = if bytes_eq j k then some v else find k m

  -- `dst[key] = srcVal`
  unfoldable pub put : Bytes → Value A → Entries A → Entries A
  put k v empty = entry k v empty
  put k v (entry j w m) = if bytes_eq j k then entry k v m else entry j w (put k v m)

  unfoldable pub append_item : Items A → Value A → Items A
  append_item no_items v = item v no_items
  append_item (item w items) v = item w (append_item items v)

  -- `if depth > MaxDepth { panic("too deep!") }`
  unfoldable pub check_depth : ℕ → Option (Entries A) → Option (Entries A)
  check_depth depth r = if ltb max_depth depth then none else r

  abbrev pub as_map : Option (Entries A) → Option (Value A)
  as_map none = none
  as_map (some m) = some (map_value m)

module _ {A : Type 0} (r : Leaves A) where
  -- What the loops over the slices keep: `merged`, and the keys of `kv`.
  abbrev pub Merged : Type 0
  Merged = Items A × List A

  unfoldable pub add_leaf : Option Bool → A → Merged → Option Merged
  unfolding append_item
  add_leaf none a st = none
  add_leaf (some false) a (merged, kv) = some (append_item merged (leaf a), kv)
  add_leaf (some true) a (merged, kv) =
      if any (r.same a) kv then some (merged, kv) else some (append_item merged (leaf a), a ∷ kv)

  unfoldable pub add_item : Value A → Merged → Option Merged
  unfolding add_leaf append_item
  add_item (leaf a) st = add_leaf (r.comparable a) a st
  add_item v (merged, kv) = some (append_item merged v, kv)

  unfoldable pub add_items : Items A → Merged → Option Merged
  unfolding add_item
  add_items no_items st = some st
  add_items (item v items) st = elim (add_item v st) [
    | none ↦ none
    | some st' ↦ add_items items st'
  ]

  unfoldable pub merge_slices : Items A → Items A → Option (Value A)
  unfolding add_items
  merge_slices dst src = elim (add_items dst (no_items, [])) [
    | none ↦ none
    | some st ↦ elim (add_items src st) [
      | none ↦ none
      | some (merged, kv) ↦ some (slice_value merged)
    ]
  ]

  unfoldable mutual
    unfolding find put check_depth merge_slices

    -- The loop of `merge` over `src`.
    pub merge_loop : Bool → ℕ → Entries A → Entries A → Option (Entries A)
    merge_loop overwrite depth empty dst = some dst
    merge_loop overwrite depth (entry k v src) dst =
        elim (merged_value overwrite depth v (find k dst)) [
          | none ↦ none
          | some v' ↦ merge_loop overwrite depth src (put k v' dst)
        ]

    -- What `dst[key]` becomes, from `srcVal` and what it was.
    pub merged_value : Bool → ℕ → Value A → Option (Value A) → Option (Value A)
    merged_value overwrite depth (map_value src) (some (map_value dst)) =
        as_map (check_depth (depth + 1) (merge_loop overwrite (depth + 1) src dst))
    merged_value overwrite depth (slice_value src) (some (slice_value dst)) =
        if overwrite then some (slice_value src) else merge_slices dst src
    merged_value overwrite depth v old = some v

  unfoldable pub merge_at : Bool → ℕ → Entries A → Entries A → Option (Entries A)
  unfolding merge_loop check_depth
  merge_at overwrite depth dst src = check_depth depth (merge_loop overwrite depth src dst)

  unfoldable pub merge : Entries A → Entries A → Option (Entries A)
  unfolding merge_at
  merge dst src = merge_at false 0 dst src

  unfoldable pub merge_overwrite_slice : Entries A → Entries A → Option (Entries A)
  unfolding merge_at
  merge_overwrite_slice dst src = merge_at true 0 dst src
