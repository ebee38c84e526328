-- ===== src/MapUtils/Merging/Levels.antt =====
-- How deep `Merge` of maputils/maputils.go goes, and when it returns.
use Prim.Native.Nat.{max}
use toolkit.Prelude.{
  ◌≡◌, refl, ap, ◌∙◌, ℕ, suc, ◌+◌, ◌≤◌, Bool, true, false, List, [], ◌∷◌, Option, none, some, inl,
  inr, arith, Bytes, any, Bool-cases, if◌then◌else◌,
}
use toolkit.MapUtils.Merging.{
  Value, leaf, map_value, slice_value, Entries, empty, entry, Items, no_items, item, Leaves, Merged,
  append_item, add_leaf, add_item, add_items, find, put, merge_slices, merge_loop, merged_value,
  merge_at, check_depth, as_map,
}
use toolkit.MapUtils.Merging.Found.{is_unique, merge_loop-entry}
use toolkit.MapUtils.Merging.Paths.{Reads, merge_loop-Reads}

-- The maps on the longest chain of maps in maps.
unfoldable mutual
  pub levels : {A : Type 0} → Entries A → ℕ
  levels empty = 1
  levels (entry k v m) = max (levels_value v) (levels m)

  pub levels_value : {A : Type 0} → Value A → ℕ
  levels_value (leaf a) = 0
  levels_value (map_value m) = suc (levels m)
  levels_value (slice_value items) = 0

levels-positive : {A : Type 0} (m : Entries A) → 1 ≤ levels m
unfolding levels
levels-positive empty = omega arith
levels-positive (entry k v m) = omega (arith, levels-positive m)

check_depth-fits :
    {A : Type 0} (depth : ℕ) (o : Option (Entries A)) → depth ≤ 32 → check_depth depth o ≡ o
unfolding check_depth
check_depth-fits depth o fits = ground (arith, fits)

module _ {A : Type 0} (r : Leaves A)
    (some_type : (a : A) → (b : Bool) × (r.comparable a ≡ some b)) where
  add_leaf-total :
      (a : A) (b : Bool) (st : Merged r) → (st' : Merged r) × (add_leaf r (some b) a st ≡ some st')
  unfolding add_leaf
  add_leaf-total a false (merged, kv) = (_, refl)
  add_leaf-total a true (merged, kv) = elim (Bool-cases (any (r.same a) kv)) [
    | inl known ↦ ((merged, kv), ground (arith, known))
    | inr new ↦ ((append_item merged (leaf a), a ∷ kv), ground (arith, new))
  ]

  add_item-total : (v : Value A) (st : Merged r) → (st' : Merged r) × (add_item r v st ≡ some st')
  unfolding add_item
  add_item-total (leaf a) st =
      let (b, type_eq) = some_type a in
      let (st', added) = add_leaf-total a b st in (st', ap (λ c. add_leaf r c a st) type_eq ∙ added)
  add_item-total (map_value m) (merged, kv) = (_, refl)
  add_item-total (slice_value s) (merged, kv) = (_, refl)

  add_items-total :
      (items : Items A) (st : Merged r) → (st' : Merged r) × (add_items r items st ≡ some st')
  unfolding add_items
  add_items-total no_items st = (st, refl)
  add_items-total (item v items) st =
      let (st', added) = add_item-total v st in
      let (st'', rest) = add_items-total items st' in
      (st'', ap (λ o. elim o [ none ↦ none | some t ↦ add_items r items t ]) added ∙ rest)

  merge_slices-total : (d s : Items A) → (w : Value A) × (merge_slices r d s ≡ some w)
  unfolding merge_slices
  merge_slices-total d s =
      let (st, first) = add_items-total d (no_items, []) in
      let ((merged, kv), second) = add_items-total s st in
      (slice_value merged, ground (arith, first, second))

  joined-total :
      (overwrite : Bool) (d s : Items A)
      → (w : Value A) × ((if overwrite then some (slice_value s) else merge_slices r d s) ≡ some w)
  joined-total true d s = (slice_value s, refl)
  joined-total false d s = merge_slices-total d s

module _ {A : Type 0} (r : Leaves A) (some_type : (a : A) → (b : Bool) × (r.comparable a ≡ some b))
    (overwrite : Bool) where
  mutual
    unfolding merge_loop levels check_depth

    merge_loop-total :
        (depth : ℕ) (src dst : Entries A)
        → levels src + depth ≤ 33
        → (m : Entries A) × (merge_loop r overwrite depth src dst ≡ some m)
    merge_loop-total depth empty dst fits = (dst, refl)
    merge_loop-total depth (entry k v src) dst fits =
        let (w, value_eq) = merged_value-total depth v (find k dst) (omega (arith, fits)) in
        let (m, rest) = merge_loop-total depth src (put k w dst) (omega (arith, fits)) in
        (m, merge_loop-entry r overwrite depth k src dst k v w value_eq ∙ rest)

    merged_value-total :
        (depth : ℕ) (v : Value A) (old : Option (Value A))
        → levels_value v + depth ≤ 33
        → (w : Value A) × (merged_value r overwrite depth v old ≡ some w)
    merged_value-total depth (leaf a) old fits = (leaf a, refl)
    merged_value-total depth (slice_value s) none fits = (slice_value s, refl)
    merged_value-total depth (slice_value s) (some (leaf a)) fits = (slice_value s, refl)
    merged_value-total depth (slice_value s) (some (map_value d)) fits = (slice_value s, refl)
    merged_value-total depth (slice_value s) (some (slice_value d)) fits =
        joined-total r some_type overwrite d s
    merged_value-total depth (map_value s) none fits = (map_value s, refl)
    merged_value-total depth (map_value s) (some (leaf a)) fits = (map_value s, refl)
    merged_value-total depth (map_value s) (some (slice_value d)) fits = (map_value s, refl)
    merged_value-total depth (map_value s) (some (map_value d)) fits =
        let (m, merged) = merge_loop-total (depth + 1) s d (omega (arith, fits)) in
        (
          map_value m,
          ap (λ o. as_map (check_depth (depth + 1) o)) merged
              ∙ ap as_map
                  (check_depth-fits (depth + 1) (some m) (omega (arith, fits, levels-positive s))),
        )

  -- Let every value in a slice have a type, let no key of the source stand twice in a map, and let
  -- the depth at which it starts and the longest chain of nested maps in the source be 33 at most
  -- together. `merge` then returns a map. A path of keys that leads to a leaf of the source leads to
  -- that leaf in the result; if it leads to a map there, it leads to one in the result; if it leads to
  -- a slice, and slices are overwritten or it leads to no slice of the destination, it leads to that
  -- slice; if it leads to a slice of both, and slices are not overwritten, it leads to the items of
  -- the destination and behind them those of the source, in order, but for those that are comparable
  -- and the same as one before that is kept; if it meets a key that is missing in the source, it leads
  -- to what it leads to in the destination, and if it goes on through what is no map in the source, to
  -- nothing.
  pub merge_at-Reads :
      (depth : ℕ) (dst src : Entries A)
      → is_unique src ≡ true
      → levels src + depth ≤ 33
      → (ks : List Bytes)
      → (m : Entries A) × (merge_at r overwrite depth dst src ≡ some m)
        × Reads r overwrite ks (some (map_value src)) (some (map_value dst)) (some (map_value m))
  unfolding merge_at
  merge_at-Reads depth dst src unique fits ks =
      let (m, merged) = merge_loop-total depth src dst fits in
      (
        m,
        ap (check_depth depth) merged
            ∙ check_depth-fits depth (some m) (omega (arith, fits, levels-positive src)),
        merge_loop-Reads r overwrite ks depth src dst m unique merged,
      )
