-- ===== src/MapUtils/Merging/Paths.antt =====
-- What stands at a path of keys in the map that `Merge` of maputils/maputils.go returns.
use toolkit.Prelude.{
  ◌≡◌, refl, sym, ap, subst, ◌∙◌, ℕ, ◌+◌, Bool, true, false, not, ◌||◌, List, [], ◌∷◌, Option, none,
  some, inl, inr, arith, Bytes, Option-cases, Bool-cases,
}
use toolkit.MapUtils.Merging.{
  Value, leaf, map_value, slice_value, Entries, Items, Leaves, find, merge_loop, merged_value,
  merge_slices, no_items, check_depth, as_map,
}
use toolkit.MapUtils.Merging.Found.{
  is_unique, is_unique_value, is_unique-find, merge_loop-find, expected, merge_loop-merged_value,
}
use toolkit.MapUtils.Merging.Unions.{append_items, IsUnion, merge_slices-IsUnion}

module _ {A : Type 0} where
  -- The value at a path.
  unfoldable pub read : List Bytes → Option (Value A) → Option (Value A)
  unfolding find
  read ks none = none
  read [] (some v) = some v
  read (k ∷ ks) (some (map_value m)) = read ks (find k m)
  read (k ∷ ks) (some v) = none

  -- A path leads to a value of the source, or to a key that is missing there, or through a value that
  -- is no map.
  unfoldable pub reaches_none : List Bytes → Option (Value A) → Bool
  unfolding find
  reaches_none ks none = true
  reaches_none [] (some v) = false
  reaches_none (k ∷ ks) (some (map_value m)) = reaches_none ks (find k m)
  reaches_none (k ∷ ks) (some v) = false

  abbrev pub holds_slice : Option (Value A) → Bool
  holds_slice (some (slice_value s)) = true
  holds_slice o = false

  -- What stands at a path of the result.
  pub data Reads (r : Leaves A) (overwrite : Bool) (ks : List Bytes) (src dst m : Option (Value A))
      : Type 0 where
    takes_leaf :
        (a : A)
        → read ks src ≡ some (leaf a)
        → read ks m ≡ some (leaf a)
        → Reads r overwrite ks src dst m
    takes_map :
        (s m' : Entries A)
        → read ks src ≡ some (map_value s)
        → read ks m ≡ some (map_value m')
        → Reads r overwrite ks src dst m
    takes_slice :
        (s : Items A)
        → read ks src ≡ some (slice_value s)
        → (overwrite || not (holds_slice (read ks dst))) ≡ true
        → read ks m ≡ some (slice_value s)
        → Reads r overwrite ks src dst m
    joins_slices :
        (s d m' : Items A)
        → overwrite ≡ false
        → read ks src ≡ some (slice_value s)
        → read ks dst ≡ some (slice_value d)
        → read ks m ≡ some (slice_value m')
        → IsUnion r no_items (append_items d s) m'
        → Reads r overwrite ks src dst m
    keeps : reaches_none ks src ≡ true → read ks m ≡ read ks dst → Reads r overwrite ks src dst m
    hides :
        read ks src ≡ none
        → reaches_none ks src ≡ false
        → read ks m ≡ none
        → Reads r overwrite ks src dst m

module _ {A : Type 0} (r : Leaves A) (overwrite : Bool) where
  -- A value whose key the destination does not have, or has no map for.
  copied-Reads :
      (ks : List Bytes) (v : Value A) (dst : Option (Value A))
      → read ks dst ≡ none
      → Reads r overwrite ks (some v) dst (some v)
  copied-Reads ks v dst missing = elim (Option-cases (read ks (some v))) [
    | inl ends ↦ elim (Bool-cases (reaches_none ks (some v))) [
      | inl absent ↦ keeps absent (ends ∙ sym missing)
      | inr through ↦ hides ends through ends
    ]
    | inr (leaf a, at) ↦ takes_leaf a at at
    | inr (map_value m, at) ↦ takes_map m m at at
    | inr (slice_value s, at) ↦ takes_slice s at (ground (arith, missing)) at
  ]

  -- The paths below one key, if the paths below a nested map are as they should be.
  abbrev Below : List Bytes → Type 0
  Below ks =
      (depth : ℕ) (src dst m : Entries A)
      → is_unique src ≡ true
      → merge_loop r overwrite depth src dst ≡ some m
      → Reads r overwrite ks (some (map_value src)) (some (map_value dst)) (some (map_value m))

  -- A leaf, and a slice that does not meet one.
  leaf-Reads :
      (ks : List Bytes) (a : A) (w : Value A) (dst : Option (Value A))
      → some (leaf a) ≡ some w
      → Reads r overwrite ks (some (leaf a)) dst (some w)
  unfolding read reaches_none
  leaf-Reads [] a w dst same = takes_leaf a refl (sym same)
  leaf-Reads (k ∷ ks) a w dst same = hides refl refl (ap (read (k ∷ ks)) (sym same))

  slice-Reads :
      (ks : List Bytes) (s : Items A) (w : Value A) (dst : Option (Value A))
      → (overwrite || not (holds_slice dst)) ≡ true
      → some (slice_value s) ≡ some w
      → Reads r overwrite ks (some (slice_value s)) dst (some w)
  unfolding read reaches_none
  slice-Reads [] s w none replaces same = takes_slice s refl replaces (sym same)
  slice-Reads [] s w (some d) replaces same = takes_slice s refl replaces (sym same)
  slice-Reads (k ∷ ks) s w dst replaces same = hides refl refl (ap (read (k ∷ ks)) (sym same))

  joined-Reads :
      (ks : List Bytes) (s d : Items A) (w : Value A)
      → overwrite ≡ false
      → merge_slices r d s ≡ some w
      → Reads r overwrite ks (some (slice_value s)) (some (slice_value d)) (some w)
  unfolding read reaches_none
  joined-Reads [] s d w joins done =
      let (m, made, union) = merge_slices-IsUnion r d s w done in
      joins_slices s d m joins refl refl made union
  joined-Reads (k ∷ ks) s d w joins done =
      let (m, made, union) = merge_slices-IsUnion r d s w done in
      hides refl refl (ap (read (k ∷ ks)) made)

  -- A map that meets no map.
  map-Reads :
      (ks : List Bytes) (s : Entries A) (w : Value A) (dst : Option (Value A))
      → ((k : Bytes) (js : List Bytes) → read (k ∷ js) dst ≡ none)
      → some (map_value s) ≡ some w
      → Reads r overwrite ks (some (map_value s)) dst (some w)
  unfolding read reaches_none
  map-Reads [] s w dst missing same = takes_map s s refl (sym same)
  map-Reads (k ∷ ks) s w dst missing same =
      subst (Reads r overwrite (k ∷ ks) (some (map_value s)) dst) same
        (copied-Reads (k ∷ ks) (map_value s) dst (missing k ks))

  check_depth-some :
      (depth : ℕ) (m : Option (Entries A)) (w : Value A)
      → as_map (check_depth depth m) ≡ some w
      → (m' : Entries A) × (m ≡ some m') × (some (map_value m') ≡ some w)
  unfolding check_depth
  check_depth-some depth none w done = absurd (ground (arith, done))
  check_depth-some depth (some m) w done = (m, refl, ground (arith, done))

  value-Reads :
      (ks : List Bytes) (depth : ℕ) (v w : Value A) (dst : Option (Value A))
      → Below ks
      → is_unique_value v ≡ true
      → merged_value r overwrite depth v dst ≡ some w
      → Reads r overwrite ks (some v) dst (some w)
  unfolding merge_loop read is_unique
  value-Reads ks depth (leaf a) w dst below unique done = leaf-Reads ks a w dst done
  value-Reads ks depth (slice_value s) w none below unique done =
      slice-Reads ks s w _ (ground arith) done
  value-Reads ks depth (slice_value s) w (some (leaf a)) below unique done =
      slice-Reads ks s w _ (ground arith) done
  value-Reads ks depth (slice_value s) w (some (map_value d)) below unique done =
      slice-Reads ks s w _ (ground arith) done
  value-Reads ks depth (slice_value s) w (some (slice_value d)) below unique done =
      elim (Bool-cases overwrite) [
        | inl replaces ↦ slice-Reads ks s w _ (ground (arith, replaces)) (rw (replaces) at done)
        | inr joins ↦ joined-Reads ks s d w joins (rw (joins) at done)
      ]
  value-Reads ks depth (map_value s) w none below unique done =
      map-Reads ks s w none (λ k js. refl) done
  value-Reads ks depth (map_value s) w (some (leaf a)) below unique done =
      map-Reads ks s w (some (leaf a)) (λ k js. refl) done
  value-Reads ks depth (map_value s) w (some (slice_value d)) below unique done =
      map-Reads ks s w (some (slice_value d)) (λ k js. refl) done
  value-Reads ks depth (map_value s) w (some (map_value d)) below unique done =
      let (m, merged, same) = check_depth-some (depth + 1) _ w done in
      subst (Reads r overwrite ks (some (map_value s)) (some (map_value d))) same
        (below (depth + 1) s d m unique merged)

  lifted-Reads :
      (k : Bytes) (ks : List Bytes) (src dst m : Entries A)
      → Reads r overwrite ks (find k src) (find k dst) (find k m)
      → Reads r overwrite
          (k ∷ ks)
          (some (map_value src))
          (some (map_value dst))
          (some (map_value m))
  unfolding read reaches_none
  lifted-Reads k ks src dst m (takes_leaf a from to) = takes_leaf a from to
  lifted-Reads k ks src dst m (takes_map s t from to) = takes_map s t from to
  lifted-Reads k ks src dst m (takes_slice s from alone to) = takes_slice s from alone to
  lifted-Reads k ks src dst m (joins_slices s d items joins from old to union) =
      joins_slices s d items joins from old to union
  lifted-Reads k ks src dst m (keeps missing to) = keeps missing to
  lifted-Reads k ks src dst m (hides from through to) = hides from through to

  below_key-Reads :
      (k : Bytes) (ks : List Bytes) (src dst m : Entries A) (v w : Value A)
      → find k src ≡ some v
      → find k m ≡ some w
      → Reads r overwrite ks (some v) (find k dst) (some w)
      → Reads r overwrite
          (k ∷ ks)
          (some (map_value src))
          (some (map_value dst))
          (some (map_value m))
  unfolding read reaches_none
  below_key-Reads k ks src dst m v w found found_w reads = lifted-Reads k ks src dst m (
      subst (λ o. Reads r overwrite ks o (find k dst) (find k m)) (sym found)
        (subst (λ o. Reads r overwrite ks (some v) (find k dst) o) (sym found_w) reads))

  pub merge_loop-Reads : (ks : List Bytes) → Below ks
  unfolding read reaches_none
  merge_loop-Reads [] depth src dst m unique done = takes_map src m refl refl
  merge_loop-Reads (k ∷ ks) depth src dst m unique done = elim (Option-cases (find k src)) [
    | inl missing ↦ keeps (ap (reaches_none ks) missing) (
        ap (read ks) (
          merge_loop-find r overwrite depth k src dst m unique done
          ∙ ap (λ o. expected r overwrite depth k o (find k dst)) missing))
    | inr (v, found) ↦
        let (w, value_eq, found_w) =
          merge_loop-merged_value r overwrite depth k src dst m v unique done found in
        below_key-Reads k ks src dst m v w found found_w (
          value-Reads ks depth v w (find k dst) (merge_loop-Reads ks)
            (is_unique-find k v src unique found) value_eq)
  ]
