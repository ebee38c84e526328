-- ===== src/MapUtils/Merging/Found.antt =====
-- The keys of the map that `Merge` of maputils/maputils.go returns.
use toolkit.Prelude.{
  ◌≡◌, refl, sym, ap, ◌∙◌, ℕ, Bool, true, false, ◌&&◌, Option, none, some, inl, inr, arith, Bytes,
  bytes_eq, bytes_eq_instance, Option-cases, Bool-cases, if◌then◌else◌,
}
use toolkit.MapUtils.Merging.{
  leaf, map_value, slice_value, Value, Entries, empty, entry, Leaves, find, put, merge_loop,
  merged_value,
}

-- No key stands twice in a map, and in no map below it that the code looks into.
unfoldable mutual
  unfolding find

  pub is_unique : {A : Type 0} → Entries A → Bool
  is_unique empty = true
  is_unique (entry k v m) = elim (find k m) [
    | none ↦ is_unique_value v && is_unique m
    | some _ ↦ false
  ]

  pub is_unique_value : {A : Type 0} → Value A → Bool
  is_unique_value (leaf a) = true
  is_unique_value (map_value m) = is_unique m
  is_unique_value (slice_value items) = true

module _ {A : Type 0} where
  pub is_unique-find :
      (k : Bytes) (v : Value A) (m : Entries A)
      → is_unique m ≡ true
      → find k m ≡ some v
      → is_unique_value v ≡ true
  unfolding find is_unique
  is_unique-find k v empty unique found = ground (arith, found)
  is_unique-find k v (entry j w m) unique found =
      ground (arith, unique, found, is_unique-find k v m)

  pub find-put :
      (k j : Bytes) (v : Value A) (m : Entries A)
      → find k (put j v m) ≡ (if bytes_eq j k then some v else find k m)
  unfolding find put
  find-put k j v empty = refl
  find-put k j v (entry i w m) =
      let e = bytes_eq_instance in
      ground (arith, e.beq_iff i j, e.beq_iff i k, e.beq_iff j k, find-put k j v m)

  some-not_none : {m : Entries A} → ¬ (some m ≡ none)
  some-not_none e = cc

  pub find-other :
      (k j : Bytes) (v : Value A) (m : Entries A)
      → bytes_eq j k ≡ false
      → find k (put j v m) ≡ find k m
  find-other k j v m other = rw (find-put k j v m, other) refl

module _ {A : Type 0} (r : Leaves A) (overwrite : Bool) (depth : ℕ) (k : Bytes) where
  -- What a key has to hold, from what it holds in the source and in the destination.
  abbrev pub expected : Option (Value A) → Option (Value A) → Option (Value A)
  expected none old = old
  expected (some v) old = merged_value r overwrite depth v old

  pub merge_loop-find :
      (src dst m : Entries A)
      → is_unique src ≡ true
      → merge_loop r overwrite depth src dst ≡ some m
      → find k m ≡ expected (find k src) (find k dst)
  unfolding merge_loop is_unique find
  merge_loop-find empty dst m unique done = ground (arith, done)
  merge_loop-find (entry j v src) dst m unique done =
      elim (Option-cases (merged_value r overwrite depth v (find j dst))) [
        | inl panics ↦ ground (arith, panics, done)
        | inr (v', value_eq) ↦ ground (
          arith,
          value_eq,
          done,
          unique,
          find-put k j v' dst,
          bytes_eq_instance.beq_iff j k,
          merge_loop-find src (put j v' dst) m,
        )
      ]

  pub merge_loop-entry :
      (src dst : Entries A) (j : Bytes) (v w : Value A)
      → merged_value r overwrite depth v (find j dst) ≡ some w
      → merge_loop r overwrite depth (entry j v src) dst
        ≡ merge_loop r overwrite depth src (put j w dst)
  unfolding merge_loop
  merge_loop-entry src dst j v w value_eq =
      ap (λ o. elim o [ none ↦ none | some v' ↦ merge_loop r overwrite depth src (put j v' dst) ])
        value_eq

  merge_loop-stopped :
      (src dst : Entries A) (j : Bytes) (v : Value A)
      → merged_value r overwrite depth v (find j dst) ≡ none
      → merge_loop r overwrite depth (entry j v src) dst ≡ none
  unfolding merge_loop
  merge_loop-stopped src dst j v fails =
      ap (λ o. elim o [ none ↦ none | some v' ↦ merge_loop r overwrite depth src (put j v' dst) ])
        fails

  merge_loop-panics :
      (src dst m : Entries A) (v : Value A)
      → is_unique src ≡ true
      → merge_loop r overwrite depth src dst ≡ some m
      → find k src ≡ some v
      → ¬ (merged_value r overwrite depth v (find k dst) ≡ none)
  unfolding is_unique find
  merge_loop-panics empty dst m v unique done found panics = ground (arith, found)
  merge_loop-panics (entry j w src) dst m v unique done found panics =
      elim (Option-cases (merged_value r overwrite depth w (find j dst))) [
        | inl fails ↦ some-not_none (sym done ∙ merge_loop-stopped src dst j w fails)
        | inr (w', value_eq) ↦ elim (Bool-cases (bytes_eq j k)) [
          | inl same ↦ ground (arith, value_eq, found, panics, same, bytes_eq_instance.beq_iff j k)
          | inr other ↦
              merge_loop-panics src (put j w' dst) m v (ground (arith, unique))
                (sym (merge_loop-entry src dst j w w' value_eq) ∙ done)
                (ground (arith, found, other))
                (ap (merged_value r overwrite depth v) (find-other k j w' dst other) ∙ panics)
        ]
      ]

  pub merge_loop-merged_value :
      (src dst m : Entries A) (v : Value A)
      → is_unique src ≡ true
      → merge_loop r overwrite depth src dst ≡ some m
      → find k src ≡ some v
      → (w : Value A) × (merged_value r overwrite depth v (find k dst) ≡ some w)
        × (find k m ≡ some w)
  merge_loop-merged_value src dst m v unique done found =
      elim (Option-cases (merged_value r overwrite depth v (find k dst))) [
        | inl panics ↦ absurd (merge_loop-panics src dst m v unique done found panics)
        | inr (w, value_eq) ↦ (
          w,
          value_eq,
          merge_loop-find src dst m unique done
              ∙ ap (λ o. expected o (find k dst)) found
              ∙ value_eq,
        )
      ]
