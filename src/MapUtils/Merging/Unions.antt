-- ===== src/MapUtils/Merging/Unions.antt =====
-- The slice that `Merge` of maputils/maputils.go makes of two slices.
use toolkit.Prelude.{
  ◌≡◌, refl, sym, ap, subst, ◌∙◌, Bool, true, false, ◌&&◌, ◌||◌, List, [], ◌∷◌, Option, none, some,
  inl, inr, arith, any, Option-cases, Bool-cases,
}
use toolkit.MapUtils.Merging.{
  Value, leaf, map_value, slice_value, Items, no_items, item, Leaves, append_item, add_leaf,
  add_item, add_items, merge_slices,
}

module _ {A : Type 0} where
  -- One slice behind another.
  unfoldable pub append_items : Items A → Items A → Items A
  append_items no_items later = later
  append_items (item v items) later = item v (append_items items later)

  append_item-append_items :
      (items : Items A) (v : Value A) → append_item items v ≡ append_items items (item v no_items)
  unfolding append_item append_items
  append_item-append_items no_items v = refl
  append_item-append_items (item w items) v = ap (item w) (append_item-append_items items v)

module _ {A : Type 0} (r : Leaves A) where
  -- Whether a value is neither a map nor a slice, is comparable, and is the same as another.
  abbrev pub is_same : A → Value A → Bool
  is_same a (leaf b) = elim (r.comparable b) [
    | none ↦ false
    | some comparable ↦ comparable && r.same a b
  ]
  is_same a (map_value m) = false
  is_same a (slice_value s) = false

  unfoldable pub has_same : A → Items A → Bool
  has_same a no_items = false
  has_same a (item v items) = is_same a v || has_same a items

  -- Whether a value is comparable and already among the items.
  abbrev pub is_repeated : Value A → Items A → Bool
  is_repeated (leaf a) items = elim (r.comparable a) [
    | none ↦ false
    | some comparable ↦ comparable && has_same a items
  ]
  is_repeated (map_value m) items = false
  is_repeated (slice_value s) items = false

  -- The items become the last list, behind those that are kept already: one after the other is kept
  -- in its place, but for those that are comparable and the same as one that is kept.
  pub data IsUnion : Items A → Items A → Items A → Type 0 where
    all_seen : (kept : Items A) → IsUnion kept no_items kept
    keeps_next :
        {kept rest m : Items A} (v : Value A)
        → is_repeated v kept ≡ false
        → IsUnion (append_items kept (item v no_items)) rest m
        → IsUnion kept (item v rest) m
    drops_next :
        {kept rest m : Items A} (v : Value A)
        → is_repeated v kept ≡ true
        → IsUnion kept rest m
        → IsUnion kept (item v rest) m

  has_same-append_items :
      (a : A) (items later : Items A)
      → has_same a (append_items items later) ≡ (has_same a items || has_same a later)
  unfolding has_same append_items
  has_same-append_items a no_items later = refl
  has_same-append_items a (item v items) later = ground (arith, has_same-append_items a items later)

  -- The keys of `kv` stand for the comparable values that are kept.
  abbrev AreKeys : List A → Items A → Type 0
  AreKeys kv kept = (a : A) → any (r.same a) kv ≡ has_same a kept

  AreKeys-other :
      (kv : List A) (kept : Items A) (v : Value A)
      → AreKeys kv kept
      → ((a : A) → is_same a v ≡ false)
      → AreKeys kv (append_items kept (item v no_items))
  unfolding has_same
  AreKeys-other kv kept v keys other a =
      ground (arith, keys a, other a, has_same-append_items a kept (item v no_items))

  AreKeys-new :
      (kv : List A) (kept : Items A) (b : A)
      → AreKeys kv kept
      → r.comparable b ≡ some true
      → AreKeys (b ∷ kv) (append_items kept (item (leaf b) no_items))
  unfolding has_same
  AreKeys-new kv kept b keys comparable a =
      ground (arith, keys a, comparable, has_same-append_items a kept (item (leaf b) no_items))

  add_items-append_items :
      (d s : Items A) (st : Items A × List A)
      → add_items r (append_items d s) st
        ≡ (elim (add_items r d st) [ none ↦ none | some st' ↦ add_items r s st' ])
  unfolding add_items append_items
  add_items-append_items no_items s st = refl
  add_items-append_items (item v d) s st = elim (Option-cases (add_item r v st)) [
    | inl fails ↦ ground (arith, fails)
    | inr (st', added) ↦ ground (arith, added, add_items-append_items d s st')
  ]

  -- A value that is kept, and the items after it.
  abbrev Unites : Items A → Type 0
  Unites items =
      (kept m : Items A) (kv kv' : List A)
      → AreKeys kv kept
      → add_items r items (kept, kv) ≡ some (m, kv')
      → IsUnion kept items m

  next-IsUnion :
      (v : Value A) (rest kept m : Items A) (kv kv' : List A)
      → Unites rest
      → is_repeated v kept ≡ false
      → AreKeys kv (append_items kept (item v no_items))
      → add_items r rest (append_item kept v, kv) ≡ some (m, kv')
      → IsUnion kept (item v rest) m
  next-IsUnion v rest kept m kv kv' unites new keys added = keeps_next v new (
      unites (append_items kept (item v no_items)) m kv kv' keys (
        ap (λ items. add_items r rest (items, kv)) (sym (append_item-append_items kept v)) ∙ added))

  leaf-IsUnion :
      (a : A) (rest kept m : Items A) (kv kv' : List A)
      → Unites rest
      → AreKeys kv kept
      → (o : Option Bool) → r.comparable a ≡ o
      → (elim (add_leaf r o a (kept, kv)) [ none ↦ none | some st ↦ add_items r rest st ])
        ≡ some (m, kv')
      → IsUnion kept (item (leaf a) rest) m
  unfolding add_leaf
  leaf-IsUnion a rest kept m kv kv' unites keys none comparable added =
      absurd (ground (arith, added))
  leaf-IsUnion a rest kept m kv kv' unites keys (some false) comparable added =
      next-IsUnion (leaf a) rest kept m kv kv' unites (ground (arith, comparable))
        (AreKeys-other kv kept (leaf a) keys (λ b. ground (arith, comparable))) added
  leaf-IsUnion a rest kept m kv kv' unites keys (some true) comparable added =
      elim (Bool-cases (any (r.same a) kv)) [
        | inl known ↦
            drops_next (leaf a) (ground (arith, comparable, known, keys a))
              (unites kept m kv kv' keys (rw (known) at added))
        | inr new ↦
            next-IsUnion (leaf a) rest kept m (a ∷ kv) kv' unites
              (ground (arith, comparable, new, keys a)) (AreKeys-new kv kept a keys comparable)
              (rw (new) at added)
      ]

  add_items-IsUnion : (items : Items A) → Unites items
  unfolding add_items add_item
  add_items-IsUnion no_items kept m kv kv' keys added =
      subst (IsUnion kept no_items) (ground (arith, added)) (all_seen kept)
  add_items-IsUnion (item (leaf a) rest) kept m kv kv' keys added =
      leaf-IsUnion a rest kept m kv kv' (add_items-IsUnion rest) keys (r.comparable a) refl added
  add_items-IsUnion (item (map_value v) rest) kept m kv kv' keys added =
      next-IsUnion (map_value v) rest kept m kv kv' (add_items-IsUnion rest) refl
        (AreKeys-other kv kept (map_value v) keys (λ a. refl)) added
  add_items-IsUnion (item (slice_value v) rest) kept m kv kv' keys added =
      next-IsUnion (slice_value v) rest kept m kv kv' (add_items-IsUnion rest) refl
        (AreKeys-other kv kept (slice_value v) keys (λ a. refl)) added

  merge_slices-append_items :
      (d s : Items A)
      → merge_slices r d s ≡ (elim (add_items r (append_items d s) (no_items, [])) [
        | none ↦ none
        | some st ↦ some (slice_value st.0)
      ])
  unfolding merge_slices
  merge_slices-append_items d s = ground (arith, add_items-append_items d s (no_items, []))

  -- Two merged slices: the items of the first, and behind them those of the second.
  pub merge_slices-IsUnion :
      (d s : Items A) (w : Value A)
      → merge_slices r d s ≡ some w
      → (m : Items A) × (some w ≡ some (slice_value m)) × IsUnion no_items (append_items d s) m
  unfolding has_same
  merge_slices-IsUnion d s w made =
      elim (Option-cases (add_items r (append_items d s) (no_items, []))) [
        | inl fails ↦ absurd (ground (arith, made, fails, merge_slices-append_items d s))
        | inr ((m, kv), added) ↦ (
          m,
          ground (arith, made, added, merge_slices-append_items d s),
          add_items-IsUnion (append_items d s) no_items m [] kv (λ a. refl) added,
        )
      ]
