-- ===== src/UnitOfWork/Snapshot/Dirty.antt =====
-- `IsDirty` against `GetChangedFields` of unitofwork/snapshot.go.
use toolkit.Prelude.{
  ◌≡◌, refl, ◌∙◌, sym, true, false, ◌||◌, [], ◌∷◌, Option, none, some, Bytes, arith,
  bytes_eq_instance, Option-cases, inl, inr, ==_iff, ◌↔◌,
}
use toolkit.Prelude.Map.{lookup, is_unique}
use toolkit.UnitOfWork.Entity.{Object, Time, Value}
use toolkit.UnitOfWork.Snapshot.{
  Reflect, FieldValues, any_changed, any_added, snapshot_is_dirty, new_entity_snapshot,
  snapshot_get_changed_fields, extract_field_values,
}
use toolkit.UnitOfWork.Snapshot.Changes.{
  change_of, snapshot_get_changed_fields-lookup, extract_field_values_unique,
}

module _ (rt : Reflect) where
  -- No field has a change.
  abbrev Unchanged : FieldValues → FieldValues → Type 0
  Unchanged originals current =
      (name : Bytes) → change_of rt name (lookup name originals) (lookup name current) ≡ none

  any_changed-none :
      (originals current : FieldValues) (name : Bytes) (v : Value)
      → any_changed rt originals current ≡ false
      → lookup name originals ≡ some v
      → change_of rt name (some v) (lookup name current) ≡ none
  unfolding any_changed lookup
  any_changed-none [] current name v same found = ground (arith, found)
  any_changed-none ((k, w) ∷ rest) current name v same found =
      ground
        (arith, same, found, any_changed-none rest current name v, bytes_eq_instance.beq_iff k name)

  any_added-true :
      (current originals : FieldValues) (name : Bytes) (v : Value)
      → lookup name current ≡ some v
      → lookup name originals ≡ none
      → any_added rt current originals ≡ true
  unfolding any_added lookup
  any_added-true [] originals name v found gone = ground (arith, found)
  any_added-true ((k, w) ∷ rest) originals name v found gone =
      ground
        (arith, found, gone, any_added-true rest originals name v, bytes_eq_instance.beq_iff k name)

  change_of-added :
      (name : Bytes) (o : Option Value) (v : Value)
      → change_of rt name o (some v) ≡ none
      → ¬ (o ≡ none)
  change_of-added name none v c = λ e. ground (arith, c)
  change_of-added name (some o) v c = λ e. ground (arith, e)

  any_changed-false :
      (originals current : FieldValues)
      → is_unique originals ≡ true
      → ((name : Bytes) (v : Value)
          → lookup name originals ≡ some v
          → change_of rt name (some v) (lookup name current) ≡ none)
      → any_changed rt originals current ≡ false
  unfolding any_changed lookup is_unique
  any_changed-false [] current u same = refl
  any_changed-false ((k, w) ∷ rest) current u same =
      let here = same k w (ground (arith, bytes_eq_instance.beq_iff k k)) in
      let later = any_changed-false rest current (ground (arith, u)) (λ name v found.
        same name v (ground (arith, u, found, bytes_eq_instance.beq_iff k name))) in
      ground (arith, here, later)

  any_added-false :
      (current originals : FieldValues)
      → is_unique current ≡ true
      → ((name : Bytes) (v : Value)
          → lookup name current ≡ some v
          → ¬ (lookup name originals ≡ none))
      → any_added rt current originals ≡ false
  unfolding any_added lookup is_unique
  any_added-false [] originals u same = refl
  any_added-false ((k, w) ∷ rest) originals u same =
      let here = same k w (ground (arith, bytes_eq_instance.beq_iff k k)) in
      let later = any_added-false rest originals (ground (arith, u)) (λ name v found.
        same name v (ground (arith, u, found, bytes_eq_instance.beq_iff k name))) in
      ground (arith, here, later)

  -- The two loops of `IsDirty` find nothing exactly if no field has a change.
  loops-Unchanged :
      (originals current : FieldValues)
      → is_unique originals ≡ true
      → is_unique current ≡ true
      → (any_changed rt originals current || any_added rt current originals) ≡ false
        ↔ Unchanged originals current
  loops-Unchanged originals current u v = (
    (λ clean name. elim (Option-cases (lookup name originals)) [
      | inl gone ↦ elim (Option-cases (lookup name current)) [
        | inl absent ↦ ground (arith, gone, absent)
        | inr (n, found) ↦ ground (arith, clean, any_added-true current originals name n found gone)
      ]
      | inr (o, found) ↦
          rw (found) (any_changed-none originals current name o (ground (arith, clean)) found)
    ]),
    (λ same.
        let kept =
          any_changed-false originals current u
            (λ name o found. ground (arith, found, same name)) in
        let none_new = any_added-false current originals v (λ name n found.
          change_of-added name (lookup name originals) n (ground (arith, found, same name))) in
        ground (arith, kept, none_new)),
  )

  snapshot_is_dirty-loops :
      (now : Time) (o o' : Object)
      → o.type ≡ o'.type
      → o.base.id ≡ o'.base.id
      → snapshot_is_dirty rt (new_entity_snapshot rt now o) o' ≡ (
          any_changed rt (extract_field_values rt o) (extract_field_values rt o')
          || any_added rt (extract_field_values rt o') (extract_field_values rt o))
  unfolding snapshot_is_dirty new_entity_snapshot
  snapshot_is_dirty-loops now o o' t i =
      ground (arith, ==_iff o.type o'.type, ==_iff o.base.id o'.base.id, t, i)

  -- Against a snapshot of an entity, an entity of the same type and ID is not dirty exactly if
  -- `GetChangedFields` reports no change for any field.
  pub snapshot_is_dirty-snapshot_get_changed_fields :
      (now : Time) (o o' : Object)
      → o.type ≡ o'.type
      → o.base.id ≡ o'.base.id
      → snapshot_is_dirty rt (new_entity_snapshot rt now o) o' ≡ false ↔ (
          (name : Bytes)
          → lookup name (snapshot_get_changed_fields rt (new_entity_snapshot rt now o) o') ≡ none)
  snapshot_is_dirty-snapshot_get_changed_fields now o o' t i =
      let (to, from) =
        loops-Unchanged (extract_field_values rt o) (extract_field_values rt o')
          (extract_field_values_unique rt o) (extract_field_values_unique rt o') in
      let dirty = snapshot_is_dirty-loops now o o' t i in
      (
        (λ clean name.
            snapshot_get_changed_fields-lookup rt now o o' name t ∙ to (sym dirty ∙ clean) name),
        (λ unchanged.
            dirty
            ∙ from (λ name.
              sym (snapshot_get_changed_fields-lookup rt now o o' name t) ∙ unchanged name)),
      )
