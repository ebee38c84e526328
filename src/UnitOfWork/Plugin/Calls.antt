-- ===== src/UnitOfWork/Plugin/Calls.antt =====
-- `processEntities` of unitofwork/plugin.go, as calls of a unit of work.
use toolkit.Prelude.{
  ◌≡◌, refl, sym, ◌∙◌, ap, subst, inl, inr, ℕ, ◌+◌, Bool, true, false, List, [], ◌∷◌, ◌++◌, map,
  none, some, arith, length, Option-cases, bytes_eq_instance,
}
use toolkit.UnitOfWork.Entity.{Ref, Heap}
use toolkit.UnitOfWork.Plugin.{
  Item, entity_item, other_item, Dest, nil_dest, entity_dest, struct_dest, slice_dest, other_dest,
  check_dest, Processed, process_items, process_entity, process_entities,
}
use toolkit.UnitOfWork.Snapshot.{Reflect}
use toolkit.UnitOfWork.State.{UnitOfWork, UowError, Outcome, create, update, delete}
use toolkit.UnitOfWork.State.Invariant.{Call, create_call, update_call, delete_call, run}

-- The three callbacks.
pub data Kind : Type 0 where
  creates updates deletes : Kind

abbrev pub call_of : Kind → Ref → Call
call_of creates e = create_call (some e)
call_of updates e = update_call (some e)
call_of deletes e = delete_call (some e)

abbrev pub processor : Heap → Reflect → Kind → Ref → UnitOfWork → Outcome
processor h rt creates e = create h (some e)
processor h rt updates e = update h rt (some e)
processor h rt deletes e = delete h (some e)

-- An update or a deletion is for an entity that has an ID.
abbrev pub accepts : Kind → Heap → Dest → Bool
accepts creates h d = true
accepts updates h d = check_dest h d
accepts deletes h d = check_dest h d

-- The entities of a slice, and of a destination.
abbrev pub refs_of_items : List Item → List Ref
refs_of_items [] = []
refs_of_items (entity_item e ∷ items) = e ∷ refs_of_items items
refs_of_items (other_item ∷ items) = refs_of_items items

abbrev pub refs_of : Dest → List Ref
refs_of nil_dest = []
refs_of (entity_dest e) = e ∷ []
refs_of struct_dest = []
refs_of (slice_dest items) = refs_of_items items
refs_of (other_dest none) = []
refs_of (other_dest (some e)) = e ∷ []

processor-failed :
    (h : Heap) (rt : Reflect) (k : Kind) (e : Ref) (u : UnitOfWork) (err : UowError)
    → (processor h rt k e u).1 ≡ some err
    → (processor h rt k e u).0 ≡ u
unfolding create update delete
processor-failed h rt creates e u err failed = ground (arith, failed)
processor-failed h rt updates e u err failed = ground (arith, failed)
processor-failed h rt deletes e u err failed = ground (arith, failed)

run-call_of :
    (h : Heap) (rt : Reflect) (k : Kind) (e : Ref) (calls : List Call) (u : UnitOfWork)
    → run h rt (call_of k e ∷ calls) u ≡ run h rt calls (processor h rt k e u).0
unfolding run
run-call_of h rt creates e calls u = refl
run-call_of h rt updates e calls u = refl
run-call_of h rt deletes e calls u = refl

module _ (h : Heap) (rt : Reflect) (k : Kind) where
  -- The calls, one after another, and that none of them reports an error.
  abbrev pub run_calls : List Ref → UnitOfWork → UnitOfWork
  run_calls es = run h rt (map (call_of k) es)

  abbrev pub succeeds : List Ref → UnitOfWork → Bool
  succeeds [] u = true
  succeeds (e ∷ es) u = elim (processor h rt k e u).1 [
    | none ↦ succeeds es (processor h rt k e u).0
    | some err ↦ false
  ]

  -- What processing some entities leaves, `count` of them being done already.
  pub data Processes (es : List Ref) (count : ℕ) (u : UnitOfWork) (r : Processed) : Type 0 where
    all_done :
        succeeds es u ≡ true
        → r ≡ (run_calls es u, count + length es, none)
        → Processes es count u r
    stopped_at :
        (done : List Ref) (e : Ref) (rest : List Ref) (err : UowError)
        → es ≡ done ++ (e ∷ rest)
        → succeeds done u ≡ true
        → (processor h rt k e (run_calls done u)).1 ≡ some err
        → r ≡ (run_calls done u, 0, some err)
        → Processes es count u r

  -- One more entity in front, that succeeds.
  Processes-next :
      (e : Ref) (es : List Ref) (count : ℕ) (u : UnitOfWork) (r : Processed)
      → (processor h rt k e u).1 ≡ none
      → Processes es (count + 1) (processor h rt k e u).0 r
      → Processes (e ∷ es) count u r
  unfolding run
  Processes-next e es count u r ok (all_done all r_eq) = all_done (ground (arith, ok, all)) (
      r_eq
      ∙ ap (λ v. (v, count + 1 + length es, none)) (sym (run-call_of h rt k e _ u))
      ∙ ap (λ n. (run_calls (e ∷ es) u, n, none)) (omega arith))
  Processes-next e es count u r ok (stopped_at done f rest err split all failed r_eq) =
      stopped_at (e ∷ done) f rest err (ap (λ fs. e ∷ fs) split) (ground (arith, ok, all))
        (ap (λ v. (processor h rt k f v).1) (run-call_of h rt k e _ u) ∙ failed)
        (r_eq ∙ ap (λ v. (v, 0, some err)) (sym (run-call_of h rt k e _ u)))

  Processes-stop :
      (e : Ref) (es : List Ref) (count : ℕ) (u : UnitOfWork) (r : Processed) (err : UowError)
      → (processor h rt k e u).1 ≡ some err
      → r ≡ ((processor h rt k e u).0, 0, some err)
      → Processes (e ∷ es) count u r
  unfolding run
  Processes-stop e es count u r err failed r_eq =
      stopped_at [] e es err refl refl failed
        (r_eq ∙ ap (λ v. (v, 0, some err)) (processor-failed h rt k e u err failed))

  -- What the code does with an entity, before it goes on to the rest.
  abbrev process_one : Ref → UnitOfWork → Processed → Processed
  process_one e u rest = elim (processor h rt k e u).1 [
    | none ↦ rest
    | some err ↦ ((processor h rt k e u).0, 0, some err)
  ]

  process_one-Processes :
      (e : Ref) (es : List Ref) (count : ℕ) (u : UnitOfWork) (rest : Processed)
      → Processes es (count + 1) (processor h rt k e u).0 rest
      → Processes (e ∷ es) count u (process_one e u rest)
  process_one-Processes e es count u rest processes = elim (Option-cases (processor h rt k e u).1) [
    | inl ok ↦
        Processes-next e es count u _ ok
          (subst (Processes es (count + 1) (processor h rt k e u).0) (ground (arith, ok)) processes)
    | inr (err, failed) ↦ Processes-stop e es count u _ err failed (ground (arith, failed))
  ]

  process_items-Processes :
      (items : List Item) (count : ℕ) (u : UnitOfWork)
      → Processes (refs_of_items items) count u (process_items (processor h rt k) items count u)
  unfolding process_items run
  process_items-Processes [] count u = all_done refl (ap (λ n. (u, n, none)) (omega arith))
  process_items-Processes (other_item ∷ items) count u = process_items-Processes items count u
  process_items-Processes (entity_item e ∷ items) count u =
      process_one-Processes e (refs_of_items items) count u _
        (process_items-Processes items (count + 1) (processor h rt k e u).0)

  pub process_entities-Processes :
      (d : Dest) (u : UnitOfWork)
      → Processes (refs_of d) 0 u (process_entities (processor h rt k) d 0 u)
  unfolding process_entities process_entity run
  process_entities-Processes nil_dest u = all_done refl refl
  process_entities-Processes struct_dest u = all_done refl refl
  process_entities-Processes (entity_dest e) u =
      process_one-Processes e [] 0 u _ (all_done refl refl)
  process_entities-Processes (slice_dest items) u = process_items-Processes items 0 u
  process_entities-Processes (other_dest none) u = all_done refl refl
  process_entities-Processes (other_dest (some e)) u =
      process_one-Processes e [] 0 u _ (all_done refl refl)
