-- ===== src/UnitOfWork/Plan/Merged.antt =====
-- `mergeOperations` of unitofwork/unitofwork.go: the entities and the number of the operations of a
-- family and an entity type.
use toolkit.Prelude.{
  ℕ, zero, suc, ◌≤◌, ◌≡◌, refl, ◌∙◌, ap, Bool, true, false, List, [], ◌∷◌, ◌++◌, arith,
  if◌then◌else◌, length, All, map, append_assoc, Bool-cases, inl, inr,
}
use toolkit.UnitOfWork.Entity.{EntityType, Ref, Heap}
use toolkit.UnitOfWork.Operation.{Operation, can_merge, merge, get_entities}
use toolkit.UnitOfWork.Operation.Merge.{Family, get_entities-merge}
use toolkit.UnitOfWork.Plan.{absorb, merge_rounds, merge_operations}
use toolkit.UnitOfWork.Plan.Kinds.{
  IsSingle, has_kind, kind_entities, kind_count, live, AllSingle, IsTagged, IsTagged-single,
  IsTagged-merge, can_merge_of_kind, has_kind-merge,
}

-- The invariants of the loop over the operations that follow one.
module _ (h : Heap) (f : Family) (t : EntityType) where
  abbrev entities_if : Operation → List Ref → List Ref
  entities_if op rest = if has_kind h f t op then get_entities op ++ rest else rest

  pub record Absorbs (current : Operation) (ops : List (Bool × Operation)) (merged : Operation)
      (rest : List (Bool × Operation)) : Type 0 where
    kind : has_kind h f t merged ≡ has_kind h f t current
    entities :
        entities_if merged (kind_entities h f t (live rest))
        ≡ entities_if current (kind_entities h f t (live ops))
    counts :
        kind_count h f t (live rest)
        ≡ (if has_kind h f t current then 0 else kind_count h f t (live ops))
    pub single : AllSingle rest
    pub lengths : length rest ≡ length ops

  Absorbs-skip :
      (current op merged : Operation) (ops rest : List (Bool × Operation))
      → IsSingle op
      → Absorbs current ops merged rest
      → Absorbs current ((true, op) ∷ ops) merged ((true, op) ∷ rest)
  Absorbs-skip current op merged ops rest s a = record {
    kind = a.kind;
    entities = a.entities;
    counts = a.counts;
    single = (s, a.single);
    lengths = omega (arith, a.lengths);
  }

  Absorbs-merge :
      (current op merged : Operation) (ops rest : List (Bool × Operation))
      → IsTagged h current
      → IsSingle op
      → can_merge h current op ≡ true
      → Absorbs (merge h current op) ops merged rest
      → Absorbs current ((false, op) ∷ ops) merged ((true, op) ∷ rest)
  Absorbs-merge current op merged ops rest g s c a =
      let kinds = has_kind-merge h current op f t g s c in
      let grown = get_entities-merge h current op c in
      record {
        kind = a.kind ∙ kinds.0;
        entities =
            a.entities
            ∙ ground (
              arith,
              kinds,
              grown,
              append_assoc (get_entities current) (get_entities op)
                  (kind_entities h f t (live ops)),
            );
        counts = a.counts ∙ ground (arith, kinds);
        single = (s, a.single);
        lengths = omega (arith, a.lengths);
      }

  Absorbs-keep :
      (current op merged : Operation) (ops rest : List (Bool × Operation))
      → IsSingle op
      → can_merge h current op ≡ false
      → Absorbs current ops merged rest
      → Absorbs current ((false, op) ∷ ops) merged ((false, op) ∷ rest)
  Absorbs-keep current op merged ops rest s c a =
      let apart = can_merge_of_kind h current op f t s in
      record {
        kind = a.kind;
        entities = ground (arith, apart, a.kind, a.entities);
        counts = ground (arith, apart, a.counts);
        single = (s, a.single);
        lengths = omega (arith, a.lengths);
      }

  pub absorb-Absorbs :
      (current : Operation) (ops : List (Bool × Operation))
      → IsTagged h current
      → AllSingle ops
      → Absorbs current ops (absorb h current ops).0 (absorb h current ops).1
  unfolding absorb
  absorb-Absorbs current [] g s = record {
    kind = refl;
    entities = refl;
    counts = ground arith;
    single = tt;
    lengths = refl;
  }
  absorb-Absorbs current ((true, op) ∷ ops) g s =
      Absorbs-skip current op _ ops _ s.0 (absorb-Absorbs current ops g s.1)
  absorb-Absorbs current ((false, op) ∷ ops) g s = elim (Bool-cases (can_merge h current op)) [
    | inl c ↦
        rw (c, absorb)
          (Absorbs-merge current op _ ops _ g s.0 c
            (absorb-Absorbs (merge h current op) ops (IsTagged-merge h current op g) s.1))
    | inr c ↦
        rw (c, absorb) (Absorbs-keep current op _ ops _ s.0 c (absorb-Absorbs current ops g s.1))
  ]

  merge_rounds-entities :
      (n : ℕ) (ops : List (Bool × Operation))
      → length ops ≤ n
      → AllSingle ops
      → kind_entities h f t (merge_rounds h n ops) ≡ kind_entities h f t (live ops)
  unfolding merge_rounds
  merge_rounds-entities zero [] l s = refl
  merge_rounds-entities zero (x ∷ ops) l s = absurd (omega arith)
  merge_rounds-entities (suc n) [] l s = refl
  merge_rounds-entities (suc n) ((true, op) ∷ ops) l s =
      merge_rounds-entities n ops (omega arith) s.1
  merge_rounds-entities (suc n) ((false, op) ∷ ops) l s =
      let a = absorb-Absorbs op ops (IsTagged-single h op s.0) s.1 in
      rw (merge_rounds-entities n (absorb h op ops).1 (omega (arith, a.lengths)) a.single)
        a.entities

  merge_rounds-count :
      (n : ℕ) (ops : List (Bool × Operation))
      → length ops ≤ n
      → AllSingle ops
      → (kind_count h f t (merge_rounds h n ops) ≤ 1)
        × (kind_count h f t (merge_rounds h n ops) ≤ kind_count h f t (live ops))
  unfolding merge_rounds
  merge_rounds-count zero [] l s = omega arith
  merge_rounds-count zero (x ∷ ops) l s = absurd (omega arith)
  merge_rounds-count (suc n) [] l s = omega arith
  merge_rounds-count (suc n) ((true, op) ∷ ops) l s = merge_rounds-count n ops (omega arith) s.1
  merge_rounds-count (suc n) ((false, op) ∷ ops) l s =
      let a = absorb-Absorbs op ops (IsTagged-single h op s.0) s.1 in
      let ih = merge_rounds-count n (absorb h op ops).1 (omega (arith, a.lengths)) a.single in
      ground (arith, a.kind, a.counts, ih)

kind_count-le-length :
    (h : Heap) (f : Family) (t : EntityType) (ops : List Operation)
    → kind_count h f t ops ≤ length ops
kind_count-le-length h f t [] = omega arith
kind_count-le-length h f t (op ∷ ops) = ground (arith, kind_count-le-length h f t ops)

abbrev pub flagged : List Operation → List (Bool × Operation)
flagged = map (λ op. (false, op))

live-flagged : (ops : List Operation) → live (flagged ops) ≡ ops
live-flagged [] = refl
live-flagged (op ∷ ops) = ap (◌∷◌ op) (live-flagged ops)

pub length-flagged : (ops : List Operation) → length (flagged ops) ≡ length ops
length-flagged [] = refl
length-flagged (op ∷ ops) = ap suc (length-flagged ops)

pub AllSingle-flagged : (ops : List Operation) → All IsSingle ops → AllSingle (flagged ops)
AllSingle-flagged [] s = tt
AllSingle-flagged (op ∷ ops) s = (s.0, AllSingle-flagged ops s.1)

module _ (h : Heap) (ops : List Operation) (single : All IsSingle ops) where
  -- Merging single operations keeps, for each of insert, update and delete and each entity type, the
  -- list of the entities that they are on: none is lost, added, moved to another type or reordered.
  pub merge_operations-entities :
      (f : Family) (t : EntityType)
      → kind_entities h f t (merge_operations h ops) ≡ kind_entities h f t ops
  unfolding merge_operations
  merge_operations-entities f t =
      let rounds =
        merge_rounds-entities h f t (length ops) (flagged ops) (omega (arith, length-flagged ops))
          (AllSingle-flagged ops single) in
      ground (arith, rounds, live-flagged ops)

  -- Merging single operations leaves at most one operation for each of insert, update and delete and
  -- each entity type, and no more of them than there were.
  pub merge_operations-count :
      (f : Family) (t : EntityType)
      → (kind_count h f t (merge_operations h ops) ≤ 1)
        × (kind_count h f t (merge_operations h ops) ≤ kind_count h f t ops)
  unfolding merge_operations
  merge_operations-count f t =
      let rounds =
        merge_rounds-count h f t (length ops) (flagged ops) (omega (arith, length-flagged ops))
          (AllSingle-flagged ops single) in
      ground (arith, rounds, live-flagged ops, kind_count-le-length h f t ops)
