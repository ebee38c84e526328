-- ===== src/UnitOfWork/Dependency/Loop.antt =====
-- The whole loop over the queue in `topologicalSort` of unitofwork/dependency.go, in insertion order.
use toolkit.Prelude.{
  ℕ, zero, suc, ◌+◌, ◌≤◌, ◌<◌, ◌≡◌, refl, Bool, true, false, ◌==◌, List, [], ◌∷◌, ◌++◌, some, arith,
  if◌then◌else◌, elem, keep, count, count_if-append, nat_eq, ==_iff, length, length-append,
  count-pos-of-elem, elem_of_count-pos,
}
use toolkit.Prelude.Counts.{length_mono, count-eq_of_length}
use toolkit.Prelude.Int.{pos, is_zero}
use toolkit.Prelude.Map.{lookup_or}
use toolkit.UnitOfWork.Snapshot.{Reflect}
use toolkit.UnitOfWork.Dependency.{
  DependencyManager, Ordering, Degrees, calculate_in_degree, get_neighbors, visit_queue,
  sort_by_weight, sources, sort_types,
}
use toolkit.UnitOfWork.Dependency.Degrees.{calculate_in_degree-lookup}
use toolkit.UnitOfWork.Dependency.Edges.{IsMap, edges_from-le, edges_from-none}
use toolkit.UnitOfWork.Dependency.Kahn.{depends, Kahn, Kahn-step, count-sort_by_weight}

pub count-keep :
    (p : ℕ → Bool) (v : ℕ) (xs : List ℕ) → count v (keep p xs) ≡ (if p v then count v xs else 0)
count-keep p v [] = ground arith
count-keep p v (x ∷ xs) = ground (arith, count-keep p v xs, ==_iff x v)

module _ (rt : Reflect) (ord : Ordering) (dm : DependencyManager) (types : List ℕ)
    (m : IsMap dm.dependency_graph) (unique : (v : ℕ) → count v types ≤ 1) where
  abbrev pub State : List ℕ → Degrees → List ℕ → Type 0
  State = Kahn dm types m unique

  -- The queue and the result together are no longer than the list of types.
  State-length :
      {queue : List ℕ} {degrees : Degrees} {result : List ℕ}
      → State queue degrees result
      → length queue + length result ≤ length types
  State-length {queue} {degrees} {result} k = omega (
    arith,
    length-append queue result,
    length_mono (queue ++ result) types (λ v.
        ground
          (arith, k.once v, count_if-append (λ x. x == v) queue result, count-pos-of-elem v types)),
  )

  -- The loop ends before the fuel runs out, and keeps the invariant.
  visit_queue-State :
      (fuel : ℕ) (queue : List ℕ) (degrees : Degrees) (result : List ℕ)
      → State queue degrees result
      → fuel + length result ≡ length types
      → (final : List ℕ) × (degrees' : Degrees) × (visit_queue rt ord fuel dm false queue degrees
            result
          ≡ some final)
        × State [] degrees' final
  unfolding visit_queue get_neighbors
  visit_queue-State fuel [] degrees result k e = (result, degrees, refl, k)
  visit_queue-State zero (c ∷ queue) degrees result k e = absurd (omega (arith, State-length k))
  visit_queue-State (suc fuel) (c ∷ queue) degrees result k e =
      visit_queue-State fuel _ _ _ (Kahn-step dm types m unique k rt ord)
        (omega (arith, length-append result (c ∷ [])))

  pub State-start :
      State
        (sort_by_weight rt ord dm (sources rt ord (calculate_in_degree dm types) types))
        (calculate_in_degree dm types)
        []
  unfolding sources
  State-start = record {
    degree = λ v.
        ground
          (arith, calculate_in_degree-lookup dm types v, edges_from-none dm.dependency_graph v);
    once = λ v. ground (
      arith,
      count-sort_by_weight rt ord dm v (sources rt ord (calculate_in_degree dm types) types),
      count-keep (λ t. is_zero (lookup_or t (pos 0) (calculate_in_degree dm types))) v types,
      calculate_in_degree-lookup dm types v,
      edges_from-none dm.dependency_graph v,
      count-pos-of-elem v types,
      elem_of_count-pos v types,
      unique v,
    );
    ordered = tt;
  }

  -- What the loop returns.
  pub sort_types-State :
      (final : List ℕ) × (degrees : Degrees) × (sort_types rt ord dm false types ≡ some final)
      × State [] degrees final
  unfolding sort_types
  sort_types-State = visit_queue-State (length types) _ _ [] State-start (omega arith)

  module _ {final : List ℕ} {degrees : Degrees} (k : State [] degrees final) where
    -- Without a cycle, that is, with a rank that grows along the edges, no type is left out.
    reached :
        (rank : ℕ → ℕ)
        → ((x u : ℕ)
            → elem x types ≡ true
            → elem u types ≡ true
            → depends dm x u ≡ true
            → rank u < rank x)
        → (n v : ℕ) → rank v < n
        → elem v types ≡ true
        → elem v final ≡ true
    reached rank grows zero v l e = absurd (omega arith)
    reached rank grows (suc n) v l e =
        let edges =
          edges_from-le dm.dependency_graph (λ u. elem u types) (λ u. elem u final) v m
            (λ u pu edge. reached rank grows n u (omega (arith, grows v u e pu edge)) pu) in
        elem_of_count-pos v final (ground (arith, k.once v, edges))

    pub final_complete :
        (rank : ℕ → ℕ)
        → ((x u : ℕ)
            → elem x types ≡ true
            → elem u types ≡ true
            → depends dm x u ≡ true
            → rank u < rank x)
        → (v : ℕ) → count v final ≡ count v types
    final_complete rank grows v = ground (
      arith,
      k.once v,
      unique v,
      reached rank grows (suc (rank v)) v (omega arith),
      count-pos-of-elem v types,
      elem_of_count-pos v types,
      count-pos-of-elem v final,
      elem_of_count-pos v final,
    )

    pub final-all : length final ≡ length types → (v : ℕ) → count v final ≡ count v types
    final-all =
        count-eq_of_length final types (λ v. ground (arith, k.once v, count-pos-of-elem v types))
