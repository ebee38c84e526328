-- ===== src/UnitOfWork/Dependency/Kahn.antt =====
-- The loop of `topologicalSort` of unitofwork/dependency.go, in insertion order: its invariant.
use toolkit.Prelude.{
  ℕ, ◌+◌, ◌-◌, ◌≤◌, ◌≡◌, ◌∙◌, ap, Bool, true, false, not, ◌&&◌, ◌==◌, List, [], ◌∷◌, ◌++◌, none,
  some, arith, if◌then◌else◌, elem, count, count_if-append, any-append, nat_eq, ==_iff, Bool-cases,
  inl, inr, count-pos-of-elem, ==-self, append-nil, append_assoc,
}
use toolkit.Prelude.Int.{pos}
use toolkit.Prelude.Map.{lookup}
use toolkit.UnitOfWork.Snapshot.{Reflect}
use toolkit.UnitOfWork.Dependency.{
  DependencyManager, Ordering, Degrees, dependents_of, visit_neighbors, sort_by_weight,
}
use toolkit.UnitOfWork.Dependency.Degrees.{edges_from}
use toolkit.UnitOfWork.Dependency.Visit.{Visited, visit_neighbors-some, visit_neighbors-none}
use toolkit.UnitOfWork.Dependency.Edges.{IsMap, edges_from-add, edges_from_mono, edges_from-eq}

-- Each element comes after those of `univ` that it needs, which are in `done` or before it.
abbrev pub IsOrdered : (ℕ → ℕ → Bool) → List ℕ → List ℕ → List ℕ → Type 0
IsOrdered needs univ done [] = Unit
IsOrdered needs univ done (x ∷ xs) =
    ((u : ℕ) → elem u univ ≡ true → needs x u ≡ true → elem u done ≡ true)
    × IsOrdered needs univ (done ++ x ∷ []) xs

-- `x` depends on `u`.
abbrev pub depends : DependencyManager → ℕ → ℕ → Bool
depends dm x u = elem x (dependents_of dm u)

IsOrdered-snoc :
    (needs : ℕ → ℕ → Bool) (univ done xs : List ℕ) (c : ℕ)
    → IsOrdered needs univ done xs
    → ((u : ℕ) → elem u univ ≡ true → needs c u ≡ true → elem u (done ++ xs) ≡ true)
    → IsOrdered needs univ done (xs ++ c ∷ [])
IsOrdered-snoc needs univ done [] c o h = ((λ u i n. rw append-nil at (h u i n)), tt)
IsOrdered-snoc needs univ done (x ∷ xs) c o h =
    (o.0, IsOrdered-snoc needs univ (done ++ x ∷ []) xs c o.1 (λ u i n. rw append_assoc (h u i n)))

pub count-sort_by_weight :
    (rt : Reflect) (ord : Ordering) (dm : DependencyManager) (v : ℕ) (xs : List ℕ)
    → count v (sort_by_weight rt ord dm xs) ≡ count v xs
unfolding sort_by_weight
count-sort_by_weight rt ord dm v xs = ord.count-sort_slice v _ xs

-- A round moves the head of the queue to the result and the next level into the queue.
count-round :
    (v c : ℕ) (queue result next sorted : List ℕ)
    → count v sorted ≡ count v next
    → count v (queue ++ sorted) + count v (result ++ c ∷ [])
      ≡ count v (c ∷ queue) + count v result + count v next
count-round v c queue result next sorted e = ground (
  arith,
  e,
  count_if-append (λ x. x == v) queue sorted,
  count_if-append (λ x. x == v) result (c ∷ []),
)

round_arith :
    (i d k n : ℕ)
    → d + k ≤ i
    → n ≡ 0 + (if not (i - d == 0) && (i - d == k) then 1 else 0)
    → (if i - d == 0 then 1 else 0) + n ≡ (if i - (d + k) == 0 then 1 else 0)
round_arith i d k n l e = ground arith

module _ (dm : DependencyManager) (types : List ℕ) (m : IsMap dm.dependency_graph)
    (unique : (v : ℕ) → count v types ≤ 1) where
  abbrev pub in_edges : ℕ → ℕ
  in_edges v = edges_from dm.dependency_graph (λ u. elem u types) v

  abbrev pub done_edges : List ℕ → ℕ → ℕ
  done_edges result v = edges_from dm.dependency_graph (λ u. elem u result) v

  pub record Kahn (queue : List ℕ) (degrees : Degrees) (result : List ℕ) : Type 0 where
    pub degree :
        (v : ℕ)
        → lookup v degrees
          ≡ (if elem v types then some (pos (in_edges v - done_edges result v)) else none)
    pub once :
        (v : ℕ)
        → count v queue + count v result
          ≡ (if elem v types && (in_edges v - done_edges result v == 0) then 1 else 0)
    pub ordered : IsOrdered (depends dm) types [] result

  module _ {queue : List ℕ} {degrees : Degrees} {result : List ℕ}
      (k : Kahn queue degrees result) where
    pub result-sub : (u : ℕ) → elem u result ≡ true → elem u types ≡ true
    result-sub u e = ground (arith, k.once u, count-pos-of-elem u result)

    pub done-le : (v : ℕ) → done_edges result v ≤ in_edges v
    done-le v =
        edges_from_mono dm.dependency_graph (λ u. elem u types) (λ u. elem u result) v result-sub

  -- The head of the queue has all its edges from what is done, and is not done.
  module _ {c : ℕ} {queue : List ℕ} {degrees : Degrees} {result : List ℕ}
      (k : Kahn (c ∷ queue) degrees result) where
    head-fresh : elem c result ≡ false
    head-fresh = ground (arith, k.once c, count-pos-of-elem c result, ==-self c)

    head-present : elem c types ≡ true
    head-present = ground (arith, k.once c, ==-self c)

    head-ready : done_edges result c ≡ in_edges c
    head-ready = ground (arith, k.once c, ==-self c, done-le k c)

    done-add :
        (v : ℕ)
        → done_edges (result ++ c ∷ []) v ≡ done_edges result v + count v (dependents_of dm c)
    done-add v = edges_from-add dm.dependency_graph result c v m head-fresh

    sub-add : (u : ℕ) → elem u (result ++ c ∷ []) ≡ true → elem u types ≡ true
    sub-add u e =
        ground (
          arith,
          any-append (λ x. x == u) result (c ∷ []),
          result-sub k u,
          head-present,
          ==_iff c u,
        )

    add-le : (v : ℕ) → done_edges result v + count v (dependents_of dm c) ≤ in_edges v
    add-le v = omega (
      arith,
      done-add v,
      edges_from_mono dm.dependency_graph (λ u. elem u types) (λ u. elem u (result ++ c ∷ [])) v
          sub-add,
    )

    -- What the round does to a type that is being sorted.
    visited :
        (v : ℕ)
        → elem v types ≡ true
        → Visited v
            (in_edges v - done_edges result v)
            (count v (dependents_of dm c))
            0
            (visit_neighbors (dependents_of dm c) degrees [])
    visited v e =
        visit_neighbors-some (dependents_of dm c) degrees [] v (in_edges v - done_edges result v)
          (ground (arith, k.degree v)) (omega (arith, add-le v))

    unvisited :
        (v : ℕ)
        → elem v types ≡ false
        → (lookup v (visit_neighbors (dependents_of dm c) degrees []).0 ≡ none)
          × (count v (visit_neighbors (dependents_of dm c) degrees []).1 ≡ 0)
    unvisited v e =
        visit_neighbors-none (dependents_of dm c) degrees [] v (ground (arith, k.degree v))

    pub Kahn-step :
        (rt : Reflect) (ord : Ordering)
        → (let (degrees', next) = visit_neighbors (dependents_of dm c) degrees [] in
            Kahn (queue ++ sort_by_weight rt ord dm next) degrees' (result ++ c ∷ []))
    Kahn-step rt ord =
        let round = λ (v : ℕ) (next : List ℕ).
          count-round v c queue result next (sort_by_weight rt ord dm next)
            (count-sort_by_weight rt ord dm v next) in
        let next = (visit_neighbors (dependents_of dm c) degrees []).1 in
        record {
          degree = λ v. elim (Bool-cases (elem v types)) [
            | inl e ↦
                rw e ((visited v e).degree ∙ ap (λ n. some (pos n)) (omega (arith, done-add v)))
            | inr e ↦ rw e (unvisited v e).0
          ];
          once = λ v. elim (Bool-cases (elem v types)) [
            | inl e ↦
                round v next
                ∙ rw (k.once v, e, done-add v)
                    (round_arith (in_edges v) (done_edges result v) (count v (dependents_of dm c))
                      (count v next) (add-le v) (visited v e).next_level)
            | inr e ↦ round v next ∙ rw (k.once v, e) (omega (arith, (unvisited v e).1))
          ];
          ordered = IsOrdered-snoc (depends dm) types [] result c k.ordered (λ u i d.
              edges_from-eq dm.dependency_graph (λ w. elem w types) (λ w. elem w result) c u
                (result-sub k) head-ready i d);
        }
