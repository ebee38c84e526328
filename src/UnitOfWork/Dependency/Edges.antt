-- ===== src/UnitOfWork/Dependency/Edges.antt =====
-- Counting the edges of a dependency graph from a set of types.
use toolkit.Prelude.{
  ℕ, ◌+◌, ◌≤◌, ◌<◌, ◌≡◌, refl, Bool, true, false, ◌==◌, List, [], ◌∷◌, ◌++◌, arith, elem, count,
  any-append, count-pos-of-elem, elem_of_count-pos, ==-self, nat_eq, ==_iff, Bool-cases, inl, inr,
}
use toolkit.Prelude.Map.{lookup, lookup_or, keys}
use toolkit.UnitOfWork.Dependency.Degrees.{edges_from}

abbrev pub Graph : Type 0
Graph = List (ℕ × List ℕ)

-- A map has a key once.
abbrev pub IsMap : Graph → Type 0
IsMap g = (u : ℕ) → count u (keys g) ≤ 1

abbrev pub targets : Graph → ℕ → List ℕ
targets g u = lookup_or u [] g

targets-missing : (g : Graph) (u : ℕ) → count u (keys g) ≡ 0 → targets g u ≡ []
unfolding lookup
targets-missing [] u e = refl
targets-missing ((w, ds) ∷ g) u e = ground (arith, targets-missing g u)

IsMap-tail : (w : ℕ) (ds : List ℕ) (g : Graph) → IsMap ((w, ds) ∷ g) → IsMap g
IsMap-tail w ds g m u = ground (arith, m u)

-- With one more type there are its own edges more.
pub edges_from-add :
    (g : Graph) (r : List ℕ) (c v : ℕ)
    → IsMap g
    → elem c r ≡ false
    → edges_from g (λ u. elem u (r ++ c ∷ [])) v
      ≡ edges_from g (λ u. elem u r) v + count v (targets g c)
unfolding lookup
edges_from-add [] r c v m e = ground arith
edges_from-add ((w, ds) ∷ g) r c v m e = ground (
  arith,
  edges_from-add g r c v (IsMap-tail w ds g m) e,
  any-append (λ x. x == w) r (c ∷ []),
  targets-missing g c,
  m c,
  ==_iff c w,
)

pub edges_from_mono :
    (g : Graph) (p q : ℕ → Bool) (v : ℕ)
    → ((u : ℕ) → q u ≡ true → p u ≡ true)
    → edges_from g q v ≤ edges_from g p v
edges_from_mono [] p q v h = omega arith
edges_from_mono ((w, ds) ∷ g) p q v h = ground (arith, h w, edges_from_mono g p q v h)

pub edges_from-none : (g : Graph) (v : ℕ) → edges_from g (λ u. false) v ≡ 0
edges_from-none [] v = refl
edges_from-none ((w, ds) ∷ g) v = ground (arith, edges_from-none g v)

-- If a smaller set has as many edges into `v`, it holds each type that has one.
pub edges_from-eq :
    (g : Graph) (p q : ℕ → Bool) (v u : ℕ)
    → ((w : ℕ) → q w ≡ true → p w ≡ true)
    → edges_from g q v ≡ edges_from g p v
    → p u ≡ true
    → elem v (targets g u) ≡ true
    → q u ≡ true
unfolding lookup
edges_from-eq [] p q v u h e pu edge = cc
edges_from-eq ((w, ds) ∷ g) p q v u h e pu edge = ground (
  arith,
  h w,
  edges_from_mono g p q v h,
  λ (r : edges_from g q v ≡ edges_from g p v). edges_from-eq g p q v u h r pu,
  count-pos-of-elem v ds,
  ==_iff w u,
)

-- A type with an edge into `v` from the set gives `v` a degree.
pub edges_from-pos :
    (g : Graph) (p : ℕ → Bool) (v u : ℕ)
    → p u ≡ true
    → elem v (targets g u) ≡ true
    → 0 < edges_from g p v
unfolding lookup
edges_from-pos [] p v u pu edge = cc
edges_from-pos ((w, ds) ∷ g) p v u pu edge =
    ground (arith, edges_from-pos g p v u pu, count-pos-of-elem v ds, ==_iff w u)

-- If each type of a set with an edge into `v` is in another set, that one has as many.
pub edges_from-le :
    (g : Graph) (p q : ℕ → Bool) (v : ℕ)
    → IsMap g
    → ((u : ℕ) → p u ≡ true → elem v (targets g u) ≡ true → q u ≡ true)
    → edges_from g p v ≤ edges_from g q v
unfolding lookup
edges_from-le [] p q v m h = omega arith
edges_from-le ((w, ds) ∷ g) p q v m h =
    let rest = edges_from-le g p q v (IsMap-tail w ds g m) (λ u pu edge.
      h u pu (elim (Bool-cases (w == u)) [
        | inl same ↦ absurd (ground (arith, m u, targets-missing g u))
        | inr other ↦ ground arith
      ])) in
    ground (arith, rest, h w, elem_of_count-pos v ds, ==-self w)
