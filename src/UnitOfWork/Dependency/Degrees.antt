-- ===== src/UnitOfWork/Dependency/Degrees.antt =====
-- The in-degrees of unitofwork/dependency.go: what `calculateInDegree` computes, and what the loop
-- over the neighbours of a type makes of them.
use toolkit.Prelude.{
  ℕ, zero, suc, ◌+◌, ◌≡◌, refl, ◌∙◌, ap, Bool, true, false, List, [], ◌∷◌, Option, none, some,
  arith, if◌then◌else◌, elem, count, nat_eq, Option-cases, inl, inr,
}
use toolkit.Prelude.Int.{ℤ, pos, increment}
use toolkit.Prelude.Map.{lookup, insert, lookup-insert}
use toolkit.UnitOfWork.Entity.{EntityType}
use toolkit.UnitOfWork.Dependency.{
  DependencyManager, Degrees, init_degrees, count_dependents, count_edges, calculate_in_degree,
}

abbrev Graph : Type 0
Graph = List (EntityType × List EntityType)

-- The edges into `v` from types that pass a test.
abbrev pub edges_from : List (EntityType × List EntityType) → (ℕ → Bool) → EntityType → ℕ
edges_from [] p v = 0
edges_from ((u, ds) ∷ g) p v = (if p u then count v ds else 0) + edges_from g p v

abbrev raise : ℕ → ℤ → ℤ
raise zero d = d
raise (suc n) d = raise n (increment d)

abbrev raise_entry : ℕ → Option ℤ → Option ℤ
raise_entry n none = none
raise_entry n (some d) = some (raise n d)

abbrev is_some {ℓ} : {A : Type ℓ} → Option A → Bool
is_some none = false
is_some (some a) = true

raise-pos : (n k : ℕ) → raise n (pos k) ≡ pos (k + n)
raise-pos zero k = ap pos (omega arith)
raise-pos (suc n) k = raise-pos n (suc k) ∙ ap pos (omega arith)

raise-raise : (m n : ℕ) (d : ℤ) → raise n (raise m d) ≡ raise (m + n) d
raise-raise zero n d = let e : 0 + n ≡ n = omega arith in rw e
raise-raise (suc m) n d =
    let e : suc m + n ≡ suc (m + n) = omega arith in rw e (raise-raise m n (increment d))

raise_entry-raise_entry :
    (m n : ℕ) (o : Option ℤ) → raise_entry n (raise_entry m o) ≡ raise_entry (m + n) o
raise_entry-raise_entry m n none = refl
raise_entry-raise_entry m n (some d) = ap some (raise-raise m n d)

is_some-raise_entry : (n : ℕ) (o : Option ℤ) → is_some (raise_entry n o) ≡ is_some o
is_some-raise_entry n none = refl
is_some-raise_entry n (some d) = refl

lookup-nil : (v : EntityType) → lookup {V = ℤ} v [] ≡ none
unfolding lookup
lookup-nil v = refl

init_degrees-lookup :
    (ts : List EntityType) (m : Degrees) (v : EntityType)
    → lookup v (init_degrees ts m) ≡ (if elem v ts then some (pos 0) else lookup v m)
unfolding init_degrees
init_degrees-lookup [] m v = refl
init_degrees-lookup (t ∷ ts) m v =
    ground (arith, init_degrees-lookup ts (insert t (pos 0) m) v, lookup-insert t v (pos 0) m)

count_dependents-lookup :
    (deps : List EntityType) (m : Degrees) (v : EntityType)
    → lookup v (count_dependents deps m) ≡ raise_entry (count v deps) (lookup v m)
unfolding count_dependents
count_dependents-lookup [] m v = ground arith
count_dependents-lookup (dep ∷ deps) m v = elim (Option-cases (lookup dep m)) [
  | inl missing ↦ ground (arith, count_dependents-lookup deps m v)
  | inr (d, found) ↦ ground (
    arith,
    count_dependents-lookup deps (insert dep (increment d) m) v,
    lookup-insert dep v (increment d) m,
  )
]

count_edges-lookup :
    (g : Graph) (m : Degrees) (p : ℕ → Bool)
    → ((u : EntityType) → is_some (lookup u m) ≡ p u)
    → (v : EntityType) → lookup v (count_edges g m) ≡ raise_entry (edges_from g p v) (lookup v m)
unfolding count_edges
count_edges-lookup [] m p h v = elim (Option-cases (lookup v m)) [
  | inl e ↦ ground arith
  | inr (d, e) ↦ ground arith
]
count_edges-lookup ((u, ds) ∷ g) m p h v = elim (Option-cases (lookup u m)) [
  | inl missing ↦ ground (arith, h u, count_edges-lookup g m p h v)
  | inr (d, found) ↦
      let kept : (w : EntityType) → is_some (lookup w (count_dependents ds m)) ≡ p w =
        λ w. rw count_dependents-lookup (is_some-raise_entry (count w ds) (lookup w m) ∙ h w) in
      ground (
        arith,
        h u,
        count_edges-lookup g (count_dependents ds m) p kept v,
        count_dependents-lookup ds m v,
        raise_entry-raise_entry (count v ds) (edges_from g p v) (lookup v m),
      )
]

-- The in-degree of each type is the number of edges from the types being sorted.
pub calculate_in_degree-lookup :
    (dm : DependencyManager) (types : List EntityType) (v : EntityType)
    → lookup v (calculate_in_degree dm types) ≡ (
        if elem v types
        then some (pos (edges_from dm.dependency_graph (λ u. elem u types) v))
        else none)
unfolding calculate_in_degree
calculate_in_degree-lookup dm types v =
    let here : (u : EntityType) → is_some (lookup u (init_degrees types [])) ≡ elem u types =
      λ u. ground (arith, init_degrees-lookup types [] u, lookup-nil u) in
    ground (
      arith,
      lookup-nil v,
      init_degrees-lookup types [] v,
      count_edges-lookup dm.dependency_graph (init_degrees types []) (λ u. elem u types) here v,
      raise-pos (edges_from dm.dependency_graph (λ u. elem u types) v) 0,
    )
