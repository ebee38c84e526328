-- ===== src/UnitOfWork/Dependency/Visit.antt =====
-- The loop over the neighbours of a type in `topologicalSort` of unitofwork/dependency.go: what it
-- makes of the in-degrees and of the next level.
use toolkit.Prelude.{
  ℕ, zero, suc, ◌+◌, ◌-◌, ◌≤◌, ◌≡◌, refl, ◌∙◌, subst, false, not, ◌&&◌, ◌==◌, List, [], ◌∷◌, ◌++◌,
  none, some, arith, if◌then◌else◌, count, count_if-append, nat_eq, ==_iff, Option-cases, inl, inr,
  Bool-cases, ==-self,
}
use toolkit.Prelude.Int.{ℤ, pos, decrement, is_zero}
use toolkit.Prelude.Map.{lookup, insert, lookup-insert}
use toolkit.UnitOfWork.Entity.{EntityType}
use toolkit.UnitOfWork.Dependency.{Degrees, visit_neighbors}

-- One neighbour that is another type than `v`.
visit_other :
    (x v : EntityType) (d : ℤ) (m : Degrees) (next : List EntityType)
    → (x == v) ≡ false
    → (lookup v (insert x d m) ≡ lookup v m)
      × (count v (if is_zero d then next ++ x ∷ [] else next) ≡ count v next)
visit_other x v d m next apart = (
  ground (arith, lookup-insert x v d m),
  ground (arith, count_if-append (λ y. y == v) next (x ∷ [])),
)

-- A type loses one for each time that it is a neighbour, and is in the next level if that leaves 0.
pub record Visited (v : EntityType) (n k c : ℕ) (r : Degrees × List EntityType) : Type 0 where
  pub degree : lookup v r.0 ≡ some (pos (n - k))
  pub next_level : count v r.1 ≡ c + (if not (n == 0) && (n == k) then 1 else 0)

next_level_step :
    (x : EntityType) (ns next : List EntityType) (n : ℕ)
    → count x ns ≤ n
    → count x (if n == 0 then next ++ x ∷ [] else next)
        + (if not (n == 0) && (n == count x ns) then 1 else 0)
      ≡ count x next + (if not (suc n == 0) && (suc n == suc (count x ns)) then 1 else 0)
next_level_step x ns next n l =
    ground (arith, count_if-append (λ y. y == x) next (x ∷ []), ==-self x)

module _ (x : EntityType) (ns : List EntityType) (m : Degrees) (next : List EntityType) where
  visit_missing : lookup x m ≡ none → visit_neighbors (x ∷ ns) m next ≡ visit_neighbors ns m next
  unfolding visit_neighbors
  visit_missing e = rw (e, visit_neighbors)

  visit_found :
      (d : ℤ)
      → lookup x m ≡ some d
      → visit_neighbors (x ∷ ns) m next
        ≡ visit_neighbors ns
            (insert x (decrement d) m)
            (if is_zero (decrement d) then next ++ x ∷ [] else next)
  unfolding visit_neighbors
  visit_found d e = rw (e, visit_neighbors)

  -- The type itself is the neighbour.
  visit_here :
      (n : ℕ)
      → lookup x m ≡ some (pos (suc n))
      → count x ns ≤ n
      → ((next' : List EntityType)
          → Visited x n
              (count x ns)
              (count x next')
              (visit_neighbors ns (insert x (pos n) m) next'))
      → Visited x (suc n) (suc (count x ns)) (count x next) (visit_neighbors (x ∷ ns) m next)
  visit_here n e l ih =
      let next' = if n == 0 then next ++ x ∷ [] else next in
      let v = ih next' in
      let step : visit_neighbors (x ∷ ns) m next ≡ visit_neighbors ns (insert x (pos n) m) next' =
        visit_found (pos (suc n)) e in
      rw step (record {
        degree = rw v.degree (ground arith);
        next_level = rw v.next_level (next_level_step x ns next n l);
      })

  -- The neighbour is the type, whose degree is not 0 then.
  visit_head :
      (n : ℕ)
      → ((m' : Degrees) (next' : List EntityType) (k : ℕ)
          → lookup x m' ≡ some (pos k)
          → count x ns ≤ k
          → Visited x k (count x ns) (count x next') (visit_neighbors ns m' next'))
      → lookup x m ≡ some (pos n)
      → count x (x ∷ ns) ≤ n
      → Visited x n (count x (x ∷ ns)) (count x next) (visit_neighbors (x ∷ ns) m next)
  visit_head zero ih e l = absurd (ground (arith, ==-self x))
  visit_head (suc n) ih e l =
      let k : count x (x ∷ ns) ≡ suc (count x ns) = rw ==-self in
      let l' : count x ns ≤ n = omega (arith, k) in
      rw k (
        visit_here n e l' (λ next'.
          ih (insert x (pos n) m) next' n (ground (arith, lookup-insert x x (pos n) m, ==-self x))
            l'))

pub visit_neighbors-some :
    (ns : List EntityType) (m : Degrees) (next : List EntityType) (v : EntityType) (n : ℕ)
    → lookup v m ≡ some (pos n)
    → count v ns ≤ n
    → Visited v n (count v ns) (count v next) (visit_neighbors ns m next)
visit_neighbors-some [] m next v n e l =
    unfold visit_neighbors in record { degree = ground arith; next_level = ground arith }
visit_neighbors-some (x ∷ ns) m next v n e l = elim (Bool-cases (x == v)) [
  | inl here ↦
      subst
        (λ w.
          lookup w m ≡ some (pos n)
          → count w (x ∷ ns) ≤ n
          → Visited w n (count w (x ∷ ns)) (count w next) (visit_neighbors (x ∷ ns) m next))
        ((==_iff x v).0 here)
        (visit_head x ns m next n (λ m' next' k. visit_neighbors-some ns m' next' x k)) e l
  | inr apart ↦
      let k : count v (x ∷ ns) ≡ count v ns = ground arith in
      elim (Option-cases (lookup x m)) [
        | inl missing ↦
            rw (visit_missing x ns m next missing, k)
              (visit_neighbors-some ns m next v n e (omega (arith, k)))
        | inr (d, found) ↦
            let other = visit_other x v (decrement d) m next apart in
            rw (visit_found x ns m next d found, k, ← other.1)
              (visit_neighbors-some ns _ _ v n (other.0 ∙ e) (omega (arith, k)))
      ]
]

-- A type that is not being sorted stays so, and is in no next level.
pub visit_neighbors-none :
    (ns : List EntityType) (m : Degrees) (next : List EntityType) (v : EntityType)
    → lookup v m ≡ none
    → (lookup v (visit_neighbors ns m next).0 ≡ none)
      × (count v (visit_neighbors ns m next).1 ≡ count v next)
visit_neighbors-none [] m next v e = unfold visit_neighbors in (e, refl)
visit_neighbors-none (x ∷ ns) m next v e = elim (Option-cases (lookup x m)) [
  | inl missing ↦ rw (visit_missing x ns m next missing) (visit_neighbors-none ns m next v e)
  | inr (d, found) ↦
      let apart : (x == v) ≡ false = ground arith in
      let other = visit_other x v (decrement d) m next apart in
      rw (visit_found x ns m next d found, ← other.1) (visit_neighbors-none ns _ _ v (other.0 ∙ e))
]
