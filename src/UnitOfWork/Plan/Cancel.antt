-- ===== src/UnitOfWork/Plan/Cancel.antt =====
-- `removeInvalidOperations` of unitofwork/unitofwork.go: what its two loops cancel.
use toolkit.Prelude.{ℕ, ◌+◌, ◌≡◌, refl, false, List, [], ◌∷◌, arith}
use toolkit.UnitOfWork.Entity.{Heap}
use toolkit.UnitOfWork.Operation.{Operation, insert_operation, same_identity}
use toolkit.UnitOfWork.Plan.{
  cancels, cancel_with, cancel_pairs, valid_operations, remove_invalid_operations,
}

module _ (h : Heap) where
  -- `SameIdentity` of an insertion wants another insertion, never a deletion.
  cancels-eq-false : (a b : Operation) → cancels h a b ≡ false
  unfolding cancels same_identity
  cancels-eq-false (insert_operation e) b = ground arith
  cancels-eq-false a b = ground arith

  cancel_with_lem :
      (i : ℕ) (a : Operation) (j : ℕ) (ops : List Operation) (canceled : List ℕ)
      → cancel_with h i a j ops canceled ≡ canceled
  unfolding cancel_with
  cancel_with_lem i a j [] canceled = refl
  cancel_with_lem i a j (b ∷ ops) canceled =
      ground (arith, cancels-eq-false a b, cancel_with_lem i a (j + 1) ops canceled)

  cancel_pairs_lem :
      (all : List Operation) (i : ℕ) (ops : List Operation) → cancel_pairs h all i ops [] ≡ []
  unfolding cancel_pairs
  cancel_pairs_lem all i [] = refl
  cancel_pairs_lem all i (a ∷ ops) =
      ground (arith, cancel_with_lem i a 0 all [], cancel_pairs_lem all (i + 1) ops)

  valid_operations_lem : (i : ℕ) (ops : List Operation) → valid_operations h [] i ops ≡ ops
  unfolding valid_operations
  valid_operations_lem i [] = refl
  valid_operations_lem i (a ∷ ops) = ground (arith, valid_operations_lem (i + 1) ops)

  -- No operation is ever cancelled: the step returns every list of operations as it is.
  pub remove_invalid_operations_lem : (ops : List Operation) → remove_invalid_operations h ops ≡ ops
  unfolding remove_invalid_operations
  remove_invalid_operations_lem ops =
      ground (arith, cancel_pairs_lem ops 0 ops, valid_operations_lem 0 ops)
