-- ===== src/Set/Bounded.antt =====
-- The capacity of the nodes of a set: what an insertion does to the length of a node.
use indexset.Base.{ℕ, suc, ◌≤◌, List, [], ◌∷◌, ◌++◌, length, Ordering, arith}
use indexset.Order.Sorted.{All, All-append, All-append_left, All-append_right}
use indexset.Order.Spec

-- no node is longer than `capacity`
abbrev pub Fit {ℓ} : {A : Type ℓ} → ℕ → List (List A) → Type 0
Fit capacity inner = All (λ node. length node ≤ capacity) inner

module _ {ℓ} {T : Type ℓ} where
  pub insert_at_most :
      (p : T → Ordering) (v : T) (xs : List T) → length (Spec.insert p v xs) ≤ suc (length xs)
  insert_at_most p v [] = omega arith
  insert_at_most p v (x ∷ xs) = ground (arith, insert_at_most p v xs)

  module _ (capacity : ℕ) (before : List (List T)) (node : List T) (after : List (List T))
      (fit : Fit capacity (before ++ node ∷ after)) where
    pub Fit-node : length node ≤ capacity
    Fit-node = (All-append_right _ before (node ∷ after) fit).0

    pub Fit-around :
        (node' : List T) → length node' ≤ capacity → Fit capacity (before ++ node' ∷ after)
    Fit-around node' h =
        All-append _ before (node' ∷ after) (All-append_left _ before (node ∷ after) fit)
          (h, (All-append_right _ before (node ∷ after) fit).1)
