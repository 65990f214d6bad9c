-- ===== src/Set/Nodes.antt =====
-- Which nodes of a tree are empty.
use indexset.Base.{◌≤◌, List, [], ◌∷◌, ◌++◌, length, Ordering, arith}
use indexset.Order.Sorted.{All, All-append, All-append_left, All-append_right}
use indexset.Order.Spec
use indexset.Set.Valid.{IsNonempty, HasNodes}

module _ {ℓ} {A : Type ℓ} where
  pub HasNodes-of_All :
      (node : List A) (rest : List (List A)) → All IsNonempty (node ∷ rest) → HasNodes (node ∷ rest)
  HasNodes-of_All node [] h = tt
  HasNodes-of_All node (next ∷ rest) h = h

  pub HasNodes-around :
      (before : List (List A)) (node : List A) (after : List (List A))
      → All IsNonempty before
      → IsNonempty node
      → All IsNonempty after
      → HasNodes (before ++ node ∷ after)
  HasNodes-around [] node after h n k = HasNodes-of_All node after (n, k)
  HasNodes-around (first ∷ before) node after h n k =
      HasNodes-of_All first (before ++ node ∷ after)
        (h.0, All-append _ before (node ∷ after) h.1 (n, k))

  pub All-of_HasNodes :
      (first : List A) (before : List (List A)) (node : List A) (after : List (List A))
      → HasNodes (first ∷ before ++ node ∷ after)
      → All IsNonempty (first ∷ before ++ node ∷ after)
  All-of_HasNodes first [] node after h = h
  All-of_HasNodes first (next ∷ before) node after h = h

  -- the nodes around any node are not empty
  pub before-IsNonempty :
      (before : List (List A)) (node : List A) (after : List (List A))
      → HasNodes (before ++ node ∷ after)
      → All IsNonempty before
  before-IsNonempty [] node after h = tt
  before-IsNonempty (first ∷ before) node after h =
      All-append_left _ (first ∷ before) (node ∷ after) (All-of_HasNodes first before node after h)

  pub after-IsNonempty :
      (before : List (List A)) (node : List A) (after : List (List A))
      → HasNodes (before ++ node ∷ after)
      → All IsNonempty after
  after-IsNonempty [] node [] h = tt
  after-IsNonempty [] node (next ∷ after) h = h.1
  after-IsNonempty (first ∷ before) node after h =
      (All-append_right _ (first ∷ before) (node ∷ after)
        (All-of_HasNodes first before node after h)).1

  pub IsNonempty-of_length : (xs : List A) → 1 ≤ length xs → IsNonempty xs
  IsNonempty-of_length [] h = absurd (omega arith)
  IsNonempty-of_length (x ∷ xs) h = tt

  pub insert-IsNonempty : (p : A → Ordering) (v : A) (xs : List A) → IsNonempty (Spec.insert p v xs)
  insert-IsNonempty p v [] = tt
  insert-IsNonempty p v (x ∷ xs) = ground arith
