-- ===== src/Set/Valid.antt =====
-- The invariant of a `BTreeSet`, and the list of items that a set stands for.
use indexset.Base.{ℕ, ◌≤◌, ◌≡◌, refl, List, [], ◌∷◌, map, length, flatten}
use indexset.Order.{Ord}
use indexset.Order.Sorted.{All, IsSorted}
use indexset.Fenwick.{FenwickTree, Counts}
use indexset.Set.{BTreeSet, with_maximum_node_size}

abbrev pub IsNonempty {ℓ} : {A : Type ℓ} → List A → Type 0
IsNonempty [] = ⊥
IsNonempty (x ∷ xs) = Unit

-- There is a node, and no node is empty but a sole one.
abbrev pub HasNodes {ℓ} : {A : Type ℓ} → List (List A) → Type 0
HasNodes [] = ⊥
HasNodes (node ∷ []) = Unit
HasNodes (node ∷ next ∷ rest) = All IsNonempty (node ∷ next ∷ rest)

-- the items of a set, in order
abbrev pub items {ℓ} : {T : Type ℓ} {I : Type 0} → BTreeSet I T → List T
items s = flatten s.inner

module _ {ℓ} {T : Type ℓ} {I : Type 0} ⦃t : Ord T⦄ ⦃f : FenwickTree I⦄ ⦃c : Counts I⦄ where
  -- The nodes are sorted one after the other, the index counts them, and `len` is the number of items.
  pub record IsValid (s : BTreeSet I T) : Type 0 where
    pub nodes : HasNodes s.inner
    pub sorted : IsSorted (items s)
    pub counted : c.counts s.index ≡ map length s.inner
    pub measured : s.len ≡ length (items s)
    pub capacity : 2 ≤ s.node_capacity

  -- No node outgrows the capacity.
  abbrev pub IsBounded : BTreeSet I T → Type 0
  IsBounded s = All (λ node. length node ≤ s.node_capacity) s.inner

  pub with_maximum_node_size-IsValid : (n : ℕ) → 2 ≤ n → IsValid (with_maximum_node_size n)
  with_maximum_node_size-IsValid n h = record {
    nodes = tt;
    sorted = tt;
    counted = c.counts-from_iter (0 ∷ []);
    measured = refl;
    capacity = h;
  }
