-- ===== src/Set/Spot.antt =====
-- The place of a probe in a whole tree: a node, a position in it, and whether an item is there.
use indexset.Base.{
  ℕ, ◌≡◌, refl, sym, ap, ◌∙◌, List, [], ◌∷◌, ◌++◌, append_assoc, Ordering, eq, is_lt, length,
  flatten, flatten-append, arith, Run, ok,
}
use indexset.Set.CutSpec.{index-cut}
use indexset.Set.{BTreeSet}
use indexset.Set.Valid.{HasNodes}
use indexset.Set.Locate.{locate_node, locate_value, locate_node_cmp, locate_value_cmp}
use indexset.Set.Locate.Cut.{locate_node-Cut, locate_node_cmp-Cut}
use indexset.Order.{Borrow, against, against-IsProbe}
use indexset.Base.Vec
use indexset.Order.{Ord, IsProbe}
use indexset.Order.Sorted.{All-append, IsSorted, IsSorted-append_left, IsSorted-append_right}
use indexset.Order.View.{
  Below, Above, absent, present, view, partition_point-append, partition_point-Above,
}
use indexset.Set.Locate.Cut.{Cut}

-- In `vacant` nothing compares equal, and the value belongs between `lo` and `hi`.
pub data Spot {ℓ} {T : Type ℓ} (p : T → Ordering) (inner : List (List T)) (node_idx position : ℕ)
    : Type ℓ where
  vacant :
      (before : List (List T)) (lo hi : List T) (after : List (List T))
      → inner ≡ before ++ (lo ++ hi) ∷ after
      → node_idx ≡ length before
      → position ≡ length lo
      → Below p (flatten before ++ lo)
      → Below p lo
      → Above p hi
      → Above p (hi ++ flatten after)
      → (hi ≡ [] → after ≡ [])
      → Spot p inner node_idx position
  occupied :
      (before : List (List T)) (lo : List T) (x : T) (hi : List T) (after : List (List T))
      → inner ≡ before ++ (lo ++ x ∷ hi) ∷ after
      → node_idx ≡ length before
      → position ≡ length lo
      → Below p (flatten before ++ lo)
      → Below p lo
      → p x ≡ eq
      → Above p hi
      → Above p (hi ++ flatten after)
      → Spot p inner node_idx position

module _ {ℓ} {T : Type ℓ} where
  -- the items around a place of a node
  pub flatten_around :
      (before : List (List T)) (lo hi : List T) (after : List (List T))
      → flatten (before ++ (lo ++ hi) ∷ after) ≡ (flatten before ++ lo) ++ (hi ++ flatten after)
  flatten_around before lo hi after = rw (flatten-append before ((lo ++ hi) ∷ after)) (
      ap (λ l. flatten before ++ l) (append_assoc lo hi (flatten after))
      ∙ sym (append_assoc (flatten before) lo (hi ++ flatten after)))

  pub node-IsSorted :
      ⦃t : Ord T⦄ (before : List (List T)) (node : List T) (after : List (List T))
      → IsSorted (flatten (before ++ node ∷ after))
      → IsSorted node
  node-IsSorted before node after h = IsSorted-append_left node (flatten after) (
      IsSorted-append_right (flatten before) (node ++ flatten after)
        (rw (flatten-append before (node ∷ after)) at h))

module _ {ℓ} {T : Type ℓ} ⦃t : Ord T⦄ {p : T → Ordering} (probe : IsProbe p)
    (inner : List (List T)) where
  -- a cut of a sorted tree is a place in the chosen node
  pub Cut-Spot :
      (node_idx : ℕ)
      → IsSorted (flatten inner)
      → (k : Cut p inner node_idx) → (Below p k.node → k.after ≡ [])
      → Spot p inner node_idx (Vec.partition_point (λ x. is_lt (p x)) k.node)
  Cut-Spot node_idx sorted k tight =
      elim (view probe k.node (node-IsSorted k.before k.node k.after (rw (← k.nodes_eq) sorted))) [
        | absent lo hi e below above ↦
            vacant k.before lo hi k.after (rw (← e) k.nodes_eq) k.node_idx_eq
              (rw e (
                partition_point-append p lo hi below
                ∙ omega (arith, partition_point-Above p hi above)))
              (All-append _ (flatten k.before) lo k.below below) below above
              (All-append _ hi (flatten k.after) above k.above)
              (λ n. tight (rw (e, n) (All-append _ lo [] below tt)))
        | present lo x hi e below m above ↦
            occupied k.before lo x hi k.after (rw (← e) k.nodes_eq) k.node_idx_eq
              (rw e (partition_point-append p lo (x ∷ hi) below ∙ ground arith))
              (All-append _ (flatten k.before) lo k.below below) below m above
              (All-append _ hi (flatten k.after) above k.above)
      ]

-- What `locate_value` and `locate_value_cmp` return on a sorted tree.
module _ {ℓ} {T : Type ℓ} {I : Type 0} ⦃t : Ord T⦄ (s : BTreeSet I T) (nodes : HasNodes s.inner)
    (sorted : IsSorted (flatten s.inner)) where
  abbrev pub Located {κ} : (T → Ordering) → Run (ℕ × ℕ) → (ℕ → Type κ) → Type (ℓ ⊔ κ)
  Located p located first =
      (node_idx : ℕ) × (position : ℕ) × (located ≡ ok (node_idx, position))
      × first node_idx
      × Spot p s.inner node_idx position

  pub locate_value-Spot {κ} :
      {Q : Type κ} ⦃q : Ord Q⦄ ⦃b : Borrow T Q⦄ (value : Q)
      → Located (against value) (locate_value s value) (λ i. locate_node s value ≡ i)
  unfolding locate_value
  locate_value-Spot value =
      let (k, tight) = locate_node-Cut s nodes sorted value in
      (
        locate_node s value,
        Vec.partition_point (λ x. is_lt (against value x)) k.node,
        rw (index-cut s.inner (locate_node s value) k),
        refl,
        Cut-Spot (against-IsProbe value) s.inner (locate_node s value) sorted k tight,
      )

  pub locate_value_cmp-Spot :
      {p : T → Ordering}
      → IsProbe p
      → Located p
          (locate_value_cmp s (λ x. is_lt (p x)))
          (λ i. locate_node_cmp s (λ x. is_lt (p x)) ≡ i)
  unfolding locate_value_cmp
  locate_value_cmp-Spot {p} probe =
      let (k, tight) = locate_node_cmp-Cut s nodes sorted probe in
      (
        locate_node_cmp s (λ x. is_lt (p x)),
        Vec.partition_point (λ x. is_lt (p x)) k.node,
        rw (index-cut s.inner (locate_node_cmp s (λ x. is_lt (p x))) k),
        refl,
        Cut-Spot probe s.inner (locate_node_cmp s (λ x. is_lt (p x))) sorted k tight,
      )
