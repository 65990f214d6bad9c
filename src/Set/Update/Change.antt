-- ===== src/Set/Update/Change.antt =====
-- Writes through a reference to an item: the order is kept if the new item compares like the old.
use indexset.Base.{
  ◌≡◌, sym, ap, ◌∙◌, List, [], ◌∷◌, ◌++◌, length, length-append, flatten, arith, ok,
}
use indexset.Base.Vec
use indexset.Order.{Ord, ◌≺◌}
use indexset.Order.Sorted.{All, All-append, All-append_left, All-append_right, IsSorted}
use indexset.Fenwick.{FenwickTree, Counts}
use indexset.Set.{BTreeSet}
use indexset.Set.Valid.{IsNonempty, HasNodes, IsValid, items}
use indexset.Set.Nodes.{HasNodes-around, before-IsNonempty, after-IsNonempty}
use indexset.Set.Counting.{counts_same}
use indexset.Set.Spot.{flatten_around}
use indexset.Set.Update.{change_at}

-- the new item compares with all others as the old one does
abbrev pub SamePlace {ℓ} : {T : Type ℓ} ⦃t : Ord T⦄ → T → T → Type ℓ
SamePlace {T} ⦃t⦄ x y = ((z : T) → t.cmp x z ≡ t.cmp y z) × ((z : T) → t.cmp z x ≡ t.cmp z y)

module _ {ℓ} {T : Type ℓ} ⦃t : Ord T⦄ (x y : T) (same : SamePlace x y) where
  after-IsSorted_change : (ys : List T) → All (λ z. x ≺ z) ys → All (λ z. y ≺ z) ys
  after-IsSorted_change [] h = tt
  after-IsSorted_change (z ∷ ys) h = (sym (same.0 z) ∙ h.0, after-IsSorted_change ys h.1)

  change-IsSorted : (xs ys : List T) → IsSorted (xs ++ x ∷ ys) → IsSorted (xs ++ y ∷ ys)
  change-IsSorted [] ys h = (after-IsSorted_change ys h.0, h.1)
  change-IsSorted (w ∷ xs) ys h =
      let rest = All-append_right _ xs (x ∷ ys) h.0 in
      (
        All-append _ xs (y ∷ ys) (All-append_left _ xs (x ∷ ys) h.0)
            (sym (same.1 w) ∙ rest.0, rest.1),
        change-IsSorted xs ys h.1,
      )

IsNonempty-at {ℓ} : {T : Type ℓ} (lo : List T) (x : T) (hi : List T) → IsNonempty (lo ++ x ∷ hi)
IsNonempty-at [] x hi = tt
IsNonempty-at (y ∷ lo) x hi = tt

module _ {ℓ} {T : Type ℓ} {I : Type 0} ⦃t : Ord T⦄ ⦃f : FenwickTree I⦄ ⦃c : Counts I⦄
    (s : BTreeSet I T) (valid : IsValid s) (before : List (List T)) (lo : List T) (x : T)
    (hi : List T) (after : List (List T)) (change : T → T)
    (nodes_eq : s.inner ≡ before ++ (lo ++ x ∷ hi) ∷ after) where
  abbrev changed : BTreeSet I T
  changed = record s { inner = before ++ (lo ++ change x ∷ hi) ∷ after }

  change_at-changed : change_at s (length before) (length lo) change ≡ ok (x, changed)
  change_at-changed = rw (
    nodes_eq,
    Vec.index_lem before (lo ++ x ∷ hi) after,
    Vec.index_lem lo x hi,
    Vec.assign_lem lo x (change x) hi,
    Vec.assign_lem before (lo ++ x ∷ hi) (lo ++ change x ∷ hi) after,
  )

  whole : items s ≡ (flatten before ++ lo) ++ x ∷ (hi ++ flatten after)
  whole = ap flatten nodes_eq ∙ flatten_around before lo (x ∷ hi) after

  nodes_valid : HasNodes (before ++ (lo ++ x ∷ hi) ∷ after)
  nodes_valid = rw (← nodes_eq) valid.nodes

  changed-IsValid : SamePlace x (change x) → IsValid changed
  changed-IsValid same = record {
    nodes =
        HasNodes-around before (lo ++ change x ∷ hi) after
          (before-IsNonempty before (lo ++ x ∷ hi) after nodes_valid)
          (IsNonempty-at lo (change x) hi)
          (after-IsNonempty before (lo ++ x ∷ hi) after nodes_valid);
    sorted = rw (flatten_around before lo (change x ∷ hi) after) (
        change-IsSorted x (change x) same (flatten before ++ lo) (hi ++ flatten after)
          (rw whole at valid.sorted));
    counted =
        counts_same s.index before (lo ++ x ∷ hi) (lo ++ change x ∷ hi) after
          (rw (← nodes_eq) valid.counted)
          (omega (arith, length-append lo (x ∷ hi), length-append lo (change x ∷ hi)));
    measured = rw (flatten_around before lo (change x ∷ hi) after) (
        omega (
          arith,
          valid.measured,
          ap length whole,
          length-append (flatten before ++ lo) (x ∷ (hi ++ flatten after)),
          length-append (flatten before ++ lo) (change x ∷ (hi ++ flatten after)),
        ));
    capacity = valid.capacity;
  }

  -- Writing an item that compares like the old one leaves a valid set that differs there alone.
  pub change_at_lem :
      SamePlace x (change x)
      → (s' : BTreeSet I T) × (change_at s (length before) (length lo) change ≡ ok (x, s'))
        × IsValid s'
        × (items s' ≡ (flatten before ++ lo) ++ change x ∷ (hi ++ flatten after))
  change_at_lem same = (
    changed,
    change_at-changed,
    changed-IsValid same,
    flatten_around before lo (change x ∷ hi) after,
  )
