-- ===== src/Set/Query/Lookup.antt =====
-- `contains`, `get` and `lower_bound` of src/lib.rs against the reference lookups.
use indexset.Base.{
  ℕ, ◌≡◌, refl, sym, ap, ◌∙◌, List, [], ◌∷◌, ◌++◌, Option, none, some, false, Ordering, eq, gt,
  is_eq, is_lt, length, get_elem?, get_elem?-append_at, flatten, arith, ok,
}
use indexset.Order.{Ord, Borrow, against, IsProbe}
use indexset.Order.Spec.{find, find_not_below, is_some}
use indexset.Order.View.{find_not_below-append}
use indexset.Order.Cuts.{find-absent, find-present}
use indexset.Fenwick.{FenwickTree, Counts}
use indexset.Set.{BTreeSet}
use indexset.Set.Valid.{IsValid, items}
use indexset.Set.Spot.{
  Spot, vacant, occupied, flatten_around, locate_value-Spot, locate_value_cmp-Spot,
}
use indexset.Set.Query.{item_in, item_at, get, lower_bound, contains, contains_cmp}

-- the item at a place of a tree: the one that compares equal, or the first above
pub data Reads {ℓ} {T : Type ℓ} (p : T → Ordering) (xs : List T) (read : Option T) : Type ℓ where
  nothing : read ≡ none → find p xs ≡ none → find_not_below p xs ≡ none → Reads p xs read
  greater :
      (x : T)
      → read ≡ some x
      → p x ≡ gt
      → find p xs ≡ none
      → find_not_below p xs ≡ some x
      → Reads p xs read
  equal :
      (x : T)
      → read ≡ some x
      → p x ≡ eq
      → find p xs ≡ some x
      → find_not_below p xs ≡ some x
      → Reads p xs read

pub item_at-before {ℓ} :
    {T : Type ℓ} {I : Type 0} (s : BTreeSet I T) (before : List (List T)) (node : List T)
    (after : List (List T)) (position : ℕ)
    → s.inner ≡ before ++ node ∷ after
    → item_at s (length before, position) ≡ get_elem? node position
item_at-before s before node after position e =
    ap (λ l. item_in l (length before, position)) e
    ∙ rw (get_elem?-append_at before (node ∷ after), item_in)

module _ {ℓ} {T : Type ℓ} {I : Type 0} {p : T → Ordering} (s : BTreeSet I T) where
  pub Spot-Reads : (i j : ℕ) → Spot p s.inner i j → Reads p (items s) (item_at s (i, j))
  Spot-Reads i j (vacant before lo [] after e ei ej b bl ab a tight) =
      let whole : items s ≡ (flatten before ++ lo) ++ flatten after =
        rw e (flatten_around before lo [] after) in
      let r : item_at s (i, j) ≡ none =
        rw (ei, ej)
          (item_at-before s before (lo ++ []) after (length lo) e ∙ get_elem?-append_at lo []) in
      nothing r (rw whole (find-absent p (flatten before ++ lo) (flatten after) b a))
        (rw (whole, find_not_below-append p (flatten before ++ lo) (flatten after) b, tight refl))
  Spot-Reads i j (vacant before lo (x ∷ hi) after e ei ej b bl ab a tight) =
      let whole : items s ≡ (flatten before ++ lo) ++ ((x ∷ hi) ++ flatten after) =
        rw e (flatten_around before lo (x ∷ hi) after) in
      let r : item_at s (i, j) ≡ some x =
        rw (ei, ej)
          (item_at-before s before (lo ++ x ∷ hi) after (length lo) e
            ∙ get_elem?-append_at lo (x ∷ hi)) in
      greater x r ab.0
        (rw whole (find-absent p (flatten before ++ lo) ((x ∷ hi) ++ flatten after) b a))
        (rw (whole, find_not_below-append p (flatten before ++ lo) ((x ∷ hi) ++ flatten after) b)
          (ground (arith, ab.0)))
  Spot-Reads i j (occupied before lo x hi after e ei ej b bl m ab a) =
      let whole : items s ≡ (flatten before ++ lo) ++ x ∷ (hi ++ flatten after) =
        rw e (flatten_around before lo (x ∷ hi) after) in
      let r : item_at s (i, j) ≡ some x =
        rw (ei, ej)
          (item_at-before s before (lo ++ x ∷ hi) after (length lo) e
            ∙ get_elem?-append_at lo (x ∷ hi)) in
      equal x r m (rw whole (find-present p (flatten before ++ lo) (hi ++ flatten after) b a x m)) (
        rw (whole, find_not_below-append p (flatten before ++ lo) (x ∷ (hi ++ flatten after)) b)
          (ground arith))

module _ {ℓ} {T : Type ℓ} {p : T → Ordering} {xs : List T} where
  pub is_eq-Reads :
      (read : Option T)
      → Reads p xs read
      → (elim read [ none ↦ false | some x ↦ is_eq (p x) ]) ≡ is_some (find p xs)
  is_eq-Reads read (nothing r e f) = rw (r, e)
  is_eq-Reads read (greater x r g e f) = rw (r, e, g)
  is_eq-Reads read (equal x r g e f) = rw (r, e, g)

  pub not_below-Reads : (read : Option T) → Reads p xs read → read ≡ find_not_below p xs
  not_below-Reads read (nothing r e f) = r ∙ sym f
  not_below-Reads read (greater x r g e f) = r ∙ sym f
  not_below-Reads read (equal x r g e f) = r ∙ sym f

module _ {ℓ κ} {T : Type ℓ} {Q : Type κ} {I : Type 0} ⦃t : Ord T⦄ ⦃q : Ord Q⦄ ⦃b : Borrow T Q⦄
    ⦃f : FenwickTree I⦄ ⦃c : Counts I⦄ (s : BTreeSet I T) (value : Q) (valid : IsValid s) where
  -- On a valid set `contains` returns whether an item compares equal to the value.
  pub contains_refines : contains s value ≡ ok (is_some (find (against value) (items s)))
  unfolding contains
  contains_refines =
      let (i, j, located, first, spot) = locate_value-Spot s valid.nodes valid.sorted value in
      rw located (ap ok (is_eq-Reads (item_at s (i, j)) (Spot-Reads s i j spot)))

  -- On a valid set `lower_bound` returns the first item that is not less than the value.
  pub lower_bound_refines : lower_bound s value ≡ ok (find_not_below (against value) (items s))
  unfolding lower_bound
  lower_bound_refines =
      let (i, j, located, first, spot) = locate_value-Spot s valid.nodes valid.sorted value in
      rw located (ap ok (not_below-Reads (item_at s (i, j)) (Spot-Reads s i j spot)))

  -- On a valid set `get` returns the first item that is not less than the value, equal or not.
  pub get_refines : get s value ≡ ok (find_not_below (against value) (items s))
  unfolding get
  get_refines =
      let (i, j, located, first, spot) = locate_value-Spot s valid.nodes valid.sorted value in
      rw located (ap ok (not_below-Reads (item_at s (i, j)) (Spot-Reads s i j spot)))

module _ {ℓ} {T : Type ℓ} {I : Type 0} ⦃t : Ord T⦄ ⦃f : FenwickTree I⦄ ⦃c : Counts I⦄
    (s : BTreeSet I T) (valid : IsValid s) {p : T → Ordering} (probe : IsProbe p) where
  -- On a valid set `contains_cmp` returns whether an item meets a probe of the order.
  pub contains_cmp_refines :
      contains_cmp s (λ x. is_lt (p x)) (λ x. is_eq (p x)) ≡ ok (is_some (find p (items s)))
  unfolding contains_cmp
  contains_cmp_refines =
      let (i, j, located, first, spot) = locate_value_cmp-Spot s valid.nodes valid.sorted probe in
      rw located (ap ok (is_eq-Reads (item_at s (i, j)) (Spot-Reads s i j spot)))
