-- ===== src/Set/Update/Delete.antt =====
-- `delete_at` of src/lib.rs at a place of a valid set.
use indexset.Base.{
  ◌-◌, ◌≤◌, ◌≡◌, refl, sym, ap, ◌∙◌, List, [], ◌∷◌, ◌++◌, true, false, ◌&&◌, length, length-append,
  flatten, flatten-append, arith, ok, ltb, inl, inr, Bool-cases,
}
use indexset.Base.Vec
use indexset.Order.{Ord}
use indexset.Order.Sorted.{All-append_left, All-append_right, All, All-append, IsSorted}
use indexset.Fenwick.{FenwickTree, Counts}
use indexset.Set.{BTreeSet}
use indexset.Set.Valid.{IsNonempty, HasNodes, IsValid, items}
use indexset.Set.Nodes.{HasNodes-around, HasNodes-of_All, before-IsNonempty, after-IsNonempty}
use indexset.Set.Counting.{counts_shrink}
use indexset.Set.Spot.{flatten_around}
use indexset.Set.Update.{delete_at, index_nodes}

module _ {ℓ} {T : Type ℓ} where
  -- dropping one item of a sorted list
  without-IsSorted :
      ⦃t : Ord T⦄ (xs : List T) (x : T) (ys : List T)
      → IsSorted (xs ++ x ∷ ys)
      → IsSorted (xs ++ ys)
  without-IsSorted [] x ys h = h.1
  without-IsSorted (w ∷ xs) x ys h = (
    All-append _ xs ys (All-append_left _ xs (x ∷ ys) h.0) (All-append_right _ xs (x ∷ ys) h.0).1,
    without-IsSorted xs x ys h.1,
  )

  IsNonempty-of_is_empty : (xs : List T) → Vec.is_empty xs ≡ false → IsNonempty xs
  IsNonempty-of_is_empty [] h = ground arith
  IsNonempty-of_is_empty (x ∷ xs) h = tt

  nil_of_is_empty : (xs : List T) → Vec.is_empty xs ≡ true → xs ≡ []
  nil_of_is_empty [] h = refl
  nil_of_is_empty (x ∷ xs) h = ground arith

-- a tree of one node may hold an empty one
HasNodes-sole {ℓ} :
    {A : Type ℓ} (before : List (List A)) (node : List A) (after : List (List A))
    → ltb 1 (length (before ++ node ∷ after)) ≡ false
    → HasNodes (before ++ node ∷ after)
HasNodes-sole [] node [] h = tt
HasNodes-sole [] node (next ∷ after) h = absurd (ground arith)
HasNodes-sole (first ∷ before) node after h =
    absurd (ground (arith, length-append before (node ∷ after)))

HasNodes-without {ℓ} :
    {A : Type ℓ} (nodes : List (List A)) → All IsNonempty nodes → 1 ≤ length nodes → HasNodes nodes
HasNodes-without [] h l = absurd (omega arith)
HasNodes-without (node ∷ nodes) h l = HasNodes-of_All node nodes h

module _ {ℓ} {T : Type ℓ} {I : Type 0} ⦃t : Ord T⦄ ⦃f : FenwickTree I⦄ ⦃c : Counts I⦄
    (s : BTreeSet I T) (valid : IsValid s) (before : List (List T)) (lo : List T) (x : T)
    (hi : List T) (after : List (List T))
    (nodes_eq : s.inner ≡ before ++ (lo ++ x ∷ hi) ∷ after) where
  -- the tree without the item, where its node stays and where its node goes
  abbrev kept : BTreeSet I T
  kept = record s {
    inner = before ++ (lo ++ hi) ∷ after;
    index = f.sub_at s.index (length before) 1;
    len = s.len - 1;
  }

  abbrev dropped : BTreeSet I T
  dropped = record s {
    inner = before ++ after;
    index = index_nodes (before ++ after);
    len = s.len - 1;
  }

  items_before : items s ≡ (flatten before ++ lo) ++ x ∷ (hi ++ flatten after)
  items_before = rw nodes_eq (flatten_around before lo (x ∷ hi) after)

  abbrev rest : List T
  rest = (flatten before ++ lo) ++ (hi ++ flatten after)

  measured_after : s.len - 1 ≡ length rest
  measured_after = omega (
    arith,
    valid.measured,
    ap length items_before,
    length-append (flatten before ++ lo) (x ∷ (hi ++ flatten after)),
    length-append (flatten before ++ lo) (hi ++ flatten after),
  )

  rest-IsSorted : IsSorted rest
  rest-IsSorted =
      without-IsSorted (flatten before ++ lo) x (hi ++ flatten after)
        (rw (← items_before) valid.sorted)

  delete_at-kept :
      Vec.is_empty (lo ++ hi) && ltb 1 (length (before ++ (lo ++ hi) ∷ after)) ≡ false
      → delete_at s (length before) (length lo) ≡ ok (x, kept)
  unfolding delete_at
  delete_at-kept e = rw (
    nodes_eq,
    Vec.index_lem before (lo ++ x ∷ hi) after,
    Vec.remove_lem lo x hi,
    Vec.assign_lem before (lo ++ x ∷ hi) (lo ++ hi) after,
    e,
  )

  delete_at-dropped :
      Vec.is_empty (lo ++ hi) && ltb 1 (length (before ++ (lo ++ hi) ∷ after)) ≡ true
      → delete_at s (length before) (length lo) ≡ ok (x, dropped)
  unfolding delete_at
  delete_at-dropped e = rw (
    nodes_eq,
    Vec.index_lem before (lo ++ x ∷ hi) after,
    Vec.remove_lem lo x hi,
    Vec.assign_lem before (lo ++ x ∷ hi) (lo ++ hi) after,
    e,
    Vec.remove_lem before (lo ++ hi) after,
  )

  before_full : All IsNonempty before
  before_full = before-IsNonempty before (lo ++ x ∷ hi) after (rw (← nodes_eq) valid.nodes)

  after_full : All IsNonempty after
  after_full = after-IsNonempty before (lo ++ x ∷ hi) after (rw (← nodes_eq) valid.nodes)

  kept-HasNodes :
      Vec.is_empty (lo ++ hi) && ltb 1 (length (before ++ (lo ++ hi) ∷ after)) ≡ false
      → HasNodes (before ++ (lo ++ hi) ∷ after)
  kept-HasNodes e = elim (Bool-cases (Vec.is_empty (lo ++ hi))) [
    | inl gone ↦ HasNodes-sole before (lo ++ hi) after (rw gone at e)
    | inr left ↦
        HasNodes-around before (lo ++ hi) after before_full (IsNonempty-of_is_empty (lo ++ hi) left)
          after_full
  ]

  kept-IsValid :
      Vec.is_empty (lo ++ hi) && ltb 1 (length (before ++ (lo ++ hi) ∷ after)) ≡ false
      → IsValid kept
  kept-IsValid e = record {
    nodes = kept-HasNodes e;
    sorted = rw (flatten_around before lo hi after) rest-IsSorted;
    counted =
        counts_shrink s.index before (lo ++ x ∷ hi) (lo ++ hi) after (rw (← nodes_eq) valid.counted)
          (omega (arith, length-append lo hi, length-append lo (x ∷ hi)));
    measured = rw (flatten_around before lo hi after) measured_after;
    capacity = valid.capacity;
  }

  dropped-items : Vec.is_empty (lo ++ hi) ≡ true → flatten (before ++ after) ≡ rest
  dropped-items e =
      flatten-append before after
      ∙ (sym (flatten-append before ([] ∷ after))
          ∙ (ap (λ n. flatten (before ++ n ∷ after)) (sym (nil_of_is_empty (lo ++ hi) e))
              ∙ flatten_around before lo hi after))

  dropped-IsValid :
      Vec.is_empty (lo ++ hi) ≡ true
      → ltb 1 (length (before ++ (lo ++ hi) ∷ after)) ≡ true
      → IsValid dropped
  dropped-IsValid e m = record {
    nodes =
        HasNodes-without (before ++ after) (All-append _ before after before_full after_full)
          (ground (arith, length-append before after, length-append before ((lo ++ hi) ∷ after)));
    sorted = rw (dropped-items e) rest-IsSorted;
    counted = c.counts-from_iter _;
    measured = rw (dropped-items e) measured_after;
    capacity = valid.capacity;
  }

  -- Removing the item at a place of a valid set returns it, and leaves a valid set of the others.
  pub delete_at_lem :
      (s' : BTreeSet I T) × (delete_at s (length before) (length lo) ≡ ok (x, s'))
      × IsValid s'
      × (items s' ≡ rest)
  delete_at_lem = elim (Bool-cases (Vec.is_empty (lo ++ hi))) [
    | inr left ↦
        (kept, delete_at-kept (rw left), kept-IsValid (rw left), flatten_around before lo hi after)
    | inl gone ↦ elim (Bool-cases (ltb 1 (length (before ++ (lo ++ hi) ∷ after)))) [
      | inr sole ↦ (
        kept,
        delete_at-kept (rw (gone, sole)),
        kept-IsValid (rw (gone, sole)),
        flatten_around before lo hi after,
      )
      | inl more ↦ (
        dropped,
        delete_at-dropped (rw (gone, more)),
        dropped-IsValid gone more,
        dropped-items gone,
      )
    ]
  ]
