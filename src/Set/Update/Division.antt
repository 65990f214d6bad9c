-- ===== src/Set/Update/Division.antt =====
-- `split_off` of src/lib.rs against the reference division of the items.
use indexset.Base.{
  ℕ, ◌+◌, ◌≡◌, refl, sym, ap, ◌∙◌, List, [], ◌∷◌, ◌++◌, append-nil, append_assoc, map, true, ◌&&◌,
  Ordering, length, length-append, length-flatten, flatten, flatten-append, sum, ltb, arith, Run,
  ok, ◌>>=◌, if◌then◌else◌, take-append, drop-append,
}
use indexset.Base.Vec
use indexset.Base.{is_lt}
use indexset.Order.{Ord, Borrow, against, IsProbe}
use indexset.Order.Sorted.{All, All-append, IsSorted-append_left, IsSorted-append_right}
use indexset.Order.Spec.{keep_below, drop_below}
use indexset.Order.View.{Below, Above}
use indexset.Fenwick.{FenwickTree, Counts}
use indexset.Set.{BTreeSet, default_inner_size}
use indexset.Set.Valid.{IsNonempty, HasNodes, IsValid, items}
use indexset.Set.Nodes.{HasNodes-of_All, before-IsNonempty, after-IsNonempty}
use indexset.Set.Spot.{
  Spot, vacant, occupied, flatten_around, locate_value-Spot, locate_value_cmp-Spot,
}
use indexset.Set.Update.{split_at, split_off, split_off_cmp, index_nodes}

module _ {ℓ} {T : Type ℓ} (p : T → Ordering) where
  keep_below-Above : (hi : List T) → Above p hi → keep_below p hi ≡ []
  keep_below-Above [] h = refl
  keep_below-Above (x ∷ hi) h = ground (arith, keep_below-Above hi h.1, h.0)

  drop_below-Above : (hi : List T) → Above p hi → drop_below p hi ≡ hi
  drop_below-Above [] h = refl
  drop_below-Above (x ∷ hi) h = ground (arith, drop_below-Above hi h.1, h.0)

  keep_below-append :
      (lo hi : List T) → Below p lo → keep_below p (lo ++ hi) ≡ lo ++ keep_below p hi
  keep_below-append [] hi h = refl
  keep_below-append (x ∷ lo) hi h = ground (arith, keep_below-append lo hi h.1, h.0)

  drop_below-append : (lo hi : List T) → Below p lo → drop_below p (lo ++ hi) ≡ drop_below p hi
  drop_below-append [] hi h = refl
  drop_below-append (x ∷ lo) hi h = ground (arith, drop_below-append lo hi h.1, h.0)

split_off_at {ℓ} :
    {A : Type ℓ} (xs ys : List A) → Vec.split_off (xs ++ ys) (length xs) ≡ ok (xs, ys)
split_off_at xs ys =
    Vec.split_off_lem (xs ++ ys) (length xs) (omega (arith, length-append xs ys))
    ∙ rw (take-append xs ys, drop-append xs ys)

-- the nodes that stay: the last one goes if it is empty and not the only one
abbrev stay {ℓ} : {T : Type ℓ} → List (List T) → List T → List (List T)
stay before (x ∷ lo) = before ++ (x ∷ lo) ∷ []
stay [] [] = [] ∷ []
stay (node ∷ before) [] = node ∷ before

module _ {ℓ} {T : Type ℓ} where
  stay_lem :
      (before : List (List T)) (lo : List T)
      → (if Vec.is_empty lo && ltb 1 (length (before ++ lo ∷ []))
          then (Vec.remove (before ++ lo ∷ []) (length before) >>= λ r. ok r.1)
          else ok (before ++ lo ∷ []))
        ≡ ok (stay before lo)
  stay_lem before (x ∷ lo) = refl
  stay_lem [] [] = refl
  stay_lem (node ∷ before) [] =
      let more : ltb 1 (length (node ∷ (before ++ [] ∷ []))) ≡ true =
        ground (arith, length-append before ([] ∷ [])) in
      rw more
        (rw (Vec.remove_lem (node ∷ before) [] []) (ap (λ l. ok (node ∷ l)) (append-nil before)))

  stay-items :
      (before : List (List T)) (lo : List T) → flatten (stay before lo) ≡ flatten before ++ lo
  stay-items before (x ∷ lo) =
      flatten-append before ((x ∷ lo) ∷ []) ∙ ap (λ l. flatten before ++ l) (append-nil (x ∷ lo))
  stay-items [] [] = refl
  stay-items (node ∷ before) [] = sym (append-nil (flatten (node ∷ before)))

  stay-HasNodes :
      (before : List (List T)) (lo : List T) → All IsNonempty before → HasNodes (stay before lo)
  stay-HasNodes [] (x ∷ lo) h = tt
  stay-HasNodes (node ∷ before) (x ∷ lo) h =
      HasNodes-of_All node (before ++ (x ∷ lo) ∷ [])
        (h.0, All-append _ before ((x ∷ lo) ∷ []) h.1 (tt, tt))
  stay-HasNodes [] [] h = tt
  stay-HasNodes (node ∷ before) [] h = HasNodes-of_All node before h

  -- what is split off has no empty node unless it is the only one
  off-HasNodes :
      (hi : List T) (after : List (List T))
      → (hi ≡ [] → after ≡ [])
      → All IsNonempty after
      → HasNodes (hi ∷ after)
  off-HasNodes (x ∷ hi) after tight h = HasNodes-of_All (x ∷ hi) after (tt, h)
  off-HasNodes [] after tight h = rw (tight refl) tt

module _ {ℓ} {T : Type ℓ} {I : Type 0} ⦃t : Ord T⦄ ⦃f : FenwickTree I⦄ ⦃c : Counts I⦄
    (s : BTreeSet I T) (valid : IsValid s) where
  module _ (before : List (List T)) (lo hi : List T) (after : List (List T))
      (e : s.inner ≡ before ++ (lo ++ hi) ∷ after) where
    abbrev low_part : BTreeSet I T
    low_part = record s {
      inner = stay before lo;
      index = index_nodes (stay before lo);
      len = sum (map length (stay before lo));
    }

    abbrev high_part : BTreeSet I T
    high_part = record {
      inner = hi ∷ after;
      index = index_nodes (hi ∷ after);
      node_capacity = default_inner_size;
      len = sum (map length (hi ∷ after));
    }

    rest_off :
        Vec.split_off (before ++ lo ∷ after) (length before + 1) ≡ ok (before ++ lo ∷ [], after)
    rest_off =
        let place : length before + 1 ≡ length (before ++ lo ∷ []) =
          omega (arith, length-append before (lo ∷ [])) in
        ap (Vec.split_off (before ++ lo ∷ after)) place
        ∙ (ap (λ l. Vec.split_off l (length (before ++ lo ∷ [])))
              (sym (append_assoc before (lo ∷ []) after))
            ∙ split_off_at (before ++ lo ∷ []) after)

    split_at_lem : split_at s (length before, length lo) ≡ ok (low_part, high_part)
    split_at_lem = rw (
      e,
      Vec.index_lem before (lo ++ hi) after,
      split_off_at lo hi,
      Vec.assign_lem before (lo ++ hi) lo after,
      rest_off,
      stay_lem before lo,
    )

    whole : items s ≡ (flatten before ++ lo) ++ (hi ++ flatten after)
    whole = ap flatten e ∙ flatten_around before lo hi after

    low_part-IsValid : IsValid low_part
    low_part-IsValid = record {
      nodes =
          stay-HasNodes before lo
            (before-IsNonempty before (lo ++ hi) after (rw (← e) valid.nodes));
      sorted = rw (stay-items before lo) (
          IsSorted-append_left (flatten before ++ lo) (hi ++ flatten after)
            (rw whole at valid.sorted));
      counted = c.counts-from_iter _;
      measured = sym (length-flatten (stay before lo));
      capacity = valid.capacity;
    }

    high_part-IsValid : (hi ≡ [] → after ≡ []) → IsValid high_part
    high_part-IsValid tight = record {
      nodes =
          off-HasNodes hi after tight
            (after-IsNonempty before (lo ++ hi) after (rw (← e) valid.nodes));
      sorted =
          IsSorted-append_right (flatten before ++ lo) (hi ++ flatten after)
            (rw whole at valid.sorted);
      counted = c.counts-from_iter _;
      measured = sym (length-flatten (hi ∷ after));
      capacity = omega arith;
    }

  -- the two parts that a division at a probe has to leave
  abbrev Divided : (T → Ordering) → Run (BTreeSet I T × BTreeSet I T) → Type ℓ
  Divided p run =
      (s' : BTreeSet I T) × (off : BTreeSet I T) × (run ≡ ok (s', off))
      × IsValid s'
      × IsValid off
      × (items s' ≡ keep_below p (items s))
      × (items off ≡ drop_below p (items s))

  divided :
      (p : T → Ordering) (before : List (List T)) (lo hi : List T) (after : List (List T)) (i j : ℕ)
      → s.inner ≡ before ++ (lo ++ hi) ∷ after
      → i ≡ length before
      → j ≡ length lo
      → Below p (flatten before ++ lo)
      → keep_below p (hi ++ flatten after) ≡ []
      → drop_below p (hi ++ flatten after) ≡ hi ++ flatten after
      → (hi ≡ [] → after ≡ [])
      → Divided p (split_at s (i, j))
  divided p before lo hi after i j e ei ej b none_kept all_dropped tight = (
    low_part before lo hi after e,
    high_part before lo hi after e,
    rw (ei, ej) (split_at_lem before lo hi after e),
    low_part-IsValid before lo hi after e,
    high_part-IsValid before lo hi after e tight,
    stay-items before lo
        ∙ sym (
            ap (keep_below p) (whole before lo hi after e)
            ∙ (keep_below-append p (flatten before ++ lo) (hi ++ flatten after) b
                ∙ (ap (λ l. (flatten before ++ lo) ++ l) none_kept
                    ∙ append-nil (flatten before ++ lo)))),
    sym (
        ap (drop_below p) (whole before lo hi after e)
        ∙ (drop_below-append p (flatten before ++ lo) (hi ++ flatten after) b ∙ all_dropped)),
  )

  Spot-Divided : (p : T → Ordering) (i j : ℕ) → Spot p s.inner i j → Divided p (split_at s (i, j))
  Spot-Divided p i j (vacant before lo hi after e ei ej b bl ab a tight) =
      divided p before lo hi after i j e ei ej b (keep_below-Above p (hi ++ flatten after) a)
        (drop_below-Above p (hi ++ flatten after) a) tight
  Spot-Divided p i j (occupied before lo x hi after e ei ej b bl m ab a) =
      divided p before lo (x ∷ hi) after i j e ei ej b
        (ground (arith, keep_below-Above p (hi ++ flatten after) a))
        (ground (arith, drop_below-Above p (hi ++ flatten after) a))
        (λ n. absurd (ground (arith, ap length n)))

  -- On a valid set `split_off` returns two valid sets: the items less than the value stay, and the
  -- others are split off.
  pub split_off_refines {κ} :
      {Q : Type κ} ⦃q : Ord Q⦄ ⦃b : Borrow T Q⦄ (value : Q)
      → (s' : BTreeSet I T) × (off : BTreeSet I T) × (split_off s value ≡ ok (s', off))
        × IsValid s'
        × IsValid off
        × (items s' ≡ keep_below (against value) (items s))
        × (items off ≡ drop_below (against value) (items s))
  unfolding split_off
  split_off_refines value =
      let (i, j, located, first, spot) = locate_value-Spot s valid.nodes valid.sorted value in
      rw located (Spot-Divided (against value) i j spot)

  -- On a valid set `split_off_cmp` returns two valid sets: the items below a probe of the order stay,
  -- and the others are split off.
  pub split_off_cmp_refines :
      {p : T → Ordering}
      → IsProbe p
      → (s' : BTreeSet I T) × (off : BTreeSet I T) × (split_off_cmp s (λ x. is_lt (p x))
          ≡ ok (s', off))
        × IsValid s'
        × IsValid off
        × (items s' ≡ keep_below p (items s))
        × (items off ≡ drop_below p (items s))
  unfolding split_off_cmp
  split_off_cmp_refines {p} probe =
      let (i, j, located, first, spot) = locate_value_cmp-Spot s valid.nodes valid.sorted probe in
      rw located (Spot-Divided p i j spot)
