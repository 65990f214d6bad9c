-- ===== src/Set/Query/Position.antt =====
-- `rank` and `get_index` of src/lib.rs: positions in the order of the items.
use indexset.Base.{
  ℕ, zero, suc, ◌+◌, ◌-◌, ◌≤◌, ◌<◌, ◌≡◌, refl, sym, ap, ◌∙◌, List, [], ◌∷◌, ◌++◌, map, false, not,
  Ordering, is_lt, length, length-append, length-map, length-flatten, get_elem?,
  get_elem?-append_at, get_elem?-append_left, get_elem?-append_right, flatten, arith, ok, take,
  take-append, sum, if◌then◌else◌, ◌==◌, inl, inr, Bool-cases,
}
use indexset.Set.Valid.{IsNonempty, HasNodes}
use indexset.Set.Locate.{locate_ith, next_if_past}
use indexset.Order.{Ord, Borrow, against, IsProbe}
use indexset.Order.Spec.{count_below}
use indexset.Order.Cuts.{count_below-absent, count_below-present}
use indexset.Fenwick.{FenwickTree, Counts}
use indexset.Set.{BTreeSet}
use indexset.Set.Valid.{IsValid, items}
use indexset.Set.Counting.{map_around}
use indexset.Set.Spot.{
  Spot, vacant, occupied, flatten_around, locate_value-Spot, locate_value_cmp-Spot,
}
use indexset.Order.Sorted.{All}
use indexset.Set.Query.{get_index, item_in, rank, rank_cmp}

module _ {ℓ} {T : Type ℓ} {I : Type 0} ⦃t : Ord T⦄ ⦃f : FenwickTree I⦄ ⦃c : Counts I⦄
    (s : BTreeSet I T) (valid : IsValid s) where
  -- the prefix sum at a node counts the items before it
  prefix_sum_before :
      (before : List (List T)) (node : List T) (after : List (List T))
      → s.inner ≡ before ++ node ∷ after
      → f.prefix_sum s.index (length before) 0 ≡ length (flatten before)
  prefix_sum_before before node after e =
      let counts_eq : c.counts s.index ≡ map length before ++ length node ∷ map length after =
        valid.counted ∙ (ap (map length) e ∙ map_around before node after) in
      c.prefix_sum_lem s.index (length before) 0 (
        omega (
          arith,
          ap length counts_eq,
          length-append (map length before) (length node ∷ map length after),
          length-map before length,
        ))
      ∙ rw
          (
            counts_eq,
            ← length-map before length,
            take-append (map length before) (length node ∷ map length after),
          )
          (omega (arith, length-flatten before))

  rank_at :
      {p : T → Ordering} (i j : ℕ)
      → Spot p s.inner i j
      → f.prefix_sum s.index i 0 + j ≡ count_below p (items s)
  rank_at {p} i j (vacant before lo hi after e ei ej b bl ab a tight) =
      rw
        (
          ei,
          ej,
          prefix_sum_before before (lo ++ hi) after e,
          e,
          flatten_around before lo hi after,
          count_below-absent p (flatten before ++ lo) (hi ++ flatten after) b a,
        )
        (sym (length-append (flatten before) lo))
  rank_at {p} i j (occupied before lo x hi after e ei ej b bl m ab a) =
      rw
        (
          ei,
          ej,
          prefix_sum_before before (lo ++ x ∷ hi) after e,
          e,
          flatten_around before lo (x ∷ hi) after,
          count_below-present p (flatten before ++ lo) (hi ++ flatten after) b a x m,
        )
        (sym (length-append (flatten before) lo))

  -- On a valid set `rank` counts the items that are less than the value.
  pub rank_refines {κ} :
      {Q : Type κ} ⦃q : Ord Q⦄ ⦃b : Borrow T Q⦄ (value : Q)
      → rank s value ≡ ok (count_below (against value) (items s))
  unfolding rank
  rank_refines value =
      let (i, j, located, first, spot) = locate_value-Spot s valid.nodes valid.sorted value in
      rw located (ap ok (rank_at i j spot))

  -- On a valid set `rank_cmp` counts the items below a probe of the order.
  pub rank_cmp_refines :
      {p : T → Ordering} → IsProbe p → rank_cmp s (λ x. is_lt (p x)) ≡ ok (count_below p (items s))
  unfolding rank_cmp
  rank_cmp_refines probe =
      let (i, j, located, first, spot) = locate_value_cmp-Spot s valid.nodes valid.sorted probe in
      rw located (ap ok (rank_at i j spot))

-- no node behind the first is empty
abbrev pub RestNonempty {ℓ} : {A : Type ℓ} → List (List A) → Type 0
RestNonempty [] = Unit
RestNonempty (node ∷ rest) = All IsNonempty rest

module _ {ℓ} {T : Type ℓ} where
  pub RestNonempty-of_All : (inner : List (List T)) → All IsNonempty inner → RestNonempty inner
  RestNonempty-of_All [] h = tt
  RestNonempty-of_All (node ∷ rest) h = h.1

  pub RestNonempty-of_HasNodes : (inner : List (List T)) → HasNodes inner → RestNonempty inner
  RestNonempty-of_HasNodes [] h = tt
  RestNonempty-of_HasNodes (node ∷ []) h = tt
  RestNonempty-of_HasNodes (node ∷ next ∷ rest) h = h.1

  next_if_past-next :
      (node : List T) (inner : List (List T)) (i j : ℕ)
      → item_in (node ∷ inner) (next_if_past (node ∷ inner) (suc i) j)
        ≡ item_in inner (next_if_past inner i j)
  next_if_past-next node inner i j = ground arith

  item_in_first :
      (inner : List (List T))
      → All IsNonempty inner
      → item_in inner (0, 0) ≡ get_elem? (flatten inner) 0
  item_in_first [] h = refl
  item_in_first ([] ∷ inner) h = absurd h.0
  item_in_first ((x ∷ node) ∷ inner) h = refl

  item_in_start :
      (node : List T) (inner : List (List T)) (j : ℕ)
      → All IsNonempty inner
      → j ≤ length node
      → item_in (node ∷ inner) (next_if_past (node ∷ inner) 0 j)
        ≡ get_elem? (node ++ flatten inner) j
  item_in_start node inner j h l = elim (Bool-cases (j == length node)) [
    | inl end ↦
        let e : j ≡ length node = ground arith in
        rw end (rw (e, get_elem?-append_at node (flatten inner)) (item_in_first inner h))
    | inr within ↦ rw within (sym (get_elem?-append_left node (flatten inner) j (ground arith)))
  ]

  -- a place within the node that a position falls in, or past its end
  item_in-at :
      (inner : List (List T)) (i j : ℕ)
      → RestNonempty inner
      → i ≤ length inner
      → (i < length inner
          → sum (take i (map length inner)) + j ≤ sum (take (suc i) (map length inner)))
      → item_in inner (next_if_past inner i j)
        ≡ get_elem? (flatten inner) (sum (take i (map length inner)) + j)
  item_in-at [] i j h l k = refl
  item_in-at (node ∷ inner) zero j h l k =
      let e : 0 + j ≡ j = omega arith in
      rw e (item_in_start node inner j h (omega (arith, k (omega arith))))
  item_in-at (node ∷ inner) (suc i) j h l k =
      let e : length node + sum (take i (map length inner)) + j
          ≡ length node + (sum (take i (map length inner)) + j) =
        omega arith in
      next_if_past-next node inner i j
      ∙ (item_in-at inner i j (RestNonempty-of_All inner h) (omega arith)
            (λ m. omega (arith, k (omega arith)))
          ∙ rw e (sym (get_elem?-append_right node (flatten inner) _)))

module _ {ℓ} {T : Type ℓ} {I : Type 0} ⦃t : Ord T⦄ ⦃f : FenwickTree I⦄ ⦃c : Counts I⦄
    (s : BTreeSet I T) (valid : IsValid s) where
  offset_lem :
      (i : ℕ)
      → i ≤ length (c.counts s.index)
      → (if not (i == 0) then f.prefix_sum s.index i 0 else 0) ≡ sum (take i (map length s.inner))
  offset_lem zero h = refl
  offset_lem (suc i) h =
      let e : (suc i == 0) ≡ false = ground arith in
      rw e (c.prefix_sum_lem s.index (suc i) 0 h ∙ rw valid.counted (omega arith))

  -- the node that holds a position, and how far into it the position is
  unfoldable pub node_of : ℕ → ℕ
  node_of idx = f.index_of s.index idx

  unfoldable pub start_of : ℕ → ℕ
  start_of idx = sum (take (node_of idx) (map length s.inner))

  pub locate_ith_lem :
      (idx : ℕ) → locate_ith s idx ≡ next_if_past s.inner (node_of idx) (idx - start_of idx)
  unfolding locate_ith start_of node_of
  locate_ith_lem idx = rw (offset_lem (f.index_of s.index idx) (c.index_of_inside s.index idx))

  pub node_of_inside : (idx : ℕ) → node_of idx ≤ length s.inner
  unfolding node_of
  node_of_inside idx =
      omega
        (arith, c.index_of_inside s.index idx, ap length valid.counted, length-map s.inner length)

  pub start_of_below : (idx : ℕ) → start_of idx ≤ idx
  unfolding start_of node_of
  start_of_below idx = rw valid.counted at (c.index_of_from s.index idx)

  pub node_of_upto :
      (idx : ℕ)
      → node_of idx < length s.inner
      → start_of idx + (idx - start_of idx) ≤ sum (take (suc (node_of idx)) (map length s.inner))
  unfolding start_of node_of
  node_of_upto idx m =
      let upto : idx ≤ sum (take (suc (f.index_of s.index idx)) (map length s.inner)) =
        rw valid.counted at (
          c.index_of_to s.index idx
            (omega (arith, ap length valid.counted, length-map s.inner length))) in
      let from : sum (take (f.index_of s.index idx) (map length s.inner)) ≤ idx =
        rw valid.counted at (c.index_of_from s.index idx) in
      omega arith

  -- On a valid set `get_index` reads the item at that position in the order, or nothing past the end.
  pub get_index_refines : (idx : ℕ) → get_index s idx ≡ get_elem? (items s) idx
  unfolding get_index start_of
  get_index_refines idx =
      ap (item_in s.inner) (locate_ith_lem idx)
      ∙ (item_in-at s.inner (node_of idx) (idx - start_of idx)
            (RestNonempty-of_HasNodes s.inner valid.nodes) (node_of_inside idx) (node_of_upto idx)
          ∙ ap (get_elem? (items s)) (omega (arith, start_of_below idx)))
