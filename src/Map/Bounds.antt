-- ===== src/Map/Bounds.antt =====
-- `BTreeMap::range_to_idx` of src/lib.rs: bounds on keys as positions in the order.
use indexset.Base.{
  ℕ, suc, ◌++◌, take, drop, ◌-◌, ◌≡◌, refl, ap, ◌∙◌, List, ◌||◌, Ordering, lt, eq, gt, is_lt, is_eq,
  length, arith, ok, ◌==◌, if◌then◌else◌,
}
use indexset.Order.{Ord, Borrow, IsProbe}
use indexset.Order.Spec.{count_below, keep_below, drop_below}
use indexset.Order.Slices.{
  slice, slice-count, take-all, take-count_below, take-count_below_next, slice-drop_below,
}
use indexset.Fenwick.{FenwickTree, Counts}
use indexset.Node.{Bound, included, excluded, unbounded}
use indexset.Pair.{Pair, pair_ord, against_key, against_key-IsProbe}
use indexset.Set.Query.{rank_cmp}
use indexset.Set.Query.Position.{rank_cmp_refines}
use indexset.Set.Valid.{IsValid}
use indexset.Set
use indexset.Map
use indexset.Map.{BTreeMap, key_below, key_is, range_to_idx}
use indexset.Map.Refines.{entries}

-- the probe that also counts an item that compares equal as below
abbrev pub upto {ℓ} : {T : Type ℓ} → (T → Ordering) → T → Ordering
upto p x = elim (p x) [ lt ↦ lt | eq ↦ lt | gt ↦ gt ]

upto-IsProbe {ℓ} : {T : Type ℓ} ⦃t : Ord T⦄ {p : T → Ordering} → IsProbe p → IsProbe (upto p)
upto-IsProbe probe = record {
  below = λ x y h e. ground (arith, probe.below x y h, probe.above x y h);
  meets = λ x y h e. ground (arith, probe.meets x y h);
  above = λ x y h e. ground (arith, probe.above x y h);
}

below_or_equal :
    (c : Ordering) → (is_lt c || is_eq c) ≡ is_lt (elim c [ lt ↦ lt | eq ↦ lt | gt ↦ gt ])
below_or_equal lt = refl
below_or_equal eq = refl
below_or_equal gt = refl

module _ {ℓ κ μ} {K : Type ℓ} {V : Type κ} {Q : Type μ} ⦃k : Ord K⦄ ⦃q : Ord Q⦄
    ⦃b : Borrow K Q⦄ where
  -- how many entries come before a bound on the keys, and how many keys lie below its key
  abbrev start_position : Bound Q → List (Pair K V) → ℕ
  start_position (included key) xs = count_below (against_key key) xs
  start_position (excluded key) xs = count_below (upto (against_key key)) xs
  start_position unbounded xs = 0

  -- the two positions that `range_to_idx` returns
  abbrev positions : Bound Q → Bound Q → List (Pair K V) → ℕ × ℕ
  positions start (included key) xs = (start_position start xs, count_below (against_key key) xs)
  positions start (excluded key) xs =
      let n = count_below (against_key key) xs in
      if n == 0 then (1, 0) else (start_position start xs, n - 1)
  positions start unbounded xs =
      if length xs == 0 then (1, 0) else (start_position start xs, length xs - 1)

  -- the entries that come after a bound: of an included one those that are not less, of an excluded
  -- one those that are greater
  abbrev pub from_start : Bound Q → List (Pair K V) → List (Pair K V)
  from_start (included key) xs = drop_below (against_key key) xs
  from_start (excluded key) xs = drop_below (upto (against_key key)) xs
  from_start unbounded xs = xs

  -- the entries that are less than a bound, and for an included one the next entry, whatever its key
  abbrev pub up_to_end : Bound Q → List (Pair K V) → List (Pair K V)
  up_to_end (included key) xs =
      keep_below (against_key key) xs ++ take 1 (drop_below (against_key key) xs)
  up_to_end (excluded key) xs = keep_below (against_key key) xs
  up_to_end unbounded xs = xs

module _ {ℓ κ} {K : Type ℓ} {V : Type κ} {I : Type 0} ⦃k : Ord K⦄ ⦃f : FenwickTree I⦄ ⦃c : Counts I⦄
    (m : BTreeMap I K V) (valid : IsValid m.set) where
  is_empty_lem : Map.is_empty m ≡ (length (entries m) == 0)
  unfolding Map.is_empty Set.is_empty Set.len
  is_empty_lem = ap (λ n. n == 0) valid.measured

  len_lem : Map.len m ≡ length (entries m)
  unfolding Map.len Set.len
  len_lem = valid.measured

module _ {ℓ κ μ} {K : Type ℓ} {V : Type κ} {Q : Type μ} {I : Type 0} ⦃k : Ord K⦄ ⦃q : Ord Q⦄
    ⦃b : Borrow K Q⦄ ⦃f : FenwickTree I⦄ ⦃c : Counts I⦄ (m : BTreeMap I K V)
    (valid : IsValid m.set) where
  rank_below :
      (key : Q) → rank_cmp m.set (key_below key) ≡ ok (count_below (against_key key) (entries m))
  rank_below key = rank_cmp_refines m.set valid (against_key-IsProbe key)

  rank_upto :
      (key : Q)
      → rank_cmp m.set (λ item. key_below key item || key_is key item)
        ≡ ok (count_below (upto (against_key key)) (entries m))
  rank_upto key =
      ap (rank_cmp m.set) (λ i item. below_or_equal (against_key key item) i)
      ∙ rank_cmp_refines m.set valid (upto-IsProbe (against_key-IsProbe key))

  range_to_idx_lem :
      (start end : Bound Q) → range_to_idx m start end ≡ ok (positions start end (entries m))
  unfolding range_to_idx
  range_to_idx_lem (included x) (included y) = rw (rank_below x) (rw (rank_below y))
  range_to_idx_lem (included x) (excluded y) = rw (rank_below x) (rw (rank_below y) (ground arith))
  range_to_idx_lem (included x) unbounded =
      rw (rank_below x) (rw (is_empty_lem m valid, len_lem m valid) (ground arith))
  range_to_idx_lem (excluded x) (included y) = rw (rank_upto x) (rw (rank_below y))
  range_to_idx_lem (excluded x) (excluded y) = rw (rank_upto x) (rw (rank_below y) (ground arith))
  range_to_idx_lem (excluded x) unbounded =
      rw (rank_upto x) (rw (is_empty_lem m valid, len_lem m valid) (ground arith))
  range_to_idx_lem unbounded (included y) = rw (rank_below y)
  range_to_idx_lem unbounded (excluded y) = rw (rank_below y) (ground arith)
  range_to_idx_lem unbounded unbounded = rw (is_empty_lem m valid, len_lem m valid) (ground arith)

  -- how many entries come before an end
  abbrev end_count : Bound Q → ℕ
  end_count (included key) = suc (count_below (against_key key) (entries m))
  end_count (excluded key) = count_below (against_key key) (entries m)
  end_count unbounded = length (entries m)

  take-end : (end : Bound Q) → take (end_count end) (entries m) ≡ up_to_end end (entries m)
  take-end (included key) = take-count_below_next (against_key-IsProbe key) (entries m) valid.sorted
  take-end (excluded key) = take-count_below (against_key-IsProbe key) (entries m) valid.sorted
  take-end unbounded = take-all (entries m)

  slice-start :
      (start : Bound Q) (k : ℕ)
      → take
          (k - start_position start (entries m))
          (drop (start_position start (entries m)) (entries m))
        ≡ from_start start (take k (entries m))
  slice-start (included key) k =
      slice-drop_below (against_key-IsProbe key) (entries m) valid.sorted k
  slice-start (excluded key) k =
      slice-drop_below (upto-IsProbe (against_key-IsProbe key)) (entries m) valid.sorted k
  slice-start unbounded k = ap (λ n. take n (entries m)) (omega arith)

  -- the slice between the positions is that of the counts, also where `(1, 0)` stands for none
  slice-positions :
      (start end : Bound Q)
      → slice (positions start end (entries m)).0 (positions start end (entries m)).1 (entries m)
        ≡ take
            (end_count end - start_position start (entries m))
            (drop (start_position start (entries m)) (entries m))
  slice-positions start (included key) = refl
  slice-positions start (excluded key) =
      slice-count (start_position start (entries m)) (count_below (against_key key) (entries m))
        (entries m)
  slice-positions start unbounded =
      slice-count (start_position start (entries m)) (length (entries m)) (entries m)

  -- On a valid map `range_to_idx` returns two positions, and the entries from the first through the
  -- second, of which there are none if the first lies behind the second, are those that come after
  -- the start and before the end. With an included start come the keys that are not less, with an
  -- excluded one those that are greater; up to an excluded end come the keys that are less, and up to
  -- an included one these and the next entry, if there is one, even if its key is greater; a side
  -- without a bound leaves out nothing.
  pub range_to_idx_refines :
      (start end : Bound Q)
      → (first last : ℕ) × (range_to_idx m start end ≡ ok (first, last))
        × (slice first last (entries m) ≡ from_start start (up_to_end end (entries m)))
  range_to_idx_refines start end = (
    (positions start end (entries m)).0,
    (positions start end (entries m)).1,
    range_to_idx_lem start end,
    slice-positions start end
        ∙ (slice-start start (end_count end) ∙ ap (from_start start) (take-end end)),
  )
