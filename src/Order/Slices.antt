-- ===== src/Order/Slices.antt =====
-- Parts of a sorted list by position, and by how its items lie to a probe.
use indexset.Base.{
  ℕ, zero, suc, ◌-◌, ◌≡◌, refl, ap, ◌∙◌, List, [], ◌∷◌, ◌++◌, false, Ordering, is_lt, length, take,
  drop, take-append, drop-append, arith, ◌==◌, if◌then◌else◌,
}
use indexset.Order.{Ord, IsProbe}
use indexset.Order.Sorted.{All, All-imp, IsSorted}
use indexset.Order.Spec.{count_below, keep_below, drop_below}
use indexset.Order.View.{Below, view, absent, present}

-- the items from one position through another; none if the first lies behind the last
abbrev pub slice {ℓ} : {A : Type ℓ} → ℕ → ℕ → List A → List A
slice first last xs = take (suc last - first) (drop first xs)

module _ {ℓ} {A : Type ℓ} where
  pub take-all : (xs : List A) → take (length xs) xs ≡ xs
  take-all [] = refl
  take-all (x ∷ xs) = ap (λ l. x ∷ l) (take-all xs)

  -- the slice up to a count, where the positions `(1, 0)` stand for a count of zero
  pub slice-count :
      (first n : ℕ) (xs : List A)
      → (let r : ℕ × ℕ = if n == 0 then (1, 0) else (first, n - 1) in slice r.0 r.1 xs)
        ≡ take (n - first) (drop first xs)
  slice-count first zero xs =
      let none_left : 0 ≡ 0 - first = omega arith in ap (λ n. take n (drop first xs)) none_left
  slice-count first (suc n) xs =
      let positive : (suc n == 0) ≡ false = ground arith in
      let one_more : suc (suc n - 1) - first ≡ suc n - first = omega arith in
      rw positive (ap (λ n. take n (drop first xs)) one_more)

module _ {ℓ} {T : Type ℓ} (p : T → Ordering) where
  abbrev NotBelow : List T → Type 0
  NotBelow xs = All (λ x. is_lt (p x) ≡ false) xs

  keep_below-NotBelow : (hi : List T) → NotBelow hi → keep_below p hi ≡ []
  keep_below-NotBelow [] h = refl
  keep_below-NotBelow (x ∷ hi) h = ground (arith, keep_below-NotBelow hi)

  drop_below-NotBelow : (hi : List T) → NotBelow hi → drop_below p hi ≡ hi
  drop_below-NotBelow [] h = refl
  drop_below-NotBelow (x ∷ hi) h = ground (arith, drop_below-NotBelow hi)

  count_below-NotBelow : (hi : List T) → NotBelow hi → count_below p hi ≡ 0
  count_below-NotBelow [] h = refl
  count_below-NotBelow (x ∷ hi) h = ground (arith, count_below-NotBelow hi)

  take-NotBelow : (k : ℕ) (hi : List T) → NotBelow hi → NotBelow (take k hi)
  take-NotBelow zero hi h = tt
  take-NotBelow (suc k) [] h = tt
  take-NotBelow (suc k) (x ∷ hi) h = (h.0, take-NotBelow k hi h.1)

  module _ (hi : List T) (high : NotBelow hi) where
    count_below-cut : (lo : List T) → Below p lo → count_below p (lo ++ hi) ≡ length lo
    count_below-cut [] h = count_below-NotBelow hi high
    count_below-cut (x ∷ lo) h = ground (arith, count_below-cut lo)

    keep_below-cut : (lo : List T) → Below p lo → keep_below p (lo ++ hi) ≡ lo
    keep_below-cut [] h = keep_below-NotBelow hi high
    keep_below-cut (x ∷ lo) h = ground (arith, keep_below-cut lo)

    drop_below-cut : (lo : List T) → Below p lo → drop_below p (lo ++ hi) ≡ hi
    drop_below-cut [] h = drop_below-NotBelow hi high
    drop_below-cut (x ∷ lo) h = ground (arith, drop_below-cut lo)

    drop_below-take :
        (k : ℕ) (lo : List T)
        → Below p lo
        → drop_below p (take k (lo ++ hi)) ≡ take (k - length lo) hi
    drop_below-take k [] h =
        drop_below-NotBelow (take k hi) (take-NotBelow k hi high)
        ∙ ap (λ n. take n hi) (omega arith)
    drop_below-take zero (x ∷ lo) h =
        let none_left : 0 ≡ 0 - suc (length lo) = omega arith in ap (λ n. take n hi) none_left
    drop_below-take (suc k) (x ∷ lo) h = ground (arith, drop_below-take k lo)

  -- where a sorted list is cut
  record Cut (xs : List T) : Type ℓ where
    lo : List T
    hi : List T
    whole : xs ≡ lo ++ hi
    low : Below p lo
    high : NotBelow hi

pub take-suc {ℓ} :
    {A : Type ℓ} (lo hi : List A) → take (suc (length lo)) (lo ++ hi) ≡ lo ++ take 1 hi
take-suc [] hi = refl
take-suc (x ∷ lo) hi = ap (λ l. x ∷ l) (take-suc lo hi)

module _ {ℓ} {T : Type ℓ} ⦃t : Ord T⦄ {p : T → Ordering} (probe : IsProbe p) (xs : List T)
    (sorted : IsSorted xs) where
  cut : Cut p xs
  cut = elim (view probe xs sorted) [
    | absent lo hi e below above ↦ record {
      lo = lo;
      hi = hi;
      whole = e;
      low = below;
      high = All-imp _ _ (λ y g. ap is_lt g) hi above;
    }
    | present lo x hi e below m above ↦ record {
      lo = lo;
      hi = x ∷ hi;
      whole = e;
      low = below;
      high = (ap is_lt m, All-imp _ _ (λ y g. ap is_lt g) hi above);
    }
  ]

  -- the items below are the first ones
  pub take-count_below : take (count_below p xs) xs ≡ keep_below p xs
  take-count_below =
      let c = cut in
      rw c.whole (
        rw (count_below-cut p c.hi c.high c.lo c.low, keep_below-cut p c.hi c.high c.lo c.low)
          (take-append c.lo c.hi))

  -- with the first one that is not below
  pub take-count_below_next :
      take (suc (count_below p xs)) xs ≡ keep_below p xs ++ take 1 (drop_below p xs)
  take-count_below_next =
      let c = cut in
      rw c.whole (
        rw
          (
            count_below-cut p c.hi c.high c.lo c.low,
            keep_below-cut p c.hi c.high c.lo c.low,
            drop_below-cut p c.hi c.high c.lo c.low,
          )
          (take-suc c.lo c.hi))

  -- the items from the first one that is not below
  pub slice-drop_below :
      (k : ℕ) → take (k - count_below p xs) (drop (count_below p xs) xs) ≡ drop_below p (take k xs)
  slice-drop_below k =
      let c = cut in
      rw c.whole (
        rw (count_below-cut p c.hi c.high c.lo c.low, drop_below-take p c.hi c.high k c.lo c.low)
          (ap (take (k - length c.lo)) (drop-append c.lo c.hi)))
