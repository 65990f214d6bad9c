-- ===== src/Order/View.antt =====
-- Where a sorted list is cut by a probe, and the reference operations on such a cut.
use indexset.Base.{
  ◌+◌, ◌≡◌, refl, ap, List, [], ◌∷◌, ◌++◌, none, Ordering, lt, eq, gt, arith, length, is_lt,
}
use indexset.Base.Vec
use indexset.Order.{Ord, IsProbe, ◌≺◌}
use indexset.Order.Sorted.{All, All-imp, IsSorted}
use indexset.Order.Spec.{count_below, find, find_not_below, erase, insert}

module _ {ℓ} {T : Type ℓ} where
  abbrev pub Below : (T → Ordering) → List T → Type 0
  Below p xs = All (λ x. p x ≡ lt) xs

  abbrev pub Above : (T → Ordering) → List T → Type 0
  Above p xs = All (λ x. p x ≡ gt) xs

  pub data View (p : T → Ordering) (xs : List T) : Type ℓ where
    absent : (lo hi : List T) → xs ≡ lo ++ hi → Below p lo → Above p hi → View p xs
    present :
        (lo : List T) (x : T) (hi : List T)
        → xs ≡ lo ++ x ∷ hi
        → Below p lo
        → p x ≡ eq
        → Above p hi
        → View p xs

  module _ (p : T → Ordering) where
    pub count_below-Above : (hi : List T) → Above p hi → count_below p hi ≡ 0
    count_below-Above [] h = refl
    count_below-Above (b ∷ hi) h = ground (arith, count_below-Above hi)

    pub count_below-append :
        (lo hi : List T) → Below p lo → count_below p (lo ++ hi) ≡ length lo + count_below p hi
    count_below-append [] hi h = omega arith
    count_below-append (a ∷ lo) hi h = ground (arith, count_below-append lo hi)

    pub find-Above : (hi : List T) → Above p hi → find p hi ≡ none
    find-Above [] h = refl
    find-Above (b ∷ hi) h = ground (arith, find-Above hi)

    pub find-append : (lo hi : List T) → Below p lo → find p (lo ++ hi) ≡ find p hi
    find-append [] hi h = refl
    find-append (a ∷ lo) hi h = ground (arith, find-append lo hi)

    pub find_not_below-append :
        (lo hi : List T) → Below p lo → find_not_below p (lo ++ hi) ≡ find_not_below p hi
    find_not_below-append [] hi h = refl
    find_not_below-append (a ∷ lo) hi h = ground (arith, find_not_below-append lo hi)

    pub erase-Above : (hi : List T) → Above p hi → erase p hi ≡ hi
    erase-Above [] h = refl
    erase-Above (b ∷ hi) h = ground (arith, erase-Above hi)

    pub erase-append : (lo hi : List T) → Below p lo → erase p (lo ++ hi) ≡ lo ++ erase p hi
    erase-append [] hi h = refl
    erase-append (a ∷ lo) hi h = ground (arith, erase-append lo hi)

    pub insert-Above : (v : T) (hi : List T) → Above p hi → insert p v hi ≡ v ∷ hi
    insert-Above v [] h = refl
    insert-Above v (b ∷ hi) h = rw (h.0, insert)

    pub insert-append :
        (v : T) (lo hi : List T) → Below p lo → insert p v (lo ++ hi) ≡ lo ++ insert p v hi
    insert-append v [] hi h = refl
    insert-append v (a ∷ lo) hi h = ground (arith, insert-append v lo hi)

    pub partition_point-append :
        (lo hi : List T)
        → Below p lo
        → Vec.partition_point (λ x. is_lt (p x)) (lo ++ hi)
          ≡ length lo + Vec.partition_point (λ x. is_lt (p x)) hi
    partition_point-append [] hi h = omega arith
    partition_point-append (a ∷ lo) hi h = ground (arith, partition_point-append lo hi)

    pub partition_point-Above :
        (hi : List T) → Above p hi → Vec.partition_point (λ x. is_lt (p x)) hi ≡ 0
    partition_point-Above [] h = refl
    partition_point-Above (b ∷ hi) h = ground arith

module _ {ℓ} {T : Type ℓ} ⦃o : Ord T⦄ {p : T → Ordering} (probe : IsProbe p) where
  pub Above-after : (x : T) (xs : List T) → p x ≡ gt → All (λ y. x ≺ y) xs → Above p xs
  Above-after x xs e h = All-imp (λ y. x ≺ y) (λ y. p y ≡ gt) (λ y l. probe.above x y l e) xs h

  Above-after_eq : (x : T) (xs : List T) → p x ≡ eq → All (λ y. x ≺ y) xs → Above p xs
  Above-after_eq x xs e h = All-imp (λ y. x ≺ y) (λ y. p y ≡ gt) (λ y l. probe.meets x y l e) xs h

  View-cons : (x : T) (xs : List T) → p x ≡ lt → View p xs → View p (x ∷ xs)
  View-cons x xs e (absent lo hi q h k) = absent (x ∷ lo) hi (ap (λ l. x ∷ l) q) (e, h) k
  View-cons x xs e (present lo y hi q h m k) = present (x ∷ lo) y hi (ap (λ l. x ∷ l) q) (e, h) m k

  -- a sorted list has a cut
  pub view : (xs : List T) → IsSorted xs → View p xs
  view [] h = absent [] [] refl tt tt
  view (x ∷ xs) h =
      (elim (p x) as (λ c. p x ≡ c → View p (x ∷ xs)) [
        | lt ↦ λ e. View-cons x xs e (view xs h.1)
        | eq ↦ λ e. present [] x xs refl tt e (Above-after_eq x xs e h.0)
        | gt ↦ λ e. absent [] (x ∷ xs) refl tt (e, Above-after x xs e h.0)
      ])
        refl
