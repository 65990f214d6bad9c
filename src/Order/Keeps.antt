-- ===== src/Order/Keeps.antt =====
-- What the reference operations keep of a sorted list: its order, and its length up to one.
use indexset.Base.{
  ◌+◌, ◌≡◌, ap, ◌∙◌, List, [], ◌∷◌, ◌++◌, not, Ordering, gt, length, length-append, arith,
  if◌then◌else◌, reverse_ordering,
}
use indexset.Order.{Ord, IsProbe, ◌≺◌, against_item, against_item-IsProbe}
use indexset.Order.Sorted.{
  All-append, All-append_left, All-append_right, All, All-append, All-imp, IsSorted, Precedes,
}
use indexset.Order.Spec
use indexset.Order.Spec.{count_below, find, erase, is_some}
use indexset.Order.View.{Below, Above, absent, present, view}
use indexset.Order.Cuts.{
  find-absent, find-present, erase-absent, erase-present, insert_spec-absent, insert_spec-present,
}

module _ {ℓ} {T : Type ℓ} (p : T → Ordering) where
  pub All-erase {κ} : (P : T → Type κ) (xs : List T) → All P xs → All P (erase p xs)
  All-erase P [] h = tt
  All-erase P (x ∷ xs) h = ground (arith, All-erase P xs)

module _ {ℓ} {T : Type ℓ} ⦃t : Ord T⦄ where
  pub erase-IsSorted : (p : T → Ordering) (xs : List T) → IsSorted xs → IsSorted (erase p xs)
  erase-IsSorted p [] h = tt
  erase-IsSorted p (x ∷ xs) h = ground (arith, erase-IsSorted p xs, All-erase p (λ y. x ≺ y) xs)

  pub length-erase :
      {p : T → Ordering} (probe : IsProbe p) (xs : List T)
      → IsSorted xs
      → length (erase p xs) + (if is_some (find p xs) then 1 else 0) ≡ length xs
  length-erase {p} probe xs h = elim (view probe xs h) [
    | absent lo hi e below above ↦
        rw e (rw (erase-absent p lo hi below above, find-absent p lo hi below above) (omega arith))
    | present lo x hi e below m above ↦ rw e (
        rw (erase-present p lo hi below above x m, find-present p lo hi below above x m)
          (omega (arith, length-append lo hi, length-append lo (x ∷ hi))))
  ]

  module _ (v : T) where
    Precedes-Below : (lo : List T) → Below (against_item v) lo → Precedes lo (v ∷ [])
    Precedes-Below [] h = tt
    Precedes-Below (x ∷ lo) h = ((h.0, tt), Precedes-Below lo h.1)

    All-Above : (hi : List T) → Above (against_item v) hi → All (λ y. v ≺ y) hi
    All-Above hi h =
        All-imp (λ y. t.cmp y v ≡ gt) (λ y. v ≺ y)
          (λ y e. t.cmp_reverse y v ∙ ap reverse_ordering e) hi h

    pub around-IsSorted :
        (lo hi : List T)
        → IsSorted (lo ++ hi)
        → Below (against_item v) lo
        → Above (against_item v) hi
        → IsSorted (lo ++ v ∷ hi)
    around-IsSorted [] hi h k a = (All-Above hi a, h)
    around-IsSorted (x ∷ lo) hi h k a = (
      All-append _ lo (v ∷ hi) (All-append_left _ lo hi h.0) (k.0, All-append_right _ lo hi h.0),
      around-IsSorted lo hi h.1 k.1 a,
    )

    pub insert-IsSorted : (xs : List T) → IsSorted xs → IsSorted (Spec.insert (against_item v) v xs)
    insert-IsSorted xs h = elim (view (against_item-IsProbe v) xs h) [
      | absent lo hi e below above ↦ rw e (
          rw (insert_spec-absent (against_item v) lo hi below above v)
            (around-IsSorted lo hi (rw (← e) h) below above))
      | present lo x hi e below m above ↦
          rw e (rw (insert_spec-present (against_item v) lo hi below above x m v) (rw (← e) h))
    ]

    pub length-insert :
        (xs : List T)
        → IsSorted xs
        → length (Spec.insert (against_item v) v xs)
          ≡ (if not (is_some (find (against_item v) xs)) then length xs + 1 else length xs)
    length-insert xs h = elim (view (against_item-IsProbe v) xs h) [
      | absent lo hi e below above ↦ rw e (
          rw
            (
              insert_spec-absent (against_item v) lo hi below above v,
              find-absent (against_item v) lo hi below above,
            )
            (omega (arith, length-append lo hi, length-append lo (v ∷ hi))))
      | present lo x hi e below m above ↦ rw e (
          rw (
            insert_spec-present (against_item v) lo hi below above x m v,
            find-present (against_item v) lo hi below above x m,
          ))
    ]
