-- ===== src/Order/Puts.antt =====
-- The reference `put` around a place of an ordered list.
use indexset.Base.{some, ap, ◌≡◌, ◌∙◌, List, [], ◌∷◌, ◌++◌, Ordering, eq, arith, refl}
use indexset.Order.{Ord, against_item, against_item-IsProbe}
use indexset.Order.Sorted.{IsSorted}
use indexset.Order.Cuts.{erase-present}
use indexset.Order.Keeps.{erase-IsSorted, around-IsSorted}
use indexset.Order.Spec.{put, find, erase}
use indexset.Order.View.{Below, Above, absent, present, view}

module _ {ℓ} {T : Type ℓ} (p : T → Ordering) (change : T → T) (value : T) where
  pub put-append :
      (lo hi : List T) → Below p lo → put p change value (lo ++ hi) ≡ lo ++ put p change value hi
  put-append [] hi b = refl
  put-append (x ∷ lo) hi b = ground (arith, put-append lo hi b.1, b.0)

  pub put-absent :
      (lo hi : List T) → Below p lo → Above p hi → put p change value (lo ++ hi) ≡ lo ++ value ∷ hi
  put-absent lo [] b a = put-append lo [] b
  put-absent lo (x ∷ hi) b a = put-append lo (x ∷ hi) b ∙ ap (λ l. lo ++ l) (ground (arith, a.0))

  pub put-present :
      (lo : List T) (x : T) (hi : List T)
      → Below p lo
      → p x ≡ eq
      → put p change value (lo ++ x ∷ hi) ≡ lo ++ change x ∷ hi
  put-present lo x hi b e = put-append lo (x ∷ hi) b ∙ ap (λ l. lo ++ l) (ground arith)

  pub put-append_right :
      (xs hi : List T) → Above p hi → put p change value (xs ++ hi) ≡ put p change value xs ++ hi
  put-append_right [] [] a = refl
  put-append_right [] (x ∷ hi) a = ground (arith, a.0)
  put-append_right (x ∷ xs) hi a = ground (arith, put-append_right xs hi a)

module _ {ℓ} {T : Type ℓ} ⦃t : Ord T⦄ (v : T) where
  -- the value takes the place of an item that compares equal
  pub put-IsSorted : (xs : List T) → IsSorted xs → IsSorted (put (against_item v) (λ _. v) v xs)
  put-IsSorted xs h =
      let p : T → Ordering = against_item v in
      elim (view (against_item-IsProbe v) xs h) [
        | absent lo hi e below above ↦ rw e (
            rw (put-absent p (λ _. v) v lo hi below above)
              (around-IsSorted v lo hi (rw (← e) h) below above))
        | present lo x hi e below m above ↦ rw e (
            rw (put-present p (λ _. v) v lo x hi below m) (
              around-IsSorted v lo hi
                (rw (← erase-present p lo hi below above x m) (rw (← e) (erase-IsSorted p xs h)))
                below above))
      ]

module _ {ℓ} {T : Type ℓ} (p : T → Ordering) (v : T) (meets : p v ≡ eq) where
  -- what was put is found, and its removal leaves the other items
  pub find-put : (xs : List T) → find p (put p (λ _. v) v xs) ≡ some v
  find-put [] = rw (meets, find) refl
  find-put (x ∷ xs) = ground (arith, find-put xs, meets)

  pub erase-put : (xs : List T) → erase p (put p (λ _. v) v xs) ≡ erase p xs
  erase-put [] = rw (meets, erase) refl
  erase-put (x ∷ xs) = ground (arith, erase-put xs, meets)
