-- ===== src/Order/Cuts.antt =====
-- The reference operations on a list that a probe cuts into `lo`, below, and `hi`, above, with or
-- without an item `x` between them that compares equal.
use indexset.Base.{◌≡◌, ap, ◌∙◌, List, [], ◌∷◌, ◌++◌, none, some, Ordering, eq, arith, length}
use indexset.Order.Spec
use indexset.Order.Spec.{count_below, find, erase}
use indexset.Order.View.{
  Below, Above, count_below-append, count_below-Above, find-append, find-Above, erase-append,
  erase-Above, insert-append, insert-Above,
}

module _ {ℓ} {T : Type ℓ} (p : T → Ordering) (lo hi : List T) (below : Below p lo)
    (above : Above p hi) where
  -- the reference operations at a cut
  pub count_below-absent : count_below p (lo ++ hi) ≡ length lo
  count_below-absent =
      count_below-append p lo hi below ∙ omega (arith, count_below-Above p hi above)

  pub find-absent : find p (lo ++ hi) ≡ none
  find-absent = find-append p lo hi below ∙ find-Above p hi above

  pub erase-absent : erase p (lo ++ hi) ≡ lo ++ hi
  erase-absent = erase-append p lo hi below ∙ ap (λ l. lo ++ l) (erase-Above p hi above)

  pub insert_spec-absent : (v : T) → Spec.insert p v (lo ++ hi) ≡ lo ++ v ∷ hi
  insert_spec-absent v =
      insert-append p v lo hi below ∙ ap (λ l. lo ++ l) (insert-Above p v hi above)

  module _ (x : T) (e : p x ≡ eq) where
    pub count_below-present : count_below p (lo ++ x ∷ hi) ≡ length lo
    count_below-present =
        count_below-append p lo (x ∷ hi) below ∙ ground (arith, count_below-Above p hi above)

    pub find-present : find p (lo ++ x ∷ hi) ≡ some x
    find-present = find-append p lo (x ∷ hi) below ∙ ground arith

    pub erase-present : erase p (lo ++ x ∷ hi) ≡ lo ++ hi
    erase-present =
        erase-append p lo (x ∷ hi) below
        ∙ ap (λ l. lo ++ l) (ground (arith, erase-Above p hi above))

    pub insert_spec-present : (v : T) → Spec.insert p v (lo ++ x ∷ hi) ≡ lo ++ x ∷ hi
    insert_spec-present v = insert-append p v lo (x ∷ hi) below ∙ ap (λ l. lo ++ l) (ground arith)

-- What lies above behind a list changes nothing.
module _ {ℓ} {T : Type ℓ} (p : T → Ordering) (hi : List T) (above : Above p hi) where
  pub count_below-append_right : (xs : List T) → count_below p (xs ++ hi) ≡ count_below p xs
  count_below-append_right [] = count_below-Above p hi above
  count_below-append_right (x ∷ xs) = ground (arith, count_below-append_right xs)

  pub find-append_right : (xs : List T) → find p (xs ++ hi) ≡ find p xs
  find-append_right [] = find-Above p hi above
  find-append_right (x ∷ xs) = ground (arith, find-append_right xs)

  pub erase-append_right : (xs : List T) → erase p (xs ++ hi) ≡ erase p xs ++ hi
  erase-append_right [] = erase-Above p hi above
  erase-append_right (x ∷ xs) = ground (arith, erase-append_right xs)

  pub insert-append_right :
      (v : T) (xs : List T) → Spec.insert p v (xs ++ hi) ≡ Spec.insert p v xs ++ hi
  insert-append_right v [] = insert-Above p v hi above
  insert-append_right v (x ∷ xs) = ground (arith, insert-append_right v xs)
