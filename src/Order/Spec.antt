-- ===== src/Order/Spec.antt =====
-- The reference operations on a list of items, which the tree is held to. None looks at nodes,
-- positions or the order of the list beyond what its comment says.
use indexset.Order.{Ord, against_item}
use indexset.Base.{
  ℕ, zero, suc, List, [], ◌∷◌, Option, none, some, Bool, true, false, Ordering, lt, eq, gt,
}

module _ {ℓ} {T : Type ℓ} where
  -- how many items lie below
  abbrev pub count_below : (T → Ordering) → List T → ℕ
  count_below p [] = 0
  count_below p (x ∷ xs) = elim (p x) [ lt ↦ suc (count_below p xs) | _ ↦ count_below p xs ]

  -- the first item that compares equal
  abbrev pub find : (T → Ordering) → List T → Option T
  find p [] = none
  find p (x ∷ xs) = elim (p x) [ eq ↦ some x | _ ↦ find p xs ]

  -- the first item that does not lie below
  abbrev pub find_not_below : (T → Ordering) → List T → Option T
  find_not_below p [] = none
  find_not_below p (x ∷ xs) = elim (p x) [ lt ↦ find_not_below p xs | _ ↦ some x ]

  -- the items that do not compare equal
  abbrev pub erase : (T → Ordering) → List T → List T
  erase p [] = []
  erase p (x ∷ xs) = elim (p x) [ eq ↦ erase p xs | _ ↦ x ∷ erase p xs ]

  -- the items below, and the others
  abbrev pub keep_below : (T → Ordering) → List T → List T
  keep_below p [] = []
  keep_below p (x ∷ xs) = elim (p x) [ lt ↦ x ∷ keep_below p xs | _ ↦ keep_below p xs ]

  abbrev pub drop_below : (T → Ordering) → List T → List T
  drop_below p [] = []
  drop_below p (x ∷ xs) = elim (p x) [ lt ↦ drop_below p xs | _ ↦ x ∷ drop_below p xs ]

  -- all items but the last
  abbrev pub drop_last : List T → List T
  drop_last [] = []
  drop_last (x ∷ []) = []
  drop_last (x ∷ y ∷ xs) = x ∷ drop_last (y ∷ xs)

  -- all items but the one at a position, and `change` of that one
  abbrev pub remove_at : ℕ → List T → List T
  remove_at i [] = []
  remove_at zero (x ∷ xs) = xs
  remove_at (suc i) (x ∷ xs) = x ∷ remove_at i xs

  abbrev pub change_at : (T → T) → ℕ → List T → List T
  change_at change i [] = []
  change_at change zero (x ∷ xs) = change x ∷ xs
  change_at change (suc i) (x ∷ xs) = x ∷ change_at change i xs

  -- ordered insertion of `value`, which keeps an item that compares equal
  abbrev pub insert : (T → Ordering) → T → List T → List T
  insert p value [] = value ∷ []
  insert p value (x ∷ xs) = elim (p x) [
    | lt ↦ x ∷ insert p value xs
    | eq ↦ x ∷ xs
    | gt ↦ value ∷ x ∷ xs
  ]

  -- `change` of the item that compares equal, or the ordered insertion of `value`
  abbrev pub put : (T → Ordering) → (T → T) → T → List T → List T
  put p change value [] = value ∷ []
  put p change value (x ∷ xs) = elim (p x) [
    | lt ↦ x ∷ put p change value xs
    | eq ↦ change x ∷ xs
    | gt ↦ value ∷ x ∷ xs
  ]

module _ {ℓ} {T : Type ℓ} ⦃t : Ord T⦄ where
  -- the ordered insertions of all values, one after the other
  abbrev pub insert_each : List T → List T → List T
  insert_each xs [] = xs
  insert_each xs (v ∷ vs) = insert_each (insert (against_item v) v xs) vs

  -- the same, where each value takes the place of an item that compares equal
  abbrev pub overlay : List T → List T → List T
  overlay xs [] = xs
  overlay xs (v ∷ vs) = overlay (insert (against_item v) v (erase (against_item v) xs)) vs

  -- the same, in the order of the list that each value has its place in
  abbrev pub put_each : List T → List T → List T
  put_each xs [] = xs
  put_each xs (v ∷ vs) = put_each (put (against_item v) (λ _. v) v xs) vs

abbrev pub is_some {ℓ} : {A : Type ℓ} → Option A → Bool
is_some none = false
is_some (some a) = true
