-- ===== src/Set/Update/Indexed.antt =====
-- `pop_index` and `get_mut_index` of src/lib.rs against the reference list of items.
use indexset.Base.{
  ℕ, ◌<◌, ◌≡◌, refl, sym, ap, ◌∙◌, List, [], ◌∷◌, ◌++◌, some, length, length-append, get_elem?,
  get_elem?-append_at, flatten, arith, ok,
}
use indexset.Order.{Ord}
use indexset.Order.Spec
use indexset.Order.Spec.{remove_at}
use indexset.Fenwick.{FenwickTree, Counts}
use indexset.Set.{BTreeSet}
use indexset.Set.Locate.{locate_ith}
use indexset.Set.Valid.{IsValid, items}
use indexset.Set.Spot.{flatten_around}
use indexset.Set.Query.{item_at}
use indexset.Set.Query.Lookup.{item_at-before}
use indexset.Set.Query.Place.{Place, locate_ith-Place}
use indexset.Set.Update.{delete_at, change_at, pop_index, get_mut_index, change_found}
use indexset.Set.Update.Delete.{delete_at_lem}
use indexset.Set.Update.Change.{SamePlace, change_at_lem}

module _ {ℓ} {A : Type ℓ} where
  remove_at_lem :
      (xs : List A) (y : A) (ys : List A) → remove_at (length xs) (xs ++ y ∷ ys) ≡ xs ++ ys
  remove_at_lem [] y ys = refl
  remove_at_lem (x ∷ xs) y ys = ap (λ l. x ∷ l) (remove_at_lem xs y ys)

  change_spec_lem :
      (change : A → A) (xs : List A) (y : A) (ys : List A)
      → Spec.change_at change (length xs) (xs ++ y ∷ ys) ≡ xs ++ change y ∷ ys
  change_spec_lem change [] y ys = refl
  change_spec_lem change (x ∷ xs) y ys = ap (λ l. x ∷ l) (change_spec_lem change xs y ys)

change_found_lem {ℓ} :
    {T : Type ℓ} {I : Type 0} (s s' : BTreeSet I T) (place : ℕ × ℕ) (change : T → T) (x : T)
    → item_at s place ≡ some x
    → change_at s place.0 place.1 change ≡ ok (x, s')
    → change_found s place change ≡ ok (some x, s')
change_found_lem s s' place change x e d = ground arith

module _ {ℓ} {T : Type ℓ} {I : Type 0} ⦃t : Ord T⦄ ⦃f : FenwickTree I⦄ ⦃c : Counts I⦄
    (s : BTreeSet I T) (valid : IsValid s) (idx : ℕ) where
  module _ (k : Place s.inner idx (locate_ith s idx)) where
    abbrev front : List T
    front = flatten k.before ++ k.lo

    whole : items s ≡ front ++ k.item ∷ (k.hi ++ flatten k.after)
    whole = ap flatten k.nodes_eq ∙ flatten_around k.before k.lo (k.item ∷ k.hi) k.after

    idx_front : idx ≡ length front
    idx_front = k.idx_eq ∙ sym (length-append (flatten k.before) k.lo)

    item_at_idx : get_elem? (items s) idx ≡ some k.item
    item_at_idx =
        ap (λ i. get_elem? (items s) i) idx_front
        ∙ (ap (λ l. get_elem? l (length front)) whole ∙ get_elem?-append_at front _)

    pop_index-deleted :
        (s' : BTreeSet I T)
        → delete_at s (length k.before) (length k.lo) ≡ ok (k.item, s')
        → pop_index s idx ≡ ok (k.item, s')
    unfolding pop_index
    pop_index-deleted s' d = ap (λ p. delete_at s p.0 p.1) k.found_eq ∙ d

    item_at_found : item_at s (length k.before, length k.lo) ≡ some k.item
    item_at_found =
        item_at-before s k.before (k.lo ++ k.item ∷ k.hi) k.after (length k.lo) k.nodes_eq
        ∙ get_elem?-append_at k.lo (k.item ∷ k.hi)

    get_mut_index-changed :
        (change : T → T) (s' : BTreeSet I T)
        → change_at s (length k.before) (length k.lo) change ≡ ok (k.item, s')
        → get_mut_index s idx change ≡ ok (some k.item, s')
    unfolding get_mut_index
    get_mut_index-changed change s' d =
        ap (λ p. change_found s p change) k.found_eq
        ∙ change_found_lem s s' _ change k.item item_at_found d

  -- On a valid set `pop_index` at a position within the set returns the item there, and leaves a
  -- valid set of the other items.
  pub pop_index_refines :
      idx < length (items s)
      → (x : T) × (s' : BTreeSet I T) × (pop_index s idx ≡ ok (x, s'))
        × (get_elem? (items s) idx ≡ some x)
        × IsValid s'
        × (items s' ≡ remove_at idx (items s))
  pop_index_refines h =
      let k = locate_ith-Place s valid idx h in
      let (s', deleted, valid', items') =
        delete_at_lem s valid k.before k.lo k.item k.hi k.after k.nodes_eq in
      (
        k.item,
        s',
        pop_index-deleted k s' deleted,
        item_at_idx k,
        valid',
        items'
            ∙ sym (
                ap (λ i. remove_at i (items s)) (idx_front k)
                ∙ (ap (remove_at (length (front k))) (whole k) ∙ remove_at_lem (front k) _ _)),
      )

  -- On a valid set a write through `get_mut_index`, at a position within the set, of an item that
  -- compares like the old one leaves a valid set in which that item alone is another.
  pub get_mut_index_refines :
      (change : T → T)
      → idx < length (items s)
      → ((x : T) → SamePlace x (change x))
      → (x : T) × (s' : BTreeSet I T) × (get_mut_index s idx change ≡ ok (some x, s'))
        × (get_elem? (items s) idx ≡ some x)
        × IsValid s'
        × (items s' ≡ Spec.change_at change idx (items s))
  get_mut_index_refines change h same =
      let k = locate_ith-Place s valid idx h in
      let (s', changed, valid', items') =
        change_at_lem s valid k.before k.lo k.item k.hi k.after change k.nodes_eq (same k.item) in
      (
        k.item,
        s',
        get_mut_index-changed k change s' changed,
        item_at_idx k,
        valid',
        items'
            ∙ sym (
                ap (λ i. Spec.change_at change i (items s)) (idx_front k)
                ∙ (ap (Spec.change_at change (length (front k))) (whole k)
                    ∙ change_spec_lem change (front k) _ _)),
      )
