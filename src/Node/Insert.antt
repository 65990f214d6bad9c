-- ===== src/Node/Insert.antt =====
-- `insert`, `delete`, `contains` and `try_select` of a node, at a cut of its items, and on every
-- sorted node against the reference operations.
use indexset.Base.{
  ℕ, ◌≡◌, List, ◌∷◌, ◌++◌, Option, none, some, true, false, Ordering, eq, ok, length, arith, not,
}
use mathlib.Core.Option
use indexset.Base.Vec
use indexset.Order.{
  Ord, Borrow, against, against_item, borrow_self, against-IsProbe, against_item-IsProbe,
}
use indexset.Order.Sorted.{IsSorted}
use indexset.Order.Spec
use indexset.Order.Spec.{count_below, find, erase, is_some}
use indexset.Order.View.{Below, Above, absent, present, view}
use indexset.Order.Cuts.{
  count_below-absent, find-absent, erase-absent, insert_spec-absent, count_below-present,
  find-present, erase-present, insert_spec-present,
}
use indexset.Node.{Position, search, found, missing, insert, delete, contains}
use indexset.Node.Search.{search-absent, search-present}

-- The result of a search for an item, at its rank.
abbrev pub position_of {ℓ} : {T : Type ℓ} → Option T → ℕ → Position
position_of none rank = missing rank
position_of (some x) rank = found rank

module _ {ℓ κ} {T : Type ℓ} {Q : Type κ} ⦃t : Ord T⦄ ⦃q : Ord Q⦄ ⦃b : Borrow T Q⦄ (value : Q)
    (lo hi : List T) (below : Below (against value) lo) (above : Above (against value) hi) where
  pub delete-absent : delete (lo ++ hi) value ≡ ok (none, lo ++ hi)
  unfolding delete
  delete-absent = rw (search-absent value lo hi below above)

  pub delete-present :
      (x : T)
      → against value x ≡ eq
      → delete (lo ++ x ∷ hi) value ≡ ok (some (x, length lo), lo ++ hi)
  unfolding delete
  delete-present x e = rw (search-present value lo hi below above x e, Vec.remove_lem lo x hi)

module _ {ℓ} {T : Type ℓ} ⦃t : Ord T⦄ (value : T) (lo hi : List T)
    (below : Below (against_item value) lo) (above : Above (against_item value) hi) where
  pub insert-absent : insert (lo ++ hi) value ≡ ok (true, length lo, lo ++ value ∷ hi)
  unfolding insert
  insert-absent =
      rw (
        search-absent ⦃b = borrow_self {T = T}⦄ value lo hi below above,
        Vec.insert_lem lo hi value,
      )

  pub insert-present :
      (x : T)
      → against_item value x ≡ eq
      → insert (lo ++ x ∷ hi) value ≡ ok (false, length lo, lo ++ x ∷ hi)
  unfolding insert
  insert-present x e = rw (search-present ⦃b = borrow_self {T = T}⦄ value lo hi below above x e)

module _ {ℓ} {T : Type ℓ} ⦃t : Ord T⦄ (value : T) (node : List T) (sorted : IsSorted node) where
  -- Inserting into a sorted node succeeds exactly when no item compares equal, reports the number
  -- of smaller items as the index, and leaves the ordered insertion.
  pub insert_node_refines :
      insert node value
      ≡ ok (
        not (is_some (find (against_item value) node)),
        count_below (against_item value) node,
        Spec.insert (against_item value) value node,
      )
  insert_node_refines =
      let p = against_item value in
      elim (view (against_item-IsProbe value) node sorted) [
        | absent lo hi e below above ↦ rw e (
            rw (
              insert-absent value lo hi below above,
              find-absent p lo hi below above,
              count_below-absent p lo hi below above,
              insert_spec-absent p lo hi below above value,
            ))
        | present lo x hi e below m above ↦ rw e (
            rw (
              insert-present value lo hi below above x m,
              find-present p lo hi below above x m,
              count_below-present p lo hi below above x m,
              insert_spec-present p lo hi below above x m value,
            ))
      ]

module _ {ℓ κ} {T : Type ℓ} {Q : Type κ} ⦃t : Ord T⦄ ⦃q : Ord Q⦄ ⦃b : Borrow T Q⦄ (value : Q)
    (node : List T) (sorted : IsSorted node) where
  -- The search of a sorted node finds an item exactly when one compares equal, at the number of
  -- items below; that number is where a missing value belongs.
  pub search_refines :
      search node value
      ≡ ok (position_of (find (against value) node) (count_below (against value) node))
  search_refines =
      let p : T → Ordering = against value in
      elim (view (against-IsProbe value) node sorted) [
        | absent lo hi e below above ↦ rw e (
            rw (
              search-absent value lo hi below above,
              find-absent p lo hi below above,
              count_below-absent p lo hi below above,
            ))
        | present lo x hi e below m above ↦ rw e (
            rw (
              search-present value lo hi below above x m,
              find-present p lo hi below above x m,
              count_below-present p lo hi below above x m,
            ))
      ]

  -- `contains` is membership, and `try_select` is the position of the item.
  pub contains_node_refines : contains node value ≡ ok (is_some (find (against value) node))
  unfolding contains
  contains_node_refines = rw search_refines (ground arith)

  -- Deleting from a sorted node returns the item that compares equal with its index, and leaves
  -- the others; if there is none it returns nothing and changes nothing.
  pub delete_node_refines :
      delete node value
      ≡ ok (
        Option.map (λ x. (x, count_below (against value) node)) (find (against value) node),
        erase (against value) node,
      )
  delete_node_refines =
      let p : T → Ordering = against value in
      elim (view (against-IsProbe value) node sorted) [
        | absent lo hi e below above ↦ rw e (
            rw (
              delete-absent value lo hi below above,
              find-absent p lo hi below above,
              erase-absent p lo hi below above,
            ))
        | present lo x hi e below m above ↦ rw e (
            rw (
              delete-present value lo hi below above x m,
              find-present p lo hi below above x m,
              erase-present p lo hi below above x m,
              count_below-present p lo hi below above x m,
            ))
      ]
