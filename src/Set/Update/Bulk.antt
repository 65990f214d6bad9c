-- ===== src/Set/Update/Bulk.antt =====
-- `replace`, `append`, `FromIterator` and `From` of src/lib.rs: runs of removals and insertions.
use indexset.Base.{
  ℕ, zero, suc, ◌<◌, ◌≡◌, refl, ap, ◌∙◌, List, [], ◌∷◌, Option, none, some, length, get_elem?, drop,
  arith, Run, ok,
}
use indexset.Order.{Ord, against_item, borrow_self}
use indexset.Order.Spec
use indexset.Order.Spec.{find, erase, is_some, insert_each, overlay}
use indexset.Fenwick.{FenwickTree, Counts}
use indexset.Set.{BTreeSet, new, default_inner_size}
use indexset.Set.Valid.{IsValid, items, with_maximum_node_size-IsValid}
use indexset.Set.Update.{replace, insert_all, from_iter, append_loop, append, pop_first}
use indexset.Set.Update.Insertion.{insert_refines}
use indexset.Set.Update.Removal.{take_refines}
use indexset.Set.Update.Ends.{pop_first_refines}

module _ {ℓ} {T : Type ℓ} {I : Type 0} ⦃t : Ord T⦄ ⦃f : FenwickTree I⦄ ⦃c : Counts I⦄ where
  -- On a valid set `replace` returns the item that compares equal, if there is one, and leaves a
  -- valid set in which the value has taken its place.
  pub replace_refines :
      (s : BTreeSet I T) (v : T)
      → IsValid s
      → (s' : BTreeSet I T) × (replace s v ≡ ok (find (against_item v) (items s), s'))
        × IsValid s'
        × (items s' ≡ Spec.insert (against_item v) v (erase (against_item v) (items s)))
  unfolding replace
  replace_refines s v valid =
      let (taken, take_eq, taken_valid, taken_items) =
        take_refines s valid ⦃b = borrow_self {T = T}⦄ v in
      let (s', insert_eq, valid', items') = insert_refines taken v taken_valid in
      (
        s',
        rw take_eq (rw insert_eq),
        valid',
        items' ∙ ap (Spec.insert (against_item v) v) taken_items,
      )

  pub insert_all_lem :
      (iter : List T) (s : BTreeSet I T)
      → IsValid s
      → (s' : BTreeSet I T) × (insert_all s iter ≡ ok s')
        × IsValid s'
        × (items s' ≡ insert_each (items s) iter)
  unfolding insert_all
  insert_all_lem [] s valid = (s, refl, valid, refl)
  insert_all_lem (v ∷ iter) s valid =
      let (next, insert_eq, next_valid, next_items) = insert_refines s v valid in
      let (s', rest_eq, valid', items') = insert_all_lem iter next next_valid in
      (s', rw insert_eq rest_eq, valid', items' ∙ ap (λ l. insert_each l iter) next_items)

  -- Collecting a list of values returns a valid set of the ordered insertions of the values.
  pub from_iter_refines :
      (iter : List T)
      → (s' : BTreeSet I T) × (from_iter iter ≡ ok s')
        × IsValid s'
        × (items s' ≡ insert_each [] iter)
  unfolding from_iter
  from_iter_refines iter =
      insert_all_lem iter new (with_maximum_node_size-IsValid default_inner_size (omega arith))

  abbrev Appended : BTreeSet I T → List T → Run (BTreeSet I T × BTreeSet I T) → Type ℓ
  Appended s values run =
      (s' : BTreeSet I T) × (other' : BTreeSet I T) × (run ≡ ok (s', other'))
      × IsValid s'
      × IsValid other'
      × (items other' ≡ [])
      × (items s' ≡ overlay (items s) values)

  -- the two outcomes of a round of the loop
  append_loop-done :
      (fuel : ℕ) (s other other' : BTreeSet I T)
      → pop_first other ≡ ok (none, other')
      → append_loop (suc fuel) s other ≡ ok (s, other')
  unfolding append_loop
  append_loop-done fuel s other other' e = rw e

  append_loop-round :
      (fuel : ℕ) (s other next other' : BTreeSet I T) (v : T) (r : Option T)
      → pop_first other ≡ ok (some v, other')
      → replace s v ≡ ok (r, next)
      → append_loop (suc fuel) s other ≡ append_loop fuel next other'
  unfolding append_loop
  append_loop-round fuel s other next other' v r e d = rw e (rw d)

  append_loop_lem :
      (values : List T) (fuel : ℕ) (s other : BTreeSet I T)
      → length values < fuel
      → IsValid s
      → IsValid other
      → items other ≡ values
      → Appended s values (append_loop fuel s other)
  append_loop_lem values zero s other h valid other_valid e = absurd (omega arith)
  append_loop_lem [] (suc fuel) s other h valid other_valid e =
      let (other', popped, other_valid', other_items) = pop_first_refines other other_valid in
      (
        s,
        other',
        append_loop-done fuel s other other' (popped ∙ ap (λ l. ok (get_elem? l 0, other')) e),
        valid,
        other_valid',
        other_items ∙ ap (drop 1) e,
        refl,
      )
  append_loop_lem (v ∷ values) (suc fuel) s other h valid other_valid e =
      let (other', popped, other_valid', other_items) = pop_first_refines other other_valid in
      let (next, replaced, next_valid, next_items) = replace_refines s v valid in
      let (s', last, run, valid', last_valid, last_items, items') =
        append_loop_lem values fuel next other' (omega arith) next_valid other_valid'
          (other_items ∙ ap (drop 1) e) in
      (
        s',
        last,
        append_loop-round fuel s other next other' v (find (against_item v) (items s))
              (popped ∙ ap (λ l. ok (get_elem? l 0, other')) e) replaced
            ∙ run,
        valid',
        last_valid,
        last_items,
        items' ∙ ap (λ l. overlay l values) next_items,
      )

  -- On valid sets `append` returns: it leaves the other set empty, and in the first, which stays
  -- valid, each item of the other has been inserted in place of one that compares equal.
  pub append_refines :
      (s other : BTreeSet I T)
      → IsValid s
      → IsValid other
      → (s' : BTreeSet I T) × (other' : BTreeSet I T) × (append s other ≡ ok (s', other'))
        × IsValid s'
        × IsValid other'
        × (items other' ≡ [])
        × (items s' ≡ overlay (items s) (items other))
  unfolding append
  append_refines s other valid other_valid =
      append_loop_lem (items other) (suc other.len) s other (omega (arith, other_valid.measured))
        valid other_valid refl
