-- ===== src/Concurrent/Coherent/Agree.antt =====
-- The concurrent and the single-threaded set of the same items.
use indexset.Base.{ℕ, suc, ◌≡◌, sym, ap, ◌∙◌, List, Option, ok}
use indexset.Order.{borrow_self, Ord, against_item, against_item-IsProbe}
use indexset.Order.Sorted.{IsSorted}
use indexset.Order.Spec
use indexset.Order.Spec.{find, put, erase, is_some}
use indexset.Order.View.{view, absent, present}
use indexset.Order.Cuts.{erase-absent, erase-present, insert_spec-absent}
use indexset.Order.Puts.{put-absent, put-present}
use indexset.Fenwick.{FenwickTree, Counts}
use indexset.Set.{BTreeSet}
use indexset.Set.Valid
use indexset.Set.Valid.{IsValid}
use indexset.Set.Update.{replace}
use indexset.Set.Update.Bulk.{replace_refines}
use indexset.Set.Query
use indexset.Set.Query.Lookup.{contains_refines}
use indexset.Cdc.{ChangeEvent}
use indexset.Concurrent.SkipMap.{SkipMap, Ordered}
use indexset.Concurrent.Operation.{Shared}
use indexset.Concurrent.Set.{put_cdc}
use indexset.Concurrent.Lookup
use indexset.Concurrent.Coherent.{items, IsCoherent}
use indexset.Concurrent.Coherent.Query.{contains_shared_refines}
use indexset.Concurrent.Coherent.Put.{put_cdc_refines}

module _ {ℓ} {T : Type ℓ} ⦃t : Ord T⦄ (v : T) where
  insert-erase :
      (xs : List T)
      → IsSorted xs
      → Spec.insert (against_item v) v (erase (against_item v) xs)
        ≡ put (against_item v) (λ _. v) v xs
  insert-erase xs h =
      let p : T → _ = against_item v in
      elim (view (against_item-IsProbe v) xs h) [
        | absent lo hi e below above ↦ rw e (
            rw (
              erase-absent p lo hi below above,
              insert_spec-absent p lo hi below above v,
              put-absent p (λ _. v) v lo hi below above,
            ))
        | present lo x hi e below m above ↦ rw e (
            rw (
              erase-present p lo hi below above x m,
              insert_spec-absent p lo hi below above v,
              put-present p (λ _. v) v lo x hi below m,
            ))
      ]

module _ {ℓ} {M T : Type ℓ} {I : Type 0} ⦃t : Ord T⦄ ⦃f : FenwickTree I⦄ ⦃c : Counts I⦄
    ⦃s : SkipMap M T⦄ ⦃o : Ordered M T⦄ where
  -- `replace` of a valid single-threaded set and `put_cdc` of a coherent concurrent set of the same
  -- items return the same item, and leave a valid and a coherent set of the same items, which then
  -- answer every `contains` alike.
  pub replace-put_cdc :
      (fuel : ℕ) (single : BTreeSet I T) (shared : Shared M T) (value : T)
      → IsValid single
      → IsCoherent shared
      → Valid.items single ≡ items shared
      → (old : Option T) × (single' : BTreeSet I T) × (cdc : List (ChangeEvent T))
        × (shared' : Shared M T) × (replace single value ≡ ok (old, single'))
        × (put_cdc (suc fuel) shared value ≡ ok (old, cdc, shared'))
        × IsValid single'
        × IsCoherent shared'
        × (Valid.items single' ≡ items shared')
        × ((other : T)
            → Query.contains ⦃b = borrow_self {T = T}⦄ single' other
              ≡ Lookup.contains ⦃b = borrow_self {T = T}⦄ shared' other)
  replace-put_cdc fuel single shared value valid coherent same =
      let p = against_item value in
      let (single', replaced, valid', items') = replace_refines single value valid in
      let (cdc, shared', put_in, coherent', left, numbered) =
        put_cdc_refines shared value coherent fuel in
      let agree : Valid.items single' ≡ items shared' =
        items'
        ∙ (insert-erase value (Valid.items single) valid.sorted
            ∙ (ap (put p (λ _. value) value) same ∙ sym left)) in
      (
        find p (items shared),
        single',
        cdc,
        shared',
        replaced ∙ ap (λ xs. ok (find p xs, single')) same,
        put_in,
        valid',
        coherent',
        agree,
        λ other.
            contains_refines ⦃b = borrow_self {T = T}⦄ single' other valid'
            ∙ (ap (λ xs. ok (is_some (find (against_item other) xs))) agree
                ∙ sym (contains_shared_refines ⦃b = borrow_self {T = T}⦄ shared' other coherent')),
      )
