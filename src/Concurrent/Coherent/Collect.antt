-- ===== src/Concurrent/Coherent/Collect.antt =====
-- Calls of a concurrent set one after the other.
use indexset.Base.{
  ℕ, suc, ◌≤◌, ◌≡◌, refl, ap, ◌∙◌, List, [], ◌∷◌, Option, none, some, true, false, ok, not, ◌>>=◌,
}
use indexset.Order.{Ord, against_item, borrow_self}
use indexset.Order.Spec.{find, put, erase, is_some, put_each}
use indexset.Order.Puts.{find-put, erase-put}
use indexset.Concurrent.SkipMap.{SkipMap, Ordered}
use indexset.Concurrent.Operation.{Shared}
use indexset.Cdc.{ChangeEvent}
use indexset.Concurrent.Set.{with_maximum_node_size, put_cdc, insert, insert_all}
use indexset.Concurrent.Removal.{remove_cdc}
use indexset.Concurrent.Lookup.{get, ref_get}
use indexset.Concurrent.Coherent.{IsCoherent, items}
use indexset.Concurrent.Coherent.Query.{get_shared_refines}
use indexset.Concurrent.Coherent.Put.{put_cdc_refines}
use indexset.Concurrent.Coherent.Removal.{remove_cdc_refines}

module _ {ℓ} {M T : Type ℓ} ⦃t : Ord T⦄ ⦃s : SkipMap M T⦄ ⦃o : Ordered M T⦄ where
  new-IsCoherent :
      (node_capacity : ℕ)
      → 2 ≤ node_capacity
      → IsCoherent {M = M} {T = T} (with_maximum_node_size node_capacity)
        × (items {M = M} {T = T} (with_maximum_node_size node_capacity) ≡ [])
  unfolding with_maximum_node_size
  new-IsCoherent node_capacity h = (
    record {
      indexed = rw o.iter-new (record { keyed = tt; distinct = tt; fresh = tt; sorted = tt });
      capacity = h;
    },
    rw o.iter-new refl,
  )

  module _ (fuel : ℕ) where
    -- On a coherent set `insert` returns whether no item compared equal to the value, and leaves a
    -- coherent set with the value, in the place of the item that compared equal if there was one.
    pub insert_shared_refines :
        (shared : Shared M T) (value : T)
        → IsCoherent shared
        → (shared' : Shared M T) × (insert (suc fuel) shared value
            ≡ ok (not (is_some (find (against_item value) (items shared))), shared'))
          × IsCoherent shared'
          × (items shared' ≡ put (against_item value) (λ _. value) value (items shared))
    unfolding insert
    insert_shared_refines shared value coherent =
        let (cdc, shared', run, coherent', items', numbered) =
          put_cdc_refines shared value coherent fuel in
        (
          shared',
          rw run (ap (λ b. ok (b, shared')) (is_new (find (against_item value) (items shared)))),
          coherent',
          items',
        )
      where
        is_new : (old : Option T) → (elim old [ none ↦ true | some _ ↦ false ]) ≡ not (is_some old)
        is_new none = refl
        is_new (some x) = refl

    insert_all_refines :
        (values : List T) (shared : Shared M T)
        → IsCoherent shared
        → (shared' : Shared M T) × (insert_all (suc fuel) shared values ≡ ok shared')
          × IsCoherent shared'
          × (items shared' ≡ put_each (items shared) values)
    unfolding insert_all
    insert_all_refines [] shared coherent = (shared, refl, coherent, refl)
    insert_all_refines (value ∷ values) shared coherent =
        let (next, run, coherent', items') = insert_shared_refines shared value coherent in
        let (shared', runs, coherent'', items'') = insert_all_refines values next coherent' in
        (shared', rw run runs, coherent'', items'' ∙ ap (λ xs. put_each xs values) items')

    -- Collecting values into a new set whose nodes hold two items or more returns a coherent set of
    -- the values in order, where each value has taken the place of those that compare equal.
    pub collect_refines :
        (values : List T) (node_capacity : ℕ)
        → 2 ≤ node_capacity
        → (shared' : Shared M T) × (insert_all {M = M}
              (suc fuel)
              (with_maximum_node_size node_capacity)
              values
            ≡ ok shared')
          × IsCoherent shared'
          × (items shared' ≡ put_each [] values)
    collect_refines values node_capacity h =
        let (new, empty) = new-IsCoherent node_capacity h in
        let (shared', run, coherent, items') =
          insert_all_refines values (with_maximum_node_size node_capacity) new in
        (shared', run, coherent, items' ∙ ap (λ xs. put_each xs values) empty)

    -- On a coherent set, `get` of a value that `put_cdc` has put reads that value, and `remove_cdc`
    -- then returns it and leaves a coherent set of the items that do not compare equal to it.
    pub put-remove :
        (shared : Shared M T) (value : T)
        → IsCoherent shared
        → (old : Option T) × (cdc cdc' : List (ChangeEvent T)) × (put' removed : Shared M T)
          × (put_cdc (suc fuel) shared value ≡ ok (old, cdc, put'))
          × ((get ⦃b = borrow_self {T = T}⦄ put' value >>= λ r. elim r [
            | none ↦ ok none
            | some place ↦ (ref_get put' place >>= λ x. ok (some x))
          ])
              ≡ ok (some value))
          × (remove_cdc ⦃b = borrow_self {T = T}⦄ put' value ≡ ok (some value, cdc', removed))
          × IsCoherent removed
          × (items removed ≡ erase (against_item value) (items shared))
    put-remove shared value coherent =
        let p = against_item value in
        let (cdc, put', run, coherent', items', numbered) =
          put_cdc_refines shared value coherent fuel in
        let (cdc', removed, run', coherent'', items'', numbered') =
          remove_cdc_refines ⦃b = borrow_self {T = T}⦄ put' value coherent' in
        let there : find p (items put') ≡ some value =
          ap (find p) items' ∙ find-put p value (t.cmp_refl value) (items shared) in
        (
          find p (items shared),
          cdc,
          cdc',
          put',
          removed,
          run,
          get_shared_refines ⦃b = borrow_self {T = T}⦄ put' value coherent' ∙ ap ok there,
          run' ∙ ap (λ r. ok (r, cdc', removed)) there,
          coherent'',
          items'' ∙ (ap (erase p) items' ∙ erase-put p value (t.cmp_refl value) (items shared)),
        )
