-- ===== src/Concurrent/Coherent/Change.antt =====
-- A node changed or added with its entry: the index, the store and the items together.
use indexset.Base.{
  [], append_assoc, ℕ, suc, ◌≡◌, sym, ap, ◌∙◌, List, ◌∷◌, ◌++◌, some, lt, eq, gt, reverse_ordering,
}
use indexset.Order.{Ord, ◌≺◌}
use indexset.Order.Sorted.{
  All, All-append_left, All-append_right, All-imp, IsSorted, IsSorted-append_right,
  IsSorted-Precedes, IsSorted-skip,
}
use indexset.Pair.{Pair}
use indexset.Concurrent.SkipMap.{SkipMap, Ordered, entry}
use indexset.Concurrent.Operation.{write}
use indexset.Concurrent.Coherent.{items_of, HasMax, IsIndexed}
use indexset.Concurrent.Coherent.Nodes.{
  items_of-append, rewritten, added, All-without, items_of-upto, items_of-behind,
}
use indexset.Concurrent.Coherent.Place.{
  All-last, against_item-Respects, keys_lie, get-present, remove-present, insert-absent,
}

module _ {ℓ} {T : Type ℓ} ⦃t : Ord T⦄ where
  -- what compares equal is compared alike, on the right too
  pub cmp_right : (a b c : T) → t.cmp a b ≡ eq → t.cmp c a ≡ t.cmp c b
  cmp_right a b c h =
      t.cmp_reverse a c ∙ (ap reverse_ordering (t.cmp_congr a b c h) ∙ sym (t.cmp_reverse b c))

  module _ (cell : ℕ → List T) (before after : List (Pair T ℕ)) (node : List T) (key : T)
      (keyed : All (λ e. HasMax (cell e.value) e.key) (before ++ after)) (max : HasMax node key)
      (sorted : IsSorted (items_of cell before ++ (node ++ items_of cell after))) where
    -- the other keys lie to the key of a node as their items do
    pub keys-below : All (λ e. t.cmp e.key key ≡ lt) before
    keys-below =
        keys_lie (against_item-Respects key) cell lt before (All-append_left _ before after keyed) (
          All-imp (λ x. All (λ y. x ≺ y) (node ++ items_of cell after)) (λ x. x ≺ key)
            (λ x h.
              sym (cmp_right max.0 key x max.2)
              ∙ All-last (λ y. x ≺ y) node max.0 (All-append_left _ node _ h) max.1)
            (items_of cell before) (IsSorted-Precedes (items_of cell before) _ sorted))

    pub keys-above : All (λ e. t.cmp e.key key ≡ gt) after
    keys-above =
        let behind =
          All-last (λ x. All (λ y. x ≺ y) (items_of cell after)) node max.0
            (IsSorted-Precedes node (items_of cell after)
              (IsSorted-append_right (items_of cell before) _ sorted))
            max.1 in
        keys_lie (against_item-Respects key) cell gt after (All-append_right _ before after keyed) (
          All-imp _ _
            (λ y h.
              sym (cmp_right max.0 key y max.2) ∙ (t.cmp_reverse max.0 y ∙ ap reverse_ordering h))
            (items_of cell after) behind)

-- the store and the index stand for these items
abbrev pub StandsFor {ℓ} :
    {M T : Type ℓ} ⦃t : Ord T⦄ ⦃s : SkipMap M T⦄ → M → (ℕ → List T) → ℕ → List T → Type ℓ
StandsFor ⦃s⦄ index cell next xs =
    IsIndexed cell next (s.iter index) × (items_of cell (s.iter index) ≡ xs)

module _ {ℓ} {M T : Type ℓ} ⦃t : Ord T⦄ ⦃s : SkipMap M T⦄ ⦃o : Ordered M T⦄ (index : M)
    {cell : ℕ → List T} {next : ℕ} (before : List (Pair T ℕ)) where
  module _ (after : List (Pair T ℕ)) (h : IsIndexed cell next (before ++ after))
      (whole : s.iter index ≡ before ++ after) (node : List T) (key : T) (max : HasMax node key)
      (sorted : IsSorted (items_of cell before ++ (node ++ items_of cell after))) where
    pub entry-added : s.iter (s.insert index key next) ≡ before ++ entry key next ∷ after
    entry-added =
        insert-absent index key before after
          (keys-below cell before after node key h.keyed max sorted)
          (keys-above cell before after node key h.keyed max sorted) next whole

    pub node-added :
        StandsFor
          (s.insert index key next)
          (write cell next node)
          (suc next)
          (items_of cell before ++ (node ++ items_of cell after))
    node-added = rw entry-added (added before after h key node max sorted)

  module _ (e : Pair T ℕ) (after : List (Pair T ℕ)) (h : IsIndexed cell next (before ++ e ∷ after))
      (whole : s.iter index ≡ before ++ e ∷ after) where
    others : All (λ e. HasMax (cell e.value) e.key) (before ++ after)
    others = All-without _ before e after h.keyed

    own : HasMax (cell e.value) e.key
    own = (All-append_right _ before (e ∷ after) h.keyed).0

    own-IsSorted : IsSorted (items_of cell before ++ (cell e.value ++ items_of cell after))
    own-IsSorted = rw (← items_of-append cell before (e ∷ after)) h.sorted

    module _ (old : T) (same : t.cmp e.key old ≡ eq) where
      own_old : HasMax (cell e.value) old
      own_old = (own.0, own.1, sym (cmp_right e.key old own.0 same) ∙ own.2)

      pub entry-got : s.get index old ≡ some e
      entry-got =
          get-present index old before after
            (keys-below cell before after (cell e.value) old others own_old own-IsSorted)
            (keys-above cell before after (cell e.value) old others own_old own-IsSorted) e whole
            same

      entry-removed : s.iter (s.remove index old) ≡ before ++ after
      entry-removed =
          remove-present index old before after
            (keys-below cell before after (cell e.value) old others own_old own-IsSorted)
            (keys-above cell before after (cell e.value) old others own_old own-IsSorted) e whole
            same

      module _ (node : List T) (key : T) (max : HasMax node key)
          (sorted : IsSorted (items_of cell before ++ (node ++ items_of cell after))) where
        -- the entry goes and comes back under the key of its new node
        pub entry-replaced :
            s.iter (s.insert (s.remove index old) key e.value) ≡ before ++ entry key e.value ∷ after
        entry-replaced =
            insert-absent (s.remove index old) key before after
              (keys-below cell before after node key others max sorted)
              (keys-above cell before after node key others max sorted) e.value entry-removed

        pub node-replaced :
            StandsFor
              (s.insert (s.remove index old) key e.value)
              (write cell e.value node)
              next
              (items_of cell before ++ (node ++ items_of cell after))
        node-replaced = rw entry-replaced (rewritten before e after h key node max sorted)

module _ {ℓ} {M T : Type ℓ} ⦃t : Ord T⦄ ⦃s : SkipMap M T⦄ ⦃o : Ordered M T⦄ (index : M)
    {cell : ℕ → List T} {next : ℕ} (before : List (Pair T ℕ)) (e : Pair T ℕ)
    (after : List (Pair T ℕ)) (h : IsIndexed cell next (before ++ e ∷ after))
    (whole : s.iter index ≡ before ++ e ∷ after) where
  -- the node is divided: the lower part stays, and the upper goes to a new node
  pub node-divided :
      (low high : List T) (low_key high_key : T)
      → HasMax low low_key
      → HasMax high high_key
      → IsSorted (items_of cell before ++ ((low ++ high) ++ items_of cell after))
      → StandsFor
          (s.insert (s.insert (s.remove index e.key) low_key e.value) high_key next)
          (write (write cell e.value low) next high)
          (suc next)
          (items_of cell before ++ ((low ++ high) ++ items_of cell after))
  node-divided low high low_key high_key low_max high_max sorted =
      let B = items_of cell before in
      let A = items_of cell after in
      let e1 = entry low_key e.value in
      let same = t.cmp_refl e.key in
      let turn : (B ++ low) ++ (high ++ A) ≡ B ++ ((low ++ high) ++ A) =
        append_assoc B low (high ++ A) ∙ ap (λ l. B ++ l) (sym (append_assoc low high A)) in
      let sorted' : IsSorted ((B ++ low) ++ (high ++ A)) = rw turn sorted in
      let sorted_low : IsSorted (B ++ (low ++ A)) =
        rw (← append_assoc B low A) (IsSorted-skip (B ++ low) high A sorted') in
      let (indexed', items') = rewritten before e after h low_key low low_max sorted_low in
      let joined = append_assoc before (e1 ∷ []) after in
      let upto = items_of-upto before e after h low_key low in
      let behind = items_of-behind before e after h low in
      let r =
        node-added (s.insert (s.remove index e.key) low_key e.value) (before ++ e1 ∷ []) after
          (rw joined indexed')
          (entry-replaced index before e after h whole e.key same low low_key low_max sorted_low
            ∙ sym joined)
          high high_key high_max (rw (upto, behind) sorted') in
      (r.0, r.1 ∙ (rw (upto, behind) turn))
