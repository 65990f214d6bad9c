-- ===== src/Concurrent/Coherent/Full.antt =====
-- `put_cdc` where the node of the value is full: the node is split, and the value goes to one half.
use indexset.Base.{
  get_last?, get_last?-append, ℕ, suc, ◌/◌, ◌≤◌, ◌≡◌, refl, sym, ap, ◌∙◌, List, [], ◌∷◌, ◌++◌, none,
  some, true, false, Ordering, is_lt, ok, not, ◌&&◌, length, take, drop, take-append-drop,
  length-take, length-drop, arith, Bool-cases, inl, inr, leb, if◌then◌else◌,
}
use indexset.Base.Vec
use indexset.Order.{Ord, against_item, against_item-IsProbe}
use indexset.Order.Sorted.{All-imp, IsSorted, IsSorted-append_left, IsSorted-append_right}
use indexset.Order.Spec.{find, is_some}
use indexset.Order.View.{Below, Above, view, absent, present, find-append}
use indexset.Order.Cuts.{find-absent, find-present, find-append_right, find-present}
use indexset.Order.Puts.{put-append, put-append_right}
use indexset.Node
use indexset.Set.Nodes.{IsNonempty-of_length}
use indexset.Set.Locate.Cut.{last, Below-of_last, Above-behind, lt_of_is_lt}
use indexset.Cdc.{split_node}
use indexset.Concurrent.SkipMap.{SkipMap, Ordered}
use indexset.Concurrent.Operation.{Shared, exceeds}
use indexset.Concurrent.Set.{put_cdc}
use indexset.Concurrent.Coherent.{HasMax, IsCoherent}
use indexset.Concurrent.Coherent.Place.{All-last}
use indexset.Concurrent.Coherent.Max.{new_key, HasMax-put, put_value_lem}
use indexset.Concurrent.Coherent.Change.{entry-got, node-divided}
use indexset.Concurrent.Coherent.PutSteps.{put-full}
use indexset.Concurrent.Coherent.Split.{split-low, split-high}
use indexset.Concurrent.Coherent.Around.{
  IsPut, Target, putting, indexed, node-IsSorted, top, leaves, IsSorted-as, assign_ids-IsNumbered,
}

leb-true : (a b : ℕ) → leb a b ≡ true → a ≤ b
leb-true a b h = ground arith

-- two halves of a node, neither empty, with their greatest items
record Halves {ℓ} {T : Type ℓ} (node : List T) : Type ℓ where
  low : List T
  high : List T
  halved : Node.halve node ≡ ok (low, high)
  node_eq : node ≡ low ++ high
  low_init : List T
  low_max : T
  low_eq : low ≡ low_init ++ low_max ∷ []
  low_had : Node.max low ≡ some low_max
  high_max : T
  high_had : Node.max high ≡ some high_max

halves {ℓ} : {T : Type ℓ} (node : List T) → 2 ≤ length node → Halves node
unfolding Node.halve Node.max
halves node h =
    let half = length node / 2 in
    let low = take half node in
    let high = drop half node in
    let l =
      last low (IsNonempty-of_length low (omega (arith, length-take half node (omega arith)))) in
    let r = last high (IsNonempty-of_length high (omega (arith, length-drop half node))) in
    record {
      low = low;
      high = high;
      halved = Vec.split_off_lem node half (omega arith);
      node_eq = sym (take-append-drop half node);
      low_init = l.0;
      low_max = l.1;
      low_eq = l.2;
      low_had = l.3;
      high_max = r.1;
      high_had = r.3;
    }

module _ {ℓ} {T : Type ℓ} ⦃t : Ord T⦄ (value : T) where
  abbrev p : T → Ordering
  p = against_item value

  -- a value that was in the node does not exceed its greatest item
  key_of_new :
      (node : List T) (max : T)
      → IsSorted node
      → Node.max node ≡ some max
      → (if not (is_some (find p node)) && exceeds value max then value else max)
        ≡ new_key value max
  unfolding Node.max
  key_of_new node max sorted had = elim (view (against_item-IsProbe value) node sorted) [
    | absent lo hi e below above ↦
        let missed : find p node ≡ none = rw e (find-absent p lo hi below above) in rw missed refl
    | present lo x hi e below m above ↦
        let ends : get_last? (x ∷ hi) ≡ some max = sym (get_last?-append lo x hi) ∙ (rw e at had) in
        let least : exceeds value max ≡ false =
          All-last (λ y. is_lt (p y) ≡ false) (x ∷ hi) max
            (ap is_lt m, All-imp _ _ (λ y g. ap is_lt g) hi above) ends in
        let there : find p node ≡ some x = rw e (find-present p lo hi below above x m) in
        rw (there, least) refl
  ]

module _ {ℓ} {M T : Type ℓ} ⦃t : Ord T⦄ ⦃s : SkipMap M T⦄ ⦃o : Ordered M T⦄ (shared : Shared M T)
    (value : T) (fuel : ℕ) (coherent : IsCoherent shared) (k : Target shared value)
    (full : Node.need_to_split (shared.cell k.e.value) shared.node_capacity value ≡ true) where
  abbrev node : List T
  node = shared.cell k.e.value

  module _ (h : Halves node) where
    sorted : IsSorted (h.low ++ h.high)
    sorted = rw (← h.node_eq) (node-IsSorted shared value coherent k)

    into_low :
        exceeds value h.low_max ≡ false → IsPut shared value (put_cdc (suc fuel) shared value)
    unfolding Node.max
    into_low within =
        let probe = against_item-IsProbe value in
        let low_sorted = IsSorted-append_left h.low h.high sorted in
        let above : Above (p value) h.high =
          Above-behind probe h.low_init h.low_max h.high (rw h.low_eq at sorted) within in
        let (events, puts) = put_value_lem value h.low h.low_max low_sorted in
        let new = putting value h.low ++ h.high in
        let made : putting value node ≡ new =
          rw h.node_eq (put-append_right (p value) (λ _. value) value h.low h.high above) in
        let max : HasMax (putting value h.low) h.low_max = rw within at (
          HasMax-put value h.low h.low_max low_sorted
            (h.low_max, h.low_had, t.cmp_refl h.low_max)) in
        let top = top shared value coherent k in
        let indexed = indexed shared value coherent k in
        leaves shared value coherent k fuel new
          (ap (find (p value)) h.node_eq ∙ find-append_right (p value) h.high above h.low)
          (put-full shared value fuel k.e k.found (find (p value) h.low)
            (split_node top.0 (length h.low) ∷ events) _ full
            (split-low shared k.e k.e.key value top.0 h.low h.high h.low_max h.high_max
              (entry-got shared.index k.before k.e k.after indexed k.whole k.e.key
                (t.cmp_refl k.e.key))
              top.1 h.halved h.low_had h.high_had _ (putting value h.low) (find (p value) h.low)
              events within puts))
          refl (assign_ids-IsNumbered (split_node top.0 (length h.low) ∷ events) shared.event_id)
          made
          (node-divided shared.index k.before k.e k.after indexed k.whole (putting value h.low)
            h.high h.low_max h.high_max max (h.high_max, h.high_had, t.cmp_refl h.high_max)
            (IsSorted-as shared value coherent k new made))

    into_high :
        exceeds value h.low_max ≡ true → IsPut shared value (put_cdc (suc fuel) shared value)
    unfolding Node.max
    into_high beyond =
        let probe = against_item-IsProbe value in
        let high_sorted = IsSorted-append_right h.low h.high sorted in
        let low_sorted = IsSorted-append_left h.low h.high sorted in
        let below : Below (p value) h.low = rw h.low_eq (
          Below-of_last probe h.low_init h.low_max (rw h.low_eq at low_sorted)
            (lt_of_is_lt (p value h.low_max) beyond)) in
        let (events, puts) = put_value_lem value h.high h.high_max high_sorted in
        let new = h.low ++ putting value h.high in
        let made : putting value node ≡ new =
          rw h.node_eq (put-append (p value) (λ _. value) value h.low h.high below) in
        let key = key_of_new value h.high h.high_max high_sorted h.high_had in
        let max : HasMax (putting value h.high) _ = rw key (
          HasMax-put value h.high h.high_max high_sorted
            (h.high_max, h.high_had, t.cmp_refl h.high_max)) in
        let top = top shared value coherent k in
        let indexed = indexed shared value coherent k in
        leaves shared value coherent k fuel new
          (ap (find (p value)) h.node_eq ∙ find-append (p value) h.low h.high below)
          (put-full shared value fuel k.e k.found (find (p value) h.high)
            (split_node top.0 (length h.low) ∷ events) _ full
            (split-high shared k.e k.e.key value top.0 h.low h.high h.low_max h.high_max
              (entry-got shared.index k.before k.e k.after indexed k.whole k.e.key
                (t.cmp_refl k.e.key))
              top.1 h.halved h.low_had h.high_had _ (putting value h.high) (find (p value) h.high)
              events beyond puts))
          refl (assign_ids-IsNumbered (split_node top.0 (length h.low) ∷ events) shared.event_id)
          made
          (node-divided shared.index k.before k.e k.after indexed k.whole h.low
            (putting value h.high) h.low_max _ (h.low_max, h.low_had, t.cmp_refl h.low_max) max
            (IsSorted-as shared value coherent k new made))

  pub put_when_full : IsPut shared value (put_cdc (suc fuel) shared value)
  unfolding Node.need_to_split
  put_when_full =
      let h =
        halves node
          (omega (arith, coherent.capacity, leb-true shared.node_capacity (length node) full)) in
      elim (Bool-cases (exceeds value h.low_max)) [
        | inl beyond ↦ into_high h beyond
        | inr within ↦ into_low h within
      ]
