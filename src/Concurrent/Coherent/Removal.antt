-- ===== src/Concurrent/Coherent/Removal.antt =====
-- `remove_cdc` of a call that runs alone, against the removal from the list of items.
use indexset.Base.{
  append_assoc, append-nil, ℕ, ◌≡◌, refl, sym, ap, ◌∙◌, List, [], ◌∷◌, ◌++◌, Option, none, some,
  Ordering, lt, eq, ok, Run, get_last?, get_last?-append, length, reverse_ordering, is_lt,
}
use indexset.Order.{against-IsProbe, Ord, Borrow, against}
use indexset.Order.Sorted.{All-append_right, IsSorted, IsSorted-append_left, IsSorted-append_right}
use indexset.Order.Spec.{find, erase}
use indexset.Order.View.{absent, present, view, View, Below, Above, find-append, erase-append}
use indexset.Order.Cuts.{
  find-absent, erase-absent, find-append_right, erase-append_right, find-present, erase-present,
}
use indexset.Order.Keeps.{erase-IsSorted}
use indexset.Pair.{Pair}
use indexset.Node
use indexset.Node.Insert.{delete-absent, delete-present}
use indexset.Set.Locate.Cut.{last}
use indexset.Cdc.{ChangeEvent}
use indexset.Concurrent.SkipMap.{SkipMap, Ordered}
use indexset.Concurrent.Operation.{Shared}
use indexset.Concurrent.Removal.{remove_cdc}
use indexset.Concurrent.Coherent.{items_of, HasMax, IsIndexed, items, IsCoherent, IsNumbered}
use indexset.Concurrent.Coherent.Nodes.{items_of-append, without, rewritten}
use indexset.Concurrent.Coherent.Place.{
  here, past, locate, against-Respects, keys-before, keys-after, get-present, remove-present,
  insert-absent,
}
use indexset.Concurrent.Coherent.Steps.{
  remove-unindexed, remove-missing, remove-inner, remove-greatest, remove-only,
}

module _ {ℓ} {M T : Type ℓ} ⦃t : Ord T⦄ ⦃s : SkipMap M T⦄ (shared : Shared M T)
    (p : T → Ordering) where
  -- what a removal returns and leaves
  abbrev pub IsRemoval : Run (Option T × List (ChangeEvent T) × Shared M T) → Type ℓ
  IsRemoval run =
      (cdc : List (ChangeEvent T)) × (shared' : Shared M T) × (run
        ≡ ok (find p (items shared), cdc, shared'))
      × IsCoherent shared'
      × (items shared' ≡ erase p (items shared))
      × IsNumbered shared.event_id cdc shared'.event_id

module _ {ℓ κ} {M T : Type ℓ} {Q : Type κ} ⦃t : Ord T⦄ ⦃q : Ord Q⦄ ⦃b : Borrow T Q⦄
    ⦃s : SkipMap M T⦄ ⦃o : Ordered M T⦄ (shared : Shared M T) (value : Q)
    (coherent : IsCoherent shared) where
  abbrev p : T → Ordering
  p = against value

  unchanged :
      remove_cdc shared value ≡ ok (none, [], shared)
      → find p (items shared) ≡ none
      → erase p (items shared) ≡ items shared
      → IsRemoval shared p (remove_cdc shared value)
  unchanged run missed same =
      ([], shared, run ∙ ap (λ x. ok (x, [], shared)) (sym missed), coherent, sym same, refl)

  module _ (before : List (Pair T ℕ)) (e : Pair T ℕ) (after : List (Pair T ℕ))
      (whole : s.iter shared.index ≡ before ++ e ∷ after)
      (found : s.lower_bound shared.index (λ key. is_lt (against value key)) ≡ some e)
      (below : Below p (items_of shared.cell before))
      (above : Above p (items_of shared.cell after)) where
    abbrev B : List T
    B = items_of shared.cell before

    abbrev A : List T
    A = items_of shared.cell after

    abbrev node : List T
    node = shared.cell e.value

    indexed : IsIndexed shared.cell shared.next (before ++ e ∷ after)
    indexed = rw (← whole) coherent.indexed

    around : items shared ≡ B ++ (node ++ A)
    around = rw whole (items_of-append shared.cell before (e ∷ after))

    find-around : find p (items shared) ≡ find p node
    find-around = rw around (find-append p B (node ++ A) below ∙ find-append_right p A above node)

    erase-around : erase p (items shared) ≡ B ++ (erase p node ++ A)
    erase-around =
        rw around (
          erase-append p B (node ++ A) below ∙ ap (λ l. B ++ l) (erase-append_right p A above node))

    erased-IsSorted : IsSorted (B ++ (erase p node ++ A))
    erased-IsSorted = rw (← erase-around) (erase-IsSorted p (items shared) coherent.indexed.sorted)

    node-IsSorted : IsSorted node
    node-IsSorted =
        IsSorted-append_left node A
          (IsSorted-append_right B (node ++ A) (rw (← around) coherent.indexed.sorted))

    -- the greatest item of the node, and how the entry's key compares to it
    top : HasMax node e.key
    top = (All-append_right _ before (e ∷ after) indexed.keyed).0

    top_same : (x : T) → get_last? node ≡ some x → t.cmp e.key x ≡ eq
    top_same x h =
        let m : top.0 ≡ x = ap (λ r. elim r [ none ↦ top.0 | some y ↦ y ]) (sym top.1 ∙ h) in
        rw (← m) (t.cmp_reverse top.0 e.key ∙ ap reverse_ordering top.2)

    module _ (lo : List T) (x : T) (hi : List T) (split : node ≡ lo ++ x ∷ hi) (low : Below p lo)
        (meets : p x ≡ eq) (high : Above p hi) where
      deleted : Node.delete node value ≡ ok (some (x, length lo), lo ++ hi)
      deleted = rw split (delete-present value lo hi low high x meets)

      left : erase p node ≡ lo ++ hi
      left = rw split (erase-present p lo hi low high x meets)

      left-IsSorted : IsSorted (B ++ ((lo ++ hi) ++ A))
      left-IsSorted = rw (← left) erased-IsSorted

      -- the state that a removal of this item leaves
      leaves :
          {cdc : List (ChangeEvent T)} {shared' : Shared M T} {es : List (Pair T ℕ)}
          → remove_cdc shared value ≡ ok (some x, cdc, shared')
          → s.iter shared'.index ≡ es
          → shared'.node_capacity ≡ shared.node_capacity
          → IsNumbered shared.event_id cdc shared'.event_id
          → IsIndexed shared'.cell shared'.next es
            × (items_of shared'.cell es ≡ B ++ ((lo ++ hi) ++ A))
          → IsRemoval shared p (remove_cdc shared value)
      leaves {cdc} {shared'} run index capacity numbered (indexed', items') = (
        cdc,
        shared',
        run
            ∙ ap (λ x. ok (x, cdc, shared'))
                (sym (find-around ∙ rw split (find-present p lo hi low high x meets))),
        record { indexed = rw index indexed'; capacity = rw capacity coherent.capacity },
        rw index (items' ∙ sym (erase-around ∙ ap (λ l. B ++ (l ++ A)) left)),
        numbered,
      )

    removed :
        (lo : List T) (x : T) (hi : List T)
        → node ≡ lo ++ x ∷ hi
        → Below p lo
        → p x ≡ eq
        → Above p hi
        → IsRemoval shared p (remove_cdc shared value)
    removed lo x (h ∷ hi) split low meets high =
        let rest = lo ++ h ∷ hi in
        let had : get_last? (lo ++ x ∷ h ∷ hi) ≡ some top.0 = rw (← split) top.1 in
        let has : get_last? rest ≡ some top.0 =
          get_last?-append lo h hi ∙ (sym (get_last?-append lo x (h ∷ hi)) ∙ had) in
        leaves lo x (h ∷ hi) split low meets high
          (remove-inner shared value e found x (length lo) rest top.0
            (deleted lo x (h ∷ hi) split low meets high) top.1 top.0 has (t.cmp_refl top.0))
          whole refl (refl, refl)
          (rewritten before e after indexed e.key rest (top.0, has, top.2)
            (left-IsSorted lo x (h ∷ hi) split low meets high))
    removed [] x [] split low meets high =
        let had : get_last? node ≡ some x = rw split refl in
        let lower = keys-before before e after indexed [] x [] split in
        let upper = keys-after before e after indexed [] x [] split in
        let same = top_same x had in
        leaves [] x [] split low meets high
          (remove-only shared value e found x 0 [] x (deleted [] x [] split low meets high) had
            (get-present shared.index x before after lower upper e whole same) refl)
          (remove-present shared.index x before after lower upper e whole same) refl (refl, refl)
          (without before e after indexed [] (left-IsSorted [] x [] split low meets high))
    removed (l ∷ lo) x [] split low meets high =
        let (init, y, ends, at_end) = last (l ∷ lo) tt in
        let had : get_last? node ≡ some x = rw split (get_last?-append (l ∷ lo) x []) in
        let lower = keys-before before e after indexed (l ∷ lo) x [] split in
        let upper = keys-after before e after indexed (l ∷ lo) x [] split in
        let same = top_same x had in
        let split-y : node ≡ init ++ y ∷ x ∷ [] =
          split ∙ (ap (λ l. l ++ x ∷ []) ends ∙ append_assoc init (y ∷ []) (x ∷ [])) in
        let y-first : t.cmp y x ≡ lt =
          (IsSorted-append_right init (y ∷ x ∷ []) (rw (← split-y) node-IsSorted)).0.0 in
        let has = ap get_last? (append-nil (l ∷ lo)) ∙ at_end in
        let gone = remove-present shared.index x before after lower upper e whole same in
        leaves (l ∷ lo) x [] split low meets high
          (remove-greatest shared value e found x (length (l ∷ lo)) ((l ∷ lo) ++ []) x
            (deleted (l ∷ lo) x [] split low meets high) had
            (get-present shared.index x before after lower upper e whole same) y has
            (t.cmp_reverse y x ∙ ap reverse_ordering y-first) y-first)
          (insert-absent (s.remove shared.index x) y before after
            (keys-before before e after indexed init y (x ∷ []) split-y)
            (keys-after before e after indexed init y (x ∷ []) split-y) e.value gone)
          refl (refl, refl)
          (rewritten before e after indexed y ((l ∷ lo) ++ []) (y, has, t.cmp_refl y)
            (left-IsSorted (l ∷ lo) x [] split low meets high))

    removed_in_node : View p node → IsRemoval shared p (remove_cdc shared value)
    removed_in_node (absent lo hi split low high) =
        let kept : erase p node ≡ node =
          ap (erase p) split ∙ (erase-absent p lo hi low high ∙ sym split) in
        unchanged
          (remove-missing shared value e found (lo ++ hi)
            (rw split (delete-absent value lo hi low high)))
          (find-around ∙ rw split (find-absent p lo hi low high))
          (erase-around ∙ (ap (λ l. B ++ (l ++ A)) kept ∙ sym around))
    removed_in_node (present lo x hi split low meets high) = removed lo x hi split low meets high

  -- On a coherent set `remove_cdc` returns the item that compares equal to the value, if there is
  -- one, with events that are numbered from the next id on, and leaves a coherent set of the other
  -- items.
  pub remove_cdc_refines :
      (cdc : List (ChangeEvent T)) × (shared' : Shared M T) × (remove_cdc shared value
        ≡ ok (find (against value) (items shared), cdc, shared'))
      × IsCoherent shared'
      × (items shared' ≡ erase (against value) (items shared))
      × IsNumbered shared.event_id cdc shared'.event_id
  remove_cdc_refines =
      elim (locate (against-Respects value) shared.cell (against-IsProbe value)
        (s.iter shared.index) coherent.indexed.keyed coherent.indexed.sorted) [
          | here before e after whole found below high above ↦
              let found' = o.lower_bound_lem shared.index _ ∙ found in
              removed_in_node before e after whole found' below above (
                view (against-IsProbe value) (shared.cell e.value)
                  (node-IsSorted before e after whole found' below above))
          | past missed below ↦
              unchanged (remove-unindexed shared value (o.lower_bound_lem shared.index _ ∙ missed))
                (ap (find p) (sym (append-nil (items shared)))
                  ∙ find-absent p (items shared) [] below tt)
                (ap (erase p) (sym (append-nil (items shared)))
                  ∙ (erase-absent p (items shared) [] below tt ∙ append-nil (items shared)))
        ]
