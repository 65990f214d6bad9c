-- ===== src/Concurrent/Coherent/Room.antt =====
-- What a value that is put into its node makes of the items of a coherent set.
use indexset.Base.{
  ℕ, suc, ◌≡◌, refl, sym, ap, ◌∙◌, List, [], ◌∷◌, ◌++◌, some, false, Ordering, lt, eq, get_last?,
  get_last?-append, length, append-nil, reverse_ordering, arith,
}
use indexset.Order.{Ord, against_item, against_item-IsProbe}
use indexset.Order.Spec.{find}
use indexset.Order.View.{Below, Above, absent, present, view}
use indexset.Order.Cuts.{find-absent, find-present}
use indexset.Order.Puts.{put-absent, put-present}
use indexset.Node
use indexset.Node.Insert.{insert-absent, insert-present}
use indexset.Concurrent.SkipMap.{SkipMap, Ordered}
use indexset.Concurrent.Operation.{Shared}
use indexset.Concurrent.Set.{put_cdc}
use indexset.Concurrent.Coherent.{IsCoherent}
use indexset.Concurrent.Coherent.Nodes.{rewritten}
use indexset.Concurrent.Coherent.Place.{All-last}
use indexset.Concurrent.Coherent.Max.{
  HasMax-replaced, replace_lem, replacement-ok, HasMax-replaced, replace_lem, replacement-ok,
}
use indexset.Concurrent.Coherent.Change.{node-replaced, entry-got, node-replaced, entry-got}
use indexset.Concurrent.Coherent.PutSteps.{put-refused, put-inner, put-greatest}
use indexset.Concurrent.Coherent.Around.{
  IsPut, Target, putting, indexed, node-IsSorted, top, leaves, IsSorted-as, assign_ids-IsNumbered,
}
use indexset.Base.{length-append, get_last?-append, append-nil, reverse_ordering, arith}
use indexset.Order.View.{view, absent, present}
use indexset.Order.{against_item-IsProbe}

module _ {ℓ} {M T : Type ℓ} ⦃t : Ord T⦄ ⦃s : SkipMap M T⦄ ⦃o : Ordered M T⦄ (shared : Shared M T)
    (value : T) (fuel : ℕ) (coherent : IsCoherent shared) (k : Target shared value)
    (room : Node.need_to_split (shared.cell k.e.value) shared.node_capacity value ≡ false) where
  abbrev p : T → Ordering
  p = against_item value

  abbrev node : List T
  node = shared.cell k.e.value

  fresh_inner :
      (lo : List T) (h : T) (hi : List T)
      → node ≡ lo ++ h ∷ hi
      → Below p lo
      → Above p (h ∷ hi)
      → IsPut shared value (put_cdc (suc fuel) shared value)
  unfolding Node.max
  fresh_inner lo h hi split low high =
      let new = lo ++ value ∷ h ∷ hi in
      let made : putting value node ≡ new =
        rw split (put-absent p (λ _. value) value lo (h ∷ hi) low high) in
      let ends : get_last? (lo ++ h ∷ hi) ≡ some (top shared value coherent k).0 =
        rw (← split) (top shared value coherent k).1 in
      let has : get_last? new ≡ some (top shared value coherent k).0 =
        get_last?-append lo value (h ∷ hi) ∙ (sym (get_last?-append lo h hi) ∙ ends) in
      leaves shared value coherent k fuel new
        (ap (find p) split ∙ find-absent p lo (h ∷ hi) low high)
        (put-inner shared value fuel k.e k.found room (length lo) new
          (top shared value coherent k).0 (top shared value coherent k).1
          (rw split (insert-absent value lo (h ∷ hi) low high)) (top shared value coherent k).0 has
          (t.cmp_refl (top shared value coherent k).0))
        refl (refl, refl) made
        (rw k.whole (
          rewritten k.before k.e k.after (indexed shared value coherent k) k.e.key new
            ((top shared value coherent k).0, has, (top shared value coherent k).2)
            (IsSorted-as shared value coherent k new made)))

  fresh_greatest :
      (lo : List T)
      → node ≡ lo ++ []
      → Below p lo
      → IsPut shared value (put_cdc (suc fuel) shared value)
  unfolding Node.max
  fresh_greatest lo split low =
      let new = lo ++ value ∷ [] in
      let made : putting value node ≡ new =
        rw split (put-absent p (λ _. value) value lo [] low tt) in
      let less : p (top shared value coherent k).0 ≡ lt =
        All-last (λ x. p x ≡ lt) (lo ++ []) (top shared value coherent k).0 (rw (append-nil lo) low)
          (rw split at (top shared value coherent k).1) in
      let has = get_last?-append lo value [] in
      let same =
        t.cmp_reverse (top shared value coherent k).0 k.e.key
        ∙ ap reverse_ordering (top shared value coherent k).2 in
      leaves shared value coherent k fuel new (ap (find p) split ∙ find-absent p lo [] low tt)
        (put-greatest shared value fuel k.e k.found room (length lo) new
          (top shared value coherent k).0 (top shared value coherent k).1
          (rw split (insert-absent value lo [] low tt)) value has
          (t.cmp_reverse (top shared value coherent k).0 value ∙ ap reverse_ordering less)
          (entry-got shared.index k.before k.e k.after (indexed shared value coherent k) k.whole
            (top shared value coherent k).0 same))
        refl (refl, refl) made
        (node-replaced shared.index k.before k.e k.after (indexed shared value coherent k) k.whole
          (top shared value coherent k).0 same new value (value, has, t.cmp_refl value)
          (IsSorted-as shared value coherent k new made))

  replaced :
      (lo : List T) (x : T) (hi : List T)
      → node ≡ lo ++ x ∷ hi
      → Below p lo
      → p x ≡ eq
      → Above p hi
      → IsPut shared value (put_cdc (suc fuel) shared value)
  unfolding Node.max
  replaced lo x hi split low meets high =
      let new = lo ++ value ∷ hi in
      let made : putting value node ≡ new =
        rw split (put-present p (λ _. value) value lo x hi low meets) in
      let (events, there) =
        replacement-ok node (length lo) (top shared value coherent k).0 value
          (rw split (omega (arith, length-append lo (x ∷ hi)))) in
      leaves shared value coherent k fuel new
        (ap (find p) split ∙ find-present p lo hi low high x meets)
        (put-refused shared value fuel k.e k.found room (length lo) (lo ++ x ∷ hi)
          (top shared value coherent k).0 (top shared value coherent k).1 events (some x) new
          (rw split (insert-present value lo hi low high x meets)) there
          (rw split (replace_lem lo x hi value)))
        refl (assign_ids-IsNumbered events shared.event_id) made
        (rw k.whole (
          rewritten k.before k.e k.after (indexed shared value coherent k) k.e.key new
            (HasMax-replaced value lo x hi k.e.key meets
              (rw (← split) (top shared value coherent k)))
            (IsSorted-as shared value coherent k new made)))

  pub put_with_room : IsPut shared value (put_cdc (suc fuel) shared value)
  put_with_room =
      elim (view (against_item-IsProbe value) node (node-IsSorted shared value coherent k)) [
        | absent lo [] split low high ↦ fresh_greatest lo split low
        | absent lo (h ∷ hi) split low high ↦ fresh_inner lo h hi split low high
        | present lo x hi split low meets high ↦ replaced lo x hi split low meets high
      ]
