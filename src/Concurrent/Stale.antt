-- ===== src/Concurrent/Stale.antt =====
-- The second step of a call whose node has lost its place in the index in between.
use indexset.Base.{
  ℕ, suc, ◌≡◌, refl, ap, ◌∙◌, List, [], ◌∷◌, none, some, true, Ordering, lt, eq, gt, ok, arith,
  ◌++◌, append_assoc, inl, inr, sym,
}
use mathlib.Core.Path.{subst}
use indexset.Order.{Ord, IsProbe, ◌≺◌, against_item, against_item-IsProbe, borrow_self}
use indexset.Order.Sorted.{All, All-append_right, IsSorted}
use indexset.Order.Spec.{find, erase, put}
use indexset.Pair.{Pair, pair_ord}
use indexset.Node
use indexset.Cdc.{ChangeEvent}
use indexset.Concurrent.SkipMap.{SkipMap, Ordered, entry}
use indexset.Concurrent.Operation.{Shared, split, commit, commit_split}
use indexset.Concurrent.Set.{pending, target, put_begin, put_finish, put_cdc}
use indexset.Concurrent.Removal.{remove_cdc}
use indexset.Concurrent.Coherent.{items, IsCoherent}
use indexset.Concurrent.Coherent.Place.{ends_with, keys_lie, against_item-Respects}
use indexset.Concurrent.Coherent.Around
use indexset.Concurrent.Coherent.Around.{Target}
use indexset.Concurrent.Coherent.Put.{put_cdc_refines, find_target}
use indexset.Concurrent.Coherent.Removal.{remove_cdc_refines}

-- the probe of which all that matters is whether it meets an item
abbrev apart_of : Ordering → Ordering
apart_of c = elim c [ lt ↦ lt | eq ↦ eq | gt ↦ lt ]

abbrev apart {ℓ} : {T : Type ℓ} → (T → Ordering) → T → Ordering
apart p x = apart_of (p x)

module _ {ℓ} {T : Type ℓ} (p : T → Ordering) where
  erase-apart : (xs : List T) → All (λ x. apart p x ≡ lt) (erase p xs)
  erase-apart [] = tt
  erase-apart (x ∷ xs) = ground (arith, erase-apart xs)

  find-apart : (xs : List T) → All (λ x. apart p x ≡ lt) xs → find p xs ≡ none
  find-apart [] h = refl
  find-apart (x ∷ xs) h = ground (arith, find-apart xs h.1, h.0)

-- the one item of a sorted list that a probe meets
find-met {ℓ} :
    {T : Type ℓ} ⦃t : Ord T⦄ {p : T → Ordering} (probe : IsProbe p) (lo : List T) (x : T)
    (hi : List T)
    → IsSorted (lo ++ x ∷ hi)
    → p x ≡ eq
    → find p (lo ++ x ∷ hi) ≡ some x
find-met probe [] x hi sorted met = ground arith
find-met probe (a ∷ lo) x hi sorted met =
    let before : a ≺ x = (All-append_right _ lo (x ∷ hi) sorted.0).0 in
    ground (arith, find-met probe lo x hi sorted.1 met, probe.meets a x before)

module _ {ℓ} {M T : Type ℓ} ⦃t : Ord T⦄ ⦃s : SkipMap M T⦄ ⦃o : Ordered M T⦄ (shared : Shared M T)
    (value : T) (coherent : IsCoherent shared) where
  -- the greatest item of a node, which is the one that its key finds
  Greatest : Pair T ℕ → Type ℓ
  Greatest e =
      (x : T) × (Node.max (shared.cell e.value) ≡ some x)
      × (find (against_item e.key) (items shared) ≡ some x)

  Target-Greatest : (k : Target shared value) → Greatest k.e
  unfolding Greatest Node.max
  Target-Greatest k =
      let (x, at_end, same) = Around.top shared value coherent k in
      let (init, whole) = ends_with (shared.cell k.e.value) x at_end in
      let B = Around.B shared value coherent k in
      let A = Around.A shared value coherent k in
      let split : items shared ≡ (B ++ init) ++ x ∷ A =
        Around.around shared value coherent k
        ∙ (ap (λ l. B ++ (l ++ A)) whole
            ∙ (ap (λ l. B ++ l) (append_assoc init (x ∷ []) A)
                ∙ sym (append_assoc B init (x ∷ A)))) in
      (
        x,
        at_end,
        ap (find (against_item k.e.key)) split
            ∙ find-met (against_item-IsProbe k.e.key) (B ++ init) x A
                (rw (← split) coherent.indexed.sorted) same,
      )

  found-Greatest : (e : Pair T ℕ) → target shared.index value ≡ some e → Greatest e
  found-Greatest e found = elim (find_target shared value coherent) [
    | inl k ↦
        subst Greatest (ap (λ r. elim r [ none ↦ e | some e' ↦ e' ]) (sym k.found ∙ found))
          (Target-Greatest k)
    | inr (missed, empty) ↦ absurd (ground (arith, missed, found))
  ]

module _ {ℓ} {M T : Type ℓ} ⦃t : Ord T⦄ ⦃s : SkipMap M T⦄ ⦃o : Ordered M T⦄ where
  -- a key that no item compares equal to leads nowhere
  get-erased :
      (shared : Shared M T) (key : T) (xs : List T)
      → IsCoherent shared
      → items shared ≡ erase (against_item key) xs
      → s.get shared.index key ≡ none
  get-erased shared key xs coherent e =
      let q = against_item key in
      let none_meets : All (λ x. apart q x ≡ lt) (items shared) = rw e (erase-apart q xs) in
      let keys : All (λ e. apart q e.key ≡ lt) (s.iter shared.index) =
        keys_lie (λ a b h. ap apart_of (against_item-Respects key a b h)) shared.cell lt
          (s.iter shared.index) coherent.indexed.keyed none_meets in
      o.get_lem shared.index key
      ∙ find-apart (against_item (entry key 0)) (s.iter shared.index) keys

  module _ (fuel : ℕ) (shared : Shared M T) (value : T) (e : Pair T ℕ) where
    -- On a coherent set, let `put_cdc` find that the node for its value is full, and let another
    -- thread remove the greatest item of that node, whose key the split has remembered, before the
    -- node is split. The split then does nothing, and `put_cdc`, which starts again on the set that
    -- the removal has left, returns what compared equal to its value there. In the end the set is
    -- coherent, and its items are those of the removal and then the insertion.
    pub overtaken_split :
        IsCoherent shared
        → target shared.index value ≡ some e
        → Node.need_to_split (shared.cell e.value) shared.node_capacity value ≡ true
        → (max : T) × (cdc cdc' : List (ChangeEvent T)) × (between shared' : Shared M T) × (Node.max
              (shared.cell e.value)
            ≡ some max)
          × (put_begin shared value ≡ ok (pending (split e.value e.key value) [], shared))
          × (remove_cdc ⦃b = borrow_self {T = T}⦄ shared e.key ≡ ok (some max, cdc, between))
          × (put_finish between (split e.value e.key value) [] ≡ ok (none, between))
          × (put_cdc (suc fuel) between value
              ≡ ok (
                find (against_item value) (erase (against_item e.key) (items shared)),
                cdc',
                shared',
              ))
          × IsCoherent shared'
          × (items shared'
              ≡ put
                  (against_item value)
                  (λ _. value)
                  value
                  (erase (against_item e.key) (items shared)))
    unfolding put_begin put_finish commit Greatest
    overtaken_split coherent found full =
        let (max, had, there) = found-Greatest shared value coherent e found in
        let (cdc, between, removed, coherent', left, numbered) =
          remove_cdc_refines ⦃b = borrow_self {T = T}⦄ shared e.key coherent in
        let (cdc', shared', run, coherent'', items', numbered') =
          put_cdc_refines between value coherent' fuel in
        let lost = get-erased between e.key (items shared) coherent' left in
        (
          max,
          cdc,
          cdc',
          between,
          shared',
          had,
          rw (found, put_begin) (rw full refl),
          removed ∙ ap (λ r. ok (r, cdc, between)) there,
          rw (lost, put_finish, commit_split) refl,
          run ∙ ap (λ l. ok (find (against_item value) l, cdc', shared')) left,
          coherent'',
          items' ∙ ap (put (against_item value) (λ _. value) value) left,
        )
