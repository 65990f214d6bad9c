-- ===== src/Concurrent/Coherent/Place.antt =====
-- Where the index of a concurrent set leads, and what a change of one entry makes of it.
use indexset.Base.{
  reverse_ordering, ℕ, ◌≡◌, refl, sym, ap, ◌∙◌, List, [], ◌∷◌, ◌++◌, none, some, true, false,
  Ordering, lt, eq, gt, is_lt, get_last?, inl, inr, Bool-cases, arith,
}
use indexset.Order.{Ord, Borrow, against, against_item, IsProbe}
use indexset.Order.Sorted.{
  All-imp, IsSorted-Precedes, All, All-append, All-append_left, All-append_right, IsSorted,
  IsSorted-append_left, IsSorted-append_right,
}
use indexset.Order.View.{Below, Above}
use indexset.Order.Cuts.{find-present, erase-present}
use indexset.Order.Puts.{put-absent}
use indexset.Pair.{Pair, pair_ord}
use indexset.Set.Locate.Cut.{Below-of_last, Above-behind, lt_of_is_lt}
use indexset.Concurrent.SkipMap.{SkipMap, Ordered, first_not, entry}
use indexset.Concurrent.Coherent.{items_of, HasMax, IsIndexed}
use indexset.Concurrent.Coherent.Nodes.{items_of-append}

pub All-last {ℓ κ} :
    {A : Type ℓ} (P : A → Type κ) (xs : List A) (x : A) → All P xs → get_last? xs ≡ some x → P x
All-last P [] x h e = absurd (ground (arith, e))
All-last P (y ∷ []) x h e = ground (arith, e, h.0)
All-last P (y ∷ z ∷ xs) x h e = All-last P (z ∷ xs) x h.1 e

pub ends_with {ℓ} :
    {A : Type ℓ} (xs : List A) (x : A)
    → get_last? xs ≡ some x
    → (init : List A) × (xs ≡ init ++ x ∷ [])
ends_with [] x h = absurd (ground (arith, h))
ends_with (y ∷ []) x h = ([], ground (arith, h))
ends_with (y ∷ z ∷ xs) x h = let r = ends_with (z ∷ xs) x h in (y ∷ r.0, ap (λ l. y ∷ l) r.1)

-- items that compare equal lie alike
abbrev pub Respects {ℓ} : {T : Type ℓ} ⦃t : Ord T⦄ → (T → Ordering) → Type ℓ
Respects {T} ⦃t⦄ p = (a b : T) → t.cmp a b ≡ eq → p a ≡ p b

pub against-Respects {ℓ κ} :
    {T : Type ℓ} {Q : Type κ} ⦃t : Ord T⦄ ⦃q : Ord Q⦄ ⦃b : Borrow T Q⦄ (value : Q)
    → Respects {T = T} (against value)
against-Respects ⦃q⦄ ⦃b⦄ value x y h =
    q.cmp_congr (b.borrow x) (b.borrow y) value (b.borrow_cmp x y ∙ h)

pub against_item-Respects {ℓ} :
    {T : Type ℓ} ⦃t : Ord T⦄ (value : T) → Respects {T = T} (against_item value)
against_item-Respects ⦃t⦄ value x y h = t.cmp_congr x y value h

module _ {ℓ} {T : Type ℓ} ⦃t : Ord T⦄ {p : T → Ordering} (respects : Respects p)
    (cell : ℕ → List T) where
  -- the keys lie where the items of their nodes do
  pub keys_lie :
      (o : Ordering) (es : List (Pair T ℕ))
      → All (λ e. HasMax (cell e.value) e.key) es
      → All (λ x. p x ≡ o) (items_of cell es)
      → All (λ e. p e.key ≡ o) es
  keys_lie o [] h k = tt
  keys_lie o (e ∷ es) ((x, at_end, same), h) k = (
    sym (respects x e.key same)
        ∙ All-last (λ x. p x ≡ o) (cell e.value) x (All-append_left _ (cell e.value) _ k) at_end,
    keys_lie o es h (All-append_right _ (cell e.value) _ k),
  )

  -- the entry that a search by `lower_bound` finds
  pub data Located (es : List (Pair T ℕ)) : Type ℓ where
    here :
        (before : List (Pair T ℕ)) (e : Pair T ℕ) (after : List (Pair T ℕ))
        → es ≡ before ++ e ∷ after
        → first_not (λ key. is_lt (p key)) es ≡ some e
        → Below p (items_of cell before)
        → is_lt (p e.key) ≡ false
        → Above p (items_of cell after)
        → Located es
    past : first_not (λ key. is_lt (p key)) es ≡ none → Below p (items_of cell es) → Located es

  Located-later :
      (e : Pair T ℕ) (es : List (Pair T ℕ))
      → is_lt (p e.key) ≡ true
      → Below p (cell e.value)
      → Located es
      → Located (e ∷ es)
  Located-later e es l b (here before e' after whole found below high above) =
      here (e ∷ before) e' after (ap (λ l. e ∷ l) whole) (rw (l, first_not) found)
        (All-append _ (cell e.value) (items_of cell before) b below) high above
  Located-later e es l b (past missed below) =
      past (rw (l, first_not) missed) (All-append _ (cell e.value) (items_of cell es) b below)

  module _ (probe : IsProbe p) where
    pub locate :
        (es : List (Pair T ℕ))
        → All (λ e. HasMax (cell e.value) e.key) es
        → IsSorted (items_of cell es)
        → Located es
    locate [] h k = past refl tt
    locate (e ∷ es) ((x, at_end, same), h) k =
        let (init, whole) = ends_with (cell e.value) x at_end in
        let sorted : IsSorted ((init ++ x ∷ []) ++ items_of cell es) = rw (← whole) k in
        elim (Bool-cases (is_lt (p e.key))) [
          | inl low ↦
              Located-later e es low
                (rw whole (
                  Below-of_last probe init x (IsSorted-append_left _ _ sorted)
                    (respects x e.key same ∙ lt_of_is_lt (p e.key) low)))
                (locate es h (IsSorted-append_right (cell e.value) (items_of cell es) k))
          | inr high ↦ here [] e es refl (rw (high, first_not)) tt high (
              Above-behind probe init x (items_of cell es) sorted
                (ap is_lt (respects x e.key same) ∙ high))
        ]

module _ {ℓ} {M T : Type ℓ} ⦃t : Ord T⦄ ⦃s : SkipMap M T⦄ ⦃o : Ordered M T⦄ (index : M) (key : T)
    (before after : List (Pair T ℕ)) (below : All (λ e. t.cmp e.key key ≡ lt) before)
    (above : All (λ e. t.cmp e.key key ≡ gt) after) where
  module _ (e : Pair T ℕ) (whole : s.iter index ≡ before ++ e ∷ after)
      (same : t.cmp e.key key ≡ eq) where
    pub get-present : s.get index key ≡ some e
    get-present =
        o.get_lem index key
        ∙ rw whole (find-present (against_item (entry key 0)) before after below above e same)

    pub remove-present : s.iter (s.remove index key) ≡ before ++ after
    remove-present =
        o.iter-remove index key
        ∙ rw whole (erase-present (against_item (entry key 0)) before after below above e same)

  pub insert-absent :
      (node : ℕ)
      → s.iter index ≡ before ++ after
      → s.iter (s.insert index key node) ≡ before ++ entry key node ∷ after
  insert-absent node whole =
      o.iter-insert index key node
      ∙ rw whole (
          put-absent (against_item (entry key node)) (λ _. entry key node) (entry key node) before
            after below above)

-- where the entries before and after a node lie to an item of it
module _ {ℓ} {T : Type ℓ} ⦃t : Ord T⦄ {cell : ℕ → List T} {next : ℕ} (before : List (Pair T ℕ))
    (e : Pair T ℕ) (after : List (Pair T ℕ)) (h : IsIndexed cell next (before ++ e ∷ after))
    (mid : List T) (y : T) (rest : List T) (node : cell e.value ≡ mid ++ y ∷ rest) where
  IsSorted-around : IsSorted (items_of cell before ++ ((mid ++ y ∷ rest) ++ items_of cell after))
  IsSorted-around = rw (← node) (rw (← items_of-append cell before (e ∷ after)) h.sorted)

  pub keys-before : All (λ b. t.cmp b.key y ≡ lt) before
  keys-before =
      keys_lie (against_item-Respects y) cell lt before
        (All-append_left _ before (e ∷ after) h.keyed)
        (All-imp _ _
          (λ x k. (All-append_right _ mid (y ∷ rest) (All-append_left _ (mid ++ y ∷ rest) _ k)).0)
          (items_of cell before) (IsSorted-Precedes (items_of cell before) _ IsSorted-around))

  pub keys-after : All (λ b. t.cmp b.key y ≡ gt) after
  keys-after =
      let behind =
        IsSorted-Precedes (mid ++ y ∷ rest) (items_of cell after)
          (IsSorted-append_right (items_of cell before) _ IsSorted-around) in
      keys_lie (against_item-Respects y) cell gt after
        (All-append_right _ before (e ∷ after) h.keyed).1
        (All-imp _ _ (λ x k. t.cmp_reverse y x ∙ ap reverse_ordering k) (items_of cell after)
          (All-append_right _ mid (y ∷ rest) behind).0)
