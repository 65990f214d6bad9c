-- ===== src/Concurrent/Coherent/Nodes.antt =====
-- What a write to one node, with its entry, does to the items of all nodes.
use indexset.Base.{
  ℕ, suc, ◌<◌, ◌≡◌, refl, sym, ap, ◌∙◌, List, [], ◌∷◌, ◌++◌, false, append_assoc, append-nil, ◌==◌,
  arith, ==_refl,
}
use indexset.Order.{Ord}
use indexset.Order.Sorted.{All, All-append, All-append_left, All-append_right, All-imp, IsSorted}
use indexset.Pair.{Pair}
use indexset.Concurrent.SkipMap.{entry}
use indexset.Concurrent.Operation.{write}
use indexset.Concurrent.Coherent.{items_of, IsApart, IsDistinct, HasMax, IsIndexed}

IsApart-flip : (a b : ℕ) → (a == b) ≡ false → (b == a) ≡ false
IsApart-flip a b h = ground arith

module _ {ℓ} {T : Type ℓ} where
  pub items_of-append :
      (cell : ℕ → List T) (es es' : List (Pair T ℕ))
      → items_of cell (es ++ es') ≡ items_of cell es ++ items_of cell es'
  items_of-append cell [] es' = refl
  items_of-append cell (e ∷ es) es' =
      ap (λ l. cell e.value ++ l) (items_of-append cell es es')
      ∙ sym (append_assoc (cell e.value) (items_of cell es) (items_of cell es'))

  pub write_same : (cell : ℕ → List T) (a : ℕ) (node : List T) → write cell a node a ≡ node
  write_same cell a node = rw (==_refl a)

  pub items_of-write :
      (cell : ℕ → List T) (a : ℕ) (node : List T) (es : List (Pair T ℕ))
      → IsApart a es
      → items_of (write cell a node) es ≡ items_of cell es
  items_of-write cell a node [] h = refl
  items_of-write cell a node (e ∷ es) h = rw (h.0, items_of-write cell a node es h.1)

  IsDistinct-around :
      (before : List (Pair T ℕ)) (e : Pair T ℕ) (after : List (Pair T ℕ))
      → IsDistinct (before ++ e ∷ after)
      → IsApart e.value before × IsApart e.value after × IsDistinct (before ++ after)
  IsDistinct-around [] e after h = (tt, h.0, h.1)
  IsDistinct-around (b ∷ before) e after h =
      let r = IsDistinct-around before e after h.1 in
      let apart = All-append_right _ before (e ∷ after) h.0 in
      (
        (IsApart-flip e.value b.value apart.0, r.0),
        r.1,
        (All-append _ before after (All-append_left _ before (e ∷ after) h.0) apart.1, r.2),
      )

  IsDistinct-between :
      (before : List (Pair T ℕ)) (e : Pair T ℕ) (after : List (Pair T ℕ))
      → IsDistinct (before ++ after)
      → IsApart e.value before
      → IsApart e.value after
      → IsDistinct (before ++ e ∷ after)
  IsDistinct-between [] e after h k l = (l, h)
  IsDistinct-between (b ∷ before) e after h k l = (
    All-append _ before (e ∷ after) (All-append_left _ before after h.0)
        (IsApart-flip b.value e.value k.0, All-append_right _ before after h.0),
    IsDistinct-between before e after h.1 k.1 l,
  )

  All-between {κ} :
      (P : Pair T ℕ → Type κ) (before : List (Pair T ℕ)) (e : Pair T ℕ) (after : List (Pair T ℕ))
      → All P (before ++ after)
      → P e
      → All P (before ++ e ∷ after)
  All-between P before e after h k =
      All-append _ before (e ∷ after) (All-append_left _ before after h)
        (k, All-append_right _ before after h)

  pub All-without {κ} :
      (P : Pair T ℕ → Type κ) (before : List (Pair T ℕ)) (e : Pair T ℕ) (after : List (Pair T ℕ))
      → All P (before ++ e ∷ after)
      → All P (before ++ after)
  All-without P before e after h =
      All-append _ before after (All-append_left _ before (e ∷ after) h)
        (All-append_right _ before (e ∷ after) h).1

  IsApart-fresh : (next : ℕ) (es : List (Pair T ℕ)) → All (λ e. e.value < next) es → IsApart next es
  IsApart-fresh next es h = All-imp _ _ (λ e l. apart e.value next l) es h
    where
      apart : (a b : ℕ) → a < b → (a == b) ≡ false
      apart a b h = ground arith

module _ {ℓ} {T : Type ℓ} ⦃t : Ord T⦄ where
  HasMax-write :
      (cell : ℕ → List T) (a : ℕ) (node : List T) (es : List (Pair T ℕ))
      → IsApart a es
      → All (λ e. HasMax (cell e.value) e.key) es
      → All (λ e. HasMax (write cell a node e.value) e.key) es
  HasMax-write cell a node [] h k = tt
  HasMax-write cell a node (e ∷ es) h k =
      ((k.0.0, rw h.0 k.0.1, k.0.2), HasMax-write cell a node es h.1 k.1)

module _ {ℓ} {T : Type ℓ} ⦃t : Ord T⦄ {cell : ℕ → List T} {next : ℕ} (before : List (Pair T ℕ))
    (e : Pair T ℕ) (after : List (Pair T ℕ)) (h : IsIndexed cell next (before ++ e ∷ after)) where
  pub items_of-around :
      items_of cell (before ++ e ∷ after)
      ≡ items_of cell before ++ (cell e.value ++ items_of cell after)
  items_of-around = items_of-append cell before (e ∷ after)

  abbrev parts : IsApart e.value before × IsApart e.value after × IsDistinct (before ++ after)
  parts = IsDistinct-around before e after h.distinct

  IsApart-both : IsApart e.value (before ++ after)
  IsApart-both =
      let r = IsDistinct-around before e after h.distinct in All-append _ before after r.0 r.1

  -- the entry goes, whatever becomes of its node
  pub without :
      (node : List T)
      → IsSorted (items_of cell before ++ items_of cell after)
      → IsIndexed (write cell e.value node) next (before ++ after)
        × (items_of (write cell e.value node) (before ++ after)
            ≡ items_of cell before ++ items_of cell after)
  without node sorted =
      let same =
        items_of-write cell e.value node (before ++ after) IsApart-both
        ∙ items_of-append cell before after in
      (
        record {
          keyed =
              HasMax-write cell e.value node (before ++ after) IsApart-both
                (All-without _ before e after h.keyed);
          distinct = (IsDistinct-around before e after h.distinct).2;
          fresh = All-without _ before e after h.fresh;
          sorted = rw same sorted;
        },
        same,
      )

module _ {ℓ} {T : Type ℓ} ⦃t : Ord T⦄ (cell : ℕ → List T) (before : List (Pair T ℕ)) (a : ℕ)
    (after : List (Pair T ℕ)) (key : T) (node : List T) where
  items_of-placed :
      IsApart a before
      → IsApart a after
      → items_of (write cell a node) (before ++ entry key a ∷ after)
        ≡ items_of cell before ++ (node ++ items_of cell after)
  items_of-placed h k =
      items_of-append (write cell a node) before (entry key a ∷ after)
      ∙ rw (items_of-write cell a node before h, items_of-write cell a node after k, ==_refl a)

  -- a node with its entry, whose address no other entry has
  placed :
      (next' : ℕ)
      → All (λ e. HasMax (cell e.value) e.key) (before ++ after)
      → IsDistinct (before ++ after)
      → All (λ e. e.value < next') (before ++ after)
      → a < next'
      → IsApart a before
      → IsApart a after
      → HasMax node key
      → IsSorted (items_of cell before ++ (node ++ items_of cell after))
      → IsIndexed (write cell a node) next' (before ++ entry key a ∷ after)
  placed next' keyed distinct fresh below h k max sorted = record {
    keyed =
        All-between _ before (entry key a) after
          (HasMax-write cell a node (before ++ after) (All-append _ before after h k) keyed)
          (rw (==_refl a) max);
    distinct = IsDistinct-between before (entry key a) after distinct h k;
    fresh = All-between _ before (entry key a) after fresh below;
    sorted = rw (items_of-placed h k) sorted;
  }

module _ {ℓ} {T : Type ℓ} ⦃t : Ord T⦄ {cell : ℕ → List T} {next : ℕ} (before : List (Pair T ℕ))
    (e : Pair T ℕ) (after : List (Pair T ℕ)) (h : IsIndexed cell next (before ++ e ∷ after)) where
  -- another node in the place of one, under its own key
  pub rewritten :
      (key : T) (node : List T)
      → HasMax node key
      → IsSorted (items_of cell before ++ (node ++ items_of cell after))
      → IsIndexed (write cell e.value node) next (before ++ entry key e.value ∷ after)
        × (items_of (write cell e.value node) (before ++ entry key e.value ∷ after)
            ≡ items_of cell before ++ (node ++ items_of cell after))
  rewritten key node max sorted =
      let r = IsDistinct-around before e after h.distinct in
      (
        placed cell before e.value after key node next (All-without _ before e after h.keyed) r.2
            (All-without _ before e after h.fresh) (All-append_right _ before (e ∷ after) h.fresh).0
            r.0 r.1 max sorted,
        items_of-placed cell before e.value after key node r.0 r.1,
      )

  -- the items up to and behind the node
  pub items_of-upto :
      (key : T) (node : List T)
      → items_of (write cell e.value node) (before ++ entry key e.value ∷ [])
        ≡ items_of cell before ++ node
  items_of-upto key node =
      let r = IsDistinct-around before e after h.distinct in
      items_of-placed cell before e.value [] key node r.0 tt
      ∙ ap (λ l. items_of cell before ++ l) (append-nil node)

  pub items_of-behind :
      (node : List T) → items_of (write cell e.value node) after ≡ items_of cell after
  items_of-behind node =
      items_of-write cell e.value node after (IsDistinct-around before e after h.distinct).1

module _ {ℓ} {T : Type ℓ} ⦃t : Ord T⦄ {cell : ℕ → List T} {next : ℕ} (before : List (Pair T ℕ))
    (after : List (Pair T ℕ)) (h : IsIndexed cell next (before ++ after)) where
  -- a new node
  pub added :
      (key : T) (node : List T)
      → HasMax node key
      → IsSorted (items_of cell before ++ (node ++ items_of cell after))
      → IsIndexed (write cell next node) (suc next) (before ++ entry key next ∷ after)
        × (items_of (write cell next node) (before ++ entry key next ∷ after)
            ≡ items_of cell before ++ (node ++ items_of cell after))
  added key node max sorted =
      let low = IsApart-fresh next before (All-append_left _ before after h.fresh) in
      let high = IsApart-fresh next after (All-append_right _ before after h.fresh) in
      (
        placed cell before next after key node (suc next) h.keyed h.distinct
            (All-imp _ _ (λ e l. omega (arith, l)) (before ++ after) h.fresh) (omega arith) low high
            max sorted,
        items_of-placed cell before next after key node low high,
      )
