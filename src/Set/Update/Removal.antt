-- ===== src/Set/Update/Removal.antt =====
-- `delete` and `take` of src/lib.rs against the reference removal.
use indexset.Base.{
  ℕ, ◌≡◌, sym, ap, ◌∙◌, List, [], ◌∷◌, ◌++◌, Option, none, some, Bool, true, false, Ordering, eq,
  gt, is_eq, length, get_elem?, get_elem?-append_at, flatten, arith, Run, ok, ◌>>=◌, if◌then◌else◌,
}
use indexset.Base.Vec
use indexset.Order.{Ord, Borrow, against}
use indexset.Order.Spec.{find, erase, is_some}
use indexset.Order.Cuts.{find-absent, find-present, erase-absent, erase-present}
use indexset.Fenwick.{FenwickTree, Counts}
use indexset.Set.{BTreeSet}
use indexset.Set.Valid.{IsValid, items}
use indexset.Set.Spot.{Spot, vacant, occupied, flatten_around, locate_value-Spot}
use indexset.Set.Update.{delete_at, delete, take}
use indexset.Set.Update.Delete.{delete_at_lem}

module _ {ℓ} {T : Type ℓ} {I : Type 0} ⦃t : Ord T⦄ ⦃f : FenwickTree I⦄ ⦃c : Counts I⦄
    (s : BTreeSet I T) (valid : IsValid s) where
  -- The test and the removal at a place of a valid set.
  abbrev pub removal_at : (T → Ordering) → ℕ → ℕ → Run (Option T × Bool × BTreeSet I T)
  removal_at p i j = do
    node ← Vec.index s.inner i
    elim (get_elem? node j) [
      | none ↦ ok (none, false, s)
      | some candidate_value ↦
          if is_eq (p candidate_value)
          then (delete_at s i j >>= λ r. ok (some r.0, true, r.1))
          else ok (none, false, s)
    ]

  abbrev pub Removed : (T → Ordering) → Run (Option T × Bool × BTreeSet I T) → Type ℓ
  Removed p run =
      (s' : BTreeSet I T) × (run ≡ ok (find p (items s), is_some (find p (items s)), s'))
      × IsValid s'
      × (items s' ≡ erase p (items s))

  removal_at-none :
      (p : T → Ordering) (i j : ℕ) (node : List T)
      → Vec.index s.inner i ≡ ok node
      → get_elem? node j ≡ none
      → removal_at p i j ≡ ok (none, false, s)
  removal_at-none p i j node e r = ground arith

  removal_at-greater :
      (p : T → Ordering) (i j : ℕ) (node : List T) (x : T)
      → Vec.index s.inner i ≡ ok node
      → get_elem? node j ≡ some x
      → p x ≡ gt
      → removal_at p i j ≡ ok (none, false, s)
  removal_at-greater p i j node x e r g = ground arith

  removal_at-equal :
      (p : T → Ordering) (i j : ℕ) (node : List T) (x : T) (s' : BTreeSet I T)
      → Vec.index s.inner i ≡ ok node
      → get_elem? node j ≡ some x
      → p x ≡ eq
      → delete_at s i j ≡ ok (x, s')
      → removal_at p i j ≡ ok (some x, true, s')
  removal_at-equal p i j node x s' e r g d = ground arith

  pub index_at :
      (before : List (List T)) (node : List T) (after : List (List T)) (i : ℕ)
      → s.inner ≡ before ++ node ∷ after
      → i ≡ length before
      → Vec.index s.inner i ≡ ok node
  index_at before node after i e ei =
      ap (λ l. Vec.index l i) e ∙ rw ei (Vec.index_lem before node after)

  get_at : (lo hi : List T) (j : ℕ) → j ≡ length lo → get_elem? (lo ++ hi) j ≡ get_elem? hi 0
  get_at lo hi j e = rw e (get_elem?-append_at lo hi)

  pub removal_at-Removed :
      (p : T → Ordering) (i j : ℕ) → Spot p s.inner i j → Removed p (removal_at p i j)
  removal_at-Removed p i j (vacant before lo [] after e ei ej b bl ab a tight) =
      let whole = ap flatten e ∙ flatten_around before lo [] after in
      let missed = ap (find p) whole ∙ find-absent p (flatten before ++ lo) (flatten after) b a in
      (
        s,
        rw missed (
            removal_at-none p i j (lo ++ []) (index_at before (lo ++ []) after i e ei)
              (get_at lo [] j ej)),
        valid,
        whole
            ∙ (sym (erase-absent p (flatten before ++ lo) (flatten after) b a)
                ∙ ap (erase p) (sym whole)),
      )
  removal_at-Removed p i j (vacant before lo (x ∷ hi) after e ei ej b bl ab a tight) =
      let whole = ap flatten e ∙ flatten_around before lo (x ∷ hi) after in
      let missed =
        ap (find p) whole ∙ find-absent p (flatten before ++ lo) ((x ∷ hi) ++ flatten after) b a in
      (
        s,
        rw missed (
            removal_at-greater p i j (lo ++ x ∷ hi) x (index_at before (lo ++ x ∷ hi) after i e ei)
              (get_at lo (x ∷ hi) j ej) ab.0),
        valid,
        whole
            ∙ (sym (erase-absent p (flatten before ++ lo) ((x ∷ hi) ++ flatten after) b a)
                ∙ ap (erase p) (sym whole)),
      )
  removal_at-Removed p i j (occupied before lo x hi after e ei ej b bl m ab a) =
      let whole = ap flatten e ∙ flatten_around before lo (x ∷ hi) after in
      let hit =
        ap (find p) whole ∙ find-present p (flatten before ++ lo) (hi ++ flatten after) b a x m in
      let (s', deleted, valid', items') = delete_at_lem s valid before lo x hi after e in
      (
        s',
        rw hit (
            removal_at-equal p i j (lo ++ x ∷ hi) x s' (index_at before (lo ++ x ∷ hi) after i e ei)
              (get_at lo (x ∷ hi) j ej) m (rw (ei, ej) deleted)),
        valid',
        items'
            ∙ (sym (erase-present p (flatten before ++ lo) (hi ++ flatten after) b a x m)
                ∙ ap (erase p) (sym whole)),
      )

  -- On a valid set `delete` returns the item that compares equal, whether there is one, and a valid
  -- set of the other items.
  pub delete_refines {κ} :
      {Q : Type κ} ⦃q : Ord Q⦄ ⦃b : Borrow T Q⦄ (value : Q)
      → (s' : BTreeSet I T) × (delete s value
          ≡ ok (find (against value) (items s), is_some (find (against value) (items s)), s'))
        × IsValid s'
        × (items s' ≡ erase (against value) (items s))
  unfolding delete
  delete_refines value =
      let (i, j, located, first, spot) = locate_value-Spot s valid.nodes valid.sorted value in
      rw located (removal_at-Removed (against value) i j spot)

  -- On a valid set `take` returns the item that compares equal, if there is one, and a valid set of
  -- the other items.
  pub take_refines {κ} :
      {Q : Type κ} ⦃q : Ord Q⦄ ⦃b : Borrow T Q⦄ (value : Q)
      → (s' : BTreeSet I T) × (take s value ≡ ok (find (against value) (items s), s'))
        × IsValid s'
        × (items s' ≡ erase (against value) (items s))
  unfolding take
  take_refines value = let (s', e, v, i) = delete_refines value in (s', rw e, v, i)
