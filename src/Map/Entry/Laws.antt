-- ===== src/Map/Entry/Laws.antt =====
-- `BTreeMap::entry` and `Entry::or_insert` of src/lib.rs against the reference list of entries.
use indexset.Base.{
  ℕ, ◌≡◌, sym, ap, ◌∙◌, ◌∷◌, ◌++◌, Option, none, some, true, false, length, get_elem?,
  get_elem?-append_at, Run, ok, ◌>>=◌,
}
use indexset.Order.{Ord, borrow_self, against_item, against_item-IsProbe}
use indexset.Order.Spec
use indexset.Order.Spec.{find, count_below, is_some, put}
use indexset.Order.View.{absent, present, view}
use indexset.Order.Cuts.{
  count_below-absent, find-absent, insert_spec-absent, count_below-present, find-present,
  insert_spec-present,
}
use indexset.Order.Puts.{put-absent}
use indexset.Fenwick.{FenwickTree, Counts}
use indexset.Pair.{Pair, pair_ord}
use indexset.Set.Valid.{IsValid}
use indexset.Set.Query.{rank_cmp}
use indexset.Set.Query.Position.{get_index_refines, rank_cmp_refines}
use indexset.Map
use indexset.Map.{BTreeMap, key_below}
use indexset.Map.Refines.{entries, contains_key_refines}
use indexset.Map.Insertion.{insert_key_refines}
use indexset.Map.Entry.{vacant, occupied, entry, into_mut, insert_vacant, or_insert}

abbrev pub pair {ℓ κ} : {K : Type ℓ} {V : Type κ} → K → V → Pair K V
pair key value = record { key = key; value = value }

module _ {ℓ κ} {K : Type ℓ} {V : Type κ} {I : Type 0} ⦃k : Ord K⦄ ⦃f : FenwickTree I⦄
    ⦃c : Counts I⦄ where
  map_get_index :
      (m : BTreeMap I K V) → IsValid m.set → (i : ℕ) → Map.get_index m i ≡ get_elem? (entries m) i
  unfolding Map.get_index
  map_get_index m valid i = get_index_refines m.set valid i

  entry-occupied :
      (m : BTreeMap I K V) (key : K) (idx : ℕ)
      → Map.contains_key ⦃b = borrow_self {T = K}⦄ m key ≡ ok true
      → rank_cmp m.set (key_below ⦃b = borrow_self {T = K}⦄ key) ≡ ok idx
      → entry m key ≡ ok (occupied (record { map = m; idx = idx }))
  unfolding entry
  entry-occupied m key idx e r = rw e (rw r)

  entry-vacant :
      (m : BTreeMap I K V) (key : K)
      → Map.contains_key ⦃b = borrow_self {T = K}⦄ m key ≡ ok false
      → entry m key ≡ ok (vacant (record { map = m; key = key }))
  unfolding entry
  entry-vacant m key e = rw e

  insert_vacant-inserted :
      (m m' : BTreeMap I K V) (key : K) (value : V) (idx : ℕ) (r : Option V) (item : Pair K V)
      → rank_cmp m.set (key_below ⦃b = borrow_self {T = K}⦄ key) ≡ ok idx
      → Map.insert m key value ≡ ok (r, m')
      → Map.get_index m' idx ≡ some item
      → insert_vacant (record { map = m; key = key }) value ≡ ok (m', idx)
  unfolding insert_vacant
  insert_vacant-inserted m m' key value idx r item e d g = rw e (rw d (rw g))

  into_mut-there :
      (m : BTreeMap I K V) (idx : ℕ) (item : Pair K V)
      → Map.get_index m idx ≡ some item
      → into_mut (record { map = m; idx = idx }) ≡ ok (m, idx)
  unfolding into_mut
  into_mut-there m idx item e = rw e

  abbrev entry_or_insert : BTreeMap I K V → K → V → Run (BTreeMap I K V × ℕ)
  entry_or_insert m key default = entry m key >>= λ e. or_insert e default

  or_insert-occupied :
      (m : BTreeMap I K V) (key : K) (default : V) (idx : ℕ)
      → entry m key ≡ ok (occupied (record { map = m; idx = idx }))
      → into_mut (record { map = m; idx = idx }) ≡ ok (m, idx)
      → entry_or_insert m key default ≡ ok (m, idx)
  unfolding or_insert
  or_insert-occupied m key default idx e d = rw e d

  or_insert-vacant :
      (m m' : BTreeMap I K V) (key : K) (default : V) (idx : ℕ)
      → entry m key ≡ ok (vacant (record { map = m; key = key }))
      → insert_vacant (record { map = m; key = key }) default ≡ ok (m', idx)
      → entry_or_insert m key default ≡ ok (m', idx)
  unfolding or_insert
  or_insert-vacant m m' key default idx e d = rw e d

  -- On a valid map `entry(key).or_insert(default)` returns, and leaves a valid map in which `default`
  -- is inserted if the key was missing; the reference that it returns is to the entry of the key.
  pub or_insert_refines :
      (m : BTreeMap I K V) (key : K) (default : V)
      → IsValid m.set
      → (m' : BTreeMap I K V) × (idx : ℕ) × ((entry m key >>= λ e. or_insert e default)
          ≡ ok (m', idx))
        × IsValid m'.set
        × (entries m'
            ≡ Spec.insert (against_item (pair key default)) (pair key default) (entries m))
        × (get_elem? (entries m') idx ≡ find (against_item (pair key default)) (entries m'))
  or_insert_refines m key default valid =
      let v = pair key default in
      let p = against_item v in
      let contains = contains_key_refines m valid ⦃b = borrow_self {T = K}⦄ key in
      let ranked = rank_cmp_refines m.set valid {p = p} (against_item-IsProbe v) in
      elim (view (against_item-IsProbe v) (entries m) valid.sorted) [
        | present lo x hi e below here above ↦
            let at_idx : get_elem? (entries m) (length lo) ≡ some x =
              ap (λ l. get_elem? l (length lo)) e ∙ get_elem?-append_at lo (x ∷ hi) in
            let found : find p (entries m) ≡ some x =
              ap (find p) e ∙ find-present p lo hi below above x here in
            let count : count_below p (entries m) ≡ length lo =
              ap (count_below p) e ∙ count_below-present p lo hi below above x here in
            (
              m,
              length lo,
              or_insert-occupied m key default (length lo)
                  (entry-occupied m key (length lo) (contains ∙ ap (λ o. ok (is_some o)) found)
                    (ranked ∙ ap ok count))
                  (into_mut-there m (length lo) x (map_get_index m valid (length lo) ∙ at_idx)),
              valid,
              e ∙ sym (ap (Spec.insert p v) e ∙ insert_spec-present p lo hi below above x here v),
              at_idx ∙ sym found,
            )
        | absent lo hi e below above ↦
            let missed : find p (entries m) ≡ none =
              ap (find p) e ∙ find-absent p lo hi below above in
            let count : count_below p (entries m) ≡ length lo =
              ap (count_below p) e ∙ count_below-absent p lo hi below above in
            let (m', inserted, valid', entries') = insert_key_refines m valid key default in
            let listed : entries m' ≡ lo ++ v ∷ hi =
              entries'
              ∙ (ap (put p (λ item. record item { value = default }) v) e
                  ∙ put-absent p (λ item. record item { value = default }) v lo hi below above) in
            let at_idx : get_elem? (entries m') (length lo) ≡ some v =
              ap (λ l. get_elem? l (length lo)) listed ∙ get_elem?-append_at lo (v ∷ hi) in
            (
              m',
              length lo,
              or_insert-vacant m m' key default (length lo)
                  (entry-vacant m key (contains ∙ ap (λ o. ok (is_some o)) missed))
                  (insert_vacant-inserted m m' key default (length lo) _ v (ranked ∙ ap ok count)
                    inserted (map_get_index m' valid' (length lo) ∙ at_idx)),
              valid',
              listed ∙ sym (ap (Spec.insert p v) e ∙ insert_spec-absent p lo hi below above v),
              at_idx
                  ∙ sym (ap (find p) listed ∙ find-present p lo hi below above v (k.cmp_refl key)),
            )
      ]
