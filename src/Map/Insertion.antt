-- ===== src/Map/Insertion.antt =====
-- `BTreeMap::insert` of src/lib.rs: the new entry, or the new value of an entry that is there.
use indexset.Base.{
  ℕ, ◌≡◌, refl, sym, ap, ◌∙◌, List, [], ◌∷◌, ◌++◌, none, some, Bool, Ordering, eq, gt, is_lt, is_eq,
  flatten, length, get_elem?, get_elem?-append_at, arith, ok,
}
use mathlib.Core.Option
use indexset.Order.{Ord, against_item, against_item-IsProbe}
use indexset.Order.Sorted.{All-append_left, All-append_right}
use indexset.Order.Spec
use indexset.Order.Spec.{find, put}
use indexset.Order.Cuts.{find-absent, find-present, insert_spec-absent}
use indexset.Order.Puts.{put-absent, put-present}
use indexset.Order.View.{Below, Above}
use indexset.Fenwick.{FenwickTree, Counts}
use indexset.Pair.{Pair, pair_ord}
use indexset.Set.{BTreeSet, exist, empty}
use indexset.Set.Locate.{locate_value_cmp}
use indexset.Set.Locate.Cut.{Cut}
use indexset.Set.Query.{item_at, find_cmp}
use indexset.Set.Query.Lookup.{item_at-before}
use indexset.Set.Valid.{IsValid}
use indexset.Set.Spot.{Spot, vacant, occupied, flatten_around, locate_value_cmp-Spot}
use indexset.Set.Update.{change_at, insert_at}
use indexset.Set.Update.Change.{change_at_lem}
use indexset.Set.Update.Insert.{fresh, Inserted-IsValid}
use indexset.Set.Update.Insertion.{insert_at_lem}
use indexset.Map.{BTreeMap, insert}
use indexset.Map.Refines.{entries}

module _ {ℓ} {T : Type ℓ} {I : Type 0} (s : BTreeSet I T) (p : T → Ordering) (i j : ℕ)
    (located : locate_value_cmp s (λ x. is_lt (p x)) ≡ ok (i, j)) where
  pub find_cmp-none :
      item_at s (i, j) ≡ none → find_cmp s (λ x. is_lt (p x)) (λ x. is_eq (p x)) ≡ ok (empty i)
  unfolding find_cmp
  find_cmp-none e = ground arith

  pub find_cmp-greater :
      (x : T)
      → item_at s (i, j) ≡ some x
      → p x ≡ gt
      → find_cmp s (λ x. is_lt (p x)) (λ x. is_eq (p x)) ≡ ok (empty i)
  unfolding find_cmp
  find_cmp-greater x e g = ground arith

  pub find_cmp-equal :
      (x : T)
      → item_at s (i, j) ≡ some x
      → p x ≡ eq
      → find_cmp s (λ x. is_lt (p x)) (λ x. is_eq (p x)) ≡ ok (exist i j)
  unfolding find_cmp
  find_cmp-equal x e g = ground arith

item_at_place {ℓ} :
    {T : Type ℓ} {I : Type 0} (s : BTreeSet I T) (before : List (List T)) (lo hi : List T)
    (after : List (List T)) (i j : ℕ)
    → s.inner ≡ before ++ (lo ++ hi) ∷ after
    → i ≡ length before
    → j ≡ length lo
    → item_at s (i, j) ≡ get_elem? hi 0
item_at_place s before lo hi after i j e ei ej =
    ap (λ x. item_at s (x, j)) ei
    ∙ (ap (λ y. item_at s (length before, y)) ej
        ∙ (item_at-before s before (lo ++ hi) after (length lo) e ∙ get_elem?-append_at lo hi))

module _ {ℓ κ} {K : Type ℓ} {V : Type κ} {I : Type 0} ⦃k : Ord K⦄ ⦃f : FenwickTree I⦄ ⦃c : Counts I⦄
    (m : BTreeMap I K V) (valid : IsValid m.set) (key : K) (value : V) where
  abbrev entry : Pair K V
  entry = record { key = key; value = value }

  abbrev written : Pair K V → Pair K V
  written item = record item { value = value }

  abbrev Put : Type (ℓ ⊔ κ)
  Put =
      (m' : BTreeMap I K V) × (insert m key value
        ≡ ok (Option.map (λ item. item.value) (find (against_item entry) (entries m)), m'))
      × IsValid m'.set
      × (entries m' ≡ put (against_item entry) written entry (entries m))

  -- the two outcomes of the search for the key
  insert-exist :
      (i j : ℕ) (x : Pair K V) (s' : BTreeSet I (Pair K V))
      → find_cmp m.set (λ x. is_lt (against_item entry x)) (λ x. is_eq (against_item entry x))
        ≡ ok (exist i j)
      → change_at m.set i j written ≡ ok (x, s')
      → insert m key value ≡ ok (some x.value, record { set = s' })
  unfolding insert
  insert-exist i j x s' e d = rw e (rw d)

  insert-empty :
      (i : ℕ) (r : Bool) (s' : BTreeSet I (Pair K V))
      → find_cmp m.set (λ x. is_lt (against_item entry x)) (λ x. is_eq (against_item entry x))
        ≡ ok (empty i)
      → insert_at m.set i entry ≡ ok (r, s')
      → insert m key value ≡ ok (none, record { set = s' })
  unfolding insert
  insert-empty i r s' e d = rw e (rw d)

  put_vacant :
      (before : List (List (Pair K V))) (lo hi : List (Pair K V)) (after : List (List (Pair K V)))
      (i : ℕ)
      → m.set.inner ≡ before ++ (lo ++ hi) ∷ after
      → i ≡ length before
      → Below (against_item entry) (flatten before ++ lo)
      → Above (against_item entry) (hi ++ flatten after)
      → find_cmp m.set (λ x. is_lt (against_item entry x)) (λ x. is_eq (against_item entry x))
        ≡ ok (empty i)
      → Put
  put_vacant before lo hi after i e ei b a found =
      let p = against_item entry in
      let cut : Cut p m.set.inner i = record {
        before = before;
        node = lo ++ hi;
        after = after;
        nodes_eq = e;
        node_idx_eq = ei;
        below = All-append_left _ (flatten before) lo b;
        above = All-append_right _ hi (flatten after) a;
      } in
      let (s', inserted, holds) = insert_at_lem m.set entry valid i cut in
      let whole = ap flatten e ∙ flatten_around before lo hi after in
      let missed =
        ap (find p) whole ∙ find-absent p (flatten before ++ lo) (hi ++ flatten after) b a in
      (
        record { set = s' },
        insert-empty i (fresh m.set entry) s' found inserted
            ∙ ap (λ o. ok (Option.map (λ item. item.value) o, record { set = s' })) (sym missed),
        Inserted-IsValid m.set entry s' valid holds,
        holds.holds
            ∙ (ap (Spec.insert p entry) whole
                ∙ (insert_spec-absent p (flatten before ++ lo) (hi ++ flatten after) b a entry
                    ∙ sym (
                        ap (put p written entry) whole
                        ∙ put-absent p written entry (flatten before ++ lo) (hi ++ flatten after) b
                            a))),
      )

  put_at :
      (i j : ℕ)
      → locate_value_cmp m.set (λ x. is_lt (against_item entry x)) ≡ ok (i, j)
      → Spot (against_item entry) m.set.inner i j
      → Put
  put_at i j located (vacant before lo [] after e ei ej b bl ab a tight) =
      put_vacant before lo [] after i e ei b a (
        find_cmp-none m.set (against_item entry) i j located
          (item_at_place m.set before lo [] after i j e ei ej))
  put_at i j located (vacant before lo (x ∷ hi) after e ei ej b bl ab a tight) =
      put_vacant before lo (x ∷ hi) after i e ei b a (
        find_cmp-greater m.set (against_item entry) i j located x
          (item_at_place m.set before lo (x ∷ hi) after i j e ei ej) ab.0)
  put_at i j located (occupied before lo x hi after e ei ej b bl e_x ab a) =
      let p = against_item entry in
      let (s', changed, valid', items') =
        change_at_lem m.set valid before lo x hi after written e (λ z. refl, λ z. refl) in
      let whole = ap flatten e ∙ flatten_around before lo (x ∷ hi) after in
      let hit =
        ap (find p) whole ∙ find-present p (flatten before ++ lo) (hi ++ flatten after) b a x e_x in
      (
        record { set = s' },
        insert-exist i j x s'
              (find_cmp-equal m.set p i j located x
                (item_at_place m.set before lo (x ∷ hi) after i j e ei ej) e_x)
              (rw (ei, ej) changed)
            ∙ ap (λ o. ok (Option.map (λ item. item.value) o, record { set = s' })) (sym hit),
        valid',
        items'
            ∙ sym (
                ap (put p written entry) whole
                ∙ put-present p written entry (flatten before ++ lo) x (hi ++ flatten after) b e_x),
      )

  -- On a valid map `insert` returns the value that the key had, if it was there, and leaves a valid
  -- map: the old entry with the new value, or the new entry in its place of the order.
  pub insert_key_refines :
      (m' : BTreeMap I K V) × (insert m key value
        ≡ ok (
          Option.map
              (λ item. item.value)
              (find (against_item (record { key = key; value = value })) (entries m)),
          m',
        ))
      × IsValid m'.set
      × (entries m'
          ≡ put
              (against_item (record { key = key; value = value }))
              (λ item. record item { value = value })
              (record { key = key; value = value })
              (entries m))
  insert_key_refines =
      let (i, j, located, first, spot) =
        locate_value_cmp-Spot m.set valid.nodes valid.sorted (against_item-IsProbe entry) in
      put_at i j located spot
