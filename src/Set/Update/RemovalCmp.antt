-- ===== src/Set/Update/RemovalCmp.antt =====
-- `delete_cmp` of src/lib.rs, the removal by a pair of tests, against the reference removal.
use indexset.Base.{ℕ, ◌≡◌, List, ◌∷◌, ◌++◌, Ordering, is_eq, is_lt, arith, ok}
use indexset.Base.Vec
use indexset.Order.{Ord, IsProbe}
use indexset.Order.Spec.{find, erase, is_some}
use indexset.Fenwick.{FenwickTree, Counts}
use indexset.Set.{BTreeSet}
use indexset.Set.Locate.{locate_value_cmp}
use indexset.Set.Query.{find_cmp}
use indexset.Set.Valid.{IsValid, items}
use indexset.Set.Spot.{Spot, vacant, occupied, locate_value_cmp-Spot}
use indexset.Set.Update.{delete_cmp}
use indexset.Set.Update.Removal.{removal_at, removal_at-Removed, index_at}

module _ {ℓ} {T : Type ℓ} {I : Type 0} ⦃t : Ord T⦄ ⦃f : FenwickTree I⦄ ⦃c : Counts I⦄
    (s : BTreeSet I T) (valid : IsValid s) (p : T → Ordering) where
  -- there is a node at a place of the tree
  Spot-node : (i j : ℕ) → Spot p s.inner i j → (node : List T) × (Vec.index s.inner i ≡ ok node)
  Spot-node i j (vacant before lo hi after e ei ej b bl ab a tight) =
      (lo ++ hi, index_at s valid before (lo ++ hi) after i e ei)
  Spot-node i j (occupied before lo x hi after e ei ej b bl m ab a) =
      (lo ++ x ∷ hi, index_at s valid before (lo ++ x ∷ hi) after i e ei)

  delete_cmp-removal_at :
      (i j : ℕ) (node : List T)
      → locate_value_cmp s (λ x. is_lt (p x)) ≡ ok (i, j)
      → Vec.index s.inner i ≡ ok node
      → delete_cmp s (λ x. is_lt (p x)) (λ x. is_eq (p x)) ≡ removal_at s valid p i j
  unfolding delete_cmp find_cmp
  delete_cmp-removal_at i j node located e = ground arith

  -- On a valid set `delete_cmp` returns the item that meets a probe of the order, whether there is
  -- one, and a valid set of the other items.
  pub delete_cmp_refines :
      IsProbe p
      → (s' : BTreeSet I T) × (delete_cmp s (λ x. is_lt (p x)) (λ x. is_eq (p x))
          ≡ ok (find p (items s), is_some (find p (items s)), s'))
        × IsValid s'
        × (items s' ≡ erase p (items s))
  delete_cmp_refines probe =
      let (i, j, located, first, spot) = locate_value_cmp-Spot s valid.nodes valid.sorted probe in
      let (node, e) = Spot-node i j spot in
      rw (delete_cmp-removal_at i j node located e) (removal_at-Removed s valid p i j spot)
