-- ===== src/Set/Update/Insert.antt =====
-- `insert` and `insert_at` of src/lib.rs against the reference insertion.
use indexset.Base.{
  arith, ℕ, ◌+◌, ◌≡◌, refl, sym, ap, ◌∙◌, ◌∷◌, ◌++◌, map, Bool, false, not, length, ok, ◌==◌,
  if◌then◌else◌, inl, inr, Bool-cases,
}
use indexset.Order.{Ord, against_item}
use indexset.Order.Sorted.{IsSorted}
use indexset.Order.Spec
use indexset.Order.Spec.{find, is_some}
use indexset.Order.Keeps.{insert-IsSorted, length-insert}
use indexset.Fenwick.{FenwickTree, Counts}
use indexset.Node.Insert.{insert_node_refines}
use indexset.Set.{BTreeSet}
use indexset.Set.Valid.{HasNodes, IsValid, IsBounded, items}
use indexset.Set.Bounded.{Fit, Fit-around, Fit-node, insert_at_most}
use indexset.Set.Nodes.{HasNodes-around, before-IsNonempty, after-IsNonempty, insert-IsNonempty}
use indexset.Set.Locate.Cut.{Cut}
use indexset.Set.Spot.{node-IsSorted}
use indexset.Set.Counting.{counts_grow, counts_same}
use indexset.Set.CutSpec.{find-cut, insert-cut, index-cut, assign-cut}
use indexset.Set.Update.{insert_at}

module _ {ℓ} {T : Type ℓ} {I : Type 0} ⦃t : Ord T⦄ ⦃f : FenwickTree I⦄ ⦃c : Counts I⦄
    (s : BTreeSet I T) (v : T) where
  -- whether `v` is not yet among the items
  abbrev pub fresh : Bool
  fresh = not (is_some (find (against_item v) (items s)))

  -- what an insertion of `v` has to leave behind
  pub record Inserted (s' : BTreeSet I T) : Type ℓ where
    pub nodes : HasNodes s'.inner
    pub holds : items s' ≡ Spec.insert (against_item v) v (items s)
    pub counted : c.counts s'.index ≡ map length s'.inner
    pub measured : s'.len ≡ (if fresh then s.len + 1 else s.len)
    pub capacity : s'.node_capacity ≡ s.node_capacity
    pub bounded : IsBounded s → IsBounded s'

  pub Inserted-IsValid : (s' : BTreeSet I T) → IsValid s → Inserted s' → IsValid s'
  Inserted-IsValid s' valid h = record {
    nodes = h.nodes;
    sorted = rw h.holds (insert-IsSorted v (items s) valid.sorted);
    counted = h.counted;
    measured = rw h.holds (
        h.measured
        ∙ (ap (λ n. if fresh then n + 1 else n) valid.measured
            ∙ sym (length-insert v (items s) valid.sorted)));
    capacity = rw h.capacity valid.capacity;
  }

  module _ (valid : IsValid s) (node_idx : ℕ) (k : Cut (against_item v) s.inner node_idx) where
    abbrev pub direct : BTreeSet I T
    direct = record s {
      inner = k.before ++ Spec.insert (against_item v) v k.node ∷ k.after;
      index = if fresh then f.add_at s.index node_idx 1 else s.index;
      len = if fresh then s.len + 1 else s.len;
    }

    cut_node-IsSorted : IsSorted k.node
    cut_node-IsSorted = node-IsSorted k.before k.node k.after (rw (← k.nodes_eq) valid.sorted)

    pub insert_at-direct :
        (length k.node == s.node_capacity) ≡ false → insert_at s node_idx v ≡ ok (fresh, direct)
    unfolding insert_at
    insert_at-direct e = rw (
      index-cut s.inner node_idx k,
      e,
      insert_node_refines v k.node cut_node-IsSorted,
      assign-cut s.inner node_idx k (Spec.insert (against_item v) v k.node),
      find-cut s.inner node_idx k,
    )

    node_length :
        length (Spec.insert (against_item v) v k.node)
        ≡ (if fresh then length k.node + 1 else length k.node)
    node_length = rw (find-cut s.inner node_idx k) (length-insert v k.node cut_node-IsSorted)

    pub direct-Inserted : (length k.node == s.node_capacity) ≡ false → Inserted direct
    direct-Inserted room = record {
      nodes =
          HasNodes-around k.before _ k.after
            (before-IsNonempty k.before k.node k.after (rw (← k.nodes_eq) valid.nodes))
            (insert-IsNonempty (against_item v) v k.node)
            (after-IsNonempty k.before k.node k.after (rw (← k.nodes_eq) valid.nodes));
      holds = sym (insert-cut s.inner node_idx k v);
      counted = elim (Bool-cases fresh) [
        | inl yes_fresh ↦
            rw (yes_fresh, k.node_idx_eq)
              (counts_grow s.index k.before k.node _ k.after (rw (← k.nodes_eq) valid.counted)
                (node_length ∙ rw yes_fresh))
        | inr not_fresh ↦ rw not_fresh (
            counts_same s.index k.before k.node _ k.after (rw (← k.nodes_eq) valid.counted)
              (node_length ∙ rw not_fresh))
      ];
      measured = refl;
      capacity = refl;
      bounded = λ h.
          let fit : Fit s.node_capacity (k.before ++ k.node ∷ k.after) = rw (← k.nodes_eq) h in
          Fit-around s.node_capacity k.before k.node k.after fit
            (Spec.insert (against_item v) v k.node)
            (ground (
              arith,
              Fit-node s.node_capacity k.before k.node k.after fit,
              insert_at_most (against_item v) v k.node,
            ));
    }
