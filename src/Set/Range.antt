-- ===== src/Set/Range.antt =====
-- src/lib.rs: `range` and `range_idx` of a set, which bound an iterator by positions. Arithmetic on
-- positions is checked, as in a debug build: an excluded end of 0 panics.
use indexset.Base.{
  ℕ, suc, ◌+◌, ◌-◌, List, none, some, true, false, Run, ok, fault, panic, ◌>>=◌, length, take, drop,
  leb, ltb, ◌==◌, if◌then◌else◌,
}
use indexset.Base.Vec
use indexset.Order.{Ord, Borrow}
use indexset.Fenwick.{FenwickTree}
use indexset.Node.{Bound, included, excluded, unbounded}
use indexset.Set.{BTreeSet}
use indexset.Set.Locate.{locate_ith}
use indexset.Set.Query.{rank}
use indexset.Set.Iter.{Iter}

-- `&xs[i..]` and `&xs[..=i]`
abbrev pub slice_from {ℓ} : {A : Type ℓ} → List A → ℕ → Run (List A)
slice_from xs i = if leb i (length xs) then ok (drop i xs) else fault panic

abbrev pub slice_upto {ℓ} : {A : Type ℓ} → List A → ℕ → Run (List A)
slice_upto xs i = if ltb i (length xs) then ok (take (suc i) xs) else fault panic

-- a position in the order, its node, and its place in the node
pub record Resolved : Type 0 where
  pub global_idx : ℕ
  pub node_idx : ℕ
  pub start_idx : ℕ

abbrev front_bound : Bound ℕ → ℕ
front_bound (included bound) = bound
front_bound (excluded bound) = bound + 1
front_bound unbounded = 0

abbrev back_bound : Bound ℕ → ℕ → Run ℕ
back_bound (included bound) last = ok bound
back_bound (excluded bound) last = if bound == 0 then fault panic else ok (bound - 1)
back_bound unbounded last = ok last

module _ {ℓ} {T : Type ℓ} {I : Type 0} ⦃f : FenwickTree I⦄ where
  abbrev resolved : BTreeSet I T → ℕ → Resolved
  resolved s global_idx =
      let (node_idx, start_idx) = locate_ith s global_idx in
      record { global_idx = global_idx; node_idx = node_idx; start_idx = start_idx }

  unfoldable pub resolve_range : BTreeSet I T → Bound ℕ → Bound ℕ → Run (Resolved × Resolved)
  resolve_range s start end = do
    back ← back_bound end (f.prefix_sum s.index (length s.inner) 0 - 1)
    ok (resolved s (front_bound start), resolved s back)

  unfoldable pub range_idx : BTreeSet I T → Bound ℕ → Bound ℕ → Run (Iter I T)
  range_idx s start end = do
    ends ← resolve_range s start end
    front_iter ← elim (ltb ends.0.node_idx (length s.inner)) [
      | true ↦
          (Vec.index s.inner ends.0.node_idx >>= λ node.
          slice_from node ends.0.start_idx >>= λ r. ok (some r))
      | false ↦ ok none
    ]
    back_iter ← elim (ltb ends.1.node_idx (length s.inner)) [
      | true ↦
          (Vec.index s.inner ends.1.node_idx >>= λ node.
          slice_upto node ends.1.start_idx >>= λ r. ok (some r))
      | false ↦ ok none
    ]
    ok (record {
      btree = s;
      current_front_node_idx = ends.0.node_idx;
      current_front_idx = ends.0.global_idx;
      current_back_node_idx = ends.1.node_idx;
      current_back_idx = ends.1.global_idx + 1;
      current_front_iterator = front_iter;
      current_back_iterator = back_iter;
    })

module _ {ℓ κ} {T : Type ℓ} {Q : Type κ} {I : Type 0} ⦃t : Ord T⦄ ⦃q : Ord Q⦄ ⦃b : Borrow T Q⦄
    ⦃f : FenwickTree I⦄ where
  unfoldable pub range : BTreeSet I T → Bound Q → Bound Q → Run (Iter I T)
  range s start_bound end_bound = do
    start_idx ← elim start_bound [
      | included bound ↦ rank s bound
      | excluded bound ↦ (rank s bound >>= λ r. ok (r + 1))
      | unbounded ↦ ok 0
    ]
    end_idx ← elim end_bound [
      | included bound ↦ rank s bound
      | excluded bound ↦ (rank s bound >>= λ r. ok (r - 1))
      | unbounded ↦ ok (s.len - 1)
    ]
    range_idx s (included start_idx) (included end_idx)
