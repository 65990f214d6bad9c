-- ===== src/Set/Locate.antt =====
-- src/lib.rs: where a value or a position lies in the tree, as a node and a place in it.
pub mod Cut
use indexset.Base.{
  ℕ, suc, ◌+◌, ◌-◌, List, Option, none, some, Bool, true, false, Ordering, is_lt, not, Run, ok,
  ◌>>=◌, length, get_elem?, get_last?, ◌==◌, if◌then◌else◌,
}
use indexset.Base.Vec
use indexset.Order.{Ord, Borrow, against}
use indexset.Fenwick.{FenwickTree}
use indexset.Set.{BTreeSet}

-- `if self.inner.get(node_idx).is_none() { node_idx -= 1 }`
abbrev pub clamp {ℓ} : {A : Type ℓ} → List A → ℕ → ℕ
clamp inner node_idx = elim (get_elem? inner node_idx) [ none ↦ node_idx - 1 | some _ ↦ node_idx ]

abbrev pub ends_below {ℓ κ} :
    {T : Type ℓ} {Q : Type κ} ⦃t : Ord T⦄ ⦃q : Ord Q⦄ ⦃b : Borrow T Q⦄ → Q → List T → Bool
ends_below value node = elim (get_last? node) [
  | none ↦ false
  | some max ↦ is_lt (against value max)
]

module _ {ℓ κ} {T : Type ℓ} {Q : Type κ} {I : Type 0} ⦃t : Ord T⦄ ⦃q : Ord Q⦄ ⦃b : Borrow T Q⦄ where
  unfoldable pub locate_node : BTreeSet I T → Q → ℕ
  locate_node s value = clamp s.inner (Vec.partition_point (ends_below value) s.inner)

  unfoldable pub locate_value : BTreeSet I T → Q → Run (ℕ × ℕ)
  locate_value s value = do
    let node_idx = locate_node s value
    node ← Vec.index s.inner node_idx
    ok (node_idx, Vec.partition_point (λ item. is_lt (against value item)) node)

abbrev pub ends_before {ℓ} : {T : Type ℓ} → (T → Bool) → List T → Bool
ends_before cmp node = elim (get_last? node) [ none ↦ true | some max ↦ cmp max ]

-- The closure `cmp` of these tests an item: the callers' borrowed form is the item itself.
module _ {ℓ} {T : Type ℓ} {I : Type 0} where
  unfoldable pub locate_node_cmp : BTreeSet I T → (T → Bool) → ℕ
  locate_node_cmp s cmp = clamp s.inner (Vec.partition_point (ends_before cmp) s.inner)

  unfoldable pub locate_value_cmp : BTreeSet I T → (T → Bool) → Run (ℕ × ℕ)
  locate_value_cmp s cmp = do
    let node_idx = locate_node_cmp s cmp
    node ← Vec.index s.inner node_idx
    ok (node_idx, Vec.partition_point cmp node)

-- a position at the end of a node is the first of the next
abbrev pub next_if_past {ℓ} : {T : Type ℓ} → List (List T) → ℕ → ℕ → ℕ × ℕ
next_if_past inner node_index position_within_node = elim (get_elem? inner node_index) [
  | none ↦ (node_index, position_within_node)
  | some node ↦
      if position_within_node == length node
      then (node_index + 1, 0)
      else (node_index, position_within_node)
]

module _ {ℓ} {T : Type ℓ} {I : Type 0} ⦃f : FenwickTree I⦄ where
  unfoldable pub locate_ith : BTreeSet I T → ℕ → ℕ × ℕ
  locate_ith s idx =
      let node_index = f.index_of s.index idx in
      let offset = if not (node_index == 0) then f.prefix_sum s.index node_index 0 else 0 in
      next_if_past s.inner node_index (idx - offset)
