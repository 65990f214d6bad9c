-- ===== src/Set/Query.antt =====
-- src/lib.rs: the methods of `BTreeSet` that only read it.
pub mod Lookup
pub mod Position
pub mod Place
use indexset.Base.{
  ℕ, ◌+◌, ◌-◌, List, Option, none, some, Bool, true, false, is_eq, is_lt, Run, ok, ◌>>=◌, length,
  get_elem?, get_last?,
}
use indexset.Base.Vec
use indexset.Order.{Ord, Borrow, against}
use indexset.Fenwick.{FenwickTree}
use indexset.Set.{BTreeSet, NodeEntry, exist, empty}
use indexset.Set.Locate.{locate_value, locate_value_cmp, locate_ith}

-- `self.inner.get(node_idx)` and then `candidate_node.get(position_within_node)`
abbrev pub item_in {ℓ} : {T : Type ℓ} → List (List T) → ℕ × ℕ → Option T
item_in inner place = elim (get_elem? inner place.0) [
  | none ↦ none
  | some candidate_node ↦ get_elem? candidate_node place.1
]

module _ {ℓ} {T : Type ℓ} {I : Type 0} where
  abbrev pub item_at : BTreeSet I T → ℕ × ℕ → Option T
  item_at s place = item_in s.inner place

  unfoldable pub first : BTreeSet I T → Option T
  first s = elim (get_elem? s.inner 0) [
    | none ↦ none
    | some candidate_node ↦ get_elem? candidate_node 0
  ]

  unfoldable pub last : BTreeSet I T → Option T
  last s = elim (get_last? s.inner) [ none ↦ none | some candidate_node ↦ get_last? candidate_node ]

  unfoldable pub contains_cmp : BTreeSet I T → (T → Bool) → (T → Bool) → Run Bool
  contains_cmp s cmp cmp2 = do
    place ← locate_value_cmp s cmp
    ok (elim (item_at s place) [ none ↦ false | some candidate_value ↦ cmp2 candidate_value ])

  unfoldable pub find_cmp : BTreeSet I T → (T → Bool) → (T → Bool) → Run NodeEntry
  find_cmp s cmp cmp2 = do
    place ← locate_value_cmp s cmp
    ok (elim (item_at s place) [
      | none ↦ empty place.0
      | some candidate_value ↦ elim (cmp2 candidate_value) [
        | true ↦ exist place.0 place.1
        | false ↦ empty place.0
      ]
    ])

module _ {ℓ} {T : Type ℓ} {I : Type 0} ⦃f : FenwickTree I⦄ where
  unfoldable pub get_index : BTreeSet I T → ℕ → Option T
  get_index s idx = item_at s (locate_ith s idx)

  unfoldable pub rank_cmp : BTreeSet I T → (T → Bool) → Run ℕ
  rank_cmp s cmp = do place ← locate_value_cmp s cmp; ok (f.prefix_sum s.index place.0 0 + place.1)

module _ {ℓ κ} {T : Type ℓ} {Q : Type κ} {I : Type 0} ⦃t : Ord T⦄ ⦃q : Ord Q⦄ ⦃b : Borrow T Q⦄ where
  unfoldable pub get : BTreeSet I T → Q → Run (Option T)
  get s value = do place ← locate_value s value; ok (item_at s place)

  unfoldable pub lower_bound : BTreeSet I T → Q → Run (Option T)
  lower_bound s value = do place ← locate_value s value; ok (item_at s place)

  unfoldable pub contains : BTreeSet I T → Q → Run Bool
  contains s value = do
    place ← locate_value s value
    ok (elim (item_at s place) [
      | none ↦ false
      | some candidate_value ↦ is_eq (against value candidate_value)
    ])

  unfoldable pub rank : ⦃f : FenwickTree I⦄ → BTreeSet I T → Q → Run ℕ
  rank ⦃f⦄ s value = do place ← locate_value s value; ok (f.prefix_sum s.index place.0 0 + place.1)
