-- ===== src/Map.antt =====
-- src/lib.rs: `BTreeMap`, a set of entries ordered by their keys. A method that returns a reference
-- into an entry returns the entry; one that lets the caller write takes the write as a function.
pub mod Refines
pub mod Insertion
pub mod Entry
pub mod Bounds
pub mod Cursor
pub mod Iter
pub mod Keys
pub mod Values
pub mod IntoIter
pub mod IntoKeys
pub mod IntoValues
use indexset.Base.{
  ℕ, zero, suc, ◌+◌, ◌-◌, List, [], ◌∷◌, Option, none, some, Bool, true, false, ◌||◌, is_lt, is_eq,
  Run, ok, ◌>>=◌, fault, ltb, ◌==◌, if◌then◌else◌, not, gt,
}
use mathlib.Core.Option
use indexset.Order.{Ord, Borrow, borrow_self}
use indexset.Fenwick.{FenwickTree}
use indexset.Node.{Bound, included, excluded, unbounded}
use indexset.Pair.{Pair, pair_ord, against_key}
use indexset.Set
use indexset.Set.{BTreeSet, exist, empty}
use indexset.Set.Locate.{locate_value_cmp, locate_ith}
use indexset.Set.Query
use indexset.Set.Query.{item_at, contains_cmp, find_cmp, rank_cmp}
use indexset.Set.Update
use indexset.Set.Update.{change_at, insert_at, delete_cmp, split_off_cmp}

pub record BTreeMap {ℓ κ} (I : Type 0) (K : Type ℓ) (V : Type κ) : Type (ℓ ⊔ κ) where
  pub set : BTreeSet I (Pair K V)

module _ {ℓ κ} {K : Type ℓ} {V : Type κ} {I : Type 0} where
  unfoldable pub first_key_value : BTreeMap I K V → Option (Pair K V)
  first_key_value m = Query.first m.set

  unfoldable pub last_key_value : BTreeMap I K V → Option (Pair K V)
  last_key_value m = Query.last m.set

  unfoldable pub len : BTreeMap I K V → ℕ
  len m = Set.len m.set

  unfoldable pub is_empty : BTreeMap I K V → Bool
  is_empty m = Set.is_empty m.set

module _ {ℓ κ μ} {K : Type ℓ} {V : Type κ} {Q : Type μ} ⦃k : Ord K⦄ ⦃q : Ord Q⦄
    ⦃b : Borrow K Q⦄ where
  -- `|item| item.key.borrow() < key` and `|item| item.key.borrow() == key`
  abbrev pub key_below : Q → Pair K V → Bool
  key_below key item = is_lt (against_key key item)

  abbrev pub key_is : Q → Pair K V → Bool
  key_is key item = is_eq (against_key key item)

module _ {ℓ κ μ} {K : Type ℓ} {V : Type κ} {Q : Type μ} {I : Type 0} ⦃k : Ord K⦄ ⦃q : Ord Q⦄
    ⦃b : Borrow K Q⦄ where
  unfoldable pub contains_key : BTreeMap I K V → Q → Run Bool
  contains_key m key = contains_cmp m.set (key_below key) (key_is key)

  unfoldable pub get_key_value : BTreeMap I K V → Q → Run (Option (Pair K V))
  get_key_value m key = do
    place ← locate_value_cmp m.set (key_below key)
    ok (elim (item_at m.set place) [
      | none ↦ none
      | some candidate_value ↦ if key_is key candidate_value then some candidate_value else none
    ])

  unfoldable pub get : BTreeMap I K V → Q → Run (Option V)
  get m key = get_key_value m key >>= λ r. ok (Option.map (λ entry. entry.value) r)

  -- `*map.get_mut(key)? = change(..)`: whether the key is there, and the map
  unfoldable pub get_mut : BTreeMap I K V → Q → (V → V) → Run (Bool × BTreeMap I K V)
  get_mut m key change = do
    place ← locate_value_cmp m.set (key_below key)
    elim (item_at m.set place) [
      | none ↦ ok (false, m)
      | some entry ↦
          if key_is key entry
          then (change_at m.set place.0 place.1 (λ item. record item { value = change item.value })
              >>= λ r. ok (true, record { set = r.1 }))
          else ok (false, m)
    ]

module _ {ℓ κ μ} {K : Type ℓ} {V : Type κ} {Q : Type μ} {I : Type 0} ⦃k : Ord K⦄ ⦃q : Ord Q⦄
    ⦃b : Borrow K Q⦄ ⦃f : FenwickTree I⦄ where
  -- the entry that is removed, if the key is there
  unfoldable pub remove_entry : BTreeMap I K V → Q → Run (Option (Pair K V) × BTreeMap I K V)
  remove_entry m key = do
    old_entry ← delete_cmp m.set (key_below key) (key_is key)
    let removed = if old_entry.1 then old_entry.0 else none
    ok (removed, record { set = old_entry.2 })

  unfoldable pub remove : BTreeMap I K V → Q → Run (Option V × BTreeMap I K V)
  remove m key = do
    old_entry ← delete_cmp m.set (key_below key) (key_is key)
    let removed = if old_entry.1 then Option.map (λ entry. entry.value) old_entry.0 else none
    ok (removed, record { set = old_entry.2 })

  unfoldable pub split_off : BTreeMap I K V → Q → Run (BTreeMap I K V × BTreeMap I K V)
  split_off m key =
      split_off_cmp m.set (key_below key) >>= λ r. ok (record { set = r.0 }, record { set = r.1 })

  unfoldable pub rank : BTreeMap I K V → Q → Run ℕ
  rank m value = rank_cmp m.set (key_below value)

  -- the first and the last position of the entries within bounds; `(1, 0)` is the empty range
  unfoldable pub range_to_idx : BTreeMap I K V → Bound Q → Bound Q → Run (ℕ × ℕ)
  range_to_idx m start_bound end_bound = do
    start_idx ← elim start_bound [
      | included bound ↦ rank_cmp m.set (key_below bound)
      | excluded bound ↦ rank_cmp m.set (λ item. key_below bound item || key_is bound item)
      | unbounded ↦ ok 0
    ]
    elim end_bound [
      | included bound ↦ (rank_cmp m.set (key_below bound) >>= λ r. ok (start_idx, r))
      | excluded bound ↦
          (rank_cmp m.set (key_below bound) >>= λ rank.
          if rank == 0 then ok (1, 0) else ok (start_idx, rank - 1))
      | unbounded ↦ if is_empty m then ok (1, 0) else ok (start_idx, len m - 1)
    ]

module _ {ℓ κ} {K : Type ℓ} {V : Type κ} {I : Type 0} ⦃f : FenwickTree I⦄ where
  unfoldable pub new : BTreeMap I K V
  new = record { set = Set.default }

  unfoldable pub with_maximum_node_size : ℕ → BTreeMap I K V
  with_maximum_node_size maximum_node_size = record {
    set = Set.with_maximum_node_size maximum_node_size;
  }

  unfoldable pub clear : BTreeMap I K V → BTreeMap I K V
  clear m = record { set = Set.clear m.set }

  unfoldable pub get_index : BTreeMap I K V → ℕ → Option (Pair K V)
  get_index m idx = Query.get_index m.set idx

  -- the write through `get_mut_index`: the entry as it was, if there is such a position
  unfoldable pub get_mut_index :
      BTreeMap I K V → ℕ → (V → V) → Run (Option (Pair K V) × BTreeMap I K V)
  get_mut_index m index change =
      Update.get_mut_index m.set index (λ item. record item { value = change item.value }) >>= λ r.
      ok (r.0, record { set = r.1 })

  unfoldable pub pop_first : BTreeMap I K V → Run (Option (Pair K V) × BTreeMap I K V)
  pop_first m = Update.pop_first m.set >>= λ r. ok (r.0, record { set = r.1 })

  unfoldable pub pop_index : BTreeMap I K V → ℕ → Run (Pair K V × BTreeMap I K V)
  pop_index m index = Update.pop_index m.set index >>= λ r. ok (r.0, record { set = r.1 })

  unfoldable pub pop_last : BTreeMap I K V → Run (Option (Pair K V) × BTreeMap I K V)
  pop_last m = Update.pop_last m.set >>= λ r. ok (r.0, record { set = r.1 })

module _ {ℓ κ} {K : Type ℓ} {V : Type κ} {I : Type 0} ⦃k : Ord K⦄ ⦃f : FenwickTree I⦄ where
  -- the value that the key had, if it was there; the key that is stored stays
  unfoldable pub insert : BTreeMap I K V → K → V → Run (Option V × BTreeMap I K V)
  insert m key value = do
    entry ←
        find_cmp m.set (key_below ⦃b = borrow_self {T = K}⦄ key)
          (key_is ⦃b = borrow_self {T = K}⦄ key)
    elim entry [
      | exist node_idx position_within_node ↦
          (change_at m.set node_idx position_within_node (λ item. record item { value = value })
            >>= λ r. ok (some r.0.value, record { set = r.1 }))
      | empty node_idx ↦
          (insert_at m.set node_idx (record { key = key; value = value }) >>= λ r.
          ok (none, record { set = r.1 }))
    ]

  unfoldable pub append : BTreeMap I K V → BTreeMap I K V → Run (BTreeMap I K V × BTreeMap I K V)
  append m other =
      Update.append m.set other.set >>= λ r. ok (record { set = r.0 }, record { set = r.1 })

  -- `FromIterator` and `From<[(K, V); N]>` for a new map, and `extend` of one that is there
  unfoldable pub insert_all : BTreeMap I K V → List (K × V) → Run (BTreeMap I K V)
  insert_all m [] = ok m
  insert_all m (item ∷ iter) = insert m item.0 item.1 >>= λ r. insert_all r.1 iter

  unfoldable pub from_iter : List (K × V) → Run (BTreeMap I K V)
  unfolding new
  from_iter iter = insert_all new iter
