-- ===== src/Map/Cursor.antt =====
-- src/lib.rs: `CursorMap`, a cursor over the entries of a map, and `BTreeMap::lower_bound`, which
-- returns one.
use indexset.Base.{ℕ, ◌+◌, ◌≡◌, ap, List, Option, Run, ok, ◌>>=◌, get_elem?}
use mathlib.Core.Option
use indexset.Order.{Ord, Borrow}
use indexset.Order.Spec.{count_below}
use indexset.Fenwick.{FenwickTree, Counts}
use indexset.Node.{Bound, included, excluded, unbounded}
use indexset.Pair.{Pair, pair_ord, against_key, against_key-IsProbe}
use indexset.Set.Cursor as SetCursor
use indexset.Set.Cursor.{Cursor}
use indexset.Set.Query.{rank_cmp}
use indexset.Set.Query.Position.{rank_cmp_refines, get_index_refines}
use indexset.Set.Valid.{IsValid}
use indexset.Map.{BTreeMap, key_below}
use indexset.Map.Refines.{entries}

pub record CursorMap {ℓ κ} (I : Type 0) (K : Type ℓ) (V : Type κ) : Type (ℓ ⊔ κ) where
  pub cursor : Cursor I (Pair K V)

-- `Some((&entry.key, &entry.value))` of an entry that is there
abbrev key_and_value {ℓ κ} : {K : Type ℓ} {V : Type κ} → Option (Pair K V) → Option (K × V)
key_and_value = Option.map (λ entry. (entry.key, entry.value))

module _ {ℓ κ} {K : Type ℓ} {V : Type κ} {I : Type 0} where
  unfoldable pub move_next : CursorMap I K V → CursorMap I K V
  move_next c = record { cursor = SetCursor.move_next c.cursor }

  unfoldable pub move_index : CursorMap I K V → ℕ → CursorMap I K V
  move_index c index = record { cursor = SetCursor.move_index c.cursor index }

  unfoldable pub move_prev : CursorMap I K V → CursorMap I K V
  move_prev c = record { cursor = SetCursor.move_prev c.cursor }

module _ {ℓ κ} {K : Type ℓ} {V : Type κ} {I : Type 0} ⦃f : FenwickTree I⦄ where
  unfoldable pub key : CursorMap I K V → Option K
  key c = Option.map (λ entry. entry.key) (SetCursor.item c.cursor)

  unfoldable pub value : CursorMap I K V → Option V
  value c = Option.map (λ entry. entry.value) (SetCursor.item c.cursor)

  unfoldable pub key_value : CursorMap I K V → Option (K × V)
  key_value c = key_and_value (SetCursor.item c.cursor)

  unfoldable pub peek_next : CursorMap I K V → Option (K × V)
  peek_next c = key_and_value (SetCursor.peek_next c.cursor)

  unfoldable pub peek_index : CursorMap I K V → ℕ → Option (K × V)
  peek_index c index = key_and_value (SetCursor.peek_index c.cursor index)

  unfoldable pub peek_prev : CursorMap I K V → Option (K × V)
  peek_prev c = key_and_value (SetCursor.peek_prev c.cursor)

module _ {ℓ κ μ} {K : Type ℓ} {V : Type κ} {Q : Type μ} {I : Type 0} ⦃k : Ord K⦄ ⦃q : Ord Q⦄
    ⦃b : Borrow K Q⦄ ⦃f : FenwickTree I⦄ where
  unfoldable pub lower_bound : BTreeMap I K V → Bound Q → Run (CursorMap I K V)
  lower_bound m bound = do
    start_idx ← elim bound [
      | included start ↦ rank_cmp m.set (key_below start)
      | excluded start ↦ (rank_cmp m.set (key_below start) >>= λ rank. ok (rank + 1))
      | unbounded ↦ ok 0
    ]
    ok (record { cursor = record { set = m.set; idx = start_idx } })

module _ {ℓ κ μ} {K : Type ℓ} {V : Type κ} {Q : Type μ} ⦃k : Ord K⦄ ⦃q : Ord Q⦄
    ⦃b : Borrow K Q⦄ where
  -- the position that a bound stands for: one past the lesser keys where it is excluded
  abbrev pub cursor_position : Bound Q → List (Pair K V) → ℕ
  cursor_position (included start) xs = count_below (against_key start) xs
  cursor_position (excluded start) xs = count_below (against_key start) xs + 1
  cursor_position unbounded xs = 0

module _ {ℓ κ} {K : Type ℓ} {V : Type κ} {I : Type 0} ⦃k : Ord K⦄ ⦃f : FenwickTree I⦄ ⦃c : Counts I⦄
    (m : BTreeMap I K V) (valid : IsValid m.set) where
  reads :
      (idx : ℕ)
      → key_value (record { cursor = record { set = m.set; idx = idx } })
        ≡ key_and_value (get_elem? (entries m) idx)
  unfolding key_value SetCursor.item
  reads idx = ap key_and_value (get_index_refines m.set valid idx)

module _ {ℓ κ μ} {K : Type ℓ} {V : Type κ} {Q : Type μ} {I : Type 0} ⦃k : Ord K⦄ ⦃q : Ord Q⦄
    ⦃b : Borrow K Q⦄ ⦃f : FenwickTree I⦄ ⦃c : Counts I⦄ (m : BTreeMap I K V)
    (valid : IsValid m.set) where
  rank_below :
      (start : Q)
      → rank_cmp m.set (key_below start) ≡ ok (count_below (against_key start) (entries m))
  rank_below start = rank_cmp_refines m.set valid (against_key-IsProbe start)

  -- On a valid map the cursor that `lower_bound` returns is at the entry whose position is the
  -- number of lesser keys, and one further for an excluded bound, whether or not its key is there;
  -- for no bound it is at the first entry. It has no key and value beside the map.
  pub lower_bound_key_refines :
      (bound : Bound Q)
      → (lower_bound m bound >>= λ at. ok (key_value at))
        ≡ ok (
            Option.map
              (λ entry. (entry.key, entry.value))
              (get_elem? (entries m) (cursor_position bound (entries m))))
  unfolding lower_bound
  lower_bound_key_refines (included start) = rw (rank_below start) (ap ok (reads m valid _))
  lower_bound_key_refines (excluded start) = rw (rank_below start) (ap ok (reads m valid _))
  lower_bound_key_refines unbounded = ap ok (reads m valid 0)
