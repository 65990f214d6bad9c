-- ===== src/Set/Merge.antt =====
-- src/lib.rs: `MergeIter`, which steps through two sets in order, and the set operations on it.
-- Their loops run on fuel: each round steps an iterator.
use indexset.Base.{
  ◌+◌, ℕ, zero, suc, Option, none, some, Bool, true, false, lt, eq, gt, Run, ok, fault, timeout,
  ◌>>=◌,
}
use indexset.Order.{Ord}
use indexset.Set.{BTreeSet}
use indexset.Set.Iter
use indexset.Set.Iter.{Iter, next}

pub record MergeIter {ℓ} (I : Type 0) (T : Type ℓ) : Type ℓ where
  pub start : Bool
  pub left_iter : Iter I T
  pub current_left : Option T
  pub right_iter : Iter I T
  pub current_right : Option T

module _ {ℓ} {T : Type ℓ} {I : Type 0} where
  abbrev step_left : MergeIter I T → Run (MergeIter I T)
  step_left m = next m.left_iter >>= λ r. ok (record m { current_left = r.0; left_iter = r.1 })

  abbrev step_right : MergeIter I T → Run (MergeIter I T)
  step_right m = next m.right_iter >>= λ r. ok (record m { current_right = r.0; right_iter = r.1 })

  -- the pair that is current after a step
  abbrev current : MergeIter I T → Run (Option (Option T × Option T) × MergeIter I T)
  current m = ok (some (m.current_left, m.current_right), m)

module _ {ℓ} {T : Type ℓ} {I : Type 0} ⦃t : Ord T⦄ where
  unfoldable pub merge_next : MergeIter I T → Run (Option (Option T × Option T) × MergeIter I T)
  merge_next m = elim m.start [
    | true ↦ (step_left m >>= λ l. step_right l >>= λ r. current (record r { start = false }))
    | false ↦ elim m.current_left [
      | some left ↦ elim m.current_right [
        | some right ↦ elim (t.cmp left right) [
          | lt ↦ (step_left m >>= current)
          | eq ↦ (step_left m >>= λ l. step_right l >>= current)
          | gt ↦ (step_right m >>= current)
        ]
        | none ↦ (step_left m >>= current)
      ]
      | none ↦ elim m.current_right [
        | some right ↦ (step_right m >>= current)
        | none ↦ ok (none, m)
      ]
    ]
  ]

  unfoldable pub union_next : MergeIter I T → Run (Option T × MergeIter I T)
  union_next m = merge_next m >>= λ r. elim r.0 [
    | none ↦ ok (none, r.1)
    | some pair ↦ elim pair.0 [
      | some left ↦ elim pair.1 [
        | some right ↦ elim (t.cmp right left) [
          | lt ↦ ok (some right, r.1)
          | _ ↦ ok (some left, r.1)
        ]
        | none ↦ ok (some left, r.1)
      ]
      | none ↦ ok (pair.1, r.1)
    ]
  ]

  unfoldable pub difference_next : ℕ → MergeIter I T → Run (Option T × MergeIter I T)
  difference_next zero m = fault timeout
  difference_next (suc fuel) m = merge_next m >>= λ r. elim r.0 [
    | none ↦ ok (none, r.1)
    | some pair ↦ elim pair.0 [
      | some left ↦ elim pair.1 [
        | some right ↦ elim (t.cmp left right) [
          | lt ↦ ok (some left, r.1)
          | _ ↦ difference_next fuel r.1
        ]
        | none ↦ ok (some left, r.1)
      ]
      | none ↦ ok (none, r.1)
    ]
  ]

  unfoldable pub symmetric_difference_next : ℕ → MergeIter I T → Run (Option T × MergeIter I T)
  symmetric_difference_next zero m = fault timeout
  symmetric_difference_next (suc fuel) m = merge_next m >>= λ r. elim r.0 [
    | none ↦ ok (none, r.1)
    | some pair ↦ elim pair.0 [
      | some left ↦ elim pair.1 [
        | some right ↦ elim (t.cmp left right) [
          | lt ↦ ok (some left, r.1)
          | gt ↦ ok (some right, r.1)
          | eq ↦ symmetric_difference_next fuel r.1
        ]
        | none ↦ ok (some left, r.1)
      ]
      | none ↦ ok (pair.1, r.1)
    ]
  ]

  unfoldable pub intersection_next : ℕ → MergeIter I T → Run (Option T × MergeIter I T)
  intersection_next zero m = fault timeout
  intersection_next (suc fuel) m = merge_next m >>= λ r. elim r.0 [
    | none ↦ ok (none, r.1)
    | some pair ↦ elim pair.0 [
      | some left ↦ elim pair.1 [
        | some right ↦ elim (t.cmp left right) [
          | eq ↦ ok (some left, r.1)
          | _ ↦ intersection_next fuel r.1
        ]
        | none ↦ ok (none, r.1)
      ]
      | none ↦ ok (none, r.1)
    ]
  ]

module _ {ℓ} {T : Type ℓ} {I : Type 0} where
  -- `union`, `difference`, `symmetric_difference` and `intersection` all begin with this state.
  unfoldable pub merge : BTreeSet I T → BTreeSet I T → Run (MergeIter I T)
  merge s other = do
    left ← Iter.new s
    right ← Iter.new other
    ok (record {
      start = true;
      left_iter = left;
      current_left = none;
      right_iter = right;
      current_right = none;
    })

module _ {ℓ} {T : Type ℓ} {I : Type 0} ⦃t : Ord T⦄ where
  -- Each round takes an item of one set, and the first round and the last take none.
  abbrev rounds : BTreeSet I T → BTreeSet I T → ℕ
  rounds s other = s.len + other.len + 2

  unfoldable pub is_subset : BTreeSet I T → BTreeSet I T → Run Bool
  is_subset s other = do
    m ← merge s other
    r ← difference_next (rounds s other) m
    ok (elim r.0 [ none ↦ true | some _ ↦ false ])

  unfoldable pub is_superset : BTreeSet I T → BTreeSet I T → Run Bool
  is_superset s other = do
    m ← merge other s
    r ← difference_next (rounds other s) m
    ok (elim r.0 [ none ↦ true | some _ ↦ false ])

  unfoldable pub is_disjoint : BTreeSet I T → BTreeSet I T → Run Bool
  is_disjoint s other = do
    m ← merge s other
    r ← intersection_next (rounds s other) m
    ok (elim r.0 [ none ↦ true | some _ ↦ false ])
