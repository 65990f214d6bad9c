-- ===== src/Concurrent/Removal.antt =====
-- src/concurrent/set.rs: `remove_cdc` and `remove`, in the two steps that other threads may run between.
use indexset.Base.{
  List, [], ◌∷◌, ◌++◌, Option, none, some, is_lt, is_eq, Run, ok, ◌>>=◌, unwrap, if◌then◌else◌,
}
use indexset.Order.{Ord, Borrow, against}
use indexset.Node
use indexset.Cdc.{ChangeEvent, remove_at}
use indexset.Concurrent.SkipMap.{SkipMap}
use indexset.Concurrent.Operation.{Shared, Operation, update_max, make_unreachable, commit}
use indexset.Concurrent.Set.{emit, write_node}

module _ {ℓ} {M T : Type ℓ} ⦃t : Ord T⦄ ⦃s : SkipMap M T⦄ where
  -- the second step of a removal, under the write lock of the index
  unfoldable pub remove_finish :
      Shared M T
      → Option T
      → List (ChangeEvent T)
      → Operation T
      → Run (Option T × List (ChangeEvent T) × Shared M T)
  remove_finish shared deleted cdc op = commit shared op >>= λ r. elim r.0 [
    | some result ↦ let stamped = emit r.1 result.1 in ok (deleted, cdc ++ stamped.0, stamped.1)
    | none ↦ ok (deleted, cdc, r.1)
  ]

module _ {ℓ κ} {M T : Type ℓ} {Q : Type κ} ⦃t : Ord T⦄ ⦃q : Ord Q⦄ ⦃b : Borrow T Q⦄
    ⦃s : SkipMap M T⦄ where
  -- The first step of a removal: the item that it returns, with its events, and the operation that is
  -- left for the second.
  unfoldable pub remove_begin :
      Shared M T → Q → Run (Option T × List (ChangeEvent T) × Option (Operation T) × Shared M T)
  remove_begin shared value = elim (s.lower_bound shared.index (λ key. is_lt (against value key))) [
    | none ↦ ok (none, [], none, shared)
    | some e ↦ do
      let old_max = Node.max (shared.cell e.value)
      r ← Node.delete (shared.cell e.value) value
      elim r.0 [
        | none ↦ ok (none, [], none, shared)
        | some removed ↦
            let written = write_node shared e.value r.1 in
            unwrap old_max >>= λ max. elim (Node.max r.1) [
              | none ↦ ok (some removed.0, [], some (make_unreachable e.value max), written)
              | some new_max ↦
                  let stamped = emit written (remove_at max removed.0 removed.1 ∷ []) in
                  if is_eq (t.cmp max new_max)
                  then ok (some removed.0, stamped.0, none, stamped.1)
                  else ok (some removed.0, stamped.0, some (update_max e.value max), stamped.1)
            ]
      ]
  ]

  unfoldable pub remove_cdc : Shared M T → Q → Run (Option T × List (ChangeEvent T) × Shared M T)
  remove_cdc shared value = remove_begin shared value >>= λ r. elim r.2 [
    | none ↦ ok (r.0, r.1, r.3)
    | some op ↦ remove_finish r.3 r.0 r.1 op
  ]

  unfoldable pub remove : Shared M T → Q → Run (Option T × Shared M T)
  remove shared value = remove_cdc shared value >>= λ r. ok (r.0, r.2)
