-- ===== src/Concurrent/Map.antt =====
-- src/concurrent/map.rs: the concurrent `BTreeMap`, a concurrent set of entries ordered by key.
use indexset.Base.{ℕ, List, Option, none, some, Bool, Run, ok, ◌>>=◌}
use mathlib.Core.Option
use indexset.Order.{Ord, Borrow}
use indexset.Cdc.{ChangeEvent}
use indexset.Pair.{Pair, pair_ord}
use indexset.Concurrent.SkipMap.{SkipMap}
use indexset.Concurrent.Operation.{Shared}
use indexset.Concurrent.Set
use indexset.Concurrent.Set.{put_cdc, put_cdc_checked, returned, refused}
use indexset.Concurrent.Removal
use indexset.Concurrent.Lookup

pub record BTreeMap {ℓ} (M K V : Type ℓ) : Type ℓ where
  pub set : Shared M (Pair K V)

module _ {ℓ} {M K V : Type ℓ} ⦃s : SkipMap M (Pair K V)⦄ where
  unfoldable pub new : BTreeMap M K V
  new = record { set = Set.default }

  unfoldable pub with_maximum_node_size : ℕ → BTreeMap M K V
  with_maximum_node_size node_capacity = record { set = Set.with_maximum_node_size node_capacity }

  unfoldable pub attach_node : BTreeMap M K V → List (Pair K V) → Run (BTreeMap M K V)
  attach_node m node = Set.attach_node m.set node >>= λ r. ok (record { set = r })

  unfoldable pub len : BTreeMap M K V → ℕ
  len m = Lookup.len m.set

  unfoldable pub is_empty : BTreeMap M K V → Bool
  is_empty m = Lookup.is_empty m.set

  unfoldable pub node_count : BTreeMap M K V → ℕ
  node_count m = Lookup.node_count m.set

-- `Pair<K, V>: Borrow<Q>`
module _ {ℓ κ} {M K V : Type ℓ} {Q : Type κ} ⦃k : Ord K⦄ ⦃q : Ord Q⦄ ⦃b : Borrow (Pair K V) Q⦄
    ⦃s : SkipMap M (Pair K V)⦄ where
  unfoldable pub contains_key : BTreeMap M K V → Q → Run Bool
  contains_key m key = Lookup.contains m.set key

  unfoldable pub get : BTreeMap M K V → Q → Run (Option (ℕ × ℕ))
  get m key = Lookup.get m.set key

  unfoldable pub remove : BTreeMap M K V → Q → Run (Option (Pair K V) × BTreeMap M K V)
  remove m key = Removal.remove m.set key >>= λ r. ok (r.0, record { set = r.1 })

  unfoldable pub remove_cdc :
      BTreeMap M K V → Q → Run (Option (Pair K V) × List (ChangeEvent (Pair K V)) × BTreeMap M K V)
  remove_cdc m key = Removal.remove_cdc m.set key >>= λ r. ok (r.0, r.1, record { set = r.2 })

module _ {ℓ} {M K V : Type ℓ} ⦃k : Ord K⦄ ⦃s : SkipMap M (Pair K V)⦄ where
  unfoldable pub insert_cdc :
      ℕ → BTreeMap M K V → K → V → Run (Option V × List (ChangeEvent (Pair K V)) × BTreeMap M K V)
  insert_cdc fuel m key value = put_cdc fuel m.set (record { key = key; value = value }) >>= λ r.
      ok (Option.map (λ pair. pair.value) r.0, r.1, record { set = r.2 })

  unfoldable pub insert : ℕ → BTreeMap M K V → K → V → Run (Option V × BTreeMap M K V)
  unfolding insert_cdc
  insert fuel m key value = insert_cdc fuel m key value >>= λ r. ok (r.0, r.2)

  -- `none` where the key is there, and then nothing is written
  unfoldable pub checked_insert_cdc :
      ℕ → BTreeMap M K V → K → V → Run (Option (List (ChangeEvent (Pair K V))) × BTreeMap M K V)
  checked_insert_cdc fuel m key value =
      put_cdc_checked fuel m.set (record { key = key; value = value }) >>= λ r. elim r.0 [
        | returned old cdc ↦ ok (some cdc, record { set = r.1 })
        | refused node idx max ↦ ok (none, record { set = r.1 })
      ]

  unfoldable pub checked_insert :
      ℕ → BTreeMap M K V → K → V → Run (Option (Unit {0}) × BTreeMap M K V)
  unfolding checked_insert_cdc
  checked_insert fuel m key value =
      checked_insert_cdc fuel m key value >>= λ r. ok (Option.map (λ _. tt) r.0, r.1)
