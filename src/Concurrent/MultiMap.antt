-- ===== src/Concurrent/MultiMap.antt =====
-- src/concurrent/multimap.rs: the concurrent `BTreeMultiMap`, a concurrent set of multi-pairs; and the
-- removal helpers of src/core/multipair. A multi-pair's type is a parameter with its trait
-- `MultiPairLike`; `new` takes the random number that a discriminator is made of. The order of the
-- multi-pairs is one by the laws of `Ord`, so that this is the map of `OrdMultiPair`; what searches by
-- a key alone is not here, since a key does not borrow the whole order of a multi-pair.
use indexset.Base.{ℕ, List, Option, Bool, Run, ok, ◌>>=◌}
use mathlib.Core.Option
use indexset.Order.{Ord, borrow_self}
use indexset.Cdc.{ChangeEvent}
use indexset.MultiPair.{OrdMultiPair}
use indexset.Concurrent.SkipMap.{SkipMap}
use indexset.Concurrent.Operation.{Shared}
use indexset.Concurrent.Set
use indexset.Concurrent.Removal
use indexset.Concurrent.Lookup
use indexset.Concurrent.Iter

pub record MultiPairLike {ℓ} (P K V : Type ℓ) : Type ℓ where
  pub new : ℕ → K → V → P
  pub key : P → K
  pub value : P → V

pub record BTreeMultiMap {ℓ} (M P : Type ℓ) : Type ℓ where
  pub set : Shared M P

module _ {ℓ} {M P : Type ℓ} ⦃s : SkipMap M P⦄ where
  unfoldable pub default : BTreeMultiMap M P
  default = record { set = Set.default }

  unfoldable pub new : BTreeMultiMap M P
  new = record { set = Set.default }

  unfoldable pub with_maximum_node_size : ℕ → BTreeMultiMap M P
  with_maximum_node_size node_capacity = record { set = Set.with_maximum_node_size node_capacity }

  unfoldable pub attach_multi_node : BTreeMultiMap M P → List P → Run (BTreeMultiMap M P)
  attach_multi_node m node = Set.attach_node m.set node >>= λ r. ok (record { set = r })

  unfoldable pub len : BTreeMultiMap M P → ℕ
  len m = Lookup.len m.set

  unfoldable pub is_empty : BTreeMultiMap M P → Bool
  is_empty m = Lookup.is_empty m.set

  unfoldable pub node_count : BTreeMultiMap M P → ℕ
  node_count m = Lookup.node_count m.set

  unfoldable pub iter : BTreeMultiMap M P → Iter.Iter P
  iter m = Iter.iter m.set

module _ {ℓ} {M P K V : Type ℓ} ⦃p : Ord P⦄ ⦃l : MultiPairLike P K V⦄ ⦃s : SkipMap M P⦄ where
  unfoldable pub insert_cdc :
      ℕ → BTreeMultiMap M P → ℕ → K → V → Run (Option V × List (ChangeEvent P) × BTreeMultiMap M P)
  insert_cdc fuel m discriminator key value =
      Set.put_cdc fuel m.set (l.new discriminator key value) >>= λ r.
      ok (Option.map l.value r.0, r.1, record { set = r.2 })

  unfoldable pub insert : ℕ → BTreeMultiMap M P → ℕ → K → V → Run (Option V × BTreeMultiMap M P)
  insert fuel m discriminator key value =
      Set.put_cdc fuel m.set (l.new discriminator key value) >>= λ r.
      ok (Option.map l.value r.0, record { set = r.2 })

-- the trait `MultiPairRemoveHelper`
pub record MultiPairRemoveHelper {ℓ} (M P K V : Type ℓ) : Type ℓ where
  pub remove_cdc_from :
      Shared M P → K → V → Run (Option (K × V) × List (ChangeEvent P) × Shared M P)

module _ {ℓ} {M P K V : Type ℓ} ⦃h : MultiPairRemoveHelper M P K V⦄ where
  abbrev pub remove_from : Shared M P → K → V → Run (Option (K × V) × Shared M P)
  remove_from set key value = h.remove_cdc_from set key value >>= λ r. ok (r.0, r.2)

  unfoldable pub remove : BTreeMultiMap M P → K → V → Run (Option (K × V) × BTreeMultiMap M P)
  remove m key value = remove_from m.set key value >>= λ r. ok (r.0, record { set = r.1 })

  unfoldable pub remove_cdc :
      BTreeMultiMap M P → K → V → Run (Option (K × V) × List (ChangeEvent P) × BTreeMultiMap M P)
  remove_cdc m key value =
      h.remove_cdc_from m.set key value >>= λ r. ok (r.0, r.1, record { set = r.2 })

module _ {ℓ} {K V : Type ℓ} where
  abbrev pub ord_like : MultiPairLike (OrdMultiPair K V) K V
  ord_like = record {
    new = λ discriminator key value. record { key = key; value = value };
    key = λ pair. pair.key;
    value = λ pair. pair.value;
  }

  -- `into` of a multi-pair
  abbrev ord_into : OrdMultiPair K V → K × V
  ord_into pair = (pair.key, pair.value)

module _ {ℓ} {M K V : Type ℓ} ⦃p : Ord (OrdMultiPair K V)⦄ ⦃s : SkipMap M (OrdMultiPair K V)⦄ where
  abbrev pub ord_remove_cdc_from :
      Shared M (OrdMultiPair K V)
      → K
      → V
      → Run (Option (K × V) × List (ChangeEvent (OrdMultiPair K V)) × Shared M (OrdMultiPair K V))
  ord_remove_cdc_from set key value =
      Removal.remove_cdc ⦃b = borrow_self {T = OrdMultiPair K V}⦄ set
        (record { key = key; value = value })
      >>= λ r. ok (Option.map ord_into r.0, r.1, r.2)

  abbrev pub ord_helper : MultiPairRemoveHelper M (OrdMultiPair K V) K V
  ord_helper = record { remove_cdc_from = ord_remove_cdc_from }
