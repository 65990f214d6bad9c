-- ===== src/MultiPair.antt =====
-- src/core/multipair: the entries of a multi-map, in the order of `OrdMultiPair` (by key, then value)
-- and in that of `RandomMultiPair` (by key, then a random discriminator).
pub mod Order
use indexset.Base.{ℕ, compare, Bool, true, false, Ordering, lt, eq, gt, is_eq, ◌&&◌}
use indexset.Order.{Ord}
use indexset.Pair.{Pair}

pub record OrdMultiPair {ℓ κ} (K : Type ℓ) (V : Type κ) : Type (ℓ ⊔ κ) where
  pub key : K
  pub value : V

pub record RandomMultiPair {ℓ κ} (K : Type ℓ) (V : Type κ) : Type (ℓ ⊔ κ) where
  pub key : K
  pub value : V
  pub discriminator : ℕ

-- `V: PartialEq`
pub record PartialEq {ℓ} (V : Type ℓ) : Type ℓ where
  pub equals : V → V → Bool

-- `Ordering::then`
abbrev pub then : Ordering → Ordering → Ordering
then lt other = lt
then eq other = other
then gt other = gt

module _ {ℓ κ} {K : Type ℓ} {V : Type κ} ⦃k : Ord K⦄ where
  abbrev pub ord_cmp : ⦃v : Ord V⦄ → OrdMultiPair K V → OrdMultiPair K V → Ordering
  ord_cmp ⦃v⦄ a b = then (k.cmp a.key b.key) (v.cmp a.value b.value)

  -- `eq`, where `self.key.eq(&other.key)` is `cmp` giving `Equal`
  abbrev pub ord_eq : ⦃v : Ord V⦄ → OrdMultiPair K V → OrdMultiPair K V → Bool
  ord_eq ⦃v⦄ a b = is_eq (k.cmp a.key b.key) && is_eq (v.cmp a.value b.value)

  abbrev pub random_cmp : ⦃v : PartialEq V⦄ → RandomMultiPair K V → RandomMultiPair K V → Ordering
  random_cmp ⦃v⦄ a b = elim (k.cmp a.key b.key) [
    | eq ↦ elim (v.equals a.value b.value) [
      | true ↦ eq
      | false ↦ compare a.discriminator b.discriminator
    ]
    | ord ↦ ord
  ]

  abbrev pub random_eq : ⦃v : PartialEq V⦄ → RandomMultiPair K V → RandomMultiPair K V → Bool
  random_eq ⦃v⦄ a b = is_eq (k.cmp a.key b.key) && v.equals a.value b.value

module _ {ℓ κ} {K : Type ℓ} {V : Type κ} where
  -- the conversions from and to an entry of a map
  abbrev pub ord_from_pair : Pair K V → OrdMultiPair K V
  ord_from_pair pair = record { key = pair.key; value = pair.value }

  abbrev pub ord_into_pair : OrdMultiPair K V → Pair K V
  ord_into_pair pair = record { key = pair.key; value = pair.value }

  -- `fastrand::u64(..)` is the discriminator that is passed
  abbrev pub random_new : ℕ → K → V → RandomMultiPair K V
  random_new discriminator key value = record {
    key = key;
    value = value;
    discriminator = discriminator;
  }

  abbrev pub random_from_pair : ℕ → Pair K V → RandomMultiPair K V
  random_from_pair discriminator pair = random_new discriminator pair.key pair.value

  abbrev pub random_into_pair : RandomMultiPair K V → Pair K V
  random_into_pair pair = record { key = pair.key; value = pair.value }
