-- ===== src/Pair.antt =====
-- src/core/pair.rs: an entry of a map, which is ordered by its key alone.
use indexset.Base.{Ordering}
use indexset.Order.{Ord, Borrow, IsProbe, against, against-IsProbe}

pub record Pair {ℓ κ} (K : Type ℓ) (V : Type κ) : Type (ℓ ⊔ κ) where
  pub key : K
  pub value : V

instance abbrev pub pair_ord {ℓ κ} : {K : Type ℓ} {V : Type κ} ⦃k : Ord K⦄ → Ord (Pair K V)
pair_ord ⦃k⦄ = record {
  cmp = λ a b. k.cmp a.key b.key;
  cmp_refl = λ a. k.cmp_refl a.key;
  cmp_reverse = λ a b. k.cmp_reverse a.key b.key;
  cmp_trans = λ a b c. k.cmp_trans a.key b.key c.key;
  cmp_congr = λ a b c. k.cmp_congr a.key b.key c.key;
}

-- `item.key.borrow().cmp(key)`
abbrev pub against_key {ℓ κ μ} :
    {K : Type ℓ} {V : Type κ} {Q : Type μ} ⦃k : Ord K⦄ ⦃q : Ord Q⦄ ⦃b : Borrow K Q⦄
    → Q
    → Pair K V
    → Ordering
against_key key item = against key item.key

module _ {ℓ κ μ} {K : Type ℓ} {V : Type κ} {Q : Type μ} ⦃k : Ord K⦄ ⦃q : Ord Q⦄
    ⦃b : Borrow K Q⦄ where
  pub against_key-IsProbe : (key : Q) → IsProbe {T = Pair K V} (against_key key)
  against_key-IsProbe key =
      let probe : IsProbe {T = K} (against key) = against-IsProbe key in
      record {
        below = λ x y. probe.below x.key y.key;
        meets = λ x y. probe.meets x.key y.key;
        above = λ x y. probe.above x.key y.key;
      }
