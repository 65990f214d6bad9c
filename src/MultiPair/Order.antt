-- ===== src/MultiPair/Order.antt =====
-- Which laws of an order the multi-pairs of src/core/multipair meet.
use indexset.Base.{
  ◌⊎◌, inl, inr, ℕ, ◌≡◌, refl, sym, ap, ◌∙◌, Ordering, lt, eq, gt, is_eq, arith, reverse_ordering,
  ◌==◌,
}
use indexset.Order.{Ord, nat_ord, ◌≺◌}
use indexset.MultiPair.{
  OrdMultiPair, RandomMultiPair, PartialEq, then, ord_cmp, ord_eq, random_cmp, random_new,
}

module _ {ℓ} {K : Type ℓ} ⦃k : Ord K⦄ where
  -- an equal right side may be exchanged
  pub cmp_congr_right : (a b c : K) → k.cmp b c ≡ eq → k.cmp a b ≡ k.cmp a c
  cmp_congr_right a b c e =
      k.cmp_reverse b a ∙ (ap reverse_ordering (k.cmp_congr b c a e) ∙ sym (k.cmp_reverse c a))

then_reverse :
    (x y : Ordering) → then (reverse_ordering x) (reverse_ordering y) ≡ reverse_ordering (then x y)
then_reverse lt y = refl
then_reverse eq y = refl
then_reverse gt y = refl

module _ {ℓ κ} {K : Type ℓ} {V : Type κ} ⦃k : Ord K⦄ ⦃v : Ord V⦄ where
  pub ord_cmp_refl : (a : OrdMultiPair K V) → ord_cmp a a ≡ eq
  ord_cmp_refl a = rw (k.cmp_refl a.key) (v.cmp_refl a.value)

  pub ord_cmp_reverse : (a b : OrdMultiPair K V) → ord_cmp b a ≡ reverse_ordering (ord_cmp a b)
  ord_cmp_reverse a b =
      rw (k.cmp_reverse a.key b.key, v.cmp_reverse a.value b.value)
        (then_reverse (k.cmp a.key b.key) (v.cmp a.value b.value))

  pub ord_cmp_trans :
      (a b c : OrdMultiPair K V) → ord_cmp a b ≡ lt → ord_cmp b c ≡ lt → ord_cmp a c ≡ lt
  ord_cmp_trans a b c h g = ground (
    arith,
    k.cmp_trans a.key b.key c.key,
    k.cmp_congr a.key b.key c.key,
    cmp_congr_right a.key b.key c.key,
    v.cmp_trans a.value b.value c.value,
  )

  pub ord_cmp_congr : (a b c : OrdMultiPair K V) → ord_cmp a b ≡ eq → ord_cmp a c ≡ ord_cmp b c
  ord_cmp_congr a b c h =
      ground (arith, k.cmp_congr a.key b.key c.key, v.cmp_congr a.value b.value c.value)

  instance abbrev pub ord_multi_pair_ord : Ord (OrdMultiPair K V)
  ord_multi_pair_ord = record {
    cmp = ord_cmp;
    cmp_refl = ord_cmp_refl;
    cmp_reverse = ord_cmp_reverse;
    cmp_trans = ord_cmp_trans;
    cmp_congr = ord_cmp_congr;
  }

  ord_eq-ord_cmp : (a b : OrdMultiPair K V) → ord_eq a b ≡ is_eq (ord_cmp a b)
  ord_eq-ord_cmp a b = ground arith

  -- a pair comes before another if its key does, or if the keys are equal and its value does
  abbrev pub Precedes : OrdMultiPair K V → OrdMultiPair K V → Type 0
  Precedes a b = (a.key ≺ b.key) ⊎ ((k.cmp a.key b.key ≡ eq) × (a.value ≺ b.value))

  -- what an answer of a comparison says of the two pairs
  abbrev pub Lies : Ordering → OrdMultiPair K V → OrdMultiPair K V → Type 0
  Lies lt a b = Precedes a b
  Lies eq a b = (k.cmp a.key b.key ≡ eq) × (v.cmp a.value b.value ≡ eq)
  Lies gt a b = Precedes b a

  module _ (a b : OrdMultiPair K V) where
    turned_key : (x : Ordering) → k.cmp a.key b.key ≡ x → k.cmp b.key a.key ≡ reverse_ordering x
    turned_key x e = k.cmp_reverse a.key b.key ∙ ap reverse_ordering e

    turned_value :
        (y : Ordering) → v.cmp a.value b.value ≡ y → v.cmp b.value a.value ≡ reverse_ordering y
    turned_value y e = v.cmp_reverse a.value b.value ∙ ap reverse_ordering e

    then-Lies :
        (x y : Ordering) → k.cmp a.key b.key ≡ x → v.cmp a.value b.value ≡ y → Lies (then x y) a b
    then-Lies lt y h g = inl h
    then-Lies gt y h g = inl (turned_key gt h)
    then-Lies eq lt h g = inr (h, g)
    then-Lies eq eq h g = (h, g)
    then-Lies eq gt h g = inr (turned_key eq h, turned_value gt g)

    -- `cmp` of two `OrdMultiPair`s gives `Less` only where the first has the lesser key, or an equal
    -- key and the lesser value, `Greater` only where the second has, and `Equal` only where keys and
    -- values are equal; with the sides exchanged it gives the opposite, and `eq` holds exactly where
    -- it gives `Equal`.
    pub ord_cmp_refines :
        Lies (ord_cmp a b) a b
        × (ord_cmp b a ≡ reverse_ordering (ord_cmp a b))
        × (ord_eq a b ≡ is_eq (ord_cmp a b))
    ord_cmp_refines = (
      then-Lies (k.cmp a.key b.key) (v.cmp a.value b.value) refl refl,
      ord_cmp_reverse a b,
      ord_eq-ord_cmp a b,
    )

abbrev pub nat_eq : PartialEq ℕ
nat_eq = record { equals = λ a b. a == b }

-- The order of `RandomMultiPair` is not transitive: two pairs of one key and one value are equal,
-- but one of another value can lie between their discriminators.
pub random_cmp-intransitive : ¬ (
    (a b c : RandomMultiPair ℕ ℕ)
    → random_cmp ⦃v = nat_eq⦄ a b ≡ lt
    → random_cmp ⦃v = nat_eq⦄ b c ≡ lt
    → random_cmp ⦃v = nat_eq⦄ a c ≡ lt)
random_cmp-intransitive h =
    let impossible : eq ≡ lt =
      h (random_new 1 7 5) (random_new 2 7 6) (random_new 3 7 5) refl refl in
    absurd (ground arith)
