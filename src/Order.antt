-- ===== src/Order.antt =====
-- The traits that the keys and the items implement: `Ord` and `Borrow` of the standard library,
-- with the laws that their documentation asks of an implementation.
pub mod Sorted
pub mod Spec
pub mod View
pub mod Cuts
pub mod Keeps
pub mod Puts
pub mod Slices
use indexset.Base.{
  ℕ, ◌≡◌, refl, sym, ap, ◌∙◌, compare, Ordering, lt, eq, gt, arith, reverse_ordering,
}

-- `cmp` may call two items equal that differ, as `Pair` does: its laws are those of a total preorder.
pub record Ord {ℓ} (T : Type ℓ) : Type ℓ where
  pub cmp : T → T → Ordering
  pub cmp_refl : (a : T) → cmp a a ≡ eq
  pub cmp_reverse : (a b : T) → cmp b a ≡ reverse_ordering (cmp a b)
  pub cmp_trans : (a b c : T) → cmp a b ≡ lt → cmp b c ≡ lt → cmp a c ≡ lt
  pub cmp_congr : (a b c : T) → cmp a b ≡ eq → cmp a c ≡ cmp b c

infix 50 ◌≺◌
abbrev pub ◌≺◌ {ℓ} : {T : Type ℓ} ⦃o : Ord T⦄ → T → T → Type 0
◌≺◌ ⦃o⦄ a b = o.cmp a b ≡ lt

-- `T: Borrow<Q>`: the order of the borrowed forms is that of the items.
pub record Borrow {ℓ κ} (T : Type ℓ) (Q : Type κ) ⦃t : Ord T⦄ ⦃q : Ord Q⦄ : Type (ℓ ⊔ κ) where
  pub borrow : T → Q
  pub borrow_cmp : (a b : T) → q.cmp (borrow a) (borrow b) ≡ t.cmp a b

-- `impl<T> Borrow<T> for T`
abbrev pub borrow_self {ℓ} : {T : Type ℓ} ⦃o : Ord T⦄ → Borrow T T
borrow_self = record { borrow = λ a. a; borrow_cmp = λ a b. refl }

-- `item.borrow().cmp(value)`: how an item lies to the value that is looked for.
abbrev pub against {ℓ κ} :
    {T : Type ℓ} {Q : Type κ} ⦃t : Ord T⦄ ⦃q : Ord Q⦄ ⦃b : Borrow T Q⦄ → Q → T → Ordering
against ⦃q⦄ ⦃b⦄ value item = q.cmp (b.borrow item) value

-- The same of a value of the items' own type.
abbrev pub against_item {ℓ} : {T : Type ℓ} ⦃t : Ord T⦄ → T → T → Ordering
against_item ⦃t⦄ value item = t.cmp item value

-- What a search over sorted items relies on: along the order, `p` goes from `lt` over at most one
-- `eq` to `gt`.
pub record IsProbe {ℓ} {T : Type ℓ} ⦃o : Ord T⦄ (p : T → Ordering) : Type ℓ where
  pub below : (a b : T) → a ≺ b → p b ≡ lt → p a ≡ lt
  pub meets : (a b : T) → a ≺ b → p a ≡ eq → p b ≡ gt
  pub above : (a b : T) → a ≺ b → p a ≡ gt → p b ≡ gt

module _ {ℓ κ} {T : Type ℓ} {Q : Type κ} ⦃t : Ord T⦄ ⦃q : Ord Q⦄ ⦃b : Borrow T Q⦄ where
  pub against-IsProbe : (value : Q) → IsProbe {T = T} (against value)
  against-IsProbe value = record {
    below = λ x y h k. q.cmp_trans (b.borrow x) (b.borrow y) value (b.borrow_cmp x y ∙ h) k;
    meets = λ x y h k.
        q.cmp_reverse value (b.borrow y)
        ∙ ap reverse_ordering
            (sym (q.cmp_congr (b.borrow x) value (b.borrow y) k) ∙ (b.borrow_cmp x y ∙ h));
    above = λ x y h k.
        q.cmp_reverse value (b.borrow y)
        ∙ ap reverse_ordering (
            q.cmp_trans value (b.borrow x) (b.borrow y)
              (q.cmp_reverse (b.borrow x) value ∙ ap reverse_ordering k) (b.borrow_cmp x y ∙ h));
  }

module _ {ℓ} {T : Type ℓ} ⦃t : Ord T⦄ where
  pub against_item-IsProbe : (value : T) → IsProbe (against_item value)
  against_item-IsProbe value = against-IsProbe ⦃b = borrow_self {T = T}⦄ value

pub compare_trans : (a b c : ℕ) → compare a b ≡ lt → compare b c ≡ lt → compare a c ≡ lt
compare_trans a b c h k = ground arith

pub compare_congr : (a b c : ℕ) → compare a b ≡ eq → compare a c ≡ compare b c
compare_congr a b c h = ground arith

pub compare_reverse : (a b : ℕ) → compare b a ≡ reverse_ordering (compare a b)
compare_reverse a b = ground arith

pub compare_refl : (a : ℕ) → compare a a ≡ eq
compare_refl a = ground arith

instance abbrev pub nat_ord : Ord ℕ
nat_ord = record {
  cmp = compare;
  cmp_refl = compare_refl;
  cmp_reverse = compare_reverse;
  cmp_trans = compare_trans;
  cmp_congr = compare_congr;
}

instance abbrev pub nat_borrow : Borrow ℕ ℕ
nat_borrow = borrow_self
