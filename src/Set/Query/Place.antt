-- ===== src/Set/Query/Place.antt =====
-- `locate_ith` of src/lib.rs at a position of a valid set: the item that is there.
use indexset.Base.{
  ℕ, zero, suc, ◌+◌, ◌-◌, ◌≤◌, ◌<◌, ◌≡◌, refl, sym, ap, ◌∙◌, List, [], ◌∷◌, ◌++◌, map, length,
  length-append, flatten, take, sum, arith, ◌==◌, inl, inr, Bool-cases, true, false,
}
use indexset.Order.{Ord}
use indexset.Order.Sorted.{All}
use indexset.Fenwick.{FenwickTree, Counts}
use indexset.Set.{BTreeSet}
use indexset.Set.Locate.{locate_ith, next_if_past}
use indexset.Set.Valid.{IsNonempty, IsValid, items}
use indexset.Set.Query.Position.{
  RestNonempty, RestNonempty-of_All, RestNonempty-of_HasNodes, node_of, start_of, locate_ith_lem,
  node_of_inside, start_of_below, node_of_upto,
}

-- a place in the nodes that holds the item at a position in the order
pub record Place {ℓ} {T : Type ℓ} (inner : List (List T)) (idx : ℕ) (found : ℕ × ℕ) : Type ℓ where
  pub before : List (List T)
  pub lo : List T
  pub item : T
  pub hi : List T
  pub after : List (List T)
  pub nodes_eq : inner ≡ before ++ (lo ++ item ∷ hi) ∷ after
  pub found_eq : found ≡ (length before, length lo)
  pub idx_eq : idx ≡ length (flatten before) + length lo

-- a list around one of its positions
abbrev Around {ℓ} : {A : Type ℓ} → List A → ℕ → Type ℓ
Around {A} xs j = (lo : List A) × (x : A) × (hi : List A) × (xs ≡ lo ++ x ∷ hi) × (j ≡ length lo)

around {ℓ} : {A : Type ℓ} (xs : List A) (j : ℕ) → j < length xs → Around xs j
around [] j h = absurd (omega arith)
around (x ∷ xs) zero h = ([], x, xs, refl, refl)
around (x ∷ xs) (suc j) h =
    let (lo, y, hi, e, n) = around xs j (omega arith) in
    (x ∷ lo, y, hi, ap (λ l. x ∷ l) e, ap suc n)

module _ {ℓ} {T : Type ℓ} where
  next_if_past-cons :
      (node : List T) (inner : List (List T)) (i j : ℕ)
      → next_if_past (node ∷ inner) (suc i) j
        ≡ (suc (next_if_past inner i j).0, (next_if_past inner i j).1)
  next_if_past-cons node inner i j = ground arith

  next_if_past-end :
      (node : List T) (inner : List (List T)) (j : ℕ)
      → (j == length node) ≡ true
      → next_if_past (node ∷ inner) 0 j ≡ (1, 0)
  next_if_past-end node inner j e = ground arith

  next_if_past-within :
      (node : List T) (inner : List (List T)) (j : ℕ)
      → (j == length node) ≡ false
      → next_if_past (node ∷ inner) 0 j ≡ (0, j)
  next_if_past-within node inner j e = ground arith

  -- a position at the end of a node is the first of the next
  Place-next :
      (node : List T) (inner : List (List T))
      → All IsNonempty inner
      → length node < length (flatten (node ∷ inner))
      → Place (node ∷ inner) (length node) (1, 0)
  Place-next node [] h l = absurd (omega (arith, length-append node []))
  Place-next node ([] ∷ inner) h l = absurd h.0
  Place-next node ((x ∷ next) ∷ inner) h l = record {
    before = node ∷ [];
    lo = [];
    item = x;
    hi = next;
    after = inner;
    nodes_eq = refl;
    found_eq = refl;
    idx_eq = omega (arith, length-append node []);
  }

  Place-start :
      (node : List T) (inner : List (List T)) (j : ℕ)
      → All IsNonempty inner
      → j ≤ length node
      → j < length (flatten (node ∷ inner))
      → Place (node ∷ inner) j (next_if_past (node ∷ inner) 0 j)
  Place-start node inner j h l m = elim (Bool-cases (j == length node)) [
    | inl end ↦
        let e : j ≡ length node = ground arith in
        rw (next_if_past-end node inner j end) (rw e (Place-next node inner h (omega arith)))
    | inr within ↦
        let (lo, x, hi, split, n) = around node j (ground arith) in
        rw (next_if_past-within node inner j within) (record {
          before = [];
          lo = lo;
          item = x;
          hi = hi;
          after = inner;
          nodes_eq = ap (λ l. l ∷ inner) split;
          found_eq = ap (λ y. (0, y)) n;
          idx_eq = omega (arith, n);
        })
  ]

  Place-at :
      (inner : List (List T)) (i j : ℕ)
      → RestNonempty inner
      → i ≤ length inner
      → (i < length inner
          → sum (take i (map length inner)) + j ≤ sum (take (suc i) (map length inner)))
      → sum (take i (map length inner)) + j < length (flatten inner)
      → Place inner (sum (take i (map length inner)) + j) (next_if_past inner i j)
  Place-at [] i j h l k m = absurd (omega arith)
  Place-at (node ∷ inner) zero j h l k m =
      let e : 0 + j ≡ j = omega arith in
      rw e (Place-start node inner j h (omega (arith, k (omega arith))) (omega arith))
  Place-at (node ∷ inner) (suc i) j h l k m =
      let r =
        Place-at inner i j (RestNonempty-of_All inner h) (omega arith)
          (λ m. omega (arith, k (omega arith)))
          (omega (arith, length-append node (flatten inner))) in
      record {
        before = node ∷ r.before;
        lo = r.lo;
        item = r.item;
        hi = r.hi;
        after = r.after;
        nodes_eq = ap (λ l. node ∷ l) r.nodes_eq;
        found_eq = next_if_past-cons node inner i j ∙ ap (λ p. (suc p.0, p.1)) r.found_eq;
        idx_eq = omega (arith, r.idx_eq, length-append node (flatten r.before));
      }

module _ {ℓ} {T : Type ℓ} {I : Type 0} ⦃t : Ord T⦄ ⦃f : FenwickTree I⦄ ⦃c : Counts I⦄
    (s : BTreeSet I T) (valid : IsValid s) where
  pub locate_ith-Place : (idx : ℕ) → idx < length (items s) → Place s.inner idx (locate_ith s idx)
  unfolding start_of
  locate_ith-Place idx h =
      let whole : start_of s valid idx + (idx - start_of s valid idx) ≡ idx =
        omega (arith, start_of_below s valid idx) in
      let r =
        Place-at s.inner (node_of s valid idx) (idx - start_of s valid idx)
          (RestNonempty-of_HasNodes s.inner valid.nodes) (node_of_inside s valid idx)
          (node_of_upto s valid idx) (omega (arith, start_of_below s valid idx)) in
      record {
        before = r.before;
        lo = r.lo;
        item = r.item;
        hi = r.hi;
        after = r.after;
        nodes_eq = r.nodes_eq;
        found_eq = locate_ith_lem s valid idx ∙ r.found_eq;
        idx_eq = sym whole ∙ r.idx_eq;
      }
