-- ===== src/Node/Search.antt =====
-- The binary search of src/core/node.rs against the cut of a sorted node.
use indexset.Base.{
  ℕ, zero, suc, ◌+◌, ◌-◌, ◌/◌, ◌≤◌, ◌<◌, ◌≡◌, refl, ◌∙◌, List, [], ◌∷◌, ◌++◌, some, Ordering, lt,
  eq, gt, ok, length, length-append, get_elem?, arith, compare,
}
use indexset.Order.{Ord, Borrow, against}
use indexset.Order.Sorted.{All}
use indexset.Order.View.{Below, Above}
use indexset.Node.{search, search_loop, found, missing}

-- What the items of a list compare as, by their positions.
abbrev Reads {ℓ} : {T : Type ℓ} → (T → Ordering) → (ℕ → Ordering) → List T → Type ℓ
Reads {T} p c xs = (m : ℕ) → m < length xs → (x : T) × (get_elem? xs m ≡ some x) × (p x ≡ c m)

-- Position `m` of a list whose cut lies at `r`, without and with an item at the cut.
abbrev by_cut : ℕ → ℕ → Ordering
by_cut r m = elim (compare m r) [ lt ↦ lt | _ ↦ gt ]

module _ {ℓ} {T : Type ℓ} (p : T → Ordering) where
  All-get_elem? :
      (c : Ordering) (xs : List T)
      → All (λ x. p x ≡ c) xs
      → (m : ℕ) → m < length xs
      → (x : T) × (get_elem? xs m ≡ some x) × (p x ≡ c)
  All-get_elem? c [] h m l = absurd (omega arith)
  All-get_elem? c (x ∷ xs) h zero l = (x, refl, h.0)
  All-get_elem? c (x ∷ xs) h (suc m) l = All-get_elem? c xs h.1 m (omega arith)

  Reads-absent :
      (lo hi : List T) → Below p lo → Above p hi → Reads p (by_cut (length lo)) (lo ++ hi)
  Reads-absent [] hi h k m l = let r = All-get_elem? gt hi k m l in (r.0, r.1, r.2 ∙ (ground arith))
  Reads-absent (x ∷ lo) hi h k zero l = (x, refl, h.0 ∙ (ground arith))
  Reads-absent (x ∷ lo) hi h k (suc m) l =
      let r = Reads-absent lo hi h.1 k m (omega arith) in (r.0, r.1, r.2 ∙ (ground arith))

  Reads-present :
      (lo : List T) (y : T) (hi : List T)
      → Below p lo
      → p y ≡ eq
      → Above p hi
      → Reads p (λ m. compare m (length lo)) (lo ++ y ∷ hi)
  Reads-present [] y hi h e k zero l = (y, refl, e ∙ (ground arith))
  Reads-present [] y hi h e k (suc m) l =
      let r = All-get_elem? gt hi k m (omega arith) in (r.0, r.1, r.2 ∙ (ground arith))
  Reads-present (x ∷ lo) y hi h e k zero l = (x, refl, h.0 ∙ (ground arith))
  Reads-present (x ∷ lo) y hi h e k (suc m) l =
      let r = Reads-present lo y hi h.1 e k m (omega arith) in (r.0, r.1, r.2 ∙ (ground arith))

module _ {ℓ κ} {T : Type ℓ} {Q : Type κ} ⦃t : Ord T⦄ ⦃q : Ord Q⦄ ⦃b : Borrow T Q⦄ (needle : Q) where
  search_loop-absent :
      (r : ℕ) (xs : List T)
      → Reads (against needle) (by_cut r) xs
      → (fuel i j m : ℕ) → j - i < fuel
      → i ≤ r
      → r ≤ j
      → j ≤ length xs
      → m ≡ (i + j) / 2
      → search_loop fuel xs needle i j m ≡ ok (missing r)
  unfolding search_loop
  search_loop-absent r xs reads zero i j m f a c d e = absurd (omega arith)
  search_loop-absent r xs reads (suc fuel) i j m f a c d e = ground (
    arith,
    reads m,
    search_loop-absent r xs reads fuel (m + 1) j ((m + 1 + j) / 2),
    search_loop-absent r xs reads fuel i m ((i + m) / 2),
  )

  search_loop-present :
      (r : ℕ) (xs : List T)
      → Reads (against needle) (λ m. compare m r) xs
      → (fuel i j m : ℕ) → j - i < fuel
      → i ≤ r
      → r < j
      → j ≤ length xs
      → m ≡ (i + j) / 2
      → search_loop fuel xs needle i j m ≡ ok (found r)
  unfolding search_loop
  search_loop-present r xs reads zero i j m f a c d e = absurd (omega arith)
  search_loop-present r xs reads (suc fuel) i j m f a c d e = ground (
    arith,
    reads m,
    search_loop-present r xs reads fuel (m + 1) j ((m + 1 + j) / 2),
    search_loop-present r xs reads fuel i m ((i + m) / 2),
  )

  module _ (lo hi : List T) (below : Below (against needle) lo)
      (above : Above (against needle) hi) where
    pub search-absent : search (lo ++ hi) needle ≡ ok (missing (length lo))
    unfolding search
    search-absent =
        search_loop-absent (length lo) (lo ++ hi) (Reads-absent (against needle) lo hi below above)
          (suc (length (lo ++ hi))) 0 (length (lo ++ hi)) (length (lo ++ hi) / 2) (omega arith)
          (omega arith) (omega (arith, length-append lo hi)) (omega arith) (omega arith)

    pub search-present :
        (x : T) → against needle x ≡ eq → search (lo ++ x ∷ hi) needle ≡ ok (found (length lo))
    unfolding search
    search-present x e =
        search_loop-present (length lo) (lo ++ x ∷ hi)
          (Reads-present (against needle) lo x hi below e above) (suc (length (lo ++ x ∷ hi))) 0
          (length (lo ++ x ∷ hi)) (length (lo ++ x ∷ hi) / 2) (omega arith) (omega arith)
          (omega (arith, length-append lo (x ∷ hi))) (omega arith) (omega arith)
