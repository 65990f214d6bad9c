-- ===== src/Set/Counting.antt =====
-- The Fenwick tree of a set when one node grows, shrinks or is only rewritten.
use indexset.Base.{
  ◌+◌, ◌-◌, ◌≡◌, refl, sym, ap, ◌∙◌, List, [], ◌∷◌, ◌++◌, map, length, length-map, arith,
}
use indexset.Fenwick.{FenwickTree, Counts}

pub map_around {ℓ} :
    {A : Type ℓ} (before : List (List A)) (node : List A) (after : List (List A))
    → map length (before ++ node ∷ after) ≡ map length before ++ length node ∷ map length after
map_around [] node after = refl
map_around (first ∷ before) node after = ap (λ l. length first ∷ l) (map_around before node after)

module _ {ℓ} {A : Type ℓ} {I : Type 0} ⦃f : FenwickTree I⦄ ⦃c : Counts I⦄ (t : I)
    (before : List (List A)) (node node' : List A) (after : List (List A))
    (counted : c.counts t ≡ map length (before ++ node ∷ after)) where
  pub counts_grow :
      length node' ≡ length node + 1
      → c.counts (f.add_at t (length before) 1) ≡ map length (before ++ node' ∷ after)
  counts_grow e =
      rw (map_around before node' after, e, ← length-map before length)
        (c.counts-add_at t (map length before) (length node) (map length after) 1
          (counted ∙ map_around before node after))

  pub counts_shrink :
      length node' + 1 ≡ length node
      → c.counts (f.sub_at t (length before) 1) ≡ map length (before ++ node' ∷ after)
  counts_shrink e =
      let e' : length node' ≡ length node - 1 = omega arith in
      rw (map_around before node' after, e', ← length-map before length)
        (c.counts-sub_at t (map length before) (length node) (map length after) 1 (omega arith)
          (counted ∙ map_around before node after))

  pub counts_same : length node' ≡ length node → c.counts t ≡ map length (before ++ node' ∷ after)
  counts_same e =
      counted
      ∙ (map_around before node after
          ∙ (ap (λ n. map length before ++ n ∷ map length after) (sym e)
              ∙ sym (map_around before node' after)))
