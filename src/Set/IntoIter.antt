-- ===== src/Set/IntoIter.antt =====
-- src/lib.rs: `IntoIter`, the iterator that owns a set: it pops an item off either end.
use indexset.Base.{
  ℕ, zero, suc, ◌≡◌, refl, ap, ◌∙◌, List, [], ◌∷◌, Option, none, some, Run, ok, fault, timeout,
  ◌>>=◌, length, drop,
}
use indexset.Order.{Ord}
use indexset.Fenwick.{FenwickTree, Counts}
use indexset.Set.{BTreeSet}
use indexset.Set.Update.{pop_first, pop_last}
use indexset.Set.Update.Ends.{pop_first_refines}
use indexset.Set.Valid.{IsValid, items}

pub record IntoIter {ℓ} (I : Type 0) (T : Type ℓ) : Type ℓ where
  pub btree : BTreeSet I T

module _ {ℓ} {T : Type ℓ} {I : Type 0} where
  unfoldable pub into_iter : BTreeSet I T → IntoIter I T
  into_iter s = record { btree = s }

module _ {ℓ} {T : Type ℓ} {I : Type 0} ⦃f : FenwickTree I⦄ where
  unfoldable pub next : IntoIter I T → Run (Option T × IntoIter I T)
  next i = do r ← pop_first i.btree; ok (r.0, record { btree = r.1 })

  unfoldable pub next_back : IntoIter I T → Run (Option T × IntoIter I T)
  next_back i = do r ← pop_last i.btree; ok (r.0, record { btree = r.1 })

  -- what an iterator yields up to its end, as `collect` does
  unfoldable pub collect : ℕ → IntoIter I T → Run (List T)
  collect zero i = fault timeout
  collect (suc fuel) i =
      next i >>= λ r. elim r.0 [ none ↦ ok [] | some x ↦ (collect fuel r.1 >>= λ xs. ok (x ∷ xs)) ]

module _ {ℓ} {T : Type ℓ} {I : Type 0} ⦃t : Ord T⦄ ⦃f : FenwickTree I⦄ ⦃c : Counts I⦄ where
  collect_from :
      (xs : List T) (s : BTreeSet I T)
      → IsValid s
      → items s ≡ xs
      → collect (suc (length xs)) (into_iter s) ≡ ok xs
  unfolding collect next into_iter
  collect_from [] s valid e =
      let (s', popped, valid', rest) = pop_first_refines s valid in rw popped (rw e refl)
  collect_from (x ∷ xs) s valid e =
      let (s', popped, valid', rest) = pop_first_refines s valid in
      rw popped (rw e (rw (collect_from xs s' valid' (rest ∙ ap (drop 1) e)) refl))

  -- On a valid set calling `next` of the iterator that owns it, until it returns nothing, yields all
  -- items of the set, in order, within `len` and one more calls.
  pub into_iter_refines :
      (s : BTreeSet I T) → IsValid s → collect (suc s.len) (into_iter s) ≡ ok (items s)
  into_iter_refines s valid =
      ap (λ n. collect (suc n) (into_iter s)) valid.measured ∙ collect_from (items s) s valid refl
