-- ===== src/Fenwick.antt =====
-- The crate `ftree`, which the single-threaded set indexes its nodes by. It is not part of the
-- repository: its tree is a parameter, with the operations that the set calls and the behaviour
-- that the set relies on.
use indexset.Base.{ℕ, suc, ◌+◌, ◌-◌, ◌≤◌, ◌<◌, ◌≡◌, List, ◌∷◌, ◌++◌, length, take, sum}

-- `ftree::FenwickTree<usize>`
pub record FenwickTree (I : Type 0) : Type 0 where
  pub from_iter : List ℕ → I
  pub index_of : I → ℕ → ℕ
  pub prefix_sum : I → ℕ → ℕ → ℕ
  pub add_at : I → ℕ → ℕ → I
  pub sub_at : I → ℕ → ℕ → I

-- The documented behaviour: the tree stands for a list of counts, `prefix_sum` adds up the counts
-- before an index, and `index_of` finds the slot in which a sum is contained. Where a sum ends one
-- slot the answer may be that slot or the next.
pub record Counts (I : Type 0) ⦃f : FenwickTree I⦄ : Type 0 where
  pub counts : I → List ℕ
  pub counts-from_iter : (ns : List ℕ) → counts (f.from_iter ns) ≡ ns
  pub prefix_sum_lem :
      (t : I) (i s : ℕ) → i ≤ length (counts t) → f.prefix_sum t i s ≡ s + sum (take i (counts t))
  pub index_of_inside : (t : I) (s : ℕ) → f.index_of t s ≤ length (counts t)
  pub index_of_from : (t : I) (s : ℕ) → sum (take (f.index_of t s) (counts t)) ≤ s
  pub index_of_to :
      (t : I) (s : ℕ)
      → f.index_of t s < length (counts t)
      → s ≤ sum (take (suc (f.index_of t s)) (counts t))
  pub counts-add_at :
      (t : I) (lo : List ℕ) (n : ℕ) (hi : List ℕ) (d : ℕ)
      → counts t ≡ lo ++ n ∷ hi
      → counts (f.add_at t (length lo) d) ≡ lo ++ (n + d) ∷ hi
  pub counts-sub_at :
      (t : I) (lo : List ℕ) (n : ℕ) (hi : List ℕ) (d : ℕ)
      → d ≤ n
      → counts t ≡ lo ++ n ∷ hi
      → counts (f.sub_at t (length lo) d) ≡ lo ++ (n - d) ∷ hi
