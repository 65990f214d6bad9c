-- ===== src/Tests/Sums.antt =====
-- A list of counts as a Fenwick tree: the behaviour that the set relies on can be met.
use indexset.Base.{
  ℕ, zero, suc, ◌+◌, ◌-◌, ◌≤◌, ◌<◌, ◌≡◌, refl, List, [], ◌∷◌, ◌++◌, length, take, sum, leb,
  if◌then◌else◌, arith,
}
use indexset.Fenwick.{FenwickTree, Counts}

pub index_of : List ℕ → ℕ → ℕ
index_of [] s = 0
index_of (n ∷ ns) s = if leb s n then 0 else suc (index_of ns (s - n))

pub prefix_sum : List ℕ → ℕ → ℕ → ℕ
prefix_sum ns i s = s + sum (take i ns)

pub add_at : List ℕ → ℕ → ℕ → List ℕ
add_at [] i d = []
add_at (n ∷ ns) zero d = (n + d) ∷ ns
add_at (n ∷ ns) (suc i) d = n ∷ add_at ns i d

pub sub_at : List ℕ → ℕ → ℕ → List ℕ
sub_at [] i d = []
sub_at (n ∷ ns) zero d = (n - d) ∷ ns
sub_at (n ∷ ns) (suc i) d = n ∷ sub_at ns i d

index_of_inside : (ns : List ℕ) (s : ℕ) → index_of ns s ≤ length ns
unfolding index_of
index_of_inside [] s = omega arith
index_of_inside (n ∷ ns) s = ground (arith, index_of_inside ns (s - n))

index_of_from : (ns : List ℕ) (s : ℕ) → sum (take (index_of ns s) ns) ≤ s
unfolding index_of
index_of_from [] s = omega arith
index_of_from (n ∷ ns) s = ground (arith, index_of_from ns (s - n))

index_of_to :
    (ns : List ℕ) (s : ℕ) → index_of ns s < length ns → s ≤ sum (take (suc (index_of ns s)) ns)
unfolding index_of
index_of_to [] s h = absurd (omega arith)
index_of_to (n ∷ ns) s h = ground (arith, index_of_to ns (s - n))

add_at_lem :
    (lo : List ℕ) (n : ℕ) (hi : List ℕ) (d : ℕ)
    → add_at (lo ++ n ∷ hi) (length lo) d ≡ lo ++ (n + d) ∷ hi
unfolding add_at
add_at_lem [] n hi d = refl
add_at_lem (m ∷ lo) n hi d = rw (add_at_lem lo n hi d)

sub_at_lem :
    (lo : List ℕ) (n : ℕ) (hi : List ℕ) (d : ℕ)
    → sub_at (lo ++ n ∷ hi) (length lo) d ≡ lo ++ (n - d) ∷ hi
unfolding sub_at
sub_at_lem [] n hi d = refl
sub_at_lem (m ∷ lo) n hi d = rw (sub_at_lem lo n hi d)

instance abbrev pub sums : FenwickTree (List ℕ)
sums = record {
  from_iter = λ ns. ns;
  index_of = index_of;
  prefix_sum = prefix_sum;
  add_at = add_at;
  sub_at = sub_at;
}

instance pub sums_counts : Counts (List ℕ)
unfolding prefix_sum
sums_counts = record {
  counts = λ ns. ns;
  counts-from_iter = λ ns. refl;
  prefix_sum_lem = λ ns i s h. refl;
  index_of_inside = index_of_inside;
  index_of_from = index_of_from;
  index_of_to = index_of_to;
  counts-add_at = λ ns lo n hi d e. rw e (add_at_lem lo n hi d);
  counts-sub_at = λ ns lo n hi d h e. rw e (sub_at_lem lo n hi d);
}
