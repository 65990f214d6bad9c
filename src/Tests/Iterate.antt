-- ===== src/Tests/Iterate.antt =====
-- Runs of the iterators and ranges of the concurrent set, and of the multimap.
use indexset.Base.{
  ℕ, zero, suc, ◌≡◌, refl, List, [], ◌∷◌, Option, none, some, Run, ok, fault, timeout, ◌>>=◌,
}
use indexset.Order.{nat_ord, nat_borrow}
use indexset.Node
use indexset.Node.{Bound, included, excluded, unbounded}
use indexset.Pair.{Pair}
use indexset.MultiPair.Order.{ord_multi_pair_ord}
use indexset.Concurrent.Operation.{Shared}
use indexset.Concurrent.Iter
use indexset.Concurrent.Iter.{Iter}
use indexset.Concurrent.Span
use indexset.Tests.Skip.{skip}
use indexset.Tests.Samples.{full_nodes}

abbrev State : Type 0
State = Shared (List (Pair ℕ ℕ)) ℕ

-- all that an iterator gives from the front
abbrev forwards : ℕ → State → Iter ℕ → Run (List ℕ)
forwards zero shared i = fault timeout
forwards (suc fuel) shared i = Iter.next 9 shared i >>= λ r. elim r.0 [
  | none ↦ ok []
  | some value ↦ (forwards fuel shared r.1 >>= λ rest. ok (value ∷ rest))
]

abbrev backwards : ℕ → State → Iter ℕ → Run (List ℕ)
backwards zero shared i = fault timeout
backwards (suc fuel) shared i = Iter.next_back 9 shared i >>= λ r. elim r.0 [
  | none ↦ ok []
  | some value ↦ (backwards fuel shared r.1 >>= λ rest. ok (value ∷ rest))
]

all_items : forwards 9 full_nodes (Iter.iter full_nodes) ≡ ok (1 ∷ 3 ∷ 5 ∷ 8 ∷ [])
unfolding Iter.iter Iter.next Node.rank Node.compute_positions_to_skip Node.skip
all_items = refl

all_items_back : backwards 9 full_nodes (Iter.iter full_nodes) ≡ ok (8 ∷ 5 ∷ 3 ∷ 1 ∷ [])
unfolding Iter.iter Iter.next_back Node.rank Node.compute_positions_to_skip Node.skip
all_items_back = refl

abbrev values : Option ℕ → List ℕ → List ℕ
values none rest = rest
values (some value) rest = value ∷ rest

abbrev both_ends : State → Iter ℕ → Run (List ℕ)
both_ends shared i = do
  a ← Iter.next 9 shared i
  b ← Iter.next_back 9 shared a.1
  rest ← forwards 9 shared b.1
  ok (values a.0 (values b.0 rest))

from_both_ends : both_ends full_nodes (Iter.iter full_nodes) ≡ ok (1 ∷ 8 ∷ 3 ∷ 5 ∷ [])
unfolding Iter.iter Iter.next Iter.next_back Node.rank Node.compute_positions_to_skip Node.skip
from_both_ends = refl

from_three :
    forwards 9 full_nodes (Span.range {Q = ℕ} full_nodes (included 3) unbounded).iter
    ≡ ok (3 ∷ 5 ∷ 8 ∷ [])
unfolding Span.range Iter.next Node.rank Node.compute_positions_to_skip Node.skip
from_three = refl

up_to_five :
    forwards 9 full_nodes (Span.range {Q = ℕ} full_nodes (excluded 1) (excluded 5)).iter
    ≡ ok (3 ∷ [])
unfolding Span.range Iter.next Node.rank Node.compute_positions_to_skip Node.skip
up_to_five = refl

above_all :
    forwards 9 full_nodes (Span.range {Q = ℕ} full_nodes (included 9) (included 20)).iter ≡ ok []
unfolding Span.range Iter.next Node.rank Node.compute_positions_to_skip Node.skip
above_all = refl
