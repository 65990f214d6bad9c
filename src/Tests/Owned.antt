-- ===== src/Tests/Owned.antt =====
-- Runs of the iterators over maps, and the result on an iterator that owns a set.
use indexset.Base.{[], ◌∷◌, ◌≡◌, refl, some, ok, ◌>>=◌}
use indexset.Order.{nat_ord}
use indexset.Set.IntoIter.{collect, into_iter, into_iter_refines}
use indexset.Set.Iter as SetIter
use indexset.Map.Iter
use indexset.Map.Keys
use indexset.Map.Values
use indexset.Tests.Sums.{sums, sums_counts}
use indexset.Tests.Samples.{sample, sample-IsValid, sample_map}

into_iter_refines_example : collect 5 (into_iter sample) ≡ ok (1 ∷ 3 ∷ 5 ∷ 8 ∷ [])
into_iter_refines_example = into_iter_refines sample sample-IsValid

first_entry : (Iter.iter sample_map >>= λ i. Iter.next i >>= λ r. ok r.0) ≡ ok (some (1, 10))
unfolding Iter.iter Iter.next SetIter.new SetIter.next SetIter.next_loop
first_entry = refl

second_key :
    (Keys.keys sample_map >>= λ i. Keys.next i >>= λ r. Keys.next r.1 >>= λ s. ok s.0) ≡ ok (some 2)
unfolding Keys.keys Keys.next SetIter.new SetIter.next SetIter.next_loop
second_key = refl

last_value : (Values.values sample_map >>= λ i. Values.next_back i >>= λ r. ok r.0) ≡ ok (some 50)
unfolding Values.values Values.next_back SetIter.new SetIter.next_back SetIter.next_back_loop
last_value = refl
