-- ===== src/Tests/Updates.antt =====
-- The results on the set's updates and on its tests by a probe, at a concrete set.
use indexset.Base.{ℕ, List, [], ◌∷◌, refl, ◌≡◌, ok, true, some, arith}
use indexset.Order.{nat_ord, nat_borrow}
use indexset.Pair.{Pair, pair_ord}
use indexset.Set.{BTreeSet}
use indexset.Set.Valid.{IsValid, items}
use indexset.Tests.Sums.{sums, sums_counts}
use indexset.Set.Update.{replace, pop_last, pop_index, get_mut_index, append, from_iter}
use indexset.Set.Update.Ends.{pop_last_refines}
use indexset.Set.Update.Bulk.{replace_refines, append_refines, from_iter_refines}
use indexset.Set.Update.Indexed.{pop_index_refines, get_mut_index_refines}
use indexset.Set.Update.{split_off}
use indexset.Set.Update.Division.{split_off_refines}
use indexset.Set.Iter
use indexset.Set.Iter.{Iter, collect, next, next_loop}
use indexset.Set.Iter.Forward.{iter_refines}
use indexset.Set.Merge.{merge, merge_next, difference_next, is_subset}
use indexset.Set.Update.{retain, delete_at}
use indexset.Base.{ltb, ◌>>=◌}
use indexset.Tests.Samples.{sample, sample-IsValid, one, two, five, sample_map, sample_map-IsValid}

replace_refines_example :
    (s' : BTreeSet (List ℕ) ℕ) × (replace sample 5 ≡ ok (some 5, s'))
    × IsValid s'
    × (items s' ≡ 1 ∷ 3 ∷ 5 ∷ 8 ∷ [])
replace_refines_example = replace_refines sample 5 sample-IsValid

pop_last_refines_example :
    (s' : BTreeSet (List ℕ) ℕ) × (pop_last sample ≡ ok (some 8, s'))
    × IsValid s'
    × (items s' ≡ 1 ∷ 3 ∷ 5 ∷ [])
pop_last_refines_example = pop_last_refines sample sample-IsValid

pop_index_refines_example :
    (x : ℕ) × (s' : BTreeSet (List ℕ) ℕ) × (pop_index sample 2 ≡ ok (x, s'))
    × (some 5 ≡ some x)
    × IsValid s'
    × (items s' ≡ 1 ∷ 3 ∷ 8 ∷ [])
pop_index_refines_example = pop_index_refines sample sample-IsValid 2 (omega arith)

get_mut_index_refines_example :
    (x : Pair ℕ ℕ) × (s' : BTreeSet (List ℕ) (Pair ℕ ℕ)) × (get_mut_index sample_map.set 2
        (λ e. record e { value = 99 })
      ≡ ok (some x, s'))
    × (some five ≡ some x)
    × IsValid s'
    × (items s' ≡ one ∷ two ∷ record { key = 5; value = 99 } ∷ [])
get_mut_index_refines_example =
    get_mut_index_refines sample_map.set sample_map-IsValid 2 (λ e. record e { value = 99 })
      (omega arith) (λ x. (λ z. refl, λ z. refl))

append_refines_example :
    (s' : BTreeSet (List ℕ) ℕ) × (other' : BTreeSet (List ℕ) ℕ) × (append sample sample
      ≡ ok (s', other'))
    × IsValid s'
    × IsValid other'
    × (items other' ≡ [])
    × (items s' ≡ 1 ∷ 3 ∷ 5 ∷ 8 ∷ [])
append_refines_example = append_refines sample sample sample-IsValid sample-IsValid

from_iter_refines_example :
    (s' : BTreeSet (List ℕ) ℕ) × (from_iter (5 ∷ 1 ∷ 5 ∷ []) ≡ ok s')
    × IsValid s'
    × (items s' ≡ 1 ∷ 5 ∷ [])
from_iter_refines_example = from_iter_refines (5 ∷ 1 ∷ 5 ∷ [])

iter_refines_example :
    (i : Iter (List ℕ) ℕ) × (Iter.new sample ≡ ok i) × (collect 5 i ≡ ok (1 ∷ 3 ∷ 5 ∷ 8 ∷ []))
iter_refines_example = iter_refines sample sample-IsValid

retain_above : (retain sample (λ x. ltb 4 x) >>= λ s. ok (items s)) ≡ ok (5 ∷ 8 ∷ [])
unfolding retain delete_at
retain_above = refl

subset_of_itself : is_subset sample sample ≡ ok true
unfolding is_subset merge Iter.new difference_next merge_next next next_loop
subset_of_itself = refl

split_off_refines_example :
    (s' : BTreeSet (List ℕ) ℕ) × (off : BTreeSet (List ℕ) ℕ) × (split_off {Q = ℕ} sample 5
      ≡ ok (s', off))
    × IsValid s'
    × IsValid off
    × (items s' ≡ 1 ∷ 3 ∷ [])
    × (items off ≡ 5 ∷ 8 ∷ [])
split_off_refines_example = split_off_refines sample sample-IsValid {Q = ℕ} 5
