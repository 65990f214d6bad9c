-- ===== src/Tests/Sets.antt =====
-- Runs of the set, and the results on sets at a concrete set.
use indexset.Base.{ℕ, List, [], ◌∷◌, ◌≡◌, ok, true, false, some}
use indexset.Base.{Bool, arith}
use indexset.Order.{nat_ord, nat_borrow}
use indexset.Node
use indexset.Base.{refl, Run, ◌>>=◌}
use indexset.Set.Locate.{locate_node, locate_value}
use indexset.Set.{BTreeSet, with_maximum_node_size}
use indexset.Set.Valid.{IsValid, IsBounded, items}
use indexset.Set.Update.{insert_at, insert, delete}
use indexset.Set.Update.Insertion.{insert_refines, insert-IsBounded}
use indexset.Set.Update.Removal.{delete_refines}
use indexset.Set.Query.{contains, lower_bound, get, get_index}
use indexset.Set.Query.Lookup.{contains_refines, lower_bound_refines, get_refines}
use indexset.Set.Query.Position.{get_index_refines}
use indexset.Set.Cursor.{Cursor, peek_next, peek_prev, item, move_next, move_prev, moves_refines}
use indexset.Tests.Sums.{sums, sums_counts}
use indexset.Tests.Samples.{sample, sample-IsValid}

insert_refines_example :
    (s' : BTreeSet (List ℕ) ℕ) × (insert sample 4 ≡ ok (true, s'))
    × IsValid s'
    × (items s' ≡ 1 ∷ 3 ∷ 4 ∷ 5 ∷ 8 ∷ [])
insert_refines_example = insert_refines sample 4 sample-IsValid

delete_refines_example :
    (s' : BTreeSet (List ℕ) ℕ) × (delete {Q = ℕ} sample 5 ≡ ok (some 5, true, s'))
    × IsValid s'
    × (items s' ≡ 1 ∷ 3 ∷ 8 ∷ [])
delete_refines_example = delete_refines sample sample-IsValid {Q = ℕ} 5

contains_refines_example : contains {Q = ℕ} sample 4 ≡ ok false
contains_refines_example = contains_refines {Q = ℕ} sample 4 sample-IsValid

lower_bound_refines_example : lower_bound {Q = ℕ} sample 4 ≡ ok (some 5)
lower_bound_refines_example = lower_bound_refines {Q = ℕ} sample 4 sample-IsValid

get_refines_example : get {Q = ℕ} sample 4 ≡ ok (some 5)
get_refines_example = get_refines {Q = ℕ} sample 4 sample-IsValid

get_index_refines_example : get_index sample 3 ≡ some 8
get_index_refines_example = get_index_refines sample sample-IsValid 3

insert-IsBounded_example :
    (added : Bool) × (s' : BTreeSet (List ℕ) ℕ) × (insert sample 4 ≡ ok (added, s'))
    × IsBounded s'
    × (s'.node_capacity ≡ 2)
insert-IsBounded_example = insert-IsBounded sample 4 sample-IsValid (omega arith, (omega arith, tt))

-- With a capacity of 1, of two items that were inserted the first is not found.
abbrev inserted_twice : Run Bool
inserted_twice = do
  one ← insert {T = ℕ} {I = List ℕ} (with_maximum_node_size 1) 1
  two ← insert one.1 2
  contains {Q = ℕ} two.1 1

capacity_one : inserted_twice ≡ ok false
unfolding insert insert_at contains Node.insert locate_node locate_value Node.search
    Node.search_loop Node.halve
capacity_one = refl

-- beside the sample set
abbrev beside_sample : Cursor (List ℕ) ℕ
beside_sample = record { set = sample; idx = 4 }

moves_refines_example :
    (peek_next beside_sample ≡ item (move_next beside_sample))
    × (peek_prev beside_sample ≡ item (move_prev beside_sample))
    × (move_prev (move_next beside_sample) ≡ beside_sample)
    × (move_next (move_prev beside_sample) ≡ beside_sample)
moves_refines_example = moves_refines beside_sample sample-IsValid (omega arith)
