-- ===== src/Tests/Maps.antt =====
-- The results on maps at a concrete map.
use indexset.Base.{ℕ, List, [], ◌∷◌, ◌≡◌, ◌>>=◌, get_elem?, ok, some, none}
use indexset.Order.{nat_ord, nat_borrow, against_item}
use indexset.Set.Valid.{IsValid}
use indexset.Tests.Sums.{sums, sums_counts}
use indexset.Pair.{pair_ord}
use indexset.Map.{BTreeMap, get, remove, insert}
use indexset.Map.Refines.{entries, get_key_refines, remove_key_refines}
use indexset.Order.Spec.{find}
use indexset.Order.Slices.{slice}
use indexset.Map.Entry.{entry, or_insert}
use indexset.Map.Entry.Laws.{pair, or_insert_refines}
use indexset.Node.{included, excluded}
use indexset.Map.{range_to_idx}
use indexset.Map.Bounds.{range_to_idx_refines}
use indexset.Map.Cursor.{lower_bound, key_value, lower_bound_key_refines}
use indexset.Map.Insertion.{insert_key_refines}
use indexset.Tests.Samples.{one, two, five, sample_map, sample_map-IsValid}

get_key_refines_example : get {Q = ℕ} sample_map 5 ≡ ok (some 50)
get_key_refines_example = get_key_refines sample_map sample_map-IsValid {Q = ℕ} 5

remove_key_refines_example :
    (m' : BTreeMap (List ℕ) ℕ ℕ) × (remove {Q = ℕ} sample_map 2 ≡ ok (some 20, m'))
    × IsValid m'.set
    × (entries m' ≡ one ∷ five ∷ [])
remove_key_refines_example = remove_key_refines sample_map sample_map-IsValid {Q = ℕ} 2

insert_key_refines_example :
    (m' : BTreeMap (List ℕ) ℕ ℕ) × (insert sample_map 2 21 ≡ ok (some 20, m'))
    × IsValid m'.set
    × (entries m' ≡ one ∷ record { key = 2; value = 21 } ∷ five ∷ [])
insert_key_refines_example = insert_key_refines sample_map sample_map-IsValid 2 21

or_insert_refines_example :
    (m' : BTreeMap (List ℕ) ℕ ℕ) × (idx : ℕ) × ((entry sample_map 4 >>= λ e. or_insert e 40)
      ≡ ok (m', idx))
    × IsValid m'.set
    × (entries m' ≡ one ∷ two ∷ pair 4 40 ∷ five ∷ [])
    × (get_elem? (entries m') idx ≡ find (against_item (pair 4 40)) (entries m'))
or_insert_refines_example = or_insert_refines sample_map 4 40 sample_map-IsValid

range_to_idx_refines_example :
    (first last : ℕ) × (range_to_idx {Q = ℕ} sample_map (included 2) (included 4)
      ≡ ok (first, last))
    × (slice first last (entries sample_map) ≡ two ∷ five ∷ [])
range_to_idx_refines_example =
    range_to_idx_refines {Q = ℕ} sample_map sample_map-IsValid (included 2) (included 4)

lower_bound_key_refines_example :
    (lower_bound {Q = ℕ} sample_map (excluded 3) >>= λ at. ok (key_value at)) ≡ ok none
lower_bound_key_refines_example =
    lower_bound_key_refines {Q = ℕ} sample_map sample_map-IsValid (excluded 3)
