-- ===== src/Tests/Coherent.antt =====
-- The results on the concurrent set at concrete states.
use indexset.Base.{
  fault, panic, ℕ, ◌≡◌, refl, List, [], ◌∷◌, Option, none, some, false, ok, ◌==◌, if◌then◌else◌,
  arith, ◌>>=◌,
}
use indexset.Order.{nat_ord, nat_borrow}
use indexset.Pair.{Pair, pair_ord}
use indexset.Cdc.{ChangeEvent}
use indexset.Concurrent.SkipMap.{entry}
use indexset.Concurrent.Operation.{Shared, Operation, split}
use indexset.Concurrent.Set.{
  pending, returned, put_begin, put_finish, put_cdc, insert, insert_all, with_maximum_node_size,
}
use indexset.Concurrent.Removal.{remove_begin, remove_finish, remove_cdc}
use indexset.Concurrent.Lookup.{contains, get, ref_get}
use indexset.Concurrent.Coherent.{IsCoherent, items, IsNumbered}
use indexset.Concurrent.Coherent.Query.{contains_shared_refines, get_shared_refines}
use indexset.Concurrent.Coherent.Put.{put_cdc_refines}
use indexset.Concurrent.Coherent.Removal.{remove_cdc_refines}
use indexset.Concurrent.Coherent.Collect.{insert_shared_refines, collect_refines, put-remove}
use indexset.Concurrent.Races.{lost_insertion, emptied_split}
use indexset.Node
use indexset.Concurrent.Stale.{overtaken_split}
use indexset.Concurrent.Coherent.Agree.{replace-put_cdc}
use indexset.Concurrent.Iter.{iter}
use indexset.Concurrent.Iter.Forward.{collect, iter_shared_refines}
use indexset.Set.{BTreeSet}
use indexset.Set.Valid
use indexset.Set.Valid.{IsValid}
use indexset.Set.Query
use indexset.Set.Update.{replace}
use indexset.Tests.Sums.{sums, sums_counts}
use indexset.Tests.Samples.{full_nodes, sample, sample-IsValid}
use indexset.Tests.Skip.{skip, skip_ordered}

abbrev State : Type 0
State = Shared (List (Pair ℕ ℕ)) ℕ

full_nodes-IsCoherent : IsCoherent full_nodes
full_nodes-IsCoherent = record {
  indexed = record {
    keyed = ((3, refl, refl), ((8, refl, refl), tt));
    distinct = ((refl, tt), (tt, tt));
    fresh = (omega arith, (omega arith, tt));
    sorted = ((refl, (refl, (refl, tt))), ((refl, (refl, tt)), ((refl, tt), (tt, tt))));
  };
  capacity = omega arith;
}

-- one node with one item
abbrev one_item : State
one_item = record {
  index = entry 5 0 ∷ [];
  cell = λ a. if a == 0 then 5 ∷ [] else [];
  next = 1;
  node_capacity = 2;
  event_id = 0;
}

contains_shared_refines_example : contains {Q = ℕ} full_nodes 4 ≡ ok false
contains_shared_refines_example = contains_shared_refines full_nodes 4 full_nodes-IsCoherent

get_shared_refines_example :
    (get {Q = ℕ} full_nodes 5 >>= λ r. elim r [
      | none ↦ ok none
      | some place ↦ (ref_get full_nodes place >>= λ x. ok (some x))
    ])
    ≡ ok (some 5)
get_shared_refines_example = get_shared_refines full_nodes 5 full_nodes-IsCoherent

put_cdc_refines_example :
    (cdc : List (ChangeEvent ℕ)) × (shared' : State) × (put_cdc 1 full_nodes 4
      ≡ ok (none, cdc, shared'))
    × IsCoherent shared'
    × (items shared' ≡ 1 ∷ 3 ∷ 4 ∷ 5 ∷ 8 ∷ [])
    × IsNumbered 7 cdc shared'.event_id
put_cdc_refines_example = put_cdc_refines full_nodes 4 full_nodes-IsCoherent 0

remove_cdc_refines_example :
    (cdc : List (ChangeEvent ℕ)) × (shared' : State) × (remove_cdc {Q = ℕ} full_nodes 8
      ≡ ok (some 8, cdc, shared'))
    × IsCoherent shared'
    × (items shared' ≡ 1 ∷ 3 ∷ 5 ∷ [])
    × IsNumbered 7 cdc shared'.event_id
remove_cdc_refines_example = remove_cdc_refines full_nodes 8 full_nodes-IsCoherent

insert_shared_refines_example :
    (shared' : State) × (insert 1 full_nodes 8 ≡ ok (false, shared'))
    × IsCoherent shared'
    × (items shared' ≡ 1 ∷ 3 ∷ 5 ∷ 8 ∷ [])
insert_shared_refines_example = insert_shared_refines 0 full_nodes 8 full_nodes-IsCoherent

collect_refines_example :
    (shared' : State) × (insert_all 1 (with_maximum_node_size 2) (4 ∷ 2 ∷ 9 ∷ 2 ∷ []) ≡ ok shared')
    × IsCoherent shared'
    × (items shared' ≡ 2 ∷ 4 ∷ 9 ∷ [])
collect_refines_example = collect_refines 0 (4 ∷ 2 ∷ 9 ∷ 2 ∷ []) 2 (omega arith)

put-remove_example :
    (old : Option ℕ) × (cdc cdc' : List (ChangeEvent ℕ)) × (put' removed : State) × (put_cdc 1
        full_nodes 6
      ≡ ok (old, cdc, put'))
    × ((get {Q = ℕ} put' 6 >>= λ r. elim r [
      | none ↦ ok none
      | some place ↦ (ref_get put' place >>= λ x. ok (some x))
    ])
        ≡ ok (some 6))
    × (remove_cdc {Q = ℕ} put' 6 ≡ ok (some 6, cdc', removed))
    × IsCoherent removed
    × (items removed ≡ 1 ∷ 3 ∷ 5 ∷ 8 ∷ [])
put-remove_example = put-remove 0 full_nodes 6 full_nodes-IsCoherent

lost_insertion_example :
    (op : Operation ℕ) × (s1 s2 s3 : State) × (cdc cdc' : List (ChangeEvent ℕ)) × (remove_begin
        {Q = ℕ} one_item 5
      ≡ ok (some 5, [], some op, s1))
    × (put_begin s1 2 ≡ ok (returned none cdc, s2))
    × (remove_finish s2 (some 5) [] op ≡ ok (some 5, cdc', s3))
    × (contains {Q = ℕ} s3 2 ≡ ok false)
lost_insertion_example = lost_insertion one_item 5 2 0 refl refl (omega arith) refl

overtaken_split_example :
    (max : ℕ) × (cdc cdc' : List (ChangeEvent ℕ)) × (between shared' : State) × (Node.max
        (full_nodes.cell 1)
      ≡ some max)
    × (put_begin full_nodes 6 ≡ ok (pending (split 1 8 6) [], full_nodes))
    × (remove_cdc {Q = ℕ} full_nodes 8 ≡ ok (some max, cdc, between))
    × (put_finish between (split 1 8 6) [] ≡ ok (none, between))
    × (put_cdc 1 between 6 ≡ ok (none, cdc', shared'))
    × IsCoherent shared'
    × (items shared' ≡ 1 ∷ 3 ∷ 5 ∷ 6 ∷ [])
unfolding Node.need_to_split
overtaken_split_example = overtaken_split 0 full_nodes 6 (entry 8 1) full_nodes-IsCoherent refl refl

replace-put_cdc_example :
    (old : Option ℕ) × (single' : BTreeSet (List ℕ) ℕ) × (cdc : List (ChangeEvent ℕ))
    × (shared' : State) × (replace sample 3 ≡ ok (old, single'))
    × (put_cdc 1 full_nodes 3 ≡ ok (old, cdc, shared'))
    × IsValid single'
    × IsCoherent shared'
    × (Valid.items single' ≡ items shared')
    × ((other : ℕ) → Query.contains {Q = ℕ} single' other ≡ contains {Q = ℕ} shared' other)
replace-put_cdc_example =
    replace-put_cdc 0 sample full_nodes 3 sample-IsValid full_nodes-IsCoherent refl

iter_shared_refines_example : collect 5 full_nodes (iter full_nodes) ≡ ok (1 ∷ 3 ∷ 5 ∷ 8 ∷ [])
iter_shared_refines_example = iter_shared_refines full_nodes full_nodes-IsCoherent

-- one node with two items, which is full
abbrev two_items : State
two_items = record {
  index = entry 5 0 ∷ [];
  cell = λ a. if a == 0 then 3 ∷ 5 ∷ [] else [];
  next = 1;
  node_capacity = 2;
  event_id = 0;
}

emptied_split_example :
    (op op' : Operation ℕ) × (s1 s2 : State) × (cdc : List (ChangeEvent ℕ)) × (put_begin two_items 4
      ≡ ok (pending op [], two_items))
    × (remove_cdc {Q = ℕ} two_items 3 ≡ ok (some 3, cdc, s1))
    × (remove_begin {Q = ℕ} s1 5 ≡ ok (some 5, [], some op', s2))
    × (put_finish s2 op [] ≡ fault panic)
emptied_split_example = emptied_split two_items 3 5 4 0 refl refl (omega arith) refl refl
