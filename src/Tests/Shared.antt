-- ===== src/Tests/Shared.antt =====
-- Runs of the concurrent set.
use indexset.Base.{ℕ, ◌≡◌, refl, List, [], ◌∷◌, map, Run, ok, ◌>>=◌}
use indexset.Order.{nat_ord, nat_borrow}
use indexset.Node
use indexset.Node.{included, excluded, unbounded}
use indexset.Pair.{Pair, pair_ord}
use indexset.Concurrent.Operation.{Shared, commit}
use indexset.Concurrent.Set.{
  insert, insert_all, put_cdc, put_cdc_checked, put_begin, put_first, put_finish,
  with_maximum_node_size,
}
use indexset.Concurrent.Range.{remove_range}
use indexset.Tests.Skip.{skip, skip_ordered}

abbrev State : Type 0
State = Shared (List (Pair ℕ ℕ)) ℕ

-- the nodes, in the order of the index
abbrev nodes : State → List (List ℕ)
nodes shared = map (λ e. shared.cell e.value) shared.index

abbrev six : Run State
six = insert_all 2 (with_maximum_node_size 2) (1 ∷ 3 ∷ 5 ∷ 7 ∷ 9 ∷ 4 ∷ [])

six_nodes :
    (six >>= λ s. ok (nodes s)) ≡ ok ((1 ∷ []) ∷ (3 ∷ []) ∷ (4 ∷ 5 ∷ []) ∷ (7 ∷ 9 ∷ []) ∷ [])
unfolding insert_all insert put_cdc put_cdc_checked put_begin put_first put_finish
    with_maximum_node_size commit Node.insert Node.search Node.search_loop Node.halve
    Node.need_to_split Node.max Node.replace
six_nodes = refl

-- An unbounded end is taken for the first node, whose item 1 goes too.
without_above :
    (six >>= λ s. remove_range {Q = ℕ} s (included 5) unbounded >>= λ r. ok (nodes r))
    ≡ ok ((3 ∷ []) ∷ (4 ∷ []) ∷ [])
unfolding insert_all insert put_cdc put_cdc_checked put_begin put_first put_finish
    with_maximum_node_size commit Node.insert Node.search Node.search_loop Node.halve
    Node.need_to_split Node.max Node.replace remove_range Node.rank Node.compute_positions_to_skip
    Node.skip
without_above = refl

-- An end above all items, and a start that a node begins with: nothing is removed.
up_to_ten :
    (six >>= λ s. remove_range {Q = ℕ} s (included 3) (included 10) >>= λ r. ok (nodes r))
    ≡ ok ((1 ∷ []) ∷ (3 ∷ []) ∷ (4 ∷ 5 ∷ []) ∷ (7 ∷ 9 ∷ []) ∷ [])
unfolding insert_all insert put_cdc put_cdc_checked put_begin put_first put_finish
    with_maximum_node_size commit Node.insert Node.search Node.search_loop Node.halve
    Node.need_to_split Node.max Node.replace remove_range Node.rank Node.compute_positions_to_skip
    Node.skip
up_to_ten = refl
