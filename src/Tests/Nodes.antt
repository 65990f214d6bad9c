-- ===== src/Tests/Nodes.antt =====
-- Runs of the binary search, and the results on nodes at a concrete node.
use indexset.Base.{ℕ, List, [], ◌∷◌, refl, ◌≡◌, ok, true, some}
use indexset.Order.{nat_ord, nat_borrow}
use indexset.Node.{search, search_loop, found, missing, insert, delete}
use indexset.Node.Insert.{search_refines, insert_node_refines, delete_node_refines}

abbrev odd : List ℕ
odd = 1 ∷ 3 ∷ 5 ∷ 7 ∷ 9 ∷ []

search_hit : search {Q = ℕ} odd 7 ≡ ok (found 3)
unfolding search search_loop
search_hit = refl

search_miss : search {Q = ℕ} odd 6 ≡ ok (missing 3)
unfolding search search_loop
search_miss = refl

search_refines_example : search {T = ℕ} {Q = ℕ} (1 ∷ 3 ∷ []) 3 ≡ ok (found 1)
search_refines_example = search_refines {T = ℕ} {Q = ℕ} 3 (1 ∷ 3 ∷ []) ((refl, tt), (tt, tt))

insert_node_refines_example : insert {T = ℕ} (1 ∷ 3 ∷ []) 2 ≡ ok (true, 1, 1 ∷ 2 ∷ 3 ∷ [])
insert_node_refines_example = insert_node_refines {T = ℕ} 2 (1 ∷ 3 ∷ []) ((refl, tt), (tt, tt))

delete_node_refines_example : delete {T = ℕ} {Q = ℕ} (1 ∷ 3 ∷ []) 3 ≡ ok (some (3, 1), 1 ∷ [])
delete_node_refines_example =
    delete_node_refines {T = ℕ} {Q = ℕ} 3 (1 ∷ 3 ∷ []) ((refl, tt), (tt, tt))
