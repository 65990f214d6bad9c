-- ===== src/Set/CutSpec.antt =====
-- The reference operations on all items of a tree, at a cut of its nodes: they act on the chosen
-- node alone.
use indexset.Base.{
  ℕ, ◌+◌, ◌≡◌, ap, ◌∙◌, List, ◌∷◌, ◌++◌, Ordering, length, flatten, flatten-append, ok,
}
use indexset.Base.Vec
use indexset.Order.Spec
use indexset.Order.Spec.{count_below, find, erase}
use indexset.Order.View.{count_below-append, find-append, erase-append, insert-append}
use indexset.Order.Cuts.{
  count_below-append_right, find-append_right, erase-append_right, insert-append_right,
}
use indexset.Set.Locate.Cut.{Cut}

module _ {ℓ} {T : Type ℓ} {p : T → Ordering} (inner : List (List T)) (node_idx : ℕ)
    (k : Cut p inner node_idx) where
  pub flatten_cut : flatten inner ≡ flatten k.before ++ (k.node ++ flatten k.after)
  flatten_cut = ap flatten k.nodes_eq ∙ flatten-append k.before (k.node ∷ k.after)

  pub find-cut : find p (flatten inner) ≡ find p k.node
  find-cut = rw flatten_cut (
      find-append p (flatten k.before) (k.node ++ flatten k.after) k.below
      ∙ find-append_right p (flatten k.after) k.above k.node)

  pub count_below-cut :
      count_below p (flatten inner) ≡ length (flatten k.before) + count_below p k.node
  count_below-cut = rw flatten_cut (
      count_below-append p (flatten k.before) (k.node ++ flatten k.after) k.below
      ∙ ap (λ n. length (flatten k.before) + n)
          (count_below-append_right p (flatten k.after) k.above k.node))

  pub erase-cut : erase p (flatten inner) ≡ flatten (k.before ++ erase p k.node ∷ k.after)
  erase-cut =
      rw (flatten_cut, flatten-append k.before (erase p k.node ∷ k.after))
        (erase-append p (flatten k.before) (k.node ++ flatten k.after) k.below
          ∙ ap (λ l. flatten k.before ++ l) (erase-append_right p (flatten k.after) k.above k.node))

  pub insert-cut :
      (v : T)
      → Spec.insert p v (flatten inner) ≡ flatten (k.before ++ Spec.insert p v k.node ∷ k.after)
  insert-cut v =
      rw (flatten_cut, flatten-append k.before (Spec.insert p v k.node ∷ k.after))
        (insert-append p v (flatten k.before) (k.node ++ flatten k.after) k.below
          ∙ ap (λ l. flatten k.before ++ l)
              (insert-append_right p (flatten k.after) k.above v k.node))

  -- `inner[node_idx]`, and the nodes with another in its place
  pub index-cut : Vec.index inner node_idx ≡ ok k.node
  index-cut = rw (k.nodes_eq, k.node_idx_eq) (Vec.index_lem k.before k.node k.after)

  pub assign-cut :
      (node : List T) → Vec.assign inner node_idx node ≡ ok (k.before ++ node ∷ k.after)
  assign-cut node = rw (k.nodes_eq, k.node_idx_eq) (Vec.assign_lem k.before k.node node k.after)
