-- ===== src/Set/Iter/Forward.antt =====
-- `Iter::new` and `next` of src/lib.rs: stepping through a whole set yields its items in order.
use indexset.Base.{
  ℕ, zero, suc, ◌+◌, ◌-◌, ◌<◌, ◌≡◌, refl, sym, ap, ◌∙◌, List, [], ◌∷◌, ◌++◌, append_assoc, Option,
  none, some, true, false, length, length-append, flatten, leb, ◌==◌, arith, ok,
}
use indexset.Base.Vec
use indexset.Order.{Ord}
use indexset.Order.Sorted.{All}
use indexset.Fenwick.{FenwickTree, Counts}
use indexset.Set.{BTreeSet}
use indexset.Set.Locate.Cut.{last}
use indexset.Set.Valid.{IsNonempty, HasNodes, IsValid, items}
use indexset.Set.Nodes.{after-IsNonempty}
use indexset.Set.Iter.{Iter, new, next, next_loop, collect}

module _ {ℓ} {T : Type ℓ} {I : Type 0} (s : BTreeSet I T) (back_node back : ℕ)
    (back_iter : Option (List T)) where
  -- an iterator that stands in a node, with the rest of that node
  abbrev at_node : ℕ → ℕ → List T → Iter I T
  at_node node_idx idx rest = record {
    btree = s;
    current_front_node_idx = node_idx;
    current_front_idx = idx;
    current_back_node_idx = back_node;
    current_back_idx = back;
    current_front_iterator = some rest;
    current_back_iterator = back_iter;
  }

  next_loop-end :
      (fuel n idx : ℕ) (rest : List T)
      → (idx == back) ≡ true
      → next_loop (suc fuel) (at_node n idx rest) ≡ ok (none, at_node n idx rest)
  unfolding next_loop
  next_loop-end fuel n idx rest e = ground arith

  next_loop-item :
      (fuel n idx : ℕ) (x : T) (rest : List T)
      → (idx == back) ≡ false
      → next_loop (suc fuel) (at_node n idx (x ∷ rest)) ≡ ok (some x, at_node n (idx + 1) rest)
  unfolding next_loop
  next_loop-item fuel n idx x rest e = ground arith

  next_loop-skip :
      (fuel n idx : ℕ) (node : List T)
      → (idx == back) ≡ false
      → leb (length s.inner) (n + 1) ≡ false
      → Vec.index s.inner (n + 1) ≡ ok node
      → next_loop (suc fuel) (at_node n idx []) ≡ next_loop fuel (at_node (n + 1) idx node)
  unfolding next_loop
  next_loop-skip fuel n idx node e l i = ground arith

  next_item :
      (n idx : ℕ) (x : T) (rest : List T)
      → (idx == back) ≡ false
      → next (at_node n idx (x ∷ rest)) ≡ ok (some x, at_node n (idx + 1) rest)
  unfolding next
  next_item n idx x rest e = next_loop-item (length s.inner) n idx x rest e

  next_end :
      (n idx : ℕ) (rest : List T)
      → (idx == back) ≡ true
      → next (at_node n idx rest) ≡ ok (none, at_node n idx rest)
  unfolding next
  next_end n idx rest e = next_loop-end (length s.inner) n idx rest e

  next_node :
      (before : List (List T)) (node : List T) (x : T) (rest : List T) (after : List (List T))
      (idx : ℕ)
      → s.inner ≡ before ++ node ∷ (x ∷ rest) ∷ after
      → (idx == back) ≡ false
      → next (at_node (length before) idx [])
        ≡ ok (some x, at_node (length before + 1) (idx + 1) rest)
  unfolding next
  next_node before node x rest after idx e m =
      let shifted : s.inner ≡ (before ++ node ∷ []) ++ (x ∷ rest) ∷ after =
        e ∙ sym (append_assoc before (node ∷ []) ((x ∷ rest) ∷ after)) in
      let place : length before + 1 ≡ length (before ++ node ∷ []) =
        omega (arith, length-append before (node ∷ [])) in
      let nodes : length s.inner ≡ suc (length s.inner - 1) =
        omega (arith, ap length e, length-append before (node ∷ (x ∷ rest) ∷ after)) in
      next_loop-skip (length s.inner) (length before) idx (x ∷ rest) m
        (ground (arith, ap length e, length-append before (node ∷ (x ∷ rest) ∷ after)))
        (ap (λ l. Vec.index l (length before + 1)) shifted
          ∙ (ap (Vec.index ((before ++ node ∷ []) ++ (x ∷ rest) ∷ after)) place
              ∙ Vec.index_lem (before ++ node ∷ []) (x ∷ rest) after))
      ∙ (ap (λ fuel. next_loop fuel (at_node (length before + 1) idx (x ∷ rest))) nodes
          ∙ next_loop-item (length s.inner - 1) (length before + 1) idx x rest m)

  -- the two outcomes of a round of `collect`
  collect-end : (fuel : ℕ) (i i' : Iter I T) → next i ≡ ok (none, i') → collect (suc fuel) i ≡ ok []
  unfolding collect
  collect-end fuel i i' e = rw e

  collect-item :
      (fuel : ℕ) (i i' : Iter I T) (x : T) (xs : List T)
      → next i ≡ ok (some x, i')
      → collect fuel i' ≡ ok xs
      → collect (suc fuel) i ≡ ok (x ∷ xs)
  unfolding collect
  collect-item fuel i i' x xs e r = rw e (rw r)

  collect_from :
      (fuel : ℕ) (before : List (List T)) (node rest : List T) (after : List (List T)) (n idx : ℕ)
      → s.inner ≡ before ++ node ∷ after
      → n ≡ length before
      → All IsNonempty after
      → idx + length (rest ++ flatten after) ≡ back
      → length (rest ++ flatten after) < fuel
      → collect fuel (at_node n idx rest) ≡ ok (rest ++ flatten after)
  collect_from zero before node rest after n idx e en h b l = absurd (omega arith)
  collect_from (suc fuel) before node (x ∷ rest) after n idx e en h b l =
      collect-item fuel (at_node n idx (x ∷ rest)) (at_node n (idx + 1) rest) x
        (rest ++ flatten after) (next_item n idx x rest (ground arith))
        (collect_from fuel before node rest after n (idx + 1) e en h (omega arith) (omega arith))
  collect_from (suc fuel) before node [] [] n idx e en h b l =
      collect-end fuel (at_node n idx []) (at_node n idx []) (next_end n idx [] (ground arith))
  collect_from (suc fuel) before node [] ([] ∷ after) n idx e en h b l = absurd h.0
  collect_from (suc fuel) before node [] ((x ∷ rest) ∷ after) n idx e en h b l =
      collect-item fuel (at_node n idx []) (at_node (n + 1) (idx + 1) rest) x
        (rest ++ flatten after) (rw en (next_node before node x rest after idx e (ground arith)))
        (collect_from fuel (before ++ node ∷ []) (x ∷ rest) rest after (n + 1) (idx + 1)
          (e ∙ sym (append_assoc before (node ∷ []) ((x ∷ rest) ∷ after)))
          (omega (arith, length-append before (node ∷ []))) h.1 (omega arith) (omega arith))

module _ {ℓ} {T : Type ℓ} {I : Type 0} ⦃t : Ord T⦄ ⦃f : FenwickTree I⦄ ⦃c : Counts I⦄
    (s : BTreeSet I T) (valid : IsValid s) where
  -- `Iter::new` of a set of nodes, the first and the last of which are read
  new_lem :
      (first last_node : List T)
      → Vec.index s.inner 0 ≡ ok first
      → Vec.index s.inner (length s.inner - 1) ≡ ok last_node
      → new s ≡ ok (at_node s (length s.inner - 1) s.len (some last_node) 0 0 first)
  unfolding new
  new_lem first last_node e k = rw e (rw k)

  last_read :
      (inner : List (List T))
      → s.inner ≡ inner
      → IsNonempty inner
      → (node : List T) × (Vec.index s.inner (length s.inner - 1) ≡ ok node)
  last_read inner e h =
      let (init, node, split, read) = last inner h in
      let whole : s.inner ≡ init ++ node ∷ [] = e ∙ split in
      let place : length s.inner - 1 ≡ length init =
        omega (arith, ap length whole, length-append init (node ∷ [])) in
      (
        node,
        ap (Vec.index s.inner) place
            ∙ (ap (λ l. Vec.index l (length init)) whole ∙ Vec.index_lem init node []),
      )

  iterated_at :
      (inner : List (List T))
      → s.inner ≡ inner
      → HasNodes inner
      → (i : Iter I T) × (new s ≡ ok i) × (collect (suc s.len) i ≡ ok (items s))
  iterated_at [] e h = absurd h
  iterated_at (node ∷ after) e h =
      let (last_node, read) = last_read (node ∷ after) e tt in
      (
        at_node s (length s.inner - 1) s.len (some last_node) 0 0 node,
        new_lem node last_node (ap (λ l. Vec.index l 0) e) read,
        collect_from s (length s.inner - 1) s.len (some last_node) (suc s.len) [] node node after 0
              0 e refl (after-IsNonempty [] node after h)
              (omega (arith, valid.measured, ap (λ l. length (flatten l)) e))
              (omega (arith, valid.measured, ap (λ l. length (flatten l)) e))
            ∙ ap (λ l. ok (flatten l)) (sym e),
      )

  -- On a valid set `iter` returns an iterator, and calling `next` until it returns nothing yields all
  -- items of the set, in order, within `len` and one more calls.
  pub iter_refines : (i : Iter I T) × (new s ≡ ok i) × (collect (suc s.len) i ≡ ok (items s))
  iter_refines = iterated_at s.inner refl valid.nodes
