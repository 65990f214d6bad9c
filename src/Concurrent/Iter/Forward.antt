-- ===== src/Concurrent/Iter/Forward.antt =====
-- The iterator of a concurrent set that nothing else changes, from the front.
use indexset.Base.{
  get_last?, ℕ, zero, suc, ◌<◌, ◌≡◌, refl, sym, ap, ◌∙◌, List, [], ◌∷◌, ◌++◌, Option, none, some,
  false, gt, Run, ok, fault, timeout, ◌>>=◌, length, get_elem?, ◌==◌, ==_refl, arith, append_assoc,
  reverse_ordering,
}
use indexset.Set.Locate.Cut.{last}
use indexset.Order.{Ord}
use indexset.Order.Sorted.{All, All-append_right, IsSorted}
use indexset.Node
use indexset.Node.{excluded}
use indexset.Pair.{Pair}
use indexset.Concurrent.SkipMap.{SkipMap, Ordered}
use indexset.Concurrent.Operation.{Shared}
use indexset.Concurrent.Iter
use indexset.Concurrent.Iter.{iter, Iter, next, next_of}
use indexset.Concurrent.Coherent.{items, items_of, HasMax, IsDistinct, IsCoherent}

-- the calls of `next` until it returns nothing
abbrev pub collect {ℓ} :
    {M T : Type ℓ} ⦃t : Ord T⦄ ⦃s : SkipMap M T⦄ → ℕ → Shared M T → Iter T → Run (List T)
collect zero shared i = fault timeout
collect (suc calls) shared i = next 3 shared i >>= λ r. elim r.0 [
  | none ↦ ok []
  | some value ↦ (collect calls shared r.1 >>= λ rest. ok (value ∷ rest))
]

module _ {ℓ} {T : Type ℓ} where
  -- an iterator that has moved from the front alone
  abbrev at : ℕ → Option ℕ → Option (List T) → Option T → Iter T
  at node back slice value = record {
    current_front_node = some node;
    current_front_node_iter = slice;
    current_back_node = back;
    current_back_node_iter = none;
    current_front_value = value;
    current_back_value = none;
    met = false;
  }

  next_of-around :
      (before : List (Pair T ℕ)) (e : Pair T ℕ) (after : List (Pair T ℕ))
      → IsDistinct (before ++ e ∷ after)
      → next_of e.value (before ++ e ∷ after) ≡ get_elem? after 0
  next_of-around [] e after h = rw (==_refl e.value) refl
  next_of-around (x ∷ before) e after h =
      let apart : (e.value == x.value) ≡ false = (All-append_right _ before (e ∷ after) h.0).0 in
      let apart' : (x.value == e.value) ≡ false = ground arith in
      rw (apart', next_of) (next_of-around before e after h.1)

module _ {ℓ} {M T : Type ℓ} ⦃t : Ord T⦄ ⦃s : SkipMap M T⦄ (shared : Shared M T) (last : ℕ) where
  next-first :
      (node : ℕ) (w : T) (ws : List T)
      → shared.cell node ≡ w ∷ ws
      → next 3 shared (at node (some last) none none)
        ≡ ok (some w, at node (some last) (some ws) (some w))
  unfolding next
  next-first node w ws h = rw (h, next) refl

  next-end :
      (node : ℕ) (v : T)
      → next_of node (s.iter shared.index) ≡ none
      → (i : Iter T) × (next 3 shared (at node (some last) (some []) (some v)) ≡ ok (none, i))
  unfolding next
  next-end node v h =
      (record (at node (some last) none (some v)) { current_front_node = none }, rw (h, next) refl)

  next-on :
      (node : ℕ) (v : T) (e : Pair T ℕ) (w : T) (ws : List T)
      → next_of node (s.iter shared.index) ≡ some e
      → shared.cell e.value ≡ w ∷ ws
      → t.cmp w v ≡ gt
      → next 3 shared (at node (some last) (some []) (some v))
        ≡ ok (some w, at e.value (some last) (some ws) (some w))
  unfolding next Node.rank Node.compute_positions_to_skip Node.skip
  next-on node v e w ws h held above = rw (h, next) (rw held (rw above (rw held refl)))

module _ {ℓ} {M T : Type ℓ} ⦃t : Ord T⦄ ⦃s : SkipMap M T⦄ ⦃o : Ordered M T⦄ (shared : Shared M T)
    (coherent : IsCoherent shared) (last : ℕ) where
  -- the items of a node, which is not empty
  held : (node : List T) (key : T) → HasMax node key → (w : T) × (ws : List T) × (node ≡ w ∷ ws)
  held [] key (x, h, same) = absurd (ground (arith, h))
  held (w ∷ ws) key h = (w, ws, refl)

  -- from a value that was given, the rest of its node and the nodes behind it
  collect-from :
      (calls : ℕ) (before : List (Pair T ℕ)) (e : Pair T ℕ) (after : List (Pair T ℕ)) (v : T)
      (slice : List T)
      → s.iter shared.index ≡ before ++ e ∷ after
      → IsSorted (v ∷ (slice ++ items_of shared.cell after))
      → length (slice ++ items_of shared.cell after) < calls
      → collect calls shared (at e.value (some last) (some slice) (some v))
        ≡ ok (slice ++ items_of shared.cell after)
  unfolding next
  collect-from zero before e after v slice whole sorted enough = absurd (omega arith)
  collect-from (suc calls) before e after v (w ∷ ws) whole sorted enough =
      rw (collect-from calls before e after w ws whole sorted.1 (omega arith)) refl
  collect-from (suc calls) before e [] v [] whole sorted enough =
      let distinct : IsDistinct (before ++ e ∷ []) = rw (← whole) coherent.indexed.distinct in
      let r = next-end shared last e.value v (rw whole (next_of-around before e [] distinct)) in
      rw r.1 refl
  collect-from (suc calls) before e (e' ∷ after) v [] whole sorted enough =
      let distinct : IsDistinct (before ++ e ∷ e' ∷ after) =
        rw (← whole) coherent.indexed.distinct in
      let keyed : All (λ e. HasMax (shared.cell e.value) e.key) (before ++ e ∷ e' ∷ after) =
        rw (← whole) coherent.indexed.keyed in
      let (w, ws, holds) =
        held (shared.cell e'.value) e'.key (All-append_right _ before _ keyed).1.0 in
      let sorted' : IsSorted (v ∷ ((w ∷ ws) ++ items_of shared.cell after)) = rw holds at sorted in
      let above : t.cmp w v ≡ gt = t.cmp_reverse v w ∙ ap reverse_ordering sorted'.0.0 in
      let room : length ((w ∷ ws) ++ items_of shared.cell after) < suc calls = rw holds at enough in
      rw
        (next-on shared last e.value v e' w ws
          (rw whole (next_of-around before e (e' ∷ after) distinct)) holds above)
        (rw
          (collect-from calls (before ++ e ∷ []) e' after w ws
            (whole ∙ sym (append_assoc before (e ∷ []) (e' ∷ after))) sorted'.1
            (omega (arith, room)))
          (ap (λ l. ok (l ++ items_of shared.cell after)) (sym holds)))

module _ {ℓ} {M T : Type ℓ} ⦃t : Ord T⦄ ⦃s : SkipMap M T⦄ ⦃o : Ordered M T⦄ (shared : Shared M T)
    (coherent : IsCoherent shared) where
  collect-entries :
      (entries : List (Pair T ℕ))
      → s.iter shared.index ≡ entries
      → collect (suc (length (items_of shared.cell entries))) shared (iter shared)
        ≡ ok (items_of shared.cell entries)
  unfolding iter Iter.new next
  collect-entries [] whole =
      let front : s.front shared.index ≡ none =
        o.front_lem shared.index ∙ ap (λ l. get_elem? l 0) whole in
      rw (front, next) (rw front refl)
  collect-entries (e ∷ after) whole =
      let r = last (e ∷ after) tt in
      let front : s.front shared.index ≡ some e =
        o.front_lem shared.index ∙ ap (λ l. get_elem? l 0) whole in
      let back : s.back shared.index ≡ some r.1 =
        o.back_lem shared.index ∙ (ap get_last? whole ∙ r.3) in
      let keyed : All (λ e. HasMax (shared.cell e.value) e.key) (e ∷ after) =
        rw whole at coherent.indexed.keyed in
      let sorted : IsSorted (shared.cell e.value ++ items_of shared.cell after) =
        rw whole at coherent.indexed.sorted in
      let (w, ws, holds) = held shared coherent r.1.value (shared.cell e.value) e.key keyed.0 in
      let sorted' : IsSorted ((w ∷ ws) ++ items_of shared.cell after) = rw holds at sorted in
      rw (front, back)
        (rw (next-first shared r.1.value e.value w ws holds) (
          rw
            (collect-from shared coherent r.1.value
              (length (shared.cell e.value ++ items_of shared.cell after)) [] e after w ws whole
              sorted' (rw holds (omega arith)))
            (ap (λ l. ok (l ++ items_of shared.cell after)) (sym holds))))

  -- On a coherent set that does not change, `next` of an iterator, called until it returns nothing,
  -- gives all items in order, within one call more than there are items.
  pub iter_shared_refines :
      collect (suc (length (items shared))) shared (iter shared) ≡ ok (items shared)
  iter_shared_refines = collect-entries (s.iter shared.index) refl
