-- ===== src/Set/Update/Insertion.antt =====
-- `insert` of src/lib.rs, on every path: it adds what is missing and keeps the invariant.
use indexset.Base.{
  ℕ, ◌/◌, ◌≤◌, ◌≡◌, sym, ap, List, [], ◌∷◌, ◌++◌, Bool, not, length, arith, ok, ◌==◌, inl, inr,
  Bool-cases, take, drop, take-append-drop, length-take, length-drop, refl,
}
use indexset.Base.Vec
use indexset.Order.{Ord, against_item, borrow_self}
use indexset.Order.Spec
use indexset.Order.Spec.{find, is_some}
use indexset.Fenwick.{FenwickTree, Counts}
use indexset.Node.{halve}
use indexset.Set.{BTreeSet}
use indexset.Set.Valid.{IsNonempty, IsValid, IsBounded, items}
use indexset.Set.Nodes.{IsNonempty-of_length}
use indexset.Set.Locate.{locate_node}
use indexset.Set.Locate.Cut.{Cut, locate_node-Cut}
use indexset.Set.Update.{insert, insert_at}
use indexset.Set.Update.Insert.{
  fresh, Inserted, Inserted-IsValid, insert_at-direct, direct, direct-Inserted,
}
use indexset.Set.Update.Split.{insert_at_full}

-- a node of two or more items is halved into two nodes that are not empty
abbrev Halves {ℓ} : {T : Type ℓ} → List T → Type ℓ
Halves {T} node =
    (lo : List T) × (b : T) × (hi : List T) × (node ≡ lo ++ b ∷ hi)
    × (halve node ≡ ok (lo, b ∷ hi))
    × IsNonempty lo

Halves-at {ℓ} :
    {T : Type ℓ} (node : List T)
    → 2 ≤ length node
    → (upper : List T) → drop (length node / 2) node ≡ upper
    → Halves node
unfolding halve
Halves-at node h [] e = absurd (omega (arith, length-drop (length node / 2) node, ap length e))
Halves-at node h (b ∷ hi) e = (
  take (length node / 2) node,
  b,
  hi,
  rw (← e) (sym (take-append-drop (length node / 2) node)),
  rw (← e) (Vec.split_off_lem node (length node / 2) (omega arith)),
  IsNonempty-of_length _ (omega (arith, length-take (length node / 2) node)),
)

module _ {ℓ} {T : Type ℓ} {I : Type 0} ⦃t : Ord T⦄ ⦃f : FenwickTree I⦄ ⦃c : Counts I⦄
    (s : BTreeSet I T) (v : T) (valid : IsValid s) where
  -- `insert_at` at the node that a value is located in.
  pub insert_at_lem :
      (node_idx : ℕ)
      → Cut (against_item v) s.inner node_idx
      → (s' : BTreeSet I T) × (insert_at s node_idx v ≡ ok (fresh s v, s')) × Inserted s v s'
  insert_at_lem node_idx k = elim (Bool-cases (length k.node == s.node_capacity)) [
    | inr room ↦ (
      direct s v valid node_idx k,
      insert_at-direct s v valid node_idx k room,
      direct-Inserted s v valid node_idx k room,
    )
    | inl full ↦
        let (lo, b, hi, whole, halves, low) =
          Halves-at k.node (ground (arith, valid.capacity)) _ refl in
        insert_at_full s v valid node_idx k lo b hi whole halves low full
  ]

  -- On a valid set an insertion returns; it reports whether the value was missing, and leaves a
  -- valid set of the ordered insertion of the value into the items.
  pub insert_refines :
      (s' : BTreeSet I T) × (insert s v ≡ ok (not (is_some (find (against_item v) (items s))), s'))
      × IsValid s'
      × (items s' ≡ Spec.insert (against_item v) v (items s))
  unfolding insert
  insert_refines =
      let r =
        insert_at_lem (locate_node ⦃b = borrow_self {T = T}⦄ s v)
          (locate_node-Cut s valid.nodes valid.sorted ⦃b = borrow_self {T = T}⦄ v).0 in
      (r.0, r.1, Inserted-IsValid s v r.0 valid r.2, r.2.holds)

  -- An insertion into a valid set of which no node outgrows the capacity returns a set of which no
  -- node outgrows its capacity, which is the same.
  pub insert-IsBounded :
      IsBounded s
      → (added : Bool) × (s' : BTreeSet I T) × (insert s v ≡ ok (added, s'))
        × IsBounded s'
        × (s'.node_capacity ≡ s.node_capacity)
  unfolding insert
  insert-IsBounded h =
      let r =
        insert_at_lem (locate_node ⦃b = borrow_self {T = T}⦄ s v)
          (locate_node-Cut s valid.nodes valid.sorted ⦃b = borrow_self {T = T}⦄ v).0 in
      (fresh s v, r.0, r.1, r.2.bounded h, r.2.capacity)
