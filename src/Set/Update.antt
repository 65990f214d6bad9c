-- ===== src/Set/Update.antt =====
-- src/lib.rs: the methods of `BTreeSet` that change it.
pub mod Insert
pub mod Split
pub mod Insertion
pub mod Delete
pub mod Removal
pub mod RemovalCmp
pub mod Ends
pub mod Change
pub mod Bulk
pub mod Indexed
pub mod Division
use indexset.Base.{
  ℕ, zero, suc, ◌+◌, ◌-◌, List, [], ◌∷◌, ◌++◌, reverse, map, Option, none, some, Bool, true, false,
  is_lt, is_eq, Run, ok, fault, timeout, ◌>>=◌, length, get_elem?, ltb, ◌==◌, if◌then◌else◌, not,
  sum, ◌&&◌,
}
use indexset.Set.{new, default_inner_size, exist, empty}
use indexset.Set.Locate.{locate_value_cmp}
use indexset.Set.Query.{find_cmp, item_at}
use indexset.Base.Vec
use indexset.Order.{Ord, Borrow, against, borrow_self}
use indexset.Fenwick.{FenwickTree}
use indexset.Node
use indexset.Set.{BTreeSet}
use indexset.Set.Locate.{locate_node, locate_value, locate_ith}

module _ {ℓ} {T : Type ℓ} {I : Type 0} ⦃f : FenwickTree I⦄ where
  -- `FenwickTree::from_iter(self.inner.iter().map(|node| node.len()))`
  abbrev pub index_nodes : List (List T) → I
  index_nodes inner = f.from_iter (map length inner)

  unfoldable pub delete_at : BTreeSet I T → ℕ → ℕ → Run (T × BTreeSet I T)
  delete_at s node_idx position_within_node = do
    node ← Vec.index s.inner node_idx
    removed ← Vec.remove node position_within_node
    inner ← Vec.assign s.inner node_idx removed.1
    if Vec.is_empty removed.1 && ltb 1 (length inner)
        then (do
          rest ← Vec.remove inner node_idx
          ok (removed.0, record s { inner = rest.1; index = index_nodes rest.1; len = s.len - 1 }))
        else ok (
          removed.0,
          record s { inner = inner; index = f.sub_at s.index node_idx 1; len = s.len - 1 },
        )

  unfoldable pub pop_first : BTreeSet I T → Run (Option T × BTreeSet I T)
  pop_first s = elim (get_elem? s.inner 0) [
    | none ↦ ok (none, s)
    | some candidate_node ↦ elim (get_elem? candidate_node 0) [
      | none ↦ ok (none, s)
      | some _ ↦ (delete_at s 0 0 >>= λ r. ok (some r.0, r.1))
    ]
  ]

  unfoldable pub pop_index : BTreeSet I T → ℕ → Run (T × BTreeSet I T)
  pop_index s idx =
      let (node_idx, position_within_node) = locate_ith s idx in
      delete_at s node_idx position_within_node

  unfoldable pub pop_last : BTreeSet I T → Run (Option T × BTreeSet I T)
  pop_last s = do
    let last_node_idx = length s.inner - 1
    last_node ← Vec.index s.inner last_node_idx
    let last_position_within_node = length last_node - 1
    elim (get_elem? last_node last_position_within_node) [
      | none ↦ ok (none, s)
      | some _ ↦ (delete_at s last_node_idx last_position_within_node >>= λ r. ok (some r.0, r.1))
    ]

module _ {ℓ} {T : Type ℓ} {I : Type 0} where
  -- the write of an item through a reference into a node
  abbrev pub change_at : BTreeSet I T → ℕ → ℕ → (T → T) → Run (T × BTreeSet I T)
  change_at s node_idx position_within_node change = do
    node ← Vec.index s.inner node_idx
    item ← Vec.index node position_within_node
    changed ← Vec.assign node position_within_node (change item)
    inner ← Vec.assign s.inner node_idx changed
    ok (item, record s { inner = inner })

  abbrev pub change_found : BTreeSet I T → ℕ × ℕ → (T → T) → Run (Option T × BTreeSet I T)
  change_found s place change = elim (item_at s place) [
    | none ↦ ok (none, s)
    | some _ ↦ (change_at s place.0 place.1 change >>= λ r. ok (some r.0, r.1))
  ]

module _ {ℓ} {T : Type ℓ} {I : Type 0} ⦃f : FenwickTree I⦄ where
  -- the write through `get_mut_index`, if there is such a position
  unfoldable pub get_mut_index : BTreeSet I T → ℕ → (T → T) → Run (Option T × BTreeSet I T)
  get_mut_index s idx change = change_found s (locate_ith s idx) change

-- `value >= new_node[0]`
abbrev pub not_before {ℓ} : {T : Type ℓ} ⦃t : Ord T⦄ → T → T → Bool
not_before ⦃t⦄ value first = not (is_lt (t.cmp value first))

module _ {ℓ} {T : Type ℓ} {I : Type 0} ⦃t : Ord T⦄ ⦃f : FenwickTree I⦄ where
  unfoldable pub insert_at : BTreeSet I T → ℕ → T → Run (Bool × BTreeSet I T)
  insert_at s node_idx value = do
    node ← Vec.index s.inner node_idx
    if length node == s.node_capacity
        then (do
          halves ← Node.halve node
          first ← Vec.index halves.1 0
          let insert_node_idx = if not_before value first then node_idx + 1 else node_idx
          halved ← Vec.assign s.inner node_idx halves.0
          inner ← Vec.insert halved (node_idx + 1) halves.1
          target ← Vec.index inner insert_node_idx
          inserted ← Node.insert target value
          inner' ← Vec.assign inner insert_node_idx inserted.2
          ok (
            inserted.0,
            record s {
              inner = inner';
              index = index_nodes inner';
              len = if inserted.0 then s.len + 1 else s.len;
            },
          ))
        else (do
          inserted ← Node.insert node value
          inner ← Vec.assign s.inner node_idx inserted.2
          ok (
            inserted.0,
            record s {
              inner = inner;
              index = if inserted.0 then f.add_at s.index node_idx 1 else s.index;
              len = if inserted.0 then s.len + 1 else s.len;
            },
          ))

  unfoldable pub insert : BTreeSet I T → T → Run (Bool × BTreeSet I T)
  insert s value = insert_at s (locate_node ⦃b = borrow_self {T = T}⦄ s value) value

module _ {ℓ κ} {T : Type ℓ} {Q : Type κ} {I : Type 0} ⦃t : Ord T⦄ ⦃q : Ord Q⦄ ⦃b : Borrow T Q⦄
    ⦃f : FenwickTree I⦄ where
  -- the removed item, whether one was removed, and the set; `value == candidate_value.borrow()` is
  -- `cmp` giving `Equal`
  unfoldable pub delete : BTreeSet I T → Q → Run (Option T × Bool × BTreeSet I T)
  delete s value = do
    place ← locate_value s value
    node ← Vec.index s.inner place.0
    elim (get_elem? node place.1) [
      | none ↦ ok (none, false, s)
      | some candidate_value ↦
          if is_eq (against value candidate_value)
          then (delete_at s place.0 place.1 >>= λ r. ok (some r.0, true, r.1))
          else ok (none, false, s)
    ]

  unfoldable pub remove : BTreeSet I T → Q → Run (Bool × BTreeSet I T)
  remove s value = delete s value >>= λ r. ok (r.1, r.2)

  unfoldable pub take : BTreeSet I T → Q → Run (Option T × BTreeSet I T)
  take s value = delete s value >>= λ r. ok (r.0, r.2)

module _ {ℓ} {T : Type ℓ} {I : Type 0} ⦃t : Ord T⦄ ⦃f : FenwickTree I⦄ where
  -- the item that was replaced, if there was one
  unfoldable pub replace : BTreeSet I T → T → Run (Option T × BTreeSet I T)
  replace s value = do
    replaced ← take ⦃b = borrow_self {T = T}⦄ s value
    inserted ← insert replaced.1 value
    ok (replaced.0, inserted.1)

  -- `FromIterator` and `From<[T; N]>` for a new set, and `extend` of one that is there
  unfoldable pub insert_all : BTreeSet I T → List T → Run (BTreeSet I T)
  insert_all s [] = ok s
  insert_all s (item ∷ iter) = insert s item >>= λ r. insert_all r.1 iter

  unfoldable pub from_iter : List T → Run (BTreeSet I T)
  from_iter iter = insert_all new iter

  -- The `while let` of `append` empties `other`, one item a round: `len` and one more are enough.
  unfoldable pub append_loop : ℕ → BTreeSet I T → BTreeSet I T → Run (BTreeSet I T × BTreeSet I T)
  append_loop zero s other = fault timeout
  append_loop (suc fuel) s other = pop_first other >>= λ popped. elim popped.0 [
    | none ↦ ok (s, popped.1)
    | some value ↦ (replace s value >>= λ r. append_loop fuel r.1 popped.1)
  ]

  unfoldable pub append : BTreeSet I T → BTreeSet I T → Run (BTreeSet I T × BTreeSet I T)
  append s other = append_loop (suc other.len) s other

module _ {ℓ} {T : Type ℓ} {I : Type 0} ⦃f : FenwickTree I⦄ where
  unfoldable pub delete_cmp :
      BTreeSet I T → (T → Bool) → (T → Bool) → Run (Option T × Bool × BTreeSet I T)
  delete_cmp s cmp cmp2 = find_cmp s cmp cmp2 >>= λ entry. elim entry [
    | exist node_idx position_within_node ↦
        (delete_at s node_idx position_within_node >>= λ r. ok (some r.0, true, r.1))
    | empty node_idx ↦ ok (none, false, s)
  ]

  -- `while self.inner.len() > node_idx + 1 { remaining_nodes.push(self.inner.pop()) }` and the
  -- reversal: the nodes behind `node_idx`.
  abbrev pub split_at : BTreeSet I T → ℕ × ℕ → Run (BTreeSet I T × BTreeSet I T)
  split_at s place = do
    node ← Vec.index s.inner place.0
    halves ← Vec.split_off node place.1
    assigned ← Vec.assign s.inner place.0 halves.0
    parts ← Vec.split_off assigned (place.0 + 1)
    let remaining_nodes = halves.1 ∷ parts.1
    inner ←
        (if Vec.is_empty halves.0 && ltb 1 (length parts.0)
          then (Vec.remove parts.0 place.0 >>= λ r. ok r.1)
          else ok parts.0)
    ok (
      record s { inner = inner; index = index_nodes inner; len = sum (map length inner) },
      record {
        inner = remaining_nodes;
        index = index_nodes remaining_nodes;
        node_capacity = default_inner_size;
        len = sum (map length remaining_nodes);
      },
    )

  -- what stays, and the latter half
  unfoldable pub split_off_cmp : BTreeSet I T → (T → Bool) → Run (BTreeSet I T × BTreeSet I T)
  split_off_cmp s cmp = locate_value_cmp s cmp >>= split_at s

unfoldable pub split_off {ℓ κ} :
    {T : Type ℓ} {Q : Type κ} {I : Type 0} ⦃t : Ord T⦄ ⦃q : Ord Q⦄ ⦃b : Borrow T Q⦄
    ⦃f : FenwickTree I⦄
    → BTreeSet I T
    → Q
    → Run (BTreeSet I T × BTreeSet I T)
split_off s value = locate_value s value >>= split_at s

-- the positions of the items that fail a test, in order
module _ {ℓ} {T : Type ℓ} where
  abbrev pub positions_in : (T → Bool) → ℕ → ℕ → List T → List (ℕ × ℕ)
  positions_in keep node_idx position [] = []
  positions_in keep node_idx position (item ∷ node) =
      let rest = positions_in keep node_idx (suc position) node in
      if keep item then rest else (node_idx, position) ∷ rest

  abbrev pub positions_to_delete : (T → Bool) → ℕ → List (List T) → List (ℕ × ℕ)
  positions_to_delete keep node_idx [] = []
  positions_to_delete keep node_idx (node ∷ inner) =
      positions_in keep node_idx 0 node ++ positions_to_delete keep (suc node_idx) inner

module _ {ℓ} {T : Type ℓ} {I : Type 0} ⦃f : FenwickTree I⦄ where
  abbrev pub delete_each : BTreeSet I T → List (ℕ × ℕ) → Run (BTreeSet I T)
  delete_each s [] = ok s
  delete_each s (place ∷ places) = delete_at s place.0 place.1 >>= λ r. delete_each r.1 places

  unfoldable pub retain : BTreeSet I T → (T → Bool) → Run (BTreeSet I T)
  retain s keep = delete_each s (reverse (positions_to_delete keep 0 s.inner))
