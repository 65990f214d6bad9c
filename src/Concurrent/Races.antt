-- ===== src/Concurrent/Races.antt =====
-- Runs of two calls of the concurrent set whose steps interleave.
use indexset.Base.{
  fault, panic, leb, Bool, ℕ, ◌≤◌, ◌≡◌, refl, ap, ◌∙◌, List, [], ◌∷◌, none, some, true, false, lt,
  gt, is_lt, ok, get_last?, get_elem?, arith, ==_refl, leb, reverse_ordering,
}
use indexset.Order.{Ord, borrow_self}
use indexset.Pair.{Pair}
use indexset.Node
use indexset.Node.Insert.{insert-absent, delete-present}
use indexset.Cdc.{ChangeEvent, remove_node, insert_at}
use indexset.Concurrent.SkipMap.{SkipMap, Ordered, entry, first_not}
use indexset.Concurrent.Operation.{
  split, commit_split, Shared, Operation, make_unreachable, commit, commit_make_unreachable,
}
use indexset.Concurrent.Set.{
  pending, put_finish, returned, target, put_into, put_begin, write_node, emit,
}
use indexset.Concurrent.Removal.{remove_cdc, remove_begin, remove_finish}
use indexset.Concurrent.Lookup.{locate_node, contains}
use indexset.Concurrent.Coherent.Steps.{stamped, remove-inner}
use indexset.Concurrent.Coherent.Nodes.{write_same}
use indexset.Concurrent.Coherent.Place.{get-present, remove-present}

leb-false : (a : ℕ) → 1 ≤ a → leb a 0 ≡ false
leb-false a h = ground arith

module _ {ℓ} {M T : Type ℓ} ⦃t : Ord T⦄ ⦃s : SkipMap M T⦄ (shared : Shared M T) where
  -- an insertion into a node that is empty
  abbrev refilled : T → ℕ → List (ChangeEvent T) × Shared M T
  refilled value node = emit (write_node shared node (value ∷ [])) (insert_at value value 0 ∷ [])

  into_empty :
      (value : T) (e : Pair T ℕ)
      → Node.max (shared.cell e.value) ≡ none
      → Node.insert (shared.cell e.value) value ≡ ok (true, 0, value ∷ [])
      → put_into shared e value
        ≡ ok (returned none (refilled value e.value).0, (refilled value e.value).1)
  into_empty value e had inserted = rw (inserted, put_into) (ground arith)

  refill :
      (value : T) (e : Pair T ℕ)
      → target shared.index value ≡ some e
      → shared.cell e.value ≡ []
      → 1 ≤ shared.node_capacity
      → put_begin shared value
        ≡ ok (returned none (refilled value e.value).0, (refilled value e.value).1)
  unfolding put_begin Node.need_to_split Node.max
  refill value e found empty room =
      let inserted : Node.insert [] value ≡ ok (true, 0, value ∷ []) =
        insert-absent value [] [] tt tt in
      let into = into_empty value e (rw empty refl) (rw empty inserted) in
      let fits : Node.need_to_split (shared.cell e.value) shared.node_capacity value ≡ false =
        rw empty (leb-false shared.node_capacity room) in
      rw (found, put_begin) (rw fits (rw into refl))

  -- a lookup in an index that has lost its last entry
  lookup_nowhere :
      ⦃o : Ordered M T⦄ (value : T)
      → s.iter shared.index ≡ []
      → contains ⦃b = borrow_self {T = T}⦄ shared value ≡ ok false
  unfolding contains locate_node
  lookup_nowhere ⦃o⦄ value empty =
      let below : T → Bool = λ key. is_lt (t.cmp key value) in
      rw
        (
          o.lower_bound_lem shared.index below ∙ ap (first_not below) empty,
          o.back_lem shared.index ∙ ap get_last? empty,
          o.front_lem shared.index ∙ ap (λ l. get_elem? l 0) empty,
          contains,
          locate_node,
        )
        refl

module _ {ℓ} {M T : Type ℓ} ⦃t : Ord T⦄ ⦃s : SkipMap M T⦄ ⦃o : Ordered M T⦄ (shared : Shared M T)
    (x y : T) (a : ℕ) where
  -- Where the set has one node with one item, an insertion of a lesser value can run between the
  -- two steps of the removal of that item: the insertion returns that the value is new, the removal
  -- that the item was there, and the value is not in the set then.
  pub lost_insertion :
      s.iter shared.index ≡ entry x a ∷ []
      → shared.cell a ≡ x ∷ []
      → 1 ≤ shared.node_capacity
      → t.cmp y x ≡ lt
      → (op : Operation T) × (s1 s2 s3 : Shared M T) × (cdc cdc' : List (ChangeEvent T))
        × (remove_begin ⦃b = borrow_self {T = T}⦄ shared x ≡ ok (some x, [], some op, s1))
        × (put_begin s1 y ≡ ok (returned none cdc, s2))
        × (remove_finish s2 (some x) [] op ≡ ok (some x, cdc', s3))
        × (contains ⦃b = borrow_self {T = T}⦄ s3 y ≡ ok false)
  unfolding remove_begin remove_finish commit Node.max
  lost_insertion whole one room less =
      let e = entry x a in
      let s1 = write_node shared a [] in
      let s2 = (refilled s1 y a).1 in
      let s3 = emit (record s2 { index = s.remove shared.index x }) (remove_node x ∷ []) in
      let self = t.cmp_refl x in
      let greater : t.cmp x y ≡ gt = t.cmp_reverse y x ∙ ap reverse_ordering less in
      let found : s.lower_bound shared.index (λ key. is_lt (t.cmp key x)) ≡ some e =
        o.lower_bound_lem shared.index _ ∙ (rw whole (rw (self, first_not) refl)) in
      let found_y : target s1.index y ≡ some e =
        (let f : s.lower_bound shared.index (λ key. is_lt (t.cmp key y)) ≡ some e =
            o.lower_bound_lem shared.index _ ∙ (rw whole (rw (greater, first_not) refl)) in
          rw (f, target) refl) in
      let deleted : Node.delete ⦃b = borrow_self {T = T}⦄ (x ∷ []) x ≡ ok (some (x, 0), []) =
        delete-present ⦃b = borrow_self {T = T}⦄ x [] [] tt tt x self in
      let got = get-present shared.index x [] [] tt tt e whole self in
      let gone = remove-present shared.index x [] [] tt tt e whole self in
      let commits : commit s2 (make_unreachable a x)
          ≡ ok (some (none, remove_node x ∷ []), record s2 { index = s.remove shared.index x }) =
        rw (got, commit, commit_make_unreachable)
          (rw (==_refl a) (rw (write_same s1.cell a (y ∷ [])) (rw less refl))) in
      (
        make_unreachable a x,
        s1,
        s2,
        s3.1,
        (refilled s1 y a).0,
        s3.0,
        rw (found, remove_begin) (rw one (rw deleted (rw one refl))),
        refill s1 y e found_y (write_same shared.cell a []) room,
        rw (commits, remove_finish) refl,
        lookup_nowhere s3.1 y gone,
      )

leb-true : (a b : ℕ) → a ≤ b → leb a b ≡ true
leb-true a b h = ground arith

module _ {ℓ} {M T : Type ℓ} ⦃t : Ord T⦄ ⦃s : SkipMap M T⦄ ⦃o : Ordered M T⦄ (shared : Shared M T)
    (w x y : T) (a : ℕ) where
  -- Where the set has one node, full with two items, and an insertion of a value less than the
  -- greater of them has found that it must split the node, the items can be removed before the
  -- split, the greater one in the first step of its removal: the split then panics.
  pub emptied_split :
      s.iter shared.index ≡ entry x a ∷ []
      → shared.cell a ≡ w ∷ x ∷ []
      → shared.node_capacity ≤ 2
      → t.cmp w x ≡ lt
      → t.cmp y x ≡ lt
      → (op op' : Operation T) × (s1 s2 : Shared M T) × (cdc : List (ChangeEvent T)) × (put_begin
            shared y
          ≡ ok (pending op [], shared))
        × (remove_cdc ⦃b = borrow_self {T = T}⦄ shared w ≡ ok (some w, cdc, s1))
        × (remove_begin ⦃b = borrow_self {T = T}⦄ s1 x ≡ ok (some x, [], some op', s2))
        × (put_finish s2 op [] ≡ fault panic)
  unfolding put_begin put_finish remove_begin commit Node.max Node.need_to_split
  emptied_split whole two full less less_y =
      let e = entry x a in
      let found : (v : T)
          → t.cmp x v ≡ gt
          → s.lower_bound shared.index (λ key. is_lt (t.cmp key v)) ≡ some e =
        λ v g. o.lower_bound_lem shared.index _ ∙ (rw whole (rw (g, first_not) refl)) in
      let x-w : t.cmp x w ≡ gt = t.cmp_reverse w x ∙ ap reverse_ordering less in
      let x-y : t.cmp x y ≡ gt = t.cmp_reverse y x ∙ ap reverse_ordering less_y in
      let self = t.cmp_refl x in
      let found_x : s.lower_bound shared.index (λ key. is_lt (t.cmp key x)) ≡ some e =
        o.lower_bound_lem shared.index _ ∙ (rw whole (rw (self, first_not) refl)) in
      let target_y : target shared.index y ≡ some e = rw (found y x-y, target) refl in
      let must : Node.need_to_split (shared.cell a) shared.node_capacity y ≡ true =
        rw two (leb-true shared.node_capacity 2 full) in
      let deleted_w : Node.delete ⦃b = borrow_self {T = T}⦄ (shared.cell a) w
          ≡ ok (some (w, 0), x ∷ []) =
        rw two
          (delete-present ⦃b = borrow_self {T = T}⦄ w [] (x ∷ []) tt (x-w, tt) w (t.cmp_refl w)) in
      let had : get_last? (shared.cell a) ≡ some x = rw two refl in
      let s1 =
        stamped ⦃b = borrow_self {T = T}⦄ shared w e (found w x-w) w 0 (x ∷ []) x deleted_w had in
      let deleted_x : Node.delete ⦃b = borrow_self {T = T}⦄ (x ∷ []) x ≡ ok (some (x, 0), []) =
        delete-present ⦃b = borrow_self {T = T}⦄ x [] [] tt tt x self in
      let got = get-present shared.index x [] [] tt tt e whole self in
      let one = write_same shared.cell a (x ∷ []) in
      let s2 = write_node s1.1 a [] in
      (
        split a x y,
        make_unreachable a x,
        s1.1,
        s2,
        s1.0,
        rw (target_y, put_begin) (rw must refl),
        remove-inner ⦃b = borrow_self {T = T}⦄ shared w e (found w x-w) w 0 (x ∷ []) x deleted_w had
            x refl self,
        rw (found_x, remove_begin) (rw one (rw deleted_x (rw one refl))),
        rw (got, put_finish, commit_split) (rw (==_refl a) (rw (write_same s1.1.cell a []) refl)),
      )
