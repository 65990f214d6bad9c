-- ===== src/Concurrent/Iter.antt =====
-- src/concurrent/set.rs: `Iter`, over the nodes as they are at each call. The guard of a node and the
-- iterator on its slice are set and dropped together, so that one field stands for both. The next
-- and the previous entry of one are its neighbours in the order of the index.
pub mod Forward
use indexset.Base.{
  ℕ, zero, suc, ◌+◌, List, [], ◌∷◌, reverse, Option, none, some, Bool, true, false, is_lt, is_eq,
  ◌||◌, ◌==◌, Run, ok, fault, timeout, get_elem?, drop, if◌then◌else◌,
}
use mathlib.Core.Option
use indexset.Order.{Ord, borrow_self}
use indexset.Node
use indexset.Node.{excluded}
use indexset.Pair.{Pair}
use indexset.Concurrent.SkipMap.{SkipMap}
use indexset.Concurrent.Operation.{Shared, at_least}

pub record Iter {ℓ} (T : Type ℓ) : Type ℓ where
  pub current_front_node : Option ℕ
  pub current_front_node_iter : Option (List T)
  pub current_back_node : Option ℕ
  pub current_back_node_iter : Option (List T)
  pub current_front_value : Option T
  pub current_back_value : Option T
  pub met : Bool

module _ {ℓ} {M T : Type ℓ} ⦃s : SkipMap M T⦄ where
  unfoldable pub new : Shared M T → Iter T
  new btree = record {
    current_front_node = Option.map (λ e. e.value) (s.front btree.index);
    current_front_node_iter = none;
    current_back_node = Option.map (λ e. e.value) (s.back btree.index);
    current_back_node_iter = none;
    current_front_value = none;
    current_back_value = none;
    met = false;
  }

  unfoldable pub iter : Shared M T → Iter T
  unfolding new
  iter btree = new btree

-- one round of the loop of `next`: `continue` or `return`
pub data Round {ℓ} (T : Type ℓ) : Type ℓ where
  again : Iter T → Round T
  done : Option T → Iter T → Round T

-- the entry behind the one of a node
abbrev pub next_of {ℓ} : {T : Type ℓ} → ℕ → List (Pair T ℕ) → Option (Pair T ℕ)
next_of node [] = none
next_of node (e ∷ es) = if e.value == node then get_elem? es 0 else next_of node es

-- the entry before it
abbrev pub prev_of {ℓ} : {T : Type ℓ} → ℕ → List (Pair T ℕ) → Option (Pair T ℕ)
prev_of node es = next_of node (reverse es)

abbrev same_node : Option ℕ → ℕ → Bool
same_node none node = false
same_node (some other) node = other == node

module _ {ℓ} {T : Type ℓ} ⦃t : Ord T⦄ where
  -- the iterators have met where the value is not before the other end's
  abbrev met_back : Iter T → T → Bool
  met_back i value = elim i.current_back_value [ none ↦ false | some back ↦ at_least value back ]

  abbrev met_front : Iter T → T → Bool
  met_front i value = elim i.current_front_value [
    | none ↦ false
    | some front ↦ is_lt (t.cmp value front) || is_eq (t.cmp value front)
  ]

  -- a value from the front, with the rest of its node
  abbrev give_front : Iter T → T → List T → Round T
  give_front i value rest =
      let moved = record i { current_front_node_iter = some rest } in
      if met_back i value
      then done none (record moved { met = true })
      else done (some value) (record moved { current_front_value = some value })

  abbrev give_back : Iter T → T → List T → Round T
  give_back i value rest =
      let moved = record i { current_back_node_iter = some rest } in
      if met_front i value
      then done none (record moved { met = true })
      else done (some value) (record moved { current_back_value = some value })

  -- a node is locked again: the iterator goes behind the last value that it gave
  abbrev resume_front : Iter T → List T → Round T
  resume_front i node =
      let started = record i { current_front_node_iter = some node } in
      elim i.current_front_value [
        | none ↦ again started
        | some value ↦ elim (Node.rank ⦃b = borrow_self {T = T}⦄ node (excluded value) true) [
          | none ↦ again started
          | some rank ↦ elim (drop (rank + 1) node) [
            | [] ↦ again (record i { current_front_node_iter = some [] })
            | v ∷ rest ↦ give_front i v rest
          ]
        ]
      ]

  -- from the back the rest of a slice is kept in its order
  abbrev resume_back : Iter T → List T → Round T
  resume_back i node =
      let started = record i { current_back_node_iter = some node } in
      elim i.current_back_value [
        | none ↦ again started
        | some value ↦ elim (Node.rank ⦃b = borrow_self {T = T}⦄ node (excluded value) false) [
          | none ↦ again started
          | some rank ↦ elim (drop (rank + 1) (reverse node)) [
            | [] ↦ again (record i { current_back_node_iter = some [] })
            | v ∷ rest ↦ give_back i v (reverse rest)
          ]
        ]
      ]

module _ {ℓ} {M T : Type ℓ} ⦃t : Ord T⦄ ⦃s : SkipMap M T⦄ where
  -- the node is exhausted: on to the next
  abbrev advance_front : Shared M T → Iter T → ℕ → Round T
  advance_front shared i node = elim (next_of node (s.iter shared.index)) [
    | none ↦ done none (record i { current_front_node = none; current_front_node_iter = none })
    | some e ↦ elim i.current_back_node [
      | some _ ↦
          again (record i { current_front_node = some e.value; current_front_node_iter = none })
      | none ↦ again (record i {
        current_front_node = some e.value;
        current_front_node_iter = some (shared.cell e.value);
      })
    ]
  ]

  abbrev advance_back : Shared M T → Iter T → ℕ → Round T
  advance_back shared i node = elim (prev_of node (s.iter shared.index)) [
    | none ↦ done none (record i { current_back_node = none; current_back_node_iter = none })
    | some e ↦ elim i.current_front_node [
      | some _ ↦
          again (record i { current_back_node = some e.value; current_back_node_iter = none })
      | none ↦ again (record i {
        current_back_node = some e.value;
        current_back_node_iter = some (shared.cell e.value);
      })
    ]
  ]

  -- the round once a front node is there; the lock of the back node is let go
  abbrev step_front : Shared M T → Iter T → ℕ → Round T
  step_front shared i node =
      let alone = record i { current_back_node_iter = none } in
      elim i.current_front_node_iter [
        | none ↦ resume_front alone (shared.cell node)
        | some [] ↦ advance_front shared alone node
        | some (value ∷ rest) ↦ give_front alone value rest
      ]

  abbrev step_back : Shared M T → Iter T → ℕ → Round T
  step_back shared i node =
      let alone = record i { current_front_node_iter = none } in
      elim i.current_back_node_iter [
        | none ↦ resume_back alone (shared.cell node)
        | some slice ↦ elim (reverse slice) [
          | [] ↦ advance_back shared alone node
          | value ∷ rest ↦ give_back alone value (reverse rest)
        ]
      ]

  abbrev enter_front : Shared M T → Iter T → Round T
  enter_front shared i = elim (s.front shared.index) [
    | none ↦ done none i
    | some e ↦ elim i.current_back_node [
      | some back ↦ again (
          if back == e.value
          then record i {
            current_front_node = some e.value;
            current_front_node_iter = i.current_back_node_iter;
            current_back_node_iter = none;
          }
          else record i { current_front_node = some e.value })
      | none ↦
          step_front shared
            (record i {
              current_front_node = some e.value;
              current_front_node_iter = some (shared.cell e.value);
            })
            e.value
    ]
  ]

  abbrev enter_back : Shared M T → Iter T → Round T
  enter_back shared i = elim (s.back shared.index) [
    | none ↦ done none i
    | some e ↦ elim i.current_front_node [
      | some front ↦ again (
          if front == e.value
          then record i {
            current_back_node = some e.value;
            current_back_node_iter = i.current_front_node_iter;
            current_front_node_iter = none;
          }
          else record i { current_back_node = some e.value })
      | none ↦
          step_back shared
            (record i {
              current_back_node = some e.value;
              current_back_node_iter = some (shared.cell e.value);
            })
            e.value
    ]
  ]

  abbrev round_front : Shared M T → Iter T → Round T
  round_front shared i = elim i.met [
    | true ↦ done none i
    | false ↦ elim i.current_front_node [
      | none ↦ enter_front shared i
      | some node ↦ step_front shared i node
    ]
  ]

  abbrev round_back : Shared M T → Iter T → Round T
  round_back shared i = elim i.met [
    | true ↦ done none i
    | false ↦ elim i.current_back_node [
      | none ↦ enter_back shared i
      | some node ↦ step_back shared i node
    ]
  ]

  unfoldable pub next : ℕ → Shared M T → Iter T → Run (Option T × Iter T)
  next zero shared i = fault timeout
  next (suc fuel) shared i = elim (round_front shared i) [
    | done value i' ↦ ok (value, i')
    | again i' ↦ next fuel shared i'
  ]

  unfoldable pub next_back : ℕ → Shared M T → Iter T → Run (Option T × Iter T)
  next_back zero shared i = fault timeout
  next_back (suc fuel) shared i = elim (round_back shared i) [
    | done value i' ↦ ok (value, i')
    | again i' ↦ next_back fuel shared i'
  ]
