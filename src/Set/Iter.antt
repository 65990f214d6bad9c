-- ===== src/Set/Iter.antt =====
-- src/lib.rs: the iterators over a set. An iterator over a slice is the list of what is left of it;
-- `next` and `next_back` return the item and the iterator after it. Their calls of themselves run on
-- fuel: each goes on to another node.
pub mod Forward
use indexset.Base.{
  ℕ, zero, suc, ◌+◌, ◌-◌, List, [], ◌∷◌, Option, none, some, Bool, true, false, Run, ok, fault,
  timeout, ◌>>=◌, length, get_last?, leb, ◌==◌, if◌then◌else◌,
}
use indexset.Base.Vec
use indexset.Order.Spec.{drop_last}
use indexset.Set.{BTreeSet}

pub record Iter {ℓ} (I : Type 0) (T : Type ℓ) : Type ℓ where
  pub btree : BTreeSet I T
  pub current_front_node_idx : ℕ
  pub current_front_idx : ℕ
  pub current_back_node_idx : ℕ
  pub current_back_idx : ℕ
  pub current_front_iterator : Option (List T)
  pub current_back_iterator : Option (List T)

-- `iterator.as_mut().and_then(|i| i.next())`, with what is left, and the same from the back
abbrev pub slice_next {ℓ} : {T : Type ℓ} → Option (List T) → Option (T × List T)
slice_next none = none
slice_next (some []) = none
slice_next (some (x ∷ xs)) = some (x, xs)

abbrev pub slice_next_back {ℓ} : {T : Type ℓ} → Option (List T) → Option (T × List T)
slice_next_back none = none
slice_next_back (some xs) = elim (get_last? xs) [ none ↦ none | some x ↦ some (x, drop_last xs) ]

module _ {ℓ} {T : Type ℓ} {I : Type 0} where
  unfoldable pub new : BTreeSet I T → Run (Iter I T)
  new btree = do
    front ← Vec.index btree.inner 0
    back ← Vec.index btree.inner (length btree.inner - 1)
    ok (record {
      btree = btree;
      current_front_node_idx = 0;
      current_front_idx = 0;
      current_back_node_idx = length btree.inner - 1;
      current_back_idx = btree.len;
      current_front_iterator = some front;
      current_back_iterator = some back;
    })

  unfoldable pub next_loop : ℕ → Iter I T → Run (Option T × Iter I T)
  next_loop zero i = fault timeout
  next_loop (suc fuel) i = elim (i.current_front_idx == i.current_back_idx) [
    | true ↦ ok (none, i)
    | false ↦ elim (slice_next i.current_front_iterator) [
      | some r ↦ ok (
        some r.0,
        record i { current_front_idx = i.current_front_idx + 1; current_front_iterator = some r.1 },
      )
      | none ↦ elim (leb (length i.btree.inner) (i.current_front_node_idx + 1)) [
        | true ↦ ok (none, record i { current_front_node_idx = i.current_front_node_idx + 1 })
        | false ↦
            (Vec.index i.btree.inner (i.current_front_node_idx + 1) >>= λ node.
            next_loop fuel (record i {
              current_front_node_idx = i.current_front_node_idx + 1;
              current_front_iterator = some node;
            }))
      ]
    ]
  ]

  -- Each call of `next` in `next` steps to a node of the tree.
  unfoldable pub next : Iter I T → Run (Option T × Iter I T)
  next i = next_loop (suc (length i.btree.inner)) i

  unfoldable pub next_back_loop : ℕ → Iter I T → Run (Option T × Iter I T)
  next_back_loop zero i = fault timeout
  next_back_loop (suc fuel) i = elim (i.current_front_idx == i.current_back_idx) [
    | true ↦ ok (none, i)
    | false ↦ elim (slice_next_back i.current_back_iterator) [
      | some r ↦ ok (
        some r.0,
        record i { current_back_idx = i.current_back_idx - 1; current_back_iterator = some r.1 },
      )
      | none ↦ elim (i.current_back_node_idx == 0) [
        | true ↦ ok (none, i)
        | false ↦
            (Vec.index i.btree.inner (i.current_back_node_idx - 1) >>= λ node.
            next_back_loop fuel (record i {
              current_back_node_idx = i.current_back_node_idx - 1;
              current_back_iterator = some node;
            }))
      ]
    ]
  ]

  unfoldable pub next_back : Iter I T → Run (Option T × Iter I T)
  next_back i = next_back_loop (suc i.current_back_node_idx) i

  -- what an iterator yields up to its end, as `collect` does
  unfoldable pub collect : ℕ → Iter I T → Run (List T)
  collect zero i = fault timeout
  collect (suc fuel) i =
      next i >>= λ r. elim r.0 [ none ↦ ok [] | some x ↦ (collect fuel r.1 >>= λ xs. ok (x ∷ xs)) ]
