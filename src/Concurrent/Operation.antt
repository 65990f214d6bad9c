-- ===== src/Concurrent/Operation.antt =====
-- src/concurrent/operation.rs: the changes of the index that a call leaves for later, when it holds
-- the index alone. The events of the feature `cdc` are there.
use indexset.Base.{
  ◌&&◌, ℕ, suc, List, [], ◌∷◌, Option, none, some, Bool, true, false, eq, is_lt, not, Run, ok,
  ◌>>=◌, unwrap, length, ◌==◌, if◌then◌else◌,
}
use indexset.Order.{Ord}
use indexset.Node
use indexset.Cdc.{ChangeEventUnassigned, insert_at, remove_at, remove_node, split_node}
use indexset.Concurrent.SkipMap.{SkipMap}

-- `struct BTreeSet` of src/concurrent/set.rs: the index of nodes by their greatest items, the store of
-- the nodes that addresses below `next` name, and the next event's id
pub record Shared {ℓ} (M : Type ℓ) (T : Type ℓ) : Type ℓ where
  pub index : M
  pub cell : ℕ → List T
  pub next : ℕ
  pub node_capacity : ℕ
  pub event_id : ℕ

pub data Operation {ℓ} (T : Type ℓ) : Type ℓ where
  split : (old_node : ℕ) (old_max value : T) → Operation T
  update_max : (node : ℕ) (old_max : T) → Operation T
  make_unreachable : (node : ℕ) (old_max : T) → Operation T

-- the store after a write of one node
abbrev pub write {ℓ} : {T : Type ℓ} → (ℕ → List T) → ℕ → List T → ℕ → List T
write cell a node b = if b == a then node else cell b

-- a node, the index, the value replaced and the events, after a half of a split node is dealt with;
-- and whether the value went into it
pub record Half {ℓ} (M : Type ℓ) (T : Type ℓ) : Type ℓ where
  pub node : List T
  pub index : M
  pub old_value : Option T
  pub cdc : List (ChangeEventUnassigned T)
  pub insert_attempted : Bool

module _ {ℓ} {T : Type ℓ} ⦃t : Ord T⦄ where
  -- `NodeLike::insert`, and `NodeLike::replace` where the value is there: whether it was new, the
  -- node, the value replaced, and the events for a node of the given greatest item
  abbrev pub put_value :
      List T → T → T → Run (Bool × List T × Option T × List (ChangeEventUnassigned T))
  put_value node max value = do
    r ← Node.insert node value
    elim r.0 [
      | true ↦ ok (true, r.2, none, insert_at max value r.1 ∷ [])
      | false ↦ do
        let replaced = Node.replace r.2 r.1 value
        old ← unwrap replaced.0
        ok (false, replaced.1, some old, remove_at max old r.1 ∷ insert_at max value r.1 ∷ [])
    ]

  -- `max >= value`
  abbrev pub at_least : T → T → Bool
  at_least max value = not (is_lt (t.cmp max value))

  -- `value > max`
  abbrev pub exceeds : T → T → Bool
  exceeds value max = is_lt (t.cmp max value)

-- the items of a node and its greatest, under `Option`'s order: no item is before any
abbrev pub max_before {ℓ} : {T : Type ℓ} ⦃t : Ord T⦄ → Option T → T → Bool
max_before none old_max = true
max_before ⦃t⦄ (some new_max) old_max = is_lt (t.cmp new_max old_max)

module _ {ℓ} {M T : Type ℓ} ⦃t : Ord T⦄ ⦃s : SkipMap M T⦄ where
  -- the lower half stays in the old node
  abbrev pub lower_half : M → ℕ → List T → T → Run (Half M T)
  lower_half index old_node half value = elim (Node.max half) [
    | none ↦ ok (record {
      node = half;
      index = index;
      old_value = none;
      cdc = [];
      insert_attempted = false;
    })
    | some max ↦ elim (at_least max value) [
      | true ↦
          (put_value half max value >>= λ r. ok (record {
            node = r.1;
            index = s.insert index max old_node;
            old_value = r.2;
            cdc = r.3;
            insert_attempted = true;
          }))
      | false ↦ ok (record {
        node = half;
        index = s.insert index max old_node;
        old_value = none;
        cdc = [];
        insert_attempted = false;
      })
    ]
  ]

  -- the upper half, after the lower, goes to a new node
  abbrev pub upper_half : Half M T → ℕ → List T → T → Run (Half M T)
  upper_half lower new_node half value = elim (Node.max half) [
    | none ↦ ok (record lower { node = half })
    | some max ↦ elim lower.insert_attempted [
      | true ↦ ok (record lower { node = half; index = s.insert lower.index max new_node })
      | false ↦
          (put_value half max value >>= λ r. ok (record {
            node = r.1;
            index = s.insert lower.index (if r.0 && exceeds value max then value else max) new_node;
            old_value = r.2;
            cdc = r.3;
            insert_attempted = true;
          }))
    ]
  ]

  abbrev pub commit_split :
      Shared M T → ℕ → T → T → Run (Option (Option T × List (ChangeEventUnassigned T)) × Shared M T)
  commit_split shared old_node old_max value = elim (s.get shared.index old_max) [
    | none ↦ ok (none, shared)
    | some e ↦ elim (e.value == old_node) [
      | false ↦ ok (none, shared)
      | true ↦ do
        max_value ← unwrap (Node.max (shared.cell old_node))
        halves ← Node.halve (shared.cell old_node)
        lower ← lower_half (s.remove shared.index old_max) old_node halves.0 value
        upper ← upper_half lower shared.next halves.1 value
        ok (
          some (upper.old_value, split_node max_value (length halves.0) ∷ upper.cdc),
          record shared {
            index = upper.index;
            cell = write (write shared.cell old_node lower.node) shared.next upper.node;
            next = suc shared.next;
          },
        )
    ]
  ]

  abbrev pub commit_update_max :
      Shared M T → ℕ → T → Run (Option (Option T × List (ChangeEventUnassigned T)) × Shared M T)
  commit_update_max shared node old_max = elim (Node.max (shared.cell node)) [
    | none ↦ ok (some (none, []), shared)
    | some new_max ↦ elim (s.get shared.index old_max) [
      | none ↦ ok (none, shared)
      | some e ↦ elim (e.value == node) [
        | false ↦ ok (none, shared)
        | true ↦ elim (t.cmp new_max old_max) [
          | eq ↦ ok (some (none, []), shared)
          | _ ↦ ok (
            some (none, []),
            record shared { index = s.insert (s.remove shared.index old_max) new_max node },
          )
        ]
      ]
    ]
  ]

  abbrev pub commit_make_unreachable :
      Shared M T → ℕ → T → Run (Option (Option T × List (ChangeEventUnassigned T)) × Shared M T)
  commit_make_unreachable shared node old_max = elim (s.get shared.index old_max) [
    | none ↦ ok (none, shared)
    | some e ↦ elim (e.value == node) [
      | false ↦ ok (none, shared)
      | true ↦ elim (max_before (Node.max (shared.cell node)) old_max) [
        | true ↦ ok (
          some (none, remove_node old_max ∷ []),
          record shared { index = s.remove shared.index old_max },
        )
        | false ↦ ok (none, shared)
      ]
    ]
  ]

  -- `Err(())` is `none`
  unfoldable pub commit :
      Shared M T
      → Operation T
      → Run (Option (Option T × List (ChangeEventUnassigned T)) × Shared M T)
  commit shared (split old_node old_max value) = commit_split shared old_node old_max value
  commit shared (update_max node old_max) = commit_update_max shared node old_max
  commit shared (make_unreachable node old_max) = commit_make_unreachable shared node old_max
