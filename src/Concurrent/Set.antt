-- ===== src/Concurrent/Set.antt =====
-- src/concurrent/set.rs: the calls of the concurrent `BTreeSet`. What a call does under one hold of
-- `index_lock` is one step, since it then holds the lock of the one node that it looks at; between
-- two steps other threads may run. A call that runs alone is the composition of its steps.
use indexset.Base.{
  ℕ, zero, suc, ◌+◌, ◌-◌, ◌%◌, ◌^◌, List, [], ◌∷◌, ◌++◌, Option, none, some, Bool, true, false,
  is_lt, is_eq, Run, ok, fault, panic, timeout, ◌>>=◌, unwrap, length, ◌==◌, if◌then◌else◌,
}
use indexset.Order.{Ord}
use indexset.Node
use indexset.Pair.{Pair}
use indexset.Set.{default_inner_size}
use indexset.Cdc.{
  ChangeEvent, ChangeEventUnassigned, assign_id, insert_at, remove_at, create_node, remove_node,
}
use indexset.Concurrent.SkipMap.{SkipMap}
use indexset.Concurrent.Operation.{
  Shared, Operation, split, update_max, make_unreachable, write, commit,
}

-- `event_id.fetch_add(1)` wraps
abbrev pub next_id : ℕ → ℕ
next_id n = (n + 1) % 2 ^ 64

-- each event takes the next id
abbrev pub assign_ids {ℓ} :
    {T : Type ℓ} → ℕ → List (ChangeEventUnassigned T) → List (ChangeEvent T) × ℕ
assign_ids event_id [] = ([], event_id)
assign_ids event_id (event ∷ events) =
    let rest = assign_ids (next_id event_id) events in
    (assign_id event (record { inner = event_id }) ∷ rest.0, rest.1)

-- what the first step of an insertion comes to: a result, the place of an equal item in a node that
-- stays locked, an empty index, or an operation on the index for the second step
pub data Begun {ℓ} (T : Type ℓ) : Type ℓ where
  returned : Option T → List (ChangeEvent T) → Begun T
  refused : (node idx : ℕ) (max : T) → Begun T
  unindexed : Begun T
  pending : Operation T → List (ChangeEvent T) → Begun T

-- what an insertion comes to: `none` is a `continue` of its loop
pub data Put {ℓ} (T : Type ℓ) : Type ℓ where
  returned : Option T → List (ChangeEvent T) → Put T
  refused : (node idx : ℕ) (max : T) → Put T

module _ {ℓ} {M T : Type ℓ} where
  -- the events with their ids, and the set behind them
  abbrev pub emit : Shared M T → List (ChangeEventUnassigned T) → List (ChangeEvent T) × Shared M T
  emit shared events =
      let r = assign_ids shared.event_id events in (r.0, record shared { event_id = r.1 })

  abbrev pub write_node : Shared M T → ℕ → List T → Shared M T
  write_node shared node items = record shared { cell = write shared.cell node items }

module _ {ℓ} {M T : Type ℓ} ⦃s : SkipMap M T⦄ where
  unfoldable pub with_maximum_node_size : ℕ → Shared M T
  with_maximum_node_size node_capacity = record {
    index = s.new;
    cell = λ _. [];
    next = 0;
    node_capacity = node_capacity;
    event_id = 0;
  }

  unfoldable pub default : Shared M T
  unfolding with_maximum_node_size
  default = with_maximum_node_size default_inner_size

  -- a new node under a key of the index
  abbrev pub add_node : Shared M T → T → List T → Shared M T
  add_node shared key node = record shared {
    index = s.insert shared.index key shared.next;
    cell = write shared.cell shared.next node;
    next = suc shared.next;
  }

  unfoldable pub attach_node : Shared M T → List T → Run (Shared M T)
  attach_node shared node = unwrap (Node.max node) >>= λ node_id. ok (add_node shared node_id node)

module _ {ℓ} {T : Type ℓ} where
  -- the events of a replacement
  abbrev pub replacement : List T → ℕ → T → T → Run (List (ChangeEventUnassigned T))
  replacement node idx max value =
      if length node == 1
      then ok (remove_node max ∷ create_node value ∷ [])
      else if idx == length node - 1
      then (unwrap (Node.get_ith node (length node - 2)) >>= λ new_max.
          ok (remove_at max value idx ∷ insert_at new_max value idx ∷ []))
      else ok (remove_at max value idx ∷ insert_at max value idx ∷ [])

module _ {ℓ} {M T : Type ℓ} ⦃t : Ord T⦄ ⦃s : SkipMap M T⦄ where
  -- the entry whose node a new value belongs in
  abbrev pub target : M → T → Option (Pair T ℕ)
  target index value = elim (s.lower_bound index (λ key. is_lt (t.cmp key value))) [
    | some e ↦ some e
    | none ↦ s.back index
  ]

  -- the first step in a node with room, under the read lock of the index
  abbrev pub put_into : Shared M T → Pair T ℕ → T → Run (Begun T × Shared M T)
  put_into shared e value = do
    let old_max = Node.max (shared.cell e.value)
    r ← Node.insert (shared.cell e.value) value
    elim r.0 [
      | false ↦ (unwrap old_max >>= λ max. ok (refused e.value r.1 max, shared))
      | true ↦
          let stamped =
            emit (write_node shared e.value r.2)
              (insert_at (elim old_max [ none ↦ value | some max ↦ max ]) value r.1 ∷ []) in
          elim old_max [
            | none ↦ ok (returned none stamped.0, stamped.1)
            | some max ↦ elim (Node.max r.2) [
              | none ↦ ok (pending (update_max e.value max) stamped.0, stamped.1)
              | some new_max ↦
                  if is_eq (t.cmp new_max max)
                  then ok (returned none stamped.0, stamped.1)
                  else ok (pending (update_max e.value max) stamped.0, stamped.1)
            ]
          ]
    ]

  unfoldable pub put_begin : Shared M T → T → Run (Begun T × Shared M T)
  put_begin shared value = elim (target shared.index value) [
    | none ↦ ok (unindexed, shared)
    | some e ↦ elim (Node.need_to_split (shared.cell e.value) shared.node_capacity value) [
      | true ↦ ok (pending (split e.value e.key value) [], shared)
      | false ↦ put_into shared e value
    ]
  ]

  -- the second step where the index was empty and `try_write` succeeds; nothing looks at the index
  -- again
  unfoldable pub put_first : Shared M T → T → Option T × List (ChangeEvent T) × Shared M T
  put_first shared value =
      let stamped = emit (add_node shared value (value ∷ [])) (create_node value ∷ []) in
      (none, stamped.0, stamped.1)

  -- the second step under the write lock of the index; `none` is a `continue`
  unfoldable pub put_finish :
      Shared M T
      → Operation T
      → List (ChangeEvent T)
      → Run (Option (Option T × List (ChangeEvent T)) × Shared M T)
  put_finish shared op cdc = commit shared op >>= λ r. elim r.0 [
    | some result ↦
        let stamped = emit r.1 result.1 in ok (some (result.0, cdc ++ stamped.0), stamped.1)
    | none ↦ elim op [
      | split _ _ _ ↦ ok (none, r.1)
      | update_max _ _ ↦ ok (some (none, cdc), r.1)
      | make_unreachable _ _ ↦ fault panic
    ]
  ]

  -- one round of the loop of `put_cdc_checked`, of a thread that runs alone
  abbrev pub put_round : Shared M T → T → Run (Option (Put T) × Shared M T)
  put_round shared value = put_begin shared value >>= λ begun. elim begun.0 [
    | returned old cdc ↦ ok (some (returned old cdc), begun.1)
    | refused node idx max ↦ ok (some (refused node idx max), begun.1)
    | unindexed ↦ let r = put_first begun.1 value in ok (some (returned r.0 r.1), r.2)
    | pending op cdc ↦
        (put_finish begun.1 op cdc >>= λ r. elim r.0 [
          | none ↦ ok (none, r.1)
          | some result ↦ ok (some (returned result.0 result.1), r.1)
        ])
  ]

  unfoldable pub put_cdc_checked : ℕ → Shared M T → T → Run (Put T × Shared M T)
  put_cdc_checked zero shared value = fault timeout
  put_cdc_checked (suc fuel) shared value = put_round shared value >>= λ r. elim r.0 [
    | some result ↦ ok (result, r.1)
    | none ↦ put_cdc_checked fuel r.1 value
  ]

  unfoldable pub put_cdc : ℕ → Shared M T → T → Run (Option T × List (ChangeEvent T) × Shared M T)
  put_cdc fuel shared value = put_cdc_checked fuel shared value >>= λ r. elim r.0 [
    | returned old cdc ↦ ok (old, cdc, r.1)
    | refused node idx max ↦ do
      events ← replacement (r.1.cell node) idx max value
      let stamped = emit r.1 events
      let replaced = Node.replace (r.1.cell node) idx value
      ok (replaced.0, stamped.0, write_node stamped.1 node replaced.1)
  ]

  unfoldable pub insert : ℕ → Shared M T → T → Run (Bool × Shared M T)
  insert fuel shared value =
      put_cdc fuel shared value >>= λ r. ok (elim r.0 [ none ↦ true | some _ ↦ false ], r.2)

  -- `FromIterator` and `From<[T; N]>` for a new set
  unfoldable pub insert_all : ℕ → Shared M T → List T → Run (Shared M T)
  insert_all fuel shared [] = ok shared
  insert_all fuel shared (item ∷ iter) = insert fuel shared item >>= λ r. insert_all fuel r.1 iter
