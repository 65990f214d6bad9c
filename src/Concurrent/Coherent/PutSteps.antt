-- ===== src/Concurrent/Coherent/PutSteps.antt =====
-- What the steps of an insertion come to, given what the node and the index hold.
use indexset.Base.{
  arith, ap, ◌∙◌, ℕ, suc, ◌≡◌, refl, List, [], ◌∷◌, ◌++◌, Option, none, some, true, false, eq, gt,
  ok, ==_refl,
}
use indexset.Order.{Ord}
use indexset.Pair.{Pair}
use indexset.Node
use indexset.Cdc.{ChangeEvent, ChangeEventUnassigned, insert_at}
use indexset.Concurrent.SkipMap.{SkipMap}
use indexset.Concurrent.Operation.{Shared, commit, commit_update_max, update_max, split}
use indexset.Concurrent.Set.{
  emit, write_node, target, replacement, put_begin, put_into, put_first, put_finish,
  put_cdc_checked, put_cdc, returned, pending,
}
use indexset.Concurrent.Coherent.Nodes.{write_same}

module _ {ℓ} {M T : Type ℓ} ⦃t : Ord T⦄ ⦃s : SkipMap M T⦄ (shared : Shared M T) (value : T)
    (fuel : ℕ) where
  pub put-first :
      target shared.index value ≡ none
      → put_cdc (suc fuel) shared value ≡ ok (put_first shared value)
  unfolding put_cdc put_cdc_checked put_begin
  put-first missed = rw (missed, put_begin) refl

  module _ (e : Pair T ℕ) (found : target shared.index value ≡ some e) where
    pub put-full :
        (old : Option T) (events : List (ChangeEventUnassigned T)) (shared' : Shared M T)
        → Node.need_to_split (shared.cell e.value) shared.node_capacity value ≡ true
        → commit shared (split e.value e.key value) ≡ ok (some (old, events), shared')
        → put_cdc (suc fuel) shared value ≡ (let r = emit shared' events in ok (old, r.0, r.1))
    unfolding put_cdc put_cdc_checked put_begin put_finish
    put-full old events shared' full done =
        rw (found, put_begin) (rw full (rw (done, put_finish) refl))

    module _ (room : Node.need_to_split (shared.cell e.value) shared.node_capacity value ≡ false)
        (i : ℕ) (node : List T) (max : T) (had : Node.max (shared.cell e.value) ≡ some max) where
      pub put-refused :
          (events : List (ChangeEventUnassigned T)) (old : Option T) (replaced : List T)
          → Node.insert (shared.cell e.value) value ≡ ok (false, i, node)
          → replacement (shared.cell e.value) i max value ≡ ok events
          → Node.replace (shared.cell e.value) i value ≡ (old, replaced)
          → put_cdc (suc fuel) shared value
            ≡ (let r = emit shared events in ok (old, r.0, write_node r.1 e.value replaced))
      unfolding put_cdc put_cdc_checked put_begin
      put-refused events old replaced inserted changed there =
          rw (found, put_begin) (rw room (rw inserted (rw had (rw changed (rw there refl)))))

      module _ (inserted : Node.insert (shared.cell e.value) value ≡ ok (true, i, node)) where
        abbrev pub stamped : List (ChangeEvent T) × Shared M T
        stamped = emit (write_node shared e.value node) (insert_at max value i ∷ [])

        into-inner :
            (new_max : T)
            → Node.max node ≡ some new_max
            → t.cmp new_max max ≡ eq
            → put_into shared e value ≡ ok (returned none stamped.0, stamped.1)
        into-inner new_max has same = rw (inserted, put_into) (ground arith)

        into-greatest :
            (new_max : T)
            → Node.max node ≡ some new_max
            → t.cmp new_max max ≡ gt
            → put_into shared e value ≡ ok (pending (update_max e.value max) stamped.0, stamped.1)
        into-greatest new_max has greater = rw (inserted, put_into) (ground arith)

        pub put-inner :
            (new_max : T)
            → Node.max node ≡ some new_max
            → t.cmp new_max max ≡ eq
            → put_cdc (suc fuel) shared value ≡ ok (none, stamped.0, stamped.1)
        unfolding put_cdc put_cdc_checked put_begin
        put-inner new_max has same =
            rw (found, put_begin) (rw room (rw (into-inner new_max has same) refl))

        pub put-greatest :
            (new_max : T)
            → Node.max node ≡ some new_max
            → t.cmp new_max max ≡ gt
            → s.get shared.index max ≡ some e
            → put_cdc (suc fuel) shared value
              ≡ ok (
                none,
                stamped.0 ++ [],
                record stamped.1 { index = s.insert (s.remove shared.index max) new_max e.value },
              )
        unfolding put_cdc put_cdc_checked put_begin put_finish commit
        put-greatest new_max has greater got =
            let commits : commit stamped.1 (update_max e.value max)
                ≡ ok (
                  some (none, []),
                  record stamped.1 { index = s.insert (s.remove shared.index max) new_max e.value },
                ) =
              rw
                (ap Node.max (write_same shared.cell e.value node) ∙ has, commit, commit_update_max)
                (rw got (rw (==_refl e.value) (rw greater refl))) in
            rw (found, put_begin)
              (rw room (rw (into-greatest new_max has greater) (rw (commits, put_finish) refl)))
