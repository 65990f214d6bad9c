-- ===== src/Concurrent/Coherent/Steps.antt =====
-- What the two steps of a removal come to, given what the node and the index hold.
use indexset.Base.{
  ap, ◌∙◌, ℕ, ◌≡◌, refl, List, [], ◌∷◌, ◌++◌, none, some, lt, gt, eq, is_lt, ok, get_last?, ==_refl,
}
use indexset.Order.{Ord, Borrow, against}
use indexset.Pair.{Pair}
use indexset.Node
use indexset.Cdc.{ChangeEvent, remove_at, remove_node}
use indexset.Concurrent.SkipMap.{SkipMap}
use indexset.Concurrent.Operation.{
  Shared, commit, commit_update_max, commit_make_unreachable, update_max, make_unreachable,
}
use indexset.Concurrent.Set.{emit, write_node}
use indexset.Concurrent.Removal.{remove_begin, remove_finish, remove_cdc}
use indexset.Concurrent.Coherent.Nodes.{write_same}

module _ {ℓ} {M T : Type ℓ} ⦃t : Ord T⦄ ⦃s : SkipMap M T⦄ (shared : Shared M T) (e : Pair T ℕ)
    (max : T) where
  pub update_max-commits :
      (new_max : T)
      → get_last? (shared.cell e.value) ≡ some new_max
      → s.get shared.index max ≡ some e
      → t.cmp new_max max ≡ lt
      → commit shared (update_max e.value max)
        ≡ ok (
          some (none, []),
          record shared { index = s.insert (s.remove shared.index max) new_max e.value },
        )
  unfolding commit Node.max
  update_max-commits new_max has got less =
      rw (has, commit, commit_update_max) (rw got (rw (==_refl e.value) (rw less refl)))

  pub make_unreachable-commits :
      get_last? (shared.cell e.value) ≡ none
      → s.get shared.index max ≡ some e
      → commit shared (make_unreachable e.value max)
        ≡ ok
            (some (none, remove_node max ∷ []), record shared { index = s.remove shared.index max })
  unfolding commit Node.max
  make_unreachable-commits has got =
      rw (got, commit, commit_make_unreachable) (rw (==_refl e.value) (rw has refl))

module _ {ℓ κ} {M T : Type ℓ} {Q : Type κ} ⦃t : Ord T⦄ ⦃q : Ord Q⦄ ⦃b : Borrow T Q⦄
    ⦃s : SkipMap M T⦄ (shared : Shared M T) (value : Q) where
  pub remove-unindexed :
      s.lower_bound shared.index (λ key. is_lt (against value key)) ≡ none
      → remove_cdc shared value ≡ ok (none, [], shared)
  unfolding remove_cdc remove_begin
  remove-unindexed missed = rw (missed, remove_begin) refl

  module _ (e : Pair T ℕ)
      (found : s.lower_bound shared.index (λ key. is_lt (against value key)) ≡ some e) where
    pub remove-missing :
        (node : List T)
        → Node.delete (shared.cell e.value) value ≡ ok (none, node)
        → remove_cdc shared value ≡ ok (none, [], shared)
    unfolding remove_cdc remove_begin
    remove-missing node deleted = rw (found, remove_begin) (rw deleted refl)

    module _ (x : T) (i : ℕ) (node : List T) (max : T)
        (deleted : Node.delete (shared.cell e.value) value ≡ ok (some (x, i), node))
        (had : get_last? (shared.cell e.value) ≡ some max) where
      abbrev pub stamped : List (ChangeEvent T) × Shared M T
      stamped = emit (write_node shared e.value node) (remove_at max x i ∷ [])

      pub remove-inner :
          (new_max : T)
          → get_last? node ≡ some new_max
          → t.cmp max new_max ≡ eq
          → remove_cdc shared value ≡ ok (some x, stamped.0, stamped.1)
      unfolding remove_cdc remove_begin Node.max
      remove-inner new_max has same =
          rw (found, remove_begin) (rw deleted (rw had (rw has (rw same refl))))

      module _ (got : s.get shared.index max ≡ some e) where
        -- the greatest item of the node went, and others are left
        pub remove-greatest :
            (new_max : T)
            → get_last? node ≡ some new_max
            → t.cmp max new_max ≡ gt
            → t.cmp new_max max ≡ lt
            → remove_cdc shared value
              ≡ ok (
                some x,
                stamped.0 ++ [],
                record stamped.1 { index = s.insert (s.remove shared.index max) new_max e.value },
              )
        unfolding remove_cdc remove_begin remove_finish Node.max
        remove-greatest new_max has greater less =
            rw (found, remove_begin)
              (rw deleted (
                rw had (
                  rw has (
                    rw greater (
                      rw
                        (
                          update_max-commits stamped.1 e max new_max
                              (ap get_last? (write_same shared.cell e.value node) ∙ has) got less,
                          remove_finish,
                        )
                        refl)))))

        -- the node is empty now, and its entry goes
        pub remove-only :
            get_last? node ≡ none
            → remove_cdc shared value ≡ (
                let r =
                  emit
                    (record (write_node shared e.value node) { index = s.remove shared.index max })
                    (remove_node max ∷ []) in
                ok (some x, r.0, r.1))
        unfolding remove_cdc remove_begin remove_finish Node.max
        remove-only has =
            rw (found, remove_begin)
              (rw deleted (
                rw had (
                  rw has (
                    rw
                      (
                        make_unreachable-commits (write_node shared e.value node) e max
                            (ap get_last? (write_same shared.cell e.value node) ∙ has) got,
                        remove_finish,
                      )
                      refl))))
