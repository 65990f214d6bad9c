-- ===== src/Concurrent/Coherent/Put.antt =====
-- `put_cdc` of a call that runs alone, against the insertion into the list of items.
use indexset.Base.{
  ℕ, suc, ◌≡◌, refl, sym, ap, ◌∙◌, List, [], ◌∷◌, none, ok, get_last?, inl, inr, Bool-cases, ◌⊎◌,
}
use indexset.Order.{Ord, against_item, against_item-IsProbe}
use indexset.Order.Sorted.{All-append_left}
use indexset.Order.Spec.{find, put}
use indexset.Node
use indexset.Cdc.{ChangeEvent}
use indexset.Concurrent.SkipMap.{SkipMap, Ordered}
use indexset.Concurrent.Operation.{Shared}
use indexset.Concurrent.Set.{target, put_first, put_cdc}
use indexset.Concurrent.Coherent.{items_of, items, IsCoherent, IsNumbered}
use indexset.Concurrent.Coherent.Nodes.{items_of-append}
use indexset.Concurrent.Coherent.Place.{here, past, locate, against_item-Respects}
use indexset.Concurrent.Coherent.Query.{back-cases}
use indexset.Concurrent.Coherent.Change.{node-added}
use indexset.Concurrent.Coherent.PutSteps.{put-first}
use indexset.Concurrent.Coherent.Around.{IsPut, Target}
use indexset.Concurrent.Coherent.Room.{put_with_room}
use indexset.Concurrent.Coherent.Full.{put_when_full}

module _ {ℓ} {M T : Type ℓ} ⦃t : Ord T⦄ ⦃s : SkipMap M T⦄ ⦃o : Ordered M T⦄ (shared : Shared M T)
    (value : T) (coherent : IsCoherent shared) where
  -- there is a node for the value, or no node
  pub find_target :
      Target shared value ⊎ ((target shared.index value ≡ none) × (s.iter shared.index ≡ []))
  find_target =
      elim (locate (against_item-Respects value) shared.cell (against_item-IsProbe value)
        (s.iter shared.index) coherent.indexed.keyed coherent.indexed.sorted) [
          | here before e after whole found below high above ↦ inl (record {
            before = before;
            e = e;
            after = after;
            whole = whole;
            found = rw (o.lower_bound_lem shared.index _ ∙ found, target) refl;
            below = below;
            above = above;
          })
          | past missed below ↦
              let unfound = o.lower_bound_lem shared.index _ ∙ missed in
              elim (back-cases (s.iter shared.index)) [
                | inl empty ↦
                    inr (
                      rw (unfound, o.back_lem shared.index ∙ ap get_last? empty, target) refl,
                      empty,
                    )
                | inr (init, e, whole, back) ↦ inl (record {
                  before = init;
                  e = e;
                  after = [];
                  whole = whole;
                  found = rw (unfound, o.back_lem shared.index ∙ back, target) refl;
                  below =
                      All-append_left _ (items_of shared.cell init) _
                        (rw (whole, items_of-append shared.cell init (e ∷ [])) at below);
                  above = tt;
                })
              ]
        ]

  module _ (fuel : ℕ) where
    into_empty :
        target shared.index value ≡ none
        → s.iter shared.index ≡ []
        → IsPut shared value (put_cdc (suc fuel) shared value)
    unfolding put_first
    into_empty missed empty =
        let r =
          node-added shared.index {cell = shared.cell} {next = shared.next} [] []
            (rw empty at coherent.indexed) empty (value ∷ []) value (value, refl, t.cmp_refl value)
            (tt, tt) in
        let none_there : items shared ≡ [] = rw empty refl in
        (
          _,
          _,
          put-first shared value fuel missed
              ∙ ap
                  (λ l. ok (
                    find (against_item value) l,
                    (put_first shared value).1,
                    (put_first shared value).2,
                  ))
                  (sym none_there),
          record { indexed = r.0; capacity = coherent.capacity },
          r.1 ∙ ap (put (against_item value) (λ _. value) value) (sym none_there),
          (refl, refl),
        )

    -- On a coherent set `put_cdc` returns in the first round of its loop: it returns the item that
    -- compares equal to the value, if there is one, with events that are numbered from the next id
    -- on, and leaves a coherent set in which the value has taken that item's place, or has been
    -- inserted in order.
    pub put_cdc_refines :
        (cdc : List (ChangeEvent T)) × (shared' : Shared M T) × (put_cdc (suc fuel) shared value
          ≡ ok (find (against_item value) (items shared), cdc, shared'))
        × IsCoherent shared'
        × (items shared' ≡ put (against_item value) (λ _. value) value (items shared))
        × IsNumbered shared.event_id cdc shared'.event_id
    put_cdc_refines = elim find_target [
      | inl k ↦
          elim (Bool-cases
            (Node.need_to_split (shared.cell k.e.value) shared.node_capacity value)) [
              | inl full ↦ put_when_full shared value fuel coherent k full
              | inr room ↦ put_with_room shared value fuel coherent k room
            ]
      | inr (missed, empty) ↦ into_empty missed empty
    ]
