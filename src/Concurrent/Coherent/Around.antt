-- ===== src/Concurrent/Coherent/Around.antt =====
-- What a value that is put into its node makes of the items of a coherent set.
use indexset.Base.{
  ℕ, suc, ◌≡◌, refl, sym, ap, ◌∙◌, List, [], ◌∷◌, ◌++◌, Option, some, Ordering, ok, Run,
}
use indexset.Order.{Ord, against_item}
use indexset.Order.Sorted.{All-append_right, IsSorted, IsSorted-append_left, IsSorted-append_right}
use indexset.Order.Spec.{find, put}
use indexset.Order.View.{Below, Above, find-append}
use indexset.Order.Cuts.{find-append_right}
use indexset.Order.Puts.{put-append, put-append_right, put-IsSorted}
use indexset.Pair.{Pair}
use indexset.Cdc.{
  ChangeEvent, ChangeEventUnassigned, insert_at, remove_at, create_node, remove_node, split_node,
}
use indexset.Concurrent.SkipMap.{SkipMap, Ordered}
use indexset.Concurrent.Operation.{Shared}
use indexset.Concurrent.Set.{target, assign_ids, put_cdc}
use indexset.Concurrent.Coherent.{items_of, HasMax, IsIndexed, items, IsCoherent, IsNumbered}
use indexset.Concurrent.Coherent.Nodes.{items_of-append}
use indexset.Concurrent.Coherent.Change.{StandsFor}

pub assign_ids-IsNumbered {ℓ} :
    {T : Type ℓ} (events : List (ChangeEventUnassigned T)) (event_id : ℕ)
    → IsNumbered event_id (assign_ids event_id events).0 (assign_ids event_id events).1
assign_ids-IsNumbered [] event_id = refl
assign_ids-IsNumbered (insert_at _ _ _ ∷ events) event_id = (refl, assign_ids-IsNumbered events _)
assign_ids-IsNumbered (remove_at _ _ _ ∷ events) event_id = (refl, assign_ids-IsNumbered events _)
assign_ids-IsNumbered (create_node _ ∷ events) event_id = (refl, assign_ids-IsNumbered events _)
assign_ids-IsNumbered (remove_node _ ∷ events) event_id = (refl, assign_ids-IsNumbered events _)
assign_ids-IsNumbered (split_node _ _ ∷ events) event_id = (refl, assign_ids-IsNumbered events _)

module _ {ℓ} {M T : Type ℓ} ⦃t : Ord T⦄ ⦃s : SkipMap M T⦄ (shared : Shared M T) (value : T) where
  -- what an insertion returns and leaves
  abbrev pub IsPut : Run (Option T × List (ChangeEvent T) × Shared M T) → Type ℓ
  IsPut run =
      (cdc : List (ChangeEvent T)) × (shared' : Shared M T) × (run
        ≡ ok (find (against_item value) (items shared), cdc, shared'))
      × IsCoherent shared'
      × (items shared' ≡ put (against_item value) (λ _. value) value (items shared))
      × IsNumbered shared.event_id cdc shared'.event_id

module _ {ℓ} {T : Type ℓ} ⦃t : Ord T⦄ (value : T) where
  abbrev pub putting : List T → List T
  putting = put (against_item value) (λ _. value) value

-- the node that a value belongs in
pub record Target {ℓ} {M T : Type ℓ} ⦃t : Ord T⦄ ⦃s : SkipMap M T⦄ (shared : Shared M T) (value : T)
    : Type ℓ where
  pub before : List (Pair T ℕ)
  pub e : Pair T ℕ
  pub after : List (Pair T ℕ)
  pub whole : s.iter shared.index ≡ before ++ e ∷ after
  pub found : target shared.index value ≡ some e
  pub below : Below (against_item value) (items_of shared.cell before)
  pub above : Above (against_item value) (items_of shared.cell after)

module _ {ℓ} {M T : Type ℓ} ⦃t : Ord T⦄ ⦃s : SkipMap M T⦄ ⦃o : Ordered M T⦄ (shared : Shared M T)
    (value : T) (coherent : IsCoherent shared) (k : Target shared value) where
  abbrev p : T → Ordering
  p = against_item value

  abbrev pub B : List T
  B = items_of shared.cell k.before

  abbrev pub A : List T
  A = items_of shared.cell k.after

  abbrev pub node : List T
  node = shared.cell k.e.value

  pub indexed : IsIndexed shared.cell shared.next (k.before ++ k.e ∷ k.after)
  indexed = rw (← k.whole) coherent.indexed

  pub around : items shared ≡ B ++ (node ++ A)
  around = rw k.whole (items_of-append shared.cell k.before (k.e ∷ k.after))

  pub find-around : find p (items shared) ≡ find p node
  find-around = rw around (find-append p B (node ++ A) k.below ∙ find-append_right p A k.above node)

  pub put-around : putting value (items shared) ≡ B ++ (putting value node ++ A)
  put-around = rw around (
      put-append p (λ _. value) value B (node ++ A) k.below
      ∙ ap (λ l. B ++ l) (put-append_right p (λ _. value) value node A k.above))

  pub new-IsSorted : IsSorted (B ++ (putting value node ++ A))
  new-IsSorted = rw (← put-around) (put-IsSorted value (items shared) coherent.indexed.sorted)

  pub node-IsSorted : IsSorted node
  node-IsSorted =
      IsSorted-append_left node A
        (IsSorted-append_right B (node ++ A) (rw (← around) coherent.indexed.sorted))

  pub top : HasMax node k.e.key
  top = (All-append_right _ k.before (k.e ∷ k.after) indexed.keyed).0

  pub leaves :
      {cdc : List (ChangeEvent T)} {shared' : Shared M T} {old : Option T} (fuel : ℕ) (new : List T)
      → find p node ≡ old
      → put_cdc (suc fuel) shared value ≡ ok (old, cdc, shared')
      → shared'.node_capacity ≡ shared.node_capacity
      → IsNumbered shared.event_id cdc shared'.event_id
      → putting value node ≡ new
      → StandsFor shared'.index shared'.cell shared'.next (B ++ (new ++ A))
      → IsPut shared value (put_cdc (suc fuel) shared value)
  leaves {cdc} {shared'} fuel new missed run capacity numbered same (indexed', items') = (
    cdc,
    shared',
    run ∙ ap (λ x. ok (x, cdc, shared')) (sym (find-around ∙ missed)),
    record { indexed = indexed'; capacity = rw capacity coherent.capacity },
    items' ∙ sym (put-around ∙ ap (λ l. B ++ (l ++ A)) same),
    numbered,
  )

  pub IsSorted-as : (new : List T) → putting value node ≡ new → IsSorted (B ++ (new ++ A))
  IsSorted-as new same = rw (← same) new-IsSorted
