-- ===== src/Concurrent/Coherent/Query.antt =====
-- `contains` and `get` of the concurrent set against the reference lookups.
use indexset.Node
use indexset.Node.{try_select}
use indexset.Node.Search.{search-absent, search-present}
use indexset.Base.{
  get_elem?-append_at, ◌>>=◌, length, ◌⊎◌, inl, inr, ℕ, ◌≡◌, refl, sym, ap, ◌∙◌, List, [], ◌∷◌,
  ◌++◌, none, some, Ordering, get_last?, ok, get_elem?,
}
use indexset.Order.{Ord, Borrow, against, against-IsProbe}
use indexset.Order.Sorted.{All-append_left, IsSorted, IsSorted-append_left, IsSorted-append_right}
use indexset.Order.Spec.{find, is_some}
use indexset.Order.View.{view, absent, present, Below, Above, find-append}
use indexset.Order.Cuts.{find-absent, find-present, find-append_right}
use indexset.Pair.{Pair}
use indexset.Set.Locate.Cut.{last}
use indexset.Node.Insert.{contains_node_refines}
use indexset.Concurrent.SkipMap.{SkipMap, Ordered}
use indexset.Concurrent.Operation.{Shared}
use indexset.Concurrent.Lookup.{locate_node, contains, get, ref_get}
use indexset.Concurrent.Coherent.{items_of, items, IsCoherent}
use indexset.Concurrent.Coherent.Nodes.{items_of-append}
use indexset.Concurrent.Coherent.Place.{here, past, locate, against-Respects}

pub back-cases {ℓ} :
    {A : Type ℓ} (xs : List A)
    → (xs ≡ []) ⊎ ((init : List A) × (x : A) × (xs ≡ init ++ x ∷ []) × (get_last? xs ≡ some x))
back-cases [] = inl refl
back-cases (x ∷ xs) = let r = last (x ∷ xs) tt in inr (r.0, r.1, r.2, r.3)

module _ {ℓ κ} {M T : Type ℓ} {Q : Type κ} ⦃t : Ord T⦄ ⦃q : Ord Q⦄ ⦃b : Borrow T Q⦄
    ⦃s : SkipMap M T⦄ ⦃o : Ordered M T⦄ (shared : Shared M T) (value : Q)
    (coherent : IsCoherent shared) where
  abbrev p : T → Ordering
  p = against value

  -- the one node in which an item can compare equal, if there is a node
  pub data Chosen : Type ℓ where
    nowhere : locate_node shared value ≡ none → items shared ≡ [] → Chosen
    chosen :
        (node : ℕ)
        → locate_node shared value ≡ some node
        → IsSorted (shared.cell node)
        → find p (items shared) ≡ find p (shared.cell node)
        → Chosen

  Chosen-in :
      (before : List (Pair T ℕ)) (e : Pair T ℕ) (after : List (Pair T ℕ))
      → s.iter shared.index ≡ before ++ e ∷ after
      → Below p (items_of shared.cell before)
      → Above p (items_of shared.cell after)
      → locate_node shared value ≡ some e.value
      → Chosen
  Chosen-in before e after whole below above found =
      let same : items shared
          ≡ items_of shared.cell before ++ (shared.cell e.value ++ items_of shared.cell after) =
        rw whole (items_of-append shared.cell before (e ∷ after)) in
      chosen e.value found
        (IsSorted-append_left _ (items_of shared.cell after) (
          IsSorted-append_right (items_of shared.cell before) _
            (rw (← same) coherent.indexed.sorted)))
        (rw same (
          find-append p (items_of shared.cell before) _ below
          ∙ find-append_right p (items_of shared.cell after) above (shared.cell e.value)))

  pub choose : Chosen
  unfolding locate_node
  choose =
      elim (locate (against-Respects value) shared.cell (against-IsProbe value)
        (s.iter shared.index) coherent.indexed.keyed coherent.indexed.sorted) [
          | here before e after whole found below high above ↦
              Chosen-in before e after whole below above
                (rw (o.lower_bound_lem shared.index _ ∙ found, locate_node) refl)
          | past missed below ↦
              let unfound = o.lower_bound_lem shared.index _ ∙ missed in
              elim (back-cases (s.iter shared.index)) [
                | inl empty ↦
                    nowhere
                      (rw
                        (
                          unfound,
                          o.back_lem shared.index ∙ ap get_last? empty,
                          o.front_lem shared.index ∙ ap (λ l. get_elem? l 0) empty,
                          locate_node,
                        )
                        refl)
                      (rw empty refl)
                | inr (init, e, whole, back) ↦
                    Chosen-in init e [] whole
                      (All-append_left _ (items_of shared.cell init) _
                        (rw (whole, items_of-append shared.cell init (e ∷ [])) at below))
                      tt (rw (unfound, o.back_lem shared.index ∙ back, locate_node) refl)
              ]
        ]

  -- On a coherent set `contains` returns whether an item compares equal to the value.
  pub contains_shared_refines :
      contains shared value ≡ ok (is_some (find (against value) (items shared)))
  unfolding contains
  contains_shared_refines = elim choose [
    | nowhere missed empty ↦ rw (missed, empty, contains) refl
    | chosen node found sorted same ↦
        rw (found, contains)
          (contains_node_refines value (shared.cell node) sorted
            ∙ ap (λ x. ok (is_some x)) (sym same))
  ]

module _ {ℓ κ} {T : Type ℓ} {Q : Type κ} ⦃t : Ord T⦄ ⦃q : Ord Q⦄ ⦃b : Borrow T Q⦄ (value : Q)
    (node : List T) (sorted : IsSorted node) where
  -- what a node selects
  data Selected : Type ℓ where
    unselected : try_select node value ≡ ok none → find (against value) node ≡ none → Selected
    selected :
        (i : ℕ) (x : T)
        → try_select node value ≡ ok (some i)
        → get_elem? node i ≡ some x
        → find (against value) node ≡ some x
        → Selected

  select : Selected
  unfolding try_select
  select =
      let p : T → Ordering = against value in
      elim (view (against-IsProbe value) node sorted) [
        | absent lo hi e below above ↦
            unselected (rw e (rw (search-absent value lo hi below above)))
              (rw e (find-absent p lo hi below above))
        | present lo x hi e below m above ↦
            selected (length lo) x (rw e (rw (search-present value lo hi below above x m)))
              (rw e (get_elem?-append_at lo (x ∷ hi))) (rw e (find-present p lo hi below above x m))
      ]

module _ {ℓ κ} {M T : Type ℓ} {Q : Type κ} ⦃t : Ord T⦄ ⦃q : Ord Q⦄ ⦃b : Borrow T Q⦄
    ⦃s : SkipMap M T⦄ ⦃o : Ordered M T⦄ (shared : Shared M T) (value : Q)
    (coherent : IsCoherent shared) where
  -- On a coherent set the reference that `get` returns reads the item that compares equal to the
  -- value, and there is no reference if there is none.
  pub get_shared_refines :
      (get shared value >>= λ r. elim r [
        | none ↦ ok none
        | some place ↦ (ref_get shared place >>= λ x. ok (some x))
      ])
      ≡ ok (find (against value) (items shared))
  unfolding get ref_get Node.get_ith
  get_shared_refines = elim (choose shared value coherent) [
    | nowhere missed empty ↦ rw (missed, empty, get) refl
    | chosen node found sorted same ↦ elim (select value (shared.cell node) sorted) [
      | unselected tried none_there ↦ rw same (rw (found, get) (rw (tried, none_there) refl))
      | selected i x tried there held ↦
          rw same (rw (found, get) (rw tried (rw there (rw held refl))))
    ]
  ]
