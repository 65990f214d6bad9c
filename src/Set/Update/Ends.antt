-- ===== src/Set/Update/Ends.antt =====
-- `pop_first` and `pop_last` of src/lib.rs against the reference list of items.
use indexset.Base.{
  ◌-◌, ◌≡◌, refl, sym, ap, ◌∙◌, List, [], ◌∷◌, ◌++◌, append-nil, none, some, length, length-append,
  get_elem?, get_elem?-append_at, get_last?, flatten, drop, arith, ok,
}
use indexset.Base.Vec
use indexset.Order.{Ord}
use indexset.Order.Sorted.{All}
use indexset.Order.Spec.{drop_last}
use indexset.Fenwick.{FenwickTree, Counts}
use indexset.Set.{BTreeSet}
use indexset.Set.Locate.Cut.{last}
use indexset.Set.Valid.{IsNonempty, HasNodes, IsValid, items}
use indexset.Set.Spot.{flatten_around}
use indexset.Set.Update.{delete_at, pop_first, pop_last}
use indexset.Set.Update.Delete.{delete_at_lem}

module _ {ℓ} {A : Type ℓ} where
  get_last?-snoc : (xs : List A) (x : A) → get_last? (xs ++ x ∷ []) ≡ some x
  get_last?-snoc [] x = refl
  get_last?-snoc (y ∷ []) x = refl
  get_last?-snoc (y ∷ z ∷ xs) x = get_last?-snoc (z ∷ xs) x

  drop_last-snoc : (xs : List A) (x : A) → drop_last (xs ++ x ∷ []) ≡ xs
  drop_last-snoc [] x = refl
  drop_last-snoc (y ∷ []) x = refl
  drop_last-snoc (y ∷ z ∷ xs) x = ap (λ l. y ∷ l) (drop_last-snoc (z ∷ xs) x)

  IsNonempty-nodes : (inner : List (List A)) → HasNodes inner → IsNonempty inner
  IsNonempty-nodes [] h = h
  IsNonempty-nodes (node ∷ inner) h = tt

  -- an empty last node is the sole one
  sole_of_empty :
      (init : List (List A)) → HasNodes (init ++ [] ∷ []) → flatten (init ++ [] ∷ []) ≡ []
  sole_of_empty [] h = refl
  sole_of_empty (node ∷ []) h = absurd h.1.0
  sole_of_empty (node ∷ next ∷ init) h = absurd (empty_behind (next ∷ init) h.1)
    where
      empty_behind : (nodes : List (List A)) → All IsNonempty (nodes ++ [] ∷ []) → ⊥
      empty_behind [] h = h.0
      empty_behind (node ∷ nodes) h = empty_behind nodes h.1

module _ {ℓ} {T : Type ℓ} {I : Type 0} ⦃t : Ord T⦄ ⦃f : FenwickTree I⦄ ⦃c : Counts I⦄
    (s : BTreeSet I T) (valid : IsValid s) where
  abbrev FirstPopped : Type ℓ
  FirstPopped =
      (s' : BTreeSet I T) × (pop_first s ≡ ok (get_elem? (items s) 0, s'))
      × IsValid s'
      × (items s' ≡ drop 1 (items s))

  pop_first-item :
      (node : List T) (x : T) (s' : BTreeSet I T)
      → get_elem? s.inner 0 ≡ some node
      → get_elem? node 0 ≡ some x
      → delete_at s 0 0 ≡ ok (x, s')
      → pop_first s ≡ ok (some x, s')
  unfolding pop_first
  pop_first-item node x s' e r d = ground arith

  pop_first-none : get_elem? s.inner 0 ≡ some [] → pop_first s ≡ ok (none, s)
  unfolding pop_first
  pop_first-none e = ground arith

  pop_first_at : (inner : List (List T)) → s.inner ≡ inner → HasNodes inner → FirstPopped
  pop_first_at [] e h = absurd h
  pop_first_at ([] ∷ []) e h =
      let none_left : items s ≡ [] = ap flatten e in
      (
        s,
        pop_first-none (ap (λ l. get_elem? l 0) e)
            ∙ ap (λ l. ok (get_elem? l 0, s)) (sym none_left),
        valid,
        none_left ∙ sym (ap (drop 1) none_left),
      )
  pop_first_at ([] ∷ next ∷ rest) e h = absurd h.0
  pop_first_at ((x ∷ node) ∷ rest) e h =
      let (s', deleted, valid', items') = delete_at_lem s valid [] [] x node rest e in
      (
        s',
        pop_first-item (x ∷ node) x s' (ap (λ l. get_elem? l 0) e) refl deleted
            ∙ ap (λ l. ok (get_elem? (flatten l) 0, s')) (sym e),
        valid',
        items' ∙ sym (ap (λ l. drop 1 (flatten l)) e),
      )

  -- On a valid set `pop_first` returns the first item, or nothing if there is none, and leaves a
  -- valid set of the items behind it.
  pub pop_first_refines :
      (s' : BTreeSet I T) × (pop_first s ≡ ok (get_elem? (items s) 0, s'))
      × IsValid s'
      × (items s' ≡ drop 1 (items s))
  pop_first_refines = pop_first_at s.inner refl valid.nodes

  abbrev LastPopped : Type ℓ
  LastPopped =
      (s' : BTreeSet I T) × (pop_last s ≡ ok (get_last? (items s), s'))
      × IsValid s'
      × (items s' ≡ drop_last (items s))

  last_place :
      (init : List (List T)) (node : List T)
      → s.inner ≡ init ++ node ∷ []
      → length s.inner - 1 ≡ length init
  last_place init node e = omega (arith, ap length e, length-append init (node ∷ []))

  last_node_at :
      (init : List (List T)) (node : List T)
      → s.inner ≡ init ++ node ∷ []
      → Vec.index s.inner (length s.inner - 1) ≡ ok node
  last_node_at init node e =
      ap (λ i. Vec.index s.inner i) (last_place init node e)
      ∙ (ap (λ l. Vec.index l (length init)) e ∙ Vec.index_lem init node [])

  pop_last-found :
      (node : List T) (x : T) (s' : BTreeSet I T)
      → Vec.index s.inner (length s.inner - 1) ≡ ok node
      → get_elem? node (length node - 1) ≡ some x
      → delete_at s (length s.inner - 1) (length node - 1) ≡ ok (x, s')
      → pop_last s ≡ ok (some x, s')
  unfolding pop_last
  pop_last-found node x s' e r d = ground arith

  pop_last-none : Vec.index s.inner (length s.inner - 1) ≡ ok [] → pop_last s ≡ ok (none, s)
  unfolding pop_last
  pop_last-none e = rw e

  pop_last-empty : (init : List (List T)) → s.inner ≡ init ++ [] ∷ [] → LastPopped
  pop_last-empty init e =
      let none_left : items s ≡ [] = ap flatten e ∙ sole_of_empty init (rw (← e) valid.nodes) in
      (
        s,
        pop_last-none (last_node_at init [] e) ∙ ap (λ l. ok (get_last? l, s)) (sym none_left),
        valid,
        none_left ∙ sym (ap drop_last none_left),
      )

  pop_last-item :
      (init : List (List T)) (lo : List T) (x : T)
      → s.inner ≡ init ++ (lo ++ x ∷ []) ∷ []
      → LastPopped
  pop_last-item init lo x e =
      let (s', deleted, valid', items') = delete_at_lem s valid init lo x [] [] e in
      let whole : items s ≡ (flatten init ++ lo) ++ x ∷ [] =
        ap flatten e ∙ flatten_around init lo (x ∷ []) [] in
      let position : length (lo ++ x ∷ []) - 1 ≡ length lo =
        omega (arith, length-append lo (x ∷ [])) in
      (
        s',
        pop_last-found (lo ++ x ∷ []) x s' (last_node_at init (lo ++ x ∷ []) e)
              (ap (get_elem? (lo ++ x ∷ [])) position ∙ get_elem?-append_at lo (x ∷ []))
              (rw (last_place init (lo ++ x ∷ []) e, position) deleted)
            ∙ ap (λ o. ok (o, s'))
                (sym (ap get_last? whole ∙ get_last?-snoc (flatten init ++ lo) x)),
        valid',
        items'
            ∙ (append-nil (flatten init ++ lo)
                ∙ sym (ap drop_last whole ∙ drop_last-snoc (flatten init ++ lo) x)),
      )

  pop_last_at : (init : List (List T)) (node : List T) → s.inner ≡ init ++ node ∷ [] → LastPopped
  pop_last_at init [] e = pop_last-empty init e
  pop_last_at init (y ∷ node) e =
      let (lo, x, split, read) = last (y ∷ node) tt in
      pop_last-item init lo x (e ∙ ap (λ n. init ++ n ∷ []) split)

  -- On a valid set `pop_last` returns the last item, or nothing if there is none, and leaves a
  -- valid set of the items before it.
  pub pop_last_refines :
      (s' : BTreeSet I T) × (pop_last s ≡ ok (get_last? (items s), s'))
      × IsValid s'
      × (items s' ≡ drop_last (items s))
  pop_last_refines =
      let (init, node, e, read) = last s.inner (IsNonempty-nodes s.inner valid.nodes) in
      pop_last_at init node e
