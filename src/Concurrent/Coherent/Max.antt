-- ===== src/Concurrent/Coherent/Max.antt =====
-- What a value that is put into a node makes of the node and of its greatest item.
use indexset.Base.{
  ℕ, arith, ◌≤◌, ◌-◌, ◌==◌, Bool-cases, inl, inr, get_elem?-some, ◌≡◌, refl, sym, ap, ◌∙◌, List, [],
  ◌∷◌, ◌++◌, none, some, true, false, Ordering, lt, eq, gt, is_lt, ok, not, get_last?,
  get_last?-append, length, if◌then◌else◌, append-nil,
}
use indexset.Order.{Ord, against_item, against_item-IsProbe}
use indexset.Order.Sorted.{IsSorted}
use indexset.Order.Spec.{find, put, is_some}
use indexset.Order.View.{absent, present, view}
use indexset.Order.Cuts.{find-absent, find-present}
use indexset.Order.Puts.{put-absent, put-present}
use indexset.Node
use indexset.Node.Insert.{insert-absent, insert-present}
use indexset.Cdc.{remove_node, create_node, ChangeEventUnassigned, insert_at, remove_at}
use indexset.Concurrent.Operation.{put_value, exceeds}
use indexset.Concurrent.Set.{replacement}
use indexset.Concurrent.Coherent.{HasMax}
use indexset.Concurrent.Coherent.Place.{All-last}

pub replace_lem {ℓ} :
    {T : Type ℓ} (lo : List T) (x : T) (hi : List T) (value : T)
    → Node.replace (lo ++ x ∷ hi) (length lo) value ≡ (some x, lo ++ value ∷ hi)
unfolding Node.replace
replace_lem [] x hi value = refl
replace_lem (y ∷ lo) x hi value = rw (replace_lem lo x hi value) refl

module _ {ℓ} {T : Type ℓ} ⦃t : Ord T⦄ (value : T) where
  abbrev p : T → Ordering
  p = against_item value

  -- the key of a node that the value is put into
  abbrev pub new_key : T → T
  new_key key = if exceeds value key then value else key

  -- an item that compares like the key tells whether the value exceeds the key
  key_kept : (x key : T) → t.cmp x key ≡ eq → is_lt (p x) ≡ false → new_key key ≡ key
  key_kept x key same h =
      let c : t.cmp x value ≡ t.cmp key value = t.cmp_congr x key value same in
      let d : exceeds value key ≡ false = ap is_lt (sym c) ∙ h in rw d refl

  key_moved : (x key : T) → t.cmp x key ≡ eq → p x ≡ lt → new_key key ≡ value
  key_moved x key same h =
      let c : t.cmp x value ≡ t.cmp key value = t.cmp_congr x key value same in
      let d : exceeds value key ≡ true = ap is_lt (sym c ∙ h) in rw d refl

  pub HasMax-put :
      (node : List T) (key : T)
      → IsSorted node
      → HasMax node key
      → HasMax (put p (λ _. value) value node) (new_key key)
  HasMax-put node key sorted (x, at_end, same) =
      elim (view (against_item-IsProbe value) node sorted) [
        | absent lo [] e below above ↦
            let x-below : p x ≡ lt =
              All-last (λ y. p y ≡ lt) lo x below
                (ap get_last? (sym (append-nil lo)) ∙ (rw e at at_end)) in
            rw (e, put-absent p (λ _. value) value lo [] below tt, key_moved x key same x-below)
              (value, get_last?-append lo value [], t.cmp_refl value)
        | absent lo (h ∷ hi) e below above ↦
            let ends : get_last? (lo ++ h ∷ hi) ≡ some x = rw e at at_end in
            let x-above : p x ≡ gt =
              All-last (λ y. p y ≡ gt) (h ∷ hi) x above (sym (get_last?-append lo h hi) ∙ ends) in
            rw
              (
                e,
                put-absent p (λ _. value) value lo (h ∷ hi) below above,
                key_kept x key same (ap is_lt x-above),
              )
              (
                x,
                get_last?-append lo value (h ∷ hi) ∙ (sym (get_last?-append lo h hi) ∙ ends),
                same,
              )
        | present lo y [] e below m above ↦
            let ends : get_last? (lo ++ y ∷ []) ≡ some x = rw e at at_end in
            let eqs : x ≡ y =
              ap (λ r. elim r [ none ↦ y | some z ↦ z ]) (sym ends ∙ get_last?-append lo y []) in
            let m-x : p x ≡ eq = rw eqs m in
            rw
              (
                e,
                put-present p (λ _. value) value lo y [] below m,
                key_kept x key same (ap is_lt m-x),
              )
              (value, get_last?-append lo value [], sym (t.cmp_congr x value key m-x) ∙ same)
        | present lo y (h ∷ hi) e below m above ↦
            let ends : get_last? (lo ++ y ∷ h ∷ hi) ≡ some x = rw e at at_end in
            let ends' : get_last? (h ∷ hi) ≡ some x = sym (get_last?-append lo y (h ∷ hi)) ∙ ends in
            let x-above : p x ≡ gt = All-last (λ y. p y ≡ gt) (h ∷ hi) x above ends' in
            rw
              (
                e,
                put-present p (λ _. value) value lo y (h ∷ hi) below m,
                key_kept x key same (ap is_lt x-above),
              )
              (x, get_last?-append lo value (h ∷ hi) ∙ ends', same)
      ]

  -- `put_value` of a sorted node
  pub put_value_lem :
      (node : List T) (max : T)
      → IsSorted node
      → (events : List (ChangeEventUnassigned T)) × (put_value node max value
          ≡ ok (not (is_some (find p node)), put p (λ _. value) value node, find p node, events))
  put_value_lem node max sorted = elim (view (against_item-IsProbe value) node sorted) [
    | absent lo hi e below above ↦ (
      insert_at max value (length lo) ∷ [],
      rw (e, find-absent p lo hi below above, put-absent p (λ _. value) value lo hi below above)
          (rw (insert-absent value lo hi below above) refl),
    )
    | present lo x hi e below m above ↦ (
      remove_at max x (length lo) ∷ insert_at max value (length lo) ∷ [],
      rw (e, find-present p lo hi below above x m, put-present p (λ _. value) value lo x hi below m)
          (rw (insert-present value lo hi below above x m) (rw (replace_lem lo x hi value) refl)),
    )
  ]

  -- an item that compares equal is replaced
  pub HasMax-replaced :
      (lo : List T) (x : T) (hi : List T) (key : T)
      → p x ≡ eq
      → HasMax (lo ++ x ∷ hi) key
      → HasMax (lo ++ value ∷ hi) key
  HasMax-replaced lo x [] key m (y, at_end, same) =
      let eqs : y ≡ x =
        ap (λ r. elim r [ none ↦ x | some z ↦ z ]) (sym at_end ∙ get_last?-append lo x []) in
      let same' : t.cmp x key ≡ eq = rw (← eqs) same in
      (value, get_last?-append lo value [], sym (t.cmp_congr x value key m) ∙ same')
  HasMax-replaced lo x (h ∷ hi) key m (y, at_end, same) = (
    y,
    get_last?-append lo value (h ∷ hi) ∙ (sym (get_last?-append lo x (h ∷ hi)) ∙ at_end),
    same,
  )

-- the events of a replacement are there
pub replacement-ok {ℓ} :
    {T : Type ℓ} (node : List T) (idx : ℕ) (max value : T)
    → 1 ≤ length node
    → (events : List (ChangeEventUnassigned T)) × (replacement node idx max value ≡ ok events)
unfolding Node.get_ith
replacement-ok node idx max value h = elim (Bool-cases (length node == 1)) [
  | inl one ↦ (remove_node max ∷ create_node value ∷ [], rw (one, replacement) refl)
  | inr many ↦ elim (Bool-cases (idx == length node - 1)) [
    | inl end ↦
        let two : 2 ≤ length node = ground arith in
        let r = get_elem?-some node (length node - 2) (omega arith) in
        (
          remove_at max value idx ∷ insert_at r.0 value idx ∷ [],
          rw (many, replacement) (rw end (rw (r.1, Node.get_ith) refl)),
        )
    | inr inner ↦ (
      remove_at max value idx ∷ insert_at max value idx ∷ [],
      rw (many, replacement) (rw inner refl),
    )
  ]
]
