-- ===== src/Set/Cursor.antt =====
-- src/lib.rs: `Cursor`, a set with a position in its order; the position `len` is beside all items.
use indexset.Base.{
  ℕ, ◌+◌, ◌-◌, ◌≤◌, ◌≡◌, refl, sym, ap, ◌∙◌, List, [], ◌∷◌, Option, none, some, Bool, true, false,
  length, get_elem?, get_elem?-none, flatten, arith, ◌==◌, if◌then◌else◌,
}
use indexset.Order.{Ord}
use indexset.Fenwick.{FenwickTree, Counts}
use indexset.Set
use indexset.Set.{BTreeSet}
use indexset.Set.Query.{first, get_index}
use indexset.Set.Query.Position.{get_index_refines}
use indexset.Set.Valid.{IsValid, HasNodes, items}

pub record Cursor {ℓ} (I : Type 0) (T : Type ℓ) : Type ℓ where
  pub set : BTreeSet I T
  pub idx : ℕ

module _ {ℓ} {T : Type ℓ} {I : Type 0} where
  unfoldable pub move_next : Cursor I T → Cursor I T
  move_next c =
      if c.idx == Set.len c.set then record c { idx = 0 } else record c { idx = c.idx + 1 }

  unfoldable pub move_index : Cursor I T → ℕ → Cursor I T
  move_index c index = record c { idx = index }

  unfoldable pub move_prev : Cursor I T → Cursor I T
  move_prev c =
      if c.idx == 0 then record c { idx = Set.len c.set } else record c { idx = c.idx - 1 }

module _ {ℓ} {T : Type ℓ} {I : Type 0} ⦃f : FenwickTree I⦄ where
  unfoldable pub item : Cursor I T → Option T
  item c = get_index c.set c.idx

  unfoldable pub peek_next : Cursor I T → Option T
  peek_next c = if c.idx == Set.len c.set then first c.set else get_index c.set (c.idx + 1)

  unfoldable pub peek_index : Cursor I T → ℕ → Option T
  peek_index c index = get_index c.set index

  unfoldable pub peek_prev : Cursor I T → Option T
  peek_prev c = if c.idx == 0 then none else get_index c.set (c.idx - 1)

first_of {ℓ} :
    {T : Type ℓ} (inner : List (List T))
    → HasNodes inner
    → (elim (get_elem? inner 0) [ none ↦ none | some node ↦ get_elem? node 0 ])
      ≡ get_elem? (flatten inner) 0
first_of [] h = absurd h
first_of ([] ∷ []) h = refl
first_of ([] ∷ next ∷ rest) h = absurd h.0
first_of ((x ∷ xs) ∷ []) h = refl
first_of ((x ∷ xs) ∷ next ∷ rest) h = refl

either_idx {ℓ} :
    {T : Type ℓ} {I : Type 0} (at : Cursor I T) (b : Bool) (i j : ℕ)
    → (if b then record at { idx = i } else record at { idx = j })
      ≡ record at { idx = if b then i else j }
either_idx at true i j = refl
either_idx at false i j = refl

module _ {ℓ} {T : Type ℓ} {I : Type 0} ⦃t : Ord T⦄ ⦃f : FenwickTree I⦄ ⦃c : Counts I⦄ where
  first-get_index : (s : BTreeSet I T) → IsValid s → first s ≡ get_index s 0
  unfolding first
  first-get_index s valid = first_of s.inner valid.nodes ∙ sym (get_index_refines s valid 0)

  beside : (s : BTreeSet I T) → IsValid s → get_index s s.len ≡ none
  beside s valid =
      get_index_refines s valid s.len
      ∙ ap (get_elem? (items s)) valid.measured
      ∙ get_elem?-none (items s) (length (items s)) (omega arith)

  module _ (at : Cursor I T) (valid : IsValid at.set) (inside : at.idx ≤ at.set.len) where
    peek_next-item : peek_next at ≡ item (move_next at)
    unfolding peek_next item move_next Set.len
    peek_next-item = ground (arith, first-get_index at.set valid)

    peek_prev-item : peek_prev at ≡ item (move_prev at)
    unfolding peek_prev item move_prev Set.len
    peek_prev-item = ground (arith, beside at.set valid)

    move_next_idx :
        move_next at ≡ record at { idx = if at.idx == at.set.len then 0 else at.idx + 1 }
    unfolding move_next Set.len
    move_next_idx = either_idx at (at.idx == at.set.len) 0 (at.idx + 1)

    move_prev_idx :
        move_prev at ≡ record at { idx = if at.idx == 0 then at.set.len else at.idx - 1 }
    unfolding move_prev Set.len
    move_prev_idx = either_idx at (at.idx == 0) at.set.len (at.idx - 1)

    move_prev-next : move_prev (move_next at) ≡ at
    unfolding move_prev Set.len
    move_prev-next =
        let next : ℕ = if at.idx == at.set.len then 0 else at.idx + 1 in
        let back : (if next == 0 then at.set.len else next - 1) ≡ at.idx = ground arith in
        ap move_prev move_next_idx
        ∙ either_idx at (next == 0) at.set.len (next - 1)
        ∙ ap (λ i. record at { idx = i }) back

    move_next-prev : move_next (move_prev at) ≡ at
    unfolding move_next Set.len
    move_next-prev =
        let prev : ℕ = if at.idx == 0 then at.set.len else at.idx - 1 in
        let forth : (if prev == at.set.len then 0 else prev + 1) ≡ at.idx = ground arith in
        ap move_next move_prev_idx
        ∙ either_idx at (prev == at.set.len) 0 (prev + 1)
        ∙ ap (λ i. record at { idx = i }) forth

  -- On a valid set a cursor that is within it or beside it peeks at the items that it has after a
  -- move forward and after a move back, where there is none beside the set, and a move back undoes
  -- a move forward, as a move forward undoes a move back.
  pub moves_refines :
      (at : Cursor I T)
      → IsValid at.set
      → at.idx ≤ at.set.len
      → (peek_next at ≡ item (move_next at))
        × (peek_prev at ≡ item (move_prev at))
        × (move_prev (move_next at) ≡ at)
        × (move_next (move_prev at) ≡ at)
  moves_refines at valid h = (
    peek_next-item at valid h,
    peek_prev-item at valid h,
    move_prev-next at valid h,
    move_next-prev at valid h,
  )
