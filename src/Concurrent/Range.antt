-- ===== src/Concurrent/Range.antt =====
-- src/concurrent/set.rs: `remove_range`, which holds the index alone throughout.
use indexset.Base.{
  ℕ, zero, suc, ◌+◌, List, ◌++◌, none, some, Bool, true, false, is_lt, is_eq, ◌||◌, Run, ok, fault,
  panic, timeout, ◌>>=◌, length, take, drop, leb, ltb, ◌==◌, ◌&&◌, if◌then◌else◌,
}
use indexset.Order.{Ord, Borrow, against}
use indexset.Node
use indexset.Node.{Bound, included, excluded, unbounded}
use indexset.Pair.{Pair}
use indexset.Concurrent.SkipMap.{SkipMap}
use indexset.Concurrent.Operation.{Shared}
use indexset.Concurrent.Set.{write_node}

-- `v.drain(start..end)`: what is left of the vector
abbrev pub drain {ℓ} : {A : Type ℓ} → List A → ℕ → ℕ → Run (List A)
drain xs start end =
    if leb start end && leb end (length xs) then ok (take start xs ++ drop end xs) else fault panic

module _ {ℓ κ} {T : Type ℓ} {Q : Type κ} ⦃t : Ord T⦄ ⦃q : Ord Q⦄ ⦃b : Borrow T Q⦄ where
  -- the keys that come before a bound of `lower_bound`
  abbrev pub before_bound : Bound Q → T → Bool
  before_bound (included value) key = is_lt (against value key)
  before_bound (excluded value) key = is_lt (against value key) || is_eq (against value key)
  before_bound unbounded key = false

  -- `guard.rank(start_bound, true)` with its `wrapping_add(1)`, or 0
  abbrev front_position : List T → Bound Q → ℕ
  front_position node start = elim (Node.rank node start true) [
    | none ↦ 0
    | some position ↦ position + 1
  ]

  abbrev back_position : List T → Bound Q → ℕ
  back_position node end = elim (Node.rank node end true) [
    | none ↦ length node
    | some position ↦ position
  ]

module _ {ℓ} {M T : Type ℓ} ⦃t : Ord T⦄ ⦃s : SkipMap M T⦄ where
  -- `while let Some(next_entry) = front_entry.next()`: each round removes an entry
  abbrev remove_between : ℕ → M → T → T → Run M
  remove_between zero index front back = fault timeout
  remove_between (suc fuel) index front back =
      elim (s.lower_bound index (λ key. is_lt (t.cmp key front) || is_eq (t.cmp key front))) [
        | none ↦ ok index
        | some next ↦ elim (is_eq (t.cmp next.key back)) [
          | true ↦ ok index
          | false ↦ remove_between fuel (s.remove index next.key) front back
        ]
      ]

  -- an entry goes, and comes back under the greatest item that its node has left
  abbrev replace_entry : Shared M T → Pair T ℕ → List T → Shared M T
  replace_entry shared e node =
      let removed = s.remove shared.index e.key in
      let written = write_node shared e.value node in
      elim (Node.max node) [
        | none ↦ record written { index = removed }
        | some new_max ↦ record written { index = s.insert removed new_max e.value }
      ]

  -- the range within the front node, when there is no other node to end it
  abbrev remove_within : Shared M T → Pair T ℕ → ℕ → ℕ → Run (Shared M T)
  remove_within shared front front_idx back_idx =
      let node = shared.cell front.value in
      let end = if ltb back_idx front_idx then length node else back_idx in
      drain node front_idx end >>= λ rest. ok (replace_entry shared front rest)

module _ {ℓ κ} {M T : Type ℓ} {Q : Type κ} ⦃t : Ord T⦄ ⦃q : Ord Q⦄ ⦃b : Borrow T Q⦄
    ⦃s : SkipMap M T⦄ where
  unfoldable pub remove_range : Shared M T → Bound Q → Bound Q → Run (Shared M T)
  remove_range shared start end = elim (s.lower_bound shared.index (before_bound start)) [
    | none ↦ ok shared
    | some front ↦
        let front_idx = front_position (shared.cell front.value) start in
        elim (s.lower_bound shared.index (before_bound end)) [
          | none ↦ remove_within shared front front_idx 0
          | some back ↦ elim (back.value == front.value) [
            | true ↦
                remove_within shared front front_idx (back_position (shared.cell front.value) end)
            | false ↦ do
              let back_idx = back_position (shared.cell back.value) end
              between ← remove_between (suc (s.len shared.index)) shared.index front.key back.key
              front_rest ←
                  drain (shared.cell front.value) front_idx (length (shared.cell front.value))
              let trimmed = replace_entry (record shared { index = between }) front front_rest
              back_rest ← drain (shared.cell back.value) 0 back_idx
              ok (replace_entry trimmed back back_rest)
          ]
        ]
  ]
