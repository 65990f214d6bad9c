-- ===== src/Concurrent/Span.antt =====
-- src/concurrent/set.rs: `Range`, which is an `Iter` between two values.
use indexset.Base.{
  ok, ◌>>=◌, ℕ, List, [], ◌∷◌, reverse, Option, none, some, Bool, true, false, not, is_lt, is_eq,
  ◌||◌, ◌&&◌, Run, get_elem?, get_last?, reverse_ordering,
}
use mathlib.Core.Option
use indexset.Order.{Ord, Borrow, against}
use indexset.Node
use indexset.Node.{Bound, included, excluded, unbounded}
use indexset.Pair.{Pair}
use indexset.Concurrent.SkipMap.{SkipMap}
use indexset.Concurrent.Operation.{Shared}
use indexset.Concurrent.Range.{before_bound}
use indexset.Concurrent.Iter
use indexset.Concurrent.Iter.{Iter, next_of, prev_of}

pub record Range {ℓ} (T : Type ℓ) : Type ℓ where
  pub iter : Iter T

-- the last entry of those that pass a test, which are the first ones: `upper_bound` of the index
abbrev last_while {ℓ} : {T : Type ℓ} → (T → Bool) → List (Pair T ℕ) → Option (Pair T ℕ)
last_while within [] = none
last_while within (e ∷ es) = elim (within e.key) [
  | false ↦ none
  | true ↦ elim (last_while within es) [ none ↦ some e | some later ↦ some later ]
]

module _ {ℓ} {M T : Type ℓ} ⦃s : SkipMap M T⦄ where
  abbrev last_of : Shared M T → Option (Pair T ℕ) → Option T
  last_of btree none = none
  last_of btree (some e) = get_last? (btree.cell e.value)

  abbrev first_of : Shared M T → Option (Pair T ℕ) → Option T
  first_of btree none = none
  first_of btree (some e) = get_elem? (btree.cell e.value) 0

abbrev is_none {ℓ} : {A : Type ℓ} → Option A → Bool
is_none none = true
is_none (some value) = false

module _ {ℓ κ} {T : Type ℓ} {Q : Type κ} ⦃t : Ord T⦄ ⦃q : Ord Q⦄ ⦃b : Borrow T Q⦄ where
  abbrev within : Bound Q → T → Bool
  within (included value) key = is_lt (against value key) || is_eq (against value key)
  within (excluded value) key = is_lt (against value key)
  within unbounded key = true

  -- `v > max` or `v >= max`
  abbrev starts_behind : Bound Q → Option T → Bool
  starts_behind start none = false
  starts_behind (included v) (some max) = is_lt (against v max)
  starts_behind (excluded v) (some max) = is_lt (against v max) || is_eq (against v max)
  starts_behind unbounded (some max) = false

  -- `v < min` or `v <= min`
  abbrev ends_before_first : Bound Q → Option T → Bool
  ends_before_first end none = false
  ends_before_first (included v) (some min) = is_lt (reverse_ordering (against v min))
  ends_before_first (excluded v) (some min) = not (is_lt (against v min))
  ends_before_first unbounded (some min) = false

module _ {ℓ κ} {M T : Type ℓ} {Q : Type κ} ⦃t : Ord T⦄ ⦃q : Ord Q⦄ ⦃b : Borrow T Q⦄
    ⦃s : SkipMap M T⦄ where
  -- the item before the range, if there is one
  abbrev front_value : Shared M T → Bound Q → Option (Pair T ℕ) → Option T
  front_value btree start none = none
  front_value btree start (some front) = elim (Node.rank (btree.cell front.value) start true) [
    | some rank ↦ get_elem? (btree.cell front.value) rank
    | none ↦ last_of btree (prev_of front.value (s.iter btree.index))
  ]

  abbrev back_entry : Shared M T → Bound Q → Option (Pair T ℕ)
  back_entry btree end = elim (last_while (within end) (s.iter btree.index)) [
    | none ↦ s.front btree.index
    | some e ↦ elim (next_of e.value (s.iter btree.index)) [
      | some later ↦ some later
      | none ↦ elim (s.back btree.index) [ some last ↦ some last | none ↦ s.front btree.index ]
    ]
  ]

  -- the item behind the range, if there is one
  abbrev back_value : Shared M T → Bound Q → Option (Pair T ℕ) → Option T
  back_value btree end none = none
  back_value btree end (some back) = elim (Node.rank (btree.cell back.value) end false) [
    | some rank ↦ get_elem? (reverse (btree.cell back.value)) rank
    | none ↦ first_of btree (next_of back.value (s.iter btree.index))
  ]

  abbrev is_outside : Shared M T → Bound Q → Bound Q → Bool
  is_outside btree start end =
      starts_behind start (last_of btree (s.back btree.index))
      || ends_before_first end (first_of btree (s.front btree.index))

  unfoldable pub new : Shared M T → Bound Q → Bound Q → Range T
  new btree start end =
      let current_front_entry = s.lower_bound btree.index (before_bound start) in
      let front = front_value btree start current_front_entry in
      let current_back_entry = back_entry btree end in
      let back = back_value btree end current_back_entry in
      record {
        iter = record {
          current_front_node = Option.map (λ e. e.value) current_front_entry;
          current_front_node_iter = none;
          current_back_node = Option.map (λ e. e.value) current_back_entry;
          current_back_node_iter = none;
          current_front_value = front;
          current_back_value = back;
          met = is_none front && is_none back && is_outside btree start end;
        };
      }

  unfoldable pub range : Shared M T → Bound Q → Bound Q → Range T
  unfolding new
  range btree start end = new btree start end

module _ {ℓ} {M T : Type ℓ} ⦃t : Ord T⦄ ⦃s : SkipMap M T⦄ where
  unfoldable pub next : ℕ → Shared M T → Range T → Run (Option T × Range T)
  next fuel btree r = Iter.next fuel btree r.iter >>= λ i. ok (i.0, record { iter = i.1 })

  unfoldable pub next_back : ℕ → Shared M T → Range T → Run (Option T × Range T)
  next_back fuel btree r = Iter.next_back fuel btree r.iter >>= λ i. ok (i.0, record { iter = i.1 })
