-- ===== src/Concurrent/Lookup.antt =====
-- src/concurrent/set.rs: the calls that only read; `Ref` of src/concurrent/ref.rs. A call that looks at
-- several nodes is taken at one moment.
use indexset.Base.{
  ℕ, map, Option, none, some, Bool, false, is_lt, Run, ok, ◌>>=◌, unwrap, length, sum, ◌==◌,
}
use mathlib.Core.Option
use indexset.Order.{Ord, Borrow, against}
use indexset.Node
use indexset.Concurrent.SkipMap.{SkipMap}
use indexset.Concurrent.Operation.{Shared}

module _ {ℓ κ} {M T : Type ℓ} {Q : Type κ} ⦃t : Ord T⦄ ⦃q : Ord Q⦄ ⦃b : Borrow T Q⦄
    ⦃s : SkipMap M T⦄ where
  unfoldable pub locate_node : Shared M T → Q → Option ℕ
  locate_node shared value = elim (s.lower_bound shared.index (λ key. is_lt (against value key))) [
    | some e ↦ some e.value
    | none ↦ elim (s.back shared.index) [
      | some last ↦ some last.value
      | none ↦ elim (s.front shared.index) [ none ↦ none | some first ↦ some first.value ]
    ]
  ]

  unfoldable pub contains : Shared M T → Q → Run Bool
  contains shared value = elim (locate_node shared value) [
    | none ↦ ok false
    | some node ↦ Node.contains (shared.cell node) value
  ]

  -- a `Ref`: the node that stays locked, and the position in it
  unfoldable pub get : Shared M T → Q → Run (Option (ℕ × ℕ))
  get shared value = elim (locate_node shared value) [
    | none ↦ ok none
    | some node ↦
        (Node.try_select (shared.cell node) value >>= λ r.
        ok (Option.map (λ position. (node, position)) r))
  ]

module _ {ℓ} {M T : Type ℓ} ⦃s : SkipMap M T⦄ where
  -- `Ref::get`
  unfoldable pub ref_get : Shared M T → ℕ × ℕ → Run T
  ref_get shared place = unwrap (Node.get_ith (shared.cell place.0) place.1)

  unfoldable pub len : Shared M T → ℕ
  len shared = sum (map (λ e. length (shared.cell e.value)) (s.iter shared.index))

  unfoldable pub is_empty : Shared M T → Bool
  unfolding len
  is_empty shared = len shared == 0

  unfoldable pub node_count : Shared M T → ℕ
  node_count shared = s.len shared.index
