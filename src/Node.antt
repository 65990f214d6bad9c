-- ===== src/Node.antt =====
-- src/core/node.rs: `impl NodeLike<T> for Vec<T>`, a leaf of the trees. A node is the list of its
-- items; `with_capacity` and `capacity` speak of memory only.
pub mod Search
pub mod Insert
use indexset.Base.{
  ℕ, zero, suc, ◌+◌, ◌-◌, ◌/◌, List, [], ◌∷◌, Option, none, some, Bool, true, false, Ordering, lt,
  eq, gt, Run, ok, fault, unsound, timeout, unwrap, ◌>>=◌, length, get_elem?, get_last?, leb, ◌==◌,
  if◌then◌else◌,
}
use mathlib.Core.List.{reverse}
use indexset.Base.Vec
use indexset.Order.{Ord, Borrow, against, borrow_self}

-- The `Result<usize, usize>` of a search: where the item is, or where it belongs.
pub data Position : Type 0 where
  found : ℕ → Position
  missing : ℕ → Position

-- `std::ops::Bound`
pub data Bound {ℓ} (Q : Type ℓ) : Type ℓ where
  included : Q → Bound Q
  excluded : Q → Bound Q
  unbounded : Bound Q

-- `haystack.get(m)` through the raw pointer: nothing checks `m`.
abbrev pub read {ℓ} : {T : Type ℓ} → List T → ℕ → Run T
read haystack m = elim (get_elem? haystack m) [ none ↦ fault unsound | some x ↦ ok x ]

-- `positions_to_skip >= 0`
abbrev pub nonnegative : ℕ → Option ℕ
nonnegative zero = none
nonnegative (suc n) = some n

module _ {ℓ κ} {T : Type ℓ} {Q : Type κ} ⦃t : Ord T⦄ ⦃q : Ord Q⦄ ⦃b : Borrow T Q⦄ where
  -- the `while i != j` of `search`; each round narrows i..j, so `j - i` rounds are enough
  unfoldable pub search_loop : ℕ → List T → Q → ℕ → ℕ → ℕ → Run Position
  search_loop zero haystack needle i j m = fault timeout
  search_loop (suc fuel) haystack needle i j m = elim (i == j) [
    | true ↦ ok (missing i)
    | false ↦ read haystack m >>= λ item. elim (against needle item) [
      | eq ↦ ok (found m)
      | lt ↦ search_loop fuel haystack needle (m + 1) j ((m + 1 + j) / 2)
      | gt ↦ search_loop fuel haystack needle i m ((i + m) / 2)
    ]
  ]

  unfoldable pub search : List T → Q → Run Position
  search haystack needle =
      search_loop (suc (length haystack)) haystack needle 0 (length haystack) (length haystack / 2)

  unfoldable pub contains : List T → Q → Run Bool
  contains node value = do
    position ← search node value
    ok (elim position [ found _ ↦ true | missing _ ↦ false ])

  unfoldable pub try_select : List T → Q → Run (Option ℕ)
  try_select node value = do
    position ← search node value
    ok (elim position [ found i ↦ some i | missing _ ↦ none ])

  -- the item removed and its index, and the node that is left
  unfoldable pub delete : List T → Q → Run (Option (T × ℕ) × List T)
  delete node value = do
    position ← search node value
    elim position [
      | found idx ↦ (Vec.remove node idx >>= λ r. ok (some (r.0, idx), r.1))
      | missing _ ↦ ok (none, node)
    ]

  -- `positions_to_skip` starts at -1; these loops count it from 0, one more than the code's
  abbrev pub skip_forward : Bool → Q → List T → ℕ → ℕ
  skip_forward inclusive value [] skipped = skipped
  skip_forward inclusive value (item ∷ rest) skipped = elim (against value item) [
    | lt ↦ skip_forward inclusive value rest (skipped + 1)
    | eq ↦ elim inclusive [
      | true ↦ skipped
      | false ↦ skip_forward inclusive value rest (skipped + 1)
    ]
    | gt ↦ skipped
  ]

  -- over the items from the last to the first
  abbrev pub skip_backward : Bool → Q → List T → ℕ → ℕ
  skip_backward inclusive value [] skipped = skipped
  skip_backward inclusive value (item ∷ rest) skipped = elim (against value item) [
    | gt ↦ skip_backward inclusive value rest (skipped + 1)
    | eq ↦ elim inclusive [
      | true ↦ skipped
      | false ↦ skip_backward inclusive value rest (skipped + 1)
    ]
    | lt ↦ skipped
  ]

  unfoldable pub skip : Bool → Q → List T → Bool → ℕ
  skip inclusive value haystack forward =
      if forward
      then skip_forward inclusive value haystack 0
      else skip_backward inclusive value (reverse haystack) 0

  unfoldable pub compute_positions_to_skip : List T → Bound Q → Bool → Option ℕ
  unfolding skip
  compute_positions_to_skip haystack unbounded forward = none
  compute_positions_to_skip haystack (included value) forward =
      nonnegative (skip true value haystack forward)
  compute_positions_to_skip haystack (excluded value) forward =
      nonnegative (skip false value haystack forward)

  unfoldable pub rank : List T → Bound Q → Bool → Option ℕ
  unfolding compute_positions_to_skip
  rank node bound from_start = compute_positions_to_skip node bound from_start

module _ {ℓ} {T : Type ℓ} where
  -- the lower half, which stays, and the upper half
  unfoldable pub halve : List T → Run (List T × List T)
  halve node = Vec.split_off node (length node / 2)

  unfoldable pub need_to_split : List T → ℕ → T → Bool
  need_to_split node border value = leb border (length node)

  unfoldable pub get_ith : List T → ℕ → Option T
  get_ith node index = get_elem? node index

  -- the old value, and the node
  unfoldable pub replace : List T → ℕ → T → Option T × List T
  replace [] idx value = (none, [])
  replace (x ∷ xs) zero value = (some x, value ∷ xs)
  replace (x ∷ xs) (suc idx) value = let r = replace xs idx value in (r.0, x ∷ r.1)

  unfoldable pub max : List T → Option T
  max node = get_last? node

  unfoldable pub min : List T → Option T
  min [] = none
  min (x ∷ xs) = some x

-- whether the value went in, at which index, and the node
unfoldable pub insert {ℓ} : {T : Type ℓ} ⦃o : Ord T⦄ → List T → T → Run (Bool × ℕ × List T)
insert {T} node value = do
  position ← search ⦃b = borrow_self {T = T}⦄ node value
  elim position [
    | found idx ↦ ok (false, idx, node)
    | missing idx ↦ (Vec.insert node idx value >>= λ node'. ok (true, idx, node'))
  ]
