-- ===== src/Concurrent/Coherent.antt =====
-- The invariant of a concurrent set between calls: what its index and its nodes say of each other.
pub mod Nodes
pub mod Place
pub mod Query
pub mod Steps
pub mod Removal
pub mod Max
pub mod Change
pub mod PutSteps
pub mod Split
pub mod Around
pub mod Room
pub mod Full
pub mod Put
pub mod Collect
pub mod Agree
use indexset.Base.{
  ℕ, ◌+◌, ◌≤◌, ◌<◌, ◌≡◌, List, [], ◌∷◌, ◌++◌, true, false, some, eq, get_last?, ◌==◌, refl,
}
use indexset.Order.{Ord}
use indexset.Order.Sorted.{All, IsSorted}
use indexset.Pair.{Pair}
use indexset.Concurrent.SkipMap.{SkipMap}
use indexset.Cdc.{ChangeEvent, id}
use indexset.Concurrent.Operation.{Shared}
use indexset.Concurrent.Set.{next_id}

module _ {ℓ} {T : Type ℓ} where
  -- the items of the nodes that the entries name
  abbrev pub items_of : (ℕ → List T) → List (Pair T ℕ) → List T
  items_of cell [] = []
  items_of cell (e ∷ es) = cell e.value ++ items_of cell es

  -- no entry names this node
  abbrev pub IsApart : ℕ → List (Pair T ℕ) → Type 0
  IsApart a es = All (λ e. (e.value == a) ≡ false) es

  abbrev pub IsDistinct : List (Pair T ℕ) → Type 0
  IsDistinct [] = Unit
  IsDistinct (e ∷ es) = IsApart e.value es × IsDistinct es

module _ {ℓ} {T : Type ℓ} ⦃t : Ord T⦄ where
  -- the greatest item of a node is there, and compares like the key
  abbrev pub HasMax : List T → T → Type ℓ
  HasMax node key = (x : T) × (get_last? node ≡ some x) × (t.cmp x key ≡ eq)

  -- Each node is indexed by its greatest item, no two entries share a node, and the items of all
  -- nodes are in order.
  pub record IsIndexed (cell : ℕ → List T) (next : ℕ) (es : List (Pair T ℕ)) : Type ℓ where
    pub keyed : All (λ e. HasMax (cell e.value) e.key) es
    pub distinct : IsDistinct es
    pub fresh : All (λ e. e.value < next) es
    pub sorted : IsSorted (items_of cell es)

module _ {ℓ} {M T : Type ℓ} ⦃t : Ord T⦄ ⦃s : SkipMap M T⦄ where
  abbrev pub items : Shared M T → List T
  items shared = items_of shared.cell (s.iter shared.index)

  pub record IsCoherent (shared : Shared M T) : Type ℓ where
    pub indexed : IsIndexed shared.cell shared.next (s.iter shared.index)
    pub capacity : 2 ≤ shared.node_capacity

-- the ids of a call's events, from the next one on, and the id that is next then
abbrev pub IsNumbered {ℓ} : {T : Type ℓ} → ℕ → List (ChangeEvent T) → ℕ → Type 0
IsNumbered event_id [] event_id' = event_id' ≡ event_id
IsNumbered event_id (event ∷ cdc) event_id' =
    ((id event).inner ≡ event_id) × IsNumbered (next_id event_id) cdc event_id'
