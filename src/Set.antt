-- ===== src/Set.antt =====
-- src/lib.rs: `struct BTreeSet`, a two-level tree of sorted nodes with a Fenwick tree over their
-- sizes. A reference that a method returns is the item that it points to; a method that takes
-- `&mut self` returns the new set.
pub mod Locate
pub mod Spot
pub mod CutSpec
pub mod Counting
pub mod Nodes
pub mod Update
pub mod Query
pub mod Valid
pub mod Iter
pub mod Bounded
pub mod Merge
pub mod Range
pub mod Cursor
pub mod IntoIter
use indexset.Base.{ℕ, ◌/◌, List, [], ◌∷◌, Bool, ◌==◌}
use indexset.Fenwick.{FenwickTree}

pub record BTreeSet {ℓ} (I : Type 0) (T : Type ℓ) : Type ℓ where
  pub inner : List (List T)
  pub index : I
  pub node_capacity : ℕ
  pub len : ℕ

-- src/core/constants.rs
abbrev pub default_inner_size : ℕ
default_inner_size = 1024

abbrev pub cutoff_ratio : ℕ
cutoff_ratio = 2

abbrev pub default_cutoff : ℕ
default_cutoff = default_inner_size / cutoff_ratio

-- where a key is, or the node that it belongs in
pub data NodeEntry : Type 0 where
  exist : ℕ → ℕ → NodeEntry
  empty : ℕ → NodeEntry

module _ {ℓ} {T : Type ℓ} {I : Type 0} ⦃f : FenwickTree I⦄ where
  -- `Default::default`
  abbrev pub default : BTreeSet I T
  default = record {
    inner = [] ∷ [];
    index = f.from_iter (0 ∷ []);
    node_capacity = default_inner_size;
    len = 0;
  }

  abbrev pub new : BTreeSet I T
  new = default

  abbrev pub with_maximum_node_size : ℕ → BTreeSet I T
  with_maximum_node_size maximum_node_size = record {
    inner = [] ∷ [];
    index = f.from_iter (0 ∷ []);
    node_capacity = maximum_node_size;
    len = 0;
  }

  unfoldable pub clear : BTreeSet I T → BTreeSet I T
  clear s = record s { inner = [] ∷ []; index = f.from_iter (0 ∷ []); len = 0 }

module _ {ℓ} {T : Type ℓ} {I : Type 0} where
  unfoldable pub len : BTreeSet I T → ℕ
  len s = s.len

  unfoldable pub is_empty : BTreeSet I T → Bool
  unfolding len
  is_empty s = len s == 0
