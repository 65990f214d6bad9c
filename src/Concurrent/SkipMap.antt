-- ===== src/Concurrent/SkipMap.antt =====
-- The crate `crossbeam_skiplist`, whose map the concurrent set indexes its nodes by. It is not part
-- of the repository: the map is a parameter, with the operations that the set calls and their
-- documented behaviour. An entry is its key and the address of its node.
use indexset.Base.{
  ◌∷◌, true, false, ℕ, ◌≡◌, List, [], Option, Bool, none, some, length, get_last?, get_elem?,
}
use indexset.Order.{Ord, against_item}
use indexset.Order.Spec.{find, erase, put}
use indexset.Pair.{Pair, pair_ord}

-- the first entry whose key fails a test
abbrev pub first_not {ℓ} : {T : Type ℓ} → (T → Bool) → List (Pair T ℕ) → Option (Pair T ℕ)
first_not below [] = none
first_not below (e ∷ es) = elim (below e.key) [ true ↦ first_not below es | false ↦ some e ]

-- `lower_bound` takes, for its bound, the test that the keys before the bound pass.
pub record SkipMap {ℓ} (M : Type ℓ) (T : Type ℓ) : Type ℓ where
  pub new : M
  pub iter : M → List (Pair T ℕ)
  pub lower_bound : M → (T → Bool) → Option (Pair T ℕ)
  pub front : M → Option (Pair T ℕ)
  pub back : M → Option (Pair T ℕ)
  pub get : M → T → Option (Pair T ℕ)
  pub insert : M → T → ℕ → M
  pub remove : M → T → M
  pub len : M → ℕ

-- an entry to be
abbrev pub entry {ℓ} : {T : Type ℓ} → T → ℕ → Pair T ℕ
entry key node = record { key = key; value = node }

-- What the documentation says of the entries, in the order of iteration: `insert` takes the place of
-- an entry of the same key.
pub record Ordered {ℓ} (M : Type ℓ) (T : Type ℓ) ⦃t : Ord T⦄ ⦃s : SkipMap M T⦄ : Type ℓ where
  pub iter-new : s.iter s.new ≡ []
  pub lower_bound_lem :
      (m : M) (below : T → Bool) → s.lower_bound m below ≡ first_not below (s.iter m)
  pub front_lem : (m : M) → s.front m ≡ get_elem? (s.iter m) 0
  pub back_lem : (m : M) → s.back m ≡ get_last? (s.iter m)
  pub get_lem : (m : M) (key : T) → s.get m key ≡ find (against_item (entry key 0)) (s.iter m)
  pub iter-insert :
      (m : M) (key : T) (node : ℕ)
      → s.iter (s.insert m key node)
        ≡ put (against_item (entry key node)) (λ _. entry key node) (entry key node) (s.iter m)
  pub iter-remove :
      (m : M) (key : T) → s.iter (s.remove m key) ≡ erase (against_item (entry key 0)) (s.iter m)
  pub len_lem : (m : M) → s.len m ≡ length (s.iter m)
