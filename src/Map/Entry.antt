-- ===== src/Map/Entry.antt =====
-- src/lib.rs: the entries of a map. A reference to the value of an entry is its position in the map
-- that it borrows.
pub mod Laws
use indexset.Base.{
  ℕ, ◌-◌, Option, none, some, true, false, Run, ok, ◌>>=◌, unwrap, ltb, if◌then◌else◌, not,
}
use indexset.Order.{Ord, borrow_self}
use indexset.Fenwick.{FenwickTree}
use indexset.Pair.{Pair}
use indexset.Set.Query.{rank_cmp}
use indexset.Map
use indexset.Map.{BTreeMap, key_below, contains_key}

pub record VacantEntry {ℓ κ} (I : Type 0) (K : Type ℓ) (V : Type κ) : Type (ℓ ⊔ κ) where
  pub map : BTreeMap I K V
  pub key : K

pub record OccupiedEntry {ℓ κ} (I : Type 0) (K : Type ℓ) (V : Type κ) : Type (ℓ ⊔ κ) where
  pub map : BTreeMap I K V
  pub idx : ℕ

pub data Entry {ℓ κ} (I : Type 0) (K : Type ℓ) (V : Type κ) : Type (ℓ ⊔ κ) where
  vacant : VacantEntry I K V → Entry I K V
  occupied : OccupiedEntry I K V → Entry I K V

module _ {ℓ κ} {K : Type ℓ} {V : Type κ} {I : Type 0} where
  unfoldable pub first_entry : BTreeMap I K V → Option (OccupiedEntry I K V)
  first_entry m = if not (Map.is_empty m) then some (record { map = m; idx = 0 }) else none

  unfoldable pub last_entry : BTreeMap I K V → Option (OccupiedEntry I K V)
  last_entry m =
      let len = Map.len m in if ltb 0 len then some (record { map = m; idx = len - 1 }) else none

module _ {ℓ κ} {K : Type ℓ} {V : Type κ} {I : Type 0} ⦃k : Ord K⦄ ⦃f : FenwickTree I⦄ where
  -- `BTreeMap::entry`
  unfoldable pub entry : BTreeMap I K V → K → Run (Entry I K V)
  entry m key = contains_key ⦃b = borrow_self {T = K}⦄ m key >>= λ there. elim there [
    | true ↦
        (rank_cmp m.set (key_below ⦃b = borrow_self {T = K}⦄ key) >>= λ idx.
        ok (occupied (record { map = m; idx = idx })))
    | false ↦ ok (vacant (record { map = m; key = key }))
  ]

-- `OccupiedEntry`
module _ {ℓ κ} {K : Type ℓ} {V : Type κ} {I : Type 0} ⦃f : FenwickTree I⦄ where
  -- `key` and `get` of an entry that is there
  unfoldable pub occupied_key : OccupiedEntry I K V → Run K
  occupied_key e = unwrap (Map.get_index e.map e.idx) >>= λ item. ok item.key

  unfoldable pub get : OccupiedEntry I K V → Run V
  get e = unwrap (Map.get_index e.map e.idx) >>= λ item. ok item.value

  unfoldable pub remove_entry : OccupiedEntry I K V → Run (Pair K V × BTreeMap I K V)
  remove_entry e = Map.pop_index e.map e.idx

  unfoldable pub remove : OccupiedEntry I K V → Run (V × BTreeMap I K V)
  remove e = Map.pop_index e.map e.idx >>= λ r. ok (r.0.value, r.1)

  -- the write of `change` through `get_mut`
  unfoldable pub get_mut : OccupiedEntry I K V → (V → V) → Run (V × OccupiedEntry I K V)
  get_mut e change = do
    r ← Map.get_mut_index e.map e.idx change
    item ← unwrap r.0
    ok (item.value, record e { map = r.1 })

  -- `OccupiedEntry::insert`: the value as it was
  unfoldable pub insert_occupied : OccupiedEntry I K V → V → Run (V × OccupiedEntry I K V)
  unfolding get_mut
  insert_occupied e value = get_mut e (λ current_value. value)

  -- `into_mut`: the map and the position of the value
  unfoldable pub into_mut : OccupiedEntry I K V → Run (BTreeMap I K V × ℕ)
  into_mut e = unwrap (Map.get_index e.map e.idx) >>= λ item. ok (e.map, e.idx)

module _ {ℓ κ} {K : Type ℓ} {V : Type κ} {I : Type 0} ⦃k : Ord K⦄ ⦃f : FenwickTree I⦄ where
  -- `VacantEntry::insert`: the map and the position of the value
  unfoldable pub insert_vacant : VacantEntry I K V → V → Run (BTreeMap I K V × ℕ)
  insert_vacant e value = do
    rank ← rank_cmp e.map.set (key_below ⦃b = borrow_self {T = K}⦄ e.key)
    inserted ← Map.insert e.map e.key value
    item ← unwrap (Map.get_index inserted.1 rank)
    ok (inserted.1, rank)

  unfoldable pub or_insert : Entry I K V → V → Run (BTreeMap I K V × ℕ)
  or_insert (vacant e) default = insert_vacant e default
  or_insert (occupied e) default = into_mut e

  unfoldable pub or_insert_with : Entry I K V → (Unit {0} → V) → Run (BTreeMap I K V × ℕ)
  or_insert_with (vacant e) default = insert_vacant e (default tt)
  or_insert_with (occupied e) default = into_mut e

  unfoldable pub or_insert_with_key : Entry I K V → (K → V) → Run (BTreeMap I K V × ℕ)
  or_insert_with_key (vacant e) default = insert_vacant e (default e.key)
  or_insert_with_key (occupied e) default = into_mut e

  unfoldable pub key : Entry I K V → Run K
  key (vacant e) = ok e.key
  key (occupied e) = occupied_key e

  unfoldable pub and_modify : Entry I K V → (V → V) → Run (Entry I K V)
  and_modify (occupied e) change = get_mut e change >>= λ r. ok (occupied r.1)
  and_modify (vacant e) change = ok (vacant e)
