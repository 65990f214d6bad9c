-- ===== src/Map/Refines.antt =====
-- The methods of `BTreeMap` of src/lib.rs against the reference list of entries.
use indexset.Base.{◌≡◌, ap, List, Option, none, some, Ordering, is_eq, arith, ok, if◌then◌else◌}
use mathlib.Core.Option
use indexset.Order.{Ord, Borrow}
use indexset.Order.Spec.{find, erase, is_some, count_below}
use indexset.Fenwick.{FenwickTree, Counts}
use indexset.Pair.{Pair, pair_ord, against_key, against_key-IsProbe}
use indexset.Set.Query.{item_at}
use indexset.Set.Query.Lookup.{Reads, nothing, greater, equal, Spot-Reads, contains_cmp_refines}
use indexset.Set.Query.Position.{rank_cmp_refines}
use indexset.Set.Valid.{IsValid, items}
use indexset.Set.Spot.{locate_value_cmp-Spot}
use indexset.Set.Update.RemovalCmp.{delete_cmp_refines}
use indexset.Order.Spec.{keep_below, drop_below}
use indexset.Set.Update.Division.{split_off_cmp_refines}
use indexset.Map.{split_off, BTreeMap, contains_key, get_key_value, get, rank, remove, remove_entry}

-- the entries of a map, in the order of their keys
abbrev pub entries {ℓ κ} : {K : Type ℓ} {V : Type κ} {I : Type 0} → BTreeMap I K V → List (Pair K V)
entries m = items m.set

module _ {ℓ} {T : Type ℓ} {p : T → Ordering} {xs : List T} where
  chosen-Reads :
      (read : Option T)
      → Reads p xs read
      → (elim read [ none ↦ none | some x ↦ if is_eq (p x) then some x else none ]) ≡ find p xs
  chosen-Reads read (nothing r e f) = rw (r, e)
  chosen-Reads read (greater x r g e f) = rw (r, e, g)
  chosen-Reads read (equal x r g e f) = rw (r, e, g)

module _ {ℓ κ} {K : Type ℓ} {V : Type κ} {I : Type 0} ⦃k : Ord K⦄ ⦃f : FenwickTree I⦄ ⦃c : Counts I⦄
    (m : BTreeMap I K V) (valid : IsValid m.set) where
  module _ {μ} {Q : Type μ} ⦃q : Ord Q⦄ ⦃b : Borrow K Q⦄ (key : Q) where
    -- On a valid map `contains_key` returns whether an entry has the key.
    pub contains_key_refines :
        contains_key m key ≡ ok (is_some (find (against_key key) (entries m)))
    unfolding contains_key
    contains_key_refines = contains_cmp_refines m.set valid (against_key-IsProbe key)

    -- On a valid map `get_key_value` returns the entry that has the key, if there is one.
    get_key_value_refines : get_key_value m key ≡ ok (find (against_key key) (entries m))
    unfolding get_key_value
    get_key_value_refines =
        let (i, j, located, first, spot) =
          locate_value_cmp-Spot m.set valid.nodes valid.sorted (against_key-IsProbe key) in
        rw located (ap ok (chosen-Reads (item_at m.set (i, j)) (Spot-Reads m.set i j spot)))

    -- On a valid map `get` returns the value of the key, if the key is there.
    pub get_key_refines :
        get m key ≡ ok (Option.map (λ entry. entry.value) (find (against_key key) (entries m)))
    unfolding get
    get_key_refines = rw get_key_value_refines

    -- On a valid map `rank` counts the entries whose keys are less.
    rank_key_refines : rank m key ≡ ok (count_below (against_key key) (entries m))
    unfolding rank
    rank_key_refines = rank_cmp_refines m.set valid (against_key-IsProbe key)

    -- On a valid map `remove_entry` returns the entry that has the key, if there is one, and leaves
    -- a valid map of the other entries.
    remove_entry_refines :
        (m' : BTreeMap I K V) × (remove_entry m key ≡ ok (find (against_key key) (entries m), m'))
        × IsValid m'.set
        × (entries m' ≡ erase (against_key key) (entries m))
    unfolding remove_entry
    remove_entry_refines =
        let (s', deleted, valid', items') =
          delete_cmp_refines m.set valid (against_key key) (against_key-IsProbe key) in
        (record { set = s' }, rw deleted (ground arith), valid', items')

    -- On a valid map `remove` returns the value of the key, if the key is there, and leaves a valid
    -- map of the other entries.
    pub remove_key_refines :
        (m' : BTreeMap I K V) × (remove m key
          ≡ ok (Option.map (λ entry. entry.value) (find (against_key key) (entries m)), m'))
        × IsValid m'.set
        × (entries m' ≡ erase (against_key key) (entries m))
    unfolding remove
    remove_key_refines =
        let (s', deleted, valid', items') =
          delete_cmp_refines m.set valid (against_key key) (against_key-IsProbe key) in
        (record { set = s' }, rw deleted (ground arith), valid', items')

    -- On a valid map `split_off` returns two valid maps: the entries with lesser keys stay, and the
    -- others are split off.
    pub split_off_key_refines :
        (m' : BTreeMap I K V) × (off : BTreeMap I K V) × (split_off m key ≡ ok (m', off))
        × IsValid m'.set
        × IsValid off.set
        × (entries m' ≡ keep_below (against_key key) (entries m))
        × (entries off ≡ drop_below (against_key key) (entries m))
    unfolding split_off
    split_off_key_refines =
        let (s', off, divided, valid', off_valid, kept, dropped) =
          split_off_cmp_refines m.set valid (against_key-IsProbe key) in
        (record { set = s' }, record { set = off }, rw divided, valid', off_valid, kept, dropped)
