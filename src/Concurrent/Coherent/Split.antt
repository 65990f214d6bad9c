-- ===== src/Concurrent/Coherent/Split.antt =====
-- `commit` of a split, given what the node and the index hold.
use indexset.Base.{
  ℕ, suc, ◌≡◌, refl, List, [], ◌∷◌, Option, none, some, Bool, true, false, ok, ◌&&◌, length,
  ==_refl, if◌then◌else◌,
}
use indexset.Order.{Ord}
use indexset.Pair.{Pair}
use indexset.Node
use indexset.Cdc.{ChangeEventUnassigned, split_node}
use indexset.Concurrent.SkipMap.{SkipMap}
use indexset.Concurrent.Operation.{
  Shared, commit, commit_split, split, write, put_value, exceeds, lower_half, upper_half,
}

module _ {ℓ} {M T : Type ℓ} ⦃t : Ord T⦄ ⦃s : SkipMap M T⦄ (index : M) (address : ℕ) (half : List T)
    (value max : T) (had : Node.max half ≡ some max) where
  lower_half-put :
      (b : Bool) (node : List T) (old : Option T) (events : List (ChangeEventUnassigned T))
      → exceeds value max ≡ false
      → put_value half max value ≡ ok (b, node, old, events)
      → lower_half index address half value
        ≡ ok (record {
          node = node;
          index = s.insert index max address;
          old_value = old;
          cdc = events;
          insert_attempted = true;
        })
  lower_half-put b node old events within put = rw (had, lower_half) (rw within (rw put refl))

  lower_half-kept :
      exceeds value max ≡ true
      → lower_half index address half value
        ≡ ok (record {
          node = half;
          index = s.insert index max address;
          old_value = none;
          cdc = [];
          insert_attempted = false;
        })
  lower_half-kept beyond = rw (had, lower_half) (rw beyond refl)

module _ {ℓ} {M T : Type ℓ} ⦃t : Ord T⦄ ⦃s : SkipMap M T⦄ (shared : Shared M T) (e : Pair T ℕ)
    (key value max : T) (low high : List T) (low_max high_max : T)
    (got : s.get shared.index key ≡ some e) (had : Node.max (shared.cell e.value) ≡ some max)
    (halves : Node.halve (shared.cell e.value) ≡ ok (low, high))
    (had_low : Node.max low ≡ some low_max) (had_high : Node.max high ≡ some high_max) (b : Bool)
    (node : List T) (old : Option T) (events : List (ChangeEventUnassigned T)) where
  abbrev halved : M
  halved = s.insert (s.remove shared.index key) low_max e.value

  pub split-low :
      exceeds value low_max ≡ false
      → put_value low low_max value ≡ ok (b, node, old, events)
      → commit shared (split e.value key value)
        ≡ ok (
          some (old, split_node max (length low) ∷ events),
          record shared {
            index = s.insert halved high_max shared.next;
            cell = write (write shared.cell e.value node) shared.next high;
            next = suc shared.next;
          },
        )
  unfolding commit
  split-low within put =
      rw (got, commit_split)
        (rw (==_refl e.value) (
          rw had (
            rw halves (
              rw
                (lower_half-put (s.remove shared.index key) e.value low value low_max had_low b node
                  old events within put)
                (rw (had_high, upper_half) refl)))))

  pub split-high :
      exceeds value low_max ≡ true
      → put_value high high_max value ≡ ok (b, node, old, events)
      → commit shared (split e.value key value)
        ≡ ok (
          some (old, split_node max (length low) ∷ events),
          record shared {
            index =
                s.insert halved
                  (if b && exceeds value high_max then value else high_max)
                  shared.next;
            cell = write (write shared.cell e.value low) shared.next node;
            next = suc shared.next;
          },
        )
  unfolding commit
  split-high beyond put =
      rw (got, commit_split)
        (rw (==_refl e.value) (
          rw had (
            rw halves (
              rw
                (lower_half-kept (s.remove shared.index key) e.value low value low_max had_low
                  beyond)
                (rw (had_high, upper_half) (rw put refl))))))
