-- ===== src/Map/IntoIter.antt =====
-- src/lib.rs: `IntoIterMap`, the iterator that `into_iter` of a map returns, which owns the map.
use indexset.Base.{Option, Run, ok, ◌>>=◌}
use mathlib.Core.Option
use indexset.Fenwick.{FenwickTree}
use indexset.Pair.{Pair}
use indexset.Set.IntoIter as SetIntoIter
use indexset.Set.IntoIter.{IntoIter}
use indexset.Map.{BTreeMap}

pub record IntoIterMap {ℓ κ} (I : Type 0) (K : Type ℓ) (V : Type κ) : Type (ℓ ⊔ κ) where
  pub inner : IntoIter I (Pair K V)

module _ {ℓ κ} {K : Type ℓ} {V : Type κ} {I : Type 0} where
  unfoldable pub into_iter : BTreeMap I K V → IntoIterMap I K V
  into_iter m = record { inner = SetIntoIter.into_iter m.set }

module _ {ℓ κ} {K : Type ℓ} {V : Type κ} {I : Type 0} ⦃f : FenwickTree I⦄ where
  unfoldable pub next : IntoIterMap I K V → Run (Option (K × V) × IntoIterMap I K V)
  next i = do
    r ← SetIntoIter.next i.inner
    ok (Option.map (λ entry. (entry.key, entry.value)) r.0, record { inner = r.1 })

  unfoldable pub next_back : IntoIterMap I K V → Run (Option (K × V) × IntoIterMap I K V)
  next_back i = do
    r ← SetIntoIter.next_back i.inner
    ok (Option.map (λ entry. (entry.key, entry.value)) r.0, record { inner = r.1 })
