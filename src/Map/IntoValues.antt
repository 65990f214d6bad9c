-- ===== src/Map/IntoValues.antt =====
-- src/lib.rs: `IntoValues`, the iterator that `into_values` of a map returns, which owns the map.
use indexset.Base.{Option, Run, ok, ◌>>=◌}
use mathlib.Core.Option
use indexset.Fenwick.{FenwickTree}
use indexset.Map.IntoIter
use indexset.Map.IntoIter.{IntoIterMap}
use indexset.Map.{BTreeMap}

pub record IntoValues {ℓ κ} (I : Type 0) (K : Type ℓ) (V : Type κ) : Type (ℓ ⊔ κ) where
  pub inner : IntoIterMap I K V

module _ {ℓ κ} {K : Type ℓ} {V : Type κ} {I : Type 0} where
  unfoldable pub into_values : BTreeMap I K V → IntoValues I K V
  into_values m = record { inner = IntoIter.into_iter m }

module _ {ℓ κ} {K : Type ℓ} {V : Type κ} {I : Type 0} ⦃f : FenwickTree I⦄ where
  unfoldable pub next : IntoValues I K V → Run (Option V × IntoValues I K V)
  next i = do
    r ← IntoIter.next i.inner
    ok (Option.map (λ entry. entry.1) r.0, record { inner = r.1 })

  unfoldable pub next_back : IntoValues I K V → Run (Option V × IntoValues I K V)
  next_back i = do
    r ← IntoIter.next_back i.inner
    ok (Option.map (λ entry. entry.1) r.0, record { inner = r.1 })
